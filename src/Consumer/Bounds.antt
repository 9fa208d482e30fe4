-- ===== src/Consumer/Bounds.antt =====
-- What holds of a consumer at every moment: how many workers are busy, and where the messages went.
use container_service_extens.Common.{
  ℕ, zero, suc, ◌+◌, ◌≤◌, ◌≡◌, refl, subst, true, false, Option, none, some, arith, Bool-cases, inl,
  inr,
}
use container_service_extens.Consumer.{
  Receiver, idle, entered, admitted, handed, counted, Consumer, max_threads_busy,
  increment_num_active_threads, decrement_num_active_threads, check_busy, receive_message,
  submit_job, count_job, attach_callback, end_own_job, end_job, run_callback, Event, receive, check,
  hand_over, count, attach, own_job_ends, job_ends, callback, close, shut, step, Reachable, started,
  stepped,
}

-- 1 if the receiving thread has counted its job, 1 if it will, 1 if it has a message in hand, 1 if
-- its job is not finished.
abbrev pub counted_by : Receiver → ℕ
counted_by (counted _) = 1
counted_by _ = 0

abbrev pub promised_by : Receiver → ℕ
promised_by admitted = 1
promised_by (handed _) = 1
promised_by _ = 0

abbrev pub held_by : Receiver → ℕ
held_by entered = 1
held_by admitted = 1
held_by _ = 0

abbrev pub unfinished_of : Receiver → ℕ
unfinished_of (handed false) = 1
unfinished_of (counted false) = 1
unfinished_of _ = 0

-- The number of busy threads is the number of jobs whose callback has not run, and with a job that
-- is to be counted it stays within the workers; no message and no job is forgotten.
pub record IsSound (n : ℕ) (c : Consumer) (r : Receiver) : Type 0 where
  pub workers : c.pool.max_workers ≡ n
  pub active : c.pool.num_active_threads ≡ c.attached + c.ending + counted_by r
  pub room : c.pool.num_active_threads + promised_by r ≤ n
  pub messages : c.received ≡ c.ignored + c.refused + c.lost + c.accepted + held_by r
  pub jobs : c.accepted ≡ c.finished + c.attached + unfinished_of r

abbrev Holds : ℕ → Option Consumer → Type 0
Holds n none = Unit
Holds n (some d) = IsSound n d d.receiver

module _ (n : ℕ) (c : Consumer) where
  receive-Holds : (r : Receiver) → c.receiver ≡ r → IsSound n c r → Holds n (receive_message c r)
  unfolding receive_message
  receive-Holds idle e s = elim (Bool-cases c.is_closing) [
    | inl p ↦
        rw (p, e)
          (record {
            workers = s.workers;
            active = s.active;
            room = s.room;
            messages = omega (arith, s.messages);
            jobs = s.jobs;
          })
    | inr p ↦ rw p (record {
      workers = s.workers;
      active = s.active;
      room = s.room;
      messages = omega (arith, s.messages);
      jobs = s.jobs;
    })
  ]
  receive-Holds entered e s = tt
  receive-Holds admitted e s = tt
  receive-Holds (handed b) e s = tt
  receive-Holds (counted b) e s = tt

  check-Holds : (r : Receiver) → IsSound n c r → Holds n (check_busy c r)
  unfolding check_busy
  check-Holds entered s = elim (Bool-cases (max_threads_busy c.pool)) [
    | inl p ↦ rw p (record {
      workers = s.workers;
      active = s.active;
      room = s.room;
      messages = omega (arith, s.messages);
      jobs = s.jobs;
    })
    | inr p ↦ rw p (record {
      workers = s.workers;
      active = s.active;
      room = ground (arith, s.room, s.workers);
      messages = omega (arith, s.messages);
      jobs = s.jobs;
    })
  ]
  check-Holds idle s = tt
  check-Holds admitted s = tt
  check-Holds (handed b) s = tt
  check-Holds (counted b) s = tt

  submit-Holds : (r : Receiver) → IsSound n c r → Holds n (submit_job c r)
  unfolding submit_job
  submit-Holds admitted s = elim (Bool-cases c.shut_down) [
    | inl p ↦ rw p (record {
      workers = s.workers;
      active = s.active;
      room = omega (arith, s.room);
      messages = omega (arith, s.messages);
      jobs = s.jobs;
    })
    | inr p ↦ rw p (record {
      workers = s.workers;
      active = s.active;
      room = s.room;
      messages = omega (arith, s.messages);
      jobs = omega (arith, s.jobs);
    })
  ]
  submit-Holds idle s = tt
  submit-Holds entered s = tt
  submit-Holds (handed b) s = tt
  submit-Holds (counted b) s = tt

  count-Holds : (r : Receiver) → IsSound n c r → Holds n (count_job c r)
  unfolding count_job increment_num_active_threads
  count-Holds (handed true) s = record {
    workers = s.workers;
    active = omega (arith, s.active);
    room = omega (arith, s.room);
    messages = s.messages;
    jobs = s.jobs;
  }
  count-Holds (handed false) s = record {
    workers = s.workers;
    active = omega (arith, s.active);
    room = omega (arith, s.room);
    messages = s.messages;
    jobs = s.jobs;
  }
  count-Holds idle s = tt
  count-Holds entered s = tt
  count-Holds admitted s = tt
  count-Holds (counted b) s = tt

  attach-Holds : (r : Receiver) → IsSound n c r → Holds n (attach_callback c r)
  unfolding attach_callback decrement_num_active_threads
  attach-Holds (counted true) s = record {
    workers = s.workers;
    active = omega (arith, s.active);
    room = omega (arith, s.room);
    messages = s.messages;
    jobs = s.jobs;
  }
  attach-Holds (counted false) s = record {
    workers = s.workers;
    active = omega (arith, s.active);
    room = omega (arith, s.room);
    messages = s.messages;
    jobs = omega (arith, s.jobs);
  }
  attach-Holds idle s = tt
  attach-Holds entered s = tt
  attach-Holds admitted s = tt
  attach-Holds (handed b) s = tt

  end_own-Holds : (r : Receiver) → IsSound n c r → Holds n (end_own_job c r)
  unfolding end_own_job
  end_own-Holds (handed false) s = record {
    workers = s.workers;
    active = s.active;
    room = s.room;
    messages = s.messages;
    jobs = omega (arith, s.jobs);
  }
  end_own-Holds (counted false) s = record {
    workers = s.workers;
    active = s.active;
    room = s.room;
    messages = s.messages;
    jobs = omega (arith, s.jobs);
  }
  end_own-Holds (handed true) s = tt
  end_own-Holds (counted true) s = tt
  end_own-Holds idle s = tt
  end_own-Holds entered s = tt
  end_own-Holds admitted s = tt

  end_job-Holds : (k : ℕ) → c.attached ≡ k → IsSound n c c.receiver → Holds n (end_job c k)
  unfolding end_job
  end_job-Holds zero e s = tt
  end_job-Holds (suc k) e s = record {
    workers = s.workers;
    active = omega (arith, s.active, e);
    room = s.room;
    messages = s.messages;
    jobs = omega (arith, s.jobs, e);
  }

  callback-Holds : (k : ℕ) → c.ending ≡ k → IsSound n c c.receiver → Holds n (run_callback c k)
  unfolding run_callback decrement_num_active_threads
  callback-Holds zero e s = tt
  callback-Holds (suc k) e s = record {
    workers = s.workers;
    active = omega (arith, s.active, e);
    room = omega (arith, s.room, s.active, e);
    messages = s.messages;
    jobs = s.jobs;
  }

  step-Holds : (e : Event) → IsSound n c c.receiver → Holds n (step e c)
  unfolding step
  step-Holds receive s = receive-Holds c.receiver refl s
  step-Holds check s = check-Holds c.receiver s
  step-Holds hand_over s = submit-Holds c.receiver s
  step-Holds count s = count-Holds c.receiver s
  step-Holds attach s = attach-Holds c.receiver s
  step-Holds own_job_ends s = end_own-Holds c.receiver s
  step-Holds job_ends s = end_job-Holds c.attached refl s
  step-Holds callback s = callback-Holds c.ending refl s
  step-Holds close s = record {
    workers = s.workers;
    active = s.active;
    room = s.room;
    messages = s.messages;
    jobs = s.jobs;
  }
  step-Holds shut s = elim (Bool-cases c.is_closing) [
    | inl p ↦ rw p (record {
      workers = s.workers;
      active = s.active;
      room = s.room;
      messages = s.messages;
      jobs = s.jobs;
    })
    | inr p ↦ rw p tt
  ]

-- At every moment of a consumer with `n` workers, the busy threads are the jobs whose callback is
-- to run, and no more than the workers, a promised job included; and every message and every job is
-- accounted for.
pub Reachable-IsSound : (n : ℕ) (c : Consumer) → Reachable n c → IsSound n c c.receiver
Reachable-IsSound n c started = record {
  workers = refl;
  active = refl;
  room = omega arith;
  messages = refl;
  jobs = refl;
}
Reachable-IsSound n d (stepped {c = c} e r h) =
    subst (Holds n) h (step-Holds n c e (Reachable-IsSound n c r))

-- The executor never holds more unfinished jobs than it has workers, so that no accepted message
-- waits for a worker.
pub unfinished_jobs-bound :
    (n : ℕ) (c : Consumer) → Reachable n c → c.attached + unfinished_of c.receiver ≤ n
unfinished_jobs-bound n c r = bound c.receiver (Reachable-IsSound n c r)
  where
    bound : (p : Receiver) → IsSound n c p → c.attached + unfinished_of p ≤ n
    bound idle s = omega (arith, s.active, s.room)
    bound entered s = omega (arith, s.active, s.room)
    bound admitted s = omega (arith, s.active, s.room)
    bound (handed true) s = omega (arith, s.active, s.room)
    bound (handed false) s = omega (arith, s.active, s.room)
    bound (counted true) s = omega (arith, s.active, s.room)
    bound (counted false) s = omega (arith, s.active, s.room)
