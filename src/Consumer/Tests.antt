-- ===== src/Consumer/Tests.antt =====
-- Runs of a consumer and witnesses of the theorems on it.
use container_service_extens.Common.{
  Bool-cases, List, String, [], elem, eq_refl, false, if◌then◌else◌, inl, inr, refl, some, suc,
  true, ℕ, ◌+◌, ◌==◌, ◌∷◌, ◌≡◌, ◌≤◌,
}
use container_service_extens.Consumer.{
  Consumer, init, idle, entered, admitted, handed, counted, receive, check, hand_over, count,
  attach, own_job_ends, step, Reachable, started, stepped, max_threads_busy,
  increment_num_active_threads,
}
use container_service_extens.Consumer.Amqp.{Answer, rejected, accepted, Amqp, on_message}
use container_service_extens.Consumer.Amqp.Redelivery.{workers_of, on_message-redelivered}
use container_service_extens.Consumer.Bounds.{
  IsSound, unfinished_of, Reachable-IsSound, unfinished_jobs-bound,
}
use container_service_extens.Consumer.Drain.{StepsOfWork, AtRest, left, step-AtRest}

-- One worker that has a job, which ends before its callback is added.
abbrev came : Consumer
came = record (init 1) { received = 1; receiver = entered }

abbrev free : Consumer
free = record came { receiver = admitted }

abbrev taken : Consumer
taken = record free { accepted = 1; receiver = handed false }

abbrev ended : Consumer
ended = record taken { finished = 1; receiver = handed true }

abbrev busy : Consumer
busy = record ended {
  pool = record { max_workers = 1; num_active_threads = 1 };
  receiver = counted true;
}

busy-Reachable : Reachable 1 busy
unfolding step
busy-Reachable =
    stepped {c = ended} count
      (stepped {c = taken} own_job_ends
        (stepped {c = free} hand_over
          (stepped {c = came} check (stepped {c = init 1} receive started refl) refl) refl)
        refl)
      refl

-- The callback runs when it is added, and the worker is free again.
free_again :
    step attach busy
    ≡ some
        (record busy { pool = record { max_workers = 1; num_active_threads = 0 }; receiver = idle })
unfolding step
free_again = refl

Reachable-IsSound_example : IsSound 1 busy (counted true)
Reachable-IsSound_example = Reachable-IsSound 1 busy busy-Reachable

unfinished_jobs-bound_example : busy.attached + unfinished_of busy.receiver ≤ 1
unfinished_jobs-bound_example = unfinished_jobs-bound 1 busy busy-Reachable

step-AtRest_example :
    ((k : ℕ) (d : Consumer) → StepsOfWork k busy d → k ≤ left busy busy.receiver)
    × ((k : ℕ) × (d : Consumer) × StepsOfWork k busy d
        × AtRest d
        × (d.pool.num_active_threads ≡ 0)
        × (d.accepted ≡ d.finished))
step-AtRest_example = step-AtRest 1 busy busy-Reachable

abbrev with_id : String → List String → List String
with_id id c = id ∷ c

all_without : String → List String → List String
all_without id [] = []
all_without id (x ∷ xs) = let rest = all_without id xs in if x == id then rest else x ∷ rest

elem-with_id : (id : String) (c : List String) → elem id (with_id id c) ≡ true
elem-with_id id c = rw (eq_refl id) refl

elem-all_without : (id : String) (c : List String) → elem id (all_without id c) ≡ false
unfolding all_without
elem-all_without id [] = refl
elem-all_without id (x ∷ xs) = elim (Bool-cases (x == id)) [
  | inl p ↦ rw p (elem-all_without id xs)
  | inr p ↦ rw (p, p) (elem-all_without id xs)
]

-- Two workers, and no request yet.
abbrev quiet : Amqp (List String) elem with_id all_without
quiet = record {
  pool = record { max_workers = 2; num_active_threads = 0 };
  is_closed = false;
  requests_being_processed = [];
  running = [];
}

abbrev deliver :
    Amqp (List String) elem with_id all_without
    → Answer × Amqp (List String) elem with_id all_without
deliver s = on_message (List String) elem with_id all_without "r1" s

first_accepted : (deliver quiet).0 ≡ accepted
unfolding on_message max_threads_busy
first_accepted = refl

worker_free : max_threads_busy (deliver quiet).1.pool ≡ false
unfolding on_message max_threads_busy increment_num_active_threads
worker_free = refl

on_message-redelivered_example :
    ((deliver (deliver quiet).1).0 ≡ rejected)
    × ((deliver (deliver quiet).1).1.running ≡ (deliver quiet).1.running)
    × ((deliver (deliver (deliver quiet).1).1).0 ≡ accepted)
    × (workers_of "r1" (deliver (deliver (deliver quiet).1).1).1.running
        ≡ suc (workers_of "r1" (deliver quiet).1.running))
on_message-redelivered_example =
    on_message-redelivered (List String) elem with_id all_without elem-with_id elem-all_without "r1"
      quiet first_accepted worker_free
