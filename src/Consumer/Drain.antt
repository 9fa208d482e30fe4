-- ===== src/Consumer/Drain.antt =====
-- The end of the work of a consumer: without new messages its threads come to rest, whatever order
-- they step in, as `shutdown(wait=True)` in `stop` and the wait loop of the service rely on.
use container_service_extens.Common.{
  ℕ, zero, suc, ◌+◌, ◌*◌, ◌≤◌, ◌<◌, ◌≡◌, ◌⊎◌, refl, subst, ap, Bool, true, false, Option, none,
  some, arith, Bool-cases, inl, inr,
}
use container_service_extens.Consumer.{
  Receiver, idle, entered, admitted, handed, counted, Consumer, max_threads_busy, check_busy,
  submit_job, count_job, attach_callback, end_own_job, end_job, run_callback, Event, receive, check,
  hand_over, count, attach, own_job_ends, job_ends, callback, close, shut, step, Reachable, stepped,
}
use container_service_extens.Consumer.Bounds.{IsSound, Reachable-IsSound}

-- The steps that are not the arrival of a message or a call of `stop`.
abbrev pub is_work : Event → Bool
is_work receive = false
is_work close = false
is_work shut = false
is_work _ = true

rank : Receiver → ℕ
rank idle = 0
rank (counted true) = 1
rank (handed true) = 2
rank (counted false) = 4
rank (handed false) = 5
rank admitted = 6
rank entered = 7

-- The work that is left, in steps at most.
pub left : Consumer → Receiver → ℕ
unfolding rank
left c r = c.attached * 2 + c.ending + rank r

Below : ℕ → Option Consumer → Type 0
Below k none = Unit
Below k (some d) = left d d.receiver < k

module _ (c : Consumer) where
  check-Below : (r : Receiver) → Below (left c r) (check_busy c r)
  unfolding check_busy left Below
  check-Below entered = elim (Bool-cases (max_threads_busy c.pool)) [
    | inl p ↦ rw p (omega arith)
    | inr p ↦ rw p (omega arith)
  ]
  check-Below idle = tt
  check-Below admitted = tt
  check-Below (handed b) = tt
  check-Below (counted b) = tt

  submit-Below : (r : Receiver) → Below (left c r) (submit_job c r)
  unfolding submit_job left Below
  submit-Below admitted = elim (Bool-cases c.shut_down) [
    | inl p ↦ rw p (omega arith)
    | inr p ↦ rw p (omega arith)
  ]
  submit-Below idle = tt
  submit-Below entered = tt
  submit-Below (handed b) = tt
  submit-Below (counted b) = tt

  count-Below : (r : Receiver) → Below (left c r) (count_job c r)
  unfolding count_job left Below
  count-Below (handed true) = omega arith
  count-Below (handed false) = omega arith
  count-Below idle = tt
  count-Below entered = tt
  count-Below admitted = tt
  count-Below (counted b) = tt

  attach-Below : (r : Receiver) → Below (left c r) (attach_callback c r)
  unfolding attach_callback left Below
  attach-Below (counted true) = omega arith
  attach-Below (counted false) = omega arith
  attach-Below idle = tt
  attach-Below entered = tt
  attach-Below admitted = tt
  attach-Below (handed b) = tt

  end_own-Below : (r : Receiver) → Below (left c r) (end_own_job c r)
  unfolding end_own_job left Below
  end_own-Below (handed false) = omega arith
  end_own-Below (counted false) = omega arith
  end_own-Below (handed true) = tt
  end_own-Below (counted true) = tt
  end_own-Below idle = tt
  end_own-Below entered = tt
  end_own-Below admitted = tt

  end_job-Below : (k : ℕ) → c.attached ≡ k → Below (left c c.receiver) (end_job c k)
  unfolding end_job left Below
  end_job-Below zero e = tt
  end_job-Below (suc k) e = omega (arith, e)

  callback-Below : (k : ℕ) → c.ending ≡ k → Below (left c c.receiver) (run_callback c k)
  unfolding run_callback left Below
  callback-Below zero e = tt
  callback-Below (suc k) e = omega (arith, e)

  step-Below : (e : Event) → is_work e ≡ true → Below (left c c.receiver) (step e c)
  unfolding step
  step-Below check h = check-Below c.receiver
  step-Below hand_over h = submit-Below c.receiver
  step-Below count h = count-Below c.receiver
  step-Below attach h = attach-Below c.receiver
  step-Below own_job_ends h = end_own-Below c.receiver
  step-Below job_ends h = end_job-Below c.attached refl
  step-Below callback h = callback-Below c.ending refl
  step-Below receive h = absurd cc
  step-Below close h = absurd cc
  step-Below shut h = absurd cc

-- Every step of work leaves less work.
step-left :
    (e : Event) (c d : Consumer)
    → is_work e ≡ true
    → step e c ≡ some d
    → left d d.receiver < left c c.receiver
unfolding Below
step-left e c d w h = subst (Below (left c c.receiver)) h (step-Below c e w)

-- A thread can make a step of work.
abbrev CanWork : Consumer → Type 0
CanWork c = (e : Event) × (d : Consumer) × (is_work e ≡ true) × (step e c ≡ some d)

busy_receiver : (c : Consumer) (r : Receiver) → c.receiver ≡ r → (r ≡ idle) ⊎ CanWork c
unfolding step check_busy submit_job count_job attach_callback
busy_receiver c idle e = inl refl
busy_receiver c entered e = inr (check, _, refl, ap (check_busy c) e)
busy_receiver c admitted e = inr (hand_over, _, refl, ap (submit_job c) e)
busy_receiver c (handed b) e = inr (count, _, refl, ap (count_job c) e)
busy_receiver c (counted true) e = inr (attach, _, refl, ap (attach_callback c) e)
busy_receiver c (counted false) e = inr (attach, _, refl, ap (attach_callback c) e)

busy_jobs : (c : Consumer) (k : ℕ) → c.attached ≡ k → (k ≡ 0) ⊎ CanWork c
unfolding step end_job
busy_jobs c zero e = inl refl
busy_jobs c (suc k) e = inr (job_ends, _, refl, ap (end_job c) e)

busy_callbacks : (c : Consumer) (k : ℕ) → c.ending ≡ k → (k ≡ 0) ⊎ CanWork c
unfolding step run_callback
busy_callbacks c zero e = inl refl
busy_callbacks c (suc k) e = inr (callback, _, refl, ap (run_callback c) e)

pub record AtRest (c : Consumer) : Type 0 where
  pub receiver : c.receiver ≡ idle
  pub attached : c.attached ≡ 0
  pub ending : c.ending ≡ 0

rest_or_work : (c : Consumer) → AtRest c ⊎ CanWork c
rest_or_work c = elim (busy_receiver c c.receiver refl) [
  | inr w ↦ inr w
  | inl p ↦ elim (busy_jobs c c.attached refl) [
    | inr w ↦ inr w
    | inl q ↦ elim (busy_callbacks c c.ending refl) [
      | inr w ↦ inr w
      | inl r ↦ inl (record { receiver = p; attached = q; ending = r })
    ]
  ]
]

-- A sequence of steps of work, of this length.
pub data StepsOfWork : ℕ → Consumer → Consumer → Type 0 where
  stop : {c : Consumer} → StepsOfWork 0 c c
  next :
      {k : ℕ} {c d f : Consumer} (e : Event)
      → is_work e ≡ true
      → step e c ≡ some d
      → StepsOfWork k d f
      → StepsOfWork (suc k) c f

left-StepsOfWork :
    (k : ℕ) (c d : Consumer) → StepsOfWork k c d → left d d.receiver + k ≤ left c c.receiver
left-StepsOfWork k c d stop = omega arith
left-StepsOfWork k c f (next {k = j} {d = d} e w h rest) =
    omega (arith, step-left e c d w h, left-StepsOfWork j d f rest)

-- With this much work left, the steps of work lead to rest.
rest_by_fuel :
    (fuel : ℕ) (c : Consumer)
    → left c c.receiver ≤ fuel
    → (k : ℕ) × (d : Consumer) × StepsOfWork k c d × AtRest d
rest_by_fuel zero c h = elim (rest_or_work c) [
  | inl r ↦ (0, c, stop, r)
  | inr (e, d, w, q) ↦ absurd (omega (arith, step-left e c d w q, h))
]
rest_by_fuel (suc fuel) c h = elim (rest_or_work c) [
  | inl r ↦ (0, c, stop, r)
  | inr (e, d, w, q) ↦
      let (k, f, work, rest) = rest_by_fuel fuel d (omega (arith, step-left e c d w q, h)) in
      (suc k, f, next e w q work, rest)
]

StepsOfWork-Reachable :
    (n k : ℕ) (c d : Consumer) → Reachable n c → StepsOfWork k c d → Reachable n d
StepsOfWork-Reachable n k c d r stop = r
StepsOfWork-Reachable n k c f r (next {k = j} {d = d} e w h rest) =
    StepsOfWork-Reachable n j d f (stepped e r h) rest

-- From every moment the steps of work lead to rest, in at most `left` steps; every sequence of them
-- is as short, and at rest no thread is busy and every accepted job has finished.
pub step-AtRest :
    (n : ℕ) (c : Consumer)
    → Reachable n c
    → ((k : ℕ) (d : Consumer) → StepsOfWork k c d → k ≤ left c c.receiver)
      × ((k : ℕ) × (d : Consumer) × StepsOfWork k c d
          × AtRest d
          × (d.pool.num_active_threads ≡ 0)
          × (d.accepted ≡ d.finished))
step-AtRest n c r =
    let (k, d, work, rest) = rest_by_fuel (left c c.receiver) c (omega arith) in
    let s =
      subst (IsSound n d) rest.receiver
        (Reachable-IsSound n d (StepsOfWork-Reachable n k c d r work)) in
    (
      λ j f w. omega (arith, left-StepsOfWork j c f w),
      (
        k,
        d,
        work,
        rest,
        omega (arith, s.active, rest.attached, rest.ending),
        omega (arith, s.jobs, rest.attached),
      ),
    )
