-- ===== src/Service/Shutdown.antt =====
-- How the wait loop of `Service.run` ends.
use container_service_extens.Common.{
  ℕ, ◌≡◌, ◌≢◌, refl, subst, true, Option, some, List, [], ◌∷◌, ◌++◌, arith,
}
use container_service_extens.Service.{
  ServerState, running, disabled, stopping, ServerAction, enable, disable, stop, invalid, Service,
  update_status, active_requests_count, stop_detected, Moment, admin, progress, wake, interrupt,
  still_waiting, detected, wait_loop,
}
use container_service_extens.Service.Transitions.{
  disables_then_stops, has_stop, update_status-stopping, has_stop_of_order,
}

-- The requests among the moments.
abbrev pub admin_requests : List Moment → List ServerAction
admin_requests [] = []
admin_requests (admin a ∷ ms) = a ∷ admin_requests ms
admin_requests (_ ∷ ms) = admin_requests ms

abbrev At : ServerState → Option ℕ → Service
At t c = record { state = t; consumer = c }

mutual
  unfolding wait_loop

  loop_from_running :
      (ms : List Moment) (c : Option ℕ)
      → (wait_loop ms (At running c)).0 ≡ detected
      → disables_then_stops (admin_requests ms) ≡ true
  loop_from_running [] c h = cc
  loop_from_running (admin enable ∷ ms) c h = loop_from_running ms c h
  loop_from_running (admin disable ∷ ms) c h = loop_from_disabled ms c h
  loop_from_running (admin stop ∷ ms) c h = loop_from_running ms c h
  loop_from_running (admin (invalid x) ∷ ms) c h = loop_from_running ms c h
  loop_from_running (progress n ∷ ms) c h = loop_from_running ms (some n) h
  loop_from_running (wake ∷ ms) c h = loop_from_running ms c h
  loop_from_running (interrupt ∷ ms) c h = cc

  loop_from_disabled :
      (ms : List Moment) (c : Option ℕ)
      → (wait_loop ms (At disabled c)).0 ≡ detected
      → has_stop (admin_requests ms) ≡ true
  loop_from_disabled [] c h = cc
  loop_from_disabled (admin enable ∷ ms) c h =
      has_stop_of_order (admin_requests ms) (loop_from_running ms c h)
  loop_from_disabled (admin disable ∷ ms) c h = loop_from_disabled ms c h
  loop_from_disabled (admin stop ∷ ms) c h = refl
  loop_from_disabled (admin (invalid x) ∷ ms) c h = loop_from_disabled ms c h
  loop_from_disabled (progress n ∷ ms) c h = loop_from_disabled ms (some n) h
  loop_from_disabled (wake ∷ ms) c h = loop_from_disabled ms c h
  loop_from_disabled (interrupt ∷ ms) c h = cc

detected_state :
    (s : Service) → stop_detected s ≡ true → (s.state ≡ stopping) × (active_requests_count s ≡ 0)
unfolding stop_detected
detected_state s h = ground arith

loop_detected :
    (ms : List Moment) (s : Service)
    → (wait_loop ms s).0 ≡ detected
    → stop_detected (wait_loop ms s).1 ≡ true
unfolding wait_loop
loop_detected [] s h = cc
loop_detected (admin a ∷ ms) s h = loop_detected ms (update_status a s).1 h
loop_detected (progress n ∷ ms) s h = loop_detected ms (record s { consumer = some n }) h
loop_detected (wake ∷ ms) s h = ground (arith, loop_detected ms s)
loop_detected (interrupt ∷ ms) s h = cc

-- If the wait loop of a running server detects the stop, the server is stopping with no request in
-- progress, and an administrator has asked to disable it and later to stop it.
pub wait_loop-detected :
    (ms : List Moment) (s : Service)
    → s.state ≡ running
    → (wait_loop ms s).0 ≡ detected
    → ((wait_loop ms s).1.state ≡ stopping)
      × (active_requests_count (wait_loop ms s).1 ≡ 0)
      × (disables_then_stops (admin_requests ms) ≡ true)
wait_loop-detected ms s e h =
    let (p, q) = detected_state (wait_loop ms s).1 (loop_detected ms s h) in
    (
      p,
      q,
      loop_from_running ms s.consumer
          (subst (λ t. (wait_loop ms (At t s.consumer)).0 ≡ detected) e h),
    )

stop_detected_when_idle :
    (s : Service) → s.state ≡ stopping → stop_detected (record s { consumer = some 0 }) ≡ true
unfolding stop_detected
stop_detected_when_idle s e = ground arith

-- The wait loop of a stopping server has ended, by itself or by Ctrl+C, when it wakes after the
-- requests in progress have come down to none, whatever happened before.
wait_loop-ends :
    (before after : List Moment) (s : Service)
    → s.state ≡ stopping
    → (wait_loop (before ++ progress 0 ∷ wake ∷ after) s).0 ≢ still_waiting
unfolding wait_loop
wait_loop-ends [] after s e h = ground (arith, stop_detected_when_idle s e)
wait_loop-ends (admin a ∷ ms) after s e h =
    wait_loop-ends ms after (update_status a s).1 (update_status-stopping s a e) h
wait_loop-ends (progress n ∷ ms) after s e h =
    wait_loop-ends ms after (record s { consumer = some n }) e h
wait_loop-ends (wake ∷ ms) after s e h = ground (arith, wait_loop-ends ms after s e)
wait_loop-ends (interrupt ∷ ms) after s e h = cc
