-- ===== src/Service/Tests.antt =====
-- Runs of the server's state and witnesses of the theorems on it.
use container_service_extens.Common.{◌≡◌, refl, some, List, [], ◌∷◌, true, false, ok, err}
use container_service_extens.Service.{
  running, disabled, stopping, stopped, ServerAction, enable, disable, stop, Service, init,
  shutting_down_after, must_be_disabled_first, update_status, update_all, active_requests_count,
  is_running, Moment, admin, progress, wake, detected, wait_loop, close,
}
use container_service_extens.Service.Transitions.{
  Follows, disables_then_stops, update_status-Follows,
}
use container_service_extens.Service.Shutdown.{admin_requests, wait_loop-detected}

abbrev serving : Service
serving = record { state = running; consumer = some 2 }

abbrev ending : Service
ending = record { state = stopping; consumer = some 2 }

stop_needs_disable : update_status stop serving ≡ (err must_be_disabled_first, serving)
unfolding update_status
stop_needs_disable = refl

stop_after_disable :
    (update_status stop (record serving { state = disabled })).0 ≡ ok (shutting_down_after 2)
unfolding update_status
stop_after_disable = refl

first_state : is_running init ≡ false
unfolding is_running
first_state = refl

closed : (close true ending).state ≡ stopped
unfolding close
closed = refl

update_status-Follows_example : Follows running disable serving (update_status disable serving)
update_status-Follows_example = update_status-Follows serving disable

abbrev orders : List ServerAction
orders = stop ∷ disable ∷ enable ∷ disable ∷ stop ∷ []

orders_stop : (update_all orders serving).state ≡ stopping
unfolding update_all
orders_stop = refl

abbrev moments : List Moment
moments = wake ∷ admin disable ∷ admin stop ∷ wake ∷ progress 0 ∷ wake ∷ []

moments_detected : (wait_loop moments serving).0 ≡ detected
unfolding wait_loop
moments_detected = refl

wait_loop-detected_example :
    ((wait_loop moments serving).1.state ≡ stopping)
    × (active_requests_count (wait_loop moments serving).1 ≡ 0)
    × (disables_then_stops (admin_requests moments) ≡ true)
wait_loop-detected_example = wait_loop-detected moments serving refl moments_detected
