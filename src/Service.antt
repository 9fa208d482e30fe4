-- ===== src/Service.antt =====
-- container_service_extension/server/service.py: the state of the server, `update_status`, and the
-- part of `run` that waits for the end. The consumer is what `active_requests_count` and
-- `consumer.stop` see of it: none before `run` has made one, and else the requests in progress.
pub mod Transitions
pub mod Shutdown
mod Tests
use container_service_extens.Common.{
  ℕ, zero, ◌&&◌, String, Bool, true, false, Option, none, some, List, [], ◌∷◌, nat_eq,
  if◌then◌else◌, Result, ok, err,
}

pub data ServerState : Type 0 where
  running disabled stopping stopped : ServerState

-- `ServerAction`; a request can hold any other text.
pub data ServerAction : Type 0 where
  enable disable stop : ServerAction
  invalid : String → ServerAction

-- The messages that `update_status` returns, one constructor for each text.
pub data Reply : Type 0 where
  already_enabled has_been_disabled has_been_enabled already_disabled : Reply
  -- "Shutting down CSE", and how many requests it finishes first if there are any.
  shutting_down : Reply
  shutting_down_after : ℕ → Reply

-- `BadRequestError` by its text, and the `CseServerError` at the end of `update_status`.
pub data StatusError : Type 0 where
  must_be_disabled_first cannot_enable_while_stopping cannot_disable_while_stopping : StatusError
  invalid_server_action : String → StatusError
  invalid_server_state : ServerState → StatusError

pub record Service : Type 0 where
  pub state : ServerState
  pub consumer : Option ℕ

abbrev pub init : Service
init = record { state = stopped; consumer = none }

active_of : Option ℕ → ℕ
active_of none = 0
active_of (some n) = n

unfoldable pub active_requests_count : Service → ℕ
unfolding active_of
active_requests_count s = active_of s.consumer

is_state_running : ServerState → Bool
is_state_running running = true
is_state_running _ = false

unfoldable pub is_running : Service → Bool
unfolding is_state_running
is_running s = is_state_running s.state

abbrev pub Outcome : Type 0
Outcome = Result StatusError Reply × Service

-- The inner function of `update_status`.
graceful_shutdown : Service → Outcome
unfolding active_requests_count
graceful_shutdown s =
    let n = active_requests_count s in
    (
      ok (if nat_eq n 0 then shutting_down else shutting_down_after n),
      record s { state = stopping },
    )

while_running : ServerAction → Service → Outcome
while_running enable s = (ok already_enabled, s)
while_running disable s = (ok has_been_disabled, record s { state = disabled })
while_running stop s = (err must_be_disabled_first, s)
while_running (invalid a) s = (err (invalid_server_action a), s)

while_disabled : ServerAction → Service → Outcome
unfolding graceful_shutdown
while_disabled enable s = (ok has_been_enabled, record s { state = running })
while_disabled disable s = (ok already_disabled, s)
while_disabled stop s = graceful_shutdown s
while_disabled (invalid a) s = (err (invalid_server_state disabled), s)

while_stopping : ServerAction → Service → Outcome
unfolding graceful_shutdown
while_stopping enable s = (err cannot_enable_while_stopping, s)
while_stopping disable s = (err cannot_disable_while_stopping, s)
while_stopping stop s = graceful_shutdown s
while_stopping (invalid a) s = (err (invalid_server_state stopping), s)

status_in : ServerState → ServerAction → Service → Outcome
unfolding while_running while_disabled while_stopping
status_in running a s = while_running a s
status_in disabled a s = while_disabled a s
status_in stopping a s = while_stopping a s
status_in stopped a s = (err (invalid_server_state stopped), s)

unfoldable pub update_status : ServerAction → Service → Outcome
unfolding status_in
update_status a s = status_in s.state a s

-- A sequence of administrator's requests, each of which may be refused.
unfoldable pub update_all : List ServerAction → Service → Service
unfolding update_status
update_all [] s = s
update_all (a ∷ as') s = update_all as' (update_status a s).1

-- The test of the wait loop of `run`, once a second.
is_state_stopping : ServerState → Bool
is_state_stopping stopping = true
is_state_stopping _ = false

unfoldable pub stop_detected : Service → Bool
unfolding is_state_stopping active_requests_count
stop_detected s = is_state_stopping s.state && nat_eq (active_requests_count s) 0

-- What can happen while `run` waits: a request of an administrator, a change of the number of
-- requests in progress by the consumer's threads, the end of `time.sleep(1)`, at which the loop
-- makes its test, or Ctrl+C, which ends the loop. Any other exception exits the process, and is no
-- moment here.
pub data Moment : Type 0 where
  admin : ServerAction → Moment
  progress : ℕ → Moment
  wake interrupt : Moment

pub data Exit : Type 0 where
  still_waiting detected interrupted : Exit

-- The wait loop of `run` over the moments that come.
unfoldable pub wait_loop : List Moment → Service → Exit × Service
unfolding update_status stop_detected
wait_loop [] s = (still_waiting, s)
wait_loop (admin a ∷ ms) s = wait_loop ms (update_status a s).1
wait_loop (progress n ∷ ms) s = wait_loop ms (record s { consumer = some n })
wait_loop (wake ∷ ms) s =
    let rest = wait_loop ms s in if stop_detected s then (detected, s) else rest
wait_loop (interrupt ∷ ms) s = (interrupted, s)

-- After the loop. `consumer.stop` waits for the requests in progress (`shutdown(wait=True)`); an
-- exception of it is logged, and the state becomes STOPPED all the same.
unfoldable pub close : Bool → Service → Service
close stop_failed s = record s {
  state = stopped;
  consumer = if stop_failed then s.consumer else some 0;
}
