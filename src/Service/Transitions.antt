-- ===== src/Service/Transitions.antt =====
-- Which changes of state `update_status` of service.py makes, one request and many.
use container_service_extens.Common.{
  ℕ, ◌≡◌, refl, sym, subst, Bool, true, false, Option, List, [], ◌∷◌, Result, ok, err,
}
use container_service_extens.Service.{
  ServerState, running, disabled, stopping, stopped, ServerAction, enable, disable, stop, invalid,
  Reply, StatusError, Service, update_status, update_all,
}

-- The transitions that a request may make.
pub data Allowed : ServerState → ServerAction → ServerState → Type 0 where
  pause : Allowed running disable disabled
  resume : Allowed disabled enable running
  shut : Allowed disabled stop stopping
  shut_again : Allowed stopping stop stopping
  stay_enabled : Allowed running enable running
  stay_disabled : Allowed disabled disable disabled

abbrev At : ServerState → Option ℕ → Service
At t c = record { state = t; consumer = c }

-- What the outcome of a request says: it is done along an allowed transition, or refused with
-- nothing changed where no transition is allowed.
abbrev pub Follows :
    ServerState → ServerAction → Service → Result StatusError Reply × Service → Type 0
Follows t a s (ok r, s') = Allowed t a s'.state × (s'.consumer ≡ s.consumer)
Follows t a s (err e, s') = (s' ≡ s) × ¬ ((u : ServerState) × Allowed t a u)

Follows-At :
    (t : ServerState) (a : ServerAction) (c : Option ℕ)
    → Follows t a (At t c) (update_status a (At t c))
unfolding update_status
Follows-At running enable c = (stay_enabled, refl)
Follows-At running disable c = (pause, refl)
Follows-At running stop c = (refl, λ m. elim m.1 [ ])
Follows-At running (invalid x) c = (refl, λ m. elim m.1 [ ])
Follows-At disabled enable c = (resume, refl)
Follows-At disabled disable c = (stay_disabled, refl)
Follows-At disabled stop c = (shut, refl)
Follows-At disabled (invalid x) c = (refl, λ m. elim m.1 [ ])
Follows-At stopping enable c = (refl, λ m. elim m.1 [ ])
Follows-At stopping disable c = (refl, λ m. elim m.1 [ ])
Follows-At stopping stop c = (shut_again, refl)
Follows-At stopping (invalid x) c = (refl, λ m. elim m.1 [ ])
Follows-At stopped enable c = (refl, λ m. elim m.1 [ ])
Follows-At stopped disable c = (refl, λ m. elim m.1 [ ])
Follows-At stopped stop c = (refl, λ m. elim m.1 [ ])
Follows-At stopped (invalid x) c = (refl, λ m. elim m.1 [ ])

-- A request that succeeds moves the server along an allowed transition for that request and leaves
-- the consumer as it was; one that is refused leaves the whole service as it was, and no
-- transition is allowed for it in that state.
pub update_status-Follows :
    (s : Service) (a : ServerAction) → Follows s.state a s (update_status a s)
update_status-Follows s a = Follows-At s.state a s.consumer

stays_stopping :
    (a : ServerAction) (c : Option ℕ) → (update_status a (At stopping c)).1.state ≡ stopping
unfolding update_status
stays_stopping enable c = refl
stays_stopping disable c = refl
stays_stopping stop c = refl
stays_stopping (invalid x) c = refl

pub update_status-stopping :
    (s : Service) (a : ServerAction) → s.state ≡ stopping → (update_status a s).1.state ≡ stopping
update_status-stopping s a e =
    subst (λ t. (update_status a (At t s.consumer)).1.state ≡ stopping) (sym e)
      (stays_stopping a s.consumer)

-- Once the server is stopping, no sequence of requests brings it back or forward.
update_all-stopping :
    (as' : List ServerAction) (s : Service)
    → s.state ≡ stopping
    → (update_all as' s).state ≡ stopping
unfolding update_all
update_all-stopping [] s e = e
update_all-stopping (a ∷ as') s e =
    update_all-stopping as' (update_status a s).1 (update_status-stopping s a e)

-- The requests hold a `stop`.
abbrev pub has_stop : List ServerAction → Bool
has_stop [] = false
has_stop (stop ∷ as') = true
has_stop (_ ∷ as') = has_stop as'

-- The requests hold a `disable` and, at some place after it, a `stop`.
abbrev pub disables_then_stops : List ServerAction → Bool
disables_then_stops [] = false
disables_then_stops (disable ∷ as') = has_stop as'
disables_then_stops (_ ∷ as') = disables_then_stops as'

pub has_stop_of_order :
    (as' : List ServerAction) → disables_then_stops as' ≡ true → has_stop as' ≡ true
has_stop_of_order [] h = h
has_stop_of_order (enable ∷ as') h = has_stop_of_order as' h
has_stop_of_order (disable ∷ as') h = h
has_stop_of_order (stop ∷ as') h = refl
has_stop_of_order (invalid x ∷ as') h = has_stop_of_order as' h

mutual
  unfolding update_all update_status

  stop_from_running :
      (as' : List ServerAction) (c : Option ℕ)
      → (update_all as' (At running c)).state ≡ stopping
      → disables_then_stops as' ≡ true
  stop_from_running [] c h = cc
  stop_from_running (enable ∷ as') c h = stop_from_running as' c h
  stop_from_running (disable ∷ as') c h = stop_from_disabled as' c h
  stop_from_running (stop ∷ as') c h = stop_from_running as' c h
  stop_from_running (invalid x ∷ as') c h = stop_from_running as' c h

  stop_from_disabled :
      (as' : List ServerAction) (c : Option ℕ)
      → (update_all as' (At disabled c)).state ≡ stopping
      → has_stop as' ≡ true
  stop_from_disabled [] c h = cc
  stop_from_disabled (enable ∷ as') c h = has_stop_of_order as' (stop_from_running as' c h)
  stop_from_disabled (disable ∷ as') c h = stop_from_disabled as' c h
  stop_from_disabled (stop ∷ as') c h = refl
  stop_from_disabled (invalid x ∷ as') c h = stop_from_disabled as' c h

-- If requests bring a running server to stopping, one of them was a `disable` and a later one a
-- `stop`: a server that serves is not stopped in one step.
update_all-order :
    (as' : List ServerAction) (s : Service)
    → s.state ≡ running
    → (update_all as' s).state ≡ stopping
    → disables_then_stops as' ≡ true
update_all-order as' s e h =
    stop_from_running as' s.consumer
      (subst (λ t. (update_all as' (At t s.consumer)).state ≡ stopping) e h)
