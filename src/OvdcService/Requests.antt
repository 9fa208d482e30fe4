-- ===== src/OvdcService/Requests.antt =====
-- How a request to update a VDC is answered.
use container_service_extens.Common.{
  String, ◌≡◌, refl, ◌⊎◌, inl, inr, Bool, true, false, not, ◌&&◌, Option, none, some, List, elem,
  ok, err,
}
use container_service_extens.OvdcService.{
  World, Call, get_user, get_vdc, report, Raised, remote_error, tkg_plus_disabled, key_error,
  Outcome, M, ◌>>◌, check, from_option, call, tell, update_ovdc,
}
use container_service_extens.OvdcService.Runtimes.{running, internal_names}

module _ (fails : Call → Bool) (enabled : Bool) (runtimes : List String) (w : World) where
  -- The request starts the thread, or it is refused, or a call fails.
  pub data Answered : Outcome (List String) → Type 0 where
    starts :
        (names : List String) (u : World)
        → internal_names runtimes ≡ some names
        → (elem "TKG+" runtimes && not enabled) ≡ false
        → u.task ≡ some running
        → Answered (ok names, u)
    left_running :
        (e : Raised) (u : World)
        → ((elem "TKG+" runtimes && not enabled) ≡ true) ⊎ (internal_names runtimes ≡ none)
        → u.task ≡ some running
        → Answered (err e, u)
    call_failed : (c : Call) (u : World) → fails c ≡ true → Answered (err (remote_error c), u)

  call-Answered :
      (c : Call) (b : Bool)
      → fails c ≡ b
      → (k : M (List String)) (u : World) → Answered (k u)
      → Answered ((call fails c >> k) u)
  unfolding call
  call-Answered c true h k u next = rw h (call_failed c u h)
  call-Answered c false h k u next = rw h next

  tell-Answered :
      (b : Bool)
      → fails (report running) ≡ b
      → (k : M (List String)) (u : World) → Answered (k (record u { task = some running }))
      → Answered ((tell fails running >> k) u)
  unfolding tell call
  tell-Answered true h k u next = rw h (call_failed (report running) u h)
  tell-Answered false h k u next = rw h next

  names-Answered :
      (o : Option (List String)) (u : World)
      → internal_names runtimes ≡ o
      → (elem "TKG+" runtimes && not enabled) ≡ false
      → u.task ≡ some running
      → Answered (from_option o key_error u)
  names-Answered none u h n t = left_running key_error u (inr h) t
  names-Answered (some names) u h n t = starts names u h n t

  check-Answered :
      (b : Bool) (u : World)
      → (elem "TKG+" runtimes && not enabled) ≡ b
      → u.task ≡ some running
      → Answered
          ((check (not b) tkg_plus_disabled >> from_option (internal_names runtimes) key_error) u)
  check-Answered true u h t = left_running tkg_plus_disabled u (inl h) t
  check-Answered false u h t = names-Answered (internal_names runtimes) u refl h t

  -- A request to update a VDC starts the thread with the policies of the runtimes, or a call of vCloud
  -- Director fails, or it is refused, for TKG+ where that is not enabled or for an unknown runtime; then
  -- its task has been made, and is left in the state RUNNING.
  pub update_ovdc-Answered : Answered (update_ovdc fails enabled runtimes w)
  unfolding update_ovdc
  update_ovdc-Answered =
      call-Answered get_user _ refl _ w
        (call-Answered get_vdc _ refl _ w (tell-Answered _ refl _ w (check-Answered _ _ refl refl)))
