-- ===== src/OvdcService/Tests.antt =====
-- Updates of VDCs, and witnesses of the theorems on them.
use container_service_extens.Common.{◌≡◌, refl, Bool, true, false, none, some, [], ◌∷◌}
use container_service_extens.OvdcService.{
  Vm, World, Call, remove_policy, update_ovdc, update_ovdc_using_placement_policy_async,
}
use container_service_extens.OvdcService.Runtimes.{running, success, error}
use container_service_extens.OvdcService.Policies.{
  Updated, update_ovdc_using_placement_policy_async-Updated,
}
use container_service_extens.OvdcService.Requests.{Answered, update_ovdc-Answered}

abbrev machine : Vm
machine = record { href = "vm-1"; placement = some "native"; sizing = none }

abbrev world : World
world = record {
  policies = "native" ∷ "tkgm" ∷ [];
  vms = machine ∷ record { href = "vm-2"; placement = some "tkgm"; sizing = some "small" } ∷ [];
  task = none;
  is_async = false;
  ended = false;
}

abbrev never : Call → Bool
never c = false

abbrev used : Call → Bool
used (remove_policy p) = true
used _ = false

moved :
    (update_ovdc_using_placement_policy_async never true ("tkgm" ∷ "tkgplus" ∷ []) world).1
    ≡ record {
      policies = "tkgm" ∷ "tkgplus" ∷ [];
      vms =
          record { href = "vm-1"; placement = none; sizing = some "System Default" }
          ∷ record { href = "vm-2"; placement = some "tkgm"; sizing = some "small" }
          ∷ [];
      task = some success;
      is_async = false;
      ended = true;
    }
unfolding update_ovdc_using_placement_policy_async
moved = refl

kept : (update_ovdc_using_placement_policy_async used false ("tkgm" ∷ []) world).1.task ≡ some error
unfolding update_ovdc_using_placement_policy_async
kept = refl

disabled : (update_ovdc never false ("TKG+" ∷ []) world).1.task ≡ some running
unfolding update_ovdc
disabled = refl

update_ovdc_using_placement_policy_async-Updated_example :
    Updated never true
      ("tkgm" ∷ "tkgplus" ∷ [])
      world
      (update_ovdc_using_placement_policy_async never true ("tkgm" ∷ "tkgplus" ∷ []) world)
update_ovdc_using_placement_policy_async-Updated_example =
    update_ovdc_using_placement_policy_async-Updated never true ("tkgm" ∷ "tkgplus" ∷ []) world

update_ovdc-Answered_example :
    Answered never false ("TKG+" ∷ []) world (update_ovdc never false ("TKG+" ∷ []) world)
update_ovdc-Answered_example = update_ovdc-Answered never false ("TKG+" ∷ []) world
