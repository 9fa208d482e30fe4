-- ===== src/OvdcService.antt =====
-- container_service_extension/rde/ovdc_service.py: which Kubernetes runtimes a virtual data center (VDC)
-- offers. A runtime is offered by a placement policy of its name. The calls of vCloud Director are
-- constructors of `Call`, of which a parameter says which raise; telemetry and messages are left
-- out.
pub mod Runtimes
pub mod Machines
pub mod Policies
pub mod Requests
mod Tests
use container_service_extens.Common.{
  String, Bool, true, false, not, ◌&&◌, ◌||◌, ◌==◌, Option, none, some, List, [], ◌∷◌, ◌++◌, elem,
  if◌then◌else◌, Result, ok, err,
}
use container_service_extens.OvdcService.Runtimes.{
  internal_names, is_runtime, TaskStatus, running, success, error,
}
pub use container_service_extens.Common.Act.{
  continue, ◌>>=◌, ◌>>◌, pure, modify, when, check, from_option,
}

-- A virtual machine with its placement and its sizing policy.
pub record Vm : Type 0 where
  pub href : String
  pub placement : Option String
  pub sizing : Option String

-- The placement policies of CSE on the VDC, without their prefix, its machines, and the task.
pub record World : Type 0 where
  pub policies : List String
  pub vms : List Vm
  pub task : Option TaskStatus
  pub is_async : Bool
  pub ended : Bool

pub data Call : Type 0 where
  get_user get_vdc read_config list_policies : Call
  get_policy add_policy list_vms remove_policy : String → Call
  set_sizing remove_placement : String → Call
  report : TaskStatus → Call

pub data Raised : Type 0 where
  tkg_plus_disabled key_error : Raised
  remote_error : Call → Raised

abbrev pub Outcome : Type 0 → Type 0
Outcome A = Result Raised A × World

abbrev pub M : Type 0 → Type 0
M A = World → Outcome A

-- `try: ... except Exception as err: h`
abbrev pub handled : Outcome (Unit {0}) → M (Unit {0}) → Outcome (Unit {0})
handled (ok a, w) h = (ok a, w)
handled (err e, w) h = h w

-- `finally: operation_context.end()`
abbrev pub closed : Outcome (Unit {0}) → Outcome (Unit {0})
closed (r, w) = (r, record w { ended = true })

abbrev pub has_placement : String → Vm → Bool
has_placement p v = elim v.placement [ none ↦ false | some q ↦ q == p ]

abbrev pub lacks_sizing : Vm → Bool
lacks_sizing v = elim v.sizing [ none ↦ true | some s ↦ false ]

-- The machines with the policy, which are looked up before any is changed.
unfoldable pub placed : String → List Vm → List Vm
placed p [] = []
placed p (v ∷ vs) = if has_placement p v then v ∷ placed p vs else placed p vs

unfoldable pub change_vm : (Vm → Vm) → String → List Vm → List Vm
change_vm f n [] = []
change_vm f n (v ∷ vs) = (if v.href == n then f v else v) ∷ change_vm f n vs

-- `set(xs) - set(ys)`, in the order of `xs`; a set has none.
unfoldable pub minus : List String → List String → List String
minus [] ys = []
minus (x ∷ xs) ys = if elem x ys then minus xs ys else x ∷ minus xs (x ∷ ys)

unfoldable pub without : String → List String → List String
without p [] = []
without p (q ∷ qs) = if q == p then without p qs else q ∷ without p qs

module _ (fails : Call → Bool) where
  unfoldable pub call : Call → M (Unit {0})
  call c = check (not (fails c)) (remote_error c)

  unfoldable pub tell : TaskStatus → M (Unit {0})
  unfolding call
  tell s = do call (report s); modify (λ w. record w { task = some s })

  unfoldable pub add_policies : List String → M (Unit {0})
  unfolding call tell
  add_policies [] = pure tt
  add_policies (p ∷ ps) = do
    tell running
    call (get_policy p)
    call (add_policy p)
    modify (λ w. record w { policies = w.policies ++ (p ∷ []) })
    add_policies ps

  unfoldable pub set_default_sizing : String → M (Unit {0})
  unfolding call tell change_vm
  set_default_sizing href = do
    call (set_sizing href)
    modify λ w. record w {
      vms = change_vm (λ u. record u { sizing = some "System Default" }) href w.vms;
    }
    tell running

  unfoldable pub unplace_vm : String → M (Unit {0})
  unfolding call tell change_vm
  unplace_vm href = do
    call (remove_placement href)
    modify (λ w. record w { vms = change_vm (λ u. record u { placement = none }) href w.vms })
    tell running

  -- A machine without a sizing policy gets the system's default one first.
  unfoldable pub clear_vm : Vm → M (Unit {0})
  unfolding set_default_sizing unplace_vm
  clear_vm v = do when (lacks_sizing v) (set_default_sizing v.href); unplace_vm v.href

  unfoldable pub clear_vms : List Vm → M (Unit {0})
  unfolding clear_vm
  clear_vms [] = pure tt
  clear_vms (v ∷ vs) = do clear_vm v; clear_vms vs

  unfoldable pub clear_placement : String → M (Unit {0})
  unfolding call tell clear_vms placed
  clear_placement p = do call (list_vms p); tell running; λ w. clear_vms (placed p w.vms) w

  -- `remove_compute_policy_from_vdc_sync` in the task of the update.
  unfoldable pub remove_compute_policy : Bool → String → M (Unit {0})
  unfolding call tell clear_placement without
  remove_compute_policy force p = do
    when force (clear_placement p)
    tell running
    call (remove_policy p)
    modify (λ w. record w { policies = without p w.policies })

  unfoldable pub remove_policies : Bool → List String → M (Unit {0})
  unfolding call tell remove_compute_policy is_runtime
  remove_policies force [] = pure tt
  remove_policies force (p ∷ ps) = do
    check (is_runtime p) key_error
    tell running
    call (get_policy p)
    remove_compute_policy force p
    remove_policies force ps

  unfoldable pub change_policies : Bool → List String → List String → M (Unit {0})
  unfolding minus add_policies remove_policies
  change_policies force wanted existing = do
    add_policies (minus wanted existing)
    remove_policies force (minus existing wanted)
    tell success

  unfoldable pub update_work : Bool → List String → M (Unit {0})
  unfolding call change_policies
  update_work force wanted = do
    call read_config
    call list_policies
    λ w. change_policies force wanted w.policies w

  -- `_update_ovdc_using_placement_policy_async`
  unfoldable pub update_ovdc_using_placement_policy_async : Bool → List String → M (Unit {0})
  unfolding update_work tell
  update_ovdc_using_placement_policy_async force wanted w =
      closed (handled (update_work force wanted w) (tell error))

  -- The request, which returns the names that the thread starts with.
  unfoldable pub update_ovdc : Bool → List String → M (List String)
  unfolding call tell internal_names
  update_ovdc tkg_plus_enabled runtimes = do
    call get_user
    call get_vdc
    tell running
    modify (λ w. record w { is_async = true })
    check (not (elem "TKG+" runtimes && not tkg_plus_enabled)) tkg_plus_disabled
    from_option (internal_names runtimes) key_error
