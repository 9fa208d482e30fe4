-- ===== src/ClusterSpec/Update.antt =====
-- rde/validators/validator_rde_2_x.py: `Validator_2_1_0.validate` and the check of an update. A request
-- is for a native entity of RDE 2.1. Parameters are `to_dict` and `from_dict` of the data classes, which a
-- library writes, what vCloud Director answers, and whether the cluster is a TKGm cluster.
use container_service_extens.Common.{
  ℕ, String, Bool, true, false, ◌&&◌, ◌||◌, nat_eq, Option, none, some, List, [], ◌∷◌, ◌++◌, elem,
  if◌then◌else◌, Result, ok, err, ◌>>=◌, ◌>>◌, ◌==◌,
}
use container_service_extens.Common.Int.{ℤ, pos, is_zero}
use container_service_extens.Common.Dict.{Dict}
use container_service_extens.ClusterSpec.Model.{ClusterSpec, Node, Nodes, Status}
use container_service_extens.ClusterSpec.Construct.{
  SpecError, attribute_error, type_error, has_text, has_number,
  construct_cluster_spec_from_entity_status,
}
use container_service_extens.ClusterSpec.Tree.{Value, Members, Change, find_diff_fields}

-- The operations of `BehaviorOperation`.
pub data BehaviorOperation : Type 0 where
  create_cluster get_kube_config update_cluster delete_cluster delete_nfs_node : BehaviorOperation

pub data ValidationError : Type 0 where
  nothing_to_validate both_required : ValidationError
  unparsable workers_oversized control_plane_oversized : ValidationError
  -- The changes of the immutable fields.
  immutable : Dict Change → ValidationError
  resize_and_upgrade : ValidationError
  unsupported : ValidationError
  -- An exception of Python, and one of vCloud Director.
  spec_error : SpecError → ValidationError
  remote_error : ValidationError

-- `FlattenedClusterSpecKey2X`
abbrev pub workers_count : String
workers_count = "topology.workers.count"

abbrev pub nfs_count : String
nfs_count = "topology.nfs.count"

abbrev pub template_name : String
template_name = "distribution.templateName"

abbrev pub template_revision : String
template_revision = "distribution.templateRevision"

abbrev pub expose : String
expose = "settings.network.expose"

-- `VALID_UPDATE_FIELDS_2X`
abbrev pub valid_update_fields : List String
valid_update_fields = workers_count ∷ nfs_count ∷ template_name ∷ template_revision ∷ expose ∷ []

abbrev is_revision : ℕ → Option ℤ → Bool
is_revision n (some (pos m)) = nat_eq m n
is_revision n _ = false

-- The fields of which a change is not looked at.
unfoldable pub exclude_fields : Bool → ClusterSpec → ClusterSpec → List String
exclude_fields is_tkgm input reference =
    ("settings.network.pods.cidrBlocks" ∷ "settings.network.services.cidrBlocks" ∷ [])
    ++ ((if is_zero reference.topology.workers.count
          then "topology.workers.sizingClass" ∷ "topology.workers.storageProfile"
            ∷ "topology.workers.cpu" ∷ "topology.workers.memory" ∷ []
          else [])
        ++ ((if is_zero reference.topology.nfs.count
              then "topology.nfs.sizingClass" ∷ "topology.nfs.storageProfile" ∷ []
              else [])
            ++ (if is_tkgm
                  && is_revision 1 reference.distribution.template_revision
                  && is_revision 0 input.distribution.template_revision
                then template_revision ∷ []
                else [])))

-- `key in diff_fields`
abbrev pub has_key : String → Dict Change → Bool
has_key k [] = false
has_key k ((j, c) ∷ d) = j == k || has_key k d

unfoldable pub keys_with_invalid_value : Dict Change → Dict Change
keys_with_invalid_value [] = []
keys_with_invalid_value ((k, c) ∷ d) =
    let rest = keys_with_invalid_value d in
    if elem k valid_update_fields then rest else (k, c) ∷ rest

abbrev pub is_resize_operation : Dict Change → Bool
is_resize_operation d = has_key workers_count d || has_key nfs_count d

abbrev pub is_upgrade_operation : Dict Change → Bool
is_upgrade_operation d = has_key template_name d || has_key template_revision d

-- Whether a request with valid changes is an upgrade.
unfoldable pub kind_of_update : Bool → Bool → Result ValidationError Bool
kind_of_update true true = err resize_and_upgrade
kind_of_update _ is_upgrade = ok is_upgrade

unfoldable pub checked_changes : Dict Change → Dict Change → Result ValidationError Bool
unfolding kind_of_update
checked_changes d (c ∷ cs) = err (immutable (c ∷ cs))
checked_changes d [] = kind_of_update (is_resize_operation d) (is_upgrade_operation d)

unfoldable pub check_changes : Dict Change → Result ValidationError Bool
unfolding checked_changes keys_with_invalid_value
check_changes [] = ok false
check_changes (c ∷ d) = checked_changes (c ∷ d) (keys_with_invalid_value (c ∷ d))

-- A sizing class and numbers of the same nodes. The message for the control plane, which is written
-- later, stays.
unfoldable pub check_sizing : ClusterSpec → Result ValidationError (Unit {0})
check_sizing s =
    let workers = s.topology.workers in
    let control_plane = s.topology.control_plane in
    if has_text control_plane.sizing_class
      && (has_number control_plane.cpu || has_number control_plane.memory)
    then err control_plane_oversized
    else if has_text workers.sizing_class && (has_number workers.cpu || has_number workers.memory)
    then err workers_oversized
    else ok tt

abbrev pub as_spec_error {ℓ} : {A : Type ℓ} → Result SpecError A → Result ValidationError A
as_spec_error (ok a) = ok a
as_spec_error (err e) = err (spec_error e)

-- `a == b` on texts that may be None.
abbrev same_text : Option String → Option String → Bool
same_text none none = true
same_text (some s) (some t) = s == t
same_text _ _ = false

-- Whether the control plane, and the first worker, have the default sizing class.
abbrev first_has_class : Option String → Option (List Node) → Result ValidationError Bool
first_has_class policy none = err (spec_error type_error)
first_has_class policy (some []) = ok false
first_has_class policy (some (n ∷ ns)) = ok (same_text n.sizing_class policy)

default_sizing_of : Option String → Nodes → Option Node → Result ValidationError (Bool × Bool)
default_sizing_of policy nodes none = err (spec_error attribute_error)
default_sizing_of policy nodes (some n) = do
  in_workers ← first_has_class policy nodes.workers
  ok (same_text n.sizing_class policy, in_workers)

default_sizing_in : Option String → Option Nodes → Result ValidationError (Bool × Bool)
unfolding default_sizing_of
default_sizing_in policy none = err (spec_error attribute_error)
default_sizing_in policy (some nodes) = default_sizing_of policy nodes nodes.control_plane

module _ (to_dict : ClusterSpec → Members) where
  unfoldable pub validate_cluster_update_request_and_check_cluster_upgrade :
      ClusterSpec → ClusterSpec → Bool → Result ValidationError Bool
  unfolding check_changes exclude_fields
  validate_cluster_update_request_and_check_cluster_upgrade input reference is_tkgm =
      check_changes (
        find_diff_fields (exclude_fields is_tkgm input reference) (to_dict input)
          (to_dict reference))

  -- `default_policy` is the name of the default compute policy of the cluster's vDC, or the exception that
  -- was raised on the way to it.
  module _ (from_dict : Value → Option ClusterSpec)
      (get_entity : Result ValidationError (Option Status))
      (default_policy : Result ValidationError (Option String)) where
    unfoldable pub default_sizing : Bool → Option Status → Result ValidationError (Bool × Bool)
    unfolding default_sizing_in
    default_sizing false status = ok (false, false)
    default_sizing true none = err (spec_error attribute_error)
    default_sizing true (some s) = default_policy >>= λ policy. default_sizing_in policy s.nodes

    unfoldable pub validate_update : Bool → ClusterSpec → Result ValidationError Bool
    unfolding default_sizing validate_cluster_update_request_and_check_cluster_upgrade
    validate_update is_tkgm input = do
      status ← get_entity
      sizing ← default_sizing is_tkgm status
      reference ← as_spec_error (construct_cluster_spec_from_entity_status sizing.0 sizing.1 status)
      validate_cluster_update_request_and_check_cluster_upgrade input reference is_tkgm

    unfoldable pub parsed : Option ClusterSpec → Result ValidationError ClusterSpec
    parsed none = err unparsable
    parsed (some s) = ok s

    unfoldable pub validate_parsed :
        BehaviorOperation → Bool → Bool → Option ClusterSpec → Result ValidationError Bool
    unfolding validate_update
    validate_parsed create_cluster is_tkgm has_id input = ok true
    validate_parsed update_cluster is_tkgm true (some s) = validate_update is_tkgm s
    validate_parsed update_cluster is_tkgm has_id input = err both_required
    validate_parsed _ is_tkgm has_id input = err unsupported

    -- `has_id` says whether there is an entity id; an entity that is None or empty is `none`.
    unfoldable pub validate :
        BehaviorOperation → Bool → Bool → Option Value → Result ValidationError Bool
    unfolding parsed check_sizing validate_parsed
    validate op is_tkgm false none = err nothing_to_validate
    validate op is_tkgm true none = validate_parsed op is_tkgm true none
    validate op is_tkgm has_id (some entity) = do
      s ← parsed (from_dict entity)
      check_sizing s
      validate_parsed op is_tkgm has_id (some s)
