-- ===== src/Behavior/Handlers.antt =====
-- server/behavior_handler.py: the handlers; rde/validators/validator_factory.py and
-- rde/backend/cluster_service_factory.py, from which they have the validator and the cluster service.
use container_service_extens.Common.{
  String, ◌==◌, nat_eq, Bool, false, Option, none, some, List, [], ◌∷◌, if◌then◌else◌, Result, ok,
  err, ◌>>=◌, ◌>>◌,
}
use container_service_extens.Common.Dict.{Dict, lookup}
use container_service_extens.ClusterSpec.Construct.{attribute_error, index_error, type_error}
use container_service_extens.ClusterSpec.Tree.{Value, null, text, arr, obj}
use container_service_extens.ClusterSpec.Update
use container_service_extens.ClusterSpec.Update.{
  BehaviorOperation, create_cluster, get_kube_config, update_cluster, delete_cluster,
  delete_nfs_node, ValidationError, nothing_to_validate, both_required, unparsable,
  workers_oversized, control_plane_oversized, immutable, resize_and_upgrade, unsupported,
  spec_error, remote_error,
}
use container_service_extens.Behavior.Json
use container_service_extens.Behavior.Json.{
  Raised, key_error, value_error, other_error, request_error, item, get, is_truthy,
}
use container_service_extens.Behavior.Environment.{
  Context, Service, service_1x, service_2x, service_2x_tkgm, Request, create, update, delete,
  config, delete_nodes, Validator, validator_1_0_0, validator_2_1_0, Server, bad_request,
  exception_handler,
}

abbrev pub map_input_payload_version_to_rde_version : Dict String
map_input_payload_version_to_rde_version =
    ("cse.vmware.com/v2.0", "2.0.0") ∷ ("cse.vmware.com/v2.1", "2.1.0") ∷ []

-- The version of a key, where a list or a dictionary is no key.
unfoldable pub rde_version_of : Value → Result Raised (Option String)
unfolding lookup
rde_version_of (text s) = ok (lookup s map_input_payload_version_to_rde_version)
rde_version_of (arr vs) = err (Json.type_error "unhashable")
rde_version_of (obj ms) = err (Json.type_error "unhashable")
rde_version_of v = ok none

unfoldable pub get_validator : String → Option Validator
get_validator version =
    if version == "1.0.0"
    then some validator_1_0_0
    else if version == "2.0.0"
    then some validator_2_1_0
    else if version == "2.1.0"
    then some validator_2_1_0
    else none

-- The exceptions of `Validator_2_1_0.validate`.
unfoldable pub as_raised : Raised → ValidationError → Raised
as_raised vcd nothing_to_validate =
    value_error "Either entity_id or entity is required to validate."
as_raised vcd both_required = value_error "Both entity_id and entity are required"
as_raised vcd unparsable = bad_request "Failed to parse request body"
as_raised vcd workers_oversized = bad_request "Cannot specify both sizing class and cpu/memory"
as_raised vcd control_plane_oversized =
    bad_request "Cannot specify both sizing class and cpu/memory"
as_raised vcd (immutable changes) = bad_request "Invalid input values"
as_raised vcd resize_and_upgrade = bad_request "Cannot perform resize and upgrade"
as_raised vcd unsupported = other_error "Validator not found"
as_raised vcd (spec_error attribute_error) = other_error "AttributeError"
as_raised vcd (spec_error index_error) = other_error "IndexError"
as_raised vcd (spec_error type_error) = Json.type_error "TypeError"
as_raised vcd remote_error = vcd

unfoldable pub raised_as : {A : Type 0} → Raised → Result ValidationError A → Result Raised A
unfolding as_raised
raised_as vcd (ok a) = ok a
raised_as vcd (err e) = err (as_raised vcd e)

-- An empty entity is none.
abbrev pub unless_empty : Value → Option Value
unless_empty v = if is_truthy v then some v else none

abbrev pub is_tkgm : Value → Bool
is_tkgm (text s) = s == "TKGm"
is_tkgm _ = false

abbrev service_of_kind : Value → Service
service_of_kind kind = if is_tkgm kind then service_2x_tkgm else service_2x

-- What was published meanwhile, what a handler returns or raises, and the call that it made.
abbrev pub Handled : Type 0
Handled = List Value × Result Raised Value × Option (Service × Request)

module _ (server : Server) where
  unfoldable pub supported : Option String → Result Raised String
  supported none = err (bad_request "Unsupported payload version")
  supported (some version) =
      if server.is_newer version server.rde_version_in_use
      then err (bad_request "Unsupported payload version")
      else ok version

  -- `raise_error_if_unsupported_payload_version`, with the version that is looked up next.
  unfoldable pub check_payload_version : Value → Result Raised String
  unfolding rde_version_of supported
  check_payload_version payload_version = do
    version ← rde_version_of payload_version
    supported version

  -- `entity_id` is None in a creation.
  unfoldable pub validate_with :
      Option Validator → BehaviorOperation → Bool → Value → Value → Result Raised Bool
  unfolding raised_as Update.validate
  validate_with none op is_tkgm entity_id entity = err (other_error "'validate'")
  validate_with (some validator_1_0_0) op is_tkgm entity_id entity =
      server.validate_1_0_0 op entity_id entity
  validate_with (some validator_2_1_0) op is_tkgm entity_id entity =
      raised_as server.raised_by_vcd (
        Update.validate server.to_dict server.from_dict (server.status_of entity_id)
          (server.default_policy entity_id) op is_tkgm (is_truthy entity_id) (unless_empty entity))

  service_2 : Value → Result Raised Service
  unfolding get
  service_2 null = err (other_error "'OperationContext' object has no attribute 'entity_id'")
  service_2 entity = do kind ← get "kind" entity; ok (service_of_kind kind)

  -- `ClusterServiceFactory.get_cluster_service`; a service that is None has no methods.
  unfoldable pub get_cluster_service : Value → Result Raised Service
  unfolding service_2
  get_cluster_service entity =
      if nat_eq server.major 1
      then ok service_1x
      else if nat_eq server.major 2
      then service_2 entity
      else err (other_error "'NoneType' object has no attribute")

  -- The handlers, until they call the cluster service.
  unfoldable pub prepare_create : Context → Result Raised (Service × Request)
  unfolding get check_payload_version get_validator validate_with get_cluster_service
  prepare_create ctx = do
    server.client ctx.auth_token
    payload_version ← get "apiVersion" ctx.entity
    version ← check_payload_version payload_version
    server.sysadmin_client
    valid ← validate_with (get_validator version) create_cluster false null ctx.entity
    converted ← server.convert ctx.entity
    service ← get_cluster_service ctx.entity
    ok (service, create ctx.entity_id converted)

  unfoldable pub prepare_update : Context → Result Raised (Service × Request)
  unfolding get item check_payload_version get_validator validate_with get_cluster_service
  prepare_update ctx = do
    server.client ctx.auth_token
    payload_version ← get "apiVersion" ctx.entity
    version ← check_payload_version payload_version
    kind ← item "kind" ctx.entity
    server.sysadmin_client
    valid ←
        validate_with (get_validator version) update_cluster (is_tkgm kind) ctx.entity_id ctx.entity
    converted ← server.convert ctx.entity
    service ← get_cluster_service ctx.entity
    ok (service, update ctx.entity_id converted)

  unfoldable pub prepare : BehaviorOperation → Context → Result Raised (Service × Request)
  unfolding prepare_create prepare_update get_cluster_service get
  prepare create_cluster ctx = prepare_create ctx
  prepare update_cluster ctx = prepare_update ctx
  prepare delete_cluster ctx = do
    service ← get_cluster_service ctx.entity
    ok (service, delete ctx.entity_id)
  prepare get_kube_config ctx = do
    service ← get_cluster_service ctx.entity
    ok (service, config ctx.entity_id)
  prepare delete_nfs_node ctx = do
    node ← get "node_name" ctx.arguments
    service ← get_cluster_service ctx.entity
    ok (service, delete_nodes ctx.entity_id (node ∷ []))

  unfoldable pub finish : Result Raised (Service × Request) → Handled
  unfolding exception_handler
  finish (err e) = ([], exception_handler (err e), none)
  finish (ok (service, request)) =
      let (published, result) = server.run service request in
      (published, exception_handler result, some (service, request))

  unfoldable pub handle : BehaviorOperation → Context → Handled
  unfolding prepare finish
  handle op ctx = finish (prepare op ctx)
