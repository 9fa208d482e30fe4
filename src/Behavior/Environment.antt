-- ===== src/Behavior/Environment.antt =====
-- What the handlers of behaviors use of other modules, as a record `Server`, what they are called with, and
-- `exception_handler` of server/behavior_handler.py.
use container_service_extens.Common.{ℕ, String, Bool, Option, List, Result, ok, err}
use container_service_extens.Common.Int.{negsuc}
use container_service_extens.ClusterSpec.Model.{ClusterSpec, Status}
use container_service_extens.ClusterSpec.Tree.{Value, Members}
use container_service_extens.ClusterSpec.Update.{BehaviorOperation, ValidationError}
use container_service_extens.Behavior.Json
use container_service_extens.Behavior.Json.{
  Raised, key_error, value_error, other_error, request_error, item, get, is_truthy,
}

-- `RequestContext`
pub record Context : Type 0 where
  pub behavior_id : Value
  pub task_id : Value
  pub entity_id : Value
  pub entity : Value
  pub entity_type_id : Value
  pub api_version : Value
  pub request_id : Value
  pub auth_token : Value
  pub arguments : Value

-- The cluster services, and the method that a handler calls.
pub data Service : Type 0 where
  service_1x service_2x service_2x_tkgm : Service

pub data Request : Type 0 where
  create update : (entity_id entity : Value) → Request
  delete config : (entity_id : Value) → Request
  delete_nodes : (entity_id : Value) → List Value → Request

pub data Validator : Type 0 where
  validator_1_0_0 validator_2_1_0 : Validator

-- Whether one version comes after another one, the version of the RDE in use with its major number, the
-- clients of the user and of the system administrator, the data classes, the status of an entity
-- and the default policy of its VDC, what `validate` raises for an exception of vCloud Director, the
-- older validator, the conversion of an entity to the RDE in use, and the cluster services: the payloads that
-- a service publishes for the task before its method ends (`_update_task`), and what the method returns or raises.
pub record Server : Type 0 where
  pub is_newer : String → String → Bool
  pub rde_version_in_use : String
  pub major : ℕ
  pub client : Value → Result Raised (Unit {0})
  pub sysadmin_client : Result Raised (Unit {0})
  pub to_dict : ClusterSpec → Members
  pub from_dict : Value → Option ClusterSpec
  pub status_of : Value → Result ValidationError (Option Status)
  pub default_policy : Value → Result ValidationError (Option String)
  pub raised_by_vcd : Raised
  pub validate_1_0_0 : BehaviorOperation → Value → Value → Result Raised Bool
  pub convert : Value → Result Raised Value
  pub run : Service → Request → List Value × Result Raised Value

-- `BadRequestError`, with the default minor error code.
abbrev pub bad_request : String → Raised
bad_request message = request_error 400 (negsuc 0) message

abbrev pub internal_error : String → Raised
internal_error message = request_error 500 (negsuc 0) message

-- `exception_handler`, by what it raises for an exception.
unfoldable pub as_request_error : Raised → Raised
as_request_error (key_error m) = bad_request m
as_request_error (Json.type_error m) = bad_request m
as_request_error (value_error m) = bad_request m
as_request_error (other_error m) = internal_error m
as_request_error (request_error s c m) = request_error s c m

unfoldable pub exception_handler : {A : Type 0} → Result Raised A → Result Raised A
unfolding as_request_error
exception_handler (ok a) = ok a
exception_handler (err e) = err (as_request_error e)
