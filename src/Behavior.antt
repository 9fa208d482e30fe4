-- ===== src/Behavior.antt =====
-- container_service_extension/server/behavior_dispatcher.py: the behaviors of an entity, which arrive over MQTT,
-- with `process_behavior_message` of mqi/consumer/mqtt_consumer.py and the payloads of
-- mqi/consumer/mqtt_publisher.py. JSON is written and read by a library, whose `loads` and `dumps` are
-- parameters, as `float` is; numbers in it are integers. A response is the value that is sent.
pub mod Json
pub mod Environment
pub mod Handlers
pub mod Validation
pub mod Guard
pub mod Answers
pub mod Replies
mod Tests
use container_service_extens.Common.{
  ℕ, String, ◌==◌, nat_eq, Bool, true, false, not, ◌&&◌, Option, none, some, List, [], ◌∷◌, ◌++◌,
  map, if◌then◌else◌, Result, ok, err, ◌>>=◌, ◌>>◌, guard,
}
use container_service_extens.Common.Int.{ℤ, pos, negsuc}
use container_service_extens.ClusterSpec.Tree.{
  Value, null, text, num, flag, arr, obj, Members, done, member, has_member,
}
use container_service_extens.ClusterSpec.Update.{
  BehaviorOperation, create_cluster, get_kube_config, update_cluster, delete_cluster,
  delete_nfs_node,
}
use Json.{
  Raised, key_error, type_error, value_error, other_error, request_error, item, is_truthy, is_in,
}
use Environment.{Context, Service, Request, Server}
use Handlers.{Handled, handle}

-- `MAP_BEHAVIOR_ID_TO_HANDLER_METHOD`
unfoldable pub operation_named : String → Option BehaviorOperation
operation_named id =
    if id == "urn:vcloud:behavior-interface:createCluster:cse:k8s:1.0.0"
    then some create_cluster
    else if id == "urn:vcloud:behavior-interface:updateCluster:cse:k8s:1.0.0"
    then some update_cluster
    else if id == "urn:vcloud:behavior-interface:deleteCluster:cse:k8s:1.0.0"
    then some delete_cluster
    else if id
        == "urn:vcloud:behavior-type:createKubeConfig:cse:nativeCluster:2.0.0:vmware:k8s:1.0.0"
    then some get_kube_config
    else if id == "urn:vcloud:behavior-interface:deleteNfsNode:cse:k8s:1.0.0"
    then some delete_nfs_node
    else none

unfoldable pub operation_of : Value → Option BehaviorOperation
unfolding operation_named
operation_of (text id) = operation_named id
operation_of v = none

-- `construct_behavior_payload`
unfoldable pub construct_behavior_payload :
    (message status : String) → (progress error_details : Value) → Value
unfolding is_truthy
construct_behavior_payload message status progress error_details =
    if status == "running"
    then obj (
        member "status" (text status) (
          member "operation" (text message)
            (if is_truthy progress then member "progress" progress done else done)))
    else if status == "success"
    then obj (
        member "status" (text status)
          (member "result" (obj (member "resultContent" (text message) done)) done))
    else if status == "error"
    then obj (member "status" (text status) (member "error" error_details done))
    else obj (member "status" (text status) done)

-- `asdict(BehaviorError(...))`
abbrev pub behavior_error : (major minor : Value) → String → Value
behavior_error major minor message = obj (
    member "majorErrorCode" major
      (member "minorErrorCode" minor (member "message" (text message) done)))

-- The text of an exception that is no `CseRequestError`.
abbrev pub message_of : Raised → String
message_of (key_error m) = m
message_of (type_error m) = m
message_of (value_error m) = m
message_of (other_error m) = m
message_of (request_error s c m) = m

-- The two `except` clauses. The status of a `CseRequestError` is a number, the other one a text.
unfoldable pub error_payload : Raised → Value
unfolding construct_behavior_payload
error_payload (request_error status minor message) =
    construct_behavior_payload "Cluster operation" "error" null
      (behavior_error (num (pos status)) (num minor) message)
error_payload e =
    construct_behavior_payload "Cluster operation" "error" null
      (behavior_error (text "500") null (message_of e))

-- `BehaviorUserContext(**context)`, which takes exactly its three fields.
unfoldable pub check_user_context : Value → Result Raised (Unit {0})
unfolding has_member
check_user_context (obj (member a u (member b v (member c w done)))) =
    let ms = member a u (member b v (member c w done)) in
    guard (has_member "userId" ms && has_member "orgId" ms && has_member "rights" ms)
      (type_error "BehaviorUserContext")
check_user_context v = err (type_error "BehaviorUserContext")

module _ (server : Server) (max_api_version : String) (loads : Value → Result Raised Value)
    (dumps : Value → String) (float : Value → Result Raised (Unit {0})) where
  -- The API version, where an alpha version is the greatest one that is supported.
  unfoldable pub api_version_of : Value → Result Raised Value
  unfolding is_in
  api_version_of v = do
    is_alpha ← is_in "alpha" v
    ok (if is_alpha then text max_api_version else v)

  -- What is read from the message, before anything is tried.
  unfoldable pub parse_request : Value → Result Raised Context
  unfolding item api_version_of check_user_context
  parse_request msg_json = do
    headers ← item "headers" msg_json
    task_id ← item "taskId" headers
    entity_id ← item "entityId" headers
    behavior_id ← item "behaviorId" headers
    context ← item "context" headers
    check_user_context context
    written ← item "payload" msg_json
    payload ← loads written
    entity ← item "entity" payload
    type_id ← item "typeId" payload
    metadata ← item "_metadata" payload
    version ← item "apiVersion" metadata
    api_version ← api_version_of version
    auth_token ← item "actAsToken" metadata
    request_id ← item "requestId" metadata
    arguments ← item "arguments" payload
    float api_version
    ok (record {
      behavior_id = behavior_id;
      task_id = task_id;
      entity_id = entity_id;
      entity = entity;
      entity_type_id = type_id;
      api_version = api_version;
      request_id = request_id;
      auth_token = auth_token;
      arguments = arguments;
    })

  -- What was published for the task, the last payload, and the call that was made.
  abbrev pub Answer : Type 0
  Answer = List Value × Value × Option (Service × Request)

  abbrev pub answered : Handled → Answer
  answered (published, ok payload, called) = (published, payload, called)
  answered (published, err e, called) = (published, error_payload e, called)

  -- The `try` around the handler; an identifier without one raises KeyError.
  unfoldable pub invoke : Context → Answer
  unfolding operation_of handle error_payload
  invoke ctx = elim (operation_of ctx.behavior_id) [
    | none ↦ ([], error_payload (key_error "behavior_id"), none)
    | some op ↦ answered (handle server op ctx)
  ]

  unfoldable pub process_behavior_request : Value → Result Raised Answer
  unfolding parse_request invoke
  process_behavior_request msg_json = do ctx ← parse_request msg_json; ok (invoke ctx)

  unfoldable pub construct_behavior_response_json : (task_id entity_id payload : Value) → Value
  construct_behavior_response_json task_id entity_id payload = obj (
      member "type" (text "BEHAVIOR_RESPONSE") (
        member "headers"
          (obj (
            member "taskId" task_id (
              member "entityId" entity_id
                (member "contentType" (text "application/vnd.vmware.vcloud.task+json") done))))
          (member "payload" (text (dumps payload)) done)))

  -- The responses that are sent, in their order, with the call that was made: first those of the cluster
  -- service, which writes them in the same way, for the task and the entity of the message (`_update_task` of
  -- rde/backend/cluster_service_2_x.py). An exception ends the worker's job.
  unfoldable pub process_behavior_message :
      Value → Result Raised (List Value × Option (Service × Request))
  unfolding item process_behavior_request construct_behavior_response_json
  process_behavior_message msg_json = do
    headers ← item "headers" msg_json
    task_id ← item "taskId" headers
    entity_id ← item "entityId" headers
    behavior_id ← item "behaviorId" headers
    written ← item "payload" msg_json
    payload ← loads written
    metadata ← item "_metadata" payload
    request_id ← item "requestId" metadata
    (published, last, called) ← process_behavior_request msg_json
    ok (map (construct_behavior_response_json task_id entity_id) (published ++ last ∷ []), called)
