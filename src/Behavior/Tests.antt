-- ===== src/Behavior/Tests.antt =====
-- Behaviors that are answered, and witnesses of the theorems on them.
use container_service_extens.Common.{
  String, ◌≡◌, refl, ◌==◌, if◌then◌else◌, true, false, none, some, [], ◌∷◌, Result, ok, err,
}
use container_service_extens.ClusterSpec.Construct.{construct_cluster_spec_from_entity_status}
use container_service_extens.ClusterSpec.Samples.{as_dict, status, exposed_upgrade}
use container_service_extens.ClusterSpec.Tree.{
  find_diff_fields, Value, null, text, obj, done, member,
}
use container_service_extens.ClusterSpec.Update
use container_service_extens.Behavior.{
  construct_behavior_payload, behavior_error, construct_behavior_response_json, error_payload,
  parse_request, invoke, process_behavior_message,
}
use container_service_extens.Behavior.Json.{is_truthy, Raised, key_error, value_error, type_error}
use container_service_extens.Behavior.Environment.{Context, service_2x, update, Server, bad_request}
use container_service_extens.Behavior.Handlers.{prepare}
use container_service_extens.Behavior.Guard.{Prepared, prepare-Prepared}
use container_service_extens.Behavior.Replies.{Replied, process_behavior_message-Replied}

abbrev running : Value
running = obj (member "status" (text "running") (member "operation" (text "Updating") done))

abbrev server : Server
server = record {
  is_newer = λ v w. false;
  rde_version_in_use = "2.1.0";
  major = 2;
  client = λ token. ok tt;
  sysadmin_client = ok tt;
  to_dict = as_dict;
  from_dict = λ v. some exposed_upgrade;
  status_of = λ id. ok (some status);
  default_policy = λ id. ok none;
  raised_by_vcd = bad_request "";
  validate_1_0_0 = λ op id entity. ok true;
  convert = λ v. ok v;
  run = λ service request. (running ∷ [], ok running);
}

abbrev entity : Value
entity = obj (member "apiVersion" (text "cse.vmware.com/v2.1") (member "kind" (text "native") done))

abbrev payload : Value
payload = obj (
    member "entity" entity (
      member "typeId" (text "type") (
        member "arguments" (obj done) (
          member "_metadata"
            (obj (
              member "apiVersion" (text "37.0.0-alpha")
                (member "actAsToken" (text "token") (member "requestId" (text "request") done))))
            done))))

abbrev loads : Value → Result Raised Value
loads (text s) = if s == "payload" then ok payload else err (type_error "")
loads v = err (type_error "")

abbrev dumps : Value → String
dumps v = "written"

abbrev float : Value → Result Raised (Unit {0})
float (text s) = if s == "36.0" then ok tt else err (type_error "")
float v = err (type_error "")

abbrev user : Value
user = obj (member "userId" (text "ann") (member "orgId" (text "org") (member "rights" null done)))

abbrev message : String → Value
message id = obj (
    member "headers"
      (obj (
        member "taskId" (text "task") (
          member "entityId" (text "cluster")
            (member "behaviorId" (text id) (member "context" user done)))))
      (member "payload" (text "payload") done))

abbrev update_id : String
update_id = "urn:vcloud:behavior-interface:updateCluster:cse:k8s:1.0.0"

abbrev ctx : Context
ctx = record {
  behavior_id = text update_id;
  task_id = text "task";
  entity_id = text "cluster";
  entity = entity;
  entity_type_id = text "type";
  api_version = text "36.0";
  request_id = text "request";
  auth_token = text "token";
  arguments = obj done;
}

parsed : parse_request server "36.0" loads dumps float (message update_id) ≡ ok ctx
unfolding parse_request
parsed = refl

prepared :
    prepare server Update.update_cluster ctx ≡ ok (service_2x, update (text "cluster") entity)
unfolding prepare is_truthy construct_cluster_spec_from_entity_status find_diff_fields
prepared = refl

updated :
    invoke server "36.0" loads dumps float ctx
    ≡ (running ∷ [], running, some (service_2x, update (text "cluster") entity))
unfolding invoke is_truthy construct_cluster_spec_from_entity_status find_diff_fields
updated = refl

unknown :
    invoke server "36.0" loads dumps float (record ctx { behavior_id = text "other" })
    ≡ ([], error_payload (key_error "behavior_id"), none)
unfolding invoke
unknown = refl

-- The service says that the task failed, and raises.
abbrev failed : Value
failed = construct_behavior_payload "" "error" null (behavior_error (text "500") (text "") "busy")

abbrev failing : Server
failing = record server { run = λ service request. (failed ∷ [], err (value_error "busy")) }

abbrev response : Value → Value
response =
    construct_behavior_response_json failing "36.0" loads dumps float (text "task") (text "cluster")

answered_twice :
    process_behavior_message failing "36.0" loads dumps float (message update_id)
    ≡ ok (
      response failed ∷ response (error_payload (bad_request "busy")) ∷ [],
      some (service_2x, update (text "cluster") entity),
    )
unfolding process_behavior_message is_truthy construct_cluster_spec_from_entity_status
    find_diff_fields
answered_twice = refl

prepare-Prepared_example :
    Prepared server ctx Update.update_cluster (service_2x, update (text "cluster") entity)
prepare-Prepared_example =
    prepare-Prepared server ctx Update.update_cluster (service_2x, update (text "cluster") entity)
      prepared

process_behavior_message-Replied_example :
    Replied server "36.0" loads dumps float
      (message update_id)
      (process_behavior_message server "36.0" loads dumps float (message update_id))
process_behavior_message-Replied_example =
    process_behavior_message-Replied server "36.0" loads dumps float (message update_id)
