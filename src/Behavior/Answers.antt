-- ===== src/Behavior/Answers.antt =====
-- How a behavior that was read is answered.
use container_service_extens.Common.{
  ℕ, String, ◌≡◌, refl, Option, none, some, List, [], Result, ok, err,
}
use container_service_extens.Common.Int.{pos}
use container_service_extens.ClusterSpec.Tree.{Value, text, num, obj, done, member}
use container_service_extens.ClusterSpec.Update.{BehaviorOperation}
use container_service_extens.Behavior.{
  operation_of, construct_behavior_payload, error_payload, behavior_error, answered, invoke,
}
use container_service_extens.Behavior.Json.{
  Raised, key_error, type_error, value_error, other_error, request_error,
}
use container_service_extens.Behavior.Environment.{
  Context, Service, Request, Server, as_request_error, exception_handler,
}
use container_service_extens.Behavior.Handlers.{prepare, finish, handle}
use container_service_extens.Behavior.Guard.{Prepared, prepare-Prepared}

-- A payload of a task that failed, with the code.
pub record Fails (payload major : Value) : Type 0 where
  pub minor : Value
  pub message : String
  pub is_error :
      payload
      ≡ obj (
          member "status" (text "error") (member "error" (behavior_error major minor message) done))

-- The code of an answer to an exception of a handler: 400 for what a request causes, the status of a
-- `CseRequestError`, and 500 for all others.
abbrev pub code : Raised → ℕ
code (key_error m) = 400
code (type_error m) = 400
code (value_error m) = 400
code (other_error m) = 500
code (request_error s c m) = s

error_payload-Fails : (e : Raised) → Fails (error_payload (as_request_error e)) (num (pos (code e)))
unfolding error_payload construct_behavior_payload as_request_error
error_payload-Fails (key_error m) = record { minor = _; message = _; is_error = refl }
error_payload-Fails (type_error m) = record { minor = _; message = _; is_error = refl }
error_payload-Fails (value_error m) = record { minor = _; message = _; is_error = refl }
error_payload-Fails (other_error m) = record { minor = _; message = _; is_error = refl }
error_payload-Fails (request_error s c m) = record { minor = _; message = _; is_error = refl }

module _ (server : Server) (ctx : Context) where
  -- The answer to a message that was read: nothing is published before it unless the cluster service is
  -- called, and then what the service publishes.
  pub data Answered : List Value × Value × Option (Service × Request) → Type 0 where
    unknown :
        (payload : Value)
        → operation_of ctx.behavior_id ≡ none
        → Fails payload (text "500")
        → Answered ([], payload, none)
    refused :
        (op : BehaviorOperation) (e : Raised) (payload : Value)
        → operation_of ctx.behavior_id ≡ some op
        → prepare server op ctx ≡ err e
        → Fails payload (num (pos (code e)))
        → Answered ([], payload, none)
    returned :
        (op : BehaviorOperation) (service : Service) (request : Request) (published : List Value)
        (payload : Value)
        → operation_of ctx.behavior_id ≡ some op
        → Prepared server ctx op (service, request)
        → server.run service request ≡ (published, ok payload)
        → Answered (published, payload, some (service, request))
    failed :
        (op : BehaviorOperation) (service : Service) (request : Request) (published : List Value)
        (e : Raised) (payload : Value)
        → operation_of ctx.behavior_id ≡ some op
        → Prepared server ctx op (service, request)
        → server.run service request ≡ (published, err e)
        → Fails payload (num (pos (code e)))
        → Answered (published, payload, some (service, request))

  module _ (max_api_version : String) (loads : Value → Result Raised Value) (dumps : Value → String)
      (float : Value → Result Raised (Unit {0})) where
    ran-Answered :
        (op : BehaviorOperation) (service : Service) (request : Request)
        (r : List Value × Result Raised Value)
        → operation_of ctx.behavior_id ≡ some op
        → Prepared server ctx op (service, request)
        → server.run service request ≡ r
        → Answered (
            answered server max_api_version loads dumps float
              (r.0, exception_handler r.1, some (service, request)))
    unfolding exception_handler
    ran-Answered op service request (published, ok payload) h p e =
        returned op service request published payload h p e
    ran-Answered op service request (published, err x) h p e =
        failed op service request published x _ h p e (error_payload-Fails x)

    finish-Answered :
        (op : BehaviorOperation) (r : Result Raised (Service × Request))
        → operation_of ctx.behavior_id ≡ some op
        → prepare server op ctx ≡ r
        → Answered (answered server max_api_version loads dumps float (finish server r))
    unfolding finish exception_handler
    finish-Answered op (err e) h p = refused op e _ h p (error_payload-Fails e)
    finish-Answered op (ok (service, request)) h p =
        ran-Answered op service request _ h (prepare-Prepared server ctx op (service, request) p)
          refl

    pub invoke-Answered :
        (o : Option BehaviorOperation)
        → operation_of ctx.behavior_id ≡ o
        → Answered (invoke server max_api_version loads dumps float ctx)
    unfolding invoke handle error_payload construct_behavior_payload
    invoke-Answered none h =
        rw (h, invoke) (unknown _ h record { minor = _; message = _; is_error = refl })
    invoke-Answered (some op) h = rw (h, invoke) (finish-Answered op _ h refl)
