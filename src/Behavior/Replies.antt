-- ===== src/Behavior/Replies.antt =====
-- What becomes of a message that invokes a behavior.
use container_service_extens.Common.{
  String, List, [], ◌∷◌, ◌++◌, map, ◌≡◌, refl, sym, subst, ap, ◌∙◌, inl, inr, Option, Result, ok,
  err, after, and_then, ok-injective, Result-cases,
}
use mathlib.Core.List.{map-append}
use container_service_extens.ClusterSpec.Tree.{Value}
use container_service_extens.Behavior.{
  check_user_context, api_version_of, parse_request, invoke, process_behavior_request,
  construct_behavior_response_json, process_behavior_message,
}
use container_service_extens.Behavior.Json.{Raised, item}
use container_service_extens.Behavior.Environment.{Context, Service, Request, Server}
use container_service_extens.Behavior.Answers.{Answered, invoke-Answered}

module _ (server : Server) (max_api_version : String) (loads : Value → Result Raised Value)
    (dumps : Value → String) (float : Value → Result Raised (Unit {0})) where
  abbrev parse : Value → Result Raised Context
  parse = parse_request server max_api_version loads dumps float

  abbrev process : Value → Result Raised (List Value × Option (Service × Request))
  process = process_behavior_message server max_api_version loads dumps float

  abbrev request : Value → Result Raised (List Value × Value × Option (Service × Request))
  request = process_behavior_request server max_api_version loads dumps float

  abbrev response : Context → Value → Value
  response ctx payload =
      construct_behavior_response_json server max_api_version loads dumps float ctx.task_id
        ctx.entity_id payload

  -- What becomes of a message: after the responses that the cluster service publishes, one more is sent, all
  -- for the task and the entity of the message, or it cannot be read, and none is.
  pub data Replied (msg_json : Value)
      : Result Raised (List Value × Option (Service × Request)) → Type 0 where
    replied :
        (ctx : Context) (published : List Value) (payload : Value)
        (called : Option (Service × Request))
        → parse msg_json ≡ ok ctx
        → Answered server ctx (published, payload, called)
        → Replied msg_json (ok (map (response ctx) published ++ response ctx payload ∷ [], called))
    unread : (e e' : Raised) → parse msg_json ≡ err e → Replied msg_json (err e')

  requested :
      (msg_json : Value) (ctx : Context)
      → parse msg_json ≡ ok ctx
      → request msg_json ≡ ok (invoke server max_api_version loads dumps float ctx)
  unfolding process_behavior_request
  requested msg_json ctx h = and_then (parse msg_json) _ h refl

  -- What `process_behavior_message` reads, of a message that can be read.
  record Opened (msg_json : Value) (ctx : Context) : Type 0 where
    headers : Value
    behavior_id : Value
    written : Value
    payload : Value
    metadata : Value
    request_id : Value
    has_headers : item "headers" msg_json ≡ ok headers
    has_task_id : item "taskId" headers ≡ ok ctx.task_id
    has_entity_id : item "entityId" headers ≡ ok ctx.entity_id
    has_behavior_id : item "behaviorId" headers ≡ ok behavior_id
    has_payload : item "payload" msg_json ≡ ok written
    has_loaded : loads written ≡ ok payload
    has_metadata : item "_metadata" payload ≡ ok metadata
    has_request_id : item "requestId" metadata ≡ ok request_id

  parse-Opened : (msg_json : Value) (ctx : Context) → parse msg_json ≡ ok ctx → Opened msg_json ctx
  unfolding parse_request
  parse-Opened msg_json ctx h = after (item "headers" msg_json) _ h λ headers e1 h1.
      after (item "taskId" headers) _ h1 λ task_id e2 h2.
        after (item "entityId" headers) _ h2 λ entity_id e3 h3.
          after (item "behaviorId" headers) _ h3 λ behavior_id e4 h4.
            after (item "context" headers) _ h4 λ context _ h5.
              after (check_user_context context) _ h5 λ u _ h6.
                after (item "payload" msg_json) _ h6 λ written e7 h7.
                  after (loads written) _ h7 λ payload e8 h8.
                    after (item "entity" payload) _ h8 λ entity _ h9.
                      after (item "typeId" payload) _ h9 λ type_id _ h10.
                        after (item "_metadata" payload) _ h10 λ metadata e11 h11.
                          after (item "apiVersion" metadata) _ h11 λ version _ h12.
                            after (api_version_of server max_api_version loads dumps float version)
                              _ h12
                              λ api_version _ h13.
                                after (item "actAsToken" metadata) _ h13 λ auth_token _ h14.
                                  after (item "requestId" metadata) _ h14 λ request_id e15 h15.
                                    after (item "arguments" payload) _ h15 λ arguments _ h16.
                                      after (float api_version) _ h16 λ u _ h17. record {
                                        headers = headers;
                                        behavior_id = behavior_id;
                                        written = written;
                                        payload = payload;
                                        metadata = metadata;
                                        request_id = request_id;
                                        has_headers = e1;
                                        has_task_id =
                                            e2 ∙ ap (λ c. ok c.task_id) (ok-injective h17);
                                        has_entity_id =
                                            e3 ∙ ap (λ c. ok c.entity_id) (ok-injective h17);
                                        has_behavior_id = e4;
                                        has_payload = e7;
                                        has_loaded = e8;
                                        has_metadata = e11;
                                        has_request_id = e15;
                                      }

  sent :
      (msg_json : Value) (ctx : Context) (answer : List Value × Value × Option (Service × Request))
      → Opened msg_json ctx
      → request msg_json ≡ ok answer
      → process msg_json ≡ ok (map (response ctx) (answer.0 ++ answer.1 ∷ []), answer.2)
  unfolding process_behavior_message
  sent msg_json ctx answer o asked = and_then (item "headers" msg_json) _ o.has_headers (
      and_then (item "taskId" o.headers) _ o.has_task_id (
        and_then (item "entityId" o.headers) _ o.has_entity_id (
          and_then (item "behaviorId" o.headers) _ o.has_behavior_id (
            and_then (item "payload" msg_json) _ o.has_payload (
              and_then (loads o.written) _ o.has_loaded (
                and_then (item "_metadata" o.payload) _ o.has_metadata (
                  and_then (item "requestId" o.metadata) _ o.has_request_id
                    (and_then (request msg_json) _ asked refl))))))))

  not_sent :
      (msg_json : Value) (r : List Value × Option (Service × Request))
      → process msg_json ≡ ok r
      → (ctx : Context) × (parse msg_json ≡ ok ctx)
  unfolding process_behavior_message process_behavior_request
  not_sent msg_json r h = after (item "headers" msg_json) _ h λ headers _ h1.
      after (item "taskId" headers) _ h1 λ task_id _ h2.
        after (item "entityId" headers) _ h2 λ entity_id _ h3.
          after (item "behaviorId" headers) _ h3 λ behavior_id _ h4.
            after (item "payload" msg_json) _ h4 λ written _ h5.
              after (loads written) _ h5 λ payload _ h6.
                after (item "_metadata" payload) _ h6 λ metadata _ h7.
                  after (item "requestId" metadata) _ h7 λ request_id _ h8.
                    after (request msg_json) _ h8
                      λ answer asked _. after (parse msg_json) _ asked λ ctx parsed _. (ctx, parsed)

  unread-Replied :
      (msg_json : Value) (e : Raised) (r : Result Raised (List Value × Option (Service × Request)))
      → parse msg_json ≡ err e
      → process msg_json ≡ r
      → Replied msg_json r
  unread-Replied msg_json e (err e') h p = unread e e' h
  unread-Replied msg_json e (ok r) h p = let (ctx, parsed) = not_sent msg_json r p in absurd cc

  told :
      (msg_json : Value) (ctx : Context) (answer : List Value × Value × Option (Service × Request))
      → parse msg_json ≡ ok ctx
      → Answered server ctx answer
      → Replied msg_json (ok (map (response ctx) (answer.0 ++ answer.1 ∷ []), answer.2))
  told msg_json ctx (published, payload, called) h a =
      subst (λ rs. Replied msg_json (ok (rs, called)))
        (sym (map-append (response ctx) published (payload ∷ [])))
        (replied ctx published payload called h a)

  -- The responses to a message that can be read are all for its task and its entity: exactly one if no
  -- cluster service is called, and else those that the service publishes before its method ends, and exactly
  -- one after them. A message that cannot be read gets none. The last response is an error if no behavior
  -- has its identifier or the handler raises, with the code of the exception, and else what the cluster
  -- service returned. The cluster service is called only for what the operation allows: a creation or an
  -- update in a supported version that the validator accepts, an update by its comparison to the status of
  -- the cluster, with the entity converted.
  pub process_behavior_message-Replied : (msg_json : Value) → Replied msg_json (process msg_json)
  process_behavior_message-Replied msg_json = elim (Result-cases (parse msg_json)) [
    | inl (ctx, h) ↦
        let answer = invoke server max_api_version loads dumps float ctx in
        subst (Replied msg_json)
          (sym (sent msg_json ctx answer (parse-Opened msg_json ctx h) (requested msg_json ctx h)))
          (told msg_json ctx answer h
            (invoke-Answered server ctx max_api_version loads dumps float _ refl))
    | inr (e, h) ↦ unread-Replied msg_json e (process msg_json) h refl
  ]
