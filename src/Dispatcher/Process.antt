-- ===== src/Dispatcher/Process.antt =====
-- container_service_extension/server/request_dispatcher.py: `process_request`, with the decorator
-- `handle_exception` of container_service_extension/exception/exception_handler.py.
-- Parameters: the JSON values and the decoding of a body and of a query string, and the handlers.
pub mod Gate
pub mod Answers
mod Tests
use container_service_extens.Common.{
  ℕ, String, Bool, true, false, not, ◌||◌, ◌&&◌, Option, none, some, List, [], ◌∷◌, ◌==◌, ltb,
  length, drop, if◌then◌else◌, Result, ok, err, ◌>>=◌, ◌>>◌, guard,
}
use container_service_extens.Common.Dict.{Dict, lookup, insert}
use container_service_extens.Common.Text.{split, lower, upper}
use container_service_extens.Dispatcher.Operations
use container_service_extens.Dispatcher.Operations.{Operation, ideal_response_code}
use container_service_extens.Dispatcher.Entries.{
  Method, get, head, post, put, delete, connect, options, trace, Handler, Rule, Entry,
}
use container_service_extens.Dispatcher.Header.{
  parse_accept_header, get_api_version_from_accept_header,
}
use container_service_extens.Dispatcher.Routing.{
  RequestError, method_not_allowed, not_found, not_acceptable, route,
}

-- The exceptions that reach `handle_exception`: the errors of routing, the refusals of the accept
-- header and of a disabled service, a `CseRequestError` of a handler by its status code and text,
-- and any other exception.
pub data Raised : Type 0 where
  routing : RequestError → Raised
  no_json_accepted service_disabled : Raised
  request_error : ℕ → String → Raised
  other_error : String → Raised

-- `err.status_code`, and 500 for an exception that has none.
unfoldable pub status_of : Raised → ℕ
status_of (routing method_not_allowed) = 405
status_of (routing not_found) = 404
status_of (routing (not_acceptable _)) = 406
status_of no_json_accepted = 406
status_of service_disabled = 400
status_of (request_error code text) = code
status_of (other_error text) = 500

pub record Message : Type 0 where
  pub id : String
  pub accept : Option String
  pub authorization : Option String
  pub method : String
  pub request_uri : String
  pub query_string : String
  pub body : String

-- `RequestMethod(message['method'].upper())`
pub method_named : String → Option Method
method_named s =
    if s == "GET"
    then some get
    else if s == "HEAD"
    then some head
    else if s == "POST"
    then some post
    else if s == "PUT"
    then some put
    else if s == "DELETE"
    then some delete
    else if s == "CONNECT"
    then some connect
    else if s == "OPTIONS"
    then some options
    else if s == "TRACE"
    then some trace
    else none

unfoldable pub or_raise {ℓ} : {A : Type ℓ} → Option A → Raised → Result Raised A
or_raise none e = err e
or_raise (some a) e = ok a

unfoldable pub has_body : Method → Bool
has_body post = true
has_body put = true
has_body delete = true
has_body _ = false

-- The tokens of the url without the host and "api".
unfoldable pub request_tokens : String → List String
request_tokens uri =
    let tokens = split b'/' uri in if ltb 2 (length tokens) then drop 2 tokens else tokens

bearer : List String → String
bearer (scheme ∷ token ∷ []) = if lower scheme == "bearer" then token else ""
bearer _ = ""

token_in : Option String → String
unfolding bearer
token_in none = ""
token_in (some header) = if header == "" then "" else bearer (split b' ' header)

-- The token of the authorization header, and "" if there is none.
unfoldable pub tenant_auth_token : Message → String
unfolding token_in
tenant_auth_token m = token_in m.authorization

unfoldable pub is_system_operation : Operation → Bool
is_system_operation Operation.system_info = true
is_system_operation Operation.system_update = true
is_system_operation _ = false

pub lift_routing {ℓ} : {A : Type ℓ} → Result RequestError A → Result Raised A
lift_routing (ok a) = ok a
lift_routing (err e) = err (routing e)

module _ (Json Body : Type 0) (is_truthy : Json → Bool) (decode_body : String → Result Raised Json)
    (parse_qsl : String → Dict String) where
  -- The values of `request_data`.
  pub data Value : Type 0 where
    query : Dict String → Value
    spec : Json → Value
    text : String → Value

  pub record Call : Type 0 where
    pub rule : Rule
    pub request_data : Dict Value
    pub auth_token : String
    pub request_id : String

  -- What a handler did: its result, and whether it made the operation asynchronous. A result that
  -- is no list or dictionary is sent as a message.
  pub data Content : Type 0 where
    structured : Body → Content
    message : String → Content

  pub record Run : Type 0 where
    pub result : Result Raised Content
    pub is_async : Bool

  pub data Reply : Type 0 where
    content : Content → Reply
    failure : Raised → Reply

  -- The response, the call of the handler if there was one, and whether the operation's context
  -- was ended.
  pub record Outcome : Type 0 where
    pub status_code : ℕ
    pub reply : Reply
    pub called : Option Call
    pub ended : Bool

  update_texts : Dict Value → Dict String → Dict Value
  update_texts d [] = d
  update_texts d ((k, v) ∷ e) = update_texts (insert k (text v) d) e

  with_query : Dict String → Dict Value → Dict Value
  with_query [] d = d
  with_query (q ∷ qs) d = insert "query_filter" (query (q ∷ qs)) d

  with_spec : Option Json → Dict Value → Dict Value
  with_spec none d = d
  with_spec (some j) d = if is_truthy j then insert "spec_body" (spec j) d else d

  unfoldable pub request_data_of : Dict String → Option Json → Dict String → String → Dict Value
  unfolding with_query with_spec update_texts
  request_data_of query_params body url_data url =
      insert "url" (text url) (update_texts (with_spec body (with_query query_params [])) url_data)

  unfoldable pub body_of : Method → String → Result Raised (Option Json)
  body_of m raw =
      if has_body m && not (raw == "") then (do j ← decode_body raw; ok (some j)) else ok none

  pub record Parsed : Type 0 where
    pub api_version : String
    pub method : Method
    pub query_params : Dict String
    pub request_body : Option Json

  -- The first half of `process_request`: what it reads from the message.
  unfoldable pub parse_message : Message → Result Raised Parsed
  unfolding method_named
  parse_message m = do
    accept ← or_raise m.accept (other_error "'NoneType' object has no attribute 'lower'")
    header ← or_raise (parse_accept_header accept) no_json_accepted
    method ← or_raise (method_named (upper m.method)) (other_error "not a valid RequestMethod")
    body ← body_of method m.body
    ok (record {
      api_version = get_api_version_from_accept_header header;
      method = method;
      query_params = if m.query_string == "" then [] else parse_qsl m.query_string;
      request_body = body;
    })

  -- The call of the rule that was found, if the service runs or the operation is one of /system.
  unfoldable pub call_of : Bool → Message → Parsed → Rule × Dict String → Result Raised Call
  call_of running m p matched = do
    guard (is_system_operation matched.0.operation || running) service_disabled
    ok (record {
      rule = matched.0;
      request_data = request_data_of p.query_params p.request_body matched.1 m.request_uri;
      auth_token = tenant_auth_token m;
      request_id = m.id;
    })

  -- All of `process_request` before the handler is called.
  unfoldable pub prepare : Bool → Dict Bool → List Entry → Message → Result Raised Call
  unfolding parse_message lift_routing call_of
  prepare running flags es m = do
    p ← parse_message m
    matched ← lift_routing (route flags p.method p.api_version (request_tokens m.request_uri) es)
    call_of running m p matched

  module _ (handle : Call → Run) where
    respond : Call → Run → Result Raised Content → Outcome
    respond c run (ok body) = record {
      status_code = ideal_response_code c.rule.operation;
      reply = content body;
      called = some c;
      ended = not run.is_async;
    }
    respond c run (err e) = record {
      status_code = status_of e;
      reply = failure e;
      called = some c;
      ended = not run.is_async;
    }

    -- The `try` around the handler, whose `finally` ends a context that is not asynchronous.
    unfoldable pub perform : Result Raised Call → Outcome
    unfolding respond
    perform (err e) = record {
      status_code = status_of e;
      reply = failure e;
      called = none;
      ended = false;
    }
    perform (ok c) = respond c (handle c) (handle c).result

    -- The whole of it, the decorator included.
    unfoldable pub process_request : Bool → Dict Bool → List Entry → Message → Outcome
    unfolding perform
    process_request running flags es m = perform (prepare running flags es m)
