-- ===== src/Dispatcher/Process/Tests.antt =====
-- A request and its answer, and witnesses of the theorems on `process_request`.
use container_service_extens.Common.{
  ◌≤◌, String, ◌≡◌, refl, ◌<◌, ◌==◌, not, Bool, true, false, none, some, [], ◌∷◌, Result, ok, err,
  err-injective, arith, if◌then◌else◌, Bool-cases, inl, inr, subst,
}
use container_service_extens.Common.Dict.{Dict, lookup, insert}
use container_service_extens.Common.Text.{split, lower, upper, without_first}
use container_service_extens.Dispatcher.Operations.{Operation, ideal_response_code}
use container_service_extens.Dispatcher.Entries.{handler}
use container_service_extens.Dispatcher.Table.{cse_request_dispatcher_list}
use container_service_extens.Dispatcher.Header.{
  parse_accept_header, get_api_version_from_accept_header,
}
use container_service_extens.Dispatcher.Routing.{
  match_url, match_tokens, rules_of, matched_handler, feature_flags_satisfied, check_entry,
  dual_form_tokens, route,
}
use container_service_extens.Dispatcher.Process.{
  Raised, request_error, status_of, Message, Call, Run, message, text, Outcome, process_request,
  prepare, parse_message, call_of, request_tokens, request_data_of, tenant_auth_token,
  is_system_operation, has_body, body_of, or_raise,
}
use container_service_extens.Dispatcher.Process.Gate.{Admitted, process_request-Admitted}
use container_service_extens.Dispatcher.Process.Answers.{Answered, process_request-Answered}

abbrev is_truthy : String → Bool
is_truthy s = not (s == "")

abbrev decode_body : String → Result Raised String
decode_body s = if s == "" then err (request_error 400 "bad") else ok s

abbrev parse_qsl : String → Dict String
parse_qsl s = ("q", s) ∷ []

abbrev TheCall : Type 0
TheCall = Call String String is_truthy decode_body parse_qsl

abbrev handle : TheCall → Run String String is_truthy decode_body parse_qsl
handle c = record { result = ok (message "done"); is_async = false }

abbrev flags : Dict Bool
flags = ("non_legacy_api", true) ∷ []

abbrev request : Message
request = record {
  id = "1";
  accept = some "application/json;version=36.0";
  authorization = some "Bearer token";
  method = "get";
  request_uri = "/api/cse/3.0/cluster/c1";
  query_string = "";
  body = "";
}

abbrev the_call : TheCall
the_call = record {
  rule = record {
    allowed_params = [];
    required_params = [];
    verify_payload = none;
    payload_type = none;
    operation = Operation.v36_cluster_info;
    target = handler "cluster_handler" "cluster_info";
    feature_flags = "non_legacy_api" ∷ [];
  };
  request_data = ("cluster_id", text "c1") ∷ ("url", text "/api/cse/3.0/cluster/c1") ∷ [];
  auth_token = "token";
  request_id = "1";
}

abbrev outcome : Bool → Outcome String String is_truthy decode_body parse_qsl
outcome running =
    process_request String String is_truthy decode_body parse_qsl handle running flags
      cse_request_dispatcher_list request

is_called : (outcome true).called ≡ some the_call
unfolding process_request prepare parse_message or_raise parse_accept_header split lower upper
    body_of has_body route cse_request_dispatcher_list match_url request_tokens match_tokens lookup
    dual_form_tokens check_entry rules_of matched_handler feature_flags_satisfied insert
    without_first get_api_version_from_accept_header call_of request_data_of tenant_auth_token
    is_system_operation
is_called = refl

process_request-Admitted_example :
    Admitted String String is_truthy decode_body parse_qsl true flags cse_request_dispatcher_list
      request the_call
process_request-Admitted_example =
    process_request-Admitted String String is_truthy decode_body parse_qsl handle true flags
      cse_request_dispatcher_list request the_call is_called

-- A service that is disabled refuses the request.
is_refused : (outcome false).called ≡ none
unfolding process_request prepare parse_message or_raise parse_accept_header split lower upper
    body_of has_body route cse_request_dispatcher_list match_url request_tokens match_tokens lookup
    dual_form_tokens check_entry rules_of matched_handler feature_flags_satisfied insert
    without_first get_api_version_from_accept_header call_of request_data_of tenant_auth_token
    is_system_operation
is_refused = refl

decode_fails : (s : String) (e : Raised) → decode_body s ≡ err e → 400 ≤ status_of e
unfolding status_of
decode_fails s e h = elim (Bool-cases (s == "")) [
  | inl p ↦ let q = rw p at h in subst (λ x. 400 ≤ status_of x) (err-injective q) (omega arith)
  | inr p ↦ absurd (let q = rw p at h in cc)
]

handle_fails : (c : TheCall) (e : Raised) → (handle c).result ≡ err e → 400 ≤ status_of e
handle_fails c e h = absurd cc

is_answered : (outcome true).status_code < 400
unfolding process_request prepare parse_message or_raise parse_accept_header split lower upper
    body_of has_body route cse_request_dispatcher_list match_url request_tokens match_tokens lookup
    dual_form_tokens check_entry rules_of matched_handler feature_flags_satisfied insert
    without_first get_api_version_from_accept_header call_of request_data_of tenant_auth_token
    is_system_operation ideal_response_code
is_answered = omega arith

process_request-Answered_example :
    Answered String String is_truthy decode_body parse_qsl decode_fails handle handle_fails
      (outcome true)
process_request-Answered_example =
    process_request-Answered String String is_truthy decode_body parse_qsl decode_fails handle
      handle_fails true flags cse_request_dispatcher_list request is_answered
