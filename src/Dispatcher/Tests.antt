-- ===== src/Dispatcher/Tests.antt =====
-- Runs of the routing and of the accept header, and witnesses of the theorems on them.
use container_service_extens.Common.{
  here, there, inl, inr, String, ◌≡◌, refl, Bool, true, false, none, some, List, [], ◌∷◌, elem, ok,
}
use container_service_extens.Common.Dict.{Dict, lookup, insert}
use container_service_extens.Common.Text.{split, lower, without_first}
use container_service_extens.Dispatcher.Operations.{Operation}
use container_service_extens.Dispatcher.Entries.{get, Rule, handler}
use container_service_extens.Dispatcher.Table.{cse_request_dispatcher_list}
use container_service_extens.Dispatcher.Table.Versions.{legacy_rule-versions}
use container_service_extens.Dispatcher.Routing.{
  match_url, match_tokens, rules_of, matched_handler, feature_flags_satisfied, check_entry,
  dual_form_tokens, route,
}
use container_service_extens.Dispatcher.Routing.Soundness.{Routed, route-Routed}
use container_service_extens.Dispatcher.Routing.DualForms.{
  SameForms, same_letters, same_word, rule_of, route-SameForms,
}
use container_service_extens.Dispatcher.Header.{
  parse_accept_header, select_header, get_api_version_from_accept_header, fragments, serves_json,
}
use container_service_extens.Dispatcher.Header.Selection.{
  serves, Selects, parse_accept_header-Selects,
}
use container_service_extens.Dispatcher.Header.Version.{
  IsPlain, accept_for, parse_accept_header-accept_for,
}

abbrev new_api : Dict Bool
new_api = ("legacy_api", false) ∷ ("non_legacy_api", true) ∷ []

abbrev old_api : Dict Bool
old_api = ("legacy_api", true) ∷ ("non_legacy_api", false) ∷ []

abbrev info_rule : Rule
info_rule = record {
  allowed_params = [];
  required_params = [];
  verify_payload = none;
  payload_type = none;
  operation = Operation.v36_cluster_info;
  target = handler "cluster_handler" "cluster_info";
  feature_flags = "non_legacy_api" ∷ [];
}

abbrev info_url : List String
info_url = "cse" ∷ "3.0" ∷ "cluster" ∷ "c1" ∷ []

abbrev info_data : Dict String
info_data = ("cluster_id", "c1") ∷ []

routed_info :
    route new_api get "36.0" info_url cse_request_dispatcher_list ≡ ok (info_rule, info_data)
unfolding route cse_request_dispatcher_list match_url split match_tokens lookup dual_form_tokens
    lower check_entry rules_of matched_handler feature_flags_satisfied insert without_first
routed_info = refl

route-Routed_example :
    Routed new_api get "36.0" info_url cse_request_dispatcher_list info_rule info_data
route-Routed_example =
    route-Routed new_api get "36.0" info_url cse_request_dispatcher_list info_rule info_data
      routed_info

abbrev list_rule : Rule
list_rule = record {
  allowed_params = "org_name" ∷ "ovdc_name" ∷ [];
  required_params = [];
  verify_payload = none;
  payload_type = none;
  operation = Operation.cluster_list;
  target = handler "native_cluster_handler" "cluster_list";
  feature_flags = "legacy_api" ∷ [];
}

abbrev list_url : List String
list_url = "cse" ∷ "clusters" ∷ []

routed_list : route old_api get "34.0" list_url cse_request_dispatcher_list ≡ ok (list_rule, [])
unfolding route cse_request_dispatcher_list match_url split match_tokens lookup dual_form_tokens
    lower check_entry rules_of matched_handler feature_flags_satisfied insert without_first
routed_list = refl

legacy_rule-versions_example :
    (elem "34.0" ("33.0" ∷ "34.0" ∷ []) ≡ true) × (lookup "legacy_api" old_api ≡ some true)
legacy_rule-versions_example =
    legacy_rule-versions old_api get "34.0" list_url list_rule [] routed_list refl

same_forms : SameForms list_url ("CSE" ∷ "Cluster" ∷ [])
unfolding lower
same_forms = (same_letters refl, (same_word "cluster" (there here) (inr refl) (inl refl), tt))

route-SameForms_example :
    rule_of (route old_api get "34.0" list_url cse_request_dispatcher_list)
    ≡ rule_of (route old_api get "34.0" ("CSE" ∷ "Cluster" ∷ []) cse_request_dispatcher_list)
route-SameForms_example =
    route-SameForms old_api get "34.0" list_url ("CSE" ∷ "Cluster" ∷ []) cse_request_dispatcher_list
      same_forms

parse_accept_header-Selects_example :
    Selects
      (split b',' (lower "text/plain,application/*+JSON;version=36.0"))
      (parse_accept_header "text/plain,application/*+JSON;version=36.0")
parse_accept_header-Selects_example =
    parse_accept_header-Selects "text/plain,application/*+JSON;version=36.0"

version_read : get_api_version_from_accept_header "application/*+json;version=36.0" ≡ "36.0"
unfolding get_api_version_from_accept_header split
version_read = refl

plain_served :
    select_header ("application/json;version=36.0" ∷ []) ≡ some "application/json;version=36.0"
unfolding select_header split
plain_served = refl

text_unserved : serves "text/plain" ≡ false
unfolding fragments split serves_json
text_unserved = refl

version-IsPlain : IsPlain "36.0"
unfolding lower
version-IsPlain = record {
  no_comma = refl;
  no_semicolon = refl;
  no_equals = refl;
  lower_case = refl;
}

parse_accept_header-accept_for_example :
    (parse_accept_header (accept_for "36.0") ≡ some (accept_for "36.0"))
    × (get_api_version_from_accept_header (accept_for "36.0") ≡ "36.0")
parse_accept_header-accept_for_example = parse_accept_header-accept_for "36.0" version-IsPlain
