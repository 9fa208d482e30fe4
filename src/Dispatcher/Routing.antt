-- ===== src/Dispatcher/Routing.antt =====
-- container_service_extension/server/request_dispatcher.py: the loop of `process_request` that
-- looks for the entry of a url, and its checks of the verb, the API version and the feature flags.
pub mod Soundness
pub mod DualForms
use container_service_extens.Common.{
  ℕ, String, Bool, true, false, ◌&&◌, ◌||◌, Option, none, some, List, [], ◌∷◌, ◌++◌, ◌==◌, nat_eq,
  starts_with, elem, length, if◌then◌else◌, Result, ok, err, ◌>>=◌,
}
use container_service_extens.Common.Dict.{Dict, lookup, insert}
use container_service_extens.Common.Text.{lower, without_first}
use container_service_extens.Dispatcher.Entries.{
  Method, get, head, post, put, delete, connect, options, trace, Rule, Versions, Entry,
}

-- DUAL_FORM_TOKENS
unfoldable pub dual_form_tokens : Dict (List String)
dual_form_tokens =
    ("template", "template" ∷ "templates" ∷ [])
    ∷ ("templates", "template" ∷ "templates" ∷ [])
    ∷ ("cluster", "cluster" ∷ "clusters" ∷ [])
    ∷ ("clusters", "cluster" ∷ "clusters" ∷ [])
    ∷ ("ovdc", "ovdc" ∷ "ovdcs" ∷ [])
    ∷ ("ovdcs", "ovdc" ∷ "ovdcs" ∷ [])
    ∷ ("orgvdc", "orgvdc" ∷ "orgvdcs" ∷ [])
    ∷ ("orgvdcs", "orgvdc" ∷ "orgvdcs" ∷ [])
    ∷ ("nativecluster", "nativecluster" ∷ "nativeclusters" ∷ [])
    ∷ ("nativeclusters", "nativecluster" ∷ "nativeclusters" ∷ [])
    ∷ ("node", "node" ∷ "nodes" ∷ [])
    ∷ ("nodes", "node" ∷ "nodes" ∷ [])
    ∷ []

abbrev pub or_alone : String → Option (List String) → List String
or_alone tag none = tag ∷ []
or_alone tag (some forms) = forms

-- `target_tag`: both forms of a url token that has two, and else the token alone.
unfoldable pub target_tags : String → List String
target_tags url_token = or_alone (lower url_token) (lookup (lower url_token) dual_form_tokens)

unfoldable pub token_fits : String → String → Bool
unfolding target_tags
token_fits token url_token = elem (lower token) (target_tags url_token)

-- The loop over the tokens of an entry. It returns `url_data`, or none where a token differs, for
-- which the code clears `url_data`.
unfoldable pub match_tokens : List String → List String → Dict String → Option (Dict String)
unfolding token_fits
match_tokens [] _ url_data = some url_data
match_tokens (token ∷ tokens) [] url_data = none
match_tokens (token ∷ tokens) (u ∷ us) url_data =
    let captured = match_tokens tokens us (insert (without_first token) u url_data) in
    let fixed = match_tokens tokens us url_data in
    if starts_with token "$" then captured else if token_fits token u then fixed else none

pub data RequestError : Type 0 where
  method_not_allowed not_found : RequestError
  -- "Invalid api version specified. Expected api version ..."
  not_acceptable : List String → RequestError

unfoldable pub method_eq : Method → Method → Bool
method_eq get get = true
method_eq head head = true
method_eq post post = true
method_eq put put = true
method_eq delete delete = true
method_eq connect connect = true
method_eq options options = true
method_eq trace trace = true
method_eq _ _ = false

unfoldable pub rules_of : Method → List (Method × Versions) → Option Versions
unfolding method_eq
rules_of m [] = none
rules_of m ((k, handlers) ∷ methods) = if method_eq k m then some handlers else rules_of m methods

-- The first tuple of versions that holds the requested one or '*'.
unfoldable pub matched_handler : String → Versions → Option Rule
matched_handler v [] = none
matched_handler v ((versions, rule) ∷ handlers) =
    if elem v versions || elem "*" versions then some rule else matched_handler v handlers

unfoldable pub supported_api_versions : Versions → List String
supported_api_versions [] = []
supported_api_versions ((versions, rule) ∷ handlers) = versions ++ supported_api_versions handlers

flag_value : Option Bool → Bool
flag_value none = false
flag_value (some b) = b

-- The loop over the required feature flags.
unfoldable pub feature_flags_satisfied : Dict Bool → List String → Bool
unfolding flag_value
feature_flags_satisfied config [] = true
feature_flags_satisfied config (flag ∷ flags) =
    flag_value (lookup flag config) && feature_flags_satisfied config flags

abbrev pub Match : Type 0
Match = Rule × Dict String

-- The body of the loop for an entry whose url fits. A rule whose feature flags are not satisfied
-- ends the search, and nothing is found.
check_version :
    Dict Bool → Dict String → Versions → Option Rule → Result RequestError (Option Match)
check_version config url_data handlers none = err (not_acceptable (supported_api_versions handlers))
check_version config url_data handlers (some rule) =
    ok (if feature_flags_satisfied config rule.feature_flags then some (rule, url_data) else none)

check_method :
    Dict Bool → String → Dict String → Option Versions → Result RequestError (Option Match)
unfolding check_version
check_method config v url_data none = err method_not_allowed
check_method config v url_data (some handlers) =
    check_version config url_data handlers (matched_handler v handlers)

unfoldable pub check_entry :
    Dict Bool → Method → String → Entry → Dict String → Result RequestError (Option Match)
unfolding check_method
check_entry config m v e url_data = check_method config v url_data (rules_of m e.methods)

-- Whether the url of an entry fits, with the values of its parameters.
unfoldable pub match_url : Entry → List String → Option (Dict String)
match_url e us =
    if nat_eq (length e.url_tokens) (length us) then match_tokens e.url_tokens us [] else none

on_entry :
    Dict Bool
    → Method
    → String
    → Entry
    → Result RequestError (Option Match)
    → Option (Dict String)
    → Result RequestError (Option Match)
on_entry config m v e rest none = rest
on_entry config m v e rest (some url_data) = check_entry config m v e url_data

unfoldable pub find_entry :
    Dict Bool → Method → String → List String → List Entry → Result RequestError (Option Match)
unfolding on_entry
find_entry config m v us [] = ok none
find_entry config m v us (e ∷ es) =
    on_entry config m v e (find_entry config m v us es) (match_url e us)

pub found : Option Match → Result RequestError Match
found none = err not_found
found (some r) = ok r

-- `if not found: raise NotFoundRequestError()`
unfoldable pub route :
    Dict Bool → Method → String → List String → List Entry → Result RequestError Match
unfolding find_entry found
route config m v us es = do r ← find_entry config m v us es; found r
