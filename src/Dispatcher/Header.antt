-- ===== src/Dispatcher/Header.antt =====
-- container_service_extension/server/request_dispatcher.py: `_parse_accept_header` and
-- `_get_api_version_from_accept_header`.
pub mod Servable
pub mod Selection
pub mod Version
use Prim.Native.Char.{code}
use Prim.Native.String
use container_service_extens.Common.{
  ℕ, String, Bool, true, false, ◌&&◌, ◌||◌, not, Option, none, some, List, [], ◌∷◌, ◌==◌, nat_eq,
  if◌then◌else◌,
}
use container_service_extens.Common.Text.{split, lower}

-- `tokens[i] if len(tokens) > i else ''`
abbrev pub first_token : List String → String
first_token [] = ""
first_token (a ∷ _) = a

abbrev pub second_token : List String → String
second_token (_ ∷ b ∷ _) = b
second_token _ = ""

-- `s.replace('*+', '')`, from the left and without overlaps.
unfoldable pub without_star_plus : String → String
without_star_plus String.[] = String.[]
without_star_plus (String.◌∷◌ c String.[]) = String.◌∷◌ c String.[]
without_star_plus (String.◌∷◌ c (String.◌∷◌ d s)) =
    let skipped = without_star_plus s in
    let kept = String.◌∷◌ c (without_star_plus (String.◌∷◌ d s)) in
    if nat_eq (code c) b'*' && nat_eq (code d) b'+' then skipped else kept

-- The values (val0, val1, val2) of a header.
pub record Fragments : Type 0 where
  pub val0 : String
  pub val1 : String
  pub val2 : String

unfoldable pub fragments : String → Fragments
fragments header =
    let tokens = split b';' header in
    let application = split b'/' (first_token tokens) in
    let version = split b'=' (second_token tokens) in
    record {
      val0 = first_token application;
      val1 = second_token application;
      val2 = first_token version;
    }

-- The rewriting of `*` and `*+json`, and the test (val0, val1, val2) == ('application', 'json',
-- 'version').
unfoldable pub serves_json : Fragments → Bool
unfolding without_star_plus
serves_json f =
    let val1 = (if f.val0 == "*" && f.val1 == "" then "*" else f.val1) in
    let val0 = (if f.val0 == "*" then "application" else f.val0) in
    let plain = without_star_plus val1 in
    let shown = (if plain == "*" then "json" else plain) in
    val0 == "application" && shown == "json" && f.val2 == "version"

-- The loop over `processed_headers`. Its keys are the headers, so a header that is repeated is met
-- once, which changes nothing: the loop ends at the first that fits.
unfoldable pub select_header : List String → Option String
unfolding fragments serves_json
select_header [] = none
select_header (header ∷ headers) =
    let rest = select_header headers in if serves_json (fragments header) then some header else rest

-- `none` is the `NotAcceptableRequestError`; the code tests `if not selected_header`.
unfoldable pub parse_accept_header : String → Option String
unfolding select_header
parse_accept_header accept_header = select_header (split b',' (lower accept_header))

version_of_pair : List String → String
version_of_pair (_ ∷ v ∷ []) = v
version_of_pair _ = "0.0"

version_of_tokens : List String → String
unfolding version_of_pair
version_of_tokens (_ ∷ v ∷ []) = version_of_pair (split b'=' v)
version_of_tokens _ = "0.0"

unfoldable pub get_api_version_from_accept_header : String → String
unfolding version_of_tokens
get_api_version_from_accept_header header =
    if header == "" then "0.0" else version_of_tokens (split b';' header)
