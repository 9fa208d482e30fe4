-- ===== src/Dispatcher/Header/Version.antt =====
-- The API version of an Accept header, there and back.
use container_service_extens.Common.{
  ℕ, String, ◌<>◌, ◌≡◌, refl, sym, ap, Bool-cases, inl, inr, ◌∙◌, true, false, some, List, [], ◌∷◌,
  ◌==◌, eq_iff, arith,
}
use container_service_extens.Common.Text.{
  split, lower, lacks, lacks-append, lower-append, split_of_lacks, split-append,
}
use container_service_extens.Dispatcher.Header.{
  fragments, serves_json, parse_accept_header, get_api_version_from_accept_header,
}

-- The header that a client sends for a version: application/json;version=v
abbrev pub accept_for : String → String
accept_for v = "application/json" <> String.◌∷◌ ";" ("version" <> String.◌∷◌ "=" v)

accept_for_text : accept_for "36.0" ≡ "application/json;version=36.0"
accept_for_text = refl

-- A version without the characters that separate the parts of a header, and without capitals.
pub record IsPlain (v : String) : Type 0 where
  pub no_comma : lacks b',' v ≡ true
  pub no_semicolon : lacks b';' v ≡ true
  pub no_equals : lacks b'=' v ≡ true
  pub lower_case : lower v ≡ v

pair_lacks :
    (sep : ℕ) (v : String)
    → lacks sep "version=" ≡ true
    → lacks sep v ≡ true
    → lacks sep ("version" <> String.◌∷◌ "=" v) ≡ true
pair_lacks sep v h k = rw lacks-append (ground arith)

split_semicolon :
    (v : String)
    → lacks b';' v ≡ true
    → split b';' (accept_for v) ≡ "application/json" ∷ ("version" <> String.◌∷◌ "=" v) ∷ []
split_semicolon v h =
    split-append b';' "application/json" ";" ("version" <> String.◌∷◌ "=" v) refl refl
    ∙ ap (λ (l : List String). "application/json" ∷ l)
        (split_of_lacks b';' ("version" <> String.◌∷◌ "=" v) (pair_lacks b';' v refl h))

split_equals :
    (v : String)
    → lacks b'=' v ≡ true
    → split b'=' ("version" <> String.◌∷◌ "=" v) ≡ "version" ∷ v ∷ []
split_equals v h =
    split-append b'=' "version" "=" v refl refl
    ∙ ap (λ (l : List String). "version" ∷ l) (split_of_lacks b'=' v h)

module _ (v : String) (plain : IsPlain v) where
  lower-accept_for : lower (accept_for v) ≡ accept_for v
  unfolding lower
  lower-accept_for = rw (lower-append, lower-append, plain.lower_case)

  split_comma : split b',' (accept_for v) ≡ accept_for v ∷ []
  split_comma =
      split_of_lacks b',' (accept_for v) (rw lacks-append (pair_lacks b',' v refl plain.no_comma))

  fragments-accept_for :
      fragments (accept_for v) ≡ record { val0 = "application"; val1 = "json"; val2 = "version" }
  unfolding fragments split
  fragments-accept_for = rw (split_semicolon v plain.no_semicolon, split_equals v plain.no_equals)

  accept_for-nonempty : (accept_for v == "") ≡ false
  unfolding split
  accept_for-nonempty = elim (Bool-cases (accept_for v == "")) [
    | inl p ↦
        let e = sym (split_semicolon v plain.no_semicolon) ∙ ap (split b';') ((eq_iff _ _).0 p) in
        cc
    | inr p ↦ p
  ]

  serves-accept_for : serves_json (fragments (accept_for v)) ≡ true
  unfolding serves_json
  serves-accept_for = rw fragments-accept_for

  -- The header of a version that is plain text is selected as it is, and the version is read back
  -- from it.
  pub parse_accept_header-accept_for :
      (parse_accept_header (accept_for v) ≡ some (accept_for v))
      × (get_api_version_from_accept_header (accept_for v) ≡ v)
  unfolding parse_accept_header get_api_version_from_accept_header
  parse_accept_header-accept_for = (
    rw (lower-accept_for, split_comma, serves-accept_for),
    rw (split_semicolon v plain.no_semicolon, split_equals v plain.no_equals)
        (rw accept_for-nonempty),
  )
