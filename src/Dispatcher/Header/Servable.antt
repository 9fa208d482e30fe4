-- ===== src/Dispatcher/Header/Servable.antt =====
-- What an alternative of an Accept header must be so that CSE can serve it, written as a grammar.
use Prim.Native.Char.{Char, code}
use container_service_extens.Common.{
  ℕ, String, ◌≡◌, ◌≢◌, refl, sym, ap, subst, inl, inr, ◌⊎◌, ◌↔◌, Bool, true, false, ◌&&◌, ◌==◌,
  nat_eq, eq_iff, Bool-cases, arith, if◌then◌else◌,
}
use container_service_extens.Common.Text.{split}
use container_service_extens.Dispatcher.Header.{
  fragments, without_star_plus, serves_json, first_token, second_token,
}

-- A text, and what is left of it when each "*+", from the left, is taken out.
pub data Erases : String → String → Type 0 where
  empty : Erases String.[] String.[]
  last : (c : Char) → Erases (String.◌∷◌ c String.[]) (String.◌∷◌ c String.[])
  star_plus :
      (c d : Char) (s t : String)
      → code c ≡ b'*'
      → code d ≡ b'+'
      → Erases s t
      → Erases (String.◌∷◌ c (String.◌∷◌ d s)) t
  letter :
      (c d : Char) (s t : String)
      → (code c ≢ b'*') ⊎ (code d ≢ b'+')
      → Erases (String.◌∷◌ d s) t
      → Erases (String.◌∷◌ c (String.◌∷◌ d s)) (String.◌∷◌ c t)

-- The type and the subtype of a media range: any type alone or with an empty subtype, or any type or
-- "application" with a subtype that is, but for each "*+" in it, json or any.
pub data IsJsonRange : (type subtype : String) → Type 0 where
  any_type : IsJsonRange "*" ""
  json :
      (type subtype plain : String)
      → (type ≡ "*") ⊎ (type ≡ "application")
      → Erases subtype plain
      → (plain ≡ "*") ⊎ (plain ≡ "json")
      → IsJsonRange type subtype

-- A media range of JSON, and after the first semicolon a parameter named "version". A type, subtype or
-- name that is not there is empty; the spaces are parts of them.
pub record Servable (header : String) : Type 0 where
  pub range :
      let media = split b'/' (first_token (split b';' header)) in
      IsJsonRange (first_token media) (second_token media)
  pub version : first_token (split b'=' (second_token (split b';' header))) ≡ "version"

both_equal : (m j n k : ℕ) → ((nat_eq m j && nat_eq n k) ≡ true) ↔ ((m ≡ j) × (n ≡ k))
both_equal m j n k = (λ h. (ground (arith, h), ground (arith, h)), λ (e, f). ground (arith, e, f))

one_differs : (m j n k : ℕ) → ((nat_eq m j && nat_eq n k) ≡ false) ↔ ((m ≢ j) ⊎ (n ≢ k))
one_differs m j n k = (
  λ h. elim (Bool-cases (nat_eq m j)) [
    | inl p ↦ inr λ e. ground (arith, h, p, e)
    | inr p ↦ inl λ e. ground (arith, p, e)
  ],
  λ h. elim h [ inl e ↦ ground (arith, e) | inr e ↦ ground (arith, e) ],
)

without_star_plus-Erases : (s : String) → Erases s (without_star_plus s)
unfolding without_star_plus
without_star_plus-Erases String.[] = empty
without_star_plus-Erases (String.◌∷◌ c String.[]) = last c
without_star_plus-Erases (String.◌∷◌ c (String.◌∷◌ d s)) =
    let skipped = without_star_plus-Erases s in
    let kept = without_star_plus-Erases (String.◌∷◌ d s) in
    elim (Bool-cases (nat_eq (code c) b'*' && nat_eq (code d) b'+')) [
      | inl p ↦
          let (e, f) = (both_equal (code c) b'*' (code d) b'+').0 p in
          rw p (star_plus c d s (without_star_plus s) e f skipped)
      | inr p ↦ rw p (
          letter c d s (without_star_plus (String.◌∷◌ d s))
            ((one_differs (code c) b'*' (code d) b'+').0 p) kept)
    ]

Erases-without_star_plus : (s t : String) → Erases s t → without_star_plus s ≡ t
unfolding without_star_plus
Erases-without_star_plus _ _ empty = refl
Erases-without_star_plus _ _ (last c) = refl
Erases-without_star_plus _ _ (star_plus c d s t e f h) =
    rw ((both_equal (code c) b'*' (code d) b'+').1 (e, f)) (Erases-without_star_plus s t h)
Erases-without_star_plus _ _ (letter c d s t e h) =
    rw ((one_differs (code c) b'*' (code d) b'+').1 e)
      (ap (λ u. String.◌∷◌ c u) (Erases-without_star_plus (String.◌∷◌ d s) t h))

all_three : (a b c : Bool) → ((a && b && c) ≡ true) ↔ ((a ≡ true) × (b ≡ true) × (c ≡ true))
all_three true true true = (λ h. (refl, refl, refl), λ h. refl)
all_three true true false = (λ h. absurd cc, λ h. absurd cc)
all_three true false c = (λ h. absurd cc, λ h. absurd cc)
all_three false b c = (λ h. absurd cc, λ h. absurd cc)

-- One text is read as another one.
read_as :
    (s from to : String) → (((if s == from then to else s) == to) ≡ true) ↔ ((s ≡ from) ⊎ (s ≡ to))
read_as s from to = (
  λ h. elim (Bool-cases (s == from)) [
    | inl p ↦ inl ((eq_iff s from).0 p)
    | inr p ↦ inr ((eq_iff s to).0 (ground (arith, h, p)))
  ],
  λ h. elim (Bool-cases (s == from)) [
    | inl p ↦ rw p ((eq_iff to to).1 refl)
    | inr p ↦ elim h [
      | inl e ↦ absurd (let q = (eq_iff s from).1 e in cc)
      | inr e ↦ rw p ((eq_iff s to).1 e)
    ]
  ],
)

abbrev subtype_of : String → String → String
subtype_of type subtype = if type == "*" && subtype == "" then "*" else subtype

abbrev shown : String → String
shown plain = if plain == "*" then "json" else plain

from_range :
    (type subtype : String)
    → (type ≡ "*") ⊎ (type ≡ "application")
    → (shown (without_star_plus (subtype_of type subtype)) == "json") ≡ true
    → IsJsonRange type subtype
from_range type subtype t h = elim (Bool-cases (type == "*" && subtype == "")) [
  | inl p ↦
      subst (λ t. IsJsonRange t subtype) (sym ((eq_iff type "*").0 (ground (arith, p))))
        (subst (λ u. IsJsonRange "*" u) (sym ((eq_iff subtype "").0 (ground (arith, p)))) any_type)
  | inr p ↦
      json type subtype (without_star_plus subtype) t (without_star_plus-Erases subtype)
        ((read_as (without_star_plus subtype) "*" "json").0 (rw p at h))
]

to_range :
    (type subtype : String)
    → IsJsonRange type subtype
    → ((type ≡ "*") ⊎ (type ≡ "application"))
      × ((shown (without_star_plus (subtype_of type subtype)) == "json") ≡ true)
unfolding without_star_plus
to_range _ _ any_type = (inl refl, refl)
to_range _ _ (json type subtype plain t e s) = (
  t,
  elim (Bool-cases (type == "*" && subtype == "")) [
    | inl p ↦ rw p refl
    | inr p ↦ rw (p, Erases-without_star_plus subtype plain e) ((read_as plain "*" "json").1 s)
  ],
)

-- What the code tests is the grammar.
pub serves_json-Servable :
    (header : String) → (serves_json (fragments header) ≡ true) ↔ Servable header
unfolding serves_json fragments
serves_json-Servable header =
    let media = split b'/' (first_token (split b';' header)) in
    let name = first_token (split b'=' (second_token (split b';' header))) in
    let tests = all_three _ _ (name == "version") in
    (
      λ h.
          let (t, s, v) = tests.0 h in
          record {
            range =
                from_range (first_token media) (second_token media)
                  ((read_as (first_token media) "*" "application").0 t) s;
            version = (eq_iff name "version").0 v;
          },
      λ h.
          let (t, s) = to_range (first_token media) (second_token media) h.range in
          tests.1 (
            (read_as (first_token media) "*" "application").1 t,
            s,
            (eq_iff name "version").1 h.version,
          ),
    )
