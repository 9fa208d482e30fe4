-- ===== src/Dispatcher/Header/Selection.antt =====
-- Which of the alternatives of an Accept header `_parse_accept_header` selects.
use Prim.Native.Char.{Char, code}
use container_service_extens.Common.{
  ℕ, String, ◌≡◌, ◌≢◌, refl, sym, inl, inr, ap, Bool, false, Option, none, some, List, [], ◌∷◌,
  ◌++◌, ◌==◌, nat_eq, eq_iff, All, Bool-cases, arith,
}
use container_service_extens.Common.Text.{split, lower}
use container_service_extens.Dispatcher.Header.Servable.{Servable, serves_json-Servable}
use container_service_extens.Dispatcher.Header.{
  fragments, serves_json, select_header, parse_accept_header, first_token,
}

-- A header that CSE can serve.
abbrev pub serves : String → Bool
serves header = serves_json (fragments header)

-- What was selected from the alternatives.
abbrev pub Selects : List String → Option String → Type 0
Selects alternatives none = All (λ h. ¬ Servable h) alternatives
Selects alternatives (some header) =
    (before : List String) × (after : List String) × (alternatives ≡ before ++ header ∷ after)
    × All (λ h. ¬ Servable h) before
    × Servable header

earlier :
    (h : String) (hs : List String) (r : Option String)
    → ¬ Servable h
    → Selects hs r
    → Selects (h ∷ hs) r
earlier h hs none p s = (p, s)
earlier h hs (some x) p (before, after, e, q, t) =
    (h ∷ before, after, ap (λ (l : List String). h ∷ l) e, (p, q), t)

select_header-Selects : (hs : List String) → Selects hs (select_header hs)
unfolding select_header
select_header-Selects [] = tt
select_header-Selects (h ∷ hs) = elim (Bool-cases (serves h)) [
  | inl p ↦ rw p ([], hs, refl, tt, (serves_json-Servable h).0 p)
  | inr p ↦ rw p (
      earlier h hs (select_header hs) (λ s. let q = (serves_json-Servable h).1 s in cc)
        (select_header-Selects hs))
]

-- The alternatives of the header are its pieces between commas, in lower case, with the spaces at their
-- ends as parts of them. The selected one is the first that is a media range of JSON with a parameter named
-- "version"; an error is raised if none is.
pub parse_accept_header-Selects :
    (accept_header : String)
    → Selects (split b',' (lower accept_header)) (parse_accept_header accept_header)
unfolding parse_accept_header
parse_accept_header-Selects accept_header = select_header-Selects (split b',' (lower accept_header))

split-nonempty : (sep : ℕ) (s : String) → (a : String) × (r : List String) × (split sep s ≡ a ∷ r)
unfolding split
split-nonempty sep String.[] = (String.[], [], refl)
split-nonempty sep (String.◌∷◌ c s) = elim (Bool-cases (nat_eq (code c) sep)) [
  | inl p ↦ rw p (String.[], split sep s, refl)
  | inr p ↦ let (a, r, e) = split-nonempty sep s in (String.◌∷◌ c a, r, rw (p, e))
]

-- The first piece of a text begins as the text does, if that is not the separator.
first_token-split :
    (sep : ℕ) (c : Char) (s : String)
    → nat_eq (code c) sep ≡ false
    → (t : String) × (first_token (split sep (String.◌∷◌ c s)) ≡ String.◌∷◌ c t)
unfolding split
first_token-split sep c s h = let (a, r, e) = split-nonempty sep s in (a, rw (h, e))

-- An alternative that begins with a space is not served.
spaced_val0 : (s : String) → (t : String) × ((fragments (String.◌∷◌ " " s)).val0 ≡ String.◌∷◌ " " t)
unfolding fragments
spaced_val0 s =
    let (t, p) = first_token-split b';' " " s refl in
    let (u, q) = first_token-split b'/' " " t refl in (u, rw p q)

head_code : String → ℕ
head_code String.[] = 0
head_code (String.◌∷◌ c s) = code c

spaced-ne :
    (t : String) (c : Char) (r : String)
    → code c ≢ b' '
    → (String.◌∷◌ " " t == String.◌∷◌ c r) ≡ false
unfolding head_code
spaced-ne t c r h = elim (Bool-cases (String.◌∷◌ " " t == String.◌∷◌ c r)) [
  | inl p ↦ absurd (h (sym (ap head_code ((eq_iff _ _).0 p))))
  | inr p ↦ p
]

-- An alternative that begins with a space, as those after the first in "text/plain, */*", is never
-- served, whatever follows the space.
spaced_unserved : (s : String) → serves (String.◌∷◌ " " s) ≡ false
unfolding serves_json
spaced_unserved s =
    let (t, e) = spaced_val0 s in
    rw (e, spaced-ne t "*" "" (omega arith), spaced-ne t "a" "pplication" (omega arith))

-- Every text of the list begins with a space.
abbrev pub AllSpaced : List String → Type 0
AllSpaced [] = Unit
AllSpaced (String.[] ∷ hs) = ⊥
AllSpaced (String.◌∷◌ c s ∷ hs) = (c ≡ " ") × AllSpaced hs

-- If CSE cannot serve the first alternative and every further one follows its comma with a space,
-- nothing is selected, and the request is refused.
select_header-spaced :
    (first : String) (others : List String)
    → serves first ≡ false
    → AllSpaced others
    → select_header (first ∷ others) ≡ none
unfolding select_header
select_header-spaced first [] h k = rw h
select_header-spaced first (String.[] ∷ hs) h k = elim k [ ]
select_header-spaced first (String.◌∷◌ c s ∷ hs) h (e, k) =
    rw (h, e) (select_header-spaced (String.◌∷◌ " " s) hs (spaced_unserved s) k)
