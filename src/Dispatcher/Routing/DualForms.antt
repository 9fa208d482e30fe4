-- ===== src/Dispatcher/Routing/DualForms.antt =====
-- The routing of urls that differ in singular and plural, or in upper and lower case.
use container_service_extens.Common.{
  suc, String, ◌≡◌, refl, ap, Bool, true, false, Option, none, some, List, [], ◌∷◌, length, Result,
  ok, err, ◌⊎◌, sym, ◌∙◌, ◌<>◌, In, here, there, arith, Option-cases, inl, inr, ◌>>=◌,
}
use container_service_extens.Common.Dict.{Dict, insert, lookup}
use container_service_extens.Common.Text.{without_first, lower}
use container_service_extens.Dispatcher.Entries.{Method, Rule, Entry}
use container_service_extens.Dispatcher.Routing.{
  RequestError, Match, or_alone, dual_form_tokens, target_tags, token_fits, match_tokens, match_url,
  check_entry, find_entry, found, route,
}

-- The words of urls that have a plural form.
abbrev pub dual_words : List String
dual_words = "template" ∷ "cluster" ∷ "ovdc" ∷ "orgvdc" ∷ "nativecluster" ∷ "node" ∷ []

-- But for the case of its letters, the text is the word or its plural.
abbrev pub IsForm : String → String → Type 0
IsForm word s = (lower s ≡ word) ⊎ (lower s ≡ (word <> "s"))

-- The texts differ only in the case of their letters, or are forms of one word.
pub data SameForm (u w : String) : Type 0 where
  same_letters : lower u ≡ lower w → SameForm u w
  same_word : (word : String) → In word dual_words → IsForm word u → IsForm word w → SameForm u w

-- Token by token, two urls are the same but for case and number.
abbrev pub SameForms : List String → List String → Type 0
SameForms [] [] = Unit
SameForms (u ∷ us) (w ∷ ws) = SameForm u w × SameForms us ws
SameForms _ _ = ⊥

abbrev tags_of : String → List String
tags_of tag = or_alone tag (lookup tag dual_form_tokens)

either :
    (word s : String)
    → tags_of word ≡ word ∷ (word <> "s") ∷ []
    → tags_of (word <> "s") ≡ word ∷ (word <> "s") ∷ []
    → IsForm word s
    → target_tags s ≡ word ∷ (word <> "s") ∷ []
unfolding target_tags
either word s one many (inl e) = ap tags_of e ∙ one
either word s one many (inr e) = ap tags_of e ∙ many

form-target_tags :
    (word s : String)
    → In word dual_words
    → IsForm word s
    → target_tags s ≡ word ∷ (word <> "s") ∷ []
unfolding dual_form_tokens lookup
form-target_tags word s here f = either "template" s refl refl f
form-target_tags word s (there here) f = either "cluster" s refl refl f
form-target_tags word s (there (there here)) f = either "ovdc" s refl refl f
form-target_tags word s (there (there (there here))) f = either "orgvdc" s refl refl f
form-target_tags word s (there (there (there (there here)))) f =
    either "nativecluster" s refl refl f
form-target_tags word s (there (there (there (there (there here))))) f = either "node" s refl refl f
form-target_tags word s (there (there (there (there (there (there h)))))) f = elim h [ ]

SameForm-target_tags : (u w : String) → SameForm u w → target_tags u ≡ target_tags w
unfolding target_tags
SameForm-target_tags u w (same_letters e) = ap tags_of e
SameForm-target_tags u w (same_word word h f g) =
    form-target_tags word u h f ∙ sym (form-target_tags word w h g)

-- The rule of a routed request, without the values of the url's parameters.
abbrev pub rule_of : Result RequestError Match → Result RequestError Rule
rule_of (ok (rule, _)) = ok rule
rule_of (err e) = err e

abbrev is_match : Option (Dict String) → Bool
is_match none = false
is_match (some _) = true

length-SameForms : (us ws : List String) → SameForms us ws → length us ≡ length ws
length-SameForms [] [] h = refl
length-SameForms (u ∷ us) (w ∷ ws) h = ap suc (length-SameForms us ws h.1)
length-SameForms [] (w ∷ ws) h = elim h [ ]
length-SameForms (u ∷ us) [] h = elim h [ ]

match_tokens-SameForms :
    (tokens us ws : List String) (d d' : Dict String)
    → SameForms us ws
    → is_match (match_tokens tokens us d) ≡ is_match (match_tokens tokens ws d')
unfolding match_tokens token_fits
match_tokens-SameForms [] us ws d d' h = refl
match_tokens-SameForms (t ∷ ts) [] [] d d' h = refl
match_tokens-SameForms (t ∷ ts) (u ∷ us) (w ∷ ws) d d' h = rw (SameForm-target_tags u w h.0) (
    ground (
      arith,
      match_tokens-SameForms ts us ws d d' h.1,
      match_tokens-SameForms ts us ws (insert (without_first t) u d) (insert (without_first t) w d')
          h.1,
    ))
match_tokens-SameForms (t ∷ ts) [] (w ∷ ws) d d' h = elim h [ ]
match_tokens-SameForms (t ∷ ts) (u ∷ us) [] d d' h = elim h [ ]

abbrev rule_of_search : Result RequestError (Option Match) → Result RequestError (Option Rule)
rule_of_search (ok none) = ok none
rule_of_search (ok (some (rule, _))) = ok (some rule)
rule_of_search (err e) = err e

check_entry-rule :
    (config : Dict Bool) (m : Method) (v : String) (e : Entry) (d d' : Dict String)
    → rule_of_search (check_entry config m v e d) ≡ rule_of_search (check_entry config m v e d')
unfolding check_entry
check_entry-rule config m v e d d' = ground arith

match_url-SameForms :
    (e : Entry) (us ws : List String)
    → SameForms us ws
    → is_match (match_url e us) ≡ is_match (match_url e ws)
unfolding match_url
match_url-SameForms e us ws h =
    rw (length-SameForms us ws h)
      (ground (arith, match_tokens-SameForms e.url_tokens us ws [] [] h))

find_entry-SameForms :
    (config : Dict Bool) (m : Method) (v : String) (us ws : List String) (es : List Entry)
    → SameForms us ws
    → rule_of_search (find_entry config m v us es) ≡ rule_of_search (find_entry config m v ws es)
unfolding find_entry
find_entry-SameForms config m v us ws [] h = refl
find_entry-SameForms config m v us ws (e ∷ es) h = elim (Option-cases (match_url e us)) [
  | inl p ↦ elim (Option-cases (match_url e ws)) [
    | inl q ↦ rw (p, q) (find_entry-SameForms config m v us ws es h)
    | inr (d', q) ↦ absurd (let c = match_url-SameForms e us ws h in cc)
  ]
  | inr (d, p) ↦ elim (Option-cases (match_url e ws)) [
    | inl q ↦ absurd (let c = match_url-SameForms e us ws h in cc)
    | inr (d', q) ↦ rw (p, q) (check_entry-rule config m v e d d')
  ]
]

rule_of-found :
    (r r' : Result RequestError (Option Match))
    → rule_of_search r ≡ rule_of_search r'
    → rule_of (r >>= found) ≡ rule_of (r' >>= found)
unfolding found
rule_of-found (ok none) (ok none) h = refl
rule_of-found (ok none) (ok (some x)) h = cc
rule_of-found (ok none) (err e) h = cc
rule_of-found (ok (some x)) (ok none) h = cc
rule_of-found (ok (some x)) (ok (some y)) h = ground arith
rule_of-found (ok (some x)) (err e) h = cc
rule_of-found (err e) (ok none) h = cc
rule_of-found (err e) (ok (some x)) h = cc
rule_of-found (err e) (err e') h = ground arith

-- Two urls whose tokens differ pairwise only in the case of their letters, or are the singular and the
-- plural of a word that has both forms, again in any case, get the same rule or the same error,
-- over any table, for the same verb, version and configuration.
pub route-SameForms :
    (config : Dict Bool) (m : Method) (v : String) (us ws : List String) (es : List Entry)
    → SameForms us ws
    → rule_of (route config m v us es) ≡ rule_of (route config m v ws es)
unfolding route
route-SameForms config m v us ws es h =
    rule_of-found (find_entry config m v us es) (find_entry config m v ws es)
      (find_entry-SameForms config m v us ws es h)
