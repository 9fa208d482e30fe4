-- ===== src/Dispatcher/Routing/Soundness.antt =====
-- What a routed request says of the entry that was found, by the loop of `process_request`.
use container_service_extens.Common.{
  String, ◌⊎◌, ◌≡◌, refl, sym, ap, subst, ◌∙◌, Bool, true, ◌||◌, Option, none, some, List, [], ◌∷◌,
  ◌++◌, elem, All, In, here, there, ok, err, arith, Bool-cases, inl, inr, Option-cases,
}
use mathlib.Core.Option.{some-injective}
use container_service_extens.Common.Dict.{Dict}
use container_service_extens.Dispatcher.Entries.{Method, Rule, Versions, Entry}
use container_service_extens.Dispatcher.Routing.{
  Match, match_url, matched_handler, rules_of, feature_flags_satisfied, check_entry, find_entry,
  found, route, not_found,
}

-- Some tuple of versions lists the rule, and holds the version or '*'.
pub record Serves (v : String) (handlers : Versions) (rule : Rule) : Type 0 where
  pub versions : List String
  pub listed : In (versions, rule) handlers
  pub holds : (elem v versions || elem "*" versions) ≡ true

matched_handler-Serves :
    (v : String) (handlers : Versions) (rule : Rule)
    → matched_handler v handlers ≡ some rule
    → Serves v handlers rule
unfolding matched_handler
matched_handler-Serves v [] rule h = cc
matched_handler-Serves v ((versions, r) ∷ hs) rule h =
    elim (Bool-cases (elem v versions || elem "*" versions)) [
      | inl fits ↦
          let same : r ≡ rule = some-injective r rule (rw fits at h) in
          record {
            versions = versions;
            listed = subst (λ x. In (versions, x) ((versions, r) ∷ hs)) same here;
            holds = fits;
          }
      | inr differs ↦
          let later : Serves v hs rule = matched_handler-Serves v hs rule (rw differs at h) in
          record { versions = later.versions; listed = there later.listed; holds = later.holds }
    ]

-- The entry whose url fits first, and the values of its parameters.
pub record FirstMatch (us : List String) (es : List Entry) (e : Entry) (url_data : Dict String)
    : Type 0 where
  pub before : List Entry
  pub after : List Entry
  pub splits : es ≡ before ++ e ∷ after
  pub earlier : All (λ x. match_url x us ≡ none) before
  pub fits : match_url e us ≡ some url_data

search_first :
    (us : List String) (es : List Entry)
    → All (λ x. match_url x us ≡ none) es ⊎ ((e : Entry) × (d : Dict String) × FirstMatch us es e d)
search_first us [] = inl tt
search_first us (e ∷ es) = elim (Option-cases (match_url e us)) [
  | inr (d, p) ↦
      inr (e, d, record { before = []; after = es; splits = refl; earlier = tt; fits = p })
  | inl p ↦ elim (search_first us es) [
    | inl rest ↦ inl (p, rest)
    | inr (e', d, f) ↦ inr (
      e',
      d,
      record {
        before = e ∷ f.before;
        after = f.after;
        splits = ap (λ (l : List Entry). e ∷ l) f.splits;
        earlier = (p, f.earlier);
        fits = f.fits;
      },
    )
  ]
]

module _ (config : Dict Bool) (m : Method) (v : String) (us : List String) where
  find_of_none :
      (es : List Entry)
      → All (λ x. match_url x us ≡ none) es
      → find_entry config m v us es ≡ ok none
  unfolding find_entry
  find_of_none [] h = refl
  find_of_none (e ∷ es) h = rw h.0 (find_of_none es h.1)

  find_of_split :
      (before after : List Entry) (e : Entry) (d : Dict String)
      → All (λ x. match_url x us ≡ none) before
      → match_url e us ≡ some d
      → find_entry config m v us (before ++ e ∷ after) ≡ check_entry config m v e d
  unfolding find_entry
  find_of_split [] after e d h p = rw p
  find_of_split (x ∷ before) after e d h p = rw h.0 (find_of_split before after e d h.1 p)

  find_of_first :
      (es : List Entry) (e : Entry) (d : Dict String)
      → FirstMatch us es e d
      → find_entry config m v us es ≡ check_entry config m v e d
  find_of_first es e d f = rw f.splits (find_of_split f.before f.after e d f.earlier f.fits)

  -- A request is routed by the first entry whose url fits, and by none if there is no such entry.
  route-FirstMatch :
      (es : List Entry)
      → ((All (λ x. match_url x us ≡ none) es) × (route config m v us es ≡ err not_found))
        ⊎ ((e : Entry) × (d : Dict String) × FirstMatch us es e d
            × (find_entry config m v us es ≡ check_entry config m v e d))
  unfolding route
  route-FirstMatch es = elim (search_first us es) [
    | inl h ↦ inl (h, rw (find_of_none es h))
    | inr (e, d, f) ↦ inr (e, d, f, find_of_first es e d f)
  ]

-- What a routed request satisfies.
pub record Routed (config : Dict Bool) (m : Method) (v : String) (us : List String)
    (es : List Entry) (rule : Rule) (url_data : Dict String) : Type 0 where
  pub entry : Entry
  pub first : FirstMatch us es entry url_data
  pub handlers : Versions
  pub verb : rules_of m entry.methods ≡ some handlers
  pub version : Serves v handlers rule
  pub flags : feature_flags_satisfied config rule.feature_flags ≡ true

module _ (config : Dict Bool) (m : Method) (v : String) (e : Entry) (d : Dict String) (rule : Rule)
    (url_data : Dict String) where
  -- What a successful check of an entry has seen.
  check_entry-eq-ok :
      check_entry config m v e d ≡ ok (some (rule, url_data))
      → (handlers : Versions) × (rules_of m e.methods ≡ some handlers)
        × (matched_handler v handlers ≡ some rule)
        × (feature_flags_satisfied config rule.feature_flags ≡ true)
        × (d ≡ url_data)
  unfolding check_entry
  check_entry-eq-ok h = elim (Option-cases (rules_of m e.methods)) [
    | inl p ↦ absurd (let q = rw p at h in cc)
    | inr (hs, p) ↦ elim (Option-cases (matched_handler v hs)) [
      | inl q ↦ absurd (let r = rw (p, q) at h in cc)
      | inr (r, q) ↦ (hs, p, ground arith, ground arith, ground arith)
    ]
  ]

found-eq-ok : (r : Option Match) (x : Match) → found r ≡ ok x → r ≡ some x
unfolding found
found-eq-ok none x h = cc
found-eq-ok (some y) x h = ground arith

module _ (config : Dict Bool) (m : Method) (v : String) (us : List String) (es : List Entry)
    (rule : Rule) (url_data : Dict String) where
  route-eq-ok :
      route config m v us es ≡ ok (rule, url_data)
      → find_entry config m v us es ≡ ok (some (rule, url_data))
  unfolding route found
  route-eq-ok h = ground arith

  -- If a request is routed to a rule with some values of the url's parameters, the rule is one of
  -- the first entry whose url fits, with those values, under the request's verb and under a tuple
  -- with its API version or '*', and the server's configuration satisfies its feature flags.
  pub route-Routed :
      route config m v us es ≡ ok (rule, url_data) → Routed config m v us es rule url_data
  route-Routed h = elim (search_first us es) [
    | inl no_entry ↦
        absurd (let q = find_of_none config m v us es no_entry ∙ sym refl in cc (route-eq-ok h, q))
    | inr (e, d, f) ↦
        let (hs, verb, picked, flags, same) =
          check_entry-eq-ok config m v e d rule url_data
            (sym (find_of_first config m v us es e d f) ∙ route-eq-ok h) in
        record {
          entry = e;
          first = subst (λ x. FirstMatch us es e x) same f;
          handlers = hs;
          verb = verb;
          version = matched_handler-Serves v hs rule picked;
          flags = flags;
        }
  ]

  -- And a request is so routed whenever the first entry that fits has such a rule, where it is the
  -- first of the entry for the version.
  pub route_of_first :
      (e : Entry) (handlers : Versions)
      → FirstMatch us es e url_data
      → rules_of m e.methods ≡ some handlers
      → matched_handler v handlers ≡ some rule
      → feature_flags_satisfied config rule.feature_flags ≡ true
      → route config m v us es ≡ ok (rule, url_data)
  unfolding route check_entry
  route_of_first e hs f verb picked flags =
      rw (find_of_first config m v us es e url_data f, verb, picked, flags)
