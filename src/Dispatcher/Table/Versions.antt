-- ===== src/Dispatcher/Table/Versions.antt =====
-- Which API versions the rules of CSE_REQUEST_DISPATCHER_LIST serve.
use container_service_extens.Common.{
  String, ◌≡◌, refl, Bool, true, false, ◌&&◌, ◌||◌, not, List, [], ◌∷◌, elem, all, In, all-In, ok,
  arith, eq_iff, In-append_right, some, subst, here, there, Bool-cases, inl, inr,
}
use mathlib.Core.Option.{some-injective}
use container_service_extens.Common.Dict.{Dict, lookup}
use container_service_extens.Dispatcher.Entries.{Method, Rule, Versions, Entry}
use container_service_extens.Dispatcher.Routing.{
  rules_of, method_eq, feature_flags_satisfied, route,
}
use container_service_extens.Dispatcher.Routing.Soundness.{route-Routed}
use container_service_extens.Dispatcher.Table.{cse_request_dispatcher_list}

abbrev within : List String → List String → Bool
within allowed versions = all (λ v. elem v allowed) versions

-- A rule behind the flag of the old API lists only 33.0 and 34.0, one behind the flag of the new
-- API only 35.0 and 36.0.
rule_agrees : List String × Rule → Bool
rule_agrees (versions, rule) =
    (not (elem "legacy_api" rule.feature_flags) || within ("33.0" ∷ "34.0" ∷ []) versions)
    && (not (elem "non_legacy_api" rule.feature_flags) || within ("35.0" ∷ "36.0" ∷ []) versions)

verb_agrees : Method × Versions → Bool
unfolding rule_agrees
verb_agrees (m, handlers) = all rule_agrees handlers

entry_agrees : Entry → Bool
unfolding verb_agrees
entry_agrees e = all verb_agrees e.methods

table_agrees : all entry_agrees cse_request_dispatcher_list ≡ true
unfolding entry_agrees cse_request_dispatcher_list
table_agrees = refl

elem-within :
    (v : String) (allowed versions : List String)
    → within allowed versions ≡ true
    → elem v versions ≡ true
    → elem v allowed ≡ true
elem-within v allowed [] h m = cc
elem-within v allowed (y ∷ ys) h m = ground (arith, eq_iff y v, elem-within v allowed ys)

-- A rule's versions are served if none of them is '*'.
serves-within :
    (v : String) (allowed versions : List String)
    → within allowed versions ≡ true
    → elem "*" allowed ≡ false
    → (elem v versions || elem "*" versions) ≡ true
    → elem v allowed ≡ true
serves-within v allowed versions w star h =
    ground (arith, elem-within v allowed versions, elem-within "*" allowed versions)

rules_of-In :
    (m : Method) (ms : List (Method × Versions)) (hs : Versions)
    → rules_of m ms ≡ some hs
    → (k : Method) × In (k, hs) ms
unfolding rules_of
rules_of-In m [] hs h = cc
rules_of-In m ((k, gs) ∷ ms) hs h = elim (Bool-cases (method_eq k m)) [
  | inl fits ↦ (k, subst (λ x. In (k, x) ((k, gs) ∷ ms)) (some-injective gs hs (rw fits at h)) here)
  | inr differs ↦ let (j, i) = rules_of-In m ms hs (rw differs at h) in (j, there i)
]

feature_flags-On :
    (config : Dict Bool) (flag : String) (flags : List String)
    → feature_flags_satisfied config flags ≡ true
    → elem flag flags ≡ true
    → lookup flag config ≡ some true
unfolding feature_flags_satisfied
feature_flags-On config flag [] h m = cc
feature_flags-On config flag (f ∷ fs) h m =
    ground (arith, eq_iff f flag, feature_flags-On config flag fs)

module _ (config : Dict Bool) (m : Method) (v : String) (us : List String) (rule : Rule)
    (url_data : Dict String)
    (routed : route config m v us cse_request_dispatcher_list ≡ ok (rule, url_data)) where
  agrees :
      (versions : List String) × (rule_agrees (versions, rule) ≡ true)
      × ((elem v versions || elem "*" versions) ≡ true)
  unfolding entry_agrees
  agrees =
      let r = route-Routed config m v us cse_request_dispatcher_list rule url_data routed in
      let (k, listed) = rules_of-In m r.entry.methods r.handlers r.verb in
      let entry_in : In r.entry cse_request_dispatcher_list =
        rw r.first.splits (In-append_right r.first.before here) in
      let verb_ok = all-In verb_agrees listed (all-In entry_agrees entry_in table_agrees) in
      (r.version.versions, all-In rule_agrees r.version.listed verb_ok, r.version.holds)

  -- A request that the program's table routes to a rule of the old API (flag `legacy_api`) has the
  -- API version 33.0 or 34.0, and the server's configuration has the flag on.
  pub legacy_rule-versions :
      elem "legacy_api" rule.feature_flags ≡ true
      → (elem v ("33.0" ∷ "34.0" ∷ []) ≡ true) × (lookup "legacy_api" config ≡ some true)
  unfolding rule_agrees
  legacy_rule-versions flagged =
      let r = route-Routed config m v us cse_request_dispatcher_list rule url_data routed in
      let (versions, ok_rule, held) = agrees in
      (
        serves-within v ("33.0" ∷ "34.0" ∷ []) versions (ground arith) refl held,
        feature_flags-On config "legacy_api" rule.feature_flags r.flags flagged,
      )

  -- A request that the program's table routes to a rule of the new API (flag `non_legacy_api`) has
  -- the API version 35.0 or 36.0, and the server's configuration has the flag on.
  non_legacy_rule-versions :
      elem "non_legacy_api" rule.feature_flags ≡ true
      → (elem v ("35.0" ∷ "36.0" ∷ []) ≡ true) × (lookup "non_legacy_api" config ≡ some true)
  unfolding rule_agrees
  non_legacy_rule-versions flagged =
      let r = route-Routed config m v us cse_request_dispatcher_list rule url_data routed in
      let (versions, ok_rule, held) = agrees in
      (
        serves-within v ("35.0" ∷ "36.0" ∷ []) versions (ground arith) refl held,
        feature_flags-On config "non_legacy_api" rule.feature_flags r.flags flagged,
      )
