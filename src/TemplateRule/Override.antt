-- ===== src/TemplateRule/Override.antt =====
-- `TemplateRule.apply` against a description without the table: the last template of the target's
-- name and revision is overridden.
use container_service_extens.Common.{
  ℕ, suc, ◌+◌, ◌≡◌, refl, sym, ap, ◌∙◌, String, Bool, true, false, ◌&&◌, ◌||◌, Option, none, some,
  List, [], ◌∷◌, ◌==◌, eq_iff, if◌then◌else◌, Result, ok, err, arith, Bool-cases, Option-cases,
  Result-cases, inl, inr,
}
use container_service_extens.Common.Dict.{Dict, lookup, insert, lookup-insert}
use container_service_extens.TemplateRule.{
  Table, Refusal, insert_template, find_template, find_revision, or_empty, Template, TemplateRule,
  revision_text, template_table, target_of, validate, override, update_at, update_found,
  apply_valid, apply, is_given, is_empty,
}

lookup-or_empty : (r : String) (o : Option (Dict ℕ)) → lookup r (or_empty o) ≡ find_revision r o
unfolding or_empty find_revision lookup
lookup-or_empty r none = refl
lookup-or_empty r (some d) = refl

find_template-insert_template :
    (n r name revision : String) (i : ℕ) (t : Table)
    → find_template n r (insert_template name revision i t)
      ≡ (if name == n && revision == r then some i else find_template n r t)
unfolding find_template insert_template find_revision
find_template-insert_template n r name revision i t = elim (Bool-cases (name == n)) [
  | inl p ↦
      rw
        (
          lookup-insert n name (insert revision i (or_empty (lookup name t))) t,
          p,
          lookup-insert r revision i (or_empty (lookup name t)),
          lookup-or_empty r (lookup name t),
          ap (λ k. lookup k t) ((eq_iff name n).0 p),
        )
        refl
  | inr p ↦ rw (lookup-insert, p) refl
]

module _ (str : ℕ → String) (V : Type 0) (n r : String) where
  abbrev matches : Template str V → Bool
  matches x = x.name == n && revision_text str V x.revision == r

  -- The place of the last template that matches, after some other place.
  abbrev last_place : List (Template str V) → ℕ → Option ℕ → Option ℕ
  last_place [] i acc = acc
  last_place (x ∷ xs) i acc = last_place xs (suc i) (if matches x then some i else acc)

  find_in_table :
      (xs : List (Template str V)) (i : ℕ) (t : Table)
      → find_template n r (template_table str V xs i t) ≡ last_place xs i (find_template n r t)
  unfolding template_table
  find_in_table [] i t = refl
  find_in_table (x ∷ xs) i t =
      find_in_table xs (suc i) (insert_template x.name (revision_text str V x.revision) i t)
      ∙ ap (last_place xs (suc i))
          (find_template-insert_template n r x.name (revision_text str V x.revision) i t)

  -- The place of the last template that matches.
  last_match : List (Template str V) → Option ℕ
  last_match [] = none
  last_match (x ∷ xs) = or_here (last_match xs) (matches x)
    where
      or_here : Option ℕ → Bool → Option ℕ
      or_here (some i) b = some (suc i)
      or_here none b = if b then some 0 else none

  shifted : ℕ → Option ℕ → Option ℕ → Option ℕ
  shifted i (some k) acc = some (i + k)
  shifted i none acc = acc

  here_shifted :
      (i : ℕ) (acc : Option ℕ) (b : Bool)
      → (if b then some i else acc) ≡ shifted i (if b then some 0 else none) acc
  unfolding shifted
  here_shifted i acc true = ap some (omega arith)
  here_shifted i acc false = refl

  given_here : (b : Bool) → b ≡ is_given {A = ℕ} (if b then some 0 else none)
  unfolding is_given
  given_here true = refl
  given_here false = refl

  last_place-last_match :
      (xs : List (Template str V)) (i : ℕ) (acc : Option ℕ)
      → last_place xs i acc ≡ shifted i (last_match xs) acc
  unfolding last_match shifted
  last_place-last_match [] i acc = refl
  last_place-last_match (x ∷ xs) i acc = elim (Option-cases (last_match xs)) [
    | inl p ↦
        rw (p, last_place-last_match xs (suc i) (if matches x then some i else acc))
          (rw p (here_shifted i acc (matches x)))
    | inr (k, p) ↦
        rw (p, last_place-last_match xs (suc i) (if matches x then some i else acc))
          (rw p (ap some (omega arith)))
  ]

  any_match : List (Template str V) → Bool
  any_match [] = false
  any_match (x ∷ xs) = any_match xs || matches x

  -- The list with its last matching template changed.
  pub override_last :
      (Template str V → Template str V) → List (Template str V) → List (Template str V)
  unfolding any_match
  override_last f [] = []
  override_last f (x ∷ xs) =
      let rest = override_last f xs in
      if any_match xs then x ∷ rest else if matches x then f x ∷ xs else x ∷ xs

  any_match-last_match : (xs : List (Template str V)) → any_match xs ≡ is_given (last_match xs)
  unfolding any_match last_match is_given
  any_match-last_match [] = refl
  any_match-last_match (x ∷ xs) = elim (Option-cases (last_match xs)) [
    | inl p ↦ rw (any_match-last_match xs, p) (given_here (matches x))
    | inr (k, p) ↦ rw (any_match-last_match xs, p) refl
  ]

  update_last :
      (f : Template str V → Template str V) (xs : List (Template str V))
      → update_found str V f (last_match xs) xs ≡ override_last f xs
  unfolding update_found update_at override_last last_match is_given
  update_last f [] = refl
  update_last f (x ∷ xs) = elim (Option-cases (last_match xs)) [
    | inl p ↦ rw (any_match-last_match xs, p) (changed_here (matches x))
    | inr (k, p) ↦
        rw (any_match-last_match xs, p)
          (ap (λ (l : List (Template str V)). x ∷ l)
            (ap (λ o. update_found str V f o xs) (sym p) ∙ update_last f xs))
  ]
    where
      changed_here :
          (b : Bool)
          → update_found str V f (if b then some 0 else none) (x ∷ xs)
            ≡ (if b then f x ∷ xs else x ∷ xs)
      changed_here true = refl
      changed_here false = refl

  find_last :
      (xs : List (Template str V))
      → find_template n r (template_table str V xs 0 []) ≡ last_match xs
  unfolding find_template find_revision lookup shifted
  find_last xs = find_in_table xs 0 [] ∙ last_place-last_match xs 0 none ∙ whole (last_match xs)
    where
      whole : (o : Option ℕ) → shifted 0 o none ≡ o
      whole none = refl
      whole (some k) = ap some (omega arith)

module _ (str : ℕ → String) (V : Type 0) where
  pub overridden :
      TemplateRule str V
      → List (Template str V)
      → Result Refusal (String × String)
      → List (Template str V)
  overridden rule xs (err e) = xs
  overridden rule xs (ok (n, r)) =
      if is_empty str V rule.action
      then xs
      else override_last str V n r (override str V rule.action) xs

  no_name : (n r : String) (t : Table) → lookup n t ≡ none → find_template n r t ≡ none
  unfolding find_template find_revision
  no_name n r t p = rw p refl

  apply_place :
      (rule : TemplateRule str V) (xs : List (Template str V)) (n r : String)
      → target_of str V rule ≡ ok (n, r)
      → apply str V rule xs ≡ (
          if is_empty str V rule.action
          then xs
          else update_found str V
              (override str V rule.action)
              (find_template n r (template_table str V xs 0 []))
              xs)
  unfolding apply validate apply_valid update_found is_given
  apply_place rule xs n r h =
      let t = template_table str V xs 0 [] in
      elim (Bool-cases (is_empty str V rule.action)) [
        | inl empty ↦ elim (Option-cases (lookup n t)) [
          | inl p ↦ rw (h, p, empty) refl
          | inr (d, p) ↦ elim (Option-cases (find_template n r t)) [
            | inl q ↦ rw (h, p, q, empty) refl
            | inr (k, q) ↦ rw (h, p, q, empty) refl
          ]
        ]
        | inr full ↦ elim (Option-cases (lookup n t)) [
          | inl p ↦ rw (h, p, full, no_name n r t p) refl
          | inr (d, p) ↦ elim (Option-cases (find_template n r t)) [
            | inl q ↦ rw (h, p, q, full) refl
            | inr (k, q) ↦
                rw (h, p, q, full)
                  (ap (λ o. update_found str V (override str V rule.action) o xs) q)
          ]
        ]
      ]

  apply_target :
      (rule : TemplateRule str V) (xs : List (Template str V)) (n r : String)
      → target_of str V rule ≡ ok (n, r)
      → apply str V rule xs ≡ overridden rule xs (ok (n, r))
  unfolding overridden
  apply_target rule xs n r h =
      apply_place rule xs n r h
      ∙ ap (λ l. if is_empty str V rule.action then xs else l)
          (ap (λ o. update_found str V (override str V rule.action) o xs) (find_last str V n r xs)
            ∙ update_last str V n r (override str V rule.action) xs)

  -- Applying a rule overrides the last template of the target's name and revision and no other one;
  -- a rule without a target, without a name or a revision of it, or without an action changes
  -- nothing.
  pub apply-override_last :
      (rule : TemplateRule str V) (xs : List (Template str V))
      → apply str V rule xs ≡ overridden rule xs (target_of str V rule)
  unfolding apply validate apply_valid overridden
  apply-override_last rule xs = elim (Result-cases (target_of str V rule)) [
    | inl ((n, r), p) ↦ apply_target rule xs n r p ∙ rw p refl
    | inr (e, p) ↦ rw p refl
  ]
