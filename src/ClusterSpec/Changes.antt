-- ===== src/ClusterSpec/Changes.antt =====
-- Which requests the check of an update accepts.
use container_service_extens.Common.{
  String, ◌≡◌, refl, sym, ap, subst, ◌∙◌, ◌⊎◌, ◌↔◌, inl, inr, Bool, true, false, not, ◌&&◌, ◌||◌,
  ◌==◌, eq_iff, eq_refl, List, [], ◌∷◌, elem, Bool-cases, Result, ok, err, arith, if◌then◌else◌,
}
use container_service_extens.Common.Dict.{Dict}
use container_service_extens.ClusterSpec.Model.{ClusterSpec}
use container_service_extens.ClusterSpec.Tree.{
  Value, Members, Change, is_changed, differing, find_diff_fields, flatten_dictionary,
}
use container_service_extens.ClusterSpec.Update.{
  ValidationError, immutable, resize_and_upgrade, workers_count, nfs_count, template_name,
  template_revision, valid_update_fields, has_key, keys_with_invalid_value, kind_of_update,
  check_changes, checked_changes, exclude_fields,
  validate_cluster_update_request_and_check_cluster_upgrade,
}

-- The dictionary has the value at the key.
pub data Item (k : String) (v : Value) : Dict Value → Type 0 where
  here : {j : String} {w : Value} {d : Dict Value} → j ≡ k → w ≡ v → Item k v ((j, w) ∷ d)
  there : {i : String × Value} {d : Dict Value} → Item k v d → Item k v (i ∷ d)

-- The input has a value at a field that is not excluded, and the reference has another one, or none.
pub record Differs (excluded : List String) (reference input : Dict Value) (k : String)
    : Type 0 where
  pub value : Value
  pub place : Item k value input
  pub changed : is_changed excluded reference k value ≡ true

module _ (excluded : List String) (reference : Dict Value) where
  later :
      {d : Dict Value} {k : String} (i : String × Value)
      → Differs excluded reference d k
      → Differs excluded reference (i ∷ d) k
  later i h = record { value = h.value; place = there h.place; changed = h.changed }

  first :
      (d : Dict Value) (j k : String) (v : Value)
      → j ≡ k
      → is_changed excluded reference j v ≡ true
      → Differs excluded reference ((j, v) ∷ d) k
  first d j k v e h = record {
    value = v;
    place = here e refl;
    changed = subst (λ i. is_changed excluded reference i v ≡ true) e h;
  }

  differing-Differs :
      (d : Dict Value) (k : String)
      → has_key k (differing excluded reference d) ≡ true
      → Differs excluded reference d k
  unfolding differing
  differing-Differs [] k h = absurd cc
  differing-Differs ((j, v) ∷ d) k h = elim (Bool-cases (is_changed excluded reference j v)) [
    | inl t ↦ elim (Bool-cases (j == k)) [
      | inl e ↦ first d j k v ((eq_iff j k).0 e) t
      | inr n ↦ later (j, v) (differing-Differs d k (ground arith))
    ]
    | inr f ↦ later (j, v) (differing-Differs d k (ground arith))
  ]

  kept_key :
      (b : Bool) (j k : String) (c : Change) (rest : Dict Change)
      → has_key k rest ≡ true
      → has_key k (if b then (j, c) ∷ rest else rest) ≡ true
  kept_key true j k c rest h = ground arith
  kept_key false j k c rest h = h

  new_key :
      (b : Bool) (j k : String) (c : Change) (rest : Dict Change)
      → b ≡ true
      → j ≡ k
      → has_key k (if b then (j, c) ∷ rest else rest) ≡ true
  new_key true j k c rest h e = rw ((eq_iff j k).1 e) refl
  new_key false j k c rest h e = absurd cc

  Item-differing :
      {k : String} {v : Value} {d : Dict Value}
      → Item k v d
      → is_changed excluded reference k v ≡ true
      → has_key k (differing excluded reference d) ≡ true
  unfolding differing
  Item-differing {k} {v} (here {j = j} {w = w} e f) h =
      new_key (is_changed excluded reference j w) j k _ _
        (subst (λ i. is_changed excluded reference i w ≡ true) (sym e)
          (subst (λ u. is_changed excluded reference k u ≡ true) (sym f) h))
        e
  Item-differing {k} (there {i = (j, w)} m) h =
      kept_key (is_changed excluded reference j w) j k _ _ (Item-differing m h)

  pub differing_iff :
      (d : Dict Value) (k : String)
      → (has_key k (differing excluded reference d) ≡ true) ↔ Differs excluded reference d k
  differing_iff d k = (differing-Differs d k, λ h. Item-differing h.place h.changed)

-- The answer to a request that differs in the fields `D`.
pub data Verdict (D : String → Type 0) : Result ValidationError Bool → Type 0 where
  resized :
      ((k : String) → D k → elem k valid_update_fields ≡ true)
      → ¬ (D template_name ⊎ D template_revision)
      → Verdict D (ok false)
  upgraded :
      ((k : String) → D k → elem k valid_update_fields ≡ true)
      → (D template_name ⊎ D template_revision)
      → ¬ (D workers_count ⊎ D nfs_count)
      → Verdict D (ok true)
  refused_both :
      ((k : String) → D k → elem k valid_update_fields ≡ true)
      → (D template_name ⊎ D template_revision)
      → (D workers_count ⊎ D nfs_count)
      → Verdict D (err resize_and_upgrade)
  refused_fields :
      (c : Dict Change) (k : String)
      → D k
      → elem k valid_update_fields ≡ false
      → ((j : String) → (has_key j c ≡ true) ↔ (D j × (elem j valid_update_fields ≡ false)))
      → Verdict D (err (immutable c))

elem_of_eq : (j k : String) (xs : List String) → j ≡ k → elem j xs ≡ elem k xs
elem_of_eq j k xs e = ap (λ i. elem i xs) e

invalid_self :
    (valid : Bool) (j k : String) (c : Change) (rest : Dict Change) (has : Bool)
    → has_key k rest ≡ (has && not valid)
    → j == k ≡ true
    → has_key k (if valid then rest else (j, c) ∷ rest) ≡ not valid
invalid_self true j k c rest has h t = ground arith
invalid_self false j k c rest has h t = ground arith

invalid_other :
    (valid : Bool) (j k : String) (c : Change) (rest : Dict Change) (has valid' : Bool)
    → has_key k rest ≡ (has && not valid')
    → j == k ≡ false
    → has_key k (if valid then rest else (j, c) ∷ rest) ≡ (has && not valid')
invalid_other true j k c rest has valid' h f = h
invalid_other false j k c rest has valid' h f = ground arith

invalid_key :
    (valid : Bool) (j k : String) (c : Change) (rest : Dict Change) (has valid' : Bool)
    → has_key k rest ≡ (has && not valid')
    → (j == k ≡ true → valid ≡ valid')
    → has_key k (if valid then rest else (j, c) ∷ rest) ≡ ((j == k || has) && not valid')
invalid_key valid j k c rest has valid' h e = elim (Bool-cases (j == k)) [
  | inl t ↦
      rw (← e t, t)
        (invalid_self valid j k c rest has
          (subst (λ v. has_key k rest ≡ (has && not v)) (sym (e t)) h) t)
  | inr f ↦ rw f (invalid_other valid j k c rest has valid' h f)
]

keys_with_invalid_value-has_key :
    (d : Dict Change) (k : String)
    → has_key k (keys_with_invalid_value d) ≡ (has_key k d && not (elem k valid_update_fields))
unfolding keys_with_invalid_value
keys_with_invalid_value-has_key [] k = refl
keys_with_invalid_value-has_key ((j, c) ∷ d) k =
    invalid_key (elem j valid_update_fields) j k c _ (has_key k d) (elem k valid_update_fields)
      (keys_with_invalid_value-has_key d k)
      λ t. elem_of_eq j k valid_update_fields ((eq_iff j k).0 t)

and_not : (a v : Bool) → ((a && not v) ≡ true) ↔ ((a ≡ true) × (v ≡ false))
and_not true true = (λ h. absurd cc, λ h. absurd cc)
and_not true false = (λ h. (refl, refl), λ h. refl)
and_not false v = (λ h. absurd cc, λ h. absurd cc)

valid_of : (a v : Bool) → false ≡ (a && not v) → a ≡ true → v ≡ true
valid_of a v h t = ground arith

module _ (D : String → Type 0) where
  kind_of_update-Verdict :
      (resize upgrade : Bool)
      → ((k : String) → D k → elem k valid_update_fields ≡ true)
      → (resize ≡ true) ↔ (D workers_count ⊎ D nfs_count)
      → (upgrade ≡ true) ↔ (D template_name ⊎ D template_revision)
      → Verdict D (kind_of_update resize upgrade)
  unfolding kind_of_update
  kind_of_update-Verdict true true valid r u = refused_both valid (u.0 refl) (r.0 refl)
  kind_of_update-Verdict false true valid r u = upgraded valid (u.0 refl) λ h. absurd cc (r.1 h)
  kind_of_update-Verdict true false valid r u = resized valid λ h. absurd cc (u.1 h)
  kind_of_update-Verdict false false valid r u = resized valid λ h. absurd cc (u.1 h)

  module _ (d : Dict Change) (keys : (k : String) → (has_key k d ≡ true) ↔ D k) where
    either : (j k : String) → ((has_key j d || has_key k d) ≡ true) ↔ (D j ⊎ D k)
    either j k = (
      λ h. elim (Bool-cases (has_key j d)) [
        | inl a ↦ inl ((keys j).0 a)
        | inr b ↦ inr ((keys k).0 (ground arith))
      ],
      λ h. elim h [ inl a ↦ ground (arith, (keys j).1 a) | inr b ↦ ground (arith, (keys k).1 b) ],
    )

    valid_of_empty :
        keys_with_invalid_value d ≡ [] → (k : String) → D k → elem k valid_update_fields ≡ true
    valid_of_empty e k h =
        valid_of (has_key k d) (elem k valid_update_fields)
          (ap (has_key k) (sym e) ∙ keys_with_invalid_value-has_key d k) ((keys k).1 h)

    invalid_iff :
        (k : String)
        → (has_key k (keys_with_invalid_value d) ≡ true)
          ↔ (D k × (elem k valid_update_fields ≡ false))
    invalid_iff k = (
      λ h.
          let both = (and_not _ _).0 (sym (keys_with_invalid_value-has_key d k) ∙ h) in
          ((keys k).0 both.0, both.1),
      λ (h, v). keys_with_invalid_value-has_key d k ∙ (and_not _ _).1 ((keys k).1 h, v),
    )

    checked_changes-Verdict :
        (cs : Dict Change) → keys_with_invalid_value d ≡ cs → Verdict D (checked_changes d cs)
    unfolding checked_changes
    checked_changes-Verdict [] e =
        kind_of_update-Verdict _ _ (valid_of_empty e) (either workers_count nfs_count)
          (either template_name template_revision)
    checked_changes-Verdict ((k, c) ∷ cs) e = refused_fields _ k (some_field.0) (some_field.1) (
        subst
          (λ l. (j : String) → (has_key j l ≡ true) ↔ (D j × (elem j valid_update_fields ≡ false)))
          e invalid_iff)
      where
        some_field : D k × (elem k valid_update_fields ≡ false)
        some_field = (invalid_iff k).0 (rw (e, eq_refl k) refl)

  check_changes-Verdict :
      (d : Dict Change) → ((k : String) → (has_key k d ≡ true) ↔ D k) → Verdict D (check_changes d)
  unfolding check_changes
  check_changes-Verdict [] keys =
      resized (λ k h. absurd cc ((keys k).1 h))
        λ h. absurd cc ((either [] keys template_name template_revision).1 h)
  check_changes-Verdict (c ∷ d) keys = checked_changes-Verdict (c ∷ d) keys _ refl

-- A request for an update is answered by the fields that differ. If each of them may be changed, it is
-- accepted as an upgrade when the template differs and no number of nodes does, accepted as a resize
-- when the template does not differ, and refused when both differ. If some field may not be changed, it
-- is refused with exactly those fields.
pub validate_cluster_update_request-Verdict :
    (to_dict : ClusterSpec → Members) (input reference : ClusterSpec) (is_tkgm : Bool)
    → Verdict
        (Differs
          (exclude_fields is_tkgm input reference)
          (flatten_dictionary (to_dict reference))
          (flatten_dictionary (to_dict input)))
        (validate_cluster_update_request_and_check_cluster_upgrade to_dict input reference is_tkgm)
unfolding validate_cluster_update_request_and_check_cluster_upgrade find_diff_fields
validate_cluster_update_request-Verdict to_dict input reference is_tkgm =
    check_changes-Verdict _ _ (differing_iff _ _ _)
