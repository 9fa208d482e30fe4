-- ===== src/TemplateRule/Items.antt =====
-- The items of a template whose attributes are overridden.
use container_service_extens.Common.{
  ℕ, ◌≡◌, refl, subst, ◌∙◌, String, ◌||◌, Option, none, some, ◌==◌, eq_iff, if◌then◌else◌,
  Bool-cases, inl, inr,
}
use container_service_extens.Common.Dict.{Dict, lookup, lookup-insert}
use container_service_extens.TemplateRule.{override_items, set_item}

module _ (str : ℕ → String) (V : Type 0) where
  flat : Option (Option V) → Option V
  flat (some v) = v
  flat none = none

  -- What an action says of an item: its new value if the key is one of the three that an action
  -- overrides and the value is not None.
  pub new_value : Dict (Option V) → String → Option V
  unfolding flat
  new_value a k =
      if "memory" == k || "cpu" == k || "compute_policy" == k then flat (lookup k a) else none

  pub or_old : Option V → Option V → Option V
  or_old none old = old
  or_old (some v) old = some v

  set_item-lookup :
      (key k : String) (o : Option (Option V)) (d : Dict V)
      → lookup k (set_item str V key o d)
        ≡ (if key == k then or_old (flat o) (lookup k d) else lookup k d)
  unfolding set_item or_old flat
  set_item-lookup key k none d = elim (Bool-cases (key == k)) [
    | inl p ↦ rw p refl
    | inr p ↦ rw p refl
  ]
  set_item-lookup key k (some none) d = elim (Bool-cases (key == k)) [
    | inl p ↦ rw p refl
    | inr p ↦ rw p refl
  ]
  set_item-lookup key k (some (some v)) d = lookup-insert k key v d

  -- The override_items-steps a d items, one after the other.
  steps : Dict (Option V) → Dict V → String → Option V
  unfolding or_old flat
  steps a d k =
      let old = lookup k d in
      let policy =
        if "compute_policy" == k then or_old (flat (lookup "compute_policy" a)) old else old in
      let cpu = if "cpu" == k then or_old (flat (lookup "cpu" a)) policy else policy in
      if "memory" == k then or_old (flat (lookup "memory" a)) cpu else cpu

  override_items-steps :
      (a : Dict (Option V)) (d : Dict V) (k : String)
      → lookup k (override_items str V a d) ≡ steps a d k
  unfolding override_items steps
  override_items-steps a d k =
      rw (set_item-lookup "memory" k, set_item-lookup "cpu" k, set_item-lookup "compute_policy" k)
        refl

  Overridden : Dict (Option V) → Dict V → String → Type 0
  Overridden a d k = lookup k (override_items str V a d) ≡ or_old (new_value a k) (lookup k d)

  -- An item of an overridden template is the action's for the keys compute_policy, cpu and memory,
  -- unless the action has none or None for it, and else the template's.
  override_items-lookup :
      (a : Dict (Option V)) (d : Dict V) (k : String)
      → lookup k (override_items str V a d) ≡ or_old (new_value a k) (lookup k d)
  unfolding new_value or_old Overridden steps
  override_items-lookup a d k = elim (Bool-cases ("memory" == k)) [
    | inl p ↦ subst (Overridden a d) ((eq_iff "memory" k).0 p) (override_items-steps a d "memory")
    | inr p ↦ elim (Bool-cases ("cpu" == k)) [
      | inl q ↦ subst (Overridden a d) ((eq_iff "cpu" k).0 q) (override_items-steps a d "cpu")
      | inr q ↦ elim (Bool-cases ("compute_policy" == k)) [
        | inl r ↦
            subst (Overridden a d) ((eq_iff "compute_policy" k).0 r)
              (override_items-steps a d "compute_policy")
        | inr r ↦ override_items-steps a d k ∙ rw (p, q, r) refl
      ]
    ]
  ]
