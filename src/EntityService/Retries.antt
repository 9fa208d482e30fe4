-- ===== src/EntityService/Retries.antt =====
-- How often an update is tried.
use container_service_extens.Common.{
  ℕ, zero, suc, ◌+◌, ◌≤◌, ◌<◌, String, ◌≡◌, ◌≢◌, refl, sym, ap, ◌∙◌, true, Option, some, ◌∷◌,
  Result, ok, err, subst, arith, ◌⊎◌, inl, inr, Bool,
}
use native.Mathlib.Decide.{ℕ_discrete}
use container_service_extens.EntityService.{
  Answer, accepted, precondition_failed, refused, UpdateError, too_many_attempts, prepare, answered,
  sent, attempts, update_entity, max_rde_update_attempts,
}
use container_service_extens.EntityService.Objects.{Object, AccessError, Changes}
use container_service_extens.EntityService.Atomic.{prepared, with_changes}

nat_eq_cases : (n m : ℕ) → (n ≡ m) ⊎ (n ≢ m)
nat_eq_cases n m = elim (ℕ_discrete n m) [ yes e ↦ inl e | no d ↦ inr d ]

module _ {S : Type 0} (get : S → Result AccessError (Object × String))
    (put : Option String → Object → S → Answer × S) (others : ℕ → S → S) (to_dict : Object → Object)
    (is_sys_admin : Bool) (entity : Option Object) (c : String × Object) (cs : Changes)
    (current_passes : (s : S) (x p : Object) (t : String)
      → get s ≡ ok (x, t)
      → (put (some t) p s).0 ≢ precondition_failed)
    (m : ℕ) (quiet : (s : S) → get (others m s) ≡ get s) where
  answered-passes :
      (retry : S → Result UpdateError Object × S) (a : Answer × S)
      → (a.0 ≢ precondition_failed) ⊎ ((s : S) → (retry s).0 ≢ err too_many_attempts)
      → (answered get put others to_dict is_sys_admin retry a).0 ≢ err too_many_attempts
  answered-passes retry (accepted o, s) h e = cc e
  answered-passes retry (refused r, s) h e = cc e
  answered-passes retry (precondition_failed, s) (inl h) e = h refl
  answered-passes retry (precondition_failed, s) (inr h) e = h s e

  sent-passes :
      (n : ℕ) (s : S) (r : Result AccessError (Object × String))
      → prepare get put others to_dict is_sys_admin entity (c ∷ cs) s ≡ r
      → (retry : S → Result UpdateError Object × S)
      → (n ≡ m) ⊎ ((s : S) → (retry s).0 ≢ err too_many_attempts)
      → (sent get put others to_dict is_sys_admin true n retry s r).0 ≢ err too_many_attempts
  sent-passes n s (err e) h retry _ f = cc f
  sent-passes n s (ok (payload, t)) h retry (inr more) f =
      answered-passes retry (put (some t) payload (others n s)) (inr more) f
  sent-passes n s (ok (payload, t)) h retry (inl e) f =
      answered-passes retry (put (some t) payload (others n s)) (inl passes) f
    where
      passes : (put (some t) payload (others n s)).0 ≢ precondition_failed
      passes =
          let (x, y, g, a, b) =
            prepared get put others to_dict is_sys_admin entity c cs s payload t h in
          current_passes (others n s) x payload t
            (subst (λ i. get (others i s) ≡ ok (x, t)) (sym e) (quiet s ∙ g))

  attempts-passes :
      (k n : ℕ) (s : S)
      → n ≤ m
      → m < n + k
      → (attempts get put others to_dict is_sys_admin true entity (c ∷ cs) k n s).0
        ≢ err too_many_attempts
  unfolding attempts
  attempts-passes zero n s h l = absurd (omega arith)
  attempts-passes (suc k) n s h l =
      sent-passes n s _ refl
        (attempts get put others to_dict is_sys_admin true entity (c ∷ cs) k (suc n))
        (elim (nat_eq_cases n m) [
          | inl e ↦ inl e
          | inr d ↦ inr λ s'. attempts-passes k (suc n) s' (omega arith) (omega arith)
        ])

  -- From version 36 of the API on, an update with changes is not given up after its ten attempts if in one of
  -- them no other client changes the entity between the read and the write, provided that a PUT with the
  -- etag of the present version never fails by its precondition.
  pub update_entity-retries :
      m < max_rde_update_attempts
      → (s : S)
      → (update_entity get put others to_dict is_sys_admin true entity (some (c ∷ cs)) s).0
        ≢ err too_many_attempts
  update_entity-retries l s e =
      attempts-passes max_rde_update_attempts 0 s (omega arith) (omega arith) (
        ap (λ r. r.0)
          (sym (with_changes get put others to_dict is_sys_admin entity c cs entity (c ∷ cs) s))
        ∙ e)
