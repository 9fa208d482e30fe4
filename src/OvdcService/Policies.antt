-- ===== src/OvdcService/Policies.antt =====
-- The runtimes that a VDC offers after an update.
use container_service_extens.Common.{
  String, ◌≡◌, refl, ap, subst, ◌∙◌, Bool, true, false, not, ◌&&◌, ◌||◌, ◌==◌, eq_iff, Bool-cases,
  inl, inr, some, List, [], ◌∷◌, ◌++◌, elem, ok, err, arith,
}
use container_service_extens.OvdcService.{
  World, Call, get_policy, add_policy, read_config, list_policies, remove_policy, report, Raised,
  key_error, Outcome, M, ◌>>◌, handled, closed, check, minus, without, call, tell, add_policies,
  remove_compute_policy, remove_policies, change_policies, update_work, clear_placement,
  update_ovdc_using_placement_policy_async,
}
use container_service_extens.OvdcService.Runtimes.{running, success, error, is_runtime}
use container_service_extens.OvdcService.Machines.{
  Post, returns, raises, continue-Post, when-Post, Post-map, Unplaced, call-then, tell-then,
  tell-end, clear_placement-Post,
}

elem-append : (q : String) (xs ys : List String) → elem q (xs ++ ys) ≡ (elem q xs || elem q ys)
elem-append q [] ys = refl
elem-append q (x ∷ xs) ys = ground (arith, elem-append q xs ys)

elem-without :
    (q p : String) (xs : List String) → elem q (without p xs) ≡ (elem q xs && not (p == q))
unfolding without
elem-without q p [] = refl
elem-without q p (x ∷ xs) = ground (arith, eq_iff x p, eq_iff x q, eq_iff p q, elem-without q p xs)

elem_same : (x q : String) (ys : List String) → x == q ≡ true → elem x ys ≡ elem q ys
elem_same x q ys h = ap (λ r. elem r ys) ((eq_iff x q).0 h)

elem-minus :
    (q : String) (xs ys : List String) → elem q (minus xs ys) ≡ (elem q xs && not (elem q ys))
unfolding minus
elem-minus q [] ys = refl
elem-minus q (x ∷ xs) ys = elim (Bool-cases (elem x ys)) [
  | inl e ↦ rw e (ground (arith, elem-minus q xs ys, elem_same x q ys))
  | inr d ↦ rw d (ground (arith, elem-minus q xs (x ∷ ys), elem_same x q ys))
]

module _ (fails : Call → Bool) where
  -- The policies are those from before and the new ones.
  abbrev Added : List String → World → World → Type 0
  Added ps w u =
      ((q : String) → elem q u.policies ≡ (elem q w.policies || elem q ps)) × (u.vms ≡ w.vms)

  add_policies-Added : (ps : List String) (w : World) → Post (Added ps w) (add_policies fails ps w)
  unfolding add_policies
  add_policies-Added [] w = returns w (λ q. ground arith, refl)
  add_policies-Added (p ∷ ps) w = tell-then fails running _ w (
      call-then fails (get_policy p) _ _ (
        call-then fails (add_policy p) _ _ (
          Post-map _ (λ u (a, b). (λ q. a q ∙ ground (arith, elem-append q w.policies (p ∷ [])), b))
            (add_policies-Added ps _))))

  abbrev Kept : World → World → Type 0
  Kept w u = (q : String) → Unplaced q w.vms → Unplaced q u.vms

  record Removed (force : Bool) (ps : List String) (w u : World) : Type 0 where
    left : (q : String) → elem q u.policies ≡ (elem q w.policies && not (elem q ps))
    cleared : force ≡ true → (q : String) → elem q ps ≡ true → Unplaced q u.vms
    kept : Kept w u

  remove_compute_policy-Removed :
      (force : Bool) (p : String) (w : World)
      → Post (Removed force (p ∷ []) w) (remove_compute_policy fails force p w)
  unfolding remove_compute_policy
  remove_compute_policy-Removed force p w =
      continue-Post
        {P = λ u. (u.policies ≡ w.policies) × (force ≡ true → Unplaced p u.vms) × Kept w u} _ _
        (when-Post force (clear_placement fails p) w
          (λ e. Post-map _ (λ u (a, b, c). (a, λ f. b, c)) (clear_placement-Post fails p w))
          (λ e. (refl, λ f. absurd (cc), λ q h. h)))
        λ u (a, b, c). tell-then fails running _ u (
          call-then fails (remove_policy p) _ _ (
            returns _ (record {
              left = λ q. elem-without q p u.policies ∙ ground (arith, ap (elem q) a);
              cleared =
                  λ f q h. subst (λ r. Unplaced r u.vms) ((eq_iff p q).0 (ground arith)) (b f);
              kept = c;
            })))

  Removed-then :
      {force : Bool} {p : String} {ps : List String} {w u t : World}
      → Removed force (p ∷ []) w u
      → Removed force ps u t
      → Removed force (p ∷ ps) w t
  Removed-then {p = p} {ps = ps} f g = record {
    left = λ q. ground (arith, f.left q, g.left q);
    cleared = λ e q h. elim (Bool-cases (p == q)) [
      | inl same ↦ g.kept q (f.cleared e q (ground arith))
      | inr other ↦ g.cleared e q (ground arith)
    ];
    kept = λ q h. g.kept q (f.kept q h);
  }

  abbrev told : World → World
  told w = record w { task = some running }

  from_told :
      {force : Bool} {ps : List String} (w t : World)
      → Removed force ps (told w) t
      → Removed force ps w t
  from_told w t r = record { left = r.left; cleared = r.cleared; kept = r.kept }

  check-then :
      {Q : World → Type 0} (b : Bool) (e : Raised) (k : M (Unit {0})) (w : World)
      → Post Q (k w)
      → Post Q ((check b e >> k) w)
  check-then true e k w h = h
  check-then false e k w h = raises e w

  remove_policies-Removed :
      (force : Bool) (ps : List String) (w : World)
      → Post (Removed force ps w) (remove_policies fails force ps w)
  unfolding remove_policies
  remove_policies-Removed force [] w =
      returns w (record { left = λ q. ground arith; cleared = λ e q h. absurd cc; kept = λ q h. h })
  remove_policies-Removed force (p ∷ ps) w = check-then (is_runtime p) key_error _ w (
      tell-then fails running _ w (
        call-then fails (get_policy p) _ _ (
          continue-Post (remove_compute_policy fails force p (told w))
            (remove_policies fails force ps) (remove_compute_policy-Removed force p (told w))
            λ u f.
              Post-map _ (λ t g. from_told w t (Removed-then f g))
                (remove_policies-Removed force ps u))))

  -- An update that was carried out, one that failed, and one of which not even the failure could be
  -- reported.
  pub data Updated (force : Bool) (wanted : List String) (w : World)
      : Outcome (Unit {0}) → Type 0 where
    updated :
        (u : World)
        → ((q : String) → elem q u.policies ≡ elem q wanted)
        → (force ≡ true
            → (q : String) → elem q w.policies ≡ true
            → elem q wanted ≡ false
            → Unplaced q u.vms)
        → u.task ≡ some success
        → u.ended ≡ true
        → Updated force wanted w (ok tt, u)
    failed : (u : World) → u.task ≡ some error → u.ended ≡ true → Updated force wanted w (ok tt, u)
    unreported :
        (e : Raised) (u : World)
        → fails (report error) ≡ true
        → u.ended ≡ true
        → Updated force wanted w (err e, u)

  record Worked (force : Bool) (wanted : List String) (w u : World) : Type 0 where
    offered : (q : String) → elem q u.policies ≡ elem q wanted
    cleared :
        force ≡ true
        → (q : String) → elem q w.policies ≡ true
        → elem q wanted ≡ false
        → Unplaced q u.vms
    reported : u.task ≡ some success

  change_policies-Worked :
      (force : Bool) (wanted : List String) (w : World)
      → Post (Worked force wanted w) (change_policies fails force wanted w.policies w)
  unfolding change_policies
  change_policies-Worked force wanted w =
      continue-Post (add_policies fails (minus wanted w.policies) w) _
        (add_policies-Added (minus wanted w.policies) w)
        λ u (a, b).
          continue-Post (remove_policies fails force (minus w.policies wanted) u) _
            (remove_policies-Removed force (minus w.policies wanted) u)
            λ t r. tell-end fails success t (record {
              offered = λ q. ground (
                arith,
                r.left q,
                a q,
                elem-minus q wanted w.policies,
                elem-minus q w.policies wanted,
              );
              cleared = λ f q h n. r.cleared f q (ground (arith, elem-minus q w.policies wanted));
              reported = refl;
            })

  update_work-Worked :
      (force : Bool) (wanted : List String) (w : World)
      → Post (Worked force wanted w) (update_work fails force wanted w)
  unfolding update_work
  update_work-Worked force wanted w =
      call-then fails read_config _ w
        (call-then fails list_policies _ w (change_policies-Worked force wanted w))

  error_told :
      (force : Bool) (wanted : List String) (w u : World) (b : Bool)
      → fails (report error) ≡ b
      → Updated force wanted w (closed (tell fails error u))
  unfolding tell call
  error_told force wanted w u true h = rw h (unreported _ _ h refl)
  error_told force wanted w u false h = rw h (failed _ refl refl)

  handled-Updated :
      (force : Bool) (wanted : List String) (w : World) (x : Outcome (Unit {0}))
      → Post (Worked force wanted w) x
      → Updated force wanted w (closed (handled x (tell fails error)))
  handled-Updated force wanted w _ (returns u h) = updated _ h.offered h.cleared h.reported refl
  handled-Updated force wanted w _ (raises e u) = error_told force wanted w u _ refl

  -- Whatever fails, the thread that updates a VDC closes the context; it reports a success only when the VDC
  -- offers exactly the runtimes that are wanted and, if policies were to be taken from the machines,
  -- no machine has one that was removed; else it reports an error, unless that report fails.
  pub update_ovdc_using_placement_policy_async-Updated :
      (force : Bool) (wanted : List String) (w : World)
      → Updated force wanted w (update_ovdc_using_placement_policy_async fails force wanted w)
  unfolding update_ovdc_using_placement_policy_async
  update_ovdc_using_placement_policy_async-Updated force wanted w =
      handled-Updated force wanted w _ (update_work-Worked force wanted w)
