-- ===== src/OvdcService/Machines.antt =====
-- The placement policies of machines, when a policy is removed from them.
use container_service_extens.Common.{
  String, ◌≡◌, refl, ◌∙◌, Bool, true, false, not, ◌||◌, eq_iff, eq_refl, none, some, List, [], ◌∷◌,
  elem, all, if◌then◌else◌, ok, err, arith,
}
use container_service_extens.OvdcService.{
  Vm, World, Call, Raised, Outcome, M, continue, ◌>>◌, check, when, has_placement, placed,
  change_vm, call, tell, clear_vm, clear_vms, clear_placement, lacks_sizing, set_default_sizing,
  unplace_vm, remove_placement, set_sizing, report, list_vms,
}
use container_service_extens.OvdcService.Runtimes.{TaskStatus, running}

-- What holds of the world when nothing was raised.
pub data Post (Q : World → Type 0) : Outcome (Unit {0}) → Type 0 where
  returns : (w : World) → Q w → Post Q (ok tt, w)
  raises : (e : Raised) (w : World) → Post Q (err e, w)

pub continue-Post :
    {P Q : World → Type 0} (x : Outcome (Unit {0})) (k : M (Unit {0}))
    → Post P x
    → ((w : World) → P w → Post Q (k w))
    → Post Q (continue x λ _. k)
continue-Post _ k (returns w h) next = next w h
continue-Post _ k (raises e w) next = raises e w

pub check-Post :
    {Q : World → Type 0} (b : Bool) (e : Raised) (w : World) → Q w → Post Q (check b e w)
check-Post true e w h = returns w h
check-Post false e w h = raises e w

pub when-Post :
    {Q : World → Type 0} (b : Bool) (m : M (Unit {0})) (w : World)
    → (b ≡ true → Post Q (m w))
    → (b ≡ false → Q w)
    → Post Q (when b m w)
when-Post true m w h k = h refl
when-Post false m w h k = returns w (k refl)

pub Post-map :
    {P Q : World → Type 0} (x : Outcome (Unit {0}))
    → ((u : World) → P u → Q u)
    → Post P x
    → Post Q x
Post-map _ f (returns w h) = returns w (f w h)
Post-map _ f (raises e w) = raises e w

-- No machine has the policy.
abbrev pub Unplaced : String → List Vm → Type 0
Unplaced p vs = all (λ v. not (has_placement p v)) vs ≡ true

-- Every machine with the policy is one of those.
abbrev Among : String → List String → List Vm → Type 0
Among p hrefs vs = all (λ v. not (has_placement p v) || elem v.href hrefs) vs ≡ true

abbrev hrefs_of : List Vm → List String
hrefs_of [] = []
hrefs_of (v ∷ vs) = v.href ∷ hrefs_of vs

abbrev pub unplace : Vm → Vm
unplace v = record v { placement = none }

abbrev pub resize : Vm → Vm
resize v = record v { sizing = some "System Default" }

module _ (p : String) where
  unplace-Unplaced :
      (n : String) (vs : List Vm) → Unplaced p vs → Unplaced p (change_vm unplace n vs)
  unfolding change_vm
  unplace-Unplaced n [] h = refl
  unplace-Unplaced n (v ∷ vs) h = ground (arith, unplace-Unplaced n vs)

  resize-Unplaced : (n : String) (vs : List Vm) → Unplaced p vs → Unplaced p (change_vm resize n vs)
  unfolding change_vm
  resize-Unplaced n [] h = refl
  resize-Unplaced n (v ∷ vs) h = ground (arith, resize-Unplaced n vs)

  resize-Among :
      (n : String) (hs : List String) (vs : List Vm)
      → Among p hs vs
      → Among p hs (change_vm resize n vs)
  unfolding change_vm
  resize-Among n hs [] h = refl
  resize-Among n hs (v ∷ vs) h = ground (arith, resize-Among n hs vs)

  unplace-Among :
      (n : String) (hs : List String) (vs : List Vm)
      → Among p (n ∷ hs) vs
      → Among p hs (change_vm unplace n vs)
  unfolding change_vm
  unplace-Among n hs [] h = refl
  unplace-Among n hs (v ∷ vs) h =
      ground (arith, eq_iff v.href n, eq_iff n v.href, unplace-Among n hs vs)

  more-Among : (n : String) (hs : List String) (vs : List Vm) → Among p hs vs → Among p (n ∷ hs) vs
  more-Among n hs [] h = refl
  more-Among n hs (v ∷ vs) h = ground (arith, more-Among n hs vs)

  placed_step :
      (b : Bool) (v : Vm) (rest vs : List Vm)
      → has_placement p v ≡ b
      → Among p (hrefs_of rest) vs
      → Among p (hrefs_of (if b then v ∷ rest else rest)) (v ∷ vs)
  placed_step true v rest vs e h =
      ground (arith, eq_refl v.href, more-Among v.href (hrefs_of rest) vs)
  placed_step false v rest vs e h = ground arith

  placed-Among : (vs : List Vm) → Among p (hrefs_of (placed p vs)) vs
  unfolding placed
  placed-Among [] = refl
  placed-Among (v ∷ vs) = placed_step (has_placement p v) v (placed p vs) vs refl (placed-Among vs)

  none-Among : (vs : List Vm) → Among p [] vs → Unplaced p vs
  none-Among [] h = refl
  none-Among (v ∷ vs) h = ground (arith, none-Among vs)

-- What the clearing of machines may change: the machines `hs` are cleared of the policy, those of `left` are
-- not yet.
record Cleared (p : String) (hs left : List String) (w u : World) : Type 0 where
  same_policies : u.policies ≡ w.policies
  fewer : Among p hs w.vms → Among p left u.vms
  kept : (q : String) → Unplaced q w.vms → Unplaced q u.vms

Cleared-then :
    {p : String} {a b c : List String} {w u t : World}
    → Cleared p a b w u
    → Cleared p b c u t
    → Cleared p a c w t
Cleared-then f g = record {
  same_policies = g.same_policies ∙ f.same_policies;
  fewer = λ h. g.fewer (f.fewer h);
  kept = λ q h. g.kept q (f.kept q h);
}

Cleared-seq :
    {p : String} {a b c : List String} (w : World) (x : Outcome (Unit {0})) (k : M (Unit {0}))
    → Post (Cleared p a b w) x
    → ((u : World) → Post (Cleared p b c u) (k u))
    → Post (Cleared p a c w) (continue x λ _. k)
Cleared-seq w x k h next =
    continue-Post x k h λ u f. Post-map (k u) (λ t g. Cleared-then f g) (next u)

untouched : {p : String} {a : List String} (w : World) → Cleared p a a w w
untouched w = record { same_policies = refl; fewer = λ h. h; kept = λ q h. h }

module _ (fails : Call → Bool) where
  pub call-then :
      {Q : World → Type 0} (c : Call) (k : M (Unit {0})) (w : World)
      → Post Q (k w)
      → Post Q ((call fails c >> k) w)
  unfolding call
  call-then {Q} c k w h =
      continue-Post {P = λ u. Post Q (k u)} (call fails c w) k (check-Post (not (fails c)) _ w h)
        λ u g. g

  pub tell-then :
      {Q : World → Type 0} (s : TaskStatus) (k : M (Unit {0})) (w : World)
      → Post Q (k (record w { task = some s }))
      → Post Q ((tell fails s >> k) w)
  unfolding tell
  tell-then {Q} s k w h =
      continue-Post {P = λ u. Post Q (k u)} (tell fails s w) k
        (call-then (report s) _ w (returns _ h)) λ u g. g

  pub tell-end :
      {Q : World → Type 0} (s : TaskStatus) (w : World)
      → Q (record w { task = some s })
      → Post Q (tell fails s w)
  unfolding tell
  tell-end s w h = call-then (report s) _ w (returns _ h)

  module _ (p : String) where
    resized :
        (n : String) (hs : List String) (w : World)
        → Post (Cleared p hs hs w) (set_default_sizing fails n w)
    unfolding set_default_sizing
    resized n hs w = call-then (set_sizing n) _ w (
        tell-end running _ (record {
          same_policies = refl;
          fewer = resize-Among p n hs w.vms;
          kept = λ q. resize-Unplaced q n w.vms;
        }))

    unplaced :
        (n : String) (hs : List String) (w : World)
        → Post (Cleared p (n ∷ hs) hs w) (unplace_vm fails n w)
    unfolding unplace_vm
    unplaced n hs w = call-then (remove_placement n) _ w (
        tell-end running _ (record {
          same_policies = refl;
          fewer = unplace-Among p n hs w.vms;
          kept = λ q. unplace-Unplaced q n w.vms;
        }))

    clear_vm-Cleared :
        (v : Vm) (hs : List String) (w : World)
        → Post (Cleared p (v.href ∷ hs) hs w) (clear_vm fails v w)
    unfolding clear_vm
    clear_vm-Cleared v hs w =
        Cleared-seq w _ (unplace_vm fails v.href)
          (when-Post (lacks_sizing v) (set_default_sizing fails v.href) w
            (λ e. resized v.href (v.href ∷ hs) w) (λ e. untouched w))
          (unplaced v.href hs)

    clear_vms-Cleared :
        (vs : List Vm) (w : World) → Post (Cleared p (hrefs_of vs) [] w) (clear_vms fails vs w)
    unfolding clear_vms
    clear_vms-Cleared [] w = returns w (untouched w)
    clear_vms-Cleared (v ∷ vs) w =
        Cleared-seq w (clear_vm fails v w) (clear_vms fails vs) (clear_vm-Cleared v (hrefs_of vs) w)
          (clear_vms-Cleared vs)

    -- Of the machines, none keeps the policy, and none gets another one.
    pub clear_placement-Post :
        (w : World)
        → Post
            (λ u.
              (u.policies ≡ w.policies)
              × Unplaced p u.vms
              × ((q : String) → Unplaced q w.vms → Unplaced q u.vms))
            (clear_placement fails p w)
    unfolding clear_placement
    clear_placement-Post w = call-then (list_vms p) _ w (
        tell-then running _ w (
          Post-map _
            (λ u c. (c.same_policies, none-Among p u.vms (c.fewer (placed-Among p w.vms)), c.kept))
            (clear_vms-Cleared (placed p w.vms) (record w { task = some running }))))
