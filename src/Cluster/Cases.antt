-- ===== src/Cluster/Cases.antt =====
-- The branches of one step of an operation: what holds of every outcome of the step and of what
-- follows it holds of the whole.
use container_service_extens.Common.{
  ◌≡◌, refl, Bool, true, false, Option, none, some, Result, ok, err,
}
use container_service_extens.Cluster.World.{
  modify, Raised, other_error, Call, Entity, World, M, ◌>>=◌, ◌>>◌, continue, check, from_option,
  update_cluster_entity, answer, found,
}

module _ {B : Type 0} (Q : Result Raised B × World → Type 0) where
  pub check-cases :
      (b : Bool) (r : Raised) (k : M B) (w : World)
      → Q (err r, w)
      → (b ≡ true → Q (k w))
      → Q ((check b r >> k) w)
  check-cases true r k w bad good = good refl
  check-cases false r k w bad good = bad

  pub from_option-cases :
      {A : Type 0} (o : Option A) (r : Raised) (k : A → M B) (w : World)
      → Q (err r, w)
      → ((a : A) → o ≡ some a → Q (k a w))
      → Q ((from_option o r >>= k) w)
  from_option-cases none r k w bad good = bad
  from_option-cases (some a) r k w bad good = good a refl

  pub answer-cases :
      (o : Option Raised) (k : M B) (w : World)
      → ((r : Raised) → Q (err r, w))
      → (o ≡ none → Q (k w))
      → Q ((answer o >> k) w)
  answer-cases none k w bad good = good refl
  answer-cases (some r) k w bad good = bad r

  pub found-cases :
      (o : Option Raised) (k : Entity → M B) (w : World)
      → ((r : Raised) → Q (err r, w))
      → ((e : Entity) → w.entity ≡ some e → Q (k e w))
      → Q ((found o >>= k) w)
  found-cases none k w bad good = from_option-cases w.entity other_error k w (bad other_error) good
  found-cases (some r) k w bad good = bad r

module _ (P : Result Raised (Unit {0}) × World → Type 0) where
  stored-outcome :
      (x : Option Entity) (f : Entity → Entity) (w : World)
      → ((r : Raised) → P (err r, w))
      → ((e : Entity) → x ≡ some e → P (ok tt, record w { entity = some (f e) }))
      → P (continue (from_option x other_error w) λ e. modify λ v. record v { entity = some (f e) })
  stored-outcome none f w bad good = bad other_error
  stored-outcome (some e) f w bad good = good e refl

  found_stored-outcome :
      (o : Option Raised) (f : Entity → Entity) (w : World)
      → ((r : Raised) → P (err r, w))
      → ((e : Entity) → w.entity ≡ some e → P (ok tt, record w { entity = some (f e) }))
      → P (continue (found o w) λ e. modify λ v. record v { entity = some (f e) })
  found_stored-outcome none f w bad good = stored-outcome w.entity f w bad good
  found_stored-outcome (some r) f w bad good = bad r

  -- An update of the entity fails and changes nothing, or it stores the changed entity.
  pub update-outcome :
      (fails : Call → Option Raised) (c : Call) (f : Entity → Entity) (w : World)
      → ((r : Raised) → P (err r, w))
      → ((e : Entity) → w.entity ≡ some e → P (ok tt, record w { entity = some (f e) }))
      → P (update_cluster_entity fails c f w)
  unfolding update_cluster_entity
  update-outcome fails c f w bad good = found_stored-outcome (fails c) f w bad good
