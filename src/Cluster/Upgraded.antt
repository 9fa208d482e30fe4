-- ===== src/Cluster/Upgraded.antt =====
-- How the thread that upgrades a cluster ends.
use container_service_extens.Common.{
  ◌≡◌, refl, Option, none, some, List, ◌++◌, Bool, true, false, ok, err,
}
use container_service_extens.Cluster.Phase.{upgrade, succeeded, phase_text}
use container_service_extens.Cluster.World.{
  Raised, Call, get_entity, get_vapp, prepare_upgrade, set_metadata, mark_outcome, success, error,
  Template, Entity, World, M, handled, continue, answer, update_task, other_error, found,
  from_option,
}
use container_service_extens.Cluster.Nodes.{branch}
use container_service_extens.Cluster.Cases.{update-outcome}
use container_service_extens.Cluster.Resize.{ended}
use container_service_extens.Cluster.Ends.{Outcome}
use container_service_extens.Cluster.Upgrade.{
  Version, Software, Parts, parts_to_upgrade, record_upgraded, upgrade_failed, upgrade_work,
  upgrade_cluster_async,
}
use container_service_extens.Cluster.Wanted.{Wanted, parts_to_upgrade-Wanted}
use container_service_extens.Cluster.Order.{Ran, ran, stopped, plan, upgrade_parts-Ran}

-- The entity has the template and is in the phase UPGRADE:SUCCEEDED.
pub data IsUpgraded (t : Template) : Option Entity → Type 0 where
  is_upgraded :
      (e : Entity)
      → e.distribution ≡ t
      → e.phase ≡ phase_text upgrade succeeded
      → IsUpgraded t (some e)

-- An upgrade of a cluster whose entity was `before`.
pub data Upgraded (parts : Parts) (t : Template) (scripts : List Call) (before : Option Entity)
    : Outcome → Type 0 where
  upgraded :
      (e : Entity) (w : World)
      → before ≡ some e
      → w.scripts ≡ scripts ++ plan parts e.workers
      → IsUpgraded t w.entity
      → w.task ≡ some success
      → w.ended ≡ true
      → Upgraded parts t scripts before (ok tt, w)
  not_upgraded :
      (w : World)
      → w.task ≡ some error
      → w.ended ≡ true
      → Upgraded parts t scripts before (ok tt, w)

-- What the work leaves if nothing is raised.
data Work (t : Template) (scripts : List Call) : Outcome → Type 0 where
  works :
      (w : World)
      → w.scripts ≡ scripts
      → IsUpgraded t w.entity
      → w.task ≡ some success
      → Work t scripts (ok tt, w)
  raises : (r : Raised) (w : World) → Work t scripts (err r, w)

module _ (Q : Outcome → Type 0) where
  answer_branch-cases :
      (o : Option Raised) (h : Raised → M (Unit {0})) (k : Unit {0} → M (Unit {0})) (w : World)
      → ((r : Raised) → Q (h r w))
      → Q (k tt w)
      → Q (branch (answer o w) h k)
  answer_branch-cases none h k w bad good = good
  answer_branch-cases (some r) h k w bad good = bad r

  read_branch-cases :
      (o : Option Entity) (h : Raised → M (Unit {0})) (k : Entity → M (Unit {0})) (w : World)
      → ((r : Raised) → Q (h r w))
      → ((e : Entity) → o ≡ some e → Q (k e w))
      → Q (branch (from_option o other_error w) h k)
  read_branch-cases none h k w bad good = bad other_error
  read_branch-cases (some e) h k w bad good = good e refl

  found_branch-cases :
      (o : Option Raised) (h : Raised → M (Unit {0})) (k : Entity → M (Unit {0})) (w : World)
      → ((r : Raised) → Q (h r w))
      → ((e : Entity) → w.entity ≡ some e → Q (k e w))
      → Q (branch (found o w) h k)
  found_branch-cases none h k w bad good = read_branch-cases w.entity h k w bad good
  found_branch-cases (some r) h k w bad good = bad r

module _ (fails : Call → Option Raised) (t : Template) where
  answer-Work :
      (l : List Call) (o : Option Raised) (k : M (Unit {0})) (w : World)
      → Work t l (k w)
      → Work t l (continue (answer o w) λ _. k)
  answer-Work l none k w h = h
  answer-Work l (some r) k w h = raises r w

  record_upgraded-Work :
      (l : List Call) (w : World) → w.scripts ≡ l → Work t l (record_upgraded fails t w)
  unfolding record_upgraded
  record_upgraded-Work l w h = answer-Work l (fails set_metadata) _ _ (
      update-outcome (λ x. Work t l (continue x λ _. update_task success)) fails mark_outcome _ _
        (λ r. raises r _) λ e p. works _ h (is_upgraded _ refl refl) refl)

  recorded-Work :
      (before l : List Call) (x : Outcome)
      → Ran before l x
      → Work t (before ++ l) (continue x λ _. record_upgraded fails t)
  recorded-Work before l _ (ran w h) = record_upgraded-Work (before ++ l) w h
  recorded-Work before l _ (stopped r w done left h e) = raises r w

  upgrade_work-Work :
      (parts : Parts) (e : Entity) (w : World)
      → Work t (w.scripts ++ plan parts e.workers) (upgrade_work fails parts t e.workers w)
  unfolding upgrade_work
  upgrade_work-Work parts e w =
      answer-Work _ (fails prepare_upgrade) _ w
        (recorded-Work w.scripts _ _ (upgrade_parts-Ran fails parts e.workers w))

  failed-Upgraded :
      (parts : Parts) (scripts : List Call) (before : Option Entity) (b : Bool) (w : World)
      → Upgraded parts t scripts before (ended (upgrade_failed fails b w))
  unfolding upgrade_failed
  failed-Upgraded parts scripts before b w = not_upgraded _ refl refl

  ended-Upgraded :
      (parts : Parts) (scripts : List Call) (before : Option Entity) (e : Entity) (x : Outcome)
      → before ≡ some e
      → Work t (scripts ++ plan parts e.workers) x
      → Upgraded parts t scripts before (ended (handled x λ r. upgrade_failed fails true))
  ended-Upgraded parts scripts before e _ p (works w h u s) = upgraded e _ p h u s refl
  ended-Upgraded parts scripts before e _ p (raises r w) =
      failed-Upgraded parts scripts before true w

module _ (fails : Call → Option Raised) (newer : Version → Version → Bool)
    (target current : Software) (t : Template) where
  abbrev Ending : World → Outcome → Type 0
  Ending w x = Upgraded (parts_to_upgrade newer target current) t w.scripts w.entity (ended x)

  ends_Upgraded :
      (w : World)
      → Upgraded
          (parts_to_upgrade newer target current)
          t
          w.scripts
          w.entity
          (upgrade_cluster_async fails newer target current t w)
  unfolding upgrade_cluster_async
  ends_Upgraded w =
      found_branch-cases (Ending w) (fails get_entity) _ _ w
        (λ r. failed-Upgraded fails t _ _ _ false w)
        λ e p.
          answer_branch-cases (Ending w) (fails get_vapp) _ _ w
            (λ r. failed-Upgraded fails t _ _ _ false w)
            (ended-Upgraded fails t _ w.scripts w.entity e _ p
              (upgrade_work-Work fails t (parts_to_upgrade newer target current) e w))

  -- For whatever vCloud Director answers, the thread of an upgrade closes the context, and its task
  -- ends as ERROR, or as SUCCESS and then all scripts were run of the parts that the versions ask for, in
  -- the order of the plan and on the workers of the entity, which has the template and is in the phase
  -- UPGRADE:SUCCEEDED. The versions ask for Docker if the template's is the later text, for Kubernetes if
  -- the template's is not older, and for the CNI if the template's is newer or Kubernetes comes to a higher
  -- major or minor version.
  pub upgrade_cluster_async-Upgraded :
      (w : World)
      → (parts : Parts) × Wanted newer target current parts
        × Upgraded parts t w.scripts w.entity (upgrade_cluster_async fails newer target current t w)
  upgrade_cluster_async-Upgraded w = (
    parts_to_upgrade newer target current,
    parts_to_upgrade-Wanted newer target current,
    ends_Upgraded w,
  )
