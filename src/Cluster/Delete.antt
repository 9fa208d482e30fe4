-- ===== src/Cluster/Delete.antt =====
-- cluster_service_2_x.py: `_delete_cluster_async`, the thread that deletes a cluster.
use container_service_extens.Common.{
  ◌≡◌, refl, inl, inr, Option-cases, Result, String, Bool, true, false, Option, none, some, ok,
}
use container_service_extens.Cluster.Phase.{delete}
use container_service_extens.Cluster.World.{
  Raised, Call, connect, delete_dnat_rule, running, success, error, Entity, World, M, pure, ◌>>◌,
  attempt, update_task, call, fail_operation, handled, delete_vapp,
}
use container_service_extens.Cluster.Create.{remove_vapp, when-attempt}
use container_service_extens.Cluster.Nodes.{when}
use container_service_extens.Cluster.Resize.{ended, with_context}

module _ (fails : Call → Option Raised) where
  drop_rule : Bool → M (Unit {0})
  drop_rule exposed = when exposed (attempt (call fails delete_dnat_rule))

  unfoldable pub delete_linked : Option String → Bool → M (Unit {0})
  unfolding drop_rule remove_vapp
  delete_linked none exposed = pure tt
  delete_linked (some href) exposed = do remove_vapp fails; drop_rule exposed

  unfoldable pub delete_work : Entity → M (Unit {0})
  unfolding delete_linked
  delete_work e = do
    update_task running
    call fails connect
    delete_linked e.external_id e.exposed
    update_task success

  deletion_failed : M (Unit {0})
  unfolding fail_operation
  deletion_failed = do attempt (fail_operation fails delete); update_task error

  -- `e` is the entity that the request has read.
  unfoldable pub delete_cluster_async : Entity → M (Unit {0})
  unfolding delete_work deletion_failed
  delete_cluster_async e = with_context (delete_work e) λ r. deletion_failed

-- The end of a deletion: the task is SUCCESS, and the vApp is gone or the entity is linked to none;
-- or the task is ERROR.
pub data Deleted (e : Entity) : Result Raised (Unit {0}) × World → Type 0 where
  deleted :
      (w : World)
      → w.task ≡ some success
      → w.ended ≡ true
      → w.has_vapp ≡ false
      → Deleted e (ok tt, w)
  unlinked :
      (w : World)
      → w.task ≡ some success
      → w.ended ≡ true
      → e.external_id ≡ none
      → Deleted e (ok tt, w)
  not_deleted : (w : World) → w.task ≡ some error → w.ended ≡ true → Deleted e (ok tt, w)

module _ (fails : Call → Option Raised) (e : Entity) where
  drop_rule-ok : (b : Bool) (w : World) → drop_rule fails b w ≡ (ok tt, w)
  unfolding drop_rule
  drop_rule-ok b w = when-attempt b (fails delete_dnat_rule) w

  linked-Deleted :
      (x : Option String) (b : Bool) (w : World)
      → e.external_id ≡ x
      → Deleted e (
          ended (
            handled
              ((do delete_linked fails x b; update_task success) w)
              λ r. deletion_failed fails))
  unfolding delete_linked remove_vapp deletion_failed
  linked-Deleted none b w h = unlinked _ refl refl h
  linked-Deleted (some x) b w h = elim (Option-cases (fails delete_vapp)) [
    | inl p ↦ rw (p, drop_rule-ok) (deleted _ refl refl refl)
    | inr (r, p) ↦ rw p (not_deleted _ refl refl)
  ]

  -- Whatever fails, the thread that deletes a cluster comes to its end, with the context closed; if
  -- its task is SUCCESS, the vApp is gone, unless the entity is linked to none.
  pub delete_cluster_async-Deleted : (w : World) → Deleted e (delete_cluster_async fails e w)
  unfolding delete_cluster_async delete_work deletion_failed
  delete_cluster_async-Deleted w = elim (Option-cases (fails connect)) [
    | inl p ↦ rw p (linked-Deleted e.external_id e.exposed _ refl)
    | inr (r, p) ↦ rw p (not_deleted _ refl refl)
  ]
