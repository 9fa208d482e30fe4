-- ===== src/Cluster/Orphans.antt =====
-- What a creation leaves behind that fails without a rollback, and what a later deletion makes of it.
use container_service_extens.Common.{
  ◌≡◌, ◌∙◌, refl, sym, ap, subst, String, Bool, true, false, ◌&&◌, Option, none, some, err,
}
use container_service_extens.Cluster.Phase.{create, failed}
use container_service_extens.Cluster.World.{
  Raised, Call, get_org, create_vapp, connect, mark_failed, get_entity_again, sync, nodes_details,
  success, Entity, World, update_cluster_entity, fail_operation, sync_def_entity, synced, linked,
  with_nodes, set_phase,
}
use container_service_extens.Cluster.Cases.{update-outcome, found-cases}
use container_service_extens.Cluster.Start.{Spec}
use container_service_extens.Cluster.Nodes.{Vcd}
use container_service_extens.Cluster.Create.{
  is_known, create_work, sync_created, creation_failed, create_cluster_async,
}
use container_service_extens.Cluster.Delete.{delete_cluster_async, delete_work, delete_linked}
use container_service_extens.Cluster.Ends.{Outcome}
use container_service_extens.Cluster.Kept.{Has, Kept, raises, returns, create_work-Kept}

-- There is a vApp, and an entity that is not linked to it.
record Orphaned (w : World) : Type 0 where
  entity : Entity
  is_entity : w.entity ≡ some entity
  unlinked : entity.external_id ≡ none
  vapp : w.has_vapp ≡ true

same_entity : {d e : Entity} → Path (Option Entity) (some d) (some e) → d ≡ e
same_entity h = cc

module _ (fails : Call → Option Raised) where
  update-Orphaned :
      (c : Call) (f : Entity → Entity) (w : World)
      → ((e : Entity) → (f e).external_id ≡ e.external_id)
      → Orphaned w
      → Orphaned (update_cluster_entity fails c f w).1
  update-Orphaned c f w same h =
      update-outcome (λ x. Orphaned x.1) fails c f w (λ r. h)
        λ e p. record {
          entity = f e;
          is_entity = refl;
          unlinked =
              same e ∙ (ap (λ d. d.external_id) (same_entity (sym p ∙ h.is_entity)) ∙ h.unlinked);
          vapp = h.vapp;
        }

  with_nodes-external_id :
      (o : Option Raised) (w : World) (e : Entity)
      → (with_nodes fails o w e).external_id ≡ e.external_id
  unfolding with_nodes
  with_nodes-external_id none w e = refl
  with_nodes-external_id (some r) w e = refl

  synced-Orphaned : (b : Bool) (w : World) → Orphaned w → Orphaned (synced fails b (λ e. e) w).1
  unfolding synced
  synced-Orphaned false w h = h
  synced-Orphaned true w h =
      update-Orphaned sync _ w (λ e. with_nodes-external_id (fails nodes_details) w e) h

  sync-Orphaned :
      (b : Bool) (w : World) → Orphaned w → Orphaned (sync_def_entity fails b (λ e. e) w).1
  unfolding sync_def_entity
  sync-Orphaned b w h =
      found-cases (λ x. Orphaned x.1) (fails get_entity_again) _ w (λ r. h)
        λ e p. synced-Orphaned (linked fails b e.external_id) w h

recorded :
    (vcd : Vcd) (href : String) (w : World)
    → Orphaned w
    → Orphaned (creation_failed vcd href false false w).1
unfolding creation_failed fail_operation sync_created
recorded vcd href w h =
    let marked = update-Orphaned vcd.fails mark_failed (set_phase create failed) w (λ e. refl) h in
    let synced = sync-Orphaned vcd.fails (fail_operation vcd.fails create w).1.vapp_read _ marked in
    record {
      entity = synced.entity;
      is_entity = synced.is_entity;
      unlinked = synced.unlinked;
      vapp = synced.vapp;
    }

-- Neither of the two records of a failure links the entity.
failed-Orphaned :
    (vcd : Vcd) (href : String) (known rollback : Bool) (w : World)
    → (known && rollback) ≡ false
    → Orphaned w
    → Orphaned (creation_failed vcd href known rollback w).1
unfolding creation_failed fail_operation sync_created
failed-Orphaned vcd href true true w n h = absurd cc
failed-Orphaned vcd href true false w n h = recorded vcd href w h
failed-Orphaned vcd href false b w n h = recorded vcd href w h

Kept-Has : (e : Entity) (x : Outcome) (r : Raised) (u : World) → Kept e x → x ≡ (err r, u) → Has e u
Kept-Has e _ r u (raises s w h) p = subst (Has e) (ap (λ y. y.1) p) h
Kept-Has e _ r u (returns w) p = absurd (let q = ap (λ y. y.0) p in cc)

create_cluster_async-Orphaned :
    (vcd : Vcd) (href : String) (spec : Spec) (w u : World) (r : Raised)
    → vcd.fails connect ≡ none
    → create_work vcd href spec (record w { vapp_read = false; ip_exposed = false }) ≡ (err r, u)
    → (is_known r && spec.rollback_on_failure) ≡ false
    → Orphaned u
    → Orphaned (create_cluster_async vcd href spec w).1
unfolding create_cluster_async
create_cluster_async-Orphaned vcd href spec w u r connects raised n h =
    let left = failed-Orphaned vcd href (is_known r) spec.rollback_on_failure u n h in
    rw (connects, raised)
      (record {
        entity = left.entity;
        is_entity = left.is_entity;
        unlinked = left.unlinked;
        vapp = left.vapp;
      })

delete_unlinked :
    (fails : Call → Option Raised) (e : Entity) (w : World)
    → fails connect ≡ none
    → e.external_id ≡ none
    → ((delete_cluster_async fails e w).1.task ≡ some success)
      × ((delete_cluster_async fails e w).1.has_vapp ≡ w.has_vapp)
unfolding delete_cluster_async delete_work delete_linked
delete_unlinked fails e w connects q = rw (connects, q) (refl, refl)

-- A creation has made its vApp, and its work raises an exception at whatever later point, either one that is
-- not derived from ClusterOperationError, or any while the user wants no rollback; whatever fails in
-- recording it. The cluster is deleted later, in whatever world `later` leaves of it but for its entity
-- and its vApp, and the client can be had: the task is SUCCESS, and the vApp is still there.
pub delete_cluster_async-orphan :
    (vcd : Vcd) (href : String) (spec : Spec) (w u later : World) (e : Entity) (r : Raised)
    (fails : Call → Option Raised)
    → w.entity ≡ some e
    → e.external_id ≡ none
    → vcd.fails connect ≡ none
    → vcd.fails get_org ≡ none
    → vcd.fails create_vapp ≡ none
    → create_work vcd href spec (record w { vapp_read = false; ip_exposed = false }) ≡ (err r, u)
    → (is_known r && spec.rollback_on_failure) ≡ false
    → fails connect ≡ none
    → later.entity ≡ (create_cluster_async vcd href spec w).1.entity
    → later.has_vapp ≡ (create_cluster_async vcd href spec w).1.has_vapp
    → (d : Entity) × (later.entity ≡ some d)
      × ((delete_cluster_async fails d later).1.task ≡ some success)
      × ((delete_cluster_async fails d later).1.has_vapp ≡ true)
delete_cluster_async-orphan vcd href spec w u later e r fails p q c o v raised n connects same
      kept =
    let k = Kept-Has e _ r u (create_work-Kept e vcd href spec _ p o v) raised in
    let left =
      create_cluster_async-Orphaned vcd href spec w u r c raised n
        (record { entity = e; is_entity = k.entity; unlinked = q; vapp = k.vapp }) in
    let (done, still) = delete_unlinked fails left.entity later connects left.unlinked in
    (left.entity, same ∙ left.is_entity, done, still ∙ (kept ∙ left.vapp))
