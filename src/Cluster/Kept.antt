-- ===== src/Cluster/Kept.antt =====
-- What a creation that fails after its vApp is created finds of the entity and of the vApp, which are linked
-- at the very end.
use container_service_extens.Common.{
  ◌≡◌, refl, ◌∙◌, String, Bool, true, false, Option, none, some, List, ok, err,
}
use container_service_extens.Common.Int.{ℤ, is_positive}
use container_service_extens.Cluster.World.{
  TaskStatus, expose, Raised, get_org, create_vapp, get_vapp, set_metadata, add_control_plane,
  control_plane_ip, init_cluster, set_ip_metadata, add_workers, join_cluster, add_nfs, mark_outcome,
  node_operation_error, running, success, Entity, World, M, continue, answer, ◌>>◌, update_task,
}
use container_service_extens.Cluster.Cases.{update-outcome}
use container_service_extens.Cluster.Start.{Spec}
use container_service_extens.Cluster.Nodes.{Vcd, when, add_worker_nodes, add_nfs_nodes}
use container_service_extens.Cluster.Create.{
  raised_as, is_none, make_vapp, make_control_plane, expose_step, make_nodes, record_created,
  create_work,
}
use container_service_extens.Cluster.Ends.{Outcome}

-- There is a vApp, and the entity is still the one given.
pub record Has (e : Entity) (w : World) : Type 0 where
  pub entity : w.entity ≡ some e
  pub vapp : w.has_vapp ≡ true

-- An exception finds the entity as it was.
pub data Kept (e : Entity) : Outcome → Type 0 where
  raises : (r : Raised) (w : World) → Has e w → Kept e (err r, w)
  returns : (w : World) → Kept e (ok tt, w)

-- A step that changes neither.
pub carried :
    {e : Entity} {w : World} (v : World)
    → v.entity ≡ w.entity
    → v.has_vapp ≡ w.has_vapp
    → Has e w
    → Has e v
carried v p q h = record { entity = p ∙ h.entity; vapp = q ∙ h.vapp }

module _ (e : Entity) (P : Outcome → Type 0)
    (bad : (r : Raised) (w : World) → Has e w → P (err r, w)) where
  answer-step :
      (o : Option Raised) (k : M (Unit {0})) (w : World) → Has e w → P (k w) → P ((answer o >> k) w)
  answer-step none k w h good = good
  answer-step (some r) k w h good = bad r w h

  raised-step :
      (o : Option Raised) (r : Raised) (k : M (Unit {0})) (w : World)
      → Has e w
      → P (k w)
      → P ((raised_as r (answer o) >> k) w)
  raised-step none r k w h good = good
  raised-step (some s) r k w h good = bad r w h

  module _ (vcd : Vcd) (href : String) where
    make_vapp-step :
        (w : World)
        → w.entity ≡ some e
        → vcd.fails get_org ≡ none
        → vcd.fails create_vapp ≡ none
        → P (ok tt, record w { task = some running; has_vapp = true; vapp_read = true })
        → P (make_vapp vcd href w)
    unfolding make_vapp
    make_vapp-step w h org creates good =
        rw (org, creates)
          (answer-step (vcd.fails get_vapp) _ _ (record { entity = h; vapp = refl })
            (answer-step (vcd.fails set_metadata) _ _ (record { entity = h; vapp = refl }) good))

    expose_step-step :
        (b : Bool) (k : M (Unit {0})) (w : World)
        → ((c : Bool) → P (k (record w { ip_exposed = c })))
        → P ((expose_step vcd href b >> k) w)
    unfolding expose_step
    expose_step-step true k w good = good (is_none (vcd.fails expose))
    expose_step-step false k w good = good w.ip_exposed

    make_control_plane-step :
        (spec : Spec) (w : World)
        → Has e w
        → ((b : Bool) → P (ok tt, record w { task = some running; ip_exposed = b }))
        → P (make_control_plane vcd href spec w)
    unfolding make_control_plane
    make_control_plane-step spec w h good =
        raised-step (vcd.fails add_control_plane) node_operation_error _ w h (
          answer-step (vcd.fails control_plane_ip) _ _ (carried _ refl refl h) (
            expose_step-step spec.expose _ _ λ b.
              answer-step (vcd.fails init_cluster) _ _ (carried _ refl refl h)
                (answer-step (vcd.fails set_ip_metadata) _ _ (carried _ refl refl h) (good b))))

    nfs-step :
        (b : Bool) (n : ℤ) (k : M (Unit {0})) (w : World)
        → Has e w
        → ((ns : List String) (t : Option TaskStatus)
            → P (k (record w { task = t; vapp_nfs = ns })))
        → P (
            (when b (do update_task running; raised_as node_operation_error (add_nfs_nodes vcd n))
                >> k)
              w)
    unfolding add_nfs_nodes
    nfs-step true n k w h good =
        raised-step (vcd.fails add_nfs) node_operation_error k _ (carried _ refl refl h) (good _ _)
    nfs-step false n k w h good = good w.vapp_nfs w.task

    make_nodes-step :
        (spec : Spec) (w : World)
        → Has e w
        → ((ws ns : List String)
            → P (ok tt, record w { task = some running; vapp_workers = ws; vapp_nfs = ns }))
        → P (make_nodes vcd href spec w)
    unfolding make_nodes add_worker_nodes
    make_nodes-step spec w h good =
        raised-step (vcd.fails add_workers) node_operation_error _ _ (carried _ refl refl h) (
          answer-step (vcd.fails join_cluster) _ _ (carried _ refl refl h) (
            nfs-step (is_positive spec.nfs_count) spec.nfs_count _ _ (carried _ refl refl h)
              λ ns t. good _ ns))

module _ (e : Entity) (vcd : Vcd) (href : String) where
  record_created-Kept :
      (w : World) → Has e w → Kept e ((record_created vcd href >> update_task success) w)
  unfolding record_created
  record_created-Kept w h =
      update-outcome (λ x. Kept e (continue x λ _. update_task success)) vcd.fails mark_outcome _ w
        (λ r. raises r w h) λ d p. returns _

  -- Once there is a vApp, an exception of the work of a creation finds it, and the entity as it was.
  pub create_work-Kept :
      (spec : Spec) (w : World)
      → w.entity ≡ some e
      → vcd.fails get_org ≡ none
      → vcd.fails create_vapp ≡ none
      → Kept e (create_work vcd href spec w)
  unfolding create_work
  create_work-Kept spec w h org creates =
      make_vapp-step e
        (λ x. Kept e (
          continue x λ _. do
            make_control_plane vcd href spec
            make_nodes vcd href spec
            record_created vcd href
            update_task success))
        raises vcd href w h org creates
        (make_control_plane-step e
          (λ x. Kept e (
            continue x
              λ _. do make_nodes vcd href spec; record_created vcd href; update_task success))
          raises vcd href spec _ (record { entity = h; vapp = refl })
          λ b.
            make_nodes-step e
              (λ x. Kept e (continue x λ _. do record_created vcd href; update_task success)) raises
              vcd href spec _ (record { entity = h; vapp = refl })
              λ ws ns. record_created-Kept _ (record { entity = h; vapp = refl }))
