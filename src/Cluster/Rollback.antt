-- ===== src/Cluster/Rollback.antt =====
-- What the creation of a cluster leaves behind when it fails.
use container_service_extens.Common.{
  ◌≡◌, refl, String, Bool, true, false, Option, inl, inr, Option-cases, none, some, List, [], ok,
  err,
}
use container_service_extens.Common.Int.{ℤ, is_positive}
use container_service_extens.Cluster.Phase.{create, succeeded, phase_text}
use container_service_extens.Cluster.World.{
  TaskStatus, Raised, Call, get_org, create_vapp, get_vapp, set_metadata, add_control_plane,
  control_plane_ip, expose, init_cluster, set_ip_metadata, add_workers, join_cluster, add_nfs,
  mark_outcome, delete_vapp, delete_dnat_rule, resolve_and_delete, connect, cluster_operation_error,
  node_operation_error, running, success, error, Entity, World, M, continue, handled, answer, ◌>>◌,
  update_task,
}
use container_service_extens.Cluster.Start.{Spec}
use container_service_extens.Cluster.Nodes.{Vcd, when, add_worker_nodes, add_nfs_nodes}
use container_service_extens.Cluster.Resize.{ended}
use container_service_extens.Cluster.Create.{
  when-attempt, is_known, is_none, raised_as, make_vapp, make_control_plane, expose_step,
  make_nodes, created, record_created, create_work, remove_vapp, remove_rule, roll_back,
  creation_failed, create_cluster_async,
}
use container_service_extens.Cluster.Ends.{Outcome}

-- Every exception that a call raises is one that the first `except` clause of
-- `_create_cluster_async` names.
abbrev pub AllKnown : Vcd → Type 0
AllKnown vcd = (c : Call) (r : Raised) → vcd.fails c ≡ some r → is_known r ≡ true

module _ (P : Outcome → Type 0)
    (bad : (r : Raised) (w : World) → is_known r ≡ true → P (err r, w)) where
  answer-known :
      (o : Option Raised) (k : M (Unit {0})) (w : World)
      → ((r : Raised) → o ≡ some r → is_known r ≡ true)
      → P (k w)
      → P ((answer o >> k) w)
  answer-known none k w h good = good
  answer-known (some r) k w h good = bad r w (h r refl)

  convert-known :
      (o : Option Raised) (r : Raised) (k : M (Unit {0})) (w : World)
      → is_known r ≡ true
      → P (k w)
      → P ((raised_as r (answer o) >> k) w)
  convert-known none r k w h good = good
  convert-known (some s) r k w h good = bad r w h

  module _ (vcd : Vcd) (known : AllKnown vcd) (href : String) where
    make_vapp-known :
        (w : World)
        → P (ok tt, record w { task = some running; has_vapp = true; vapp_read = true })
        → P (make_vapp vcd href w)
    unfolding make_vapp
    make_vapp-known w good = answer-known (vcd.fails get_org) _ w (known get_org) (
        convert-known (vcd.fails create_vapp) cluster_operation_error _ _ refl (
          answer-known (vcd.fails get_vapp) _ _ (known get_vapp)
            (answer-known (vcd.fails set_metadata) _ _ (known set_metadata) good)))

    expose_step-known :
        (b : Bool) (k : M (Unit {0})) (w : World)
        → ((c : Bool) → P (k (record w { ip_exposed = c })))
        → P ((expose_step vcd href b >> k) w)
    unfolding expose_step
    expose_step-known true k w good = good (is_none (vcd.fails expose))
    expose_step-known false k w good = good w.ip_exposed

    make_control_plane-known :
        (spec : Spec) (w : World)
        → ((b : Bool) → P (ok tt, record w { task = some running; ip_exposed = b }))
        → P (make_control_plane vcd href spec w)
    unfolding make_control_plane
    make_control_plane-known spec w good =
        convert-known (vcd.fails add_control_plane) node_operation_error _ w refl (
          answer-known (vcd.fails control_plane_ip) _ _ (known control_plane_ip) (
            expose_step-known spec.expose _ _ λ b.
              answer-known (vcd.fails init_cluster) _ _ (known init_cluster)
                (answer-known (vcd.fails set_ip_metadata) _ _ (known set_ip_metadata) (good b))))

    nfs-known :
        (b : Bool) (n : ℤ) (k : M (Unit {0})) (w : World)
        → ((ns : List String) (t : Option TaskStatus)
            → P (k (record w { task = t; vapp_nfs = ns })))
        → P (
            (when b (do update_task running; raised_as node_operation_error (add_nfs_nodes vcd n))
                >> k)
              w)
    unfolding add_nfs_nodes
    nfs-known true n k w good =
        convert-known (vcd.fails add_nfs) node_operation_error k _ refl (good _ _)
    nfs-known false n k w good = good w.vapp_nfs w.task

    make_nodes-known :
        (spec : Spec) (w : World)
        → ((ws ns : List String)
            → P (ok tt, record w { task = some running; vapp_workers = ws; vapp_nfs = ns }))
        → P (make_nodes vcd href spec w)
    unfolding make_nodes add_worker_nodes
    make_nodes-known spec w good =
        convert-known (vcd.fails add_workers) node_operation_error _ _ refl (
          answer-known (vcd.fails join_cluster) _ _ (known join_cluster)
            (nfs-known (is_positive spec.nfs_count) spec.nfs_count _ _ λ ns t. good _ ns))

-- All of the cluster is there, or nothing.
pub data AllOrNothing (href : String) : Outcome → Type 0 where
  whole :
      (w : World) (d : Entity)
      → w.entity ≡ some d
      → d.phase ≡ phase_text create succeeded
      → d.external_id ≡ some href
      → w.has_vapp ≡ true
      → w.task ≡ some success
      → AllOrNothing href (ok tt, w)
  nothing :
      (w : World)
      → w.entity ≡ none
      → w.has_vapp ≡ false
      → w.vapp_workers ≡ []
      → w.vapp_nfs ≡ []
      → w.task ≡ some error
      → AllOrNothing href (ok tt, w)

module _ (vcd : Vcd) (known : AllKnown vcd) (href : String) (connects : vcd.fails connect ≡ none)
    (vapp_deleted : vcd.fails delete_vapp ≡ none)
    (entity_deleted : vcd.fails resolve_and_delete ≡ none) where
  remove_rule-ok : (w : World) → remove_rule vcd href w ≡ (ok tt, w)
  unfolding remove_rule
  remove_rule-ok w = when-attempt w.ip_exposed (vcd.fails delete_dnat_rule) w

  rolled_back :
      (r : Raised) (w : World)
      → is_known r ≡ true
      → AllOrNothing href (ended (creation_failed vcd href (is_known r) true w))
  unfolding creation_failed roll_back remove_vapp
  rolled_back r w h =
      rw (h, vapp_deleted, remove_rule-ok, entity_deleted) (nothing _ refl refl refl refl refl)

  abbrev Left : Outcome → Type 0
  Left x = AllOrNothing href (ended (handled x λ r. creation_failed vcd href (is_known r) true))

  created-Left :
      (e : Entity) (w : World)
      → w.entity ≡ some e
      → w.has_vapp ≡ true
      → Left ((record_created vcd href >> update_task success) w)
  unfolding record_created created
  created-Left e w p v = elim (Option-cases (vcd.fails mark_outcome)) [
    | inl q ↦ rw (q, p) (whole _ _ refl refl refl v refl)
    | inr (r, q) ↦ rw q (rolled_back r w (known mark_outcome r q))
  ]

  -- A user who wants a rollback creates a cluster, and the calls that clean up succeed: either all
  -- of the cluster is there in the end, with its vApp and the phase CREATE:SUCCEEDED, or neither
  -- entity nor vApp is. The calls may fail otherwise, but only with exceptions derived from
  -- ClusterOperationError.
  pub create_cluster_async-AllOrNothing :
      (spec : Spec) (w : World) (e : Entity)
      → w.entity ≡ some e
      → spec.rollback_on_failure ≡ true
      → AllOrNothing href (create_cluster_async vcd href spec w)
  unfolding create_cluster_async create_work
  create_cluster_async-AllOrNothing spec w e p rollback =
      rw (connects, rollback)
        (make_vapp-known
          (λ x. Left (
            continue x λ _. do
              make_control_plane vcd href spec
              make_nodes vcd href spec
              record_created vcd href
              update_task success))
          rolled_back vcd known href _
          (make_control_plane-known
            (λ x. Left (
              continue x
                λ _. do make_nodes vcd href spec; record_created vcd href; update_task success))
            rolled_back vcd known href spec _
            λ b.
              make_nodes-known
                (λ x. Left (continue x λ _. do record_created vcd href; update_task success))
                rolled_back vcd known href spec _ λ ws ns. created-Left e _ p refl))
