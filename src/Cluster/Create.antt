-- ===== src/Cluster/Create.antt =====
-- cluster_service_2_x.py: `_create_cluster_async`, the thread that creates a cluster.
use container_service_extens.Common.{
  ◌≡◌, refl, String, Bool, true, false, Option, none, some, [], ok,
}
use container_service_extens.Common.Int.{is_positive}
use container_service_extens.Cluster.Phase.{create, succeeded}
use container_service_extens.Cluster.World.{
  Raised, node_creation_error, joining_error, node_operation_error, cluster_operation_error, Call,
  get_org, create_vapp, get_vapp, set_metadata, add_control_plane, control_plane_ip, expose,
  init_cluster, set_ip_metadata, join_cluster, nodes_details, mark_outcome, delete_vapp,
  delete_dnat_rule, resolve_and_delete, connect, running, success, error, Entity, World, M, raise,
  ◌>>◌, catch, attempt, modify, update_task, answer, set_phase, call, update_cluster_entity,
  fail_operation, sync_def_entity,
}
use container_service_extens.Cluster.Start.{Spec}
use container_service_extens.Cluster.Nodes.{Vcd, when, add_worker_nodes, add_nfs_nodes}
use container_service_extens.Cluster.Resize.{with_context}

-- The exceptions that the first `except` clause names: `ClusterOperationError` and what derives
-- from it.
abbrev pub is_known : Raised → Bool
is_known (node_creation_error names) = true
is_known joining_error = true
is_known node_operation_error = true
is_known cluster_operation_error = true
is_known _ = false

-- `try: m except Exception: raise r`
abbrev pub raised_as : Raised → M (Unit {0}) → M (Unit {0})
raised_as r m = catch m λ _. raise r

abbrev pub is_none : Option Raised → Bool
is_none none = true
is_none (some r) = false

abbrev pub vapp_gone : World → World
vapp_gone w = record w { has_vapp = false; vapp_workers = []; vapp_nfs = [] }

-- `_delete_vapp`
unfoldable pub remove_vapp : (Call → Option Raised) → M (Unit {0})
remove_vapp fails = do call fails delete_vapp; modify vapp_gone

-- The nodes of the entity are those that `_get_nodes_details` finds, or None.
abbrev pub listed : Option Raised → World → Entity → Entity
listed none w e = record e { workers = w.vapp_workers; nfs = w.vapp_nfs }
listed (some r) w e = record e { workers = []; nfs = [] }

-- `href` is the one of the vApp that is created.
module _ (vcd : Vcd) (href : String) where
  unfoldable pub make_vapp : M (Unit {0})
  make_vapp = do
    call vcd.fails get_org
    update_task running
    raised_as cluster_operation_error (call vcd.fails create_vapp)
    modify (λ w. record w { has_vapp = true })
    call vcd.fails get_vapp
    modify (λ w. record w { vapp_read = true })
    call vcd.fails set_metadata
    update_task running

  -- Exposing the cluster may fail and leaves no address then.
  unfoldable pub expose_step : Bool → M (Unit {0})
  expose_step wanted =
      when wanted (modify (λ w. record w { ip_exposed = is_none (vcd.fails expose) }))

  unfoldable pub make_control_plane : Spec → M (Unit {0})
  unfolding expose_step
  make_control_plane spec = do
    raised_as node_operation_error (call vcd.fails add_control_plane)
    update_task running
    call vcd.fails control_plane_ip
    expose_step spec.expose
    call vcd.fails init_cluster
    call vcd.fails set_ip_metadata
    update_task running

  unfoldable pub make_nodes : Spec → M (Unit {0})
  unfolding add_worker_nodes add_nfs_nodes
  make_nodes spec = do
    raised_as node_operation_error (add_worker_nodes vcd spec.workers_count)
    update_task running
    call vcd.fails join_cluster
    when (is_positive spec.nfs_count)
        (do update_task running; raised_as node_operation_error (add_nfs_nodes vcd spec.nfs_count))
    update_task running

  unfoldable pub created : World → Entity → Entity
  created w e = record (listed (vcd.fails nodes_details) w e) {
    phase = (set_phase create succeeded e).phase;
    external_id = some href;
    exposed = exposed_after w.ip_exposed e.exposed;
  }
    where
      exposed_after : Bool → Bool → Bool
      exposed_after true before = true
      exposed_after false before = before

  unfoldable pub record_created : M (Unit {0})
  unfolding created update_cluster_entity
  record_created w = update_cluster_entity vcd.fails mark_outcome (created w) w

  unfoldable pub create_work : Spec → M (Unit {0})
  unfolding make_vapp make_control_plane make_nodes record_created
  create_work spec = do
    make_vapp
    make_control_plane spec
    make_nodes spec
    record_created
    update_task success

  unfoldable pub sync_created : M (Unit {0})
  unfolding sync_def_entity
  sync_created w = sync_def_entity vcd.fails w.vapp_read (λ e. e) w

  unfoldable pub remove_rule : M (Unit {0})
  remove_rule w = when w.ip_exposed (attempt (call vcd.fails delete_dnat_rule)) w

  unfoldable pub roll_back : M (Unit {0})
  unfolding remove_vapp remove_rule
  roll_back = do
    update_task running
    attempt (remove_vapp vcd.fails)
    remove_rule
    attempt (do call vcd.fails resolve_and_delete; modify (λ w. record w { entity = none }))
    update_task error

  -- The two `except` clauses.
  unfoldable pub creation_failed : Bool → Bool → M (Unit {0})
  unfolding roll_back sync_created fail_operation
  creation_failed true true = do attempt (fail_operation vcd.fails create); roll_back
  creation_failed _ _ = do
    attempt (fail_operation vcd.fails create)
    attempt sync_created
    update_task error

  -- The variables have no value at first, and the client is taken before the `try`.
  unfoldable pub create_cluster_async : Spec → M (Unit {0})
  unfolding create_work creation_failed
  create_cluster_async spec = do
    modify (λ w. record w { vapp_read = false; ip_exposed = false })
    call vcd.fails connect
    with_context (create_work spec) λ r. creation_failed (is_known r) spec.rollback_on_failure

pub when-attempt :
    (b : Bool) (o : Option Raised) (w : World) → when b (attempt (answer o)) w ≡ (ok tt, w)
when-attempt true none w = refl
when-attempt true (some r) w = refl
when-attempt false o w = refl
