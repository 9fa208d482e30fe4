-- ===== src/Cluster/Resize.antt =====
-- cluster_service_2_x.py: `_monitor_resize` and `_monitor_delete_nodes`, the threads that start
-- those of Nodes, wait for them, and end the operation. The threads that they wait for run one at a
-- time, so each stands where it is waited for.
use container_service_extens.Common.{
  String, Bool, true, false, not, ◌&&◌, ◌||◌, Option, none, some, List, [], Result,
}
use container_service_extens.Common.Int.{is_positive, is_negative}
use container_service_extens.Cluster.Phase.{update, succeeded, failed}
use container_service_extens.Cluster.World.{
  Raised, get_entity, get_template, unexpose, TaskStatus, success, error, Entity, World, M, ◌>>=◌,
  ◌>>◌, catch, attempt, call, update_task, end_context, set_phase, read_entity, sync_def_entity,
}
use container_service_extens.Cluster.Start.{Spec, workers_to_add, nfs_to_add}
use container_service_extens.Cluster.Nodes.{
  Vcd, when, create_nodes_async, delete_nodes_async, end_failed,
}

abbrev pub is_error : Option TaskStatus → Bool
is_error (some error) = true
is_error _ = false

abbrev pub ended : Result Raised (Unit {0}) × World → Result Raised (Unit {0}) × World
ended (r, w) = (r, end_context w)

-- `try: m except Exception: h finally: self.context.end()`
abbrev pub with_context : M (Unit {0}) → (Raised → M (Unit {0})) → M (Unit {0})
with_context m h w = ended (catch m h w)

abbrev unexposed : Option Raised → Entity → Entity
unexposed none e = record e { exposed = false }
unexposed (some r) e = e

module _ (vcd : Vcd) where
  unfoldable pub finish_as : Bool → (Entity → Entity) → M (Unit {0})
  unfolding sync_def_entity
  finish_as true changes =
      sync_def_entity vcd.fails false (λ e. set_phase update failed (changes e))
  finish_as false changes = do
    sync_def_entity vcd.fails false (λ e. set_phase update succeeded (changes e))
    update_task success

  -- The end of the two monitors, by the status that the threads left.
  unfoldable pub finish_update : (Entity → Entity) → M (Unit {0})
  unfolding finish_as
  finish_update changes w = finish_as (is_error w.task) changes w

  unfoldable pub unexpose_changes : Bool → Entity → Entity
  unexpose_changes true = unexposed (vcd.fails unexpose)
  unexpose_changes false = λ e. e

  -- The threads for the new nodes and the old ones are `vcd_create` and `vcd_delete`.
  module _ (vcd_create : Vcd) (vcd_delete : Vcd) where
    unfoldable pub run_creation : Entity → Spec → M (Unit {0})
    unfolding create_nodes_async
    run_creation e spec =
        when (is_positive (workers_to_add e spec) || is_positive (nfs_to_add e spec))
          (do call vcd.fails get_template; attempt (create_nodes_async vcd_create spec))

    unfoldable pub run_deletion : Entity → Spec → M (Unit {0})
    unfolding delete_nodes_async
    run_deletion e spec =
        when (is_negative (workers_to_add e spec))
          (attempt (delete_nodes_async vcd_delete [] (some spec.workers_count)))

    unfoldable pub resize_work : Spec → M (Unit {0})
    unfolding run_creation run_deletion unexpose_changes finish_update
    resize_work spec = do
      e ← read_entity vcd.fails get_entity
      run_creation e spec
      run_deletion e spec
      finish_update (unexpose_changes (e.exposed && not spec.expose))

    unfoldable pub monitor_resize : Spec → M (Unit {0})
    unfolding resize_work end_failed
    monitor_resize spec = with_context (resize_work spec) λ r. end_failed vcd false

  unfoldable pub delete_work : Vcd → List String → M (Unit {0})
  unfolding delete_nodes_async finish_update
  delete_work vcd_delete names = do
    attempt (delete_nodes_async vcd_delete names none)
    finish_update (λ e. e)

  unfoldable pub monitor_delete_nodes : Vcd → List String → M (Unit {0})
  unfolding delete_work end_failed
  monitor_delete_nodes vcd_delete names =
      with_context (delete_work vcd_delete names) λ r. end_failed vcd false
