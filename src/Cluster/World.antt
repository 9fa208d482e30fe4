-- ===== src/Cluster/World.antt =====
-- What the operations of a cluster act on: the defined entity as vCloud Director keeps it, the
-- virtual machines of its vApp, the task of the request, and the context of the operation. The
-- calls of vCloud Director and of the scripts on the machines are a parameter, which says of each
-- call whether it raises an exception; `fails` gives it for the calls of one operation.
use container_service_extens.Common.{
  ℕ, String, Bool, true, false, Option, none, some, List, Result, ok, err,
}
use container_service_extens.Cluster.Phase.{
  DefEntityOperation, DefEntityOperationStatus, failed, phase_text,
}
pub use container_service_extens.Common.Act.{
  pure, raise, continue, ◌>>=◌, ◌>>◌, check, from_option, modify,
}

-- The texts of `CseServerError`.
pub data Reason : Type 0 where
  invalid_name negative_workers nfs_scale_down already_has not_in_valid_state : Reason
  not_an_upgrade_target update_not_supported no_nodes_specified : Reason

-- The exceptions, by what the `except` clauses tell apart: `NodeCreationError` with the names of
-- the nodes, `ClusterJoiningError`, any other `NodeOperationError`, any other
-- `ClusterOperationError`, and all the rest.
pub data Raised : Type 0 where
  server_error : Reason → Raised
  node_creation_error : List String → Raised
  joining_error node_operation_error cluster_operation_error other_error : Raised

-- The calls that may raise. Of calls that follow one another with nothing done between, the first
-- that raises counts, and one constructor stands for them.
pub data Call : Type 0 where
  get_entity get_entity_again exists_check get_template : Call
  -- `update_entity` to the phase in progress, to a failed phase, to the outcome of an operation,
  -- and in `_sync_def_entity`.
  mark_started mark_failed mark_outcome sync resolve_and_delete : Call
  -- The creation of a vApp, in the order of `_create_cluster_async`.
  get_org create_vapp set_metadata add_control_plane control_plane_ip expose init_cluster : Call
  set_ip_metadata add_workers join_cluster add_nfs delete_vapp delete_dnat_rule : Call
  -- Nodes.
  connect get_vapp drain delete_nodes rollback_nodes unexpose nodes_details : Call
  -- An upgrade.
  prepare_upgrade drain_control_plane upgrade_control_plane uncordon_control_plane : Call
  drain_node upgrade_node uncordon_node : String → Call
  read_worker_script drain_all upgrade_docker upgrade_cni uncordon_all : Call

-- `BehaviorTaskStatus`, but for ABORTED, which the service never sets.
pub data TaskStatus : Type 0 where
  running success error : TaskStatus

pub record Template : Type 0 where
  pub name : String
  pub revision : ℕ

pub record Entity : Type 0 where
  pub is_resolved : Bool
  pub phase : String
  pub external_id : Option String
  -- The names in `status.nodes`.
  pub workers : List String
  pub nfs : List String
  pub exposed : Bool
  pub distribution : Template

pub record World : Type 0 where
  -- None once the entity is deleted.
  pub entity : Option Entity
  -- The machines of the vApp.
  pub vapp_workers : List String
  pub vapp_nfs : List String
  pub has_vapp : Bool
  -- Whether the variables `vapp` and `expose_ip` of `_create_cluster_async` have a value.
  pub vapp_read : Bool
  pub ip_exposed : Bool
  -- The scripts that were run on the nodes, in their order.
  pub scripts : List Call
  -- `task_status`, None at first.
  pub task : Option TaskStatus
  pub is_async : Bool
  pub ended : Bool

abbrev pub M : Type 0 → Type 0
M A = World → Result Raised A × World

abbrev pub handled :
    {A : Type 0} → Result Raised A × World → (Raised → M A) → Result Raised A × World
handled (ok a, w) h = (ok a, w)
handled (err e, w) h = h e w

-- `try: m except Exception as err: h`
abbrev pub catch : {A : Type 0} → M A → (Raised → M A) → M A
catch m h w = handled (m w) h

abbrev pub logged : {A : Type 0} → Result Raised A × World → Result Raised (Unit {0}) × World
logged (r, w) = (ok tt, w)

-- `try: m except Exception: LOGGER.error(...)`. A thread that is joined leaves as much: an
-- exception ends it and is seen by no one.
abbrev pub attempt : {A : Type 0} → M A → M (Unit {0})
attempt m w = logged (m w)

-- `_update_task`; its message goes out over MQTT and is left out.
abbrev pub update_task : TaskStatus → M (Unit {0})
update_task s = modify (λ w. record w { task = some s })

abbrev pub set_async : M (Unit {0})
set_async = modify (λ w. record w { is_async = true })

-- `finally: self.context.end()`
abbrev pub end_context : World → World
end_context w = record w { ended = true }

abbrev pub changed : (Entity → Entity) → Option Entity → Option Entity
changed f none = none
changed f (some e) = some (f e)

abbrev pub set_phase : DefEntityOperation → DefEntityOperationStatus → Entity → Entity
set_phase o s e = record e { phase = phase_text o s }

abbrev pub answer : Option Raised → M (Unit {0})
answer none w = (ok tt, w)
answer (some e) w = (err e, w)

-- The entity that `get_entity` returns if the call succeeds.
abbrev pub found : Option Raised → M Entity
found (some e) w = (err e, w)
found none w = from_option w.entity other_error w

module _ (fails : Call → Option Raised) where
  abbrev pub call : Call → M (Unit {0})
  call c = answer (fails c)

  abbrev pub read_entity : Call → M Entity
  read_entity c = found (fails c)

  -- `_update_cluster_entity`
  unfoldable pub update_cluster_entity : Call → (Entity → Entity) → M (Unit {0})
  update_cluster_entity c f = do e ← read_entity c; modify (λ w. record w { entity = some (f e) })

  -- `_fail_operation`
  unfoldable pub fail_operation : DefEntityOperation → M (Unit {0})
  unfolding update_cluster_entity
  fail_operation o = update_cluster_entity mark_failed (set_phase o failed)

  -- The nodes that `_get_nodes_details` finds; it returns None, and no change, on any exception.
  unfoldable pub with_nodes : Option Raised → World → Entity → Entity
  with_nodes none w e = record e { workers = w.vapp_workers; nfs = w.vapp_nfs }
  with_nodes (some _) w e = e

  unfoldable pub linked : Bool → Option String → Bool
  linked true _ = true
  linked false none = false
  linked false (some _) = true

  unfoldable pub synced : Bool → (Entity → Entity) → M (Unit {0})
  unfolding with_nodes update_cluster_entity
  synced false f = pure tt
  synced true f = λ w. update_cluster_entity sync (λ e. with_nodes (fails nodes_details) w (f e)) w

  -- `_sync_def_entity`. Without a vApp, given or linked to the entity, it returns with no change.
  unfoldable pub sync_def_entity : Bool → (Entity → Entity) → M (Unit {0})
  unfolding linked synced
  sync_def_entity has_vapp f = do
    e ← read_entity get_entity_again
    synced (linked has_vapp e.external_id) f
