-- ===== src/Cluster/Upgrade.antt =====
-- cluster_service_2_x.py: `_upgrade_cluster_async`, the thread that upgrades the software of a cluster.
-- The comparison of semantic versions is a parameter. A script counts as run once it is sent to the
-- machines. Of what is stored at the end, the model has the template and the phase.
use Prim.Native.String.{String, compare}
use Prim.Native.Nat.{Ordering}
use container_service_extens.Common.{
  ℕ, Bool, true, false, not, ◌||◌, ltb, Option, List, [], ◌∷◌, ◌++◌,
}
use container_service_extens.Cluster.Phase.{upgrade, succeeded}
use container_service_extens.Cluster.World.{
  Raised, Call, get_entity, get_vapp, prepare_upgrade, drain_control_plane, upgrade_control_plane,
  uncordon_control_plane, drain_node, upgrade_node, uncordon_node, read_worker_script, drain_all,
  upgrade_docker, upgrade_cni, uncordon_all, set_metadata, mark_outcome, running, success, error,
  Template, M, pure, catch, ◌>>◌, attempt, modify, update_task, set_phase, call, read_entity,
  update_cluster_entity, fail_operation, sync_def_entity,
}
use container_service_extens.Cluster.Nodes.{when, then_or}
use container_service_extens.Cluster.Resize.{ended}

pub record Version : Type 0 where
  pub major : ℕ
  pub minor : ℕ
  pub patch : ℕ

-- The software of a cluster, or of a template.
pub record Software : Type 0 where
  pub docker : String
  pub kubernetes : Version
  pub cni : Version

pub record Parts : Type 0 where
  pub docker : Bool
  pub kubernetes : Bool
  pub cni : Bool

unfoldable pub later_text : String → String → Bool
later_text s t = elim (compare s t) [ Ordering.gt ↦ true | _ ↦ false ]

-- What is upgraded: Docker's versions are compared as texts.
unfoldable pub parts_to_upgrade : (Version → Version → Bool) → Software → Software → Parts
unfolding later_text
parts_to_upgrade newer target current = record {
  docker = later_text target.docker current.docker;
  kubernetes = not (newer current.kubernetes target.kubernetes);
  cni =
      newer target.cni current.cni
      || ltb current.kubernetes.major target.kubernetes.major
      || ltb current.kubernetes.minor target.kubernetes.minor;
}

module _ (fails : Call → Option Raised) where
  -- The task is told, and a script is run.
  unfoldable pub run_step : Call → M (Unit {0})
  run_step c = do
    update_task running
    modify (λ w. record w { scripts = w.scripts ++ (c ∷ []) })
    call fails c

  unfoldable pub upgrade_nodes : List String → M (Unit {0})
  unfolding run_step
  upgrade_nodes [] = pure tt
  upgrade_nodes (n ∷ ns) = do
    run_step (drain_node n)
    run_step (upgrade_node n)
    run_step (uncordon_node n)
    upgrade_nodes ns

  unfoldable pub upgrade_kubernetes : List String → M (Unit {0})
  unfolding run_step upgrade_nodes
  upgrade_kubernetes workers = do
    run_step drain_control_plane
    run_step upgrade_control_plane
    run_step uncordon_control_plane
    call fails read_worker_script
    upgrade_nodes workers

  unfoldable pub upgrade_parts : Parts → List String → M (Unit {0})
  unfolding run_step upgrade_kubernetes
  upgrade_parts parts workers = do
    when parts.kubernetes (upgrade_kubernetes workers)
    when (parts.docker || parts.cni) (run_step drain_all)
    when parts.docker (run_step upgrade_docker)
    when parts.cni (run_step upgrade_cni)
    run_step uncordon_all

  unfoldable pub record_upgraded : Template → M (Unit {0})
  unfolding update_cluster_entity
  record_upgraded template = do
    update_task running
    call fails set_metadata
    update_cluster_entity fails mark_outcome
        (λ e. set_phase upgrade succeeded (record e { distribution = template }))
    update_task success

  unfoldable pub upgrade_failed : Bool → M (Unit {0})
  unfolding fail_operation sync_def_entity
  upgrade_failed has_vapp = do
    attempt (fail_operation fails upgrade)
    attempt (sync_def_entity fails has_vapp (λ e. e))
    update_task error

  unfoldable pub upgrade_work : Parts → Template → List String → M (Unit {0})
  unfolding upgrade_parts record_upgraded
  upgrade_work parts template workers = do
    call fails prepare_upgrade
    upgrade_parts parts workers
    record_upgraded template

  -- `current` is the software that the status of the entity names. The variable `vapp` has a value once
  -- the vApp is read.
  unfoldable pub upgrade_cluster_async :
      (Version → Version → Bool) → Software → Software → Template → M (Unit {0})
  unfolding parts_to_upgrade upgrade_work upgrade_failed
  upgrade_cluster_async newer target current template w = ended (
      then_or (read_entity fails get_entity) (λ r. upgrade_failed false)
        (λ e.
          then_or (call fails get_vapp) (λ r. upgrade_failed false)
            λ _.
              catch (upgrade_work (parts_to_upgrade newer target current) template e.workers)
                λ r. upgrade_failed true)
        w)
