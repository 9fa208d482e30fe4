-- ===== src/Cluster/Counts.antt =====
-- The number of nodes after a resize in which nothing fails.
pub mod Lists
use container_service_extens.Common.{
  ◌⊎◌, leb, nat_eq, zero, suc, ◌-◌, ◌≤◌, ◌≡◌, ◌≢◌, sym, subst, Bool, not, Option, none, some,
  Option-cases, List, ◌++◌, drop, elem, Result, err, String, arith, if◌then◌else◌, ◌==◌, eq_iff,
  eq_refl,
}
use container_service_extens.Common.Int.{negsuc, minus, is_positive, is_negative}
use container_service_extens.Cluster.World.{
  Raised, Call, add_workers, add_nfs, TaskStatus, running, success, error, Entity, World, handled,
  fail_operation, M, continue, update_task, catch,
}
use container_service_extens.Cluster.Start.{Spec, workers_to_add, nfs_to_add}
use container_service_extens.Cluster.Nodes.{Vcd, when, filter, slice_from, range_length, remaining}
use container_service_extens.Cluster.Resize.{ended, is_error}

-- The cluster's entity, with the task of the request running.
abbrev pub at_work : Entity → World → World
at_work e w = record w { entity = some e; task = some running }

module _ (vcd vcd_create vcd_delete : Vcd) (spec : Spec) (e : Entity)
    (all : (c : Call) → vcd.fails c ≡ none) (all_create : (c : Call) → vcd_create.fails c ≡ none)
    (all_delete : (c : Call) → vcd_delete.fails c ≡ none) where
  more_workers : List String → List String
  more_workers ws =
      if is_positive (workers_to_add e spec)
      then ws ++ vcd_create.added add_workers (range_length (workers_to_add e spec))
      else ws

  more_nfs : List String → List String
  more_nfs ns =
      if is_positive (nfs_to_add e spec)
      then ns ++ vcd_create.added add_nfs (range_length (nfs_to_add e spec))
      else ns

  abbrev grown : World → World
  grown w = record w { vapp_workers = more_workers w.vapp_workers; vapp_nfs = more_nfs w.vapp_nfs }

  abbrev without : List String → World → World
  without names w = record w {
    vapp_workers = filter (λ v. not (elem v names)) w.vapp_workers;
    vapp_nfs = filter (λ v. not (elem v names)) w.vapp_nfs;
  }

  abbrev shrunk : World → World
  shrunk w =
      if is_negative (workers_to_add e spec)
      then without (slice_from spec.workers_count e.workers) w
      else w
