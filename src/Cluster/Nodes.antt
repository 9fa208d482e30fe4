-- ===== src/Cluster/Nodes.antt =====
-- The threads of cluster_service_2_x.py that add nodes to a cluster and that delete them.
use text.Mathlib.Text.{starts_with}
use container_service_extens.Common.{
  ℕ, ◌-◌, ◌+◌, String, Bool, true, false, not, ◌||◌, Option, none, some, List, [], ◌∷◌, ◌++◌, elem,
  drop, length, if◌then◌else◌, Result, ok, err,
}
use container_service_extens.Common.Int.{ℤ, pos, negsuc, is_positive}
use container_service_extens.Cluster.Phase.{update}
use container_service_extens.Cluster.World.{
  Raised, node_creation_error, joining_error, node_operation_error, other_error, Call, get_entity,
  get_vapp, add_workers, add_nfs, join_cluster, rollback_nodes, connect, drain, delete_nodes,
  running, error, Entity, World, M, pure, raise, ◌>>=◌, ◌>>◌, catch, attempt, call, modify,
  update_task, from_option, server_error, no_nodes_specified, read_entity, fail_operation,
  sync_def_entity,
}
use container_service_extens.Cluster.Start.{Spec, workers_to_add, nfs_to_add}

-- What vCloud Director does during one thread.
pub record Vcd : Type 0 where
  pub fails : Call → Option Raised
  -- The names of the machines that a call of `_add_nodes` for so many leaves in the vApp.
  pub added : Call → ℕ → List String
  -- Whether a call of `_delete_nodes` that fails leaves the machine.
  pub kept : Call → String → Bool

abbrev pub when : Bool → M (Unit {0}) → M (Unit {0})
when true m = m
when false m = pure tt

-- `n` as the length of `range(n)`.
abbrev pub range_length : ℤ → ℕ
range_length (pos n) = n
range_length (negsuc n) = 0

unfoldable pub filter : (String → Bool) → List String → List String
filter p [] = []
filter p (x ∷ xs) = if p x then x ∷ filter p xs else filter p xs

-- `xs[n:]`
unfoldable pub slice_from : ℤ → List String → List String
slice_from (pos n) xs = drop n xs
slice_from (negsuc n) xs = drop (length xs - (n + 1)) xs

abbrev pub branch :
    {A : Type 0}
    → Result Raised A × World
    → (Raised → M (Unit {0}))
    → (A → M (Unit {0}))
    → Result Raised (Unit {0}) × World
branch (ok a, w) h k = k a w
branch (err e, w) h k = h e w

-- `m`, and what is left of its `try` block, with the `except` clause of `m` and that of the rest.
abbrev pub then_or :
    {A : Type 0} → M A → (Raised → M (Unit {0})) → (A → M (Unit {0})) → M (Unit {0})
then_or m h k w = branch (m w) h k

abbrev pub remaining : Option Raised → (String → Bool) → List String → List String → List String
remaining none kept names vms = filter (λ v. not (elem v names)) vms
remaining (some r) kept names vms = filter (λ v. not (elem v names) || kept v) vms

module _ (vcd : Vcd) where
  -- `_add_nodes` for workers.
  unfoldable pub add_worker_nodes : ℤ → M (Unit {0})
  add_worker_nodes n = do
    modify
        (λ w. record w { vapp_workers = w.vapp_workers ++ vcd.added add_workers (range_length n) })
    call vcd.fails add_workers

  unfoldable pub add_nfs_nodes : ℤ → M (Unit {0})
  add_nfs_nodes n = do
    modify (λ w. record w { vapp_nfs = w.vapp_nfs ++ vcd.added add_nfs (range_length n) })
    call vcd.fails add_nfs

  -- `_delete_nodes`
  unfoldable pub delete_named : Call → List String → M (Unit {0})
  delete_named c names = do
    modify (λ w. record w {
      vapp_workers = remaining (vcd.fails c) (vcd.kept c) names w.vapp_workers;
      vapp_nfs = remaining (vcd.fails c) (vcd.kept c) names w.vapp_nfs;
    })
    call vcd.fails c

  -- The end of the `except` clauses.
  unfoldable pub end_failed : Bool → M (Unit {0})
  unfolding fail_operation sync_def_entity
  end_failed has_vapp = do
    attempt (fail_operation vcd.fails update)
    attempt (sync_def_entity vcd.fails has_vapp (λ e. e))
    update_task error

  -- The `except` clauses of `_create_nodes_async`. `ClusterJoiningError` has no `node_names`: the
  -- message that reads them raises AttributeError, inside the clause.
  unfoldable pub adding_failed : Bool → Bool → Raised → M (Unit {0})
  unfolding delete_named end_failed
  adding_failed true has_vapp (node_creation_error names) = do
    update_task running
    attempt (delete_named rollback_nodes names)
    end_failed has_vapp
  adding_failed true has_vapp joining_error = raise other_error
  adding_failed rollback has_vapp r = end_failed has_vapp

  unfoldable pub add_workers_step : ℤ → M (Unit {0})
  unfolding add_worker_nodes
  add_workers_step n = do
    update_task running
    add_worker_nodes n
    update_task running
    call vcd.fails join_cluster
    update_task running

  unfoldable pub add_nfs_step : ℤ → M (Unit {0})
  unfolding add_nfs_nodes
  add_nfs_step n = do update_task running; add_nfs_nodes n; update_task running

  unfoldable pub add_both : ℤ → ℤ → M (Unit {0})
  unfolding add_workers_step add_nfs_step
  add_both workers nfs = do
    when (is_positive workers) (add_workers_step workers)
    when (is_positive nfs) (add_nfs_step nfs)
    update_task running

  -- The sysadmin client is taken before the `try`; `rollback` is true until the input is read.
  unfoldable pub create_nodes_async : Spec → M (Unit {0})
  unfolding adding_failed add_both workers_to_add nfs_to_add
  create_nodes_async spec = do
    call vcd.fails connect
    then_or (read_entity vcd.fails get_entity) (adding_failed true false) λ e.
        then_or (call vcd.fails get_vapp) (adding_failed spec.rollback_on_failure false) λ _.
          catch (add_both (workers_to_add e spec) (nfs_to_add e spec))
            (adding_failed spec.rollback_on_failure true)

  -- `except (NodeOperationError, ScriptExecutionError)`
  unfoldable pub drain_failed : Raised → M (Unit {0})
  drain_failed (node_creation_error names) = pure tt
  drain_failed node_operation_error = pure tt
  drain_failed r = raise r

  unfoldable pub drain_workers : List String → M (Unit {0})
  unfolding drain_failed
  drain_workers [] = pure tt
  drain_workers (n ∷ ns) = catch (do update_task running; call vcd.fails drain) drain_failed

  unfoldable pub drain_and_delete : List String → M (Unit {0})
  unfolding drain_workers delete_named
  drain_and_delete names = do
    drain_workers (filter (λ n. starts_with "worker" n) names)
    update_task running
    delete_named delete_nodes names
    update_task running

  -- The nodes named, or the workers past the number that the input, if there is one, desires.
  unfoldable pub nodes_to_delete : List String → Option ℤ → Entity → Option (List String)
  unfolding slice_from
  nodes_to_delete [] none e = none
  nodes_to_delete [] (some desired) e = some (slice_from desired e.workers)
  nodes_to_delete (n ∷ ns) desired e = some (n ∷ ns)

  -- The entity is read and the clients are taken before the `try`.
  unfoldable pub delete_nodes_async : List String → Option ℤ → M (Unit {0})
  unfolding nodes_to_delete drain_and_delete end_failed
  delete_nodes_async names desired = do
    e ← read_entity vcd.fails get_entity
    nodes ← from_option (nodes_to_delete names desired e) (server_error no_nodes_specified)
    call vcd.fails get_vapp
    catch (drain_and_delete nodes) λ r. end_failed true
