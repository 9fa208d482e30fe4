-- ===== src/Cluster/Failures.antt =====
-- What becomes of a failure in the thread that adds nodes.
use container_service_extens.Common.{
  ◌≡◌, refl, sym, ap, subst, Bool, true, false, not, ◌&&◌, Option, none, some, List, ok, err,
  String,
}
use container_service_extens.Common.Int.{ℤ, pos, negsuc, is_positive, is_negative}
use container_service_extens.Cluster.World.{
  Raised, node_creation_error, joining_error, Call, get_entity, get_entity_again, get_template,
  connect, get_vapp, add_workers, join_cluster, sync, running, success, error, Entity, World,
  sync_def_entity, synced, linked, update_cluster_entity, handled, continue, update_task,
}
use container_service_extens.Cluster.Start.{Spec, workers_to_add}
use container_service_extens.Cluster.Nodes.{
  Vcd, create_nodes_async, add_both, add_workers_step, add_worker_nodes, adding_failed, end_failed,
}
use container_service_extens.Cluster.Resize.{
  ended, finish_update, finish_as, is_error, monitor_resize, resize_work, run_creation,
  run_deletion, unexpose_changes,
}
use container_service_extens.Cluster.Ends.{sync-outcome, Outcome}

positive_not_negative : (n : ℤ) → is_positive n ≡ true → is_negative n ≡ false
positive_not_negative (pos n) h = refl
positive_not_negative (negsuc n) h = absurd cc

abbrev pub holding : Entity → World → World
holding e w = record w { entity = some e }

adding_failed-task :
    (vcd : Vcd) (rollback has_vapp : Bool) (names : List String) (w : World)
    → (adding_failed vcd rollback has_vapp (node_creation_error names) w).1.task ≡ some error
unfolding adding_failed end_failed
adding_failed-task vcd true has_vapp names w = refl
adding_failed-task vcd false has_vapp names w = refl

abbrev end_update : Vcd → (Entity → Entity) → World → Outcome
end_update vcd f v = ended (handled (finish_update vcd f v) λ r. end_failed vcd false)

end_update-error :
    (vcd : Vcd) (f : Entity → Entity) (v : World)
    → v.task ≡ some error
    → (end_update vcd f v).1.task ≡ some error
unfolding finish_update finish_as end_failed
end_update-error vcd f v h =
    subst
      (λ b. (ended (handled (finish_as vcd b f v) λ r. end_failed vcd false)).1.task ≡ some error)
      (ap is_error (sym h))
      (sync-outcome (λ x. (ended (handled x λ r. end_failed vcd false)).1.task ≡ some error)
        vcd.fails _ v (λ r. refl) (λ e p n. h) (λ o e. h))

synced-ok :
    (fails : Call → Option Raised) (x : Option String) (f : Entity → Entity) (v : World)
    (d : Entity)
    → ((c : Call) → fails c ≡ none)
    → v.entity ≡ some d
    → (synced fails (linked fails false x) f v).0 ≡ ok tt
unfolding synced linked update_cluster_entity
synced-ok fails none f v d all p = refl
synced-ok fails (some x) f v d all p = rw (all sync, p) refl

sync-ok :
    (fails : Call → Option Raised) (f : Entity → Entity) (v : World) (d : Entity)
    → ((c : Call) → fails c ≡ none)
    → v.entity ≡ some d
    → (sync_def_entity fails false f v).0 ≡ ok tt
unfolding sync_def_entity
sync-ok fails f v d all p =
    rw (all get_entity_again, p)
      (synced-ok fails d.external_id f (record v { entity = some d }) d all refl)

succeeded-task :
    (vcd : Vcd) (x : Outcome)
    → x.0 ≡ ok tt
    → (ended (handled (continue x λ _. update_task success) λ r. end_failed vcd false)).1.task
      ≡ some success
succeeded-task vcd (ok u, w) h = refl
succeeded-task vcd (err r, w) h = absurd cc

end_update-success :
    (vcd : Vcd) (f : Entity → Entity) (v : World) (d : Entity)
    → ((c : Call) → vcd.fails c ≡ none)
    → v.entity ≡ some d
    → v.task ≡ some running
    → (end_update vcd f v).1.task ≡ some success
unfolding finish_update finish_as
end_update-success vcd f v d all p h =
    subst
      (λ b. (ended (handled (finish_as vcd b f v) λ r. end_failed vcd false)).1.task ≡ some success)
      (ap is_error (sym h)) (succeeded-task vcd _ (sync-ok vcd.fails _ v d all p))

module _ (vcd vcd_create vcd_delete : Vcd) (spec : Spec) (w : World) (e : Entity)
    (more : is_positive (workers_to_add e spec) ≡ true) (reads : vcd.fails get_entity ≡ none)
    (has_template : vcd.fails get_template ≡ none) (connects : vcd_create.fails connect ≡ none)
    (child_reads : vcd_create.fails get_entity ≡ none)
    (has_vapp : vcd_create.fails get_vapp ≡ none) where
  -- Where the thread that adds the nodes leaves the world.
  abbrev after : World
  after = (create_nodes_async vcd_create spec (holding e w)).1

  monitor_resize-after :
      monitor_resize vcd vcd_create vcd_delete spec (holding e w)
      ≡ end_update vcd (unexpose_changes vcd (e.exposed && not spec.expose)) after
  unfolding monitor_resize resize_work run_creation run_deletion
  monitor_resize-after = rw (reads, more, positive_not_negative _ more, has_template) refl

  after_task-joining :
      vcd_create.fails add_workers ≡ none
      → vcd_create.fails join_cluster ≡ some joining_error
      → spec.rollback_on_failure ≡ true
      → (create_nodes_async vcd_create spec (holding e w)).1.task ≡ some running
  unfolding create_nodes_async add_both add_workers_step add_worker_nodes adding_failed
  after_task-joining adds joins rollback =
      rw (connects, child_reads, has_vapp, more, adds, joins, rollback) refl

  after_entity-joining :
      vcd_create.fails add_workers ≡ none
      → vcd_create.fails join_cluster ≡ some joining_error
      → spec.rollback_on_failure ≡ true
      → (create_nodes_async vcd_create spec (holding e w)).1.entity ≡ some e
  unfolding create_nodes_async add_both add_workers_step add_worker_nodes adding_failed
  after_entity-joining adds joins rollback =
      rw (connects, child_reads, has_vapp, more, adds, joins, rollback) refl

  after_task-creation :
      (names : List String)
      → vcd_create.fails add_workers ≡ some (node_creation_error names)
      → (create_nodes_async vcd_create spec (holding e w)).1.task ≡ some error
  unfolding create_nodes_async add_both add_workers_step add_worker_nodes
  after_task-creation names adds =
      rw (connects, child_reads, has_vapp, more, adds)
        (adding_failed-task vcd_create spec.rollback_on_failure true names _)

  -- A cluster needs more workers, and its entity, its template and its vApp are read. The new workers
  -- are created, but joining them to the cluster fails, and the user wants a rollback: if all calls of
  -- the monitor succeed, the task is reported as SUCCESS.
  pub monitor_resize-joining_error :
      ((c : Call) → vcd.fails c ≡ none)
      → vcd_create.fails add_workers ≡ none
      → vcd_create.fails join_cluster ≡ some joining_error
      → spec.rollback_on_failure ≡ true
      → (monitor_resize vcd vcd_create vcd_delete spec (holding e w)).1.task ≡ some success
  monitor_resize-joining_error all adds joins rollback =
      subst (λ x. x.1.task ≡ some success) (sym monitor_resize-after)
        (end_update-success vcd _ after e all (after_entity-joining adds joins rollback)
          (after_task-joining adds joins rollback))

  -- A cluster needs more workers, and its entity, its template and its vApp are read. If the creation
  -- of the new workers fails, the task ends as ERROR, whatever the other calls do.
  monitor_resize-creation_error :
      (names : List String)
      → vcd_create.fails add_workers ≡ some (node_creation_error names)
      → (monitor_resize vcd vcd_create vcd_delete spec (holding e w)).1.task ≡ some error
  monitor_resize-creation_error names adds =
      subst (λ x. x.1.task ≡ some error) (sym monitor_resize-after)
        (end_update-error vcd _ after (after_task-creation names adds))
