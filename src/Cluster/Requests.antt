-- ===== src/Cluster/Requests.antt =====
-- What a request promises, apart from the data it reads: one transition of the entity and the task.
-- The requests of cluster_service_2_x.py refine it.
use container_service_extens.Common.{
  ◌⊎◌, inl, inr, ◌≡◌, subst, Bool, true, false, not, Option, none, some, List, Result, ok, err,
  arith,
}
use container_service_extens.Common.Int.{is_negative}
use container_service_extens.Cluster.Phase.{
  DefEntityOperation, delete, update, upgrade, DefEntityPhase, in_progress, failed, from_phase,
  is_entity_busy,
}
use container_service_extens.Cluster.World.{
  TaskStatus, Raised, server_error, other_error, not_an_upgrade_target, Call, get_entity,
  mark_started, mark_failed, running, error, Entity, World, set_phase, update_task, set_async, ◌>>◌,
  handled, raise, continue, logged,
}
use container_service_extens.Cluster.Start.{
  Spec, BrokerTemplate, resize_cluster, delete_cluster, upgrade_cluster, update_cluster,
  needs_resize, nfs_to_add, is_ready, dispatch_update, start_upgrade, mark_or_fail,
}
use container_service_extens.Cluster.Cases.{
  check-cases, from_option-cases, found-cases, update-outcome,
}

-- The cluster is idle: its phase is one that no operation is in.
pub data Idle (w : World) (e : Entity) : Type 0 where
  idle :
      (p : DefEntityPhase)
      → w.entity ≡ some e
      → from_phase e.phase ≡ some p
      → is_entity_busy p ≡ false
      → Idle w e

abbrev Outcome : Type 0
Outcome = Result Raised (Unit {0}) × World

pub data Request (o : DefEntityOperation) (w : World) : Outcome → Type 0 where
  -- The cluster was idle and is now busy with the operation; the thread goes on.
  starts :
      (e : Entity)
      → Idle w e
      → Request o w (
        ok tt,
        record w {
          entity = some (set_phase o in_progress e);
          task = some running;
          is_async = true;
        },
      )
  -- Nothing has changed.
  refuses : (r : Raised) → Request o w (err r, w)
  -- The cluster was idle, and could not be marked as busy; the task ends, or is left running.
  leaves_idle :
      (e : Entity)
      → Idle w e
      → (r : Raised) (t : TaskStatus) → Request o w (err r, record w { task = some t })
  -- The cluster was idle, and the operation is now one that failed.
  fails_at_once :
      (e : Entity)
      → Idle w e
      → (r : Raised) → Request o w (err r, record w { entity = some (set_phase o failed e) })

Idle-entity : (w : World) (e d : Entity) → Idle w e → w.entity ≡ some d → Idle w d
Idle-entity w e d (idle q p h f) p' = idle q p' (subst (λ x. from_phase x.phase ≡ some q) same h) f
  where
    same : e ≡ d
    same = cc

module _ (fails : Call → Option Raised) where
  marked-Request :
      (o : DefEntityOperation) (w : World) (e : Entity)
      → Idle w e
      → Request o w ((do update_task running; mark_or_fail fails o; set_async) w)
  unfolding mark_or_fail
  marked-Request o w e i =
      update-outcome
        (λ x. Request o w (continue (handled x λ r. do update_task error; raise r) λ _. set_async))
        fails mark_started (set_phase o in_progress) (record w { task = some running })
        (λ r. leaves_idle e i r error) (λ d p. starts d (Idle-entity w e d i p))

  ready-free : (e : Entity) (q : DefEntityPhase) → is_ready e q ≡ true → is_entity_busy q ≡ false
  unfolding is_ready
  ready-free e q h = ground arith

  pub resize_cluster-Request :
      (spec : Spec) (w : World) → Request update w (resize_cluster fails spec w)
  unfolding resize_cluster
  resize_cluster-Request spec w = found-cases Q (fails get_entity) _ w refuses λ e p.
      from_option-cases Q (from_phase e.phase) other_error _ w (refuses other_error) λ q h.
        check-cases Q (not (is_negative spec.workers_count)) _ _ w (refuses _) λ _.
          check-cases Q (not (is_negative (nfs_to_add e spec))) _ _ w (refuses _) λ _.
            check-cases Q (needs_resize e spec) _ _ w (refuses _) λ _.
              check-cases Q (is_ready e q) _ _ w (refuses _)
                λ free. marked-Request update w e (idle q p h (ready-free e q free))
    where
      Q : Outcome → Type 0
      Q = Request update w

  pub delete_cluster-Request : (w : World) → Request delete w (delete_cluster fails w)
  unfolding delete_cluster
  delete_cluster-Request w = found-cases (Request delete w) (fails get_entity) _ w refuses λ e p.
      from_option-cases (Request delete w) (from_phase e.phase) other_error _ w
        (refuses other_error)
        λ q h. check-cases (Request delete w) (not (is_entity_busy q)) _ _ w (refuses _) λ free.
          update-outcome (λ x. Request delete w (continue x λ _. set_async)) fails mark_started
            (set_phase delete in_progress) (record w { task = some running })
            (λ r. leaves_idle e (idle q p h (not_busy q free)) r running)
            (λ d p'. starts d (Idle-entity w e d (idle q p h (not_busy q free)) p'))
    where
      not_busy : (q : DefEntityPhase) → not (is_entity_busy q) ≡ true → is_entity_busy q ≡ false
      not_busy q h = ground arith

  start_upgrade-Request :
      (t : Option BrokerTemplate) (w : World) (e : Entity)
      → Idle w e
      → Request upgrade w (start_upgrade fails t w)
  unfolding start_upgrade
  start_upgrade-Request (some t) w e i = marked-Request upgrade w e i
  start_upgrade-Request none w e i =
      update-outcome
        (λ x.
          Request upgrade w (continue (logged x) λ _. raise (server_error not_an_upgrade_target)))
        fails mark_failed (set_phase upgrade failed) w (λ r. refuses _)
        (λ d p'. fails_at_once d (Idle-entity w e d i p') _)

  pub upgrade_cluster-Request :
      (templates : List BrokerTemplate) (spec : Spec) (w : World)
      → Request upgrade w (upgrade_cluster fails templates spec w)
  unfolding upgrade_cluster
  upgrade_cluster-Request templates spec w = found-cases Q (fails get_entity) _ w refuses λ e p.
      from_option-cases Q (from_phase e.phase) other_error _ w (refuses other_error) λ q h.
        check-cases Q (is_ready e q) _ _ w (refuses _)
          λ free. start_upgrade-Request _ w e (idle q p h (ready-free e q free))
    where
      Q : Outcome → Type 0
      Q = Request upgrade w

  dispatch_update-Request :
      (a b : Bool) (templates : List BrokerTemplate) (spec : Spec) (w : World)
      → Request update w (dispatch_update fails a b templates spec w)
        ⊎ Request upgrade w (dispatch_update fails a b templates spec w)
  unfolding dispatch_update
  dispatch_update-Request false b templates spec w = inl (resize_cluster-Request spec w)
  dispatch_update-Request true false templates spec w =
      inr (upgrade_cluster-Request templates spec w)
  dispatch_update-Request true true templates spec w = inl (refuses _)

  -- A request to update a cluster is a request to resize it or one to upgrade it: it starts the
  -- operation on a cluster that was idle, which is then in progress and its task running; or it
  -- fails, and changes nothing, or only the task, or it marks a cluster that was idle as one whose
  -- operation failed.
  pub update_cluster-Request :
      (templates : List BrokerTemplate) (spec : Spec) (w : World)
      → Request update w (update_cluster fails templates spec w)
        ⊎ Request upgrade w (update_cluster fails templates spec w)
  unfolding update_cluster
  update_cluster-Request templates spec w =
      found-cases (λ x. Request update w x ⊎ Request upgrade w x) (fails get_entity) _ w
        (λ r. inl (refuses r)) λ e p. dispatch_update-Request _ _ templates spec w
