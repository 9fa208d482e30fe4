-- ===== src/Cluster/Ends.antt =====
-- How the threads that monitor an operation end.
use container_service_extens.Common.{
  ◌≡◌, sym, subst, ◌⊎◌, inl, inr, refl, Bool, true, false, Option, none, some, List, Result, ok,
  err, String,
}
use container_service_extens.Cluster.Phase.{
  update, succeeded, DefEntityOperation, DefEntityOperationStatus, phase_text,
}
use container_service_extens.Cluster.World.{
  Raised, Call, get_entity_again, nodes_details, sync, TaskStatus, running, success, error, Entity,
  World, handled, continue, update_task, set_phase, sync_def_entity, synced, linked, with_nodes,
}
use container_service_extens.Cluster.Cases.{found-cases, update-outcome}
use container_service_extens.Cluster.Nodes.{Vcd, end_failed}
use container_service_extens.Cluster.Resize.{
  ended, finish_update, finish_as, is_error, monitor_delete_nodes, delete_work,
}

abbrev pub Outcome : Type 0
Outcome = Result Raised (Unit {0}) × World

-- The phase of an entity, unless it is linked to no vApp.
pub data PhaseIs (o : DefEntityOperation) (s : DefEntityOperationStatus)
    : Option Entity → Type 0 where
  unlinked : (e : Entity) → e.external_id ≡ none → PhaseIs o s (some e)
  in_phase : (e : Entity) → e.phase ≡ phase_text o s → PhaseIs o s (some e)

pub data Final (o : DefEntityOperation) : Outcome → Type 0 where
  succeeds :
      (w : World)
      → w.task ≡ some success
      → w.ended ≡ true
      → PhaseIs o succeeded w.entity
      → Final o (ok tt, w)
  errors : (w : World) → w.task ≡ some error → w.ended ≡ true → Final o (ok tt, w)

-- What the work of a monitor leaves if nothing is raised.
abbrev Done : DefEntityOperation → World → Type 0
Done o w = (w.task ≡ some success) × PhaseIs o succeeded w.entity ⊎ (w.task ≡ some error)

pub data Work (o : DefEntityOperation) : Outcome → Type 0 where
  finishes : (w : World) → Done o w → Work o (ok tt, w)
  raises : (r : Raised) (w : World) → Work o (err r, w)

ended-Final :
    (vcd : Vcd) (o : DefEntityOperation) (x : Outcome)
    → Work o x
    → Final o (ended (handled x λ r. end_failed vcd false))
unfolding end_failed
ended-Final vcd o _ (finishes w (inl (t, p))) = succeeds _ t refl p
ended-Final vcd o _ (finishes w (inr t)) = errors _ t refl
ended-Final vcd o _ (raises r w) = errors _ refl refl

module _ (P : Outcome → Type 0) where
  synced-outcome :
      (fails : Call → Option Raised) (x : Option String) (f : Entity → Entity) (w : World)
      → ((r : Raised) → P (err r, w))
      → (x ≡ none → P (ok tt, w))
      → ((o : Option Raised) (e : Entity)
          → P (ok tt, record w { entity = some (with_nodes fails o w (f e)) }))
      → P (synced fails (linked fails false x) f w)
  unfolding synced linked
  synced-outcome fails none f w bad skip good = skip refl
  synced-outcome fails (some x) f w bad skip good =
      update-outcome P fails sync _ w bad λ e p. good (fails nodes_details) e

  pub sync-outcome :
      (fails : Call → Option Raised) (f : Entity → Entity) (w : World)
      → ((r : Raised) → P (err r, w))
      → ((e : Entity) → w.entity ≡ some e → e.external_id ≡ none → P (ok tt, w))
      → ((o : Option Raised) (e : Entity)
          → P (ok tt, record w { entity = some (with_nodes fails o w (f e)) }))
      → P (sync_def_entity fails false f w)
  unfolding sync_def_entity
  sync-outcome fails f w bad skip good =
      found-cases P (fails get_entity_again) _ w bad
        λ e p. synced-outcome fails e.external_id f w bad (skip e p) good

is_error-error : (t : Option TaskStatus) → is_error t ≡ true → t ≡ some error
is_error-error none h = absurd cc
is_error-error (some running) h = absurd cc
is_error-error (some success) h = absurd cc
is_error-error (some error) h = refl

with_nodes-phase :
    (fails : Call → Option Raised) (o : Option Raised) (w : World) (e : Entity)
    → (with_nodes fails o w e).phase ≡ e.phase
unfolding with_nodes
with_nodes-phase fails none w e = refl
with_nodes-phase fails (some r) w e = refl

stored-PhaseIs :
    (fails : Call → Option Raised) (o : Option Raised) (w : World) (s : DefEntityOperationStatus)
    (e : Entity)
    → PhaseIs update s (some (with_nodes fails o w (set_phase update s e)))
stored-PhaseIs fails o w s e = in_phase _ (with_nodes-phase fails o w (set_phase update s e))

module _ (vcd : Vcd) (f : Entity → Entity) where
  finish_as-Work :
      (b : Bool) (w : World) → (b ≡ true → w.task ≡ some error) → Work update (finish_as vcd b f w)
  unfolding finish_as
  finish_as-Work true w h =
      sync-outcome (Work update) vcd.fails _ w (λ r. raises r w)
        (λ e p n. finishes w (inr (h refl))) (λ o e. finishes _ (inr (h refl)))
  finish_as-Work false w h =
      sync-outcome (λ x. Work update (continue x λ _. update_task success)) vcd.fails _ w
        (λ r. raises r w)
        (λ e p n. finishes _ (inl (refl, subst (PhaseIs update succeeded) (sym p) (unlinked e n))))
        (λ o e. finishes _ (inl (refl, stored-PhaseIs vcd.fails o w succeeded (f e))))

  finish_update-Work : (w : World) → Work update (finish_update vcd f w)
  unfolding finish_update
  finish_update-Work w = finish_as-Work (is_error w.task) w (is_error-error w.task)

module _ (vcd : Vcd) where
  pub monitor_delete_nodes-Final :
      (vcd_delete : Vcd) (names : List String) (w : World)
      → Final update (monitor_delete_nodes vcd vcd_delete names w)
  unfolding monitor_delete_nodes delete_work
  monitor_delete_nodes-Final vcd_delete names w =
      ended-Final vcd update _ (finish_update-Work vcd _ _)
