-- ===== src/Cluster/Tests.antt =====
-- Runs of the operations of a cluster, and witnesses of the theorems on them.
use container_service_extens.Common.{
  ℕ, zero, suc, String, ◌≡◌, ◌⊎◌, ◌↔◌, refl, true, false, Option, none, some, List, [], ◌∷◌, ok,
  err, ltb, Bool, not, ◌&&◌, ◌||◌,
}
use container_service_extens.Common.Int.{pos, is_positive}
use container_service_extens.Cluster.Phase.{
  create, update, upgrade, succeeded, in_progress, is_entity_busy, phase_text,
  from_phase-phase_text,
}
use container_service_extens.Cluster.World.{
  Raised, node_creation_error, joining_error, other_error, Call, init_cluster, add_workers,
  join_cluster, running, success, error, Template, Entity, World,
}
use container_service_extens.Cluster.Start.{
  workers_to_add, Spec, BrokerTemplate, update_cluster, upgrade_cluster, is_valid_cluster_name,
}
use container_service_extens.Cluster.Requests.{Idle, idle, Request, update_cluster-Request}
use container_service_extens.Cluster.Targets.{HasTarget, upgrade_cluster-HasTarget}
use container_service_extens.Cluster.Nodes.{Vcd}
use container_service_extens.Cluster.Resize.{monitor_resize}
use container_service_extens.Cluster.Failures.{holding, monitor_resize-joining_error}
use container_service_extens.Cluster.Create.{create_work, create_cluster_async}
use container_service_extens.Cluster.Rollback.{
  AllKnown, AllOrNothing, create_cluster_async-AllOrNothing,
}
use container_service_extens.Cluster.Orphans.{delete_cluster_async-orphan}
use container_service_extens.Cluster.Delete.{
  Deleted, delete_cluster_async, delete_cluster_async-Deleted,
}
mod Upgrades

abbrev old_template : Template
old_template = record { name = "ubuntu"; revision = 1 }

abbrev pub new_template : Template
new_template = record { name = "ubuntu"; revision = 2 }

abbrev templates : List BrokerTemplate
templates = record { name = "ubuntu"; revision = 2; upgrade_from = "ubuntu" ∷ [] } ∷ []

abbrev pub cluster : Entity
cluster = record {
  is_resolved = true;
  phase = phase_text create succeeded;
  external_id = some "vapp";
  workers = "worker-a" ∷ [];
  nfs = [];
  exposed = false;
  distribution = old_template;
}

abbrev pub world : World
world = record {
  entity = some cluster;
  vapp_workers = "worker-a" ∷ [];
  vapp_nfs = [];
  has_vapp = true;
  vapp_read = false;
  ip_exposed = false;
  scripts = [];
  task = some running;
  is_async = false;
  ended = false;
}

-- Three workers with the template of the cluster.
abbrev three_workers : Spec
three_workers = record {
  name = "c1";
  workers_count = pos 3;
  nfs_count = pos 0;
  expose = false;
  distribution = old_template;
  rollback_on_failure = true;
}

abbrev newer : Spec
newer = record {
  name = "c1";
  workers_count = pos 1;
  nfs_count = pos 0;
  expose = false;
  distribution = new_template;
  rollback_on_failure = true;
}

abbrev pub never : Call → Option Raised
never c = none

-- So many names.
abbrev names_of : ℕ → List String
names_of zero = []
names_of (suc n) = "worker-b" ∷ names_of n

abbrev calm : Vcd
calm = record { fails = never; added = λ c n. names_of n; kept = λ c n. true }

abbrev fails_to_join : Call → Option Raised
fails_to_join join_cluster = some joining_error
fails_to_join _ = none

abbrev fails_to_add : Call → Option Raised
fails_to_add add_workers = some (node_creation_error ("worker-b" ∷ []))
fails_to_add _ = none

abbrev fails_to_start : Call → Option Raised
fails_to_start init_cluster = some other_error
fails_to_start _ = none

abbrev with_fails : (Call → Option Raised) → Vcd
with_fails f = record calm { fails = f }

-- An entity that the defined entity framework has just made.
abbrev new_entity : Entity
new_entity = record cluster {
  is_resolved = false;
  phase = phase_text create in_progress;
  external_id = none;
  workers = [];
}

abbrev empty_world : World
empty_world = record world { entity = some new_entity; vapp_workers = []; has_vapp = false }

cluster-Idle : Idle world cluster
unfolding is_entity_busy
cluster-Idle =
    idle (record { operation = create; status = succeeded }) refl
      (from_phase-phase_text create succeeded) refl

calm-AllKnown : AllKnown calm
calm-AllKnown c r h = absurd cc

valid_name : is_valid_cluster_name "My-cluster1" ≡ true
unfolding is_valid_cluster_name
valid_name = refl

invalid_name : is_valid_cluster_name "1cluster" ≡ false
unfolding is_valid_cluster_name
invalid_name = refl

update_cluster-Request_example :
    Request update world (update_cluster never templates newer world)
    ⊎ Request upgrade world (update_cluster never templates newer world)
update_cluster-Request_example = update_cluster-Request never templates newer world

upgrade_cluster-HasTarget_example :
    ((upgrade_cluster never templates newer world).0 ≡ ok tt)
    ↔ HasTarget templates old_template new_template
upgrade_cluster-HasTarget_example =
    upgrade_cluster-HasTarget never refl refl templates newer world cluster cluster-Idle refl

more_wanted : is_positive (workers_to_add cluster three_workers) ≡ true
unfolding workers_to_add
more_wanted = refl

monitor_resize-joining_error_example :
    (monitor_resize calm
      (with_fails fails_to_join)
      calm
      three_workers
      (holding cluster world)).1.task
    ≡ some success
monitor_resize-joining_error_example =
    monitor_resize-joining_error calm (with_fails fails_to_join) calm three_workers world cluster
      more_wanted refl refl refl refl refl (λ c. refl) refl refl refl

create_cluster_async-AllOrNothing_example :
    AllOrNothing "vapp" (create_cluster_async calm "vapp" three_workers empty_world)
create_cluster_async-AllOrNothing_example =
    create_cluster_async-AllOrNothing calm calm-AllKnown "vapp" refl refl refl three_workers
      empty_world new_entity refl refl

abbrev at_failure : World
at_failure = (create_work (with_fails fails_to_start) "vapp" three_workers empty_world).1

abbrev after_failure : World
after_failure =
    (create_cluster_async (with_fails fails_to_start) "vapp" three_workers empty_world).1

started :
    create_work
      (with_fails fails_to_start)
      "vapp"
      three_workers
      (record empty_world { vapp_read = false; ip_exposed = false })
    ≡ (err other_error, at_failure)
unfolding create_work
started = refl

delete_cluster_async-orphan_example :
    (d : Entity) × (after_failure.entity ≡ some d)
    × ((delete_cluster_async never d after_failure).1.task ≡ some success)
    × ((delete_cluster_async never d after_failure).1.has_vapp ≡ true)
delete_cluster_async-orphan_example =
    delete_cluster_async-orphan (with_fails fails_to_start) "vapp" three_workers empty_world
      at_failure after_failure new_entity other_error never refl refl refl refl refl started refl
      refl refl refl

delete_cluster_async-Deleted_example : Deleted cluster (delete_cluster_async never cluster world)
delete_cluster_async-Deleted_example = delete_cluster_async-Deleted never cluster world
