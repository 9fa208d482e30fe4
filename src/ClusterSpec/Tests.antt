-- ===== src/ClusterSpec/Tests.antt =====
-- Requests for an update, and witnesses of the theorems on them.
use container_service_extens.Common.{
  String, ◌≡◌, ◌↔◌, arith, inl, inr, refl, true, false, Option, none, some, List, [], ◌∷◌, elem, ok,
  err,
}
use container_service_extens.Common.Int.{pos}
use container_service_extens.Cluster.World.{Raised, Call, Entity, World}
use container_service_extens.Cluster.Start.{Spec, resize_cluster, update_cluster}
use container_service_extens.ClusterSpec.Construct.{
  construct_cluster_spec_from_entity_status, spec_with,
}
use container_service_extens.ClusterSpec.Tree.{text, flatten_dictionary, find_diff_fields}
use container_service_extens.ClusterSpec.Update.{
  immutable, exclude_fields, has_key, validate_cluster_update_request_and_check_cluster_upgrade,
  template_revision, workers_count, nfs_count, valid_update_fields,
}
use container_service_extens.ClusterSpec.Changes.{
  Differs, Verdict, validate_cluster_update_request-Verdict, differing_iff,
}
use container_service_extens.ClusterSpec.Built.{
  Built, construct_cluster_spec_from_entity_status-Built,
}
use container_service_extens.ClusterSpec.Samples.{
  as_dict, status, antrea, reference, exposed_upgrade, other_network,
}
use container_service_extens.ClusterSpec.Dropped.{IsUpgrade, update_cluster-dropped_upgrade}

constructed :
    construct_cluster_spec_from_entity_status false false (some status)
    ≡ ok (spec_with false false status (some antrea))
unfolding construct_cluster_spec_from_entity_status
constructed = refl

construct_cluster_spec_from_entity_status-Built_example :
    Built false true
      (some status)
      (construct_cluster_spec_from_entity_status false true (some status))
construct_cluster_spec_from_entity_status-Built_example =
    construct_cluster_spec_from_entity_status-Built false true (some status)

reference_built : spec_with false false status (some antrea) ≡ reference
unfolding spec_with
reference_built = refl

network_refused :
    validate_cluster_update_request_and_check_cluster_upgrade as_dict other_network reference false
    ≡ err (
        immutable
          (("settings.ovdcNetwork", record { expected = text "net"; actual = text "other" }) ∷ []))
unfolding validate_cluster_update_request_and_check_cluster_upgrade find_diff_fields
network_refused = refl

abbrev changes : List String
changes = "settings.network.expose" ∷ "distribution.templateRevision" ∷ []

abbrev Changed : String → Type 0
Changed =
    Differs (exclude_fields false exposed_upgrade reference)
      (flatten_dictionary (as_dict reference)) (flatten_dictionary (as_dict exposed_upgrade))

changed_keys :
    (k : String)
    → has_key k (
        find_diff_fields
          (exclude_fields false exposed_upgrade reference)
          (as_dict exposed_upgrade)
          (as_dict reference))
      ≡ elem k changes
unfolding find_diff_fields exclude_fields
changed_keys k = refl

Changed-iff : (k : String) → (elem k changes ≡ true) ↔ Changed k
unfolding find_diff_fields exclude_fields
Changed-iff k = differing_iff _ _ _ k

Changed-IsUpgrade : IsUpgrade Changed
Changed-IsUpgrade = record {
  may_change = λ k h. may_change k ((Changed-iff k).1 h);
  template = inr ((Changed-iff template_revision).0 refl);
  same_number = λ h. elim h [
    | inl a ↦ absurd cc ((Changed-iff workers_count).1 a)
    | inr b ↦ absurd cc ((Changed-iff nfs_count).1 b)
  ];
}
  where
    may_change : (k : String) → elem k changes ≡ true → elem k valid_update_fields ≡ true
    may_change k h = ground arith

validate_cluster_update_request-Verdict_example : Verdict Changed (
    validate_cluster_update_request_and_check_cluster_upgrade as_dict exposed_upgrade reference
      false)
validate_cluster_update_request-Verdict_example =
    validate_cluster_update_request-Verdict as_dict exposed_upgrade reference false

abbrev template_entity : Entity
template_entity = record {
  is_resolved = true;
  phase = "CREATE:SUCCEEDED";
  external_id = some "vapp-1";
  workers = "node-a" ∷ [];
  nfs = [];
  exposed = false;
  distribution = record { name = "ubuntu"; revision = 1 };
}

abbrev world : World
world = record {
  entity = some template_entity;
  vapp_workers = "node-a" ∷ [];
  vapp_nfs = [];
  has_vapp = true;
  vapp_read = true;
  ip_exposed = false;
  scripts = [];
  task = none;
  is_async = false;
  ended = false;
}

abbrev wanted : Spec
wanted = record {
  name = "cluster";
  workers_count = pos 1;
  nfs_count = pos 0;
  expose = true;
  distribution = record { name = "ubuntu"; revision = 2 };
  rollback_on_failure = true;
}

abbrev never : Call → Option Raised
never c = none

update_cluster-dropped_upgrade_example :
    (validate_cluster_update_request_and_check_cluster_upgrade as_dict exposed_upgrade reference
        false
      ≡ ok true)
    × (update_cluster never [] wanted world ≡ resize_cluster never wanted world)
update_cluster-dropped_upgrade_example =
    update_cluster-dropped_upgrade as_dict exposed_upgrade reference false Changed-IsUpgrade
      (λ h. cc) never [] wanted template_entity world refl refl refl
