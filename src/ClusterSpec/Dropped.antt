-- ===== src/ClusterSpec/Dropped.antt =====
-- A request that the validator takes for an upgrade, and what the cluster service makes of it.
use container_service_extens.Common.{
  String, ◌≡◌, ◌≢◌, refl, sym, subst, ◌∙◌, ◌⊎◌, Bool, true, false, ◌&&◌, Option, none, some, List,
  elem, Result, ok,
}
use container_service_extens.Cluster.World.{
  Raised, Call, get_entity, Entity, World, from_option, other_error,
}
use container_service_extens.Cluster.Start.{
  Spec, BrokerTemplate, same_flag, same_size, dispatch_update, resize_cluster, update_cluster,
}
use container_service_extens.ClusterSpec.Model.{ClusterSpec}
use container_service_extens.ClusterSpec.Tree.{Members, flatten_dictionary}
use container_service_extens.ClusterSpec.Update.{
  ValidationError, exclude_fields, valid_update_fields, workers_count, nfs_count, template_name,
  template_revision, validate_cluster_update_request_and_check_cluster_upgrade,
}
use container_service_extens.ClusterSpec.Changes.{
  Differs, Verdict, resized, upgraded, refused_both, refused_fields,
  validate_cluster_update_request-Verdict,
}

-- All fields that differ may be changed, the template is one of them, and no number of nodes is.
pub record IsUpgrade (D : String → Type 0) : Type 0 where
  pub may_change : (k : String) → D k → elem k valid_update_fields ≡ true
  pub template : D template_name ⊎ D template_revision
  pub same_number : ¬ (D workers_count ⊎ D nfs_count)

upgrade_accepted :
    (D : String → Type 0) (r : Result ValidationError Bool)
    → IsUpgrade D
    → Verdict D r
    → r ≡ ok true
upgrade_accepted D _ u (resized v t) = absurd (t u.template)
upgrade_accepted D _ u (upgraded v t n) = refl
upgrade_accepted D _ u (refused_both v t n) = absurd (u.same_number n)
upgrade_accepted D _ u (refused_fields c k d v all) = cc (u.may_change k d)

flags_differ : (a b : Bool) → a ≢ b → same_flag a b ≡ false
unfolding same_flag
flags_differ true true h = absurd (h refl)
flags_differ true false h = refl
flags_differ false true h = refl
flags_differ false false h = absurd (h refl)

module _ (fails : Call → Option Raised) (templates : List BrokerTemplate) (spec : Spec) where
  dispatched :
      (size flag same : Bool) (w : World)
      → flag ≡ false
      → dispatch_update fails (size && flag) same templates spec w ≡ resize_cluster fails spec w
  unfolding dispatch_update
  dispatched true true same w h = absurd cc
  dispatched true false same w h = refl
  dispatched false flag same w h = refl

  found_entity :
      (e : Entity) (x : Option Entity) (w : World)
      → x ≡ some e
      → from_option x other_error w ≡ (ok e, w)
  found_entity e x w h = subst (λ y. from_option y other_error w ≡ (ok e, w)) (sym h) refl

  unread :
      (r : Raised) (w : World)
      → fails get_entity ≡ some r
      → update_cluster fails templates spec w ≡ resize_cluster fails spec w
  unfolding update_cluster resize_cluster
  unread r w q = rw q refl

  flag_first :
      (o : Option Raised) (e : Entity) (w : World)
      → fails get_entity ≡ o
      → w.entity ≡ some e
      → same_flag e.exposed spec.expose ≡ false
      → update_cluster fails templates spec w ≡ resize_cluster fails spec w
  unfolding update_cluster
  flag_first none e w q p h =
      rw (q, found_entity e w.entity w p) (dispatched (same_size e spec) _ _ w h)
  flag_first (some r) e w q p h = unread r w q

module _ (to_dict : ClusterSpec → Members) (input reference : ClusterSpec) (is_tkgm : Bool) where
  -- A cluster whose entity has the exposure of the reference is to be updated to a specification that
  -- exposes it and the reference does not, or the other way round. If the template differs too, but no
  -- number of nodes and no field that may not be changed, the validator accepts the request as an upgrade,
  -- and the cluster service does what it does for a resize.
  pub update_cluster-dropped_upgrade :
      IsUpgrade (
        Differs
          (exclude_fields is_tkgm input reference)
          (flatten_dictionary (to_dict reference))
          (flatten_dictionary (to_dict input)))
      → input.settings.network.expose ≢ reference.settings.network.expose
      → (fails : Call → Option Raised) (templates : List BrokerTemplate) (spec : Spec) (e : Entity)
        (w : World)
      → w.entity ≡ some e
      → e.exposed ≡ reference.settings.network.expose
      → spec.expose ≡ input.settings.network.expose
      → (validate_cluster_update_request_and_check_cluster_upgrade to_dict input reference is_tkgm
          ≡ ok true)
        × (update_cluster fails templates spec w ≡ resize_cluster fails spec w)
  update_cluster-dropped_upgrade u n fails templates spec e w p q r = (
    upgrade_accepted _ _ u
        (validate_cluster_update_request-Verdict to_dict input reference is_tkgm),
    flag_first fails templates spec (fails get_entity) e w refl p
        (flags_differ e.exposed spec.expose λ h. n (sym r ∙ (sym h ∙ q))),
  )
