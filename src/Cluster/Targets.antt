-- ===== src/Cluster/Targets.antt =====
-- To what a cluster may be upgraded.
use container_service_extens.Common.{
  ◌<◌, ◌≡◌, ◌≢◌, ◌↔◌, ◌⊎◌, inl, inr, false, refl, Bool, true, not, ◌&&◌, Bool-cases, Option, none,
  some, Option-cases, List, [], ◌∷◌, In, here, there, elem, ok, arith, if◌then◌else◌, ◌==◌, eq_iff,
  nat_eq, leb,
}
use container_service_extens.Cluster.Phase.{upgrade, failed}
use container_service_extens.Cluster.World.{
  server_error, not_an_upgrade_target, set_phase, mark_failed, logged, continue, raise, Raised,
  Call, get_entity, mark_started, Template, Entity, World, update_cluster_entity,
}
use container_service_extens.Cluster.Start.{
  Spec, BrokerTemplate, upgrade_cluster, start_upgrade, find_template,
  get_cluster_upgrade_target_templates, is_ready, mark_or_fail,
}
use container_service_extens.Cluster.Cases.{update-outcome}
use container_service_extens.Cluster.Requests.{Idle, idle}

-- A template of the name and revision wanted, which takes clusters of the source's name and is
-- newer if it is of that name itself.
pub data Target (source wanted : Template) (t : BrokerTemplate) : Type 0 where
  target :
      t.name ≡ wanted.name
      → t.revision ≡ wanted.revision
      → elem source.name t.upgrade_from ≡ true
      → (t.name ≢ source.name) ⊎ (source.revision < t.revision)
      → Target source wanted t

pub data HasTarget (templates : List BrokerTemplate) (source wanted : Template) : Type 0 where
  has_target :
      (t : BrokerTemplate)
      → In t templates
      → Target source wanted t
      → HasTarget templates source wanted

abbrev is_target : Template → Template → BrokerTemplate → Bool
is_target source wanted t =
    (elem source.name t.upgrade_from
      && not (t.name == source.name && leb t.revision source.revision))
    && (t.name == wanted.name && nat_eq t.revision wanted.revision)

is_target-Target :
    (source wanted : Template) (t : BrokerTemplate)
    → is_target source wanted t ≡ true
    → Target source wanted t
is_target-Target source wanted t h =
    target (ground (arith, eq_iff t.name wanted.name)) (ground (arith, eq_iff t.name wanted.name))
      (ground arith) (newer (Bool-cases (t.name == source.name)))
  where
    newer :
        (t.name == source.name) ≡ true ⊎ (t.name == source.name) ≡ false
        → (t.name ≢ source.name) ⊎ (source.revision < t.revision)
    newer (inl p) = inr (ground arith)
    newer (inr p) = inl λ q. ground (arith, eq_iff t.name source.name)

Target-is_target :
    (source wanted : Template) (t : BrokerTemplate)
    → Target source wanted t
    → is_target source wanted t ≡ true
Target-is_target source wanted t (target a b c d) =
    ground (arith, eq_iff t.name source.name, eq_iff t.name wanted.name)

-- The first target among the templates.
found_target : List BrokerTemplate → Template → Template → Option BrokerTemplate
unfolding find_template get_cluster_upgrade_target_templates
found_target ts source wanted =
    find_template (get_cluster_upgrade_target_templates ts source) wanted

found_target-cons :
    (u : BrokerTemplate) (ts : List BrokerTemplate) (source wanted : Template)
    → found_target (u ∷ ts) source wanted
      ≡ (if is_target source wanted u then some u else found_target ts source wanted)
unfolding found_target
found_target-cons u ts source wanted = ground arith

found_target-empty :
    (source wanted : Template) (t : BrokerTemplate) → found_target [] source wanted ≡ some t → ⊥
unfolding found_target find_template get_cluster_upgrade_target_templates
found_target-empty source wanted t h = cc

found_target-HasTarget :
    (ts : List BrokerTemplate) (source wanted : Template) (t : BrokerTemplate)
    → found_target ts source wanted ≡ some t
    → HasTarget ts source wanted
found_target-HasTarget [] source wanted t h = absurd (found_target-empty source wanted t h)
found_target-HasTarget (u ∷ ts) source wanted t h = elim (Bool-cases (is_target source wanted u)) [
  | inl p ↦ has_target u here (is_target-Target source wanted u p)
  | inr p ↦ later (
      found_target-HasTarget ts source wanted t
        (ground (arith, found_target-cons u ts source wanted)))
]
  where
    later : HasTarget ts source wanted → HasTarget (u ∷ ts) source wanted
    later (has_target t m g) = has_target t (there m) g

found_target-some :
    (source wanted : Template) {t : BrokerTemplate} {ts : List BrokerTemplate}
    → In t ts
    → is_target source wanted t ≡ true
    → found_target ts source wanted ≢ none
found_target-some source wanted {t = t} (here {xs = ts}) g h =
    ground (arith, found_target-cons t ts source wanted)
found_target-some source wanted (there {y = u} {xs = ts} m) g h =
    found_target-some source wanted m g (ground (arith, found_target-cons u ts source wanted))

HasTarget-some :
    (ts : List BrokerTemplate) (source wanted : Template)
    → HasTarget ts source wanted
    → found_target ts source wanted ≢ none
HasTarget-some ts source wanted (has_target t m g) =
    found_target-some source wanted m (Target-is_target source wanted t g)

some-HasTarget :
    (ts : List BrokerTemplate) (source wanted : Template)
    → found_target ts source wanted ≢ none
    → HasTarget ts source wanted
some-HasTarget ts source wanted n = elim (Option-cases (found_target ts source wanted)) [
  | inl p ↦ absurd (n p)
  | inr (t, p) ↦ found_target-HasTarget ts source wanted t p
]

module _ (fails : Call → Option Raised) (no_read : fails get_entity ≡ none)
    (no_mark : fails mark_started ≡ none) where
  start_upgrade-none : (w : World) → (start_upgrade fails none w).0 ≢ ok tt
  unfolding start_upgrade
  start_upgrade-none w =
      update-outcome
        (λ x. (continue (logged x) λ _. raise (server_error not_an_upgrade_target)).0 ≢ ok tt) fails
        mark_failed (set_phase upgrade failed) w (λ r h. cc) (λ e p h. cc)

  start_upgrade-ok :
      (t : Option BrokerTemplate) (w : World) (e : Entity)
      → w.entity ≡ some e
      → ((start_upgrade fails t w).0 ≡ ok tt) ↔ (t ≢ none)
  unfolding start_upgrade mark_or_fail update_cluster_entity
  start_upgrade-ok none w e p = (λ h. absurd (start_upgrade-none w h), λ n. absurd (n refl))
  start_upgrade-ok (some t) w e p = (λ h k. cc, λ n. rw (no_mark, p) refl)

  start_upgrade-HasTarget :
      (ts : List BrokerTemplate) (source wanted : Template) (w : World) (e : Entity)
      → w.entity ≡ some e
      → ((start_upgrade fails (found_target ts source wanted) w).0 ≡ ok tt)
        ↔ HasTarget ts source wanted
  start_upgrade-HasTarget ts source wanted w e p = (
    λ h. some-HasTarget ts source wanted ((start_upgrade-ok _ w e p).0 h),
    λ g. (start_upgrade-ok _ w e p).1 (HasTarget-some ts source wanted g),
  )

  -- If its calls succeed, a request to upgrade an idle cluster in the state RESOLVED succeeds
  -- exactly if some template has the name and revision wanted, takes clusters of the cluster's
  -- template, and is newer where it has the same name.
  pub upgrade_cluster-HasTarget :
      (templates : List BrokerTemplate) (spec : Spec) (w : World) (e : Entity)
      → Idle w e
      → e.is_resolved ≡ true
      → ((upgrade_cluster fails templates spec w).0 ≡ ok tt)
        ↔ HasTarget templates e.distribution spec.distribution
  unfolding upgrade_cluster is_ready found_target
  upgrade_cluster-HasTarget templates spec w e (idle q p h f) r =
      rw (no_read, p, h, r, f)
        (start_upgrade-HasTarget templates e.distribution spec.distribution
          (record w { entity = some resolved }) resolved refl)
    where
      resolved : Entity
      resolved = record e { is_resolved = true }
