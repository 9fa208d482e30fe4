-- ===== src/ClusterSpec/Built.antt =====
-- The specification that is built from a status.
use container_service_extens.Common.{
  String, ◌≡◌, refl, inl, inr, Bool, true, false, Bool-cases, Option, none, some, List, [], ◌∷◌,
  ◌&&◌, ◌||◌, length, Result, ok, err, ◌>>=◌,
}
use container_service_extens.Common.Int.{ℤ, pos}
use container_service_extens.Common.Text.{words}
use container_service_extens.ClusterSpec.Model.{CniObject, ClusterSpec, Node, Status}
use container_service_extens.ClusterSpec.Construct.{
  SpecError, attribute_error, index_error, has_text, has_number, unless_sized, control_plane_of,
  workers_of, nfs_of, cni_of, cni_of_words, spec_with, control_plane_node, worker_nodes, nfs_nodes,
  construct_cluster_spec_from_entity_status,
}
use container_service_extens.ClusterSpec.Update.{check_sizing}

abbrev number_of : Option (List Node) → ℤ
number_of none = pos 0
number_of (some ns) = pos (length ns)

-- The specification asks for the nodes that the status lists, with the template, network and
-- exposure of the status. It passes the check of sizing if no nodes have the default sizing class; nodes
-- that have it keep their numbers too.
pub record Describes (default_control_plane default_workers : Bool) (s : Status)
    (spec : ClusterSpec) : Type 0 where
  pub workers_counted : spec.topology.workers.count ≡ number_of (worker_nodes s.nodes)
  pub nfs_counted : spec.topology.nfs.count ≡ number_of (nfs_nodes s.nodes)
  pub one_control_plane : spec.topology.control_plane.count ≡ pos 1
  pub template_kept : spec.distribution ≡ s.cloud_properties.distribution
  pub network_kept : spec.settings.ovdc_network ≡ s.cloud_properties.ovdc_network_name
  pub exposure_kept : spec.settings.network.expose ≡ s.cloud_properties.exposed
  pub sizing_accepted :
      default_control_plane ≡ false → default_workers ≡ false → check_sizing spec ≡ ok tt
  pub numbers_kept :
      (n : Node)
      → default_control_plane ≡ true
      → control_plane_node s.nodes ≡ some n
      → (spec.topology.control_plane.cpu ≡ n.cpu) × (spec.topology.control_plane.memory ≡ n.memory)

unless_sized-none :
    (t : Option String) (n : Option ℤ) → has_text t ≡ true → unless_sized false t n ≡ none
unfolding unless_sized
unless_sized-none t n h = rw h refl

module _ (s : Status) (cni : Option CniObject) where
  workers-number : (b : Bool) (ns : Option (List Node)) → (workers_of b ns).count ≡ number_of ns
  unfolding workers_of
  workers-number b none = refl
  workers-number b (some []) = refl
  workers-number b (some (n ∷ ns)) = refl

  nfs-number : (ns : Option (List Node)) → (nfs_of ns).count ≡ number_of ns
  unfolding nfs_of
  nfs-number none = refl
  nfs-number (some []) = refl
  nfs-number (some (n ∷ ns)) = refl

  control_plane-sizing :
      (n : Option Node)
      → let c = control_plane_of false n in
        (has_text c.sizing_class && (has_number c.cpu || has_number c.memory)) ≡ false
  unfolding control_plane_of
  control_plane-sizing none = refl
  control_plane-sizing (some n) = elim (Bool-cases (has_text n.sizing_class)) [
    | inl t ↦
        rw
          (unless_sized-none n.sizing_class n.cpu t, unless_sized-none n.sizing_class n.memory t, t)
          refl
    | inr f ↦ rw f refl
  ]

  workers-sizing :
      (ns : Option (List Node))
      → let c = workers_of false ns in
        (has_text c.sizing_class && (has_number c.cpu || has_number c.memory)) ≡ false
  unfolding workers_of
  workers-sizing none = refl
  workers-sizing (some []) = refl
  workers-sizing (some (n ∷ ns)) = elim (Bool-cases (has_text n.sizing_class)) [
    | inl t ↦
        rw
          (unless_sized-none n.sizing_class n.cpu t, unless_sized-none n.sizing_class n.memory t, t)
          refl
    | inr f ↦ rw f refl
  ]

  spec_with-sizing : check_sizing (spec_with false false s cni) ≡ ok tt
  unfolding spec_with check_sizing
  spec_with-sizing =
      rw (control_plane-sizing (control_plane_node s.nodes), workers-sizing (worker_nodes s.nodes))
        refl

  control_plane-numbers :
      (b : Bool) (x : Option Node) (n : Node)
      → b ≡ true
      → x ≡ some n
      → ((control_plane_of b x).cpu ≡ n.cpu) × ((control_plane_of b x).memory ≡ n.memory)
  unfolding control_plane_of unless_sized
  control_plane-numbers b x n t e = rw (t, e) (refl, refl)

  spec_with-Describes : (b c : Bool) → Describes b c s (spec_with b c s cni)
  unfolding spec_with control_plane_of
  spec_with-Describes b c = record {
    workers_counted = workers-number c (worker_nodes s.nodes);
    nfs_counted = nfs-number (nfs_nodes s.nodes);
    one_control_plane = one (control_plane_node s.nodes);
    template_kept = refl;
    network_kept = refl;
    exposure_kept = refl;
    sizing_accepted = λ e f. rw (e, f) spec_with-sizing;
    numbers_kept = λ n e x. control_plane-numbers b (control_plane_node s.nodes) n e x;
  }
    where
      one : (n : Option Node) → (control_plane_of b n).count ≡ pos 1
      one none = refl
      one (some n) = refl

-- What comes of building a specification from the status of a cluster, if there is one.
pub data Built (b c : Bool) : Option Status → Result SpecError ClusterSpec → Type 0 where
  built : (s : Status) (spec : ClusterSpec) → Describes b c s spec → Built b c (some s) (ok spec)
  no_cni :
      (s : Status) (t : String)
      → s.cni ≡ some t
      → words t ≡ []
      → Built b c (some s) (err index_error)
  no_status : Built b c none (err attribute_error)

module _ (b c : Bool) (s : Status) where
  words-Built :
      (t : String) (ws : List String)
      → s.cni ≡ some t
      → words t ≡ ws
      → Built b c (some s) (cni_of_words ws >>= λ cni. ok (spec_with b c s cni))
  unfolding cni_of_words
  words-Built t [] e w = no_cni s t e w
  words-Built t (n ∷ []) e w = built s _ (spec_with-Describes s _ b c)
  words-Built t (n ∷ v ∷ ws) e w = built s _ (spec_with-Describes s _ b c)

  cni-Built :
      (cni : Option String)
      → s.cni ≡ cni
      → Built b c (some s) (cni_of cni >>= λ cni. ok (spec_with b c s cni))
  unfolding cni_of
  cni-Built none e = built s _ (spec_with-Describes s none b c)
  cni-Built (some t) e = words-Built t (words t) e refl

-- The specification that is built asks for the nodes that the status lists and has its template, network
-- and exposure. It passes the check of sizing if neither the control plane nor the workers are said to
-- have the default sizing class of a TKGm cluster; a control plane that is said to have it keeps its
-- numbers. Building fails only at a CNI that is a text without a word, by an IndexError, and where there
-- is no status, by an AttributeError.
pub construct_cluster_spec_from_entity_status-Built :
    (b c : Bool) (status : Option Status)
    → Built b c status (construct_cluster_spec_from_entity_status b c status)
unfolding construct_cluster_spec_from_entity_status
construct_cluster_spec_from_entity_status-Built b c none = no_status
construct_cluster_spec_from_entity_status-Built b c (some s) = cni-Built b c s s.cni refl
