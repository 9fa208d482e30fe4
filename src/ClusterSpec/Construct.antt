-- ===== src/ClusterSpec/Construct.antt =====
-- rde/utils.py: `construct_2_1_0_cluster_spec_from_entity_status`.
use container_service_extens.Common.{
  String, Bool, true, false, not, ◌&&◌, Option, none, some, List, [], ◌∷◌, length, if◌then◌else◌,
  Result, ok, err, ◌>>=◌,
}
use container_service_extens.Common.Int.{ℤ, pos, is_zero}
use container_service_extens.Common.Text.{words}
use container_service_extens.ClusterSpec.Model.{
  Nfs, ControlPlane, Workers, CsiElement, CniObject, ClusterSpec, Node, Nodes, Status,
}

pub data SpecError : Type 0 where
  attribute_error index_error type_error : SpecError

-- `if text:`, `if number:`
abbrev pub has_text : Option String → Bool
has_text none = false
has_text (some String.[]) = false
has_text (some (String.◌∷◌ c s)) = true

abbrev pub has_number : Option ℤ → Bool
has_number none = false
has_number (some n) = not (is_zero n)

-- The number of a node with a sizing class is left out, unless that is the default one of TKGm.
unfoldable pub unless_sized : Bool → Option String → Option ℤ → Option ℤ
unless_sized default sizing n = if not default && has_text sizing then none else n

unfoldable pub control_plane_of : Bool → Option Node → ControlPlane
unfolding unless_sized
control_plane_of default none = record {
  sizing_class = none;
  storage_profile = none;
  count = pos 1;
  cpu = none;
  memory = none;
}
control_plane_of default (some n) = record {
  sizing_class = n.sizing_class;
  storage_profile = n.storage_profile;
  count = pos 1;
  cpu = unless_sized default n.sizing_class n.cpu;
  memory = unless_sized default n.sizing_class n.memory;
}

unfoldable pub workers_of : Bool → Option (List Node) → Workers
unfolding unless_sized
workers_of default (some (n ∷ ns)) = record {
  sizing_class = n.sizing_class;
  storage_profile = n.storage_profile;
  count = pos (length (n ∷ ns));
  cpu = unless_sized default n.sizing_class n.cpu;
  memory = unless_sized default n.sizing_class n.memory;
}
workers_of default _ = record {
  sizing_class = none;
  storage_profile = none;
  count = pos 0;
  cpu = none;
  memory = none;
}

unfoldable pub nfs_of : Option (List Node) → Nfs
nfs_of (some (n ∷ ns)) = record {
  sizing_class = n.sizing_class;
  storage_profile = n.storage_profile;
  count = pos (length (n ∷ ns));
}
nfs_of _ = record { sizing_class = none; storage_profile = none; count = pos 0 }

-- A copy of the first element.
unfoldable pub csi_of : Option (List CsiElement) → Option (List CsiElement)
csi_of (some (e ∷ es)) = some (e ∷ [])
csi_of _ = none

-- The name and the version of the words of a text; a text without a word has no first one.
unfoldable pub cni_of_words : List String → Result SpecError (Option CniObject)
cni_of_words [] = err index_error
cni_of_words (n ∷ []) = ok (some (record { name = some n; version = some "" }))
cni_of_words (n ∷ v ∷ ws) = ok (some (record { name = some n; version = some v }))

unfoldable pub cni_of : Option String → Result SpecError (Option CniObject)
unfolding cni_of_words words
cni_of none = ok none
cni_of (some t) = cni_of_words (words t)

abbrev pub control_plane_node : Option Nodes → Option Node
control_plane_node none = none
control_plane_node (some ns) = ns.control_plane

abbrev pub worker_nodes : Option Nodes → Option (List Node)
worker_nodes none = none
worker_nodes (some ns) = ns.workers

abbrev pub nfs_nodes : Option Nodes → Option (List Node)
nfs_nodes none = none
nfs_nodes (some ns) = ns.nfs

unfoldable pub spec_with : Bool → Bool → Status → Option CniObject → ClusterSpec
unfolding control_plane_of workers_of nfs_of csi_of
spec_with default_control_plane default_workers s cni = record {
  settings = record {
    ovdc_network = s.cloud_properties.ovdc_network_name;
    ssh_key = s.cloud_properties.ssh_key;
    rollback_on_failure = s.cloud_properties.rollback_on_failure;
    network = record {
      cni = none;
      pods = none;
      services = none;
      expose = s.cloud_properties.exposed;
    };
    csi = csi_of s.csi;
    cni = cni;
    cpi = s.cpi;
  };
  topology = record {
    control_plane = control_plane_of default_control_plane (control_plane_node s.nodes);
    workers = workers_of default_workers (worker_nodes s.nodes);
    nfs = nfs_of (nfs_nodes s.nodes);
  };
  distribution = s.cloud_properties.distribution;
}

-- The tests for a status that is None come to nothing, since `cloud_properties` is read of it.
unfoldable pub construct_cluster_spec_from_entity_status :
    Bool → Bool → Option Status → Result SpecError ClusterSpec
unfolding cni_of spec_with
construct_cluster_spec_from_entity_status default_control_plane default_workers none =
    err attribute_error
construct_cluster_spec_from_entity_status default_control_plane default_workers (some s) =
    cni_of s.cni >>= λ cni. ok (spec_with default_control_plane default_workers s cni)
