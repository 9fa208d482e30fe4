-- ===== src/ClusterSpec/Samples.antt =====
-- A status, the specification that is built from it, and requests for an update of it. `as_dict` writes a
-- specification with the keys that the data classes are declared with.
use container_service_extens.Common.{String, true, false, Option, none, some, [], ◌∷◌}
use container_service_extens.Common.Int.{ℤ, pos}
use container_service_extens.ClusterSpec.Model.{ClusterSpec, Node, Status, CniObject}
use container_service_extens.ClusterSpec.Tree.{
  Value, null, text, num, flag, Members, done, member, obj,
}

abbrev or_null_text : Option String → Value
or_null_text none = null
or_null_text (some s) = text s

abbrev or_null_num : Option ℤ → Value
or_null_num none = null
or_null_num (some n) = num n

abbrev cni_dict : Option CniObject → Value
cni_dict none = null
cni_dict (some c) =
    obj (member "name" (or_null_text c.name) (member "version" (or_null_text c.version) done))

abbrev pub as_dict : ClusterSpec → Members
as_dict s =
    member "settings"
      (obj (
        member "ovdcNetwork" (or_null_text s.settings.ovdc_network) (
          member "network" (obj (member "expose" (flag s.settings.network.expose) done))
            (member "cni" (cni_dict s.settings.cni) done))))
      (member "topology"
        (obj (
          member "workers"
            (obj (
              member "sizingClass" (or_null_text s.topology.workers.sizing_class)
                (member "count" (num s.topology.workers.count) done)))
            (member "nfs" (obj (member "count" (num s.topology.nfs.count) done)) done)))
        (member "distribution"
          (obj (
            member "templateName" (or_null_text s.distribution.template_name)
              (member "templateRevision" (or_null_num s.distribution.template_revision) done)))
          done))

abbrev worker : Node
worker = record {
  name = "node-a";
  ip = "10.0.0.2";
  sizing_class = some "small";
  storage_profile = none;
  cpu = some (pos 2);
  memory = some (pos 4096);
}

abbrev pub status : Status
status = record {
  cni = some "antrea 0.13.1";
  nodes = some (record { control_plane = some worker; workers = some (worker ∷ []); nfs = none });
  cloud_properties = record {
    ovdc_network_name = some "net";
    distribution = record { template_name = some "ubuntu"; template_revision = some (pos 1) };
    ssh_key = none;
    rollback_on_failure = true;
    exposed = false;
  };
  csi = none;
  cpi = none;
}

abbrev pub antrea : CniObject
antrea = record { name = some "antrea"; version = some "0.13.1" }

abbrev pub reference : ClusterSpec
reference = record {
  settings = record {
    ovdc_network = some "net";
    ssh_key = none;
    rollback_on_failure = true;
    network = record { cni = none; pods = none; services = none; expose = false };
    csi = none;
    cni = some antrea;
    cpi = none;
  };
  topology = record {
    control_plane = record {
      sizing_class = some "small";
      storage_profile = none;
      count = pos 1;
      cpu = none;
      memory = none;
    };
    workers = record {
      sizing_class = some "small";
      storage_profile = none;
      count = pos 1;
      cpu = none;
      memory = none;
    };
    nfs = record { sizing_class = none; storage_profile = none; count = pos 0 };
  };
  distribution = record { template_name = some "ubuntu"; template_revision = some (pos 1) };
}

-- A newer template, and the cluster is to be exposed.
abbrev pub exposed_upgrade : ClusterSpec
exposed_upgrade = record reference {
  settings = record reference.settings {
    network = record reference.settings.network { expose = true };
  };
  distribution = record { template_name = some "ubuntu"; template_revision = some (pos 2) };
}

abbrev pub other_network : ClusterSpec
other_network = record reference {
  settings = record reference.settings { ovdc_network = some "other" };
}
