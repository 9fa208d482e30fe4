-- ===== src/ClusterSpec/Model.antt =====
-- rde/models/rde_2_1_0.py: the data classes of a specification, and of a status the part that a
-- specification is built from. An attribute that may be None is an `Option`.
use container_service_extens.Common.{String, Bool, Option, List}
use container_service_extens.Common.Int.{ℤ}

pub record Nfs : Type 0 where
  pub sizing_class : Option String
  pub storage_profile : Option String
  pub count : ℤ

pub record ControlPlane : Type 0 where
  pub sizing_class : Option String
  pub storage_profile : Option String
  pub count : ℤ
  pub cpu : Option ℤ
  pub memory : Option ℤ

pub record Workers : Type 0 where
  pub sizing_class : Option String
  pub storage_profile : Option String
  pub count : ℤ
  pub cpu : Option ℤ
  pub memory : Option ℤ

pub record Distribution : Type 0 where
  pub template_name : Option String
  pub template_revision : Option ℤ

pub record Topology : Type 0 where
  pub control_plane : ControlPlane
  pub workers : Workers
  pub nfs : Nfs

pub record Network : Type 0 where
  -- The name of the Cni, and the blocks of the Pods and the Services.
  pub cni : Option (Option String)
  pub pods : Option (Option (List String))
  pub services : Option (Option (List String))
  pub expose : Bool

pub record DefaultK8sStorageClass : Type 0 where
  pub vcd_storage_profile_name : String
  pub k8s_storage_class_name : String
  pub filesystem : String
  pub use_delete_reclaim_policy : Bool

pub record CsiElement : Type 0 where
  pub default : Option Bool
  pub name : Option String
  pub version : Option String
  pub default_k8s_storage_class : Option DefaultK8sStorageClass

pub record CniObject : Type 0 where
  pub name : Option String
  pub version : Option String

pub record Cpi : Type 0 where
  pub name : Option String
  pub version : Option String

pub record Settings : Type 0 where
  pub ovdc_network : Option String
  pub ssh_key : Option String
  pub rollback_on_failure : Bool
  pub network : Network
  pub csi : Option (List CsiElement)
  pub cni : Option CniObject
  pub cpi : Option Cpi

pub record ClusterSpec : Type 0 where
  pub settings : Settings
  pub topology : Topology
  pub distribution : Distribution

pub record Node : Type 0 where
  pub name : String
  pub ip : String
  pub sizing_class : Option String
  pub storage_profile : Option String
  pub cpu : Option ℤ
  pub memory : Option ℤ

pub record Nodes : Type 0 where
  pub control_plane : Option Node
  pub workers : Option (List Node)
  pub nfs : Option (List Node)

pub record CloudProperties : Type 0 where
  pub ovdc_network_name : Option String
  pub distribution : Distribution
  pub ssh_key : Option String
  pub rollback_on_failure : Bool
  pub exposed : Bool

pub record Status : Type 0 where
  pub cni : Option String
  pub nodes : Option Nodes
  pub cloud_properties : CloudProperties
  pub csi : Option (List CsiElement)
  pub cpi : Option Cpi
