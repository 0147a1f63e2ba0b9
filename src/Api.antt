-- ===== src/Api.antt =====
-- The objects of the two API groups: apis/controlplane/v1alpha1/kopscontrolplane_types.go and
-- apis/infrastructure/v1alpha1/kopsmachinepool_types.go, with the fields that the operator reads
-- or writes. The records of kOps, Cluster API and AWS that they embed are in the child `Kops`, the
-- metadata shared by all objects in `Meta`. A Go nil map is an empty `Dict`.
pub mod Meta
pub mod Kops
pub mod Karpenter
use kubernetes_kops_operator.Prelude.{ℕ, String, Bool, Option, List}
use kubernetes_kops_operator.Prelude.Dict.{Dict}
use kubernetes_kops_operator.Api.Meta.{ObjectMeta, ObjectKey, Condition}
use kubernetes_kops_operator.Api.Kops.{ClusterSpec, InstanceGroupSpec}

pub record SpotInstSpec : Type 0 where
  pub enabled : Bool
  pub feature_flags : String

pub record IdentityRefSpec : Type 0 where
  pub namespace : String
  pub name : String

pub record KopsControlPlaneSpec : Type 0 where
  pub controller_class : String
  pub identity_ref : IdentityRefSpec
  pub ssh_public_key : String
  pub kops_cluster_spec : ClusterSpec
  pub kops_secret : Option ObjectKey
  pub spot_inst : SpotInstSpec
  pub kops_cluster_addons : String
  pub cleanup_terraform_directory : Bool

pub record KopsControlPlaneStatus : Type 0 where
  pub ready : Bool
  pub paused : Bool
  pub conditions : List Condition
  pub secrets : List String
  pub last_reconciled : Option ℕ

pub record KopsControlPlane : Type 0 where
  pub meta : ObjectMeta
  pub spec : KopsControlPlaneSpec
  pub status : KopsControlPlaneStatus

-- A Karpenter node pool; its own spec is passed on and never read.
pub record KarpenterNodePool : Type 0 where
  pub name : String
  pub labels : Dict String
  pub spec : String

pub record KopsMachinePoolSpec : Type 0 where
  pub provider_id_list : List String
  pub cluster_name : String
  pub karpenter_node_pools : List KarpenterNodePool
  pub kops_instance_group_spec : InstanceGroupSpec
  pub spot_inst_options : Dict String

-- `replicas` is an int32, by its two's complement.
pub record KopsMachinePoolStatus : Type 0 where
  pub ready : Bool
  pub replicas : ℕ
  pub conditions : List Condition

pub record KopsMachinePool : Type 0 where
  pub meta : ObjectMeta
  pub spec : KopsMachinePoolSpec
  pub status : KopsMachinePoolStatus
