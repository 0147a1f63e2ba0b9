-- ===== src/Api/Kops.antt =====
-- The records of kOps, Cluster API and AWS whose fields the operator reads or writes.
use kubernetes_kops_operator.Prelude.{ℕ, String, Bool, Option, List}
use kubernetes_kops_operator.Prelude.Dict.{Dict}
use kubernetes_kops_operator.Api.Meta.{ObjectMeta, ObjectReference}

pub record Subnet : Type 0 where
  pub zone : String
  pub region : String

pub record KubeletConfigSpec : Type 0 where
  pub max_pods : Option ℕ
  pub system_reserved : Dict String
  pub kube_reserved : Dict String
  pub eviction_hard : Option String

-- `subnets` is `none` where the slice is nil; `karpenter` is `none` where the pointer is nil.
pub record ClusterSpec : Type 0 where
  pub config_base : String
  pub service_cluster_ip_range : String
  pub non_masquerade_cidr : String
  pub subnets : Option (List Subnet)
  pub addons : List String
  pub karpenter : Option Bool
  pub kubelet : Option KubeletConfigSpec
  pub cloud_labels : Dict String

pub record InstanceRootVolumeSpec : Type 0 where
  pub size : Option ℕ
  pub volume_type : Option String
  pub iops : Option ℕ
  pub encryption : Option Bool
  pub throughput : Option ℕ

pub record InstanceGroupSpec : Type 0 where
  pub node_labels : Dict String
  pub manager : String
  pub image : String
  pub min_size : Option ℕ
  pub max_size : Option ℕ
  pub kubelet : Option KubeletConfigSpec
  pub root_volume : Option InstanceRootVolumeSpec
  pub associate_public_ip : Option Bool
  pub cloud_labels : Dict String

pub record InstanceGroup : Type 0 where
  pub name : String
  pub namespace : String
  pub labels : Dict String
  pub spec : InstanceGroupSpec

-- The kOps cluster object.
pub record KopsCluster : Type 0 where
  pub name : String
  pub spec : ClusterSpec

-- The Cluster API object that owns a control plane. `infrastructure_ref` is `none` for nil.
pub record Cluster : Type 0 where
  pub meta : ObjectMeta
  pub infrastructure_ref : Option ObjectReference

pub record ValidationError : Type 0 where
  pub kind : String
  pub message : String

pub record ValidationNode : Type 0 where
  pub hostname : String
  pub status : String

pub record ValidationCluster : Type 0 where
  pub failures : List ValidationError
  pub nodes : List ValidationNode

-- An instance of an autoscaling group, and the group.
pub record Instance : Type 0 where
  pub availability_zone : String
  pub instance_id : String

pub record AutoScalingGroup : Type 0 where
  pub instances : List Instance

pub record CloudResource : Type 0 where
  pub id : String
  pub shared : Bool

pub record Credentials : Type 0 where
  pub access_key_id : String
  pub secret_access_key : String

pub record RestConfig : Type 0 where
  pub host : String
  pub ca_data : String
  pub cert_data : String
  pub key_data : String

-- A secret of the management cluster, as it is written; `data` is its content.
pub record KubeconfigSecret : Type 0 where
  pub namespace : String
  pub name : String
  pub owner_uid : String
  pub content : String
