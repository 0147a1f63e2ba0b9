-- ===== src/Api/Karpenter.antt =====
-- The records of Karpenter that the operator builds.
use kubernetes_kops_operator.Prelude.{ℕ, String, Bool, Option, List}
use kubernetes_kops_operator.Prelude.Dict.{Dict}

-- The size is in GiB.
pub record BlockDevice : Type 0 where
  pub volume_size : ℕ
  pub volume_type : String
  pub iops : ℕ
  pub encrypted : Bool
  pub throughput : ℕ
  pub delete_on_termination : Bool

-- A map with up to four keys; a field is `none` where its key is missing.
pub record KubeletConfiguration : Type 0 where
  pub max_pods : Option ℕ
  pub system_reserved : Option (Dict String)
  pub kube_reserved : Option (Dict String)
  pub eviction_hard : Option (Dict String)

-- A security group is selected by its name or by tags.
pub record SelectorTerm : Type 0 where
  pub name : String
  pub tags : Dict String

pub record MetadataOptions : Type 0 where
  pub http_endpoint : String
  pub http_protocol_ipv6 : String
  pub http_put_response_hop_limit : ℕ
  pub http_tokens : String

-- `kubelet` is `none` where the map is nil.
pub record Ec2NodeClass : Type 0 where
  pub name : String
  pub labels : Dict String
  pub kubelet : Option KubeletConfiguration
  pub ami_family : String
  pub ami_name : String
  pub ami_owner : String
  pub metadata_options : MetadataOptions
  pub associate_public_ip_address : Bool
  pub device_name : String
  pub ebs : BlockDevice
  pub role : String
  pub security_group_selector_terms : List SelectorTerm
  pub subnet_selector_terms : List SelectorTerm
  pub tags : Dict String
  pub user_data : String
