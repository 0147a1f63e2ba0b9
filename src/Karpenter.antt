-- ===== src/Karpenter.antt =====
-- pkg/utils/karpenter_utils.go: the node class that stands for a machine pool.
pub mod Kubelet
pub mod Labels
pub mod Signals
use mathlib.Core.Option
use kubernetes_kops_operator.Prelude.{
  ℕ, String, ◌<>◌, Bool, true, false, Option, none, some, List, [], ◌∷◌, ◌==◌,
}
use kubernetes_kops_operator.Prelude.Dict.{Dict, insert_all}
use kubernetes_kops_operator.Api.{KopsMachinePool}
use kubernetes_kops_operator.Api.Kops.{KopsCluster, InstanceRootVolumeSpec}
use kubernetes_kops_operator.Api.Karpenter.{BlockDevice, Ec2NodeClass}
use kubernetes_kops_operator.Io.{
  Error, Io, pure, fail, lift, ask, perform, ◌>>=◌, ◌>>◌, choose, error,
}
use kubernetes_kops_operator.Outside.Call.{Call}
use kubernetes_kops_operator.Utils.Features.{get_ami_name_from_image_source}
use Kubelet.{get_kubelet_configuration}

abbrev pub essential_tags : String → String → Dict String
essential_tags cluster pool =
    ("Name", cluster <> ("/" <> pool))
    ∷ ("KubernetesCluster", cluster)
    ∷ ("kops.k8s.io/instancegroup", pool)
    ∷ ("k8s.io/cluster-autoscaler/node-template/label/node-role.kubernetes.io/node", "")
    ∷ []

unfoldable pub merge_cloud_labels : String → String → Dict String → Dict String → Dict String
merge_cloud_labels cluster pool cluster_labels pool_labels =
    insert_all (essential_tags cluster pool) (insert_all pool_labels (insert_all cluster_labels []))

abbrev pub default_volume : BlockDevice
default_volume = record {
  volume_size = 60;
  volume_type = "gp3";
  iops = 3000;
  encrypted = true;
  throughput = 125;
  delete_on_termination = true;
}

-- Sizes and rates are not negative.
unfoldable pub build_karpenter_volume_config : Option InstanceRootVolumeSpec → BlockDevice
build_karpenter_volume_config none = default_volume
build_karpenter_volume_config (some v) = record {
  volume_size = Option.get_or v.size 60;
  volume_type = Option.get_or v.volume_type "gp3";
  iops = Option.get_or v.iops 3000;
  encrypted = Option.get_or v.encryption true;
  throughput = Option.get_or v.throughput 125;
  delete_on_termination = true;
}

unfoldable pub get_user_data_from_terraform_file : String → String → Io String
get_user_data_from_terraform_file pool dir = do
  content ←
      perform
        (Call.read_file (dir <> ("/data/aws_s3_object_nodeupscript-" <> (pool <> "_content"))))
  choose (content == "") (fail (error "user data file is empty")) (pure content)

unfoldable pub create_ec2_node_class :
    KopsCluster → KopsMachinePool → String → String → Io Ec2NodeClass
create_ec2_node_class cluster kmp node_pool dir = do
  let group = kmp.spec.kops_instance_group_spec
  (ami_name, ami_owner) ← lift (get_ami_name_from_image_source group.image)
  user_data ← get_user_data_from_terraform_file kmp.meta.name dir
  kubelet ← get_kubelet_configuration cluster.spec.kubelet group.kubelet
  pure (record {
    name = node_pool;
    labels = ("kops.k8s.io/managed-by", "kops-controller") ∷ [];
    kubelet = kubelet;
    ami_family = "Custom";
    ami_name = ami_name;
    ami_owner = ami_owner;
    metadata_options = record {
      http_endpoint = "enabled";
      http_protocol_ipv6 = "disabled";
      http_put_response_hop_limit = 3;
      http_tokens = "required";
    };
    associate_public_ip_address = Option.get_or group.associate_public_ip false;
    device_name = "/dev/sda1";
    ebs = build_karpenter_volume_config group.root_volume;
    role = "nodes." <> cluster.name;
    security_group_selector_terms =
        record { name = "nodes." <> cluster.name; tags = [] }
        ∷ record {
          name = "";
          tags = ("karpenter/" <> (cluster.name <> ("/" <> kmp.meta.name)), "true") ∷ [];
        }
        ∷ [];
    subnet_selector_terms =
        record {
          name = "";
          tags =
              ("kops.k8s.io/instance-group/" <> kmp.meta.name, "*")
              ∷ ("kubernetes.io/cluster/" <> cluster.name, "*")
              ∷ [];
        }
        ∷ [];
    tags =
        merge_cloud_labels cluster.name kmp.meta.name cluster.spec.cloud_labels group.cloud_labels;
    user_data = user_data;
  })
