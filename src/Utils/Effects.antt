-- ===== src/Utils/Effects.antt =====
-- The effects of the utilities and of the listing of machine pools, for every set that has them.
use kubernetes_kops_operator.Prelude.{String, true, Option, none, some, List, [], ◌∷◌, ◌≡◌}
use kubernetes_kops_operator.Prelude.Dict.{Dict}
use kubernetes_kops_operator.Api.{KopsMachinePool, SpotInstSpec}
use kubernetes_kops_operator.Api.Meta.{ObjectKey, ObjectMeta}
use kubernetes_kops_operator.Api.Kops.{
  KopsCluster, InstanceGroup, RestConfig, Credentials, ValidationCluster, KubeletConfigSpec,
}
use kubernetes_kops_operator.Io.Emits.{Emits, emits_rules}
use kubernetes_kops_operator.Outside.Effect.{Effect, Effects}
use kubernetes_kops_operator.Kops.{get_kops_machine_pools_with_label}
use kubernetes_kops_operator.Karpenter.{get_user_data_from_terraform_file, create_ec2_node_class}
use kubernetes_kops_operator.Karpenter.Kubelet.{get_kubelet_configuration}
use kubernetes_kops_operator.Utils.Features.{parse_spotinst_feature_flags}
use kubernetes_kops_operator.Utils.Cluster.{
  get_kops_clientset, validate_kops_cluster, build_cloud, get_kubeconfig_from_kops_state,
  kops_delete_resources,
}
use kubernetes_kops_operator.Utils.Objects.{
  delete_owner_resources, set_env_vars_from_aws_credentials, get_aws_credentials,
}
use kubernetes_kops_operator.Utils.Secrets.{
  Tracked, delete_loop, reconcile_kops_secrets_delete, reconcile_kops_secrets_normal, stop_or_go,
  reconcile_kops_secrets,
}
use kubernetes_kops_operator.Utils.Validation.{kops_cluster_validation}

module _ {C : Effects} (observes : C Effect.observe ≡ true) where
  pub get_kops_machine_pools-Emits :
      (key value : String) → Emits C (get_kops_machine_pools_with_label key value)
  unfolding get_kops_machine_pools_with_label
  get_kops_machine_pools-Emits key value = search emits_rules depth 10

  pub validate_kops_cluster-Emits :
      (config : RestConfig) (cluster : KopsCluster) (groups : List InstanceGroup)
      → Emits C (validate_kops_cluster config cluster groups)
  unfolding validate_kops_cluster
  validate_kops_cluster-Emits config cluster groups = search emits_rules depth 10

  pub get_aws_credentials-Emits :
      (name namespace : String) → Emits C (get_aws_credentials name namespace)
  unfolding get_aws_credentials
  get_aws_credentials-Emits name namespace = search emits_rules depth 10

  get_user_data-Emits : (pool dir : String) → Emits C (get_user_data_from_terraform_file pool dir)
  unfolding get_user_data_from_terraform_file
  get_user_data-Emits pool dir = search emits_rules depth 10

  kubelet-Emits : (c g : Option KubeletConfigSpec) → Emits C (get_kubelet_configuration c g)
  unfolding get_kubelet_configuration
  kubelet-Emits c g = search emits_rules depth 10

  pub create_ec2_node_class-Emits :
      (cluster : KopsCluster) (kmp : KopsMachinePool) (node_pool dir : String)
      → Emits C (create_ec2_node_class cluster kmp node_pool dir)
  unfolding create_ec2_node_class
  create_ec2_node_class-Emits cluster kmp node_pool dir =
      search (emits_rules, get_user_data-Emits, kubelet-Emits) depth 10

module _ {C : Effects} (reports : C Effect.report ≡ true) where
  pub kops_cluster_validation-Emits : (v : ValidationCluster) → Emits C (kops_cluster_validation v)
  unfolding kops_cluster_validation
  kops_cluster_validation-Emits v = search emits_rules depth 10

module _ {C : Effects} (observes : C Effect.observe ≡ true) (sets : C Effect.globals ≡ true) where
  pub parse_spotinst-Emits : (spot : SpotInstSpec) → Emits C (parse_spotinst_feature_flags spot)
  unfolding parse_spotinst_feature_flags
  parse_spotinst-Emits spot = search emits_rules depth 14

  pub build_cloud-Emits : (cluster : KopsCluster) → Emits C (build_cloud cluster)
  unfolding build_cloud
  build_cloud-Emits cluster = search emits_rules depth 10

module _ {C : Effects} (sets : C Effect.globals ≡ true) where
  pub get_kops_clientset-Emits : (base : String) → Emits C (get_kops_clientset base)
  unfolding get_kops_clientset
  get_kops_clientset-Emits base = search emits_rules depth 10

  pub set_env_vars-Emits : (creds : Credentials) → Emits C (set_env_vars_from_aws_credentials creds)
  unfolding set_env_vars_from_aws_credentials
  set_env_vars-Emits creds = search emits_rules depth 10

module _ {C : Effects} (observes : C Effect.observe ≡ true)
    (deletes : C Effect.kops_delete ≡ true) where
  pub kops_delete_resources-Emits :
      (cluster : KopsCluster) → Emits C (kops_delete_resources cluster)
  unfolding kops_delete_resources
  kops_delete_resources-Emits cluster = search emits_rules depth 10

module _ {C : Effects} (deletes : C Effect.kube_delete ≡ true) (waits : C Effect.wait ≡ true) where
  pub delete_owner_resources-Emits : (meta : ObjectMeta) → Emits C (delete_owner_resources meta)
  unfolding delete_owner_resources
  delete_owner_resources-Emits meta = search emits_rules depth 10

module _ {C : Effects} (observes : C Effect.observe ≡ true)
    (writes : C Effect.kops_write ≡ true) where
  pub get_kubeconfig-Emits :
      (cluster : KopsCluster) → Emits C (get_kubeconfig_from_kops_state cluster)
  unfolding get_kubeconfig_from_kops_state
  get_kubeconfig-Emits cluster = search emits_rules depth 14

  pub delete_loop-Emits :
      (wanted : Dict String) (names status : List String)
      → Emits C (delete_loop wanted names status)
  unfolding delete_loop
  delete_loop-Emits wanted [] status = search emits_rules
  delete_loop-Emits wanted (name ∷ names) status =
      search (emits_rules, delete_loop-Emits wanted names) depth 10

  pub normal-Emits :
      (wanted : Dict String) (status : List String)
      → Emits C (reconcile_kops_secrets_normal wanted status)
  unfolding reconcile_kops_secrets_normal
  normal-Emits [] status = search emits_rules
  normal-Emits ((name, value) ∷ wanted) status = search (emits_rules, normal-Emits wanted) depth 12

  stop_or_go-Emits : (wanted : Dict String) (t : Tracked) → Emits C (stop_or_go wanted t)
  unfolding stop_or_go
  stop_or_go-Emits wanted (status, none) = search (emits_rules, normal-Emits)
  stop_or_go-Emits wanted (status, some e) = search emits_rules

  pub reconcile_kops_secrets-Emits :
      (key : ObjectKey) (status : List String) → Emits C (reconcile_kops_secrets key status)
  unfolding reconcile_kops_secrets reconcile_kops_secrets_delete
  reconcile_kops_secrets-Emits key status =
      search (emits_rules, delete_loop-Emits, stop_or_go-Emits) depth 10
