-- ===== src/Controller/Files.antt =====
-- The terraform files: `PrepareKopsCloudResources` and `PrepareCustomCloudResources`.
use kubernetes_kops_operator.Prelude.{
  String, ◌<>◌, Bool, false, not, none, some, List, [], ◌∷◌, ◌==◌, is_empty, if◌then◌else◌, ◌||◌,
}
use kubernetes_kops_operator.Prelude.Dict.{lookup, has_key}
use kubernetes_kops_operator.Api.{KopsControlPlane, KopsMachinePool, KarpenterNodePool}
use kubernetes_kops_operator.Api.Kops.{KopsCluster}
use kubernetes_kops_operator.Io.{
  Result, ok, err, panic, Io, lift, ask, perform, act, ◌>>=◌, ◌>>◌, when, for_each,
}
use kubernetes_kops_operator.Outside.Call.{Call}
use kubernetes_kops_operator.Terraform.Files.{create_terraform_file}
use kubernetes_kops_operator.Kops.{get_cloud_resource_name}
use kubernetes_kops_operator.Utils.Features.{get_bucket_name}
use kubernetes_kops_operator.Karpenter.{create_ec2_node_class}

unfoldable pub prepare_kops_cloud_resources : KopsCluster → String → Io (Unit {0})
prepare_kops_cloud_resources cluster dir = act (Call.apply_cluster_cmd cluster dir)

abbrev pub karpenter_file : String → String
karpenter_file dir = dir <> "/data/aws_s3_object_karpenter_resources_content"

-- One Karpenter node pool and its node class, each behind a separator.
unfoldable pub write_node_pool :
    KopsCluster → String → KopsMachinePool → KarpenterNodePool → Io (Unit {0})
write_node_pool cluster dir kmp node_pool = do
  let out = karpenter_file dir
  act (Call.write_file out "---\n")
  let labelled = record node_pool { labels = ("kops.k8s.io/managed-by", "kops-controller") ∷ [] }
  pool_yaml ← ask (λ w. w.node_pool_yaml labelled)
  pool_text ← lift pool_yaml
  act (Call.write_file out pool_text)
  act (Call.write_file out "---\n")
  node_class ← create_ec2_node_class cluster kmp node_pool.name dir
  class_yaml ← ask (λ w. w.ec2_node_class_yaml node_class)
  class_text ← lift class_yaml
  act (Call.write_file out class_text)
  act (Call.write_file out "\n")

-- The manifest of all node pools, and the addon that carries its hash.
unfoldable pub write_karpenter_files :
    KopsCluster → List KopsMachinePool → String → String → Io (Unit {0})
unfolding write_node_pool create_terraform_file
write_karpenter_files cluster kmps bucket dir = do
  let out = karpenter_file dir
  act (Call.create_file out)
  placeholder ← ask (λ w. w.placeholder_yaml)
  text ← lift placeholder
  act (Call.write_file out "---\n")
  act (Call.write_file out text)
  for_each kmps λ kmp. for_each kmp.spec.karpenter_node_pools (write_node_pool cluster dir kmp)
  content ← perform (Call.read_file out)
  hash ← ask (λ w. w.sha256_hex content)
  create_terraform_file "templates/karpenter_custom_addon_boostrap.tf.tpl"
      "karpenter_custom_addon_boostrap.tf" dir (bucket ∷ cluster.name ∷ hash ∷ [])

abbrev pub hybrid_key : String
hybrid_key = "spotinst.io/hybrid"

abbrev pub is_hybrid : KopsMachinePool → Bool
is_hybrid kmp = has_key hybrid_key kmp.spec.spot_inst_options

unfoldable pub any_hybrid : List KopsMachinePool → Bool
any_hybrid [] = false
any_hybrid (kmp ∷ l) = is_hybrid kmp || any_hybrid l

-- Where the names of the pools' cloud resources go: to launch templates, to Spot launch specs, or
-- nowhere.
pub data Target : Type 0 where
  launch_template spot_launch_spec skipped : Target

unfoldable pub target : KopsMachinePool → Target
target kmp =
    if is_empty kmp.spec.karpenter_node_pools
    then elim (lookup hybrid_key kmp.spec.spot_inst_options) [
      | none ↦ Target.launch_template
      | some v ↦ if v == "true" then Target.spot_launch_spec else Target.skipped
    ]
    else Target.skipped

-- A pool is put in front of the names of those behind it. The first error in the order of the pools
-- is returned.
abbrev pub add :
    Target → Result String → Result (List String × List String) → Result (List String × List String)
add Target.skipped name rest = rest
add _ (err e) rest = err e
add _ panic rest = panic
add t (ok name) (err e) = err e
add t (ok name) panic = panic
add Target.launch_template (ok name) (ok (asgs, vngs)) = ok (name ∷ asgs, vngs)
add Target.spot_launch_spec (ok name) (ok (asgs, vngs)) = ok (asgs, name ∷ vngs)

-- The names for the launch templates and for the Spot launch specs, in the order of the pools.
unfoldable pub override_names : List KopsMachinePool → Result (List String × List String)
unfolding target
override_names [] = ok ([], [])
override_names (kmp ∷ l) = add (target kmp) (get_cloud_resource_name kmp) (override_names l)

unfoldable pub write_overrides : List KopsMachinePool → String → Io (Unit {0})
unfolding override_names create_terraform_file
write_overrides kmps dir = do
  (asgs, vngs) ← lift (override_names kmps)
  when (not (is_empty asgs)) (
      create_terraform_file "templates/launch_template_override.tf.tpl"
        "launch_template_override.tf" dir asgs)
  when (not (is_empty vngs)) (
      create_terraform_file "templates/spotinst_launch_spec_override.tf.tpl"
        "spotinst_launch_spec_override.tf" dir vngs)

-- `shouldEnableKarpenter` and `shouldIgnoreSG` are the flags.
unfoldable pub prepare_custom_cloud_resources :
    KopsCluster
    → KopsControlPlane
    → List KopsMachinePool
    → Bool
    → String
    → String
    → Bool
    → Io (Unit {0})
unfolding write_karpenter_files write_overrides any_hybrid create_terraform_file
prepare_custom_cloud_resources cluster kcp kmps enable_karpenter config_base dir ignore_sg = do
  bucket ← lift (get_bucket_name config_base)
  act (Call.mkdir_all (dir <> "/data"))
  create_terraform_file "templates/backend.tf.tpl" "backend.tf" dir (bucket ∷ cluster.name ∷ [])
  when enable_karpenter (write_karpenter_files cluster kmps bucket dir)
  when kcp.spec.spot_inst.enabled (
      when (any_hybrid kmps) (
        create_terraform_file "templates/spotinst_ocean_aws_override.tf.tpl"
          "spotinst_ocean_aws_override.tf" dir (cluster.name ∷ [])))
  when ignore_sg (write_overrides kmps dir)
