-- ===== src/Controller/Delete.antt =====
-- The deletion of a cluster: the branch of `Reconcile` under `shouldDeleteCluster`.
use kubernetes_kops_operator.Prelude.{
  String, Bool, false, not, Option, none, some, List, [], ◌∷◌, ◌==◌, ◌&&◌,
}
use kubernetes_kops_operator.Prelude.Dict.{lookup}
use kubernetes_kops_operator.Api.{KopsControlPlane, KopsMachinePool}
use kubernetes_kops_operator.Api.Meta.{ObjectMeta, ObjectKey, is_zero}
use kubernetes_kops_operator.Api.Kops.{KopsCluster, Credentials}
use kubernetes_kops_operator.Io
use kubernetes_kops_operator.Io.{Error, Io}
use kubernetes_kops_operator.Outside.Call.{Call}
use kubernetes_kops_operator.Kops.{get_kops_machine_pools_with_label}
use kubernetes_kops_operator.Terraform.Run.{destroy_terraform}
use kubernetes_kops_operator.Utils.Cluster.{get_kops_clientset, build_cloud, kops_delete_resources}
use kubernetes_kops_operator.Utils.Objects.{
  set_env_vars_from_aws_credentials, delete_owner_resources,
}
use kubernetes_kops_operator.Terraform.Files.{create_terraform_file}
use kubernetes_kops_operator.Controller.Files.{prepare_custom_cloud_resources}
use kubernetes_kops_operator.Controller.Pools.{kops_machine_pool_finalizer, with_finalizers}
use kubernetes_kops_operator.Controller.Body.{
  CtrlResult, Reconciler, Body, pure, exit, gets, ◌>>=◌, ◌>>◌, modify_kcp, set_kmps, report, lock,
  unlock, checked, reported, when,
}

abbrev pub is_protected : KopsControlPlane → Bool
is_protected kcp = elim (lookup "cluster.x-k8s.io/delete-protection" kcp.meta.annotations) [
  | none ↦ false
  | some v ↦ v == "true"
]

unfoldable pub should_delete_cluster : Reconciler → KopsControlPlane → Bool
should_delete_cluster r kcp =
    not r.dry_run && not (is_zero kcp.meta.deletion_timestamp) && not (is_protected kcp)

-- The event of a deletion that is held back.
unfoldable pub report_protection : Reconciler → Body (Unit {0})
report_protection r = do
  kcp ← gets (λ v. v.kcp)
  when (not r.dry_run && not (is_zero kcp.meta.deletion_timestamp) && is_protected kcp) (
      report "ClusterDeleteProtectionEnabled"
        "cluster delete protection is enabled, skipping deletion")

abbrev pub object_key : ObjectMeta → ObjectKey
object_key meta = record { namespace = meta.namespace; name = meta.name }

-- For each pool: its owners go, it is read anew, and its finalizer goes. Pools behind the first error
-- are left as they are.
unfoldable pub release_pools : List KopsMachinePool → Io (List KopsMachinePool × Option Error)
release_pools [] = Io.pure ([], none)
release_pools (kmp ∷ kmps) =
    let rest = release_pools kmps in
    Io.try (delete_owner_resources kmp.meta)
      (λ _.
        Io.try (Io.perform (Call.get_kmp (object_key kmp.meta)))
          (λ fresh.
            Io.◌>>=◌
              (Io.ask (λ w. w.remove_finalizer kops_machine_pool_finalizer fresh.meta.finalizers))
              λ finalizers.
                Io.◌>>=◌ rest (λ (l, e). Io.pure (with_finalizers fresh finalizers ∷ l, e)))
          (λ e. Io.pure (kmp ∷ kmps, some e)))
      (λ e. Io.pure (kmp ∷ kmps, some e))

abbrev pub kops_control_plane_finalizer : String
kops_control_plane_finalizer = "kopscontrolplane.controlplane.cluster.x-k8s.io"

abbrev pub cluster_label : String
cluster_label = "cluster.x-k8s.io/cluster-name"

-- `if err != nil { return resultError, err }` for an error that came beside a value.
abbrev pub stop_on : Option Error → Body (Unit {0})
stop_on none = pure tt
stop_on (some e) = exit CtrlResult.result_error (some e)

unfoldable pub destroy_cloud : Reconciler → KopsCluster → String → Credentials → Body (Unit {0})
destroy_cloud r cluster dir creds = do
  kcp ← gets (λ v. v.kcp)
  kmps ← checked (get_kops_machine_pools_with_label cluster_label kcp.meta.name)
  set_kmps kmps
  let base = kcp.spec.kops_cluster_spec.config_base
  checked (prepare_custom_cloud_resources cluster kcp [] false base dir false)
  checked (create_terraform_file "templates/provider.tf.tpl" "provider.tf" dir [])
  reported "FailedToDestroyTerraform" (destroy_terraform dir r.tf_exec_path creds)

unfoldable pub destroy_leftovers : KopsCluster → Credentials → Body (Unit {0})
destroy_leftovers cluster creds = do
  kcp ← gets (λ v. v.kcp)
  reported "FailedInstantiateKopsClient" (get_kops_clientset kcp.spec.kops_cluster_spec.config_base)
  reported "FailedToSetAWSEnvVars" (set_env_vars_from_aws_credentials creds)
  reported "FailedToBuildCloudConfig" (build_cloud cluster)
  checked (kops_delete_resources cluster)

unfoldable pub release_objects : Body (Unit {0})
release_objects = do
  kmps ← gets (λ v. v.kmps)
  (released, failed) ← checked (release_pools kmps)
  set_kmps released
  stop_on failed
  kcp ← gets (λ v. v.kcp)
  checked (delete_owner_resources kcp.meta)
  modify_kcp λ w k. record k {
    meta = record k.meta {
      finalizers = w.remove_finalizer kops_control_plane_finalizer k.meta.finalizers;
    };
  }
  exit CtrlResult.result_default none

unfoldable pub delete_cluster : Reconciler → KopsCluster → String → Credentials → Body (Unit {0})
delete_cluster r cluster dir creds = do
  destroy_cloud r cluster dir creds
  lock
  destroy_leftovers cluster creds
  unlock
  release_objects
