-- ===== src/Controller/State.antt =====
-- The kOps state of a cluster: its object, its SSH key, its addons and its custom secrets.
use kubernetes_kops_operator.Prelude.{String, Option, none, some, List, ◌==◌}
use kubernetes_kops_operator.Api.Kops.{KopsCluster, InstanceGroup}
use kubernetes_kops_operator.Api.Meta.{ObjectKey}
use kubernetes_kops_operator.Io.{
  Io, pure, fail, perform, act, ◌>>=◌, ◌>>◌, try, choose, maybe, wrap, wrapping,
}
use kubernetes_kops_operator.Outside.Call.{Call}
use kubernetes_kops_operator.Utils.Secrets.{Tracked, reconcile_kops_secrets}

unfoldable pub add_ssh_credential : KopsCluster → String → Io (Unit {0})
add_ssh_credential cluster ssh_public_key = do
  act (Call.ssh_credential_store cluster.name)
  act (Call.add_ssh_public_key ssh_public_key)

unfoldable pub get_cluster_status : KopsCluster → Io (Unit {0})
get_cluster_status cluster = perform (Call.find_cluster_status cluster) >>= λ _. pure tt

unfoldable pub create_or_update_kops_cluster : KopsCluster → String → Io (Unit {0})
unfolding add_ssh_credential get_cluster_status
create_or_update_kops_cluster cluster ssh_public_key =
    try (perform (Call.get_kops_cluster cluster.name))
      (λ old. get_cluster_status old >> act (Call.update_kops_cluster cluster))
      λ e.
        choose e.not_found
          (act (Call.create_kops_cluster cluster) >> add_ssh_credential cluster ssh_public_key)
          (fail e)

unfoldable pub create_or_update_instance_group : InstanceGroup → Io (Unit {0})
create_or_update_instance_group group =
    try (act (Call.get_instance_group group.name))
      (λ _. wrapping (wrap "error updating instanceGroup") (act (Call.update_instance_group group)))
      λ e.
        choose e.not_found
          (wrapping (wrap "error creating instanceGroup") (act (Call.create_instance_group group)))
          (fail e)

unfoldable pub reconcile_cluster_addons : String → Io (Unit {0})
reconcile_cluster_addons addons =
    choose (addons == "") (act (Call.replace_addons none))
      do objects ← perform (Call.load_objects addons); act (Call.replace_addons (some objects))

-- `ReconcileKopsSecrets` of the controller: nothing to do without a reference.
unfoldable pub reconcile_secrets : Option ObjectKey → KopsCluster → List String → Io Tracked
reconcile_secrets secret cluster status = maybe secret (pure (status, none)) (λ key.
    try (act (Call.secret_store cluster.name)) (λ _. reconcile_kops_secrets key status)
      (λ e. pure (status, some e)))
