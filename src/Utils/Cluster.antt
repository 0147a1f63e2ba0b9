-- ===== src/Utils/Cluster.antt =====
-- The kOps library: its client, its cloud, the validator, the kubeconfig and the deletion of what is
-- left of a cluster.
use kubernetes_kops_operator.Prelude.{String, ◌<>◌, List, [], ◌∷◌, ◌==◌, if◌then◌else◌}
use kubernetes_kops_operator.Prelude.Dict.{Dict}
use kubernetes_kops_operator.Prelude.Text.{before_last}
use kubernetes_kops_operator.Api.Kops.{
  KopsCluster, InstanceGroup, ValidationCluster, CloudResource, RestConfig,
}
use kubernetes_kops_operator.Io.{
  Io, pure, fail, crash, perform, act, ◌>>=◌, ◌>>◌, choose, maybe, recovering, error, wrapping,
  opaque_wrap,
}
use kubernetes_kops_operator.Outside.Call.{Call}

-- `configBase[:lastIndex]` panics where there is no slash.
unfoldable pub get_kops_clientset : String → Io (Unit {0})
get_kops_clientset config_base =
    maybe (before_last b'/' config_base) crash (λ path. act (Call.kops_client path))

unfoldable pub validate_kops_cluster :
    RestConfig → KopsCluster → List InstanceGroup → Io ValidationCluster
validate_kops_cluster config cluster groups = do
  act (Call.new_kubernetes_client config)
  wrapping (opaque_wrap "unexpected error creating validator: ")
      (act (Call.new_cluster_validator cluster groups))
  wrapping (opaque_wrap "") (perform Call.validate_cluster)

-- A panic of the kOps library becomes an error.
unfoldable pub build_cloud : KopsCluster → Io (Unit {0})
build_cloud cluster =
    recovering (error ("failed to instantiate cloud for " <> cluster.name))
      do act Call.reset_cloud_instances; act (Call.build_cloud cluster)

unfoldable pub get_kubeconfig_from_kops_state : KopsCluster → Io RestConfig
get_kubeconfig_from_kops_state cluster = do
  act (Call.key_store cluster.name)
  found ← perform (Call.find_keyset "kubernetes-ca")
  ca ←
      choose found (perform (Call.to_certificate_bytes "kubernetes-ca") >>= pure)
        (fail (error "cannot find CA certificate"))
  act (Call.issue_cert "kops-operator")
  cert ← perform Call.cert_bytes
  key ← perform Call.private_key_bytes
  pure (record {
    host = "https://api." <> cluster.name;
    ca_data = ca;
    cert_data = cert;
    key_data = key;
  })

-- What is shared with others is kept.
unfoldable pub unshared : Dict CloudResource → Dict CloudResource
unshared [] = []
unshared ((k, resource) ∷ l) =
    let rest = unshared l in if resource.shared then rest else (k, resource) ∷ rest

-- The standard output, which is silenced meanwhile, is left out.
unfoldable pub kops_delete_resources : KopsCluster → Io (Unit {0})
kops_delete_resources cluster =
    choose (cluster.name == "") (fail (error "cluster name is required")) do
      all ← perform (Call.list_resources cluster.name)
      act (Call.delete_resources (unshared all))
      wrapping (opaque_wrap "error removing cluster from state store: ")
          (act (Call.delete_kops_cluster cluster.name))
