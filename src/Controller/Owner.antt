-- ===== src/Controller/Owner.antt =====
-- The Cluster object that owns a control plane, and the kubeconfig secret made for it.
use kubernetes_kops_operator.Prelude.{String, Option, none, some, List, [], ◌∷◌, ◌==◌}
use kubernetes_kops_operator.Api.Meta.{ObjectMeta, OwnerReference, ObjectReference, ObjectKey}
use kubernetes_kops_operator.Api.Kops.{Cluster, RestConfig, KubeconfigSecret}
use kubernetes_kops_operator.Io.{
  Io, pure, fail, ask, lift, perform, act, ◌>>=◌, try, choose, wrap, wrapping,
}
use kubernetes_kops_operator.Outside.Call.{Call}

unfoldable pub get_owner_by_ref : ObjectReference → Io (Option Cluster)
get_owner_by_ref ref = perform (Call.get_owner ref) >>= λ owner. pure (some owner)

-- The reference carries no UID.
abbrev pub cluster_reference : ObjectMeta → OwnerReference → ObjectReference
cluster_reference meta ref = record {
  api_version = ref.api_version;
  kind = ref.kind;
  namespace = meta.namespace;
  name = ref.name;
  uid = "";
}

-- The first owner reference of kind Cluster decides.
unfoldable pub find_cluster_owner : ObjectMeta → List OwnerReference → Io (Option Cluster)
find_cluster_owner meta [] = pure none
find_cluster_owner meta (ref ∷ refs) =
    choose (ref.kind == "Cluster") (get_owner_by_ref (cluster_reference meta ref))
      (find_cluster_owner meta refs)

unfoldable pub get_cluster_owner_ref : ObjectMeta → Io (Option Cluster)
unfolding find_cluster_owner
get_cluster_owner_ref meta = find_cluster_owner meta meta.owner_references

-- `secret.GetFromNamespacedName(…, secret.Kubeconfig)` decides between creation and update.
unfoldable pub reconcile_kubeconfig : RestConfig → String → Cluster → Io (Unit {0})
reconcile_kubeconfig config context cluster = do
  yaml ← ask (λ w. w.kubeconfig_yaml config cluster.meta.name context)
  text ← wrapping (wrap "failed to serialize config to yaml") (lift yaml)
  let secret : KubeconfigSecret = record {
    namespace = cluster.meta.namespace;
    name = cluster.meta.name;
    owner_uid = cluster.meta.uid;
    content = text;
  }
  let key : ObjectKey = record { namespace = cluster.meta.namespace; name = cluster.meta.name }
  try (act (Call.get_kubeconfig_secret key))
      (λ _. wrapping (wrap "failed updating kubeconfig secret") (act (Call.update_secret secret)))
      λ e.
        choose e.not_found
          (wrapping (wrap "failed creating kubeconfig secret") (act (Call.create_secret secret)))
          (fail (wrap "failed to get kubeconfig secret" e))
