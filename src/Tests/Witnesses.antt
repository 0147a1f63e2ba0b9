-- ===== src/Tests/Witnesses.antt =====
-- The theorems about Reconcile at concrete inputs.
use kubernetes_kops_operator.Prelude.{true, false, none, some, [], refl}
use kubernetes_kops_operator.Io.Emits.{Extends}
use kubernetes_kops_operator.Io.Sure.{OnOk, Done}
use kubernetes_kops_operator.Outside.Call.{Call}
use kubernetes_kops_operator.Controller.Reconcile.{reconcile, with_deferred}
use kubernetes_kops_operator.Controller.DryRun.{dry_effects, reconcile-dry}
use kubernetes_kops_operator.Controller.Released.{Destroyed}
use kubernetes_kops_operator.Api.Kops.{InstanceGroup}
use kubernetes_kops_operator.Controller.State.{create_or_update_kops_cluster}
use kubernetes_kops_operator.Controller.Written.{ClusterWritten, cluster-Written}
use kubernetes_kops_operator.Controller.Ready.{Passed}
use kubernetes_kops_operator.Controller.Counted.{Counts, with_deferred-Counts}
use kubernetes_kops_operator.Controller.Finalized.{MetaOr, with_deferred-MetaOr}
use kubernetes_kops_operator.Controller.Statuses.{ReadyOnly, with_deferred-ReadyOnly}
use kubernetes_kops_operator.Io.Adds.{Adds}
use kubernetes_kops_operator.Controller.Deferred.{write_kcp, write_kmp}
use kubernetes_kops_operator.Controller.Restores.{WritesKcpStatus, WritesKmpStatus, write-Restores}
use kubernetes_kops_operator.Tests.Data.{
  world, reconciler, key, owner, kcp_of, pool_of, kops_cluster, meta_of,
}

reconcile-dry_example : Extends dry_effects [] (reconcile (reconciler true) key (world none) []).1
reconcile-dry_example = reconcile-dry (reconciler true) key refl (world none) []

MetaOr_example :
    let (result, k) =
      with_deferred (reconciler false) owner (kcp_of (some 1)) (world (some 1)) [] in
    Adds (MetaOr (meta_of (some 1)) (Destroyed (world (some 1)) owner.meta.name [] k)) [] k
MetaOr_example =
    with_deferred-MetaOr (reconciler false) owner (kcp_of (some 1)) (world (some 1)) [] refl

ReadyOnly_example :
    let (result, k) = with_deferred (reconciler false) owner (kcp_of none) (world none) [] in
    Adds (ReadyOnly (Passed (world none) (Done (world none) Call.tf_apply []) k)) [] k
ReadyOnly_example =
    with_deferred-ReadyOnly (reconciler false) owner (kcp_of none) (world none) [] refl

Restores_example :
    Adds (WritesKcpStatus (kcp_of none).status) [] (write_kcp (kcp_of none) (world none) []).1
    × Adds
        (WritesKmpStatus (pool_of none).status)
        []
        (write_kmp (kcp_of none) (pool_of none) (world none) []).1
Restores_example = write-Restores (kcp_of none) (pool_of none) (world none) []

ClusterWritten_example :
    OnOk
      (λ _. ClusterWritten (world none) kops_cluster "ssh-rsa" [])
      (create_or_update_kops_cluster kops_cluster "ssh-rsa" (world none) [])
ClusterWritten_example = cluster-Written (world none) [] kops_cluster "ssh-rsa"

abbrev nodes : InstanceGroup
nodes = record {
  name = "nodes";
  namespace = "clusters";
  labels = [];
  spec = (pool_of none).spec.kops_instance_group_spec;
}

Counts_example : Counts owner (with_deferred (reconciler false) owner (kcp_of none) (world none) [])
Counts_example = with_deferred-Counts (reconciler false) owner (kcp_of none) (world none) [] refl
