-- ===== src/Controller/Reconcile.antt =====
-- `Reconcile`: the object, the guards, the owner, and the body with its deferred function.
use kubernetes_kops_operator.Prelude.{
  String, ◌<>◌, Bool, true, false, not, Option, none, some, [], ◌==◌, ◌&&◌, if◌then◌else◌,
}
use kubernetes_kops_operator.Prelude.Text.{quoted}
use kubernetes_kops_operator.Api.{KopsControlPlane}
use kubernetes_kops_operator.Api.Meta.{ObjectKey}
use kubernetes_kops_operator.Api.Kops.{KopsCluster, Cluster, ClusterSpec}
use kubernetes_kops_operator.Io
use kubernetes_kops_operator.Io.{Error, Result, ok, err, panic, World, History, Io, error}
use kubernetes_kops_operator.Outside.Call.{Call}
use kubernetes_kops_operator.Kops.Cidr.{calculate_service_cluster_ip_range}
use kubernetes_kops_operator.Utils.Objects.{get_aws_credentials}
use kubernetes_kops_operator.Controller.Owner.{get_cluster_owner_ref}
use kubernetes_kops_operator.Controller.Delete.{
  should_delete_cluster, report_protection, delete_cluster,
}
use kubernetes_kops_operator.Controller.Apply.{reconcile_cluster}
use kubernetes_kops_operator.Controller.Deferred.{deferred}
use kubernetes_kops_operator.Controller.Body.{
  CtrlResult, Reconciler, Vars, Step, next, return, crashed, Body, pure, exit, gets, asks, ◌>>=◌,
  ◌>>◌, modify_kcp, report, run, checked, choose, when,
}

abbrev pub Returned : Type 0
Returned = CtrlResult × Option Error

-- Either a value or what is returned at once.
pub data Early (A : Type 0) : Type 0 where
  found : A → Early A
  leave : CtrlResult → Option Error → Early A

-- The control plane of the request: from the context in a dry run, from the API otherwise.
unfoldable pub load_kcp : Reconciler → ObjectKey → Io (Early KopsControlPlane)
load_kcp r key =
    Io.choose r.dry_run
      (Io.choose (not r.ctx_reader)
        (Io.pure (
          leave CtrlResult.result_not_requeue
            (some (error "failed to get kube reader client object"))))
        (Io.maybe r.ctx_kcp
          (Io.pure (leave CtrlResult.result_not_requeue (some (error "failed to get kcp object"))))
          (λ kcp. Io.pure (found kcp))))
      (Io.try (Io.perform (Call.get_kcp key)) (λ kcp. Io.pure (found kcp))
        (λ e. Io.pure (leave CtrlResult.result_error (if e.not_found then none else some e))))

abbrev pub leave_with : {A : Type 0} → String → String → CtrlResult → Option Error → Io (Early A)
leave_with reason message result failed =
    Io.◌>>=◌ (Io.emit (Call.event reason message)) (λ _. Io.pure (leave result failed))

-- The Cluster that owns the control plane; without one the request is tried again.
unfoldable pub find_owner : KopsControlPlane → Io (Early Cluster)
find_owner kcp =
    Io.try (get_cluster_owner_ref kcp.meta)
      (λ owner.
        Io.maybe owner (leave_with "NoClusterYet" kcp.meta.name CtrlResult.requeue_1min none)
          (λ cluster. Io.pure (found cluster)))
      (λ e.
        Io.choose e.not_found
          (leave_with "ClusterDoesNotExistYet" kcp.meta.name CtrlResult.requeue_1min none)
          (leave_with "FailedToGetClusterMetadata" e.message CtrlResult.result_error (some e)))

-- The guards in front of the owner.
unfoldable pub select : Reconciler → KopsControlPlane → Io (Early Cluster)
unfolding find_owner
select r kcp =
    Io.choose (not (kcp.spec.controller_class == r.controller_class))
      (leave_with "ClusterManagedByDifferentControllerClass" kcp.meta.name
        CtrlResult.result_not_requeue none)
      (Io.choose (not (r.cluster == "") && not (kcp.meta.name == r.cluster))
        (Io.pure (leave CtrlResult.result_not_requeue none)) (find_owner kcp))

abbrev pub set_paused : Bool → Body (Unit {0})
set_paused paused = modify_kcp (λ w k. record k { status = record k.status { paused = paused } })

-- Not paused, and not ready until the validation says so.
unfoldable pub set_active : Body (Unit {0})
set_active =
    modify_kcp (λ w k. record k { status = record k.status { paused = false; ready = false } })

-- The kOps cluster: the spec of the control plane, with a service range if it has none.
abbrev kops_cluster : Cluster → ClusterSpec → KopsCluster
kops_cluster owner spec = record { name = owner.meta.name; spec = spec }

unfoldable pub make_cluster : Cluster → Body KopsCluster
make_cluster owner = do
  kcp ← gets (λ v. v.kcp)
  let spec = kcp.spec.kops_cluster_spec
  choose (spec.service_cluster_ip_range == "")
      (do
        computed ← asks (λ w. calculate_service_cluster_ip_range w spec.non_masquerade_cidr)
        range ← run (Io.lift computed) (λ e. exit CtrlResult.result_error (
            some (
              error (
                "error parsing NonMasqueradeCIDR "
                <> (quoted spec.non_masquerade_cidr <> (": " <> e.message))))))
        pure (kops_cluster owner (record spec { service_cluster_ip_range = range })))
      (pure (kops_cluster owner spec))

-- Everything behind the deferred function.
unfoldable pub body : Reconciler → Cluster → String → Body (Unit {0})
unfolding set_active make_cluster
body r owner dir = do
  paused ← asks (λ w. w.has_paused owner.meta)
  when paused (
      report "ClusterPaused" owner.meta.name
      >> set_paused true
      >> exit CtrlResult.result_default none)
  set_active
  kcp ← gets (λ v. v.kcp)
  creds ← checked (get_aws_credentials kcp.spec.identity_ref.name kcp.spec.identity_ref.namespace)
  cluster ← make_cluster owner
  report_protection r
  choose (should_delete_cluster r kcp) (delete_cluster r cluster dir creds)
      (reconcile_cluster r owner cluster dir creds)

-- What the named results hold when the deferred function runs; a panic goes on behind it.
abbrev pub returned : Step (Unit {0}) → Result Returned
returned (next a) = ok (CtrlResult.result_not_requeue, none)
returned (return r e) = ok (r, e)
returned crashed = panic

abbrev pub step_error : Step (Unit {0}) → Option Error
step_error (return r e) = e
step_error _ = none

-- The deferred function runs on every way out of the body. Its own panic replaces the result.
abbrev pub closed : Result Returned → Result (Unit {0}) → Result Returned
closed r (ok _) = r
closed r (err _) = r
closed r panic = panic

abbrev pub start_vars : KopsControlPlane → Vars
start_vars kcp = record { kcp = kcp; kmps = []; should_unlock = false }

unfoldable pub with_deferred : Reconciler → Cluster → KopsControlPlane → Io Returned
unfolding body deferred
with_deferred r owner kcp w h =
    let dir = "/tmp/" <> owner.meta.name in
    let (step, v, k) = body r owner dir w (start_vars kcp) h in
    let (done, l) = deferred r owner dir (step_error step) v w k in (closed (returned step) done, l)

abbrev pub or_leave : {A : Type 0} → Early A → (A → Io Returned) → Io Returned
or_leave (found a) f = f a
or_leave (leave r e) f = Io.pure (r, e)

unfoldable pub reconcile : Reconciler → ObjectKey → Io Returned
unfolding load_kcp select with_deferred
reconcile r key = Io.◌>>=◌ (load_kcp r key) λ loaded.
    or_leave loaded
      λ kcp. Io.◌>>=◌ (select r kcp) λ owned. or_leave owned λ owner. with_deferred r owner kcp
