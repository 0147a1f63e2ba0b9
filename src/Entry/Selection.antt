-- ===== src/Entry/Selection.antt =====
-- The control planes that the dry run selects are those that `Reconcile` lets pass its guards.
use kubernetes_kops_operator.Prelude.{Bool, true, false, not, ◌&&◌, ◌||◌, ◌==◌, none, ◌≡◌, refl}
use kubernetes_kops_operator.Api.{KopsControlPlane}
use kubernetes_kops_operator.Api.Meta.{ObjectKey}
use kubernetes_kops_operator.Io
use kubernetes_kops_operator.Io.{Result, ok, World, History, Io, continue, choose}
use kubernetes_kops_operator.Io.Emits.{Extends, same, more}
use kubernetes_kops_operator.Outside.Effect.{Effect, Effects}
use kubernetes_kops_operator.Controller.Body.{CtrlResult, Reconciler}
use kubernetes_kops_operator.Controller.Reconcile.{
  Returned, found, leave, load_kcp, find_owner, select, with_deferred, or_leave, leave_with,
  reconcile,
}
use kubernetes_kops_operator.Entry.{is_selected}

abbrev pub report_effects : Effects
report_effects Effect.report = true
report_effects _ = false

-- Left at once with nothing to do, and with events at most.
abbrev pub Ignored : Result Returned × History → History → Type 0
Ignored (result, l) k =
    (result ≡ ok (CtrlResult.result_not_requeue, none)) × Extends report_effects k l

-- From the owner of the control plane on.
abbrev pub owned_by : Reconciler → KopsControlPlane → Io Returned
owned_by r kcp =
    Io.◌>>=◌ (find_owner kcp) λ owned. or_leave owned λ owner. with_deferred r owner kcp

-- `run` goes on from `k` if the control plane is selected, and ignores it if not.
abbrev pub ByChoice :
    Bool → Result Returned × History → Result Returned × History → History → Type 0
ByChoice true whole rest k = whole ≡ rest
ByChoice false whole rest k = Ignored whole k

by_tests :
    (right all named : Bool) (r : Reconciler) (kcp : KopsControlPlane) (w : World) (k : History)
    → ByChoice
        (right && (all || named))
        (Io.◌>>=◌
          (choose
            (not right)
            (leave_with "ClusterManagedByDifferentControllerClass" kcp.meta.name
              CtrlResult.result_not_requeue none)
            (choose
              (not all && not named)
              (Io.pure (leave CtrlResult.result_not_requeue none))
              (find_owner kcp)))
          (λ owned. or_leave owned λ owner. with_deferred r owner kcp)
          w
          k)
        (owned_by r kcp w k)
        k
unfolding Io.◌>>=◌ Io.pure Io.emit
by_tests true true named r kcp w k = refl
by_tests true false true r kcp w k = refl
by_tests true false false r kcp w k = (refl, same)
by_tests false all named r kcp w k = (refl, more _ refl same)

-- Whatever was loaded for a request: if the dry run would select the control plane, `Reconcile` goes on with
-- its owner; if not, it returns without an error and without another request, and has only sent events.
pub reconcile-is_selected :
    (r : Reconciler) (key : ObjectKey) (kcp : KopsControlPlane) (w : World) (h k : History)
    → load_kcp r key w h ≡ (ok (found kcp), k)
    → ByChoice (is_selected r kcp) (reconcile r key w h) (owned_by r kcp w k) k
unfolding reconcile select Io.◌>>=◌
reconcile-is_selected r key kcp w h k e = rw e (
    by_tests (kcp.spec.controller_class == r.controller_class) (r.cluster == "")
      (kcp.meta.name == r.cluster) r kcp w k)
