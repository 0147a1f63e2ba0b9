-- ===== src/Controller/Statuses.antt =====
-- The statuses of control planes that a run of `Reconcile` writes.
use kubernetes_kops_operator.Prelude.{◌∙◌, ◌<>◌, true, false, ◌≡◌, ◌⊎◌, inl, inr}
use kubernetes_kops_operator.Api.{KopsControlPlane}
use kubernetes_kops_operator.Api.Meta.{ObjectMeta}
use kubernetes_kops_operator.Api.Kops.{Cluster}
use kubernetes_kops_operator.Io.{World, History}
use kubernetes_kops_operator.Io.Emits.{Extends-trans}
use kubernetes_kops_operator.Io.Adds.{Adds}
use kubernetes_kops_operator.Io.Sure.{Since, Done}
use kubernetes_kops_operator.Outside.Call.{Call}
use kubernetes_kops_operator.Outside.Effect.{effect}
use kubernetes_kops_operator.Controller.Body.{Reconciler, Vars}
use kubernetes_kops_operator.Controller.Back.{body_effects, Writes, with_deferred-Adds}
use kubernetes_kops_operator.Controller.Ready.{Passed, ReadyPassed}
use kubernetes_kops_operator.Controller.Granted.{body-Granted}
use kubernetes_kops_operator.Controller.Reconcile.{body, start_vars, with_deferred}

-- A control plane whose status is written is not ready, or `X` holds.
abbrev pub ReadyOnly : Type 0 → Call → Type 0
ReadyOnly X (Call.update_kcp_status k) = (k.status.ready ≡ false) ⊎ X
ReadyOnly X _ = Unit

no_status : (X : Type 0) (c : Call) → body_effects (effect c) ≡ true → ReadyOnly X c
no_status X (Call.update_kcp_status k) e = cc
no_status X _ e = tt

module _ (w : World) (F : History → Type 0) (meta : ObjectMeta) (l : History) where
  back :
      (v : Vars) (j : History)
      → ReadyPassed w F v j
      → Since j l
      → (c : Call) → Writes meta v.kcp.status.ready c
      → ReadyOnly (Passed w F l) c
  back v j (inl n) s (Call.update_kcp_status k) e = inl (e ∙ n)
  back v j (inr (i, x, f, a, t, q)) s (Call.update_kcp_status k) e =
      inr (i, x, f, a, t, Extends-trans q s)
  back v j p s _ e = tt

-- A run of `Reconcile` behind its guards, for a cluster that is not paused: whatever the answers, each status
-- of the control plane that it writes is not ready, unless in the same run `terraform apply` succeeded, and
-- after that the validator of kOps answered with a result in which each failure is one of a pod and no node
-- has the status False.
pub with_deferred-ReadyOnly :
    (r : Reconciler) (owner : Cluster) (kcp : KopsControlPlane) (w : World) (h : History)
    → w.has_paused owner.meta ≡ false
    → let (result, k) = with_deferred r owner kcp w h in
      Adds (ReadyOnly (Passed w (Done w Call.tf_apply h) k)) h k
with_deferred-ReadyOnly r owner kcp w h e =
    let dir = "/tmp/" <> owner.meta.name in
    let (step, u, j) = body r owner dir w (start_vars kcp) h in
    with_deferred-Adds (λ l. ReadyOnly (Passed w (Done w Call.tf_apply h) l)) r owner kcp w h
      (λ l. no_status _)
      (λ l. back w (Done w Call.tf_apply h) u.kcp.meta l u j (body-Granted r owner kcp dir w h e))
