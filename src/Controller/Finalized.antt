-- ===== src/Controller/Finalized.antt =====
-- The control planes that a run of `Reconcile` writes, and their finalizer.
use kubernetes_kops_operator.Prelude.{◌<>◌, true, ◌≡◌, refl, ◌∙◌, ◌⊎◌, inl, inr}
use kubernetes_kops_operator.Api.{KopsControlPlane}
use kubernetes_kops_operator.Api.Meta.{ObjectMeta}
use kubernetes_kops_operator.Api.Kops.{Cluster}
use kubernetes_kops_operator.Io.{World, History}
use kubernetes_kops_operator.Io.Emits.{same}
use kubernetes_kops_operator.Io.Adds.{Adds}
use kubernetes_kops_operator.Io.Sure.{Since, Done-Extends}
use kubernetes_kops_operator.Outside.Call.{Call}
use kubernetes_kops_operator.Outside.Effect.{effect}
use kubernetes_kops_operator.Controller.Body.{Reconciler, Vars}
use kubernetes_kops_operator.Controller.Leads.{Leads-end}
use kubernetes_kops_operator.Controller.Delete.{kops_control_plane_finalizer}
use kubernetes_kops_operator.Controller.Back.{body_effects, Writes, with_deferred-Adds}
use kubernetes_kops_operator.Controller.Released.{Destroyed, Released}
use kubernetes_kops_operator.Controller.Finalizer.{body-Leads}
use kubernetes_kops_operator.Controller.Reconcile.{body, start_vars, with_deferred}

-- A control plane that is written has this metadata, or `X` holds.
abbrev pub MetaOr : ObjectMeta → Type 0 → Call → Type 0
MetaOr meta X (Call.update_kcp k) = (k.meta ≡ meta) ⊎ X
MetaOr meta X _ = Unit

no_object :
    (meta : ObjectMeta) (X : Type 0) (c : Call) → body_effects (effect c) ≡ true → MetaOr meta X c
no_object meta X (Call.update_kcp k) e = cc
no_object meta X _ e = tt

module _ (w : World) (owner : Cluster) (meta : ObjectMeta) (h l : History) where
  back :
      (v : Vars) (j : History)
      → Released w owner.meta.name meta h v j
      → Since j l
      → (c : Call) → Writes v.kcp.meta v.kcp.status.ready c
      → MetaOr meta (Destroyed w owner.meta.name h l) c
  back v j (inl n) s (Call.update_kcp k) e = inl (e ∙ n)
  back v j (inr (d, g)) s (Call.update_kcp k) e = inr (Done-Extends d s, Done-Extends g s)
  back v j p s _ e = tt

-- A run of `Reconcile` behind its guards, for a control plane that has the operator's finalizer: whatever the
-- answers, and whether it is paused, reconciled or deleted, each control plane that it writes has the metadata
-- that was read, with its finalizer, unless in the same run `terraform destroy` succeeded and the cluster was
-- deleted from the kOps state store with success.
pub with_deferred-MetaOr :
    (r : Reconciler) (owner : Cluster) (kcp : KopsControlPlane) (w : World) (h : History)
    → w.contains_finalizer kops_control_plane_finalizer kcp.meta.finalizers ≡ true
    → let (result, k) = with_deferred r owner kcp w h in
      Adds (MetaOr kcp.meta (Destroyed w owner.meta.name h k)) h k
with_deferred-MetaOr r owner kcp w h has =
    let dir = "/tmp/" <> owner.meta.name in
    let (step, u, j) = body r owner dir w (start_vars kcp) h in
    with_deferred-Adds (λ l. MetaOr kcp.meta (Destroyed w owner.meta.name h l)) r owner kcp w h
      (λ l. no_object _ _)
      (λ l.
        back w owner kcp.meta h l u j
          (Leads-end (body-Leads w kcp.meta h has r owner dir) (start_vars kcp) h (refl, same)))
