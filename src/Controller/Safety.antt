-- ===== src/Controller/Safety.antt =====
-- The lock of the reconciler over a whole run of `Reconcile`.
use kubernetes_kops_operator.Prelude.{String, Bool, true, false, not, Option, ◌≡◌, refl, arith}
use kubernetes_kops_operator.Api.{KopsControlPlane}
use kubernetes_kops_operator.Api.Meta.{ObjectKey}
use kubernetes_kops_operator.Api.Kops.{Cluster}
use kubernetes_kops_operator.Io.{Error, World, History, pure, emit, when}
use kubernetes_kops_operator.Io.Emits.{Emits-when}
use kubernetes_kops_operator.Io.Preserves.{Keeping, Preserves-Emits, Preserves-after}
use kubernetes_kops_operator.Outside.Call.{Call}
use kubernetes_kops_operator.Outside.Effect.{Effect, effect}
use kubernetes_kops_operator.Controller.Body.{Reconciler, Vars}
use kubernetes_kops_operator.Controller.Writing.{write_back-Emits}
use kubernetes_kops_operator.Controller.Leads.{Leads-end}
use kubernetes_kops_operator.Controller.Lock.{held, Disciplined, free_effects, Settled, free_call}
use kubernetes_kops_operator.Controller.Discipline.{
  free, Holds-Settled, delete_cluster-Leads, reconcile_cluster-Leads,
}
use kubernetes_kops_operator.Controller.Whole.{
  quiet_effects, body-Leads, reconcile-Preserves, with_deferred-Preserves,
}
use kubernetes_kops_operator.Controller.Deferred.{deferred}
use kubernetes_kops_operator.Controller.Reconcile.{start_vars, body, reconcile}

-- The lock is free, and every call so far was right at its time.
abbrev pub Free : History → Type 0
Free h = (held h ≡ false) × Disciplined h

pub keeps_Free : Keeping Free free_effects
keeps_Free c h e (l, d) = let (kept, fine) = free_call c (held h) e in (cc, (cc, d))

pub quiet-Free : Keeping Free quiet_effects
quiet-Free c h e p = keeps_Free c h (quiet_is_free (effect c) e) p
  where
    quiet_is_free : (x : Effect) → quiet_effects x ≡ true → free_effects x ≡ true
    quiet_is_free Effect.observe e = refl
    quiet_is_free _ e = ground arith

unlocked :
    (b : Bool) (w : World) (h : History)
    → (held h ≡ b) × Disciplined h
    → Free (when b (emit Call.mux_unlock) w h).1
unfolding emit pure
unlocked true w h (l, d) = (refl, (l, d))
unlocked false w h p = p

module _ (r : Reconciler) (owner : Cluster) (dir : String) where
  deferred-Free :
      (failed : Option Error) (w : World) (v : Vars) (h : History)
      → Settled v h
      → Free (deferred r owner dir failed v w h).1
  unfolding deferred
  deferred-Free failed w v h p = Preserves-after _ _ w h (unlocked v.should_unlock w h p) λ _.
      Preserves-Emits free_effects _ keeps_Free (
        Emits-when (not r.dry_run) _
          λ b. write_back-Emits refl refl refl refl refl owner dir failed v)

  body-Settled :
      (kcp : KopsControlPlane) (w : World) (h : History)
      → Free h
      → let (step, v, k) = body r owner dir w (start_vars kcp) h in Settled v k
  body-Settled kcp w h (l, d) =
      Leads-end
        (body-Leads free refl refl (Holds-Settled false) r owner dir kcp.meta
          (λ k m b cluster creds. delete_cluster-Leads r cluster dir creds)
          (λ k m b cluster creds. reconcile_cluster-Leads r owner cluster dir creds))
        (start_vars kcp) h (refl, (refl, l, d))

pub reconcile-Free :
    (r : Reconciler) (key : ObjectKey) (w : World) (h : History)
    → Free h
    → Free (reconcile r key w h).1
reconcile-Free r key =
    (reconcile-Preserves quiet-Free r key λ owner kcp.
      with_deferred-Preserves r owner kcp Settled (body-Settled r owner _ kcp)
        (deferred-Free r owner _)).at
