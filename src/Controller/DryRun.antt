-- ===== src/Controller/DryRun.antt =====
-- A dry run, and a control plane that is kept: what `Reconcile` leaves untouched.
use kubernetes_kops_operator.Prelude.{true, false, ◌≡◌, refl, arith}
use kubernetes_kops_operator.Api.{KopsControlPlane}
use kubernetes_kops_operator.Api.Meta.{ObjectKey}
use kubernetes_kops_operator.Io.{World, History}
use kubernetes_kops_operator.Io.Emits.{Extends, Extends-trans, same, more}
use kubernetes_kops_operator.Io.Preserves.{Keeping}
use kubernetes_kops_operator.Outside.Effect.{Effect, Effects, effect}
use kubernetes_kops_operator.Controller.Body.{Reconciler}
use kubernetes_kops_operator.Controller.Delete.{should_delete_cluster}
use kubernetes_kops_operator.Controller.Whole.{quiet_effects, reconcile-Preserves}
use kubernetes_kops_operator.Controller.Reach.{Reaches, with_deferred-Past}
use kubernetes_kops_operator.Controller.Reconcile.{reconcile}

-- What a dry run may do: read, report, wait, set up the process, write files, run `terraform plan`, and
-- replace the addons in the state store.
abbrev pub dry_effects : Effects
dry_effects Effect.kube_secret = false
dry_effects Effect.kube_write = false
dry_effects Effect.kube_status = false
dry_effects Effect.kube_delete = false
dry_effects Effect.kops_write = false
dry_effects Effect.kops_delete = false
dry_effects Effect.tf_apply_run = false
dry_effects Effect.tf_destroy_run = false
dry_effects Effect.serving = false
dry_effects _ = true

-- Everything but the destruction of the cluster.
abbrev pub keeping_effects : Effects
keeping_effects Effect.kops_delete = false
keeping_effects Effect.tf_destroy_run = false
keeping_effects _ = true

dry_Reaches : (r : Reconciler) → r.dry_run ≡ true → Reaches dry_effects r
dry_Reaches r dry = record {
  observes = refl;
  reports = refl;
  waits = refl;
  sets = refl;
  files = refl;
  prepares = refl;
  addons = refl;
  locks = refl;
  plans = λ _. refl;
  applies = λ wet. cc;
  secrets = λ wet. cc;
  state = λ wet. cc;
  deletes = λ wet. cc;
}

spared :
    (r : Reconciler) (kcp : KopsControlPlane)
    → r.dry_run ≡ true
    → should_delete_cluster r kcp ≡ false
unfolding should_delete_cluster
spared r kcp dry = ground arith

pub quiet_dry : (h : History) → Keeping (Extends dry_effects h) quiet_effects
quiet_dry h c k e p = more c (quiet_is_dry (effect c) e) p
  where
    quiet_is_dry : (x : Effect) → quiet_effects x ≡ true → dry_effects x ≡ true
    quiet_is_dry Effect.observe e = refl
    quiet_is_dry _ e = ground arith

-- A dry run changes no object of the API, no cluster, secret or instance group of the state store, and no
-- cloud resource: on every path, whatever the answers, each call it makes has an effect in `dry_effects`.
pub reconcile-dry :
    (r : Reconciler) (key : ObjectKey)
    → r.dry_run ≡ true
    → (w : World) (h : History) → Extends dry_effects h (reconcile r key w h).1
reconcile-dry r key dry w h =
    (reconcile-Preserves {H = Extends dry_effects h} (quiet_dry h) r key λ owner kcp. record {
      at = λ x k p. Extends-trans p (
          with_deferred-Past (dry_Reaches r dry) (λ wet. cc) (λ wet. cc) owner kcp
            (spared r kcp dry) x k);
    }).at
      w h same
