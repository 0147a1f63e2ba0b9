-- ===== src/Entry.antt =====
-- main.go: the loop of a dry run over the control planes.
pub mod Selection
pub mod Start
pub mod Serving
use kubernetes_kops_operator.Prelude.{
  ◌<>◌, Bool, true, false, not, ◌&&◌, ◌||◌, ◌==◌, Option, none, some, List, [], ◌∷◌, ◌≡◌, refl,
}
use kubernetes_kops_operator.Prelude.Text.{quoted}
use kubernetes_kops_operator.Api.{KopsControlPlane}
use kubernetes_kops_operator.Api.Meta.{ObjectKey}
use kubernetes_kops_operator.Io.{
  Error, World, History, Io, pure, fail, perform, ◌>>=◌, choose, maybe, error,
}
use kubernetes_kops_operator.Io.Emits.{Extends, Extends-trans, Emits-perform, Emits-fail, same}
use kubernetes_kops_operator.Io.Preserves.{
  Keeping, Preserves, Preserves-bind, Preserves-pure, Preserves-Emits,
}
use kubernetes_kops_operator.Outside.Call.{Call}
use kubernetes_kops_operator.Controller.Body.{Reconciler}
use kubernetes_kops_operator.Controller.Reconcile.{reconcile}
use kubernetes_kops_operator.Controller.Whole.{quiet_effects}
use kubernetes_kops_operator.Controller.Safety.{Free, reconcile-Free, quiet-Free}
use kubernetes_kops_operator.Controller.DryRun.{dry_effects, reconcile-dry, quiet_dry}

abbrev pub is_selected : Reconciler → KopsControlPlane → Bool
is_selected r kcp =
    kcp.spec.controller_class == r.controller_class
    && (r.cluster == "" || kcp.meta.name == r.cluster)

-- The context of one reconciliation, and its empty request.
abbrev pub with_context : Reconciler → KopsControlPlane → Reconciler
with_context r kcp = record r { ctx_reader = true; ctx_kcp = some kcp }

abbrev pub no_request : ObjectKey
no_request = record { namespace = ""; name = "" }

-- `os.Exit(1)` is an error. The result is whether some control plane was planned.
unfoldable pub plan_loop : Reconciler → List KopsControlPlane → Bool → Io Bool
plan_loop r [] planned = pure planned
plan_loop r (kcp ∷ l) planned =
    let rest = plan_loop r l in
    choose (is_selected r kcp)
      (reconcile (with_context r kcp) no_request >>= λ returned. maybe returned.1 (rest true) fail)
      (rest planned)

unfoldable pub run_dry : Reconciler → Io (Unit {0})
unfolding plan_loop
run_dry r = do
  kcps ← perform Call.list_kcps
  planned ← plan_loop r kcps false
  choose (not (r.cluster == "") && not planned)
      (fail (
        error (
          "no Kops Control Plane "
          <> (quoted r.cluster <> (" with controller class " <> quoted r.controller_class)))))
      (pure tt)

module _ {H : History → Type 0} (quiet : Keeping H quiet_effects) (r : Reconciler)
    (each : (kcp : KopsControlPlane)
      → Preserves H (reconcile (with_context r kcp) no_request)) where
  fails : {A : Type 0} (e : Error) → Preserves H (fail {A = A} e)
  fails e = Preserves-Emits quiet_effects _ quiet (Emits-fail e)

  going_on : (o : Option Error) (m : Io Bool) → Preserves H m → Preserves H (maybe o m fail)
  going_on none m p = p
  going_on (some e) m p = fails e

  choosing :
      {A : Type 0} (b : Bool) (m n : Io A)
      → Preserves H m
      → Preserves H n
      → Preserves H (choose b m n)
  choosing true m n p q = p
  choosing false m n p q = q

  plan_loop-Preserves :
      (l : List KopsControlPlane) (planned : Bool) → Preserves H (plan_loop r l planned)
  unfolding plan_loop
  plan_loop-Preserves [] planned = Preserves-pure planned
  plan_loop-Preserves (kcp ∷ l) planned =
      choosing (is_selected r kcp) _ _
        (Preserves-bind _ _ (each kcp)
          λ returned. going_on returned.1 _ (plan_loop-Preserves l true))
        (plan_loop-Preserves l planned)

  run_dry-Preserves : Preserves H (run_dry r)
  unfolding run_dry
  run_dry-Preserves =
      Preserves-bind _ _ (Preserves-Emits quiet_effects _ quiet (Emits-perform Call.list_kcps refl))
        λ kcps.
          Preserves-bind _ _ (plan_loop-Preserves kcps false)
            λ planned. choosing _ _ _ (fails _) (Preserves-pure tt)

pub run_dry-Extends :
    (r : Reconciler)
    → r.dry_run ≡ true
    → (h : History) → Preserves (Extends dry_effects h) (run_dry r)
run_dry-Extends r dry h = run_dry-Preserves {H = Extends dry_effects h} (quiet_dry h) r (λ kcp.
    record {
      at = λ x k p. Extends-trans p (reconcile-dry (with_context r kcp) no_request dry x k);
    })

pub run_dry-Free : (r : Reconciler) → Preserves Free (run_dry r)
run_dry-Free r =
    run_dry-Preserves {H = Free} quiet-Free r
      (λ kcp. record { at = reconcile-Free (with_context r kcp) no_request })

-- A dry run over all control planes, whatever it meets: each call that it makes has an effect in
-- `dry_effects`, and if the mutex was free at its start, it is free at its end.
pub run_dry-dry :
    (r : Reconciler)
    → r.dry_run ≡ true
    → (w : World) (h : History) → Free h
    → Extends dry_effects h (run_dry r w h).1 × Free (run_dry r w h).1
run_dry-dry r dry w h free = ((run_dry-Extends r dry h).at w h same, (run_dry-Free r).at w h free)
