-- ===== src/Controller/Counted.antt =====
-- The metric of consecutive errors, which the deferred function sets last.
use kubernetes_kops_operator.Prelude.{String, ◌<>◌, false, Option, none, some, ◌∷◌, ◌≡◌, refl}
use kubernetes_kops_operator.Api.{KopsControlPlane, KopsMachinePool}
use kubernetes_kops_operator.Api.Kops.{Cluster}
use kubernetes_kops_operator.Io
use kubernetes_kops_operator.Io.{Error, Result, ok, err, panic, World, History, Io}
use kubernetes_kops_operator.Io.Sure.{OnOk, Sure, Sure-bind}
use kubernetes_kops_operator.Io.Steady.{NoErr, Handles, handles_rules, Steady-emit}
use kubernetes_kops_operator.Outside.Call.{Call}
use kubernetes_kops_operator.Utils.Lenient.{all-Sure}
use kubernetes_kops_operator.Controller.Body.{Reconciler, Vars, Step, next, return, crashed}
use kubernetes_kops_operator.Controller.Deferred.{
  write_kmp, write_kcp, set_gauge, write_back, deferred, environment,
}
use kubernetes_kops_operator.Controller.Reconcile.{
  Returned, body, start_vars, step_error, returned, closed, with_deferred,
}

-- The last call sets the metric of the cluster back, or counts an error.
abbrev pub Counted : Cluster → Option Error → History → Type 0
Counted owner none k =
    (name : String) × (j : History) × (k ≡ Call.errors_reset name (environment owner) ∷ j)
Counted owner (some e) k =
    (name : String) × (j : History) × (k ≡ Call.errors_inc name (environment owner) ∷ j)

-- A result is counted as the error that it comes with; only a panic goes uncounted.
abbrev pub Counts : Cluster → Result Returned × History → Type 0
Counts owner (ok (result, failed), k) = Counted owner failed k
Counts owner (err e, k) = ⊥
Counts owner (panic, k) = Unit

module _ (w : World) (owner : Cluster) where
  gauge-Counted :
      (name : String) (failed : Option Error)
      → Sure w
          (λ k. Unit {0})
          (λ _. Counted owner failed)
          (set_gauge name (environment owner) failed)
  unfolding Io.emit
  gauge-Counted name none = record { at = λ k p. (name, k, refl) }
  gauge-Counted name (some e) = record { at = λ k p. (name, k, refl) }

  write_back-Counted :
      (dir : String) (failed : Option Error) (v : Vars)
      → Sure w (λ k. Unit {0}) (λ _. Counted owner failed) (write_back owner dir failed v)
  unfolding write_back
  write_back-Counted dir failed v = Sure-bind _ _ _ (all-Sure _) λ _.
      Sure-bind _ _ _ (all-Sure _) λ _.
        Sure-bind _ _ _ (all-Sure _)
          λ stored. Sure-bind _ _ _ (all-Sure _) λ _. gauge-Counted stored.meta.name failed

write_kmp-Handles : (kcp : KopsControlPlane) (kmp : KopsMachinePool) → Handles (write_kmp kcp kmp)
unfolding write_kmp
write_kmp-Handles kcp kmp = search handles_rules depth 12

write_kcp-Handles : (kcp : KopsControlPlane) → Handles (write_kcp kcp)
unfolding write_kcp
write_kcp-Handles kcp = search handles_rules depth 12

gauge-Handles : (name env : String) (failed : Option Error) → Handles (set_gauge name env failed)
gauge-Handles name env none = Steady-emit _
gauge-Handles name env (some e) = Steady-emit _

deferred-Handles :
    (r : Reconciler) (owner : Cluster) (dir : String) (failed : Option Error) (v : Vars)
    → Handles (deferred r owner dir failed v)
unfolding deferred write_back
deferred-Handles r owner dir failed v =
    search (handles_rules, write_kmp-Handles, write_kcp-Handles, gauge-Handles) depth 16

deferred-Counted :
    (w : World) (r : Reconciler) (owner : Cluster) (dir : String) (failed : Option Error) (v : Vars)
    → r.dry_run ≡ false
    → Sure w (λ k. Unit {0}) (λ _. Counted owner failed) (deferred r owner dir failed v)
unfolding deferred
deferred-Counted w r owner dir failed v e =
    Sure-bind _ _ _ (all-Sure _) λ _. rw e (write_back-Counted w owner dir failed v)

-- The result of the body with that of the deferred function.
closed-Counts :
    (owner : Cluster) (step : Step (Unit {0})) (done : Result (Unit {0})) (k : History)
    → NoErr (λ a. Unit {0}) done
    → OnOk (λ _. Counted owner (step_error step)) (done, k)
    → Counts owner (closed (returned step) done, k)
closed-Counts owner (next a) (ok b) k n c = c
closed-Counts owner (return x e) (ok b) k n c = c
closed-Counts owner crashed (ok b) k n c = tt
closed-Counts owner step (err e) k n c = absurd n
closed-Counts owner step panic k n c = tt

-- A run of `Reconcile` behind its guards that is not dry panics, or returns a result, perhaps with an error, and
-- its last call is then the one on the metric of consecutive errors, for the environment of the cluster: with an
-- error it counts one more, without one it sets the count back.
pub with_deferred-Counts :
    (r : Reconciler) (owner : Cluster) (kcp : KopsControlPlane) (w : World) (h : History)
    → r.dry_run ≡ false
    → Counts owner (with_deferred r owner kcp w h)
unfolding with_deferred
with_deferred-Counts r owner kcp w h e =
    let dir = "/tmp/" <> owner.meta.name in
    let (step, v, k) = body r owner dir w (start_vars kcp) h in
    closed-Counts owner step (deferred r owner dir (step_error step) v w k).0
      (deferred r owner dir (step_error step) v w k).1
      ((deferred-Handles r owner dir (step_error step) v).at w k)
      ((deferred-Counted w r owner dir (step_error step) v e).at k tt)
