-- ===== src/Controller/Ready.antt =====
-- The last block of `Reconcile`: what makes a control plane ready.
use kubernetes_kops_operator.Prelude.{
  ◌<>◌, String, Bool, true, false, Option, List, ◌∷◌, ◌≡◌, refl, ◌⊎◌, inl, inr, is_empty, sym,
}
use kubernetes_kops_operator.Api.Kops.{KopsCluster, InstanceGroup, RestConfig, ValidationCluster}
use kubernetes_kops_operator.Io
use kubernetes_kops_operator.Io.{Error, Result, ok, err, panic, World, History, Io}
use kubernetes_kops_operator.Io.Emits.{same, more, Emits-perform, emits_rules}
use kubernetes_kops_operator.Io.Sure.{
  all_effects, Since, OnOk, Sure, Sure-and, Sure-bind, Sure-given, Sure-kept, Sure-pure,
  Sure-wrapping,
}
use kubernetes_kops_operator.Outside.Effect.{effect}
use kubernetes_kops_operator.Outside.Call.{Call}
use kubernetes_kops_operator.Utils.Cluster.{validate_kops_cluster}
use kubernetes_kops_operator.Utils.Validation.{
  evaluate_kops_validation_result, kops_cluster_validation,
}
use kubernetes_kops_operator.Utils.Verdict.{Tolerated, evaluate-Tolerated}
use kubernetes_kops_operator.Utils.Effects.{kops_cluster_validation-Emits}
use kubernetes_kops_operator.Utils.Lenient.{all-Sure}
use kubernetes_kops_operator.Controller.Body.{
  CtrlResult, Vars, report, exit, modify_kcp, ◌>>=◌, when,
}
use kubernetes_kops_operator.Controller.Keeps.{Invariant, Keeps-pure}
use kubernetes_kops_operator.Controller.Leads.{
  Leads, Leads-given, Leads-Keeps, LeavesValue, Leads-bind, Leads-exit, Leads-value, Leads-end,
}
use kubernetes_kops_operator.Controller.Apply.{validate, no_groups, groups_for, set_ready}

abbrev pub NotReady : Invariant
NotReady v h = v.kcp.status.ready ≡ false

-- What holds of the history when the last block starts, and stays.
module _ (w : World) (F : History → Type 0) where
  -- The validator of kOps has answered in `k`, with `F` at that time.
  abbrev Answered : ValidationCluster → History → Type 0
  Answered x k =
      (j : History) × F j
      × (w.answer j Call.validate_cluster ≡ ok x)
      × Since (Call.validate_cluster ∷ j) k

  -- Its answer is a result that is tolerated.
  abbrev pub Passed : History → Type 0
  Passed k =
      (j : History) × (x : ValidationCluster) × F j
      × (w.answer j Call.validate_cluster ≡ ok x)
      × Tolerated x
      × Since (Call.validate_cluster ∷ j) k

  abbrev pub ReadyPassed : Invariant
  ReadyPassed v k = NotReady v k ⊎ Passed k

module _ (w : World) (F : History → Type 0)
    (stays : (c : Call) (k : History) → all_effects (effect c) ≡ true → F k → F (c ∷ k)) where
  not_yet : (v : Vars) (h : History) → NotReady v h → ReadyPassed w F v h
  not_yet v h e = inl e

  Answered-stays :
      (x : ValidationCluster) (c : Call) (k : History)
      → all_effects (effect c) ≡ true
      → Answered w F x k
      → Answered w F x (c ∷ k)
  Answered-stays x c k e (j, f, a, s) = (j, f, a, more c e s)

  perform-Answered : Sure w F (λ x k. Answered w F x k) (Io.perform Call.validate_cluster)
  unfolding Io.perform
  perform-Answered = record { at = λ k p. go k p (w.answer k Call.validate_cluster) refl }
    where
      go :
          (k : History)
          → F k
          → (r : Result ValidationCluster) → w.answer k Call.validate_cluster ≡ r
          → OnOk (λ x k. Answered w F x k) (r, Call.validate_cluster ∷ k)
      go k f (ok x) e = (k, f, e, same)
      go k f (err x) e = tt
      go k f panic e = tt

  validate_kops_cluster-Answered :
      (config : RestConfig) (cluster : KopsCluster) (groups : List InstanceGroup)
      → Sure w F (λ x k. Answered w F x k) (validate_kops_cluster config cluster groups)
  unfolding validate_kops_cluster
  validate_kops_cluster-Answered config cluster groups =
      Sure-bind _ _ _ (Sure-kept {C = all_effects} _ stays (search emits_rules)) λ _.
        Sure-bind _ _ _ (Sure-kept {C = all_effects} _ stays (search emits_rules))
          λ _. Sure-wrapping _ _ perform-Answered

  verdict :
      (x : ValidationCluster)
      → Sure w
          (λ k. Unit)
          (λ b k. b ≡ (evaluate_kops_validation_result x).0)
          (kops_cluster_validation x)
  unfolding kops_cluster_validation
  verdict x = by (evaluate_kops_validation_result x).0 (evaluate_kops_validation_result x).1
    where
      by :
          (b : Bool) (messages : List String)
          → Sure w
              (λ k. Unit)
              (λ c k. c ≡ b)
              (Io.choose b
                (Io.◌>>◌
                  (Io.emit
                    (Call.event "KubernetesClusterValidationSucceeded" "kops validation succeeded"))
                  (Io.pure true))
                (Io.◌>>◌
                  (Io.for_each messages
                    (λ message. Io.emit (Call.event "KubernetesClusterValidationFailed" message)))
                  (Io.pure false)))
      by true messages = Sure-bind _ _ _ (all-Sure _) λ _. Sure-pure true (λ k p. refl)
      by false messages = Sure-bind _ _ _ (all-Sure _) λ _. Sure-pure false (λ k p. refl)

  judged :
      (x : ValidationCluster)
      → Sure w
          (Answered w F x)
          (λ b k. Answered w F x k × (b ≡ (evaluate_kops_validation_result x).0))
          (kops_cluster_validation x)
  judged x =
      Sure-given (λ k p. (p, tt))
        (Sure-and
          (Sure-kept {C = all_effects} _ (Answered-stays x) (kops_cluster_validation-Emits refl x))
          (verdict x))

  -- Not ready, and `G` is known.
  abbrev Knowing : (History → Type 0) → Invariant
  Knowing G v h = NotReady v h × G h

  Sure-leaves :
      (G : History → Type 0) {A : Type 0} (D : A → History → Type 0) (m : Io A)
      → Sure w G D m
      → (v : Vars) (h : History) → Knowing G v h
      → LeavesValue (λ a. Knowing (D a)) NotReady v (m w h)
  Sure-leaves G D m s v h (n, g) = go D (m w h).0 (m w h).1 (s.at h g)
    where
      go :
          {B : Type 0} (D : B → History → Type 0) (r : Result B) (k : History)
          → OnOk D (r, k)
          → LeavesValue (λ a. Knowing (D a)) NotReady v (r, k)
      go D (ok a) k d = (n, d)
      go D (err e) k d = n
      go D panic k d = n

  report-Keeps :
      (P : Vars → Type 0) (E : Invariant) (reason message : String)
      → Leads w (λ v h. P v) (λ v h. P v) E (report reason message)
  unfolding report
  report-Keeps P E reason message = record { at = λ v h p. p }

  quits :
      {A : Type 0} {Q : Invariant} (e : Option Error)
      → Leads w NotReady Q (ReadyPassed w F) (exit {A = A} CtrlResult.result_error e)
  quits e = Leads-exit not_yet CtrlResult.result_error e

  reports_quits :
      {A : Type 0} {Q : Invariant} (reason message : String) (e : Option Error)
      → Leads w NotReady Q
          (ReadyPassed w F)
          (report reason message >>= λ _. exit {A = A} CtrlResult.result_error e)
  reports_quits reason message e =
      Leads-bind {Q = NotReady} _ _
        (report-Keeps (λ v. v.kcp.status.ready ≡ false) (ReadyPassed w F) reason message)
        (λ _. quits e)

  some_group :
      (shown : String) (b : Bool) (e : Error)
      → Leads w (Knowing F) (Knowing F) (ReadyPassed w F) (when b (no_groups shown e))
  some_group shown true e = Leads-given (λ v h p. p.0) (reports_quits _ _ _)
  some_group shown false e = Leads-Keeps (λ v h p. not_yet v h p.0) _ (Keeps-pure tt)

  concluded :
      (x : ValidationCluster) (b : Bool)
      → Leads w
          (Knowing (λ k. Answered w F x k × (b ≡ (evaluate_kops_validation_result x).0)))
          (ReadyPassed w F)
          (ReadyPassed w F)
          (set_ready b)
  unfolding modify_kcp
  concluded x true = record {
    at = λ v h (n, ((j, f, a, s), e)). inr (j, x, f, a, (evaluate-Tolerated x).0 (sym e), s);
  }
  concluded x false = record { at = λ v h p. inl refl }

  ReadyPassed-stays :
      (c : Call) (v : Vars) (k : History) → ReadyPassed w F v k → ReadyPassed w F v (c ∷ k)
  ReadyPassed-stays c v k (inl n) = inl n
  ReadyPassed-stays c v k (inr (j, x, f, a, t, s)) = inr (j, x, f, a, t, more c refl s)

  finished :
      (reason message : String)
      → Leads w (ReadyPassed w F) (ReadyPassed w F) (ReadyPassed w F) (report reason message)
  unfolding report
  finished reason message = record {
    at = λ v k p. ReadyPassed-stays (Call.event reason message) v k p;
  }

  pub validate-Leads :
      (cluster : KopsCluster) (config : RestConfig)
      → Leads w (Knowing F) (ReadyPassed w F) (ReadyPassed w F) (validate cluster config)
  unfolding validate
  validate-Leads cluster config =
      Leads-value {Q = λ a. Knowing F} _ (λ e. no_groups e.message (Io.wrap (groups_for cluster) e))
        _
        (λ v h n.
          Sure-leaves F (λ _. F) _ (Sure-kept {C = all_effects} _ stays (Emits-perform _ refl)) v h
            n)
        (λ e. reports_quits _ _ _) not_yet
        λ groups.
          Leads-bind {Q = Knowing F} _ _
            (some_group "%!s(<nil>)" (is_empty groups)
              (Io.error (groups_for cluster <> ": %!w(<nil>)")))
            λ _.
              Leads-value _ _ _
                (λ v h n.
                  Sure-leaves F (Answered w F) _
                    (validate_kops_cluster-Answered config cluster groups) v h n)
                (λ e. reports_quits _ _ _) not_yet
                λ x.
                  Leads-value _ _ _ (λ v h n. Sure-leaves (Answered w F x) _ _ (judged x) v h n)
                    (λ e. quits _) not_yet λ b. Leads-bind _ _ (concluded x b) λ _. finished _ _

-- The last block of a reconciliation, from a control plane that is not ready: on every way out the control
-- plane is ready only if the validator of kOps has answered since then with a result in which each failure
-- is one of a pod and no node has the status False.
pub validate-Ready :
    (cluster : KopsCluster) (config : RestConfig) (w : World) (v : Vars) (h : History)
    → v.kcp.status.ready ≡ false
    → let (step, u, k) = validate cluster config w v h in ReadyPassed w (Since h) u k
validate-Ready cluster config w v h n =
    Leads-end (validate-Leads w (Since h) (λ c k e p. more c e p) cluster config) v h (n, same)
