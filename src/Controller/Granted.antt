-- ===== src/Controller/Granted.antt =====
-- The body of `Reconcile` as a whole: what makes a control plane ready.
use kubernetes_kops_operator.Prelude.{String, false, none, ◌≡◌, refl, ◌∙◌, inl}
use kubernetes_kops_operator.Api.{KopsControlPlane}
use kubernetes_kops_operator.Api.Kops.{KopsCluster, Cluster, Credentials}
use kubernetes_kops_operator.Io.{Result, ok, err, panic, World, History, Io}
use kubernetes_kops_operator.Io.Emits.{Extends-trans, same, more, Emits}
use kubernetes_kops_operator.Io.Sure.{all_effects, Since, Done, later, OnOk, Sure}
use kubernetes_kops_operator.Outside.Call.{Call}
use kubernetes_kops_operator.Utils.Effects.{get_aws_credentials-Emits}
use kubernetes_kops_operator.Terraform.Effects.{apply_terraform-Emits_in, plan_terraform-Emits_in}
use kubernetes_kops_operator.Terraform.Sure.{apply_terraform-Sure}
use kubernetes_kops_operator.Controller.Body.{
  CtrlResult, Reconciler, Vars, Body, asks, lock, unlock, modify_kcp, pure, ◌>>=◌,
}
use kubernetes_kops_operator.Controller.Keeps.{
  Invariant, Stable, SameReady, Steady, ready_steady, Keeps, Keeps-when, keeps_rules,
}
use kubernetes_kops_operator.Controller.Leads.{
  Leads, Leads-Keeps, Leads-bind, Leads-run, Leads-exit, Leads-given, Leads-weaken, Leads-choose,
  Leads-end, Leaves,
}
use kubernetes_kops_operator.Controller.Steps.{
  add_finalizer-Keeps, make_cluster-Keeps, update_pools-Keeps, report_protection-Keeps, start-Keeps,
  delete_cluster-Keeps, generate_files-Keeps, prepare_library-Keeps, prepare_pools-Keeps,
  write_state-Keeps, write_kubeconfig-Keeps,
}
use kubernetes_kops_operator.Controller.Apply.{reconcile_cluster, apply_files, apply, plan}
use kubernetes_kops_operator.Controller.Ready.{NotReady, ReadyPassed, validate-Leads}
use kubernetes_kops_operator.Controller.Reconcile.{body, set_active, start_vars}

-- Not ready, and only calls were added.
abbrev Unready : History → Invariant
Unready h v k = NotReady v k × Since h k

-- `terraform apply` has succeeded besides.
abbrev Applied : World → History → Invariant
Applied w h v k = Unready h v k × Done w Call.tf_apply h k

-- Not ready, or `terraform apply` and then the validator of kOps have succeeded since `h`.
abbrev pub Granted : World → History → Invariant
Granted w h = ReadyPassed w (Done w Call.tf_apply h)

module _ (w : World) (h : History) where
  unready_ready : Stable SameReady all_effects (Unready h)
  unready_ready = record {
    calls = λ v c k e (n, s). (n, more c e s);
    writes_kcp = λ v k kcp e (n, s). (e ∙ n, s);
    writes_kmps = λ v k kmps p. p;
  }

  applied_ready : Stable SameReady all_effects (Applied w h)
  applied_ready = record {
    calls = λ v c k e ((n, s), d). ((n, more c e s), later c d);
    writes_kcp = λ v k kcp e ((n, s), d). ((e ∙ n, s), d);
    writes_kmps = λ v k kmps p. p;
  }

  unready : Steady all_effects (Unready h)
  unready = ready_steady unready_ready

  applied : Steady all_effects (Applied w h)
  applied = ready_steady applied_ready

  unready_fits : (v : Vars) (k : History) → Unready h v k → Granted w h v k
  unready_fits v k p = inl p.0

  applied_fits : (v : Vars) (k : History) → Applied w h v k → Granted w h v k
  applied_fits v k p = inl p.0.0

  -- A block before `terraform apply`, and one behind it.
  before :
      {A : Type 0} {m : Body A}
      → Keeps (Unready h) m
      → Leads w (Unready h) (Unready h) (Granted w h) m
  before {A} {m} k = Leads-Keeps unready_fits m k

  behind :
      {A : Type 0} {m : Body A}
      → Keeps (Applied w h) m
      → Leads w (Applied w h) (Applied w h) (Granted w h) m
  behind {A} {m} k = Leads-Keeps applied_fits m k

  lock-Unready : Keeps (Unready h) lock
  unfolding lock
  lock-Unready = record { at = λ x v k (n, s). (n, more Call.mux_lock refl s) }

  unlock-Unready : Keeps (Unready h) unlock
  unfolding unlock
  unlock-Unready = record { at = λ x v k (n, s). (n, more Call.mux_unlock refl s) }

  -- An action that is sure of `terraform apply`.
  applies :
      {A : Type 0} (m : Io A)
      → Emits all_effects m
      → Sure w (Since h) (λ _. Done w Call.tf_apply h) m
      → (v : Vars) (k : History) → Unready h v k
      → Leaves (Applied w h) (Unready h) v (m w k)
  applies m em sure v k (n, s) = go (m w k).0 (m w k).1 (Extends-trans s (em.at w k)) (sure.at k s)
    where
      go :
          {A : Type 0} (r : Result A) (l : History)
          → Since h l
          → OnOk (λ _. Done w Call.tf_apply h) (r, l)
          → Leaves (Applied w h) (Unready h) v (r, l)
      go (ok a) l s d = ((n, s), d)
      go (err x) l s d = (n, s)
      go panic l s d = (n, s)

  -- A block with nothing behind it.
  ends :
      {m : Body (Unit {0})}
      → Keeps (Unready h) m
      → Leads w (Unready h) (Granted w h) (Granted w h) m
  ends k = Leads-weaken unready_fits (before k)

  apply_files-Leads :
      (r : Reconciler) (dir : String) (creds : Credentials)
      → Leads w (Unready h) (Applied w h) (Granted w h) (apply_files r dir creds)
  unfolding apply_files
  apply_files-Leads r dir creds =
      Leads-bind _ _
        (Leads-run {S = Unready h} _ _
          (applies _
            (apply_terraform-Emits_in all_effects refl refl refl refl dir r.tf_exec_path creds refl)
            (apply_terraform-Sure w h dir r.tf_exec_path creds))
          (λ e.
            Leads-bind _ _ (before (search (keeps_rules, unready)))
              λ _. Leads-exit unready_fits _ _)
          unready_fits)
        λ _. behind (search (keeps_rules, applied))

  apply-Leads :
      (r : Reconciler) (owner : Cluster) (cluster : KopsCluster) (dir : String)
      (creds : Credentials)
      → Leads w (Unready h) (Granted w h) (Granted w h) (apply r owner cluster dir creds)
  unfolding apply
  apply-Leads r owner cluster dir creds =
      Leads-bind _ _ (before (write_kubeconfig-Keeps unready refl refl refl refl cluster owner))
        λ config. Leads-bind _ _ (before unlock-Unready) λ _.
          Leads-bind _ _ (apply_files-Leads r dir creds) λ _.
            Leads-bind _ _ (behind (update_pools-Keeps applied refl creds)) λ _.
              Leads-given (λ v k p. (p.0.0, p.1))
                (validate-Leads w (Done w Call.tf_apply h) (λ c k e d. later c d) cluster config)

  plan-Leads :
      (r : Reconciler) (dir : String) (creds : Credentials)
      → Leads w (Unready h) (Granted w h) (Granted w h) (plan r dir creds)
  unfolding plan
  plan-Leads r dir creds =
      Leads-bind _ _ (before (search (keeps_rules, unready, plan_terraform-Emits_in)))
        λ _. ends unlock-Unready

  reconcile_cluster-Leads :
      (r : Reconciler) (owner : Cluster) (named : KopsCluster) (dir : String) (creds : Credentials)
      → Leads w (Unready h) (Granted w h) (Granted w h) (reconcile_cluster r owner named dir creds)
  unfolding reconcile_cluster
  reconcile_cluster-Leads r owner named dir creds =
      Leads-bind _ _ (before (add_finalizer-Keeps unready_ready refl)) λ _.
        Leads-bind _ _ (before lock-Unready) λ _.
          Leads-bind _ _ (before (start-Keeps unready refl refl refl creds)) λ _.
            Leads-bind _ _ (before (prepare_pools-Keeps unready refl refl refl refl refl r))
              λ listed.
                Leads-bind _ _ (before (prepare_library-Keeps unready refl refl refl refl named))
                  λ (cluster, full).
                    Leads-bind _ _
                      (before (
                        Keeps-when _ _
                          (λ wet. write_state-Keeps unready refl refl refl cluster full)))
                      λ _.
                        Leads-bind _ _
                          (before (
                            generate_files-Keeps unready refl refl refl refl refl r owner cluster
                              full dir listed))
                          λ _.
                            Leads-bind {Q = Granted w h} _ _
                              (Leads-choose _ _ _ (λ b. plan-Leads r dir creds)
                                (λ b. apply-Leads r owner cluster dir creds))
                              λ _. Leads-exit (λ v k p. p) CtrlResult.result_default none

  -- A fact about the world is read.
  asks-Leads :
      {P R : Invariant} {A B : Type 0} (f : World → A) (k : A → Body B)
      → Leads w P R (Granted w h) (k (f w))
      → Leads w P R (Granted w h) (asks f >>= k)
  unfolding ◌>>=◌ asks
  asks-Leads f k l = record { at = l.at }

  skip-Leads : {P : Invariant} → Leads w P P (Granted w h) (pure tt)
  unfolding pure
  skip-Leads = record { at = λ v k p. p }

  active-Leads : Leads w (λ v k. Since h k) (Unready h) (Granted w h) set_active
  unfolding set_active modify_kcp
  active-Leads = record { at = λ v k s. (refl, s) }

  body-Leads :
      (r : Reconciler) (owner : Cluster) (dir : String)
      → w.has_paused owner.meta ≡ false
      → Leads w (λ v k. Since h k) (Granted w h) (Granted w h) (body r owner dir)
  unfolding body
  body-Leads r owner dir e = asks-Leads _ _ (
      rw e (
        Leads-bind _ _ skip-Leads λ _. Leads-bind _ _ active-Leads λ _.
          Leads-bind _ _ (before (search keeps_rules)) λ kcp.
            Leads-bind _ _ (before (search (keeps_rules, unready, get_aws_credentials-Emits)))
              λ creds. Leads-bind _ _ (before (make_cluster-Keeps unready refl owner)) λ cluster.
                Leads-bind _ _ (before (report_protection-Keeps unready refl refl r)) λ _.
                  Leads-choose _ _ _
                    (λ b. ends (
                      delete_cluster-Keeps unready_ready refl refl refl lock-Unready unlock-Unready
                        refl refl refl refl refl refl r cluster dir creds))
                    (λ b. reconcile_cluster-Leads r owner cluster dir creds)))

-- The body of a reconciliation of a cluster that is not paused, from any control plane: on every way out,
-- the control plane that the deferred function writes back is ready only if since the start `terraform apply`
-- has succeeded, and after that the validator of kOps has answered with a result in which each failure is one
-- of a pod and no node has the status False.
pub body-Granted :
    (r : Reconciler) (owner : Cluster) (kcp : KopsControlPlane) (dir : String) (w : World)
    (h : History)
    → w.has_paused owner.meta ≡ false
    → let (step, u, k) = body r owner dir w (start_vars kcp) h in Granted w h u k
body-Granted r owner kcp dir w h e =
    Leads-end (body-Leads w h r owner dir e) (start_vars kcp) h same
