-- ===== src/Controller/Reach.antt =====
-- How far a run of `Reconcile` reaches: the effects of its branches, by what guards them.
use kubernetes_kops_operator.Prelude.{String, true, false, not, Option, none, some, ◌≡◌, refl, ap}
use kubernetes_kops_operator.Api.{KopsControlPlane}
use kubernetes_kops_operator.Api.Kops.{KopsCluster, Cluster, Credentials}
use kubernetes_kops_operator.Io.{Error, World, History}
use kubernetes_kops_operator.Io.Emits.{
  Extends, Extends-trans, same, more, Emits, Emits-bind, Emits-when, Emits-emit,
}
use kubernetes_kops_operator.Outside.Call.{Call}
use kubernetes_kops_operator.Outside.Effect.{Effect, Effects}
use kubernetes_kops_operator.Terraform.Effects.{plan_terraform-Emits_in}
use kubernetes_kops_operator.Controller.Body.{Reconciler, CtrlResult, Vars, Body, lock, unlock}
use kubernetes_kops_operator.Controller.Keeps.{
  Invariant, Closed, Steady, any, steady, Keeps, Keeps-bind, Keeps-gets, Keeps-choose, Keeps-exit,
  Keeps-when, Keeps-run, Keeps-set_kmps, keeps_rules,
}
use kubernetes_kops_operator.Controller.Leads.{Leads, Leads-Keeps, Leads-end}
use kubernetes_kops_operator.Controller.Effects.{reconcile_pools-Emits}
use kubernetes_kops_operator.Controller.Writing.{write_back-Emits}
use kubernetes_kops_operator.Controller.Steps.{
  add_finalizer-Keeps, start-Keeps, prepare_library-Keeps, write_state-Keeps, generate_files-Keeps,
  write_kubeconfig-Keeps, apply_files-Keeps, update_pools-Keeps, validate-Keeps,
}
use kubernetes_kops_operator.Controller.Apply.{
  reconcile_cluster, plan, apply, prepare_pools, set_karpenter_addon,
}
use kubernetes_kops_operator.Controller.Deferred.{deferred}
use kubernetes_kops_operator.Controller.Delete.{should_delete_cluster}
use kubernetes_kops_operator.Controller.Reconcile.{start_vars, with_deferred}
use kubernetes_kops_operator.Controller.Whole.{body-Leads, with_deferred-Preserves}

-- `k` has only calls in `C` on top of `h`, whatever stands in the variables.
abbrev pub Past : Effects → History → Invariant
Past C h v k = Extends C h k

pub Past-Closed : (C : Effects) (h : History) → Closed C (Past C h)
Past-Closed C h = record {
  calls = λ v c k e p. more c e p;
  writes_kcp = λ v k kcp e p. p;
  writes_kmps = λ v k kmps p. p;
}

-- What every run may do, and what a run may do beyond that when it is not dry, or when it is.
pub record Reaches (C : Effects) (r : Reconciler) : Type 0 where
  pub observes : C Effect.observe ≡ true
  pub reports : C Effect.report ≡ true
  pub waits : C Effect.wait ≡ true
  pub sets : C Effect.globals ≡ true
  pub files : C Effect.file_write ≡ true
  pub prepares : C Effect.tf_prepare ≡ true
  pub addons : C Effect.addons_write ≡ true
  pub locks : C Effect.mutex ≡ true
  pub plans : r.dry_run ≡ true → C Effect.tf_plan_run ≡ true
  pub applies : not r.dry_run ≡ true → C Effect.tf_apply_run ≡ true
  pub secrets : not r.dry_run ≡ true → C Effect.kube_secret ≡ true
  pub state : not r.dry_run ≡ true → C Effect.kops_write ≡ true
  pub deletes : not r.dry_run ≡ true → C Effect.kube_delete ≡ true

module _ {C : Effects} {r : Reconciler} (c : Reaches C r) (h : History) where
  closed : Steady C (Past C h)
  closed = steady (Past-Closed C h)

  pub lock-Past : Keeps (Past C h) lock
  unfolding lock
  lock-Past = record { at = λ w v k p. more Call.mux_lock c.locks p }

  pub unlock-Past : Keeps (Past C h) unlock
  unfolding unlock
  unlock-Past = record { at = λ w v k p. more Call.mux_unlock c.locks p }

  prepare_pools-Past : Keeps (Past C h) (prepare_pools r)
  unfolding prepare_pools set_karpenter_addon
  prepare_pools-Past = Keeps-bind _ _ (Keeps-gets _) λ listed.
      Keeps-bind _ _
        (Keeps-when _ _ (λ wet.
          Keeps-bind _ _
            (Keeps-run closed _ _
              (reconcile_pools-Emits c.observes (c.state wet) c.reports (c.deletes wet) c.waits
                listed)
              (λ e. Keeps-exit CtrlResult.result_error (some e)))
            (λ l. Keeps-set_kmps closed l)))
        λ _. search (keeps_rules, closed)

  apply-Past :
      not r.dry_run ≡ true
      → (owner : Cluster) (cluster : KopsCluster) (dir : String) (creds : Credentials)
      → Keeps (Past C h) (apply r owner cluster dir creds)
  unfolding apply
  apply-Past wet owner cluster dir creds =
      Keeps-bind _ _
        (write_kubeconfig-Keeps closed c.observes c.reports (c.state wet) (c.secrets wet) cluster
          owner)
        λ config. Keeps-bind _ _ unlock-Past λ _.
          Keeps-bind _ _
            (apply_files-Keeps closed c.observes c.reports c.waits c.files c.prepares
              (c.applies wet) r dir creds)
            λ _.
              Keeps-bind _ _ (update_pools-Keeps closed c.observes creds)
                λ _. validate-Keeps (any (Past-Closed C h)) c.observes c.reports cluster config

  plan-Past :
      r.dry_run ≡ true → (dir : String) (creds : Credentials) → Keeps (Past C h) (plan r dir creds)
  unfolding plan
  plan-Past dry dir creds =
      let plans =
        plan_terraform-Emits_in C c.observes c.waits c.files c.prepares dir r.tf_exec_path creds
          (c.plans dry) in
      Keeps-bind _ _ (search (keeps_rules, closed, plans)) λ _. unlock-Past

  pub reconcile_cluster-Past :
      (owner : Cluster) (named : KopsCluster) (dir : String) (creds : Credentials)
      → Keeps (Past C h) (reconcile_cluster r owner named dir creds)
  unfolding reconcile_cluster
  reconcile_cluster-Past owner named dir creds =
      Keeps-bind _ _ (add_finalizer-Keeps (any (Past-Closed C h)) c.observes) λ _.
        Keeps-bind _ _ lock-Past λ _.
          Keeps-bind _ _ (start-Keeps closed c.observes c.reports c.sets creds) λ _.
            Keeps-bind _ _ prepare_pools-Past λ listed.
              Keeps-bind _ _
                (prepare_library-Keeps closed c.observes c.reports c.sets c.addons named)
                λ (cluster, full).
                  Keeps-bind _ _
                    (Keeps-when _ _ (λ wet.
                      write_state-Keeps closed c.observes c.reports (c.state wet) cluster full))
                    λ _.
                      Keeps-bind _ _
                        (generate_files-Keeps closed c.observes c.reports c.waits c.files c.prepares
                          r owner cluster full dir listed)
                        λ _.
                          Keeps-bind _ _
                            (Keeps-choose _ _ _ (λ dry. plan-Past dry dir creds)
                              (λ wet. apply-Past (ap not wet) owner cluster dir creds))
                            λ _. Keeps-exit CtrlResult.result_default none

  deferred-Emits :
      (not r.dry_run ≡ true → C Effect.kube_write ≡ true)
      → (not r.dry_run ≡ true → C Effect.kube_status ≡ true)
      → (owner : Cluster) (dir : String) (failed : Option Error) (v : Vars)
      → Emits C (deferred r owner dir failed v)
  unfolding deferred
  deferred-Emits objects statuses owner dir failed v =
      Emits-bind _ _ (Emits-when v.should_unlock _ (λ b. Emits-emit Call.mux_unlock c.locks)) λ _.
        Emits-when (not r.dry_run) _ λ wet.
          write_back-Emits c.observes (objects wet) (statuses wet) c.files c.reports owner dir
            failed v

  pub deferred-Past :
      (not r.dry_run ≡ true → C Effect.kube_write ≡ true)
      → (not r.dry_run ≡ true → C Effect.kube_status ≡ true)
      → (owner : Cluster) (dir : String) (failed : Option Error) (w : World) (v : Vars)
        (k : History)
      → Extends C h k
      → Extends C h (deferred r owner dir failed v w k).1
  deferred-Past objects statuses owner dir failed w v k p =
      Extends-trans p ((deferred-Emits objects statuses owner dir failed v).at w k)

-- The two branches of the body, for a control plane that is not to be deleted.
pub with_deferred-Past :
    {C : Effects} {r : Reconciler}
    → Reaches C r
    → (not r.dry_run ≡ true → C Effect.kube_write ≡ true)
    → (not r.dry_run ≡ true → C Effect.kube_status ≡ true)
    → (owner : Cluster) (kcp : KopsControlPlane) → should_delete_cluster r kcp ≡ false
    → (w : World) (h : History) → Extends C h (with_deferred r owner kcp w h).1
unfolding should_delete_cluster
with_deferred-Past {C} {r} c objects statuses owner kcp spared w h =
    (with_deferred-Preserves r owner kcp (Past C h)
        (λ x k p.
          Leads-end {w = x}
            (body-Leads (Past-Closed C h) c.observes c.reports (λ v j q. q) r owner _ kcp.meta
              (λ other m b cluster creds. cc)
              (λ other m b cluster creds. leads (reconcile_cluster-Past c h owner cluster _ creds)))
            (start_vars kcp) k (refl, p))
        (λ failed x v k p. deferred-Past c h objects statuses owner _ failed x v k p)).at
      w h same
  where
    leads :
        {x : World} {m : Body (Unit {0})}
        → Keeps (Past C h) m
        → Leads x (Past C h) (Past C h) (Past C h) m
    leads {x} {m} k = Leads-Keeps (λ v j q. q) m k
