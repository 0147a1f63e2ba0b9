-- ===== src/Controller/Finalizer.antt =====
-- The finalizer of a control plane through the body of `Reconcile`.
use kubernetes_kops_operator.Prelude.{String, Bool, true, none, ◌≡◌, refl, ◌∙◌, sym, ap, inl}
use kubernetes_kops_operator.Api.Meta.{ObjectMeta}
use kubernetes_kops_operator.Api.Kops.{KopsCluster, Cluster, Credentials}
use kubernetes_kops_operator.Io.{World, History}
use kubernetes_kops_operator.Io.Emits.{more}
use kubernetes_kops_operator.Io.Sure.{all_effects}
use kubernetes_kops_operator.Outside.Call.{Call}
use kubernetes_kops_operator.Utils.Effects.{get_aws_credentials-Emits}
use kubernetes_kops_operator.Terraform.Effects.{plan_terraform-Emits_in}
use kubernetes_kops_operator.Controller.Body.{
  CtrlResult, Reconciler, Vars, Body, lock, unlock, modify_kcp, exit, report, when, ◌>>◌,
}
use kubernetes_kops_operator.Controller.Keeps.{
  Stable, SameMeta, Steady, meta_steady, Keeps, Keeps-bind, Keeps-when, Keeps-choose, Keeps-exit,
  Keeps-write_kcp, keeps_rules,
}
use kubernetes_kops_operator.Controller.Leads.{
  Leads, Leads-Keeps, Leads-bind, Leads-weaken, Leads-choose,
}
use kubernetes_kops_operator.Controller.Steps.{
  update_pools-Keeps, report_protection-Keeps, start-Keeps, generate_files-Keeps,
  prepare_library-Keeps, prepare_pools-Keeps, write_state-Keeps, write_kubeconfig-Keeps,
  apply_files-Keeps, set_active-Keeps, validate-Keeps,
}
use kubernetes_kops_operator.Controller.Delete.{kops_control_plane_finalizer, delete_cluster}
use kubernetes_kops_operator.Controller.Apply.{reconcile_cluster, add_finalizer, apply, plan}
use kubernetes_kops_operator.Controller.Released.{Untouched, Released, delete_cluster-Leads}
use kubernetes_kops_operator.Controller.Reconcile.{body, set_paused}
use kubernetes_kops_operator.Controller.Named.{make_cluster-Leads}

module _ (w : World) (meta : ObjectMeta) (h : History) where
  untouched : Stable SameMeta all_effects (Untouched meta h)
  untouched = record {
    calls = λ v c k e (m, s). (m, more c e s);
    writes_kcp = λ v k kcp e (m, s). (e ∙ m, s);
    writes_kmps = λ v k kmps p. p;
  }

  lock-Untouched : Keeps (Untouched meta h) lock
  unfolding lock
  lock-Untouched = record { at = λ x v k (m, s). (m, more Call.mux_lock refl s) }

  unlock-Untouched : Keeps (Untouched meta h) unlock
  unfolding unlock
  unlock-Untouched = record { at = λ x v k (m, s). (m, more Call.mux_unlock refl s) }

  steady_meta : Steady all_effects (Untouched meta h)
  steady_meta = meta_steady untouched

  apply-Untouched :
      (r : Reconciler) (owner : Cluster) (cluster : KopsCluster) (dir : String)
      (creds : Credentials)
      → Keeps (Untouched meta h) (apply r owner cluster dir creds)
  unfolding apply
  apply-Untouched r owner cluster dir creds =
      Keeps-bind _ _ (write_kubeconfig-Keeps steady_meta refl refl refl refl cluster owner)
        λ config. Keeps-bind _ _ unlock-Untouched λ _.
          Keeps-bind _ _ (apply_files-Keeps steady_meta refl refl refl refl refl refl r dir creds)
            λ _.
              Keeps-bind _ _ (update_pools-Keeps steady_meta refl creds)
                λ _. validate-Keeps untouched refl refl cluster config

  plan-Untouched :
      (r : Reconciler) (dir : String) (creds : Credentials)
      → Keeps (Untouched meta h) (plan r dir creds)
  unfolding plan
  plan-Untouched r dir creds =
      Keeps-bind _ _ (search (keeps_rules, steady_meta, plan_terraform-Emits_in))
        λ _. unlock-Untouched

  module _ (has : w.contains_finalizer kops_control_plane_finalizer meta.finalizers ≡ true)
      (name : String) where
    fits : (v : Vars) (k : History) → Untouched meta h v k → Released w name meta h v k
    fits v k p = inl p.0

    keeps :
        {A : Type 0} {m : Body A}
        → Keeps (Untouched meta h) m
        → Leads w (Untouched meta h) (Untouched meta h) (Released w name meta h) m
    keeps {A} {m} k = Leads-Keeps fits m k

    -- The finalizer is there already.
    add_finalizer-Leads :
        Leads w (Untouched meta h) (Untouched meta h) (Released w name meta h) add_finalizer
    unfolding add_finalizer modify_kcp
    add_finalizer-Leads = record {
      at = λ v k (m, s).
          (let there : w.contains_finalizer kops_control_plane_finalizer v.kcp.meta.finalizers
                ≡ true =
              ap (λ x. w.contains_finalizer kops_control_plane_finalizer x.finalizers) m ∙ has in
            (rw there m, s));
    }

    reconcile_cluster-Leads :
        (r : Reconciler) (owner : Cluster) (named : KopsCluster) (dir : String)
        (creds : Credentials)
        → Leads w
            (Untouched meta h)
            (Untouched meta h)
            (Released w name meta h)
            (reconcile_cluster r owner named dir creds)
    unfolding reconcile_cluster
    reconcile_cluster-Leads r owner named dir creds = Leads-bind _ _ add_finalizer-Leads λ _.
        keeps (
          Keeps-bind _ _ lock-Untouched λ _.
            Keeps-bind _ _ (start-Keeps steady_meta refl refl refl creds) λ _.
              Keeps-bind _ _ (prepare_pools-Keeps steady_meta refl refl refl refl refl r) λ listed.
                Keeps-bind _ _ (prepare_library-Keeps steady_meta refl refl refl refl named)
                  λ (cluster, full).
                    Keeps-bind _ _
                      (Keeps-when _ _
                        (λ wet. write_state-Keeps steady_meta refl refl refl cluster full))
                      λ _.
                        Keeps-bind _ _
                          (generate_files-Keeps steady_meta refl refl refl refl refl r owner cluster
                            full dir listed)
                          λ _.
                            Keeps-bind _ _
                              (Keeps-choose _ _ _ (λ b. plan-Untouched r dir creds)
                                (λ b. apply-Untouched r owner cluster dir creds))
                              λ _. Keeps-exit CtrlResult.result_default none)

  module _ (has : w.contains_finalizer kops_control_plane_finalizer meta.finalizers ≡ true)
      (r : Reconciler) (owner : Cluster) (dir : String) where
    -- A block with nothing behind it.
    ends :
        {m : Body (Unit {0})}
        → Leads w (Untouched meta h) (Untouched meta h) (Released w owner.meta.name meta h) m
        → Leads w
            (Untouched meta h)
            (Released w owner.meta.name meta h)
            (Released w owner.meta.name meta h)
            m
    ends {m} k = Leads-weaken (λ v k p. fits has owner.meta.name v k p) k

    paused-Leads :
        (b : Bool)
        → Keeps (Untouched meta h) (
            when b (
              report "ClusterPaused" owner.meta.name
              >> set_paused true
              >> exit CtrlResult.result_default none))
    paused-Leads b = search (keeps_rules, steady_meta, untouched, Keeps-write_kcp)

    pub body-Leads :
        Leads w
          (Untouched meta h)
          (Released w owner.meta.name meta h)
          (Released w owner.meta.name meta h)
          (body r owner dir)
    unfolding body
    body-Leads = Leads-bind _ _ (keeps has owner.meta.name (search keeps_rules)) λ paused.
        Leads-bind _ _ (keeps has owner.meta.name (paused-Leads paused)) λ _.
          Leads-bind _ _ (keeps has owner.meta.name (set_active-Keeps untouched refl)) λ _.
            Leads-bind _ _ (keeps has owner.meta.name (search keeps_rules)) λ kcp.
              Leads-bind _ _
                (keeps has owner.meta.name
                  (search (keeps_rules, steady_meta, get_aws_credentials-Emits)))
                λ creds. make_cluster-Leads owner _ (fits has owner.meta.name) λ cluster e.
                  Leads-bind _ _
                    (keeps has owner.meta.name (report_protection-Keeps steady_meta refl refl r))
                    λ _.
                      Leads-choose _ (delete_cluster r cluster dir creds) _
                        (λ b. rw (sym e) (delete_cluster-Leads w r cluster dir creds meta h))
                        (λ b.
                          ends
                            (reconcile_cluster-Leads has owner.meta.name r owner cluster dir creds))
