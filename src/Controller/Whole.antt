-- ===== src/Controller/Whole.antt =====
-- What `Reconcile` as a whole keeps, from what the two branches behind its guards keep.
use kubernetes_kops_operator.Prelude.{String, ◌<>◌, Bool, true, false, Option, none, ◌≡◌}
use kubernetes_kops_operator.Api.{KopsControlPlane}
use kubernetes_kops_operator.Api.Meta.{ObjectMeta, ObjectKey}
use kubernetes_kops_operator.Api.Kops.{KopsCluster, Cluster, Credentials}
use kubernetes_kops_operator.Io.{Error, World, History, Io}
use kubernetes_kops_operator.Io.Emits.{Emits, emits_rules}
use kubernetes_kops_operator.Io.Preserves.{
  Keeping, Preserves, Preserves-Emits, Preserves-pure, Preserves-bind,
}
use kubernetes_kops_operator.Outside.Effect.{Effect, Effects}
use kubernetes_kops_operator.Utils.Effects.{get_aws_credentials-Emits}
use kubernetes_kops_operator.Controller.Effects.{get_cluster_owner_ref-Emits}
use kubernetes_kops_operator.Controller.Body.{
  Reconciler, CtrlResult, Vars, Body, ◌>>◌, modify_kcp, report, exit, when,
}
use kubernetes_kops_operator.Controller.Keeps.{
  Invariant, Closed, Keeps, Keeps-asks, Keeps-pure, Keeps-report, Keeps-write_kcp, steady,
  keeps_rules,
}
use kubernetes_kops_operator.Controller.Leads.{
  Leads, Leads-Keeps, Leads-bind, Leads-choose, Leads-exit, Leads-given, Leads-gets, Leads-fact,
}
use kubernetes_kops_operator.Controller.Steps.{make_cluster-Keeps, report_protection-Keeps}
use kubernetes_kops_operator.Controller.Delete.{should_delete_cluster, delete_cluster}
use kubernetes_kops_operator.Controller.Apply.{reconcile_cluster}
use kubernetes_kops_operator.Controller.Deferred.{deferred}
use kubernetes_kops_operator.Controller.Reconcile.{
  Returned, load_kcp, find_owner, select, Early, found, leave, set_paused, set_active, body,
  start_vars, with_deferred, or_leave, reconcile,
}

-- Queries and events.
abbrev pub quiet_effects : Effects
quiet_effects Effect.observe = true
quiet_effects Effect.report = true
quiet_effects _ = false

-- The control plane is still the one that was read, but for its status and finalizers.
abbrev AtMeta : ObjectMeta → Invariant → Invariant
AtMeta meta P v h = (v.kcp.meta ≡ meta) × P v h

module _ {w : World} {C : Effects} {P E : Invariant} (closed : Closed C P)
    (observes : C Effect.observe ≡ true) (reports : C Effect.report ≡ true)
    (into : (v : Vars) (h : History) → P v h → E v h) (r : Reconciler) (owner : Cluster)
    (dir : String) (meta : ObjectMeta) where
  paused-Leads :
      (b : Bool)
      → Leads w (AtMeta meta P) (AtMeta meta P) E (
          when b (
            report "ClusterPaused" owner.meta.name
            >> set_paused true
            >> exit CtrlResult.result_default none))
  paused-Leads false = Leads-Keeps (λ v h p. into v h p.1) _ (Keeps-pure tt)
  paused-Leads true =
      Leads-given (λ v h p. p.1)
        (Leads-bind _ _
          (Leads-bind _ _
            (Leads-Keeps into _
              (Keeps-report (steady closed) reports "ClusterPaused" owner.meta.name))
            λ _. Leads-Keeps into (set_paused true) (Keeps-write_kcp closed _ (λ x k. tt)))
          λ _. Leads-exit into CtrlResult.result_default none)

  active-Leads : Leads w (AtMeta meta P) (AtMeta meta P) E set_active
  unfolding set_active modify_kcp
  active-Leads = record { at = λ v h (e, p). (e, closed.writes_kcp v h _ tt p) }

  kept : {A : Type 0} {m : Body A} → Keeps P m → Leads w P P E m
  kept {A} {m} k = Leads-Keeps into m k

  pub body-Leads :
      ((kcp : KopsControlPlane)
        → kcp.meta ≡ meta
        → should_delete_cluster r kcp ≡ true
        → (cluster : KopsCluster) (creds : Credentials)
        → Leads w P E E (delete_cluster r cluster dir creds))
      → ((kcp : KopsControlPlane)
          → kcp.meta ≡ meta
          → should_delete_cluster r kcp ≡ false
          → (cluster : KopsCluster) (creds : Credentials)
          → Leads w P E E (reconcile_cluster r owner cluster dir creds))
      → Leads w (AtMeta meta P) E E (body r owner dir)
  unfolding body
  body-Leads deletes reconciles =
      Leads-bind _ _ (Leads-Keeps (λ v h p. into v h p.1) _ (Keeps-asks _)) λ paused.
        Leads-bind _ _ (paused-Leads paused) λ _. Leads-bind _ _ active-Leads λ _.
          Leads-gets _ _ λ kcp. Leads-fact (known kcp) λ same_meta.
            Leads-given (λ v h p. p.1.1)
              (Leads-bind _ _ (kept (search (keeps_rules, steady, get_aws_credentials-Emits)))
                λ creds.
                  Leads-bind _ _ (kept (make_cluster-Keeps (steady closed) observes owner))
                    λ cluster.
                      Leads-bind _ _
                        (kept (report_protection-Keeps (steady closed) observes reports r))
                        λ _.
                          Leads-choose _ _ _ (λ b. deletes kcp same_meta b cluster creds)
                            (λ b. reconciles kcp same_meta b cluster creds))
    where
      known :
          (kcp : KopsControlPlane) (v : Vars) (h : History)
          → (v.kcp ≡ kcp) × AtMeta meta P v h
          → kcp.meta ≡ meta
      known kcp v h (e, (m, p)) = cc

module _ {H : History → Type 0} (quiet : Keeping H quiet_effects) where
  load_kcp-Emits : (r : Reconciler) (key : ObjectKey) → Emits quiet_effects (load_kcp r key)
  unfolding load_kcp
  load_kcp-Emits r key = search emits_rules depth 12

  find_owner-Emits : (kcp : KopsControlPlane) → Emits quiet_effects (find_owner kcp)
  unfolding find_owner
  find_owner-Emits kcp = search (emits_rules, get_cluster_owner_ref-Emits) depth 12

  select-Emits : (r : Reconciler) (kcp : KopsControlPlane) → Emits quiet_effects (select r kcp)
  unfolding select
  select-Emits r kcp = search (emits_rules, find_owner-Emits) depth 12

  or_leave-Preserves :
      {A : Type 0} (x : Early A) (f : A → Io Returned)
      → ((a : A) → Preserves H (f a))
      → Preserves H (or_leave x f)
  or_leave-Preserves (found a) f k = k a
  or_leave-Preserves (leave c e) f k = Preserves-pure (c, e)

  pub reconcile-Preserves :
      (r : Reconciler) (key : ObjectKey)
      → ((owner : Cluster) (kcp : KopsControlPlane) → Preserves H (with_deferred r owner kcp))
      → Preserves H (reconcile r key)
  unfolding reconcile
  reconcile-Preserves r key inner =
      Preserves-bind _ _ (Preserves-Emits quiet_effects _ quiet (load_kcp-Emits r key)) λ loaded.
        or_leave-Preserves loaded _ λ kcp.
          Preserves-bind _ _ (Preserves-Emits quiet_effects _ quiet (select-Emits r kcp))
            λ owned. or_leave-Preserves owned _ λ owner. inner owner kcp

-- The body, and then the deferred function with what the body left.
pub with_deferred-Preserves :
    {H : History → Type 0} (r : Reconciler) (owner : Cluster) (kcp : KopsControlPlane)
    (E : Invariant)
    → ((w : World) (h : History)
        → H h
        → let (step, v, k) = body r owner ("/tmp/" <> owner.meta.name) w (start_vars kcp) h in
          E v k)
    → ((failed : Option Error) (w : World) (v : Vars) (h : History)
        → E v h
        → H (deferred r owner ("/tmp/" <> owner.meta.name) failed v w h).1)
    → Preserves H (with_deferred r owner kcp)
unfolding with_deferred
with_deferred-Preserves r owner kcp E inner after = record {
  at = λ w h p. after _ w _ _ (inner w h p);
}
