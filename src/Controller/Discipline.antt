-- ===== src/Controller/Discipline.antt =====
-- The lock around the deletion and the reconciliation of a cluster.
use kubernetes_kops_operator.Prelude.{String, Bool, true, false, none, ◌∷◌, ◌≡◌, refl}
use kubernetes_kops_operator.Api.Kops.{KopsCluster, Cluster, Credentials}
use kubernetes_kops_operator.Io.{World, History}
use kubernetes_kops_operator.Outside.Call.{Call}
use kubernetes_kops_operator.Outside.Effect.{Effects, effect}
use kubernetes_kops_operator.Terraform.Effects.{plan_terraform-Emits_in}
use kubernetes_kops_operator.Controller.Body.{
  Reconciler, CtrlResult, Vars, Body, Step, next, return, crashed, lock, unlock,
}
use kubernetes_kops_operator.Controller.Keeps.{
  Closed, Steady, any, steady, Keeps, Keeps-exit, Keeps-when, keeps_rules,
}
use kubernetes_kops_operator.Controller.Leads.{Ends, Leads, Leads-Keeps, Leads-bind, Leads-choose}
use kubernetes_kops_operator.Controller.Lock.{
  after, held, permitted, locked_effects, free_effects, Holds, Settled, locked_call, free_call,
}
use kubernetes_kops_operator.Controller.Steps.{
  add_finalizer-Keeps, start-Keeps, prepare_pools-Keeps, prepare_library-Keeps, write_state-Keeps,
  generate_files-Keeps, write_kubeconfig-Keeps, apply_files-Keeps, update_pools-Keeps,
  validate-Keeps, destroy_cloud-Keeps, destroy_leftovers-Keeps, release_objects-Keeps,
}
use kubernetes_kops_operator.Controller.Delete.{delete_cluster}
use kubernetes_kops_operator.Controller.Apply.{reconcile_cluster, plan, apply}

Holds-calls :
    (b : Bool) (C : Effects)
    → ((c : Call) (x : Bool) → C (effect c) ≡ true → (after c x ≡ x) × (permitted c b ≡ true))
    → (v : Vars) (c : Call) (h : History) → C (effect c) ≡ true
    → Holds b v h
    → Holds b v (c ∷ h)
Holds-calls b C right v c h e (u, l, d) = let (kept, fine) = right c (held h) e in (u, cc, (cc, d))

Holds-Closed :
    (b : Bool) (C : Effects)
    → ((c : Call) (x : Bool) → C (effect c) ≡ true → (after c x ≡ x) × (permitted c b ≡ true))
    → Closed C (Holds b)
Holds-Closed b C right = record {
  calls = Holds-calls b C right;
  writes_kcp = λ v h kcp e p. p;
  writes_kmps = λ v h kmps p. p;
}

pub locked : Closed locked_effects (Holds true)
locked = Holds-Closed true locked_effects locked_call

pub free : Closed free_effects (Holds false)
free = Holds-Closed false free_effects free_call

pub Holds-Settled : (b : Bool) (v : Vars) (h : History) → Holds b v h → Settled v h
Holds-Settled b v h (u, l, d) = (cc, d)

pub lock-Leads : {w : World} → Leads w (Holds false) (Holds true) Settled lock
unfolding lock
lock-Leads = record { at = λ v h (u, l, d). (refl, refl, (cc, d)) }

pub unlock-Leads : {w : World} → Leads w (Holds true) (Holds false) Settled unlock
unfolding unlock
unlock-Leads = record { at = λ v h (u, l, d). (refl, refl, (cc, d)) }

-- A block that neither takes nor frees the lock.
within_lock :
    {w : World} {A : Type 0} {m : Body A}
    → Keeps (Holds true) m
    → Leads w (Holds true) (Holds true) Settled m
within_lock {w} {A} {m} k = Leads-Keeps (Holds-Settled true) m k

without_lock :
    {w : World} {A : Type 0} {m : Body A}
    → Keeps (Holds false) m
    → Leads w (Holds false) (Holds false) Settled m
without_lock {w} {A} {m} k = Leads-Keeps (Holds-Settled false) m k

ends_free :
    {w : World} {A : Type 0} {m : Body A}
    → Keeps (Holds false) m
    → Leads w (Holds false) Settled Settled m
ends_free {w} {A} {m} k = record {
  at = λ v h p. ending (m w v h).0 (m w v h).1 (m w v h).2 (k.at w v h p);
}
  where
    ending :
        (s : Step A) (v : Vars) (h : History) → Holds false v h → Ends Settled Settled (s, v, h)
    ending (next a) v h p = Holds-Settled false v h p
    ending (return r e) v h p = Holds-Settled false v h p
    ending crashed v h p = Holds-Settled false v h p

pub delete_cluster-Leads :
    {w : World} (r : Reconciler) (cluster : KopsCluster) (dir : String) (creds : Credentials)
    → Leads w (Holds false) Settled Settled (delete_cluster r cluster dir creds)
unfolding delete_cluster
delete_cluster-Leads r cluster dir creds =
    Leads-bind _ _
      (without_lock
        (destroy_cloud-Keeps (steady free) refl refl refl refl refl refl r cluster dir creds))
      λ _. Leads-bind _ _ lock-Leads λ _.
        Leads-bind _ _
          (within_lock (destroy_leftovers-Keeps (steady locked) refl refl refl refl cluster creds))
          λ _.
            Leads-bind _ _ unlock-Leads
              λ _. ends_free (release_objects-Keeps (any free) refl refl refl)

plan-Leads :
    {w : World} (r : Reconciler) (dir : String) (creds : Credentials)
    → Leads w (Holds true) (Holds false) Settled (plan r dir creds)
unfolding plan
plan-Leads r dir creds =
    let keeping : Steady locked_effects (Holds true) = steady locked in
    Leads-bind _ _ (within_lock (search (keeps_rules, keeping, plan_terraform-Emits_in)))
      λ _. unlock-Leads

apply-Leads :
    {w : World} (r : Reconciler) (owner : Cluster) (cluster : KopsCluster) (dir : String)
    (creds : Credentials)
    → Leads w (Holds true) (Holds false) Settled (apply r owner cluster dir creds)
unfolding apply
apply-Leads r owner cluster dir creds =
    Leads-bind _ _
      (within_lock (write_kubeconfig-Keeps (steady locked) refl refl refl refl cluster owner))
      λ config. Leads-bind _ _ unlock-Leads λ _.
        Leads-bind _ _
          (without_lock (apply_files-Keeps (steady free) refl refl refl refl refl refl r dir creds))
          λ _.
            Leads-bind _ _ (without_lock (update_pools-Keeps (steady free) refl creds))
              λ _. without_lock (validate-Keeps (any free) refl refl cluster config)

pub reconcile_cluster-Leads :
    {w : World} (r : Reconciler) (owner : Cluster) (named : KopsCluster) (dir : String)
    (creds : Credentials)
    → Leads w (Holds false) Settled Settled (reconcile_cluster r owner named dir creds)
unfolding reconcile_cluster
reconcile_cluster-Leads r owner named dir creds =
    Leads-bind _ _ (without_lock (add_finalizer-Keeps (any free) refl)) λ _.
      Leads-bind _ _ lock-Leads λ _.
        Leads-bind _ _ (within_lock (start-Keeps (steady locked) refl refl refl creds)) λ _.
          Leads-bind _ _
            (within_lock (prepare_pools-Keeps (steady locked) refl refl refl refl refl r))
            λ listed.
              Leads-bind _ _
                (within_lock (prepare_library-Keeps (steady locked) refl refl refl refl named))
                λ (cluster, full).
                  Leads-bind _ _
                    (within_lock (
                      Keeps-when _ _
                        (λ dry. write_state-Keeps (steady locked) refl refl refl cluster full)))
                    λ _.
                      Leads-bind _ _
                        (within_lock (
                          generate_files-Keeps (steady locked) refl refl refl refl refl r owner
                            cluster full dir listed))
                        λ _.
                          Leads-bind _ _
                            (Leads-choose _ _ _ (λ b. plan-Leads r dir creds)
                              (λ b. apply-Leads r owner cluster dir creds))
                            λ _. ends_free (Keeps-exit CtrlResult.result_default none)
