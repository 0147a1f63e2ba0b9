-- ===== src/Controller/Released.antt =====
-- The deletion of a control plane: what its finalizer waits for.
use kubernetes_kops_operator.Prelude.{String, false, some, List, [], ◌≡◌, refl, ◌⊎◌, inl, inr}
use kubernetes_kops_operator.Api.{KopsMachinePool}
use kubernetes_kops_operator.Api.Meta.{ObjectMeta}
use kubernetes_kops_operator.Api.Kops.{KopsCluster, Credentials}
use kubernetes_kops_operator.Io
use kubernetes_kops_operator.Io.{Error, Result, ok, err, panic, World, History, Io}
use kubernetes_kops_operator.Io.Emits.{
  Extends, Extends-trans, same, more, Emits, Emits-perform, Emits-act,
}
use kubernetes_kops_operator.Io.Sure.{
  Since, Done, later, Done-Extends, OnOk, Sure, Sure-act, Sure-Emits, Sure-bind, Sure-choose,
  Sure-fail, Sure-wrapping, all_effects,
}
use kubernetes_kops_operator.Outside.Call.{Call}
use kubernetes_kops_operator.Terraform.Effects.{destroy_terraform-Emits_in}
use kubernetes_kops_operator.Terraform.Sure.{destroy_terraform-Sure}
use kubernetes_kops_operator.Utils.Effects.{
  get_kops_machine_pools-Emits, get_kops_clientset-Emits, set_env_vars-Emits, build_cloud-Emits,
  kops_delete_resources-Emits,
}
use kubernetes_kops_operator.Utils.Cluster.{unshared, kops_delete_resources}
use kubernetes_kops_operator.Controller.Effects.{prepare_custom-Emits, create_terraform_file-Emits}
use kubernetes_kops_operator.Controller.Body.{
  Step, next, return, crashed, Reconciler, CtrlResult, Vars, lock, unlock, checked, reported,
  report, exit, gets, set_kmps, ◌>>=◌,
}
use kubernetes_kops_operator.Controller.Keeps.{Invariant, Closed, any, Keeps-gets}
use kubernetes_kops_operator.Controller.Leads.{
  Ends, Leaves, Leads, Leads-Keeps, Leads-bind, Leads-exit, Leads-run, Leads-end,
}
use kubernetes_kops_operator.Controller.Steps.{release_objects-Keeps}
use kubernetes_kops_operator.Controller.Delete.{
  destroy_cloud, destroy_leftovers, release_objects, delete_cluster,
}

-- `terraform destroy` has succeeded since `h`, and then the cluster was removed from the state store.
abbrev pub Destroyed : World → String → History → History → Type 0
Destroyed w name h k = Done w Call.tf_destroy h k × Done w (Call.delete_kops_cluster name) h k

-- The object is as it was read, and only calls were added.
abbrev pub Untouched : ObjectMeta → History → Invariant
Untouched meta h v k = (v.kcp.meta ≡ meta) × Since h k

abbrev pub Released : World → String → ObjectMeta → History → Invariant
Released w name meta h v k = (v.kcp.meta ≡ meta) ⊎ Destroyed w name h k

abbrev Same : ObjectMeta → Invariant
Same meta v k = v.kcp.meta ≡ meta

module _ {w : World} {meta : ObjectMeta} {E : Invariant} where
  event_keeps :
      (reason message : String) → Leads w (Same meta) (Same meta) E (report reason message)
  unfolding report
  event_keeps reason message = record { at = λ v k p. p }

module _ {w : World} {meta : ObjectMeta} {R E : Invariant}
    (into : (v : Vars) (k : History) → Same meta v k → E v k) where
  exits :
      {A : Type 0} (e : Error)
      → Leads w (Same meta) R E (exit {A = A} CtrlResult.result_error (some e))
  exits e = Leads-exit into CtrlResult.result_error (some e)

  reports_exits :
      {A : Type 0} (reason : String) (e : Error)
      → Leads w
          (Same meta)
          R
          E
          (report reason e.message >>= λ _. exit {A = A} CtrlResult.result_error (some e))
  reports_exits reason e =
      Leads-bind {Q = Same meta} _ _ (event_keeps reason e.message) (λ _. exits e)

-- A step from `R` to `S` that is sure of `D` where it goes on, and leaves the object as it was.
module _ (w : World) (meta : ObjectMeta) (h : History) (R S E : Invariant)
    (into : (v : Vars) (k : History) → Same meta v k → E v k)
    (R_meta : (v : Vars) (k : History) → R v k → Same meta v k)
    (R_since : (v : Vars) (k : History) → R v k → Since h k) where
  module _ (D : History → Type 0)
      (on : (v : Vars) (k l : History) → R v k → Extends all_effects k l → D l → S v l) where
    leaving :
        {A : Type 0} (m : Io A)
        → Emits all_effects m
        → Sure w (Since h) (λ _. D) m
        → (v : Vars) (k : History) → R v k
        → Leaves S (Same meta) v (m w k)
    leaving m em sure v k p = go (m w k).0 (m w k).1 (em.at w k) (sure.at k (R_since v k p))
      where
        go :
            {A : Type 0} (r : Result A) (l : History)
            → Extends all_effects k l
            → OnOk (λ _. D) (r, l)
            → Leaves S (Same meta) v (r, l)
        go (ok a) l e d = on v k l p e d
        go (err x) l e d = R_meta v k p
        go panic l e d = R_meta v k p

    checks :
        {A : Type 0} (m : Io A)
        → Emits all_effects m
        → Sure w (Since h) (λ _. D) m
        → Leads w R S E (checked m)
    checks m em sure = Leads-run {S = Same meta} m _ (leaving m em sure) (exits into) into

    reports :
        {A : Type 0} (reason : String) (m : Io A)
        → Emits all_effects m
        → Sure w (Since h) (λ _. D) m
        → Leads w R S E (reported reason m)
    reports reason m em sure =
        Leads-run {S = Same meta} m _ (leaving m em sure) (reports_exits into reason) into

  reads : {A : Type 0} (f : Vars → A) → Leads w R R E (gets f)
  reads f = Leads-Keeps (λ v k p. into v k (R_meta v k p)) (gets f) (Keeps-gets f)

module _ (w : World) (r : Reconciler) (cluster : KopsCluster) (dir : String) (creds : Credentials)
    (meta : ObjectMeta) (h : History) where
  abbrev E : Invariant
  E = Released w cluster.name meta h

  abbrev Before : Invariant
  Before = Untouched meta h

  abbrev Behind : Invariant
  Behind v k = Untouched meta h v k × Done w Call.tf_destroy h k

  early : (v : Vars) (k : History) → Same meta v k → E v k
  early v k e = inl e

  before : {A : Type 0} (m : Io A) → Emits all_effects m → Leads w Before Before E (checked m)
  before m em =
      checks w meta h Before Before E early (λ v k p. p.0) (λ v k p. p.1) (Since h)
        (λ v k l p e d. (p.0, d)) m em (Sure-Emits h m em)

  set_kmps-Before : (kmps : List KopsMachinePool) → Leads w Before Before E (set_kmps kmps)
  unfolding set_kmps
  set_kmps-Before kmps = record { at = λ v k p. p }

  destroy_cloud-Leads : Leads w Before Behind E (destroy_cloud r cluster dir creds)
  unfolding destroy_cloud
  destroy_cloud-Leads =
      Leads-bind _ _ (reads w meta h Before Before E early (λ v k p. p.0) (λ v k p. p.1) _) λ kcp.
        Leads-bind _ _ (before _ (get_kops_machine_pools-Emits refl _ _)) λ kmps.
          Leads-bind _ _ (set_kmps-Before kmps) λ _.
            Leads-bind _ _
              (before _ (prepare_custom-Emits refl refl cluster kcp [] false _ dir false))
              λ _. Leads-bind _ _ (before _ (create_terraform_file-Emits refl refl _ _ dir [])) λ _.
                reports w meta h Before Behind E early (λ v k p. p.0) (λ v k p. p.1)
                  (Done w Call.tf_destroy h) (λ v k l p e d. ((p.0, Extends-trans p.1 e), d))
                  "FailedToDestroyTerraform" _
                  (destroy_terraform-Emits_in all_effects refl refl refl refl dir r.tf_exec_path
                    creds refl)
                  (destroy_terraform-Sure w h dir r.tf_exec_path creds)

  abbrev Both : Invariant
  Both v k = Same meta v k × Destroyed w cluster.name h k

  behind :
      {A : Type 0} (reason : String) (m : Io A)
      → Emits all_effects m
      → Leads w Behind Behind E (reported reason m)
  behind reason m em =
      reports w meta h Behind Behind E early (λ v k p. p.0.0) (λ v k p. p.0.1) (Since h)
        (λ v k l p e d. ((p.0.0, d), Done-Extends p.1 e)) reason m em (Sure-Emits h m em)

  lock-Behind : Leads w Behind Behind E lock
  unfolding lock
  lock-Behind = record {
    at = λ v k p. ((p.0.0, more Call.mux_lock refl p.0.1), later Call.mux_lock p.1);
  }

  unlock-Both : Leads w Both Both E unlock
  unfolding unlock
  unlock-Both = record {
    at = λ v k p. (p.0, (later Call.mux_unlock p.1.0, later Call.mux_unlock p.1.1));
  }

  kops_delete-Sure :
      Sure w
        (Since h)
        (λ _. Done w (Call.delete_kops_cluster cluster.name) h)
        (kops_delete_resources cluster)
  unfolding kops_delete_resources
  kops_delete-Sure = Sure-choose _ _ _ (Sure-fail _) (
      Sure-bind _ _ _ (Sure-Emits h _ (Emits-perform (Call.list_resources cluster.name) refl))
        λ all.
          Sure-bind _ _ _ (Sure-Emits h _ (Emits-act (Call.delete_resources (unshared all)) refl))
            λ _.
              Sure-wrapping (Io.opaque_wrap "error removing cluster from state store: ") _
                (Sure-act h _))

  destroy_leftovers-Leads : Leads w Behind Both E (destroy_leftovers cluster creds)
  unfolding destroy_leftovers
  destroy_leftovers-Leads =
      Leads-bind _ _ (reads w meta h Behind Behind E early (λ v k p. p.0.0) (λ v k p. p.0.1) _)
        λ kcp. Leads-bind _ _ (behind _ _ (get_kops_clientset-Emits refl _)) λ _.
          Leads-bind _ _ (behind _ _ (set_env_vars-Emits refl creds)) λ _.
            Leads-bind _ _ (behind _ _ (build_cloud-Emits refl refl cluster)) λ _.
              checks w meta h Behind Both E early (λ v k p. p.0.0) (λ v k p. p.0.1) _
                (λ v k l p e d. (p.0.0, (Done-Extends p.1 e, d))) _
                (kops_delete_resources-Emits refl refl cluster) kops_delete-Sure

  Gone : Closed all_effects (λ v k. Destroyed w cluster.name h k)
  Gone = record {
    calls = λ v c k e p. (later c p.0, later c p.1);
    writes_kcp = λ v k kcp e p. p;
    writes_kmps = λ v k kmps p. p;
  }

  release-Leads : Leads w Both E E release_objects
  release-Leads = record {
    at = λ v k p.
        go (release_objects w v k).0 _ _
          ((release_objects-Keeps (any Gone) refl refl refl).at w v k p.1);
  }
    where
      go :
          (s : Step (Unit {0})) (v : Vars) (k : History)
          → Destroyed w cluster.name h k
          → Ends E E (s, v, k)
      go (next a) v k d = inr d
      go (return x e) v k d = inr d
      go crashed v k d = inr d

  pub delete_cluster-Leads : Leads w Before E E (delete_cluster r cluster dir creds)
  unfolding delete_cluster
  delete_cluster-Leads = Leads-bind _ _ destroy_cloud-Leads λ _.
      Leads-bind _ _ lock-Behind λ _.
        Leads-bind _ _ destroy_leftovers-Leads λ _. Leads-bind _ _ unlock-Both λ _. release-Leads

-- Whatever the way out of the deletion: the control plane keeps its finalizer and the rest of its
-- metadata, unless since its start `terraform destroy` was run and answered with success, and the cluster
-- was deleted from the kOps state store with success.
pub delete_cluster-Released :
    (r : Reconciler) (cluster : KopsCluster) (dir : String) (creds : Credentials) (w : World)
    (v : Vars) (h : History)
    → let (step, u, k) = delete_cluster r cluster dir creds w v h in
      Released w cluster.name v.kcp.meta h u k
delete_cluster-Released r cluster dir creds w v h =
    Leads-end (delete_cluster-Leads w r cluster dir creds v.kcp.meta h) v h (refl, same)
