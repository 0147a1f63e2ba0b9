-- ===== src/Controller/Steps.antt =====
-- Each block of the body keeps every invariant that is closed under the block's effects.
use kubernetes_kops_operator.Prelude.{
  String, Bool, true, false, Option, none, some, List, ◌≡◌, refl, if◌then◌else◌,
}
use kubernetes_kops_operator.Api.{KopsControlPlane, KopsMachinePool}
use kubernetes_kops_operator.Api.Kops.{KopsCluster, Cluster, RestConfig, Credentials}
use kubernetes_kops_operator.Io.{Error}
use kubernetes_kops_operator.Io.Emits.{emits_rules}
use kubernetes_kops_operator.Outside.Effect.{Effect, Effects}
use kubernetes_kops_operator.Utils.Effects.{
  get_kops_machine_pools-Emits, get_kops_clientset-Emits, set_env_vars-Emits, build_cloud-Emits,
  parse_spotinst-Emits, kops_delete_resources-Emits, delete_owner_resources-Emits,
  get_kubeconfig-Emits, validate_kops_cluster-Emits, kops_cluster_validation-Emits,
}
use kubernetes_kops_operator.Terraform.Effects.{
  apply_terraform-Emits_in, destroy_terraform-Emits_in,
}
use kubernetes_kops_operator.Controller.Effects.{
  prepare_custom-Emits, create_terraform_file-Emits, modify_version-Emits, release_pools-Emits,
  reconcile_pools-Emits, reconcile_cluster_addons-Emits, populate-Emits,
  create_or_update_cluster-Emits, reconcile_secrets-Emits, prepare_kops-Emits,
  reconcile_kubeconfig-Emits, update_provider_ids-Emits,
}
use kubernetes_kops_operator.Controller.Keeps.{
  Invariant, Stable, SameReady, SameMeta, Steady, ready_steady, meta_steady, Keeps, Keeps-bind,
  Keeps-write_kcp, Keeps-exit, Keeps-pure, keeps_rules,
}
use kubernetes_kops_operator.Controller.Body.{Reconciler, CtrlResult, lock, unlock}
use kubernetes_kops_operator.Controller.Delete.{
  kops_control_plane_finalizer, delete_cluster, stop_on, destroy_cloud, destroy_leftovers,
  release_objects, report_protection,
}
use kubernetes_kops_operator.Controller.Apply.{
  add_finalizer, start, prepare_pools, prepare_library, mark_secrets_failed, write_secrets,
  write_state, generate_files, write_kubeconfig, apply_files, stop_or_requeue, update_pools,
  validate,
}
use kubernetes_kops_operator.Controller.Reconcile.{set_active, make_cluster}

finalizer_ready :
    (k : KopsControlPlane) (l : List String) (b : Bool)
    → (if b then k else record k { meta = record k.meta { finalizers = l } }).status.ready
      ≡ k.status.ready
finalizer_ready k l true = refl
finalizer_ready k l false = refl

module _ {C : Effects} {P : Invariant} (closed : Steady C P)
    (observes : C Effect.observe ≡ true) where
  stop_on-Keeps : (e : Option Error) → Keeps P (stop_on e)
  stop_on-Keeps none = Keeps-pure tt
  stop_on-Keeps (some e) = Keeps-exit CtrlResult.result_error (some e)

  stop_or_requeue-Keeps : (e : Option Error) → Keeps P (stop_or_requeue e)
  stop_or_requeue-Keeps none = Keeps-pure tt
  stop_or_requeue-Keeps (some e) = search keeps_rules

  pub make_cluster-Keeps : (owner : Cluster) → Keeps P (make_cluster owner)
  unfolding make_cluster
  make_cluster-Keeps owner = search (keeps_rules, emits_rules) depth 12

  pub update_pools-Keeps : (creds : Credentials) → Keeps P (update_pools creds)
  unfolding update_pools
  update_pools-Keeps creds =
      search (keeps_rules, update_provider_ids-Emits, stop_or_requeue-Keeps) depth 10

module _ {C : Effects} {P : Invariant} (closed : Steady C P) (observes : C Effect.observe ≡ true)
    (reports : C Effect.report ≡ true) where
  pub report_protection-Keeps : (r : Reconciler) → Keeps P (report_protection r)
  unfolding report_protection
  report_protection-Keeps r = search keeps_rules depth 10

  pub start-Keeps : C Effect.globals ≡ true → (creds : Credentials) → Keeps P (start creds)
  unfolding start
  start-Keeps sets creds =
      search
        (keeps_rules, get_kops_machine_pools-Emits, get_kops_clientset-Emits, set_env_vars-Emits)
        depth 14

module _ {C : Effects} {P : Invariant} (closed : Steady C P) (observes : C Effect.observe ≡ true)
    (reports : C Effect.report ≡ true) (waits : C Effect.wait ≡ true)
    (writes : C Effect.file_write ≡ true) (prepares : C Effect.tf_prepare ≡ true) where
  pub destroy_cloud-Keeps :
      C Effect.tf_destroy_run ≡ true
      → (r : Reconciler) (cluster : KopsCluster) (dir : String) (creds : Credentials)
      → Keeps P (destroy_cloud r cluster dir creds)
  unfolding destroy_cloud
  destroy_cloud-Keeps runs r cluster dir creds =
      search
        (
          keeps_rules, get_kops_machine_pools-Emits, prepare_custom-Emits,
          create_terraform_file-Emits, destroy_terraform-Emits_in,
        )
        depth 14

  pub apply_files-Keeps :
      C Effect.tf_apply_run ≡ true
      → (r : Reconciler) (dir : String) (creds : Credentials) → Keeps P (apply_files r dir creds)
  unfolding apply_files
  apply_files-Keeps runs r dir creds = search (keeps_rules, apply_terraform-Emits_in) depth 14

  pub generate_files-Keeps :
      (r : Reconciler) (owner : Cluster) (cluster full : KopsCluster) (dir : String)
      (listed : List KopsMachinePool)
      → Keeps P (generate_files r owner cluster full dir listed)
  unfolding generate_files
  generate_files-Keeps r owner cluster full dir listed =
      search (keeps_rules, prepare_kops-Emits, prepare_custom-Emits, modify_version-Emits) depth 14

module _ {C : Effects} {P : Invariant} (closed : Steady C P) (observes : C Effect.observe ≡ true)
    (reports : C Effect.report ≡ true) where
  pub destroy_leftovers-Keeps :
      C Effect.globals ≡ true
      → C Effect.kops_delete ≡ true
      → (cluster : KopsCluster) (creds : Credentials) → Keeps P (destroy_leftovers cluster creds)
  unfolding destroy_leftovers
  destroy_leftovers-Keeps sets deletes cluster creds =
      search
        (
          keeps_rules, get_kops_clientset-Emits, set_env_vars-Emits, build_cloud-Emits,
          kops_delete_resources-Emits,
        )
        depth 14

  pub prepare_library-Keeps :
      C Effect.globals ≡ true
      → C Effect.addons_write ≡ true
      → (cluster : KopsCluster) → Keeps P (prepare_library cluster)
  unfolding prepare_library
  prepare_library-Keeps sets writes cluster =
      search
        (
          keeps_rules, reconcile_cluster_addons-Emits, parse_spotinst-Emits, build_cloud-Emits,
          populate-Emits,
        )
        depth 16

  mark_secrets_failed-Keeps : (e : Option Error) → Keeps P (mark_secrets_failed e)
  mark_secrets_failed-Keeps none = Keeps-pure tt
  mark_secrets_failed-Keeps (some e) = search keeps_rules

  write_secrets-Keeps :
      C Effect.kops_write ≡ true → (cluster : KopsCluster) → Keeps P (write_secrets cluster)
  unfolding write_secrets
  write_secrets-Keeps writes cluster =
      search (keeps_rules, reconcile_secrets-Emits, mark_secrets_failed-Keeps) depth 12

  pub write_state-Keeps :
      C Effect.kops_write ≡ true → (cluster full : KopsCluster) → Keeps P (write_state cluster full)
  unfolding write_state
  write_state-Keeps writes cluster full =
      search (keeps_rules, create_or_update_cluster-Emits, write_secrets-Keeps) depth 14

  pub write_kubeconfig-Keeps :
      C Effect.kops_write ≡ true
      → C Effect.kube_secret ≡ true
      → (cluster : KopsCluster) (owner : Cluster) → Keeps P (write_kubeconfig cluster owner)
  unfolding write_kubeconfig
  write_kubeconfig-Keeps writes kube cluster owner =
      search (keeps_rules, get_kubeconfig-Emits, reconcile_kubeconfig-Emits) depth 12

module _ {C : Effects} {P : Invariant} (closed : Steady C P) (observes : C Effect.observe ≡ true)
    (deletes : C Effect.kube_delete ≡ true) (waits : C Effect.wait ≡ true) where
  pub prepare_pools-Keeps :
      C Effect.report ≡ true
      → C Effect.kops_write ≡ true
      → (r : Reconciler) → Keeps P (prepare_pools r)
  unfolding prepare_pools
  prepare_pools-Keeps reports writes r = search (keeps_rules, reconcile_pools-Emits) depth 14

-- The two blocks that write whether the control plane is ready, and keep its metadata.
module _ {C : Effects} {P : Invariant} (closed : Stable SameMeta C P)
    (observes : C Effect.observe ≡ true) where
  pub set_active-Keeps : Keeps P set_active
  unfolding set_active
  set_active-Keeps = Keeps-write_kcp closed _ (λ w k. refl)

  pub validate-Keeps :
      C Effect.report ≡ true
      → (cluster : KopsCluster) (config : RestConfig) → Keeps P (validate cluster config)
  unfolding validate
  validate-Keeps reports cluster config =
      search
        (
          keeps_rules, meta_steady, Keeps-write_kcp, emits_rules, validate_kops_cluster-Emits,
          kops_cluster_validation-Emits,
        )
        depth 16

-- The two blocks that write the finalizers, and keep whether the control plane is ready.
module _ {C : Effects} {P : Invariant} (closed : Stable SameReady C P)
    (observes : C Effect.observe ≡ true) where
  pub add_finalizer-Keeps : Keeps P add_finalizer
  unfolding add_finalizer
  add_finalizer-Keeps = Keeps-write_kcp closed _ λ w k.
      finalizer_ready k _ (w.contains_finalizer kops_control_plane_finalizer k.meta.finalizers)

  pub release_objects-Keeps :
      C Effect.kube_delete ≡ true → C Effect.wait ≡ true → Keeps P release_objects
  unfolding release_objects
  release_objects-Keeps deletes waits =
      let keeping : Steady C P = ready_steady closed in
      search
        (
          keeps_rules, Keeps-write_kcp, release_pools-Emits, delete_owner_resources-Emits,
          stop_on-Keeps,
        )
        depth 14

-- The deletion of a cluster, from what becomes of the lock.
module _ {C : Effects} {P : Invariant} (closed : Stable SameReady C P)
    (observes : C Effect.observe ≡ true) (reports : C Effect.report ≡ true)
    (waits : C Effect.wait ≡ true) (locks : Keeps P lock) (unlocks : Keeps P unlock) where
  pub delete_cluster-Keeps :
      C Effect.file_write ≡ true
      → C Effect.tf_prepare ≡ true
      → C Effect.tf_destroy_run ≡ true
      → C Effect.globals ≡ true
      → C Effect.kops_delete ≡ true
      → C Effect.kube_delete ≡ true
      → (r : Reconciler) (cluster : KopsCluster) (dir : String) (creds : Credentials)
      → Keeps P (delete_cluster r cluster dir creds)
  unfolding delete_cluster
  delete_cluster-Keeps files prepares runs sets deletes objects r cluster dir creds =
      Keeps-bind _ _
        (destroy_cloud-Keeps (ready_steady closed) observes reports waits files prepares runs r
          cluster dir creds)
        λ _. Keeps-bind _ _ locks λ _.
          Keeps-bind _ _
            (destroy_leftovers-Keeps (ready_steady closed) observes reports sets deletes cluster
              creds)
            λ _. Keeps-bind _ _ unlocks λ _. release_objects-Keeps closed observes objects waits
