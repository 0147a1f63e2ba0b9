-- ===== src/Controller/Apply.antt =====
-- The normal branch of `Reconcile`, from the finalizer to the validation of the cluster.
use kubernetes_kops_operator.Prelude.{
  String, ◌<>◌, Bool, false, not, Option, none, some, List, [], ◌∷◌, ◌==◌, ◌||◌, is_empty,
  if◌then◌else◌,
}
use kubernetes_kops_operator.Prelude.Dict.{has_key}
use kubernetes_kops_operator.Prelude.Text.{quoted}
use kubernetes_kops_operator.Api.{KopsControlPlane, KopsMachinePool}
use kubernetes_kops_operator.Api.Meta.{is_zero}
use kubernetes_kops_operator.Api.Kops.{KopsCluster, Cluster, Credentials, RestConfig}
use kubernetes_kops_operator.Io
use kubernetes_kops_operator.Io.{Error, Io, error, wrap}
use kubernetes_kops_operator.Outside.Call.{Call}
use kubernetes_kops_operator.Kops.{get_kops_machine_pools_with_label}
use kubernetes_kops_operator.Terraform.Provider.{modify_terraform_provider_version}
use kubernetes_kops_operator.Terraform.Run.{apply_terraform, plan_terraform}
use kubernetes_kops_operator.Utils.Features.{parse_spotinst_feature_flags}
use kubernetes_kops_operator.Utils.Cluster.{
  get_kops_clientset, build_cloud, get_kubeconfig_from_kops_state, validate_kops_cluster,
}
use kubernetes_kops_operator.Utils.Objects.{set_env_vars_from_aws_credentials}
use kubernetes_kops_operator.Utils.Validation.{kops_cluster_validation}
use kubernetes_kops_operator.Controller.State.{
  create_or_update_kops_cluster, reconcile_cluster_addons, reconcile_secrets,
}
use kubernetes_kops_operator.Controller.Pools.{reconcile_kops_machine_pool, update_provider_ids}
use kubernetes_kops_operator.Controller.Files.{
  prepare_kops_cloud_resources, prepare_custom_cloud_resources,
}
use kubernetes_kops_operator.Controller.Owner.{reconcile_kubeconfig}
use kubernetes_kops_operator.Controller.Delete.{kops_control_plane_finalizer, cluster_label}
use kubernetes_kops_operator.Controller.Body.{
  CtrlResult, Reconciler, Body, pure, exit, gets, ◌>>=◌, ◌>>◌, modify_kcp, set_kmps, report,
  parse_flags, lock, unlock, run, checked, reported, choose, when, mark_true, mark_false,
}

-- `if !ContainsFinalizer { AddFinalizer }`
unfoldable pub add_finalizer : Body (Unit {0})
add_finalizer = modify_kcp λ w k.
    if w.contains_finalizer kops_control_plane_finalizer k.meta.finalizers then k else record k {
      meta = record k.meta {
        finalizers = w.add_finalizer kops_control_plane_finalizer k.meta.finalizers;
      };
    }

-- From the lock to the environment.
unfoldable pub start : Credentials → Body (Unit {0})
start creds = do
  kcp ← gets (λ v. v.kcp)
  kmps ← checked (get_kops_machine_pools_with_label cluster_label kcp.meta.name)
  set_kmps kmps
  report "ReconciliationStarted" "reconciliation started"
  reported "FailedInstantiateKopsClient" (get_kops_clientset kcp.spec.kops_cluster_spec.config_base)
  reported "FailedToSetAWSEnvVars" (set_env_vars_from_aws_credentials creds)

abbrev pub outcome_event : String → Option Error → Call
outcome_event name none = Call.event "KopsMachinePoolReconcileSuccess" name
outcome_event name (some e) = Call.event "KopsMachinePoolReconcileFailed" e.message

-- The loop over the pools: an error of one pool becomes an event, and the loop goes on. After a panic the
-- deferred function sees the pools as they were listed.
unfoldable pub reconcile_pools : List KopsMachinePool → Io (List KopsMachinePool)
reconcile_pools [] = Io.pure []
reconcile_pools (kmp ∷ kmps) =
    let rest = reconcile_pools kmps in
    Io.◌>>=◌ (reconcile_kops_machine_pool kmp) λ (pool, failed).
      Io.◌>>=◌ (Io.emit (outcome_event kmp.meta.name failed))
        λ _. Io.◌>>=◌ rest (λ l. Io.pure (pool ∷ l))

-- The pools that are not being deleted, as they were listed.
unfoldable pub existing_pools : List KopsMachinePool → List KopsMachinePool
existing_pools [] = []
existing_pools (kmp ∷ l) =
    let rest = existing_pools l in if is_zero kmp.meta.deletion_timestamp then kmp ∷ rest else rest

unfoldable pub should_enable_karpenter : List KopsMachinePool → Bool
should_enable_karpenter [] = false
should_enable_karpenter (kmp ∷ l) =
    not (is_empty kmp.spec.karpenter_node_pools) || should_enable_karpenter l

-- The addon goes into the spec of the control plane, not into the kOps cluster of this run.
unfoldable pub set_karpenter_addon : Body (Unit {0})
set_karpenter_addon = modify_kcp λ w k. record k {
  spec = record k.spec {
    kops_cluster_spec = record k.spec.kops_cluster_spec {
      addons = (k.spec.kops_cluster_spec.config_base <> "/custom-addons/addon.yaml") ∷ [];
    };
  };
}

-- The pools as they were listed.
unfoldable pub prepare_pools : Reconciler → Body (List KopsMachinePool)
unfolding set_karpenter_addon
prepare_pools r = do
  listed ← gets (λ v. v.kmps)
  when (not r.dry_run) (checked (reconcile_pools listed) >>= set_kmps)
  when (should_enable_karpenter listed) set_karpenter_addon
  pure listed

-- The cluster after `PerformAssignments`, and the full one.
unfoldable pub populate_cluster_spec : KopsCluster → Io (KopsCluster × KopsCluster)
populate_cluster_spec cluster = Io.◌>>=◌ (Io.perform (Call.perform_assignments cluster)) λ assigned.
    Io.◌>>=◌ (Io.perform (Call.populate_cluster_spec assigned)) λ full. Io.pure (assigned, full)

abbrev karpenter_enabled : KopsControlPlane → Bool
karpenter_enabled kcp = elim kcp.spec.kops_cluster_spec.karpenter [ none ↦ false | some b ↦ b ]

unfoldable pub prepare_library : KopsCluster → Body (KopsCluster × KopsCluster)
prepare_library cluster = do
  kcp ← gets (λ v. v.kcp)
  checked (reconcile_cluster_addons kcp.spec.kops_cluster_addons)
  parse_flags "-Karpenter"
  when (karpenter_enabled kcp) (parse_flags "Karpenter")
  reported "FailedToParseKopsFeatureFlags" (parse_spotinst_feature_flags kcp.spec.spot_inst)
  reported "FailedToBuildCloudConfig" (build_cloud cluster)
  reported "FailedToPopulateClusterSpec" (populate_cluster_spec cluster)

abbrev pub set_secrets : List String → Body (Unit {0})
set_secrets secrets =
    modify_kcp (λ w k. record k { status = record k.status { secrets = secrets } })

abbrev pub mark_secrets_failed : Option Error → Body (Unit {0})
mark_secrets_failed none = pure tt
mark_secrets_failed (some e) =
    mark_false "KopsControlPlaneSecretsReady" "KopsControlPlaneSecretsReconciliationFailed"
      "Warning" ("failed to reconcile KopsSecrets: " <> e.message)

-- `ReconcileKopsSecrets` and the two marks that follow it.
unfoldable pub write_secrets : KopsCluster → Body (Unit {0})
write_secrets cluster = do
  kcp ← gets (λ v. v.kcp)
  (secrets, failed) ← checked (reconcile_secrets kcp.spec.kops_secret cluster kcp.status.secrets)
  set_secrets secrets
  mark_secrets_failed failed
  mark_true "KopsControlPlaneSecretsReady"

unfoldable pub write_state : KopsCluster → KopsCluster → Body (Unit {0})
unfolding write_secrets
write_state cluster full = do
  kcp ← gets (λ v. v.kcp)
  run (create_or_update_kops_cluster full kcp.spec.ssh_public_key) λ e.
      report "FailedToManageKopsState" e.message
      >> mark_false "KopsControlPlaneStateReady" "KopsControlPlaneStateReconciliationFailed" "Error"
          ("failed to create/update KopsCluster: " <> e.message)
      >> exit CtrlResult.result_error (some e)
  mark_true "KopsControlPlaneStateReady"
  write_secrets cluster

abbrev pub ignores_security_groups : Cluster → Bool
ignores_security_groups owner =
    has_key "kopscontrolplane.controlplane.wildlife.io/external-security-groups"
      owner.meta.annotations

unfoldable pub generate_files :
    Reconciler
    → Cluster
    → KopsCluster
    → KopsCluster
    → String
    → List KopsMachinePool
    → Body (Unit {0})
generate_files r owner cluster full dir listed = do
  run (prepare_kops_cloud_resources cluster dir) λ e.
      mark_false "KopsTerraformGenerationReady" "KopsTerraformGenerationReconciliationFailed"
        "Error" ("failed to prepare cloud resources: " <> e.message)
      >> report "FailedToPrepareCloudResources" e.message
      >> exit CtrlResult.result_error (some e)
  mark_true "KopsTerraformGenerationReady"
  kcp ← gets (λ v. v.kcp)
  checked (
      prepare_custom_cloud_resources cluster kcp (existing_pools listed)
        (should_enable_karpenter listed) full.spec.config_base dir (ignores_security_groups owner))
  when (not (r.aws_provider_version == ""))
      (checked (modify_terraform_provider_version dir r.aws_provider_version))

unfoldable pub plan : Reconciler → String → Credentials → Body (Unit {0})
plan r dir creds = do checked (plan_terraform dir r.tf_exec_path creds); unlock

unfoldable pub write_kubeconfig : KopsCluster → Cluster → Body RestConfig
write_kubeconfig cluster owner = do
  config ← checked (get_kubeconfig_from_kops_state cluster)
  reported "FailedToReconcileKubeconfig" (reconcile_kubeconfig config cluster.name owner)
  pure config

-- Behind the lock: `terraform apply`.
unfoldable pub apply_files : Reconciler → String → Credentials → Body (Unit {0})
apply_files r dir creds = do
  run (apply_terraform dir r.tf_exec_path creds) λ e.
      mark_false "TerraformApplyReady" "TerraformApplyReconciliationFailed" "Error"
        ("failed to apply Terraform: " <> e.message)
      >> report "FailedToApplyTerraform" e.message
      >> exit CtrlResult.result_error (some e)
  mark_true "TerraformApplyReady"
  report "TerraformApplied" "Terraform applied"

-- A pool whose group is not there yet is tried again after a minute.
abbrev pub stop_or_requeue : Option Error → Body (Unit {0})
stop_or_requeue none = pure tt
stop_or_requeue (some e) =
    choose e.not_found (exit CtrlResult.requeue_1min none) (exit CtrlResult.result_error (some e))

unfoldable pub update_pools : Credentials → Body (Unit {0})
update_pools creds = do
  kcp ← gets (λ v. v.kcp)
  kmps ← gets (λ v. v.kmps)
  (updated, failed) ← checked (update_provider_ids kcp creds kmps)
  set_kmps updated
  stop_or_requeue failed

abbrev pub set_ready : Bool → Body (Unit {0})
set_ready ready = modify_kcp (λ w k. record k { status = record k.status { ready = ready } })

-- An empty list comes with no error, which `%s` and `%w` print in their own ways.
abbrev pub no_groups : {A : Type 0} → String → Error → Body A
no_groups shown cause = report "FailedToGetIGs" shown >> exit CtrlResult.result_error (some cause)

abbrev pub groups_for : KopsCluster → String
groups_for cluster = "cannot get InstanceGroups for " <> quoted cluster.name

unfoldable pub validate : KopsCluster → RestConfig → Body (Unit {0})
validate cluster config = do
  groups ←
      run (Io.perform (Call.list_instance_groups cluster.name))
        (λ e. no_groups e.message (wrap (groups_for cluster) e))
  when (is_empty groups) (no_groups "%!s(<nil>)" (error (groups_for cluster <> ": %!w(<nil>)")))
  result ←
      reported "FailedToValidateKubernetesCluster" (validate_kops_cluster config cluster groups)
  ready ← checked (kops_cluster_validation result)
  set_ready ready
  report "ClusterReconciliationFinished" "cluster reconciliation finished"

unfoldable pub apply : Reconciler → Cluster → KopsCluster → String → Credentials → Body (Unit {0})
apply r owner cluster dir creds = do
  config ← write_kubeconfig cluster owner
  unlock
  apply_files r dir creds
  update_pools creds
  validate cluster config

unfoldable pub reconcile_cluster :
    Reconciler → Cluster → KopsCluster → String → Credentials → Body (Unit {0})
reconcile_cluster r owner named dir creds = do
  add_finalizer
  lock
  start creds
  listed ← prepare_pools r
  (cluster, full) ← prepare_library named
  when (not r.dry_run) (write_state cluster full)
  generate_files r owner cluster full dir listed
  choose r.dry_run (plan r dir creds) (apply r owner cluster dir creds)
  exit CtrlResult.result_default none
