-- ===== src/Outside/Effect.antt =====
-- What kind of effect a call has. The safety properties are stated by these kinds.
use kubernetes_kops_operator.Prelude.{Bool}
use kubernetes_kops_operator.Outside.Call.{Call}

pub data Effect : Type 0 where
  -- changes nothing outside: queries, logs of events, metrics, waiting, client construction
  observe report wait : Effect
  -- the objects of the management cluster's API: secrets, the operator's own objects and their statuses
  kube_secret kube_write kube_status kube_delete : Effect
  -- the kOps state store, and the deletion of what kOps made
  kops_write addons_write kops_delete : Effect
  -- process-wide state: the environment, the feature flags, the cached cloud clients, the VFS context
  globals : Effect
  -- files below the output and plugin cache directories
  file_write : Effect
  -- the terraform executable
  tf_prepare tf_plan_run tf_apply_run tf_destroy_run : Effect
  -- the manager, which runs the workers
  serving : Effect
  -- the reconciler's mutex
  mutex : Effect

abbrev pub effect : Call → Effect
effect (Call.create_secret _) = Effect.kube_secret
effect (Call.update_secret _) = Effect.kube_secret
effect (Call.update_kcp _) = Effect.kube_write
effect (Call.update_kcp_status _) = Effect.kube_status
effect (Call.update_kmp _) = Effect.kube_write
effect (Call.update_kmp_status _) = Effect.kube_status
effect (Call.delete_object _) = Effect.kube_delete
effect (Call.create_kops_cluster _) = Effect.kops_write
effect (Call.update_kops_cluster _) = Effect.kops_write
effect (Call.add_ssh_public_key _) = Effect.kops_write
effect (Call.replace_addons _) = Effect.addons_write
effect (Call.create_instance_group _) = Effect.kops_write
effect (Call.update_instance_group _) = Effect.kops_write
effect (Call.delete_instance_group _) = Effect.kops_write
effect (Call.get_or_create_secret _ _) = Effect.kops_write
effect (Call.replace_secret _ _) = Effect.kops_write
effect (Call.delete_secret _) = Effect.kops_write
effect (Call.issue_cert _) = Effect.kops_write
effect (Call.delete_resources _) = Effect.kops_delete
effect (Call.delete_kops_cluster _) = Effect.kops_delete
effect Call.reset_cloud_instances = Effect.globals
effect (Call.kops_client _) = Effect.globals
effect (Call.set_env _ _) = Effect.globals
effect (Call.unset_env _) = Effect.globals
effect (Call.parse_flags _) = Effect.globals
effect (Call.apply_cluster_cmd _ _) = Effect.file_write
effect (Call.mkdir _) = Effect.file_write
effect (Call.mkdir_all _) = Effect.file_write
effect (Call.create_file _) = Effect.file_write
effect (Call.remove_all _) = Effect.file_write
effect (Call.write_file _ _) = Effect.file_write
effect (Call.execute_template _ _ _) = Effect.file_write
effect (Call.edit_plan_file _) = Effect.file_write
effect (Call.flock_exclusive _) = Effect.file_write
effect (Call.flock_unlock _) = Effect.file_write
effect (Call.install_terraform _ _) = Effect.file_write
effect Call.start_manager = Effect.serving
effect (Call.tf_new _ _) = Effect.tf_prepare
effect (Call.tf_set_env _) = Effect.tf_prepare
effect Call.tf_init = Effect.tf_prepare
effect Call.tf_apply = Effect.tf_apply_run
effect Call.tf_destroy = Effect.tf_destroy_run
effect (Call.tf_plan _) = Effect.tf_plan_run
effect Call.mux_lock = Effect.mutex
effect Call.mux_unlock = Effect.mutex
effect (Call.sleep_ms _) = Effect.wait
effect (Call.event _ _) = Effect.report
effect (Call.errors_inc _ _) = Effect.report
effect (Call.errors_reset _ _) = Effect.report
effect _ = Effect.observe

-- A set of effects.
abbrev pub Effects : Type 0
Effects = Effect → Bool
