-- ===== src/Outside/Call.antt =====
-- Every operation that the operator makes outside its own memory, and the type of the answer.
use kubernetes_kops_operator.Prelude.{ℕ, String, Bool, Option, List}
use kubernetes_kops_operator.Prelude.Dict.{Dict}
use kubernetes_kops_operator.Prelude.Int.{ℤ}
use kubernetes_kops_operator.Api.{KopsControlPlane, KopsMachinePool}
use kubernetes_kops_operator.Api.Meta.{ObjectKey, ObjectReference}
use kubernetes_kops_operator.Api.Kops.{
  KopsCluster, InstanceGroup, Cluster, ValidationCluster, AutoScalingGroup, CloudResource,
  Credentials, RestConfig, KubeconfigSecret,
}

-- What `filepath.Walk` shows of one file; `dir` is the folder that holds it.
pub record FileInfo : Type 0 where
  pub dir : String
  pub is_dir : Bool
  pub is_executable : Bool
  pub size : ℕ

pub data Call : Type 0 where
  -- the Kubernetes API
  get_kcp : ObjectKey → Call
  list_kcps : Call
  get_owner : ObjectReference → Call
  get_cluster : ObjectKey → Call
  get_kmp : ObjectKey → Call
  list_kmps : String → String → Call
  get_secret : ObjectKey → Call
  get_kubeconfig_secret : ObjectKey → Call
  create_secret update_secret : KubeconfigSecret → Call
  update_kcp update_kcp_status : KopsControlPlane → Call
  update_kmp update_kmp_status : KopsMachinePool → Call
  delete_object : ObjectReference → Call
  -- the kOps state store and the kOps library
  kops_client : String → Call
  get_kops_cluster : String → Call
  create_kops_cluster update_kops_cluster : KopsCluster → Call
  find_cluster_status : KopsCluster → Call
  ssh_credential_store : String → Call
  add_ssh_public_key : String → Call
  load_objects : String → Call
  replace_addons : Option (List String) → Call
  get_instance_group : String → Call
  create_instance_group update_instance_group : InstanceGroup → Call
  delete_instance_group : String → Call
  list_instance_groups : String → Call
  secret_store : String → Call
  get_or_create_secret replace_secret : String → String → Call
  delete_secret : String → Call
  key_store : String → Call
  find_keyset to_certificate_bytes : String → Call
  issue_cert : String → Call
  cert_bytes private_key_bytes : Call
  reset_cloud_instances : Call
  build_cloud : KopsCluster → Call
  perform_assignments populate_cluster_spec : KopsCluster → Call
  apply_cluster_cmd : KopsCluster → String → Call
  new_kubernetes_client : RestConfig → Call
  new_cluster_validator : KopsCluster → List InstanceGroup → Call
  validate_cluster : Call
  list_resources : String → Call
  delete_resources : Dict CloudResource → Call
  delete_kops_cluster : String → Call
  -- AWS
  load_aws_config : String → Credentials → Call
  describe_auto_scaling_groups : String → Call
  -- process-wide state: environment and kOps feature flags
  lookup_env : String → Call
  set_env : String → String → Call
  unset_env : String → Call
  parse_flags : String → Call
  -- files
  mkdir mkdir_all stat read_file create_file remove_all read_dir : String → Call
  write_file : String → String → Call
  execute_template : String → String → List String → Call
  edit_plan_file : String → Call
  flock_exclusive flock_unlock : String → Call
  walk_files : String → Call
  -- the manager of controller-runtime, and the installer of terraform
  new_manager : String → String → Bool → Call
  complete_controller : String → ℤ → Call
  add_check : String → Call
  start_manager : Call
  install_terraform : String → String → Call
  -- the terraform executable
  tf_new : String → String → Call
  tf_set_env : Dict String → Call
  tf_init tf_apply tf_destroy : Call
  tf_plan : String → Call
  -- the reconciler's mutex, the clock, events and metrics
  mux_lock mux_unlock : Call
  sleep_ms : ℕ → Call
  event : String → String → Call
  errors_inc errors_reset : String → String → Call

abbrev pub Reply : Call → Type 0
Reply (Call.get_kcp _) = KopsControlPlane
Reply Call.list_kcps = List KopsControlPlane
Reply (Call.get_owner _) = Cluster
Reply (Call.get_cluster _) = Cluster
Reply (Call.get_kmp _) = KopsMachinePool
Reply (Call.list_kmps _ _) = List KopsMachinePool
Reply (Call.get_secret _) = Dict String
Reply (Call.update_kcp _) = KopsControlPlane
Reply (Call.update_kcp_status _) = KopsControlPlane
Reply (Call.update_kmp _) = KopsMachinePool
Reply (Call.update_kmp_status _) = KopsMachinePool
Reply (Call.get_kops_cluster _) = KopsCluster
Reply (Call.find_cluster_status _) = String
Reply (Call.load_objects _) = List String
Reply (Call.list_instance_groups _) = List InstanceGroup
Reply (Call.get_or_create_secret _ _) = String × Bool
Reply (Call.find_keyset _) = Bool
Reply (Call.to_certificate_bytes _) = String
Reply Call.cert_bytes = String
Reply Call.private_key_bytes = String
Reply (Call.perform_assignments _) = KopsCluster
Reply (Call.populate_cluster_spec _) = KopsCluster
Reply Call.validate_cluster = ValidationCluster
Reply (Call.list_resources _) = Dict CloudResource
Reply (Call.describe_auto_scaling_groups _) = List AutoScalingGroup
Reply (Call.lookup_env _) = Option String
Reply (Call.read_file _) = String
Reply (Call.read_dir _) = List String
Reply (Call.walk_files _) = List FileInfo
Reply (Call.install_terraform _ _) = String
Reply _ = Unit {0}
