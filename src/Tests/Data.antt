-- ===== src/Tests/Data.antt =====
-- A control plane, a pool and an outside that answers for them.
use kubernetes_kops_operator.Prelude.{
  ◌<>◌, String, ℕ, Bool, true, false, Option, none, some, [], ◌∷◌, contains,
}
use kubernetes_kops_operator.Api.{KopsControlPlane, KopsMachinePool}
use kubernetes_kops_operator.Api.Meta.{ObjectMeta, ObjectKey, OwnerReference}
use kubernetes_kops_operator.Api.Kops.{RestConfig, KopsCluster, Cluster, ClusterSpec, Credentials}
use kubernetes_kops_operator.Kops.Cidr.{IpNet}
use kubernetes_kops_operator.Io.{Result, ok, err, error, World}
use kubernetes_kops_operator.Outside.Call.{Call, Reply}
use kubernetes_kops_operator.Controller.Body.{Reconciler, Vars}

abbrev pub owner_ref : OwnerReference
owner_ref = record {
  api_version = "cluster.x-k8s.io/v1beta1";
  kind = "Cluster";
  name = "prod";
  uid = "";
}

abbrev pub meta_of : Option ℕ → ObjectMeta
meta_of deleted = record {
  name = "prod";
  namespace = "clusters";
  uid = "u-1";
  labels = ("environment", "production") ∷ [];
  annotations = [];
  finalizers = "kopscontrolplane.controlplane.cluster.x-k8s.io" ∷ [];
  owner_references = owner_ref ∷ [];
  deletion_timestamp = deleted;
}

abbrev pub cluster_spec : ClusterSpec
cluster_spec = record {
  config_base = "s3://kops-state/prod";
  service_cluster_ip_range = "100.64.0.0/20";
  non_masquerade_cidr = "100.64.0.0/10";
  subnets = none;
  addons = [];
  karpenter = none;
  kubelet = none;
  cloud_labels = ("team", "infra") ∷ [];
}

abbrev pub kcp_of : Option ℕ → KopsControlPlane
kcp_of deleted = record {
  meta = meta_of deleted;
  spec = record {
    controller_class = "";
    identity_ref = record { namespace = "secrets"; name = "aws" };
    ssh_public_key = "ssh-rsa AAAA";
    kops_cluster_spec = cluster_spec;
    kops_secret = none;
    spot_inst = record { enabled = false; feature_flags = "" };
    kops_cluster_addons = "";
    cleanup_terraform_directory = true;
  };
  status = record {
    ready = false;
    paused = false;
    conditions = [];
    secrets = [];
    last_reconciled = none;
  };
}

abbrev pub pool_of : Option ℕ → KopsMachinePool
pool_of deleted = record {
  meta = record (meta_of deleted) { name = "nodes"; owner_references = [] };
  spec = record {
    provider_id_list = [];
    cluster_name = "prod";
    karpenter_node_pools = [];
    kops_instance_group_spec = record {
      node_labels = [];
      manager = "CloudGroup";
      image = "000000000000/ubuntu";
      min_size = some 1;
      max_size = some 3;
      kubelet = none;
      root_volume = none;
      associate_public_ip = none;
      cloud_labels = [];
    };
    spot_inst_options = [];
  };
  status = record { ready = false; replicas = 0; conditions = [] };
}

abbrev pub owner : Cluster
owner = record { meta = meta_of none; infrastructure_ref = none }

abbrev pub kops_cluster : KopsCluster
kops_cluster = record { name = "prod"; spec = cluster_spec }

abbrev pub creds : Credentials
creds = record { access_key_id = "id"; secret_access_key = "key" }

abbrev pub key : ObjectKey
key = record { namespace = "clusters"; name = "prod" }

abbrev pub reconciler : Bool → Reconciler
reconciler dry = record {
  controller_class = "";
  cluster = "";
  tf_exec_path = "/opt/terraform/terraform";
  dry_run = dry;
  aws_provider_version = "";
  ctx_reader = true;
  ctx_kcp = some (kcp_of none);
}

abbrev pub vars_of : Option ℕ → Vars
vars_of deleted = record { kcp = kcp_of deleted; kmps = []; should_unlock = false }

-- The API server, the state store and terraform answer with success.
abbrev answers : Option ℕ → (c : Call) → Result (Reply c)
answers deleted (Call.get_kcp _) = ok (kcp_of deleted)
answers deleted Call.list_kcps = ok (kcp_of deleted ∷ [])
answers deleted (Call.get_owner _) = ok owner
answers deleted (Call.get_cluster _) = ok owner
answers deleted (Call.get_kmp _) = ok (pool_of deleted)
answers deleted (Call.list_kmps _ _) = ok []
answers deleted (Call.get_secret _) = ok (("AccessKeyID", "id") ∷ ("SecretAccessKey", "key") ∷ [])
answers deleted (Call.update_kcp k) = ok k
answers deleted (Call.update_kcp_status k) = ok k
answers deleted (Call.update_kmp k) = ok k
answers deleted (Call.update_kmp_status k) = ok k
answers deleted (Call.get_kops_cluster _) = ok kops_cluster
answers deleted (Call.find_cluster_status _) = ok ""
answers deleted (Call.load_objects _) = ok []
answers deleted (Call.list_instance_groups _) = ok []
answers deleted (Call.get_or_create_secret _ v) = ok (v, true)
answers deleted (Call.find_keyset _) = ok true
answers deleted (Call.to_certificate_bytes _) = ok "ca"
answers deleted Call.cert_bytes = ok "cert"
answers deleted Call.private_key_bytes = ok "private"
answers deleted (Call.perform_assignments c) = ok c
answers deleted (Call.populate_cluster_spec c) = ok c
answers deleted Call.validate_cluster = ok (record { failures = []; nodes = [] })
answers deleted (Call.list_resources _) = ok []
answers deleted (Call.describe_auto_scaling_groups _) = ok []
answers deleted (Call.lookup_env _) = ok none
answers deleted (Call.read_file _) = err (error "no such file")
answers deleted (Call.read_dir _) = ok []
answers deleted (Call.walk_files _) = ok []
answers deleted (Call.install_terraform _ path) = ok (path <> "/terraform")
answers deleted _ = ok tt

abbrev pub world : Option ℕ → World
world deleted = record {
  answer = λ h c. answers deleted c;
  clock = λ h. 1700000000;
  mark = λ c l. c ∷ l;
  contains_finalizer = λ f l. contains l f;
  add_finalizer = λ f l. f ∷ l;
  remove_finalizer = λ f l. [];
  has_paused = λ m. false;
  merge_kubelet = λ a b. b;
  parse_ip6 = λ s. none;
  show_ip6 = λ b. "";
  is_nonneg_quantity = λ s. true;
  is_percentage = λ s. true;
  is_letter = λ c. false;
  terraform_product = "terraform";
  kubeconfig_yaml = λ c n x. ok "kubeconfig";
  node_pool_yaml = λ p. ok "node pool";
  ec2_node_class_yaml = λ c. ok "node class";
  placeholder_yaml = ok "placeholder";
  sha256_hex = λ s. "00";
}

-- The same, where the cluster is paused.
abbrev pub halted : World
halted = record (world none) { has_paused = λ m. true }

abbrev pub config : RestConfig
config = record {
  host = "https://api.prod";
  ca_data = "ca";
  cert_data = "cert";
  key_data = "private";
}

abbrev pub cidr : IpNet
cidr = record { ip = 100 ∷ 64 ∷ 0 ∷ 0 ∷ []; ones = 10; bits = 32 }

-- The file that kOps generates.
abbrev pub kubernetes_tf : String
kubernetes_tf =
    "aws = {\n source = \"hashicorp/aws\"\n \"version\" = \">= 4.0\"\n}\nspotinst = { version = \"1\" }"

abbrev generated_answers : (c : Call) → Result (Reply c)
generated_answers (Call.read_file _) = ok kubernetes_tf
generated_answers c = answers none c

abbrev pub generated : World
generated = record (world none) { answer = λ h c. generated_answers c }
