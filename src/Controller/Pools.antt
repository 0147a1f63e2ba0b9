-- ===== src/Controller/Pools.antt =====
-- Machine pools: `reconcileKopsMachinePool`, `GetASGByName` and the provider IDs. Where the Go code
-- writes to a pool and returns an error, the pool comes back beside the error.
use kubernetes_kops_operator.Prelude.{
  ◌%◌, ◌^◌, String, ◌<>◌, Bool, true, false, not, ◌&&◌, Option, none, some, List, [], ◌∷◌, ◌==◌,
  map, length, is_empty, if◌then◌else◌,
}
use kubernetes_kops_operator.Prelude.Dict.{insert}
use kubernetes_kops_operator.Api.{KopsControlPlane, KopsMachinePool}
use kubernetes_kops_operator.Api.Meta.{Condition, is_zero}
use kubernetes_kops_operator.Api.Kops.{
  Subnet, InstanceGroup, Instance, AutoScalingGroup, Credentials,
}
use kubernetes_kops_operator.Io.{
  Error, Result, err, Io, pure, fail, lift, ask, perform, act, emit, ◌>>=◌, ◌>>◌, try, choose,
  error, wrapping, opaque_wrap,
}
use kubernetes_kops_operator.Outside.Call.{Call}
use kubernetes_kops_operator.Kops.{zone_region, get_cloud_resource_name}
use kubernetes_kops_operator.Utils.Objects.{delete_owner_resources}
use kubernetes_kops_operator.Controller.State.{create_or_update_instance_group}

abbrev pub kops_machine_pool_finalizer : String
kops_machine_pool_finalizer = "kopsmachinepool.infrastructure.cluster.x-k8s.io"

abbrev pub instance_group_label : String
instance_group_label = "kops.k8s.io/instance-group-name"

-- The node label, and no sizes for a pool that Karpenter manages.
unfoldable pub prepare_pool : KopsMachinePool → KopsMachinePool
prepare_pool kmp =
    let group = kmp.spec.kops_instance_group_spec in
    let by_karpenter = group.manager == "Karpenter" in
    record kmp {
      spec = record kmp.spec {
        kops_instance_group_spec = record group {
          node_labels = insert instance_group_label kmp.meta.name group.node_labels;
          min_size = if by_karpenter then none else group.min_size;
          max_size = if by_karpenter then none else group.max_size;
        };
      };
    }

abbrev pub instance_group : KopsMachinePool → InstanceGroup
instance_group kmp = record {
  name = kmp.meta.name;
  namespace = kmp.meta.namespace;
  labels = kmp.spec.spot_inst_options;
  spec = kmp.spec.kops_instance_group_spec;
}

abbrev pub with_finalizers : KopsMachinePool → List String → KopsMachinePool
with_finalizers kmp finalizers = record kmp { meta = record kmp.meta { finalizers = finalizers } }

abbrev pub with_condition : KopsMachinePool → List Condition → KopsMachinePool
with_condition kmp conditions = record kmp {
  status = record kmp.status { conditions = conditions };
}

abbrev pub state_ready : Condition
state_ready = record {
  kind = "KopsMachinePoolStateReady";
  is_true = true;
  reason = "";
  severity = "";
  message = "";
}

abbrev pub state_failed : Error → Condition
state_failed e = record {
  kind = "KopsMachinePoolStateReady";
  is_true = false;
  reason = "KopsMachinePoolStateReconciliationFailed";
  severity = "Error";
  message = "failed to create/upgrade instance group: " <> e.message;
}

-- A pool that is being deleted: its instance group goes, then its owners, then its finalizer.
unfoldable pub delete_pool : KopsMachinePool → Io (KopsMachinePool × Option Error)
delete_pool kmp =
    try (act (Call.delete_instance_group kmp.meta.name) >> delete_owner_resources kmp.meta)
      (λ _. do
        emit (Call.event "KopsMachinePoolDeleted" kmp.meta.name)
        finalizers ← ask (λ w. w.remove_finalizer kops_machine_pool_finalizer kmp.meta.finalizers)
        pure (with_finalizers kmp finalizers, none))
      (λ e. pure (kmp, some e))

unfoldable pub add_pool_finalizer : KopsMachinePool → Io KopsMachinePool
add_pool_finalizer kmp = do
  present ← ask (λ w. w.contains_finalizer kops_machine_pool_finalizer kmp.meta.finalizers)
  choose present (pure kmp) do
    finalizers ← ask (λ w. w.add_finalizer kops_machine_pool_finalizer kmp.meta.finalizers)
    pure (with_finalizers kmp finalizers)

unfoldable pub apply_pool : KopsMachinePool → Io (KopsMachinePool × Option Error)
unfolding add_pool_finalizer
apply_pool kmp = do
  pool ← add_pool_finalizer kmp
  try (create_or_update_instance_group (instance_group kmp))
      (λ _. do
        conditions ← ask (λ w. w.mark state_ready pool.status.conditions)
        pure (with_condition pool conditions, none))
      (λ e. do
        conditions ← ask (λ w. w.mark (state_failed e) pool.status.conditions)
        pure (with_condition pool conditions, some e))

unfoldable pub reconcile_kops_machine_pool : KopsMachinePool → Io (KopsMachinePool × Option Error)
unfolding prepare_pool delete_pool apply_pool
reconcile_kops_machine_pool kmp =
    let pool = prepare_pool kmp in
    choose (is_zero kmp.meta.deletion_timestamp) (apply_pool pool) (delete_pool pool)

-- `subnets[0]` of a slice that is not empty.
abbrev pub first_zone : Option (List Subnet) → Result String
first_zone none = err (error "kopsControlPlane with no subnets")
first_zone (some []) = err (error "kopsControlPlane with no subnets")
first_zone (some (s ∷ _)) = zone_region s.zone

unfoldable pub region_by_subnet : KopsControlPlane → Result String
region_by_subnet kcp = first_zone kcp.spec.kops_cluster_spec.subnets

abbrev pub first_group : List AutoScalingGroup → Io AutoScalingGroup
first_group [] = fail (record { message = "ASG not ready"; not_found = true })
first_group (g ∷ _) = pure g

-- An error of AWS is formatted anew, so it is never one of `IsNotFound`; what `Errorf` adds to its text for
-- the spare argument is left out.
unfoldable pub get_asg_by_name :
    KopsMachinePool → KopsControlPlane → Credentials → Io AutoScalingGroup
unfolding region_by_subnet
get_asg_by_name kmp kcp creds = do
  region ← lift (region_by_subnet kcp)
  act (Call.load_aws_config region creds)
  name ← lift (get_cloud_resource_name kmp)
  groups ← wrapping (opaque_wrap "") (perform (Call.describe_auto_scaling_groups name))
  first_group groups

abbrev pub provider_id : Instance → String
provider_id i = "aws:///" <> (i.availability_zone <> ("/" <> i.instance_id))

abbrev pub with_instances : KopsMachinePool → AutoScalingGroup → KopsMachinePool
with_instances kmp asg =
    let ids = map provider_id asg.instances in
    record kmp {
      spec = record kmp.spec { provider_id_list = ids };
      status = record kmp.status { ready = true; replicas = length ids % 2 ^ 32 };
    }

abbrev pub not_ready : KopsMachinePool → KopsMachinePool
not_ready kmp = record kmp { status = record kmp.status { ready = false } }

-- Pools of Spot or of Karpenter have no autoscaling group.
abbrev pub has_asg : KopsMachinePool → Bool
has_asg kmp =
    is_empty kmp.spec.spot_inst_options
    && not (kmp.spec.kops_instance_group_spec.manager == "Karpenter")

unfoldable pub update_provider_ids :
    KopsControlPlane → Credentials → List KopsMachinePool → Io (List KopsMachinePool × Option Error)
update_provider_ids kcp creds [] = pure ([], none)
update_provider_ids kcp creds (kmp ∷ kmps) =
    let rest = update_provider_ids kcp creds kmps in
    let onward = λ (k : KopsMachinePool). rest >>= λ (l, e). pure (k ∷ l, e) in
    choose (has_asg kmp)
      (try (get_asg_by_name kmp kcp creds) (λ asg. onward (with_instances kmp asg))
        (λ e. pure (not_ready kmp ∷ kmps, some e)))
      (onward kmp)
