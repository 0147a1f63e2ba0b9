-- ===== src/Controller/Effects.antt =====
-- The effects of the controller's own procedures, for every set that has them.
use kubernetes_kops_operator.Prelude.{String, Bool, true, Option, none, some, List, [], ◌∷◌, ◌≡◌}
use kubernetes_kops_operator.Api.{KopsControlPlane, KopsMachinePool, KarpenterNodePool}
use kubernetes_kops_operator.Api.Meta.{ObjectKey, ObjectMeta, ObjectReference, OwnerReference}
use kubernetes_kops_operator.Api.Kops.{
  KopsCluster, InstanceGroup, Cluster, RestConfig, Credentials, AutoScalingGroup,
}
use kubernetes_kops_operator.Io
use kubernetes_kops_operator.Io.{Error, Io, ◌>>=◌}
use kubernetes_kops_operator.Io.Emits.{
  Emits, Emits-bind, Emits-pure, Emits-ask, Emits-try, Emits-choose, Emits-perform, emits_rules,
}
use kubernetes_kops_operator.Outside.Call.{Call}
use kubernetes_kops_operator.Outside.Effect.{Effect, Effects}
use kubernetes_kops_operator.Utils.Effects.{
  create_ec2_node_class-Emits, delete_owner_resources-Emits, reconcile_kops_secrets-Emits,
}
use kubernetes_kops_operator.Utils.Objects.{delete_owner_resources}
use kubernetes_kops_operator.Controller.State.{
  create_or_update_kops_cluster, create_or_update_instance_group, reconcile_cluster_addons,
  reconcile_secrets,
}
use kubernetes_kops_operator.Controller.Owner.{
  get_owner_by_ref, find_cluster_owner, get_cluster_owner_ref, reconcile_kubeconfig,
}
use kubernetes_kops_operator.Controller.Pools.{
  first_group, delete_pool, apply_pool, reconcile_kops_machine_pool, get_asg_by_name,
  update_provider_ids, has_asg, with_instances, not_ready, kops_machine_pool_finalizer,
}
use kubernetes_kops_operator.Controller.Files.{
  prepare_kops_cloud_resources, write_node_pool, write_karpenter_files, write_overrides,
  prepare_custom_cloud_resources,
}
use kubernetes_kops_operator.Controller.Delete.{release_pools, object_key}
use kubernetes_kops_operator.Controller.Apply.{
  outcome_event, reconcile_pools, populate_cluster_spec,
}
use kubernetes_kops_operator.Terraform.Files.{create_terraform_file}
use kubernetes_kops_operator.Terraform.Provider.{modify_terraform_provider_version}

module _ {C : Effects} (observes : C Effect.observe ≡ true) where
  get_owner_by_ref-Emits : (ref : ObjectReference) → Emits C (get_owner_by_ref ref)
  unfolding get_owner_by_ref
  get_owner_by_ref-Emits ref = search emits_rules

  find_cluster_owner-Emits :
      (meta : ObjectMeta) (refs : List OwnerReference) → Emits C (find_cluster_owner meta refs)
  unfolding find_cluster_owner
  find_cluster_owner-Emits meta [] = search emits_rules
  find_cluster_owner-Emits meta (ref ∷ refs) =
      search (emits_rules, get_owner_by_ref-Emits, find_cluster_owner-Emits meta refs) depth 8

  pub get_cluster_owner_ref-Emits : (meta : ObjectMeta) → Emits C (get_cluster_owner_ref meta)
  unfolding get_cluster_owner_ref
  get_cluster_owner_ref-Emits meta = find_cluster_owner-Emits meta meta.owner_references

  first_group-Emits : (l : List AutoScalingGroup) → Emits C (first_group l)
  first_group-Emits [] = search emits_rules
  first_group-Emits (g ∷ l) = search emits_rules

  get_asg-Emits :
      (kmp : KopsMachinePool) (kcp : KopsControlPlane) (creds : Credentials)
      → Emits C (get_asg_by_name kmp kcp creds)
  unfolding get_asg_by_name
  get_asg-Emits kmp kcp creds = search (emits_rules, first_group-Emits) depth 10

  pub populate-Emits : (cluster : KopsCluster) → Emits C (populate_cluster_spec cluster)
  unfolding populate_cluster_spec
  populate-Emits cluster = search emits_rules depth 8

module _ {C : Effects} (observes : C Effect.observe ≡ true)
    (writes : C Effect.kops_write ≡ true) where
  pub create_or_update_cluster-Emits :
      (cluster : KopsCluster) (key : String) → Emits C (create_or_update_kops_cluster cluster key)
  unfolding create_or_update_kops_cluster
  create_or_update_cluster-Emits cluster key = search emits_rules depth 10

  pub create_or_update_instance_group-Emits :
      (group : InstanceGroup) → Emits C (create_or_update_instance_group group)
  unfolding create_or_update_instance_group
  create_or_update_instance_group-Emits group = search emits_rules depth 10

  pub reconcile_secrets-Emits :
      (secret : Option ObjectKey) (cluster : KopsCluster) (status : List String)
      → Emits C (reconcile_secrets secret cluster status)
  unfolding reconcile_secrets
  reconcile_secrets-Emits secret cluster status =
      search (emits_rules, reconcile_kops_secrets-Emits) depth 10

module _ {C : Effects} (observes : C Effect.observe ≡ true)
    (writes : C Effect.addons_write ≡ true) where
  pub reconcile_cluster_addons-Emits : (addons : String) → Emits C (reconcile_cluster_addons addons)
  unfolding reconcile_cluster_addons
  reconcile_cluster_addons-Emits addons = search emits_rules depth 10

module _ {C : Effects} (observes : C Effect.observe ≡ true)
    (writes : C Effect.kube_secret ≡ true) where
  pub reconcile_kubeconfig-Emits :
      (config : RestConfig) (context : String) (owner : Cluster)
      → Emits C (reconcile_kubeconfig config context owner)
  unfolding reconcile_kubeconfig
  reconcile_kubeconfig-Emits config context owner = search emits_rules depth 14

module _ {C : Effects} (observes : C Effect.observe ≡ true) (writes : C Effect.kops_write ≡ true)
    (reports : C Effect.report ≡ true) (deletes : C Effect.kube_delete ≡ true)
    (waits : C Effect.wait ≡ true) where
  delete_pool-Emits : (kmp : KopsMachinePool) → Emits C (delete_pool kmp)
  unfolding delete_pool
  delete_pool-Emits kmp = search (emits_rules, delete_owner_resources-Emits) depth 10

  apply_pool-Emits : (kmp : KopsMachinePool) → Emits C (apply_pool kmp)
  unfolding apply_pool
  apply_pool-Emits kmp = search (emits_rules, create_or_update_instance_group-Emits) depth 10

  reconcile_pool-Emits : (kmp : KopsMachinePool) → Emits C (reconcile_kops_machine_pool kmp)
  unfolding reconcile_kops_machine_pool
  reconcile_pool-Emits kmp = search (emits_rules, delete_pool-Emits, apply_pool-Emits) depth 10

module _ {C : Effects} (observes : C Effect.observe ≡ true)
    (writes : C Effect.file_write ≡ true) where
  pub create_terraform_file-Emits :
      (template name dir : String) (values : List String)
      → Emits C (create_terraform_file template name dir values)
  unfolding create_terraform_file
  create_terraform_file-Emits template name dir values = search emits_rules depth 10

  pub modify_version-Emits :
      (dir version : String) → Emits C (modify_terraform_provider_version dir version)
  unfolding modify_terraform_provider_version
  modify_version-Emits dir version = search emits_rules depth 12

  pub prepare_kops-Emits :
      (cluster : KopsCluster) (dir : String) → Emits C (prepare_kops_cloud_resources cluster dir)
  unfolding prepare_kops_cloud_resources
  prepare_kops-Emits cluster dir = search emits_rules

  write_node_pool-Emits :
      (cluster : KopsCluster) (dir : String) (kmp : KopsMachinePool) (p : KarpenterNodePool)
      → Emits C (write_node_pool cluster dir kmp p)
  unfolding write_node_pool
  write_node_pool-Emits cluster dir kmp p =
      search (emits_rules, create_ec2_node_class-Emits) depth 20

  write_karpenter-Emits :
      (cluster : KopsCluster) (kmps : List KopsMachinePool) (bucket dir : String)
      → Emits C (write_karpenter_files cluster kmps bucket dir)
  unfolding write_karpenter_files
  write_karpenter-Emits cluster kmps bucket dir =
      search (emits_rules, write_node_pool-Emits, create_terraform_file-Emits) depth 20

  write_overrides-Emits :
      (kmps : List KopsMachinePool) (dir : String) → Emits C (write_overrides kmps dir)
  unfolding write_overrides
  write_overrides-Emits kmps dir = search (emits_rules, create_terraform_file-Emits) depth 10

  pub prepare_custom-Emits :
      (cluster : KopsCluster) (kcp : KopsControlPlane) (kmps : List KopsMachinePool) (enable : Bool)
      (base dir : String) (ignore : Bool)
      → Emits C (prepare_custom_cloud_resources cluster kcp kmps enable base dir ignore)
  unfolding prepare_custom_cloud_resources
  prepare_custom-Emits cluster kcp kmps enable base dir ignore =
      search
        (emits_rules, create_terraform_file-Emits, write_karpenter-Emits, write_overrides-Emits)
        depth 16

module _ {C : Effects} (observes : C Effect.observe ≡ true) (writes : C Effect.kops_write ≡ true)
    (reports : C Effect.report ≡ true) (deletes : C Effect.kube_delete ≡ true)
    (waits : C Effect.wait ≡ true) where
  outcome_event-Emits :
      (name : String) (failed : Option Error) → Emits C (Io.emit (outcome_event name failed))
  outcome_event-Emits name none = search emits_rules
  outcome_event-Emits name (some e) = search emits_rules

  pub reconcile_pools-Emits : (kmps : List KopsMachinePool) → Emits C (reconcile_pools kmps)
  unfolding reconcile_pools
  reconcile_pools-Emits [] = search emits_rules
  reconcile_pools-Emits (kmp ∷ kmps) =
      Emits-bind (reconcile_kops_machine_pool kmp) _
        (reconcile_pool-Emits observes writes reports deletes waits kmp)
        λ x.
          Emits-bind (Io.emit (outcome_event kmp.meta.name x.1)) _
            (outcome_event-Emits kmp.meta.name x.1)
            λ y.
              Emits-bind (reconcile_pools kmps) _ (reconcile_pools-Emits kmps)
                λ l. Emits-pure (x.0 ∷ l)

module _ {C : Effects} (observes : C Effect.observe ≡ true) (deletes : C Effect.kube_delete ≡ true)
    (waits : C Effect.wait ≡ true) where
  pub release_pools-Emits : (kmps : List KopsMachinePool) → Emits C (release_pools kmps)
  unfolding release_pools
  release_pools-Emits [] = search emits_rules
  release_pools-Emits (kmp ∷ kmps) =
      Emits-try (delete_owner_resources kmp.meta) _ _
        (delete_owner_resources-Emits deletes waits kmp.meta)
        (λ x.
          Emits-try (Io.perform (Call.get_kmp (object_key kmp.meta))) _ _
            (Emits-perform (Call.get_kmp (object_key kmp.meta)) observes)
            (λ fresh.
              Emits-bind
                (Io.ask (λ w. w.remove_finalizer kops_machine_pool_finalizer fresh.meta.finalizers))
                _ (Emits-ask _)
                λ finalizers.
                  Emits-bind (release_pools kmps) _ (release_pools-Emits kmps) λ l. Emits-pure _)
            (λ e. Emits-pure _))
        (λ e. Emits-pure _)

module _ {C : Effects} (observes : C Effect.observe ≡ true) where
  pub update_provider_ids-Emits :
      (kcp : KopsControlPlane) (creds : Credentials) (kmps : List KopsMachinePool)
      → Emits C (update_provider_ids kcp creds kmps)
  unfolding update_provider_ids
  update_provider_ids-Emits kcp creds [] = search emits_rules
  update_provider_ids-Emits kcp creds (kmp ∷ kmps) =
      let onward : (k : KopsMachinePool)
          → Emits C (update_provider_ids kcp creds kmps >>= λ (l, e). Io.pure (k ∷ l, e)) =
        λ k.
          Emits-bind (update_provider_ids kcp creds kmps) _
            (update_provider_ids-Emits kcp creds kmps) λ l. Emits-pure (k ∷ l.0, l.1) in
      Emits-choose (has_asg kmp) _ _
        (λ b.
          Emits-try (get_asg_by_name kmp kcp creds) _ _ (get_asg-Emits observes kmp kcp creds)
            (λ asg. onward (with_instances kmp asg))
            (λ e. Emits-pure (not_ready kmp ∷ kmps, some e)))
        (λ b. onward kmp)
