-- ===== src/Tests/Parts.antt =====
-- The theorems about terraform, the kOps utilities, node classes and ranges at concrete inputs.
use kubernetes_kops_operator.Prelude.{true, none, some, [], ◌∷◌, ◌≡◌, refl, ◌≤◌, ◌+◌, ◌↔◌}
use kubernetes_kops_operator.Io.{act}
use kubernetes_kops_operator.Io.Count.{waited, count}
use kubernetes_kops_operator.Io.Sure.{OnOk}
use kubernetes_kops_operator.Outside.Call.{Call}
use kubernetes_kops_operator.Prelude.Dict.{lookup}
use kubernetes_kops_operator.Terraform.Retry.{retry}
use kubernetes_kops_operator.Terraform.Run.{apply_terraform, destroy_terraform}
use kubernetes_kops_operator.Terraform.Outcome.{
  Ran, is_apply, is_destroy, apply_terraform-Ran, destroy_terraform-Ran,
}
use kubernetes_kops_operator.Terraform.Provider.Versioned.{Versioned}
use kubernetes_kops_operator.Terraform.Waits.{retry-waited-le}
use kubernetes_kops_operator.Utils.Secrets.{reconcile_kops_secrets}
use kubernetes_kops_operator.Utils.Lenient.{NoError, reconcile_kops_secrets-lenient}
use kubernetes_kops_operator.Utils.Validation.{evaluate_kops_validation_result}
use kubernetes_kops_operator.Utils.Verdict.{Tolerated, evaluate-Tolerated}
use kubernetes_kops_operator.Karpenter.{essential_tags, merge_cloud_labels}
use kubernetes_kops_operator.Karpenter.Labels.{or_else, last_of, merge_cloud_labels-precedence}
use kubernetes_kops_operator.Karpenter.Kubelet.{parse_eviction_thresholds}
use kubernetes_kops_operator.Karpenter.Signals.{OkKnown, parse_eviction_thresholds-Known}
use kubernetes_kops_operator.Prelude.{All}
use kubernetes_kops_operator.Io.Adds.{Adds}
use kubernetes_kops_operator.Terraform.Files.{cleanup_terraform_directory}
use kubernetes_kops_operator.Terraform.Removes.{Removes, cleanup-Removes}
use kubernetes_kops_operator.Utils.Cluster.{kops_delete_resources}
use kubernetes_kops_operator.Utils.Secrets.{
  reconcile_kops_secrets_delete, reconcile_kops_secrets_normal,
}
use kubernetes_kops_operator.Utils.Stored.{
  OrError, Cleared, Stored, secrets_delete-Cleared, secrets_normal-Stored,
}
use kubernetes_kops_operator.Utils.Unshared.{Deletes, kops_delete-Deletes}
use kubernetes_kops_operator.Tests.Data.{world, key, kops_cluster, creds}

apply-Ran_example :
    Ran
      (world none)
      "apply"
      Call.tf_apply
      is_apply
      []
      (apply_terraform "/tmp/prod" "/opt/tf/terraform" creds (world none) [])
    × (count is_apply (apply_terraform "/tmp/prod" "/opt/tf/terraform" creds (world none) []).1
        ≤ count is_apply [] + 5)
apply-Ran_example = apply_terraform-Ran "/tmp/prod" "/opt/tf/terraform" creds (world none) []

destroy-Ran_example :
    Ran
      (world none)
      "destroy"
      Call.tf_destroy
      is_destroy
      []
      (destroy_terraform "/tmp/prod" "/opt/tf/terraform" creds (world none) [])
    × (count is_destroy (destroy_terraform "/tmp/prod" "/opt/tf/terraform" creds (world none) []).1
        ≤ count is_destroy [] + 5)
destroy-Ran_example = destroy_terraform-Ran "/tmp/prod" "/opt/tf/terraform" creds (world none) []

waited_example : waited (retry "apply" (act Call.tf_apply) (world none) []).1 ≤ waited [] + 15000
waited_example = retry-waited-le "apply" Call.tf_apply refl (world none) []

lenient_example : OnOk NoError (reconcile_kops_secrets key [] (world none) [])
lenient_example =
    reconcile_kops_secrets-lenient key [] (world none) []
      (("AccessKeyID", "id") ∷ ("SecretAccessKey", "key") ∷ []) refl

Tolerated_example :
    ((evaluate_kops_validation_result (record {
      failures = record { kind = "Pod"; message = "pending" } ∷ [];
      nodes = record { hostname = "n1"; status = "True" } ∷ [];
    })).0
      ≡ true)
    ↔ Tolerated (record {
      failures = record { kind = "Pod"; message = "pending" } ∷ [];
      nodes = record { hostname = "n1"; status = "True" } ∷ [];
    })
Tolerated_example = evaluate-Tolerated (record {
  failures = record { kind = "Pod"; message = "pending" } ∷ [];
  nodes = record { hostname = "n1"; status = "True" } ∷ [];
})

precedence_example :
    lookup "Name" (merge_cloud_labels "prod" "nodes" (("team", "a") ∷ []) (("Name", "mine") ∷ []))
    ≡ or_else
        (last_of "Name" (essential_tags "prod" "nodes"))
        (or_else (last_of "Name" (("Name", "mine") ∷ [])) (last_of "Name" (("team", "a") ∷ [])))
precedence_example =
    merge_cloud_labels-precedence "prod" "nodes" (("team", "a") ∷ []) (("Name", "mine") ∷ []) "Name"

Known_example :
    OkKnown (parse_eviction_thresholds (world none) (some "memory.available<100Mi,unknown<5%"))
Known_example =
    parse_eviction_thresholds-Known (world none) (some "memory.available<100Mi,unknown<5%")

Cleared_example :
    OnOk
      (OrError (λ k. All (Cleared (world none) [] [] k) ("dockerconfig" ∷ [])))
      (reconcile_kops_secrets_delete [] ("dockerconfig" ∷ []) (world none) [])
Cleared_example = secrets_delete-Cleared [] ("dockerconfig" ∷ []) (world none) []

Stored_example :
    OnOk
      (OrError (λ k. All (Stored (world none) [] k) (("dockerconfig", "{}") ∷ [])))
      (reconcile_kops_secrets_normal (("dockerconfig", "{}") ∷ []) [] (world none) [])
Stored_example = secrets_normal-Stored (("dockerconfig", "{}") ∷ []) [] (world none) []

Removes_example :
    Adds (Removes "/tmp/prod") [] (cleanup_terraform_directory "/tmp/prod" (world none) []).1
Removes_example = cleanup-Removes "/tmp/prod" (world none) []

Deletes_example :
    Adds (Deletes kops_cluster) [] (kops_delete_resources kops_cluster (world none) []).1
Deletes_example = kops_delete-Deletes kops_cluster (world none) []
