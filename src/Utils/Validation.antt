-- ===== src/Utils/Validation.antt =====
-- `EvaluateKopsValidationResult` and `KopsClusterValidation`.
use kubernetes_kops_operator.Prelude.{
  String, ◌<>◌, Bool, true, false, List, [], ◌∷◌, ◌++◌, ◌==◌, is_empty, if◌then◌else◌,
}
use kubernetes_kops_operator.Api.Kops.{ValidationError, ValidationNode, ValidationCluster}
use kubernetes_kops_operator.Io.{Io, pure, emit, ◌>>◌, choose, for_each}
use kubernetes_kops_operator.Outside.Call.{Call}

-- Pods that cannot be scheduled are ignored.
unfoldable pub failure_messages : List ValidationError → List String
failure_messages [] = []
failure_messages (failure ∷ l) =
    let rest = failure_messages l in if failure.kind == "Pod" then rest else failure.message ∷ rest

abbrev pub node_message : ValidationNode → String
node_message node = "node " <> (node.hostname <> (" condition is " <> node.status))

unfoldable pub node_messages : List ValidationNode → List String
node_messages [] = []
node_messages (node ∷ l) =
    let rest = node_messages l in if node.status == "False" then node_message node ∷ rest else rest

unfoldable pub evaluate_kops_validation_result : ValidationCluster → Bool × List String
unfolding failure_messages node_messages
evaluate_kops_validation_result v =
    let messages = failure_messages v.failures ++ node_messages v.nodes in
    (is_empty messages, messages)

unfoldable pub kops_cluster_validation : ValidationCluster → Io Bool
unfolding evaluate_kops_validation_result
kops_cluster_validation v =
    let (result, messages) = evaluate_kops_validation_result v in
    choose result
      (emit (Call.event "KubernetesClusterValidationSucceeded" "kops validation succeeded")
        >> pure true)
      (for_each messages (λ message. emit (Call.event "KubernetesClusterValidationFailed" message))
        >> pure false)
