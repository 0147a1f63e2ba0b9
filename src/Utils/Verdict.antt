-- ===== src/Utils/Verdict.antt =====
-- The verdict of `EvaluateKopsValidationResult` against its meaning.
use kubernetes_kops_operator.Prelude.{
  String, true, List, [], ◌∷◌, ◌++◌, ◌==◌, is_empty, All, ◌≡◌, ◌≢◌, refl, ◌↔◌, inl, inr, eq_iff,
  arith, Bool-cases,
}
use kubernetes_kops_operator.Api.Kops.{ValidationError, ValidationNode, ValidationCluster}
use kubernetes_kops_operator.Utils.Validation.{
  failure_messages, node_messages, evaluate_kops_validation_result,
}

-- A failure that is tolerated is one of a pod; a node that is tolerated is not one with the status "False".
abbrev pub Tolerated : ValidationCluster → Type 0
Tolerated v = All (λ f. f.kind ≡ "Pod") v.failures × All (λ n. n.status ≢ "False") v.nodes

failures_iff :
    (l : List ValidationError)
    → (is_empty (failure_messages l) ≡ true) ↔ All (λ f. f.kind ≡ "Pod") l
unfolding failure_messages
failures_iff [] = (λ e. tt, λ e. refl)
failures_iff (f ∷ l) = elim (Bool-cases (f.kind == "Pod")) [
  | inl e ↦
      rw e (λ p. ((eq_iff f.kind "Pod").0 e, (failures_iff l).0 p), λ p. (failures_iff l).1 p.1)
  | inr e ↦ rw e (λ p. cc, λ p. absurd (ground (arith, eq_iff f.kind "Pod")))
]

nodes_iff :
    (l : List ValidationNode)
    → (is_empty (node_messages l) ≡ true) ↔ All (λ n. n.status ≢ "False") l
unfolding node_messages
nodes_iff [] = (λ e. tt, λ e. refl)
nodes_iff (n ∷ l) = elim (Bool-cases (n.status == "False")) [
  | inl e ↦ rw e (λ p. cc, λ p. absurd (p.0 ((eq_iff n.status "False").0 e)))
  | inr e ↦ rw e (
    λ p. (λ q. ground (arith, eq_iff n.status "False"), (nodes_iff l).0 p),
    λ p. (nodes_iff l).1 p.1,
  )
]

empty-append :
    (xs ys : List String)
    → (is_empty (xs ++ ys) ≡ true) ↔ ((is_empty xs ≡ true) × (is_empty ys ≡ true))
empty-append [] ys = (λ p. (refl, p), λ p. p.1)
empty-append (x ∷ xs) ys = (λ p. absurd (ground arith), λ p. p.0)

-- The validation succeeds exactly if each failure is one of a pod and no node has the status "False".
pub evaluate-Tolerated :
    (v : ValidationCluster) → ((evaluate_kops_validation_result v).0 ≡ true) ↔ Tolerated v
unfolding evaluate_kops_validation_result
evaluate-Tolerated v = (
  λ p.
      let both = (empty-append (failure_messages v.failures) (node_messages v.nodes)).0 p in
      ((failures_iff v.failures).0 both.0, (nodes_iff v.nodes).0 both.1),
  λ p.
      (empty-append (failure_messages v.failures) (node_messages v.nodes)).1
        ((failures_iff v.failures).1 p.0, (nodes_iff v.nodes).1 p.1),
)
