-- ===== src/Karpenter/Signals.antt =====
-- The eviction thresholds that a node class can get.
use kubernetes_kops_operator.Prelude.{
  String, true, Option, none, some, List, [], ◌∷◌, ◌==◌, contains, All, ◌≡◌, Bool-cases,
  Option-cases, inl, inr,
}
use kubernetes_kops_operator.Prelude.Dict.{Dict, insert, keys}
use kubernetes_kops_operator.Prelude.Text.{split, trim_space}
use kubernetes_kops_operator.Io.{Result, ok, err, panic, World}
use kubernetes_kops_operator.Karpenter.Kubelet.{
  karpenter_eviction_signals, parse_threshold, keep_known, threshold_loop,
  parse_eviction_thresholds,
}

-- Each key is a signal that Karpenter knows.
abbrev pub Known : Dict String → Type 0
Known d = All (λ k. contains karpenter_eviction_signals k ≡ true) (keys d)

insert-Known :
    (k v : String) (d : Dict String)
    → contains karpenter_eviction_signals k ≡ true
    → Known d
    → Known (insert k v d)
insert-Known k v [] e p = (e, tt)
insert-Known k v ((j, w) ∷ d) e (q, p) = elim (Bool-cases (j == k)) [
  | inl b ↦ rw b (e, p)
  | inr b ↦ rw b (q, insert-Known k v d e p)
]

keep_known-Known : (k v : String) (d : Dict String) → Known d → Known (keep_known k v d)
keep_known-Known k v d p = elim (Bool-cases (contains karpenter_eviction_signals k)) [
  | inl b ↦ rw b (insert-Known k v d b p)
  | inr b ↦ rw b p
]

abbrev pub OkKnown : Result (Dict String) → Type 0
OkKnown (ok d) = Known d
OkKnown (err e) = Unit
OkKnown panic = Unit

threshold_loop-Known :
    (w : World) (l : List String) (d : Dict String) → Known d → OkKnown (threshold_loop w l d)
unfolding threshold_loop
threshold_loop-Known w [] d p = p
threshold_loop-Known w (t ∷ l) d p = elim (Option-cases (parse_threshold w t)) [
  | inl e ↦ rw (e, OkKnown) tt
  | inr (x, e) ↦ rw (e, OkKnown) (threshold_loop-Known w l _ (keep_known-Known x.0 x.1 d p))
]

-- Whatever text the eviction thresholds have, what is parsed of it names signals that Karpenter knows and no
-- other.
pub parse_eviction_thresholds-Known :
    (w : World) (thresholds : Option String) → OkKnown (parse_eviction_thresholds w thresholds)
unfolding parse_eviction_thresholds
parse_eviction_thresholds-Known w none = tt
parse_eviction_thresholds-Known w (some t) = elim (Bool-cases (trim_space t == "")) [
  | inl e ↦ rw e tt
  | inr e ↦ rw e (threshold_loop-Known w (split b',' t) [] tt)
]
