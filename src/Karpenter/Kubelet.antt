-- ===== src/Karpenter/Kubelet.antt =====
-- The kubelet settings of a node class: eviction thresholds and the merge of cluster and pool.
use kubernetes_kops_operator.Prelude.{
  String, ◌<>◌, Bool, true, false, not, ◌||◌, Option, none, some, List, [], ◌∷◌, ◌==◌, contains,
  if◌then◌else◌,
}
use kubernetes_kops_operator.Prelude.Dict.{Dict, insert}
use kubernetes_kops_operator.Prelude.Text.{
  quoted, split, cut, trim_space, drop_last, ends_with_percent,
}
use kubernetes_kops_operator.Api.Kops.{KubeletConfigSpec}
use kubernetes_kops_operator.Api.Karpenter.{KubeletConfiguration}
use kubernetes_kops_operator.Io.{Result, ok, err, World, Io, pure, lift, ask, ◌>>=◌, error}

abbrev pub karpenter_eviction_signals : List String
karpenter_eviction_signals =
    "memory.available" ∷ "nodefs.available" ∷ "nodefs.inodesFree" ∷ "imagefs.available"
    ∷ "imagefs.inodesFree" ∷ "pid.available" ∷ []

-- `strings.CutSuffix(value, "%")`, then a number from 0 to 100 or a quantity.
unfoldable pub is_valid_eviction_threshold_value : World → String → Bool
unfolding ends_with_percent drop_last
is_valid_eviction_threshold_value w value =
    if ends_with_percent value
    then elim (drop_last value) [ none ↦ false | some percentage ↦ w.is_percentage percentage ]
    else w.is_nonneg_quantity value

-- One threshold: its signal and value, or `none` where it is invalid.
unfoldable pub parse_threshold : World → String → Option (String × String)
unfolding cut trim_space is_valid_eviction_threshold_value
parse_threshold w threshold =
    let (signal, rest) = cut b'<' (trim_space threshold) in
    elim rest [
      | none ↦ none
      | some value ↦
          if trim_space signal == "" || not (is_valid_eviction_threshold_value w (trim_space value))
          then none
          else some (trim_space signal, trim_space value)
    ]

abbrev pub keep_known : String → String → Dict String → Dict String
keep_known signal value parsed =
    if contains karpenter_eviction_signals signal then insert signal value parsed else parsed

unfoldable pub threshold_loop : World → List String → Dict String → Result (Dict String)
unfolding parse_threshold
threshold_loop w [] parsed = ok parsed
threshold_loop w (threshold ∷ l) parsed = elim (parse_threshold w threshold) [
  | none ↦ err (error ("invalid eviction threshold " <> quoted threshold))
  | some (signal, value) ↦ threshold_loop w l (keep_known signal value parsed)
]

-- A nil map and an empty one are alike to the caller.
unfoldable pub parse_eviction_thresholds : World → Option String → Result (Dict String)
unfolding threshold_loop split trim_space
parse_eviction_thresholds w none = ok []
parse_eviction_thresholds w (some thresholds) =
    if trim_space thresholds == "" then ok [] else threshold_loop w (split b',' thresholds) []

abbrev empty_kubelet : KubeletConfigSpec
empty_kubelet = record {
  max_pods = none;
  system_reserved = [];
  kube_reserved = [];
  eviction_hard = none;
}

abbrev pub merged_kubelet :
    World → Option KubeletConfigSpec → Option KubeletConfigSpec → KubeletConfigSpec
merged_kubelet w none none = empty_kubelet
merged_kubelet w (some c) none = c
merged_kubelet w none (some g) = w.merge_kubelet empty_kubelet g
merged_kubelet w (some c) (some g) = w.merge_kubelet c g

abbrev nonempty : Dict String → Option (Dict String)
nonempty [] = none
nonempty (e ∷ d) = some (e ∷ d)

abbrev is_set : {A : Type 0} → Option A → Bool
is_set none = false
is_set (some a) = true

-- Nil where no key is set.
abbrev pub configuration : KubeletConfigSpec → Dict String → Option KubeletConfiguration
configuration spec eviction =
    let system = nonempty spec.system_reserved in
    let kube = nonempty spec.kube_reserved in
    let hard = nonempty eviction in
    if is_set spec.max_pods || is_set system || is_set kube || is_set hard
    then some (record {
      max_pods = spec.max_pods;
      system_reserved = system;
      kube_reserved = kube;
      eviction_hard = hard;
    })
    else none

unfoldable pub get_kubelet_configuration :
    Option KubeletConfigSpec → Option KubeletConfigSpec → Io (Option KubeletConfiguration)
unfolding parse_eviction_thresholds
get_kubelet_configuration cluster group = do
  spec ← ask (λ w. merged_kubelet w cluster group)
  parsed ← ask (λ w. parse_eviction_thresholds w spec.eviction_hard)
  eviction ← lift parsed
  pure (configuration spec eviction)
