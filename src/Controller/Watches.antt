-- ===== src/Controller/Watches.antt =====
-- The watches of `SetupWithManager`: which control plane a machine pool wakes, and which are watched.
use kubernetes_kops_operator.Prelude.{
  String, Bool, true, not, ◌&&◌, ◌==◌, List, [], ◌∷◌, if◌then◌else◌, ◌≡◌, ◌⊎◌,
}
use kubernetes_kops_operator.Api.{KopsControlPlane, KopsMachinePool}
use kubernetes_kops_operator.Api.Meta.{ObjectKey, ObjectReference}
use kubernetes_kops_operator.Io.{Io, pure, perform, try, choose, maybe}
use kubernetes_kops_operator.Io.Steady.{Steady}
use kubernetes_kops_operator.Outside.Call.{Call}
use kubernetes_kops_operator.Utils.Objects.{get_cluster_by_name}
use kubernetes_kops_operator.Controller.Delete.{object_key}

unfoldable pub controller_class_predicate : String → KopsControlPlane → Bool
controller_class_predicate class kcp = kcp.spec.controller_class == class

-- The group, version and kind of a reference against those of `KopsControlPlane`.
abbrev pub is_control_plane : ObjectReference → Bool
is_control_plane ref =
    ref.api_version == "controlplane.cluster.x-k8s.io/v1alpha1" && ref.kind == "KopsControlPlane"

abbrev pub request : String → KopsControlPlane → List ObjectKey
request class kcp = if kcp.spec.controller_class == class then object_key kcp.meta ∷ [] else []

abbrev pub reference_key : ObjectReference → ObjectKey
reference_key ref = record { namespace = ref.namespace; name = ref.name }

-- The requests for one pool. Every error leads to no request.
unfoldable pub kops_machine_pool_map : String → KopsMachinePool → Io (List ObjectKey)
kops_machine_pool_map class kmp =
    try (get_cluster_by_name kmp.meta.namespace kmp.spec.cluster_name)
      (λ cluster. maybe cluster.infrastructure_ref (pure []) (λ ref.
        choose (not (is_control_plane ref)) (pure []) (
          try (perform (Call.get_kcp (reference_key ref))) (λ kcp. pure (request class kcp))
            (λ e. pure []))))
      (λ e. pure [])

-- No request, or the one of a control plane that the predicate lets through.
abbrev pub Wakes : String → List ObjectKey → Type 0
Wakes class l =
    (l ≡ [])
    ⊎ ((kcp : KopsControlPlane) × (controller_class_predicate class kcp ≡ true)
        × (l ≡ object_key kcp.meta ∷ []))
