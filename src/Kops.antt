-- ===== src/Kops.antt =====
-- pkg/kops/kops.go: subnets and regions, the listing of machine pools, cloud names, service ranges.
pub mod Cidr
pub mod Masks
pub mod Octets
pub mod Dotted
pub mod Roundtrip
pub mod Sorted
pub mod Within
use mathlib.Core.Option
use Prim.Native.Nat.{Ordering}
use Prim.Native.String.{compare}
use kubernetes_kops_operator.Prelude.{
  String, ◌<>◌, Bool, true, false, Option, none, some, List, [], ◌∷◌, ◌==◌, if◌then◌else◌,
}
use kubernetes_kops_operator.Prelude.Dict.{lookup, has_key}
use kubernetes_kops_operator.Prelude.Text.{drop_last}
use kubernetes_kops_operator.Api.{KopsControlPlane, KopsMachinePool}
use kubernetes_kops_operator.Api.Kops.{Subnet}
use kubernetes_kops_operator.Io.{
  Error, Result, ok, err, panic, Io, pure, fail, lift, perform, ◌>>=◌, ◌>>◌, choose, error, wrap,
  wrapping,
}
use kubernetes_kops_operator.Outside.Call.{Call}

-- `subnets[0]` of a slice that is empty and not nil panics.
abbrev first_subnet : Option (List Subnet) → Result Subnet
first_subnet none = err (error "subnet not found in KopsControlPlane: SubnetNotFound")
first_subnet (some []) = panic
first_subnet (some (s ∷ _)) = ok s

unfoldable pub get_subnet_from_kops_control_plane : KopsControlPlane → Result Subnet
get_subnet_from_kops_control_plane kcp = first_subnet kcp.spec.kops_cluster_spec.subnets

-- `zone[:len(zone)-1]`
abbrev pub zone_region : String → Result String
zone_region zone = elim (drop_last zone) [ none ↦ panic | some region ↦ ok region ]

unfoldable pub get_region_from_kops_subnet : Subnet → Result String
get_region_from_kops_subnet subnet =
    if subnet.region == ""
    then if subnet.zone == ""
      then err (error "couldn't get region from KopsControlPlane: RegionNotFound")
      else zone_region subnet.zone
    else ok subnet.region

-- The order of `slices.SortFunc`: by namespace, then by name.
abbrev pub precedes : KopsMachinePool → KopsMachinePool → Bool
precedes a b = elim (compare a.meta.namespace b.meta.namespace) [
  | Ordering.lt ↦ true
  | Ordering.gt ↦ false
  | Ordering.eq ↦ elim (compare a.meta.name b.meta.name) [ Ordering.gt ↦ false | _ ↦ true ]
]

unfoldable pub insert_pool : KopsMachinePool → List KopsMachinePool → List KopsMachinePool
insert_pool a [] = a ∷ []
insert_pool a (b ∷ l) = if precedes a b then a ∷ b ∷ l else b ∷ insert_pool a l

unfoldable pub sort_pools : List KopsMachinePool → List KopsMachinePool
unfolding insert_pool
sort_pools [] = []
sort_pools (a ∷ l) = insert_pool a (sort_pools l)

unfoldable pub get_kops_machine_pools_with_label : String → String → Io (List KopsMachinePool)
unfolding sort_pools
get_kops_machine_pools_with_label key value =
    choose (key == "") (fail (error "label key is empty")) (
      choose (value == "") (fail (error "label value is empty")) do
        kmps ←
            wrapping (wrap "error while trying to retrieve KopsMachinePool list")
              (perform (Call.list_kmps key value))
        pure (sort_pools kmps))

abbrev pub role_label : String
role_label = "kops.k8s.io/instance-group-role"

unfoldable pub get_cloud_resource_name : KopsMachinePool → Result String
get_cloud_resource_name kmp =
    elim (lookup role_label kmp.spec.kops_instance_group_spec.node_labels) [
      | none ↦ err (error ("failed to retrieve role from KopsMachinePool " <> kmp.meta.name))
      | some role ↦
          if kmp.spec.cluster_name == ""
          then err (error ("failed to retrieve clusterName from KopsMachinePool " <> kmp.meta.name))
          else if role == "Master"
          then ok (kmp.meta.name <> (".masters." <> kmp.spec.cluster_name))
          else ok (kmp.meta.name <> ("." <> kmp.spec.cluster_name))
    ]
