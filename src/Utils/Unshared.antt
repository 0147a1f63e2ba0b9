-- ===== src/Utils/Unshared.antt =====
-- What the deletion of a cluster's resources takes away.
use kubernetes_kops_operator.Prelude.{false, [], ◌∷◌, ◌≡◌, refl, All, Bool-cases, inl, inr}
use kubernetes_kops_operator.Prelude.Dict.{Dict}
use kubernetes_kops_operator.Api.Kops.{KopsCluster, CloudResource}
use kubernetes_kops_operator.Io.{World, History}
use kubernetes_kops_operator.Io.Adds.{Adds, Only, only_rules}
use kubernetes_kops_operator.Outside.Call.{Call}
use kubernetes_kops_operator.Utils.Cluster.{unshared, kops_delete_resources}

abbrev pub NotShared : Dict CloudResource → Type 0
NotShared d = All (λ e. e.1.shared ≡ false) d

unshared-NotShared : (d : Dict CloudResource) → NotShared (unshared d)
unfolding unshared
unshared-NotShared [] = tt
unshared-NotShared ((k, x) ∷ d) = elim (Bool-cases x.shared) [
  | inl e ↦ rw e (unshared-NotShared d)
  | inr e ↦ rw e (refl, unshared-NotShared d)
]

-- The calls that the deletion of a cluster may make.
abbrev pub Deletes : KopsCluster → Call → Type 0
Deletes cluster (Call.list_resources name) = name ≡ cluster.name
Deletes cluster (Call.delete_resources d) = NotShared d
Deletes cluster (Call.delete_kops_cluster name) = name ≡ cluster.name
Deletes cluster _ = ⊥

delete-Only : (cluster : KopsCluster) → Only (Deletes cluster) (kops_delete_resources cluster)
unfolding kops_delete_resources
delete-Only cluster = search (only_rules, unshared-NotShared) depth 12

-- `KopsDeleteResources` lists the resources of the cluster, deletes none that is shared with others, and
-- deletes no other cluster from the state store, whatever the outside answers.
pub kops_delete-Deletes :
    (cluster : KopsCluster) (w : World) (h : History)
    → Adds (Deletes cluster) h (kops_delete_resources cluster w h).1
kops_delete-Deletes cluster = (delete-Only cluster).at
