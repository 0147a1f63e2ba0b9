-- ===== src/Controller/Restores.antt =====
-- What is written back, and what is removed.
use kubernetes_kops_operator.Prelude.{◌≡◌}
use kubernetes_kops_operator.Api.{
  KopsControlPlane, KopsControlPlaneStatus, KopsMachinePool, KopsMachinePoolStatus,
}
use kubernetes_kops_operator.Io.{World, History}
use kubernetes_kops_operator.Io.Adds.{Adds, Only, only_rules}
use kubernetes_kops_operator.Outside.Call.{Call}
use kubernetes_kops_operator.Controller.Deferred.{write_kmp, write_kcp}

-- A status that is written is this one.
abbrev pub WritesKcpStatus : KopsControlPlaneStatus → Call → Type 0
WritesKcpStatus s (Call.update_kcp_status k) = k.status ≡ s
WritesKcpStatus s _ = Unit

abbrev pub WritesKmpStatus : KopsMachinePoolStatus → Call → Type 0
WritesKmpStatus s (Call.update_kmp_status k) = k.status ≡ s
WritesKmpStatus s _ = Unit

write_kcp-Only : (kcp : KopsControlPlane) → Only (WritesKcpStatus kcp.status) (write_kcp kcp)
unfolding write_kcp
write_kcp-Only kcp = search only_rules depth 12

write_kmp-Only :
    (kcp : KopsControlPlane) (kmp : KopsMachinePool)
    → Only (WritesKmpStatus kmp.status) (write_kmp kcp kmp)
unfolding write_kmp
write_kmp-Only kcp kmp = search only_rules depth 12

-- The status survives the write of the object, whose answer replaces it: whatever the server answers, each
-- status of a control plane that `write_kcp` writes is the one that the reconciliation left, and likewise
-- each status of a machine pool that `write_kmp` writes.
pub write-Restores :
    (kcp : KopsControlPlane) (kmp : KopsMachinePool) (w : World) (h : History)
    → Adds (WritesKcpStatus kcp.status) h (write_kcp kcp w h).1
      × Adds (WritesKmpStatus kmp.status) h (write_kmp kcp kmp w h).1
write-Restores kcp kmp w h = ((write_kcp-Only kcp).at w h, (write_kmp-Only kcp kmp).at w h)
