-- ===== src/Controller/Writing.antt =====
-- Which effects the deferred function can have.
use kubernetes_kops_operator.Prelude.{String, true, Option, none, some, ◌≡◌}
use kubernetes_kops_operator.Api.{KopsControlPlane, KopsMachinePool}
use kubernetes_kops_operator.Api.Kops.{Cluster}
use kubernetes_kops_operator.Io.{Error}
use kubernetes_kops_operator.Io.Emits.{Emits, emits_rules}
use kubernetes_kops_operator.Outside.Effect.{Effect, Effects}
use kubernetes_kops_operator.Controller.Deferred.{set_gauge, write_kmp, write_kcp, write_back}
use kubernetes_kops_operator.Controller.Body.{Vars}
use kubernetes_kops_operator.Terraform.Files.{cleanup_terraform_directory}

module _ {C : Effects} (observes : C Effect.observe ≡ true) (writes : C Effect.kube_write ≡ true)
    (statuses : C Effect.kube_status ≡ true) (files : C Effect.file_write ≡ true)
    (reports : C Effect.report ≡ true) where
  write_kmp-Emits : (kcp : KopsControlPlane) (kmp : KopsMachinePool) → Emits C (write_kmp kcp kmp)
  unfolding write_kmp
  write_kmp-Emits kcp kmp = search emits_rules depth 10

  write_kcp-Emits : (kcp : KopsControlPlane) → Emits C (write_kcp kcp)
  unfolding write_kcp
  write_kcp-Emits kcp = search emits_rules depth 10

  cleanup-Emits : (dir : String) → Emits C (cleanup_terraform_directory dir)
  unfolding cleanup_terraform_directory
  cleanup-Emits dir = search emits_rules depth 10

  gauge-Emits : (name env : String) (failed : Option Error) → Emits C (set_gauge name env failed)
  gauge-Emits name env none = search emits_rules
  gauge-Emits name env (some e) = search emits_rules

  pub write_back-Emits :
      (owner : Cluster) (dir : String) (failed : Option Error) (v : Vars)
      → Emits C (write_back owner dir failed v)
  unfolding write_back
  write_back-Emits owner dir failed v =
      search (emits_rules, write_kmp-Emits, write_kcp-Emits, cleanup-Emits, gauge-Emits) depth 12
