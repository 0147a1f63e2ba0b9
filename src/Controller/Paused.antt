-- ===== src/Controller/Paused.antt =====
-- A paused cluster, and the conditions that a reconciliation writes.
use kubernetes_kops_operator.Prelude.{true, false}
use kubernetes_kops_operator.Api.{KopsControlPlane}
use kubernetes_kops_operator.Io.Emits.{Emits}
use kubernetes_kops_operator.Outside.Call.{Call}
use kubernetes_kops_operator.Outside.Effect.{Effect, Effects}
use kubernetes_kops_operator.Controller.Body.{report}

-- Queries, events, the objects of the API and the files of terraform.
abbrev pub paused_effects : Effects
paused_effects Effect.observe = true
paused_effects Effect.report = true
paused_effects Effect.kube_write = true
paused_effects Effect.kube_status = true
paused_effects Effect.file_write = true
paused_effects _ = false

abbrev paused_kcp : KopsControlPlane → KopsControlPlane
paused_kcp kcp = record kcp { status = record kcp.status { paused = true } }
