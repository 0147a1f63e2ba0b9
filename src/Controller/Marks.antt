-- ===== src/Controller/Marks.antt =====
-- The condition of the custom secrets.
use kubernetes_kops_operator.Prelude.{true, List, ◌≡◌}
use kubernetes_kops_operator.Api.Meta.{Condition}
use kubernetes_kops_operator.Io.{World, History}
use kubernetes_kops_operator.Controller.Body.{Vars, Step, next, return, crashed}

abbrev pub secrets_ready : Condition
secrets_ready = record {
  kind = "KopsControlPlaneSecretsReady";
  is_true = true;
  reason = "";
  severity = "";
  message = "";
}

-- The condition was marked true last.
abbrev pub MarkedReady : World → Vars → Type 0
MarkedReady w v = (l : List Condition) × (v.kcp.status.conditions ≡ w.mark secrets_ready l)

abbrev pub GoesOn : World → Step (Unit {0}) × Vars × History → Type 0
GoesOn w (next u, v, h) = MarkedReady w v
GoesOn w (return r e, v, h) = Unit
GoesOn w (crashed, v, h) = Unit
