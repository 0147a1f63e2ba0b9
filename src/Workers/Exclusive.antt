-- ===== src/Workers/Exclusive.antt =====
-- What no two workers do at once.
use kubernetes_kops_operator.Prelude.{Bool, true, false, List, [], ◌∷◌, ◌≡◌}
use kubernetes_kops_operator.Outside.Call.{Call}
use kubernetes_kops_operator.Outside.Effect.{Effect, effect}
use kubernetes_kops_operator.Workers.Obeys.{Obeys}
use kubernetes_kops_operator.Workers.Sound.{Sound}

-- The state store of kOps, what kOps made, and the state of the process.
abbrev pub is_critical : Effect → Bool
is_critical Effect.globals = true
is_critical Effect.kops_write = true
is_critical Effect.addons_write = true
is_critical Effect.kops_delete = true
is_critical _ = false

abbrev pub is_terraform_run : Effect → Bool
is_terraform_run Effect.tf_apply_run = true
is_terraform_run Effect.tf_destroy_run = true
is_terraform_run _ = false

-- The next call, if there is one, is of this kind.
abbrev pub Next : (Effect → Bool) → List Call → Type 0
Next p [] = ⊥
Next p (c ∷ l) = p (effect c) ≡ true
