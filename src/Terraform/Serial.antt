-- ===== src/Terraform/Serial.antt =====
-- The file lock around `terraform init`.
use kubernetes_kops_operator.Io.{Error, Result, ok, err, panic, World, History, Io, fail}
use kubernetes_kops_operator.Outside.Call.{Call}
use kubernetes_kops_operator.Terraform.Held.{Outside}

-- Success ends with `Q`, and all else with `R`.
abbrev Ending : {A : Type 0} → (History → Type 0) → (History → Type 0) → Result A × History → Type 0
Ending Q R (ok a, k) = Q k
Ending Q R (err e, k) = R k
Ending Q R (panic, k) = R k

record Ends (w : World) (P Q R : History → Type 0) {A : Type 0} (m : Io A) : Type 0 where
  at : (h : History) → P h → Ending Q R (m w h)

module _ {w : World} {A : Type 0} where
  Ends-fail : {P Q : History → Type 0} (e : Error) → Ends w P Q P (fail {A = A} e)
  unfolding fail
  Ends-fail e = record { at = λ h p. p }
