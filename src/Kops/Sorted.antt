-- ===== src/Kops/Sorted.antt =====
-- The listing of the machine pools in its order.
use Prim.Native.Nat.{Ordering, compare as compare_ℕ}
use Prim.Native.String.compare
use Prim.Native.String.{compare}
use Prim.Native.Char.{Char}
use mathlib.Core.List.{Perm}
use mathlib.Core.List.Perm
use kubernetes_kops_operator.Prelude.{String, true, List, [], ◌∷◌, ◌≡◌}
use kubernetes_kops_operator.Api.{KopsMachinePool}
use kubernetes_kops_operator.Kops.{precedes}

abbrev flip : Ordering → Ordering
flip Ordering.lt = Ordering.gt
flip Ordering.eq = Ordering.eq
flip Ordering.gt = Ordering.lt

-- Each pool precedes the next one.
abbrev pub Chain : KopsMachinePool → List KopsMachinePool → Type 0
Chain a [] = Unit
Chain a (b ∷ l) = (precedes a b ≡ true) × Chain b l

abbrev pub Ordered : List KopsMachinePool → Type 0
Ordered [] = Unit
Ordered (a ∷ l) = Chain a l
