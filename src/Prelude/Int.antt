-- ===== src/Prelude/Int.antt =====
-- Signed numbers, and `strconv.Atoi` on 64 bits.
use Prim.Native.Nat.{ℕ, zero, suc, ◌-◌, ◌^◌}
use Prim.Native.Char.{code}
use Prim.Native.String.{String}
use mathlib.Core.Option.{Option, none, some}
use kubernetes_kops_operator.Prelude.Tests.{eqb, leb, if◌then◌else◌}
use kubernetes_kops_operator.Prelude.Text.{parse_decimal}

-- `negsuc n` is -(n + 1).
pub data ℤ : Type 0 where
  pos : ℕ → ℤ
  negsuc : ℕ → ℤ

abbrev pub neg : ℕ → ℤ
neg zero = pos 0
neg (suc n) = negsuc n

abbrev pub in_range : ℕ → (ℕ → ℤ) → Option ℕ → Option ℤ
in_range limit f none = none
in_range limit f (some n) = if leb n limit then some (f n) else none

-- A sign at most, and decimal digits; out of range is an error.
unfoldable pub atoi : String → Option ℤ
unfolding parse_decimal
atoi String.[] = none
atoi (String.◌∷◌ c s) =
    if eqb (code c) b'-'
    then in_range (2 ^ 63) neg (parse_decimal s)
    else if eqb (code c) b'+'
    then in_range (2 ^ 63 - 1) pos (parse_decimal s)
    else in_range (2 ^ 63 - 1) pos (parse_decimal (String.◌∷◌ c s))
