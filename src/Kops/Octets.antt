-- ===== src/Kops/Octets.antt =====
-- The fields of a dotted address and the lengths of prefixes, printed and parsed again.
use kubernetes_kops_operator.Prelude.{
  ℕ, zero, suc, ◌≤◌, ◌<◌, ◌≡◌, refl, ap, Bool, true, false, ◌&&◌, Option, none, some, eqb, arith,
}
use kubernetes_kops_operator.Prelude.Text.{
  is_digit, AllOf, all_of, all_of-AllOf, show_decimal, parse_decimal,
}
use kubernetes_kops_operator.Kops.Cidr.{parse_octet}

-- Over a small range, every number is checked by evaluation.
all_below : ℕ → (ℕ → Bool) → Bool
all_below zero p = true
all_below (suc n) p = p n && all_below n p

all_below_lem : (n : ℕ) (p : ℕ → Bool) (x : ℕ) → all_below n p ≡ true → x < n → p x ≡ true
unfolding all_below
all_below_lem zero p x h lt = absurd (omega arith)
all_below_lem (suc n) p x h lt = ground (arith, all_below_lem n p x)

abbrev is_number : ℕ → Option ℕ → Bool
is_number n none = false
is_number n (some m) = eqb m n

is_number-some : (n : ℕ) (o : Option ℕ) → is_number n o ≡ true → o ≡ some n
is_number-some n none e = absurd (ground (arith, e))
is_number-some n (some m) e = ap some (ground arith)

octet_table : all_below 256 (λ b. is_number b (parse_octet (show_decimal b))) ≡ true
unfolding all_below parse_octet parse_decimal show_decimal
octet_table = refl

number_table : all_below 256 (λ b. is_number b (parse_decimal (show_decimal b))) ≡ true
unfolding all_below parse_decimal show_decimal
number_table = refl

digit_table : all_below 256 (λ b. all_of is_digit (show_decimal b)) ≡ true
unfolding all_below show_decimal
digit_table = refl

pub parse_octet-show_decimal : (b : ℕ) → b ≤ 255 → parse_octet (show_decimal b) ≡ some b
parse_octet-show_decimal b le = is_number-some b _ (
    all_below_lem 256 (λ b. is_number b (parse_octet (show_decimal b))) b octet_table (omega arith))

pub parse_decimal-show_decimal : (n : ℕ) → n ≤ 255 → parse_decimal (show_decimal n) ≡ some n
parse_decimal-show_decimal n le = is_number-some n _ (
    all_below_lem 256 (λ b. is_number b (parse_decimal (show_decimal b))) n number_table
      (omega arith))

pub show_decimal-AllOf : (n : ℕ) → n ≤ 255 → AllOf is_digit (show_decimal n)
show_decimal-AllOf n le =
    all_of-AllOf is_digit _
      (all_below_lem 256 (λ b. all_of is_digit (show_decimal b)) n digit_table (omega arith))
