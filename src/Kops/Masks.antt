-- ===== src/Kops/Masks.antt =====
-- One byte under two masks.
use native.Mathlib.Nat.{mul-div_cancel, div-div-eq-div-mul, pow-suc, one-le-pow, mul_assoc}
use kubernetes_kops_operator.Prelude.{
  ℕ, zero, suc, ◌+◌, ◌-◌, ◌*◌, ◌/◌, ◌^◌, ◌≤◌, ◌<◌, ◌≡◌, refl, ◌∙◌, sym, ap, false, leb, Bool-cases,
  inl, inr, arith,
}
use kubernetes_kops_operator.Kops.Cidr.{mask_byte}

power_sum : (i j : ℕ) → 2 ^ (i + j) ≡ 2 ^ i * 2 ^ j
power_sum i zero = grind arith
power_sum i (suc j) =
    let rest = power_sum i j in
    ap (λ k. 2 ^ k) (omega arith)
    ∙ pow-suc 2 (i + j)
    ∙ ap (λ x. x * 2) rest
    ∙ mul_assoc (2 ^ i) (2 ^ j) 2
    ∙ ap (λ x. 2 ^ i * x) (sym (pow-suc 2 j))

module _ (d f b : ℕ) (pos : zero < d) where
  -- Rounding down to a multiple of `d * f`, after rounding down to a multiple of `d`, and before it.
  coarse : b / d * d / (d * f) * (d * f) ≡ b / (d * f) * (d * f)
  coarse =
      ap (λ x. x * (d * f))
        (sym (div-div-eq-div-mul (b / d * d) d f)
          ∙ ap (λ x. x / f) (mul-div_cancel (b / d) pos)
          ∙ div-div-eq-div-mul b d f)

  regroup : (x : ℕ) → x * (d * f) ≡ x * f * d
  regroup x = grind arith

  fine : b / (d * f) * (d * f) / d * d ≡ b / (d * f) * (d * f)
  fine =
      ap (λ x. x / d * d) (regroup (b / (d * f)))
      ∙ ap (λ x. x * d) (mul-div_cancel (b / (d * f) * f) pos)
      ∙ sym (regroup (b / (d * f)))

-- The mask of `n` leading ones, as rounding down in two steps.
shorter : (n m : ℕ) → n ≤ m → m < 8 → 2 ^ (8 - n) ≡ 2 ^ (8 - m) * 2 ^ (m - n)
shorter n m le lt = ap (λ k. 2 ^ k) (omega arith) ∙ power_sum (8 - m) (m - n)

-- Of two masks, in any order, the shorter one counts.
pub byte_mask : (n m b : ℕ) → n ≤ m → mask_byte n (mask_byte m b) ≡ mask_byte n b
byte_mask n m b le = elim (Bool-cases (leb 8 m)) [
  | inl y ↦ rw y refl
  | inr y ↦
      (let short : leb 8 n ≡ false = ground (arith, y) in
        rw (y, short, shorter n m le (ground (arith, y)))
          (coarse (2 ^ (8 - m)) (2 ^ (m - n)) b (one-le-pow (8 - m) 2 (omega arith))))
]

pub mask_byte-mask_byte : (n m b : ℕ) → n ≤ m → mask_byte m (mask_byte n b) ≡ mask_byte n b
mask_byte-mask_byte n m b le = elim (Bool-cases (leb 8 m)) [
  | inl y ↦ rw y refl
  | inr y ↦
      (let short : leb 8 n ≡ false = ground (arith, y) in
        rw (y, short, shorter n m le (ground (arith, y)))
          (fine (2 ^ (8 - m)) (2 ^ (m - n)) b (one-le-pow (8 - m) 2 (omega arith))))
]

pub mask_byte-le : (n b : ℕ) → mask_byte n b ≤ b
mask_byte-le n b = ground arith
