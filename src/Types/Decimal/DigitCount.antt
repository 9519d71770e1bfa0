-- ===== src/Types/Decimal/DigitCount.antt =====
-- The number of digits of a coefficient and the powers of ten around it.
use native.Mathlib.Nat.{pow-suc}
use gokql.Base.{
  ℕ, zero, suc, ◌+◌, ◌-◌, ◌/◌, ◌%◌, ◌^◌, ◌≤◌, ◌<◌, ◌≡◌, refl, ap, ◌∙◌, inl, inr, ltb, ◌==◌, arith,
  Bool-cases, length, ◌∷◌, [], ◌⊎◌,
}
use gokql.Base.Bytes.{Bytes}
use gokql.Base.Int.{ℤ, magnitude}
use gokql.Types.Decimal.{digits_before, decimal_digits, digit_count}

length-digits_before :
    (fuel n : ℕ) (tail : Bytes)
    → n < fuel
    → 0 < n
    → (j : ℕ) × (length (digits_before fuel n tail) ≡ length tail + suc j)
      × (10 ^ j ≤ n)
      × (n < 10 ^ suc j)
unfolding digits_before
length-digits_before zero n tail h p = absurd (omega arith)
length-digits_before (suc fuel) n tail h p = elim (Bool-cases (ltb n 10)) [
  | inl small ↦
      let e : digits_before (suc fuel) n tail ≡ (b'0' + n) ∷ tail =
        rw (small, digits_before) refl in
      (0, ap length e ∙ omega arith, ground arith, ground arith)
  | inr large ↦
      let large' : 10 ≤ n = ground arith in
      let e : digits_before (suc fuel) n tail
          ≡ digits_before fuel (n / 10) ((b'0' + n % 10) ∷ tail) =
        rw (large, digits_before) refl in
      let (j, len, lo, hi) =
        length-digits_before fuel (n / 10) ((b'0' + n % 10) ∷ tail) (omega arith) (omega arith) in
      (
        suc j,
        ap length e ∙ len ∙ omega arith,
        omega (arith, pow-suc 10 j),
        omega (arith, pow-suc 10 (suc j)),
      )
]

-- A number is below the power of ten that its digits say, and not below the one before, unless it
-- has one digit.
pub digit_count-power :
    (c : ℤ)
    → (magnitude c < 10 ^ digit_count c)
      × ((digit_count c ≡ 1) ⊎ (10 ^ (digit_count c - 1) ≤ magnitude c))
unfolding digit_count decimal_digits
digit_count-power c = elim (Bool-cases (magnitude c == 0)) [
  | inl zero_coef ↦
      let d : digit_count c ≡ 1 = rw zero_coef refl in
      let z : magnitude c ≡ 0 = ground arith in rw (d, z) (omega arith, inl refl)
  | inr other ↦
      let n = magnitude c in
      let (j, len, lo, hi) = length-digits_before (suc n) n [] (omega arith) (ground arith) in
      let d : digit_count c ≡ suc j = rw other (len ∙ omega arith) in
      let s : suc j - 1 ≡ j = omega arith in rw (d, s) (hi, inr lo)
]
