-- ===== src/Types/Decimal/Rounding.antt =====
-- Rounding to a scale, and the bound on digits.
use mathlib.Core.Path.{subst}
use gokql.Types.Decimal.DigitCount.{digit_count-power}
use gokql.Types.Decimal.Order.{pow10-add, int32-small, int32-diff}
use native.Mathlib.Nat.{
  mul-le-mul_left, pow-le-pow_right, one-le-pow, mul-add, mul-one, mul_comm, div-add-mod, mod-lt,
}
use gokql.Base.{
  ℕ, zero, suc, ◌+◌, ◌-◌, ◌*◌, ◌/◌, ◌%◌, ◌^◌, ◌≤◌, ◌<◌, ◌≡◌, refl, sym, ap, ◌∙◌, true, false, inl,
  inr, ltb, leb, arith, Bool-cases, Option, none, some, ◌⊎◌,
}
use gokql.Base.Int.{ℤ, pos, negsuc, magnitude, signed, ◌-ℤ◌}
use gokql.Types.Decimal.{Decimal, int32, exp10, round_quo, rescale, digit_count, checked}

magnitude-signed : (c : ℤ) (m : ℕ) → magnitude (signed c m) ≡ m
magnitude-signed (pos n) m = refl
magnitude-signed (negsuc n) zero = refl
magnitude-signed (negsuc n) (suc m) = refl

round_quo-signed : (c : ℤ) (div : ℕ) → round_quo c div ≡ signed c (magnitude (round_quo c div))
unfolding round_quo
round_quo-signed c div = ap (signed c) (sym (magnitude-signed c _))

-- The nearest multiple of the divisor; a tie goes away from zero.
pub round_quo-nearest :
    (c : ℤ) (div : ℕ)
    → 0 < div
    → (2 * magnitude c < 2 * (div * magnitude (round_quo c div)) + div)
      × (2 * (div * magnitude (round_quo c div)) ≤ 2 * magnitude c + div)
unfolding round_quo
round_quo-nearest c div h =
    let n = magnitude c in
    elim (Bool-cases (leb div (2 * (n % div)))) [
      | inl up ↦
          let up' : div ≤ 2 * (n % div) = ground arith in
          rw (up, magnitude-signed c (n / div + 1), mul-add div (n / div) 1, mul-one div)
            (
              omega (arith, div-add-mod n div, mod-lt n h, mul_comm div (n / div)),
              omega (arith, div-add-mod n div, mod-lt n h, mul_comm div (n / div)),
            )
      | inr down ↦
          let down' : 2 * (n % div) < div = ground arith in
          rw (down, magnitude-signed c (n / div))
            (omega (arith, div-add-mod n div, mod-lt n h), omega (arith, div-add-mod n div))
    ]

rescale-down :
    (c : ℤ) (s t : ℕ)
    → t < s
    → s < 2 ^ 31
    → rescale (pos t) (record { coef = c; scale = pos s })
      ≡ record { coef = round_quo c (10 ^ (s - t)); scale = pos t }
unfolding rescale exp10
rescale-down c s t lt bound =
    let u : ltb (s + 0) (t + 0) ≡ false = ground arith in
    let v : ltb (t + 0) (s + 0) ≡ true = ground arith in
    rw (u, v)
      (ap (λ k. record { coef = round_quo c (exp10 k); scale = pos t })
        (int32-diff t s (omega arith) bound))

checked-none :
    (c : ℤ) (s : ℕ)
    → 38 < digit_count c
    → s < digit_count c - 38
    → checked (record { coef = c; scale = pos s }) ≡ none
unfolding checked
checked-none c s long short =
    let u : ltb 38 (digit_count c) ≡ true = ground arith in
    let v : ltb (s + 0) (digit_count c - 38 + 0) ≡ true = ground arith in rw (checked, u, v) refl

checked-round :
    (c : ℤ) (s k : ℕ)
    → digit_count c ≡ 38 + suc k
    → suc k ≤ s
    → s < 2 ^ 31
    → checked (record { coef = c; scale = pos s })
      ≡ some (record { coef = round_quo c (10 ^ suc k); scale = pos (s - suc k) })
unfolding checked
checked-round c s k digits room bound =
    let e : 38 + suc k - 38 ≡ suc k = omega arith in
    let u : ltb 38 (38 + suc k) ≡ true = ground arith in
    let v : ltb (s + 0) (suc k + 0) ≡ false = ground arith in
    let w : int32 (pos s -ℤ int32 (pos (suc k))) ≡ pos (s - suc k) =
      ap (λ j. int32 (pos s -ℤ j)) (int32-small (suc k) (omega arith))
      ∙ int32-diff (suc k) s room bound in
    let x : s - (s - suc k) ≡ suc k = omega arith in
    rw (checked, digits, e, u, v, w)
      (ap some (
        rescale-down c s (s - suc k) (omega arith) bound
        ∙ ap (λ j. record { coef = round_quo c (10 ^ j); scale = pos (s - suc k) }) x))

-- What `checked` makes of c / 10^s: none for 10^38 and more; otherwise `k` fractional digits are
-- dropped, all beyond the 38th digit.
abbrev pub Checked : ℤ → ℕ → Option Decimal → Type 0
Checked c s none = 10 ^ (38 + s) ≤ magnitude c
Checked c s (some r) =
    (k : ℕ) × (k ≤ s)
    × (r.scale ≡ pos (s - k))
    × (r.coef ≡ signed c (magnitude r.coef))
    × (2 * magnitude c < 2 * (10 ^ k * magnitude r.coef) + 10 ^ k)
    × (2 * (10 ^ k * magnitude r.coef) ≤ 2 * magnitude c + 10 ^ k)
    × (magnitude r.coef ≤ 10 ^ 38)
    × ((k ≡ 0) ⊎ (10 ^ (37 + k) ≤ magnitude c))

rounded-bound : (k m n : ℕ) → n < 10 ^ (38 + k) → 2 * (10 ^ k * m) ≤ 2 * n + 10 ^ k → m ≤ 10 ^ 38
rounded-bound k m n h near = elim (Bool-cases (leb m (10 ^ 38))) [
  | inl le ↦ ground arith
  | inr gt ↦
      let gt' : 10 ^ 38 + 1 ≤ m = ground arith in
      absurd (
        omega (
          arith,
          pow10-add 38 k,
          mul-le-mul_left (10 ^ k) gt',
          mul-add (10 ^ k) (10 ^ 38) 1,
          mul-one (10 ^ k),
          mul_comm (10 ^ k) (10 ^ 38),
          one-le-pow k 10 (omega arith),
        ))
]

signed-itself : (c : ℤ) → c ≡ signed c (magnitude c)
signed-itself (pos n) = refl
signed-itself (negsuc n) = refl

pub checked-fits :
    (c : ℤ) (s : ℕ)
    → digit_count c ≤ 38
    → checked (record { coef = c; scale = pos s }) ≡ some (record { coef = c; scale = pos s })
unfolding checked
checked-fits c s le = let u : ltb 38 (digit_count c) ≡ false = ground arith in rw (checked, u) refl

pow10-le : (i j : ℕ) → i ≤ j → 10 ^ i ≤ 10 ^ j
pow10-le i j le = pow-le-pow_right (let h : 0 < 10 = omega arith in h) le

Checked-itself :
    (c : ℤ) (s : ℕ)
    → magnitude c < 10 ^ 38
    → Checked c s (some (record { coef = c; scale = pos s }))
Checked-itself c s h = (
  0,
  omega arith,
  (let e : s ≡ s - 0 = omega arith in ap pos e),
  signed-itself c,
  omega arith,
  omega arith,
  omega arith,
  inl refl,
)

Checked-round :
    (c : ℤ) (s k : ℕ)
    → suc k ≤ s
    → 10 ^ (38 + k) ≤ magnitude c
    → magnitude c < 10 ^ (38 + suc k)
    → Checked c s (some (record { coef = round_quo c (10 ^ suc k); scale = pos (s - suc k) }))
Checked-round c s k room lo hi =
    let (near, far) = round_quo-nearest c (10 ^ suc k) (one-le-pow (suc k) 10 (omega arith)) in
    let e : 37 + suc k ≡ 38 + k = omega arith in
    (
      suc k,
      room,
      refl,
      round_quo-signed c (10 ^ suc k),
      near,
      far,
      rounded-bound (suc k) (magnitude (round_quo c (10 ^ suc k))) (magnitude c) hi far,
      inr (rw e lo),
    )

-- Of c / 10^s with s below 2^31: where `checked` refuses, the magnitude of the number is 10^38 or
-- more. Else the result is the nearest number (a tie goes away from zero) with k fractional digits
-- less, of the same sign and a coefficient of 10^38 at most in magnitude; k is 0, or the magnitude of c
-- is 10^(37 + k) at least.
pub checked_lem :
    (c : ℤ) (s : ℕ) → s < 2 ^ 31 → Checked c s (checked (record { coef = c; scale = pos s }))
checked_lem c s h =
    let (hi, lo) = digit_count-power c in
    let n = digit_count c in
    elim (Bool-cases (ltb 38 n)) [
      | inr fits ↦
          let le : n ≤ 38 = ground arith in
          let below : magnitude c < 10 ^ 38 = omega (arith, hi, pow10-le n 38 le) in
          subst (Checked c s) (sym (checked-fits c s le)) (Checked-itself c s below)
      | inl long ↦
          let gt : 38 < n = ground arith in
          let k = n - 39 in
          let digits : n ≡ 38 + suc k = omega arith in
          let least : 10 ^ (38 + k) ≤ magnitude c = elim lo [
            | inl one_digit ↦ absurd (omega arith)
            | inr l ↦ let e : n - 1 ≡ 38 + k = omega arith in subst (λ j. 10 ^ j ≤ magnitude c) e l
          ] in
          elim (Bool-cases (leb (suc k) s)) [
            | inl room ↦
                let le : suc k ≤ s = ground arith in
                subst (Checked c s) (sym (checked-round c s k digits le h))
                  (Checked-round c s k le least (subst (λ j. magnitude c < 10 ^ j) digits hi))
            | inr short ↦
                let lt : s < suc k = ground arith in
                subst (Checked c s) (sym (checked-none c s gt (omega arith)))
                  (omega (arith, least, pow10-le (38 + s) (38 + k) (omega arith)))
          ]
    ]
