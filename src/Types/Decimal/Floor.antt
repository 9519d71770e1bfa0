-- ===== src/Types/Decimal/Floor.antt =====
-- `Floor` gives the largest multiple of the step that is not above the number.
use native.Mathlib.Nat.{div-add-mod, mod-lt, mul_comm, suc-mul, mul-pos, one-le-pow}
use gokql.Base.{
  ℕ, zero, suc, ◌+◌, ◌-◌, ◌*◌, ◌/◌, ◌%◌, ◌^◌, ◌≤◌, ◌<◌, ◌≡◌, refl, ap, true, false, inl, inr, arith,
  Bool-cases, ◌==◌, leb, ltb,
}
use gokql.Base.Int.{ℤ, pos, negsuc, pos_part, neg_part, neg_ℤ, ◌*ℤ◌, ◌-ℤ◌, quo, rem}
use gokql.Types.Decimal.{align, floor_quo, floor, checked}
use gokql.Types.Decimal.Order.{max_ℕ, align-of_pos, neg-parts}

-- What the quotient rounded down is: y * q is at most x, and x is below y * (q + 1).
abbrev pub IsFloor : ℤ → ℕ → ℤ → Type 0
IsFloor x y q =
    (pos_part q * y + neg_part x ≤ neg_part q * y + pos_part x)
    × (neg_part q * y + pos_part x < pos_part q * y + y + neg_part x)

floor_quo-pos : (n y : ℕ) → floor_quo (pos n) (pos y) ≡ pos (n / y)
unfolding floor_quo quo rem
floor_quo-pos n y = ground arith

floor_quo-exact : (n y : ℕ) → suc n % y ≡ 0 → floor_quo (negsuc n) (pos y) ≡ neg_ℤ (pos (suc n / y))
unfolding floor_quo quo rem
floor_quo-exact n y h = rw (floor_quo, h) refl

minus_one : (k : ℕ) → neg_ℤ (pos k) -ℤ pos 1 ≡ negsuc k
unfolding ◌-ℤ◌
minus_one zero = refl
minus_one (suc k) = ground arith

floor_quo-below :
    (n y r : ℕ) → suc n % y ≡ suc r → floor_quo (negsuc n) (pos y) ≡ negsuc (suc n / y)
unfolding floor_quo quo rem ◌-ℤ◌
floor_quo-below n y r h =
    let g : ltb 0 (0 + suc r) ≡ true = ground arith in rw (floor_quo, h, g) (minus_one (suc n / y))

pub floor_quo-IsFloor : (x : ℤ) (y : ℕ) → 0 < y → IsFloor x y (floor_quo x (pos y))
floor_quo-IsFloor (pos n) y h =
    let d = div-add-mod n y in
    rw (floor_quo-pos n y)
      (omega (arith, d, mul_comm y (n / y)), omega (arith, d, mod-lt n h, mul_comm y (n / y)))
floor_quo-IsFloor (negsuc n) y h = elim (Bool-cases ((suc n % y) == 0)) [
  | inl exact ↦
      let e : suc n % y ≡ 0 = ground arith in
      let q = suc n / y in
      rw (floor_quo-exact n y e, (neg-parts q).0, (neg-parts q).1)
        (
          omega (arith, div-add-mod (suc n) y, mul_comm y q),
          omega (arith, div-add-mod (suc n) y, mul_comm y q),
        )
  | inr below ↦
      let q = suc n / y in
      let e : suc n % y ≡ suc (suc n % y - 1) = ground arith in
      rw (floor_quo-below n y (suc n % y - 1) e) (
        omega (arith, div-add-mod (suc n) y, mod-lt (suc n) h, mul_comm y q, suc-mul q y),
        omega (arith, div-add-mod (suc n) y, mul_comm y q, suc-mul q y),
      )
]

-- For scales below 2^31 and a step above 0: `Floor` of x / 10^m by a step y / 10^m, m the larger
-- scale, is q * y / 10^m as `checked` leaves it, for the integer q with q * y at most x and x below
-- (q + 1) * y.
pub floor_lem :
    (c : ℤ) (e s t : ℕ)
    → s < 2 ^ 31
    → t < 2 ^ 31
    → let m = max_ℕ s t in
      let x = c *ℤ pos (10 ^ (m - s)) in
      let y = suc e * 10 ^ (m - t) in
      (q : ℤ) × (IsFloor x y q)
      × (floor (record { coef = c; scale = pos s }) (record { coef = pos (suc e); scale = pos t })
          ≡ checked (record { coef = q *ℤ pos y; scale = pos m }))
unfolding floor align ◌*ℤ◌
floor_lem c e s t hs ht =
    let m = max_ℕ s t in
    let x = c *ℤ pos (10 ^ (m - s)) in
    let y = suc e * 10 ^ (m - t) in
    let g : leb (suc e + 0) 0 ≡ false = ground arith in
    (
      floor_quo x (pos y),
      floor_quo-IsFloor x y (mul-pos (omega arith) (one-le-pow (m - t) 10 (omega arith))),
      rw (floor, g)
          (ap (λ (r : ℤ × ℤ × ℤ). checked (record { coef = floor_quo r.0 r.1 *ℤ r.1; scale = r.2 }))
            (align-of_pos c (pos (suc e)) s t hs ht)),
    )
