-- ===== src/Functions/Bin/Floor.antt =====
-- `bin` gives the multiple of the size below the value.
use native.Mathlib.Nat.{zero-mul}
use gokql.Base.{
  ℕ, zero, suc, ◌+◌, ◌%◌, ◌^◌, ◌≤◌, ◌<◌, ◌≡◌, refl, ap, ◌∙◌, true, false, some, ◌==◌, arith, leb,
  ltb,
}
use gokql.Base.Int.{
  ℤ, pos, negsuc, pos_part, neg_part, ◌+ℤ◌, ◌-ℤ◌, ◌*ℤ◌, quo, rem, +ℤ_parts, -ℤ_parts, eq_of_parts,
}
use gokql.Types.Decimal.{floor_quo}
use gokql.Types.Decimal.Order.{parts-mul}
use gokql.Types.Decimal.Floor.{IsFloor, floor_quo-IsFloor}
use gokql.Functions.Bin.{int64, floor_div_int64, bin_at, bin}

int64-small : (a : ℤ) → pos_part a < 2 ^ 63 → neg_part a ≤ 2 ^ 63 → int64 a ≡ a
unfolding int64
int64-small (pos n) h k = ground arith
int64-small (negsuc n) h k = ground arith

floor_div-negsuc :
    (n y r : ℕ) → suc n % y ≡ r → floor_div_int64 (negsuc n) (pos y) ≡ floor_quo (negsuc n) (pos y)
unfolding floor_div_int64 floor_quo quo rem
floor_div-negsuc n y zero e = rw (floor_div_int64, floor_quo, e) refl
floor_div-negsuc n y (suc r) e =
    let a : ltb 0 (0 + suc n) ≡ true = ground arith in
    let b : ltb (y + 0) 0 ≡ false = ground arith in
    let c : ltb 0 (0 + suc r) ≡ true = ground arith in
    let d : (suc r == 0) ≡ false = ground arith in
    rw (floor_div_int64, floor_quo, e, a, b, c, d) refl

floor_div-floor_quo : (a : ℤ) (y : ℕ) → floor_div_int64 a (pos y) ≡ floor_quo a (pos y)
unfolding floor_div_int64 floor_quo quo rem
floor_div-floor_quo (pos n) y = ground arith
floor_div-floor_quo (negsuc n) y = floor_div-negsuc n y (suc n % y) refl

multiple-fits :
    (value q : ℤ) (size : ℕ)
    → IsFloor value size q
    → pos_part value < 2 ^ 63
    → neg_part value + size ≤ 2 ^ 63
    → int64 (q *ℤ pos size) ≡ q *ℤ pos size
multiple-fits value (pos n) size (below, above) top bottom =
    int64-small (pos n *ℤ pos size) (omega (arith, (parts-mul (pos n) size).0, zero-mul size))
      (omega (arith, (parts-mul (pos n) size).1, zero-mul size))
multiple-fits value (negsuc n) size (below, above) top bottom =
    int64-small (negsuc n *ℤ pos size) (omega (arith, (parts-mul (negsuc n) size).0, zero-mul size))
      (omega (arith, (parts-mul (negsuc n) size).1, zero-mul size))

minus-zero : (a : ℤ) → a -ℤ pos 0 ≡ a
minus-zero a = eq_of_parts (a -ℤ pos 0) a (omega (arith, -ℤ_parts a (pos 0)))

zero-plus : (a : ℤ) → pos 0 +ℤ a ≡ a
zero-plus a = eq_of_parts (pos 0 +ℤ a) a (omega (arith, +ℤ_parts (pos 0) a))

-- For a size above 0 and a value at least the size above the least 64-bit integer: `bin` gives q * size
-- for the integer q with q * size at most the value and the value below (q + 1) * size.
pub bin_lem :
    (value : ℤ) (size : ℕ)
    → 0 < size
    → pos_part value < 2 ^ 63
    → neg_part value + size ≤ 2 ^ 63
    → (q : ℤ) × (IsFloor value size q) × (bin value (pos size) ≡ some (q *ℤ pos size))
unfolding bin bin_at
bin_lem value size h top bottom =
    let q = floor_quo value (pos size) in
    let (below, above) = floor_quo-IsFloor value size h in
    let g : leb (size + 0) 0 ≡ false = ground arith in
    let start : int64 (value -ℤ pos 0) ≡ value =
      ap int64 (minus-zero value) ∙ int64-small value top (omega arith) in
    let quotient : floor_div_int64 (int64 (value -ℤ pos 0)) (pos size) ≡ q =
      ap (λ a. floor_div_int64 a (pos size)) start ∙ floor_div-floor_quo value size in
    let fits = multiple-fits value q size (below, above) top bottom in
    let sum : int64 (pos 0 +ℤ int64 (q *ℤ pos size)) ≡ q *ℤ pos size =
      ap int64 (zero-plus (int64 (q *ℤ pos size))) ∙ ap int64 fits ∙ fits in
    (q, (below, above), rw (bin, g, quotient) (ap some sum))
