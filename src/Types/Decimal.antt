-- ===== src/Types/Decimal.antt =====
-- pkg/types/decimal.go: decimal numbers, a coefficient and a scale. Integers are exact, as those of
-- math/big; a scale is a 32-bit integer, whose arithmetic wraps around.
pub mod DigitCount
pub mod Floor
pub mod Order
pub mod Rounding
pub mod Text
use gokql.Base.{
  ℕ, zero, suc, ◌+◌, ◌-◌, ◌*◌, ◌/◌, ◌%◌, ◌^◌, true, false, Option, none, some, [], ◌∷◌,
  if◌then◌else◌, ltb, leb, ◌==◌, ◌&&◌, length,
}
use gokql.Base.Bytes.{Bytes}
use gokql.Base.Int.{
  ℤ, pos, negsuc, magnitude, neg_ℤ, signed, ◌+ℤ◌, ◌-ℤ◌, ◌*ℤ◌, quo, rem, ltb_ℤ, leb_ℤ, cmp_ℤ,
}

pub record Decimal : Type 0 where
  pub coef : ℤ
  pub scale : ℤ

abbrev pub max_decimal_digits : ℕ
max_decimal_digits = 38

abbrev pub decimal_division_scale : ℕ
decimal_division_scale = 28

-- The value that 32-bit arithmetic leaves.
unfoldable pub int32 : ℤ → ℤ
int32 (pos n) = let u = n % 2 ^ 32 in if ltb u (2 ^ 31) then pos u else negsuc (2 ^ 32 - 1 - u)
int32 (negsuc n) = let u = n % 2 ^ 32 in if ltb u (2 ^ 31) then negsuc u else pos (2 ^ 32 - 1 - u)

-- `Exp(10, y, nil)` of math/big, which is 1 for a negative exponent.
unfoldable pub exp10 : ℤ → ℕ
exp10 (pos n) = 10 ^ n
exp10 (negsuc n) = 1

-- The decimal digits of a number, before `tail`.
unfoldable pub digits_before : ℕ → ℕ → Bytes → Bytes
digits_before zero n tail = tail
digits_before (suc fuel) n tail = elim (ltb n 10) [
  | true ↦ (b'0' + n) ∷ tail
  | false ↦ digits_before fuel (n / 10) ((b'0' + n % 10) ∷ tail)
]

unfoldable pub decimal_digits : ℕ → Bytes
unfolding digits_before
decimal_digits n = digits_before (suc n) n []

unfoldable pub decimal_from_int64 : ℤ → Decimal
decimal_from_int64 v = record { coef = v; scale = pos 0 }

-- The quotient, rounded half away from zero.
unfoldable pub round_quo : ℤ → ℕ → ℤ
round_quo c div =
    let q = magnitude c / div in signed c (if leb div (2 * (magnitude c % div)) then q + 1 else q)

unfoldable pub rescale : ℤ → Decimal → Decimal
unfolding ◌*ℤ◌ ◌-ℤ◌ int32 exp10 round_quo
rescale scale d = record {
  coef =
      if ltb_ℤ d.scale scale
      then d.coef *ℤ pos (exp10 (int32 (scale -ℤ d.scale)))
      else if ltb_ℤ scale d.scale
      then round_quo d.coef (exp10 (int32 (d.scale -ℤ scale)))
      else d.coef;
  scale = scale;
}

unfoldable pub digit_count : ℤ → ℕ
unfolding decimal_digits
digit_count c = if magnitude c == 0 then 1 else length (decimal_digits (magnitude c))

unfoldable pub checked : Decimal → Option Decimal
unfolding digit_count rescale
checked d =
    let excess = digit_count d.coef - max_decimal_digits in
    if ltb max_decimal_digits (digit_count d.coef)
    then if ltb_ℤ d.scale (pos excess)
      then none
      else some (rescale (int32 (d.scale -ℤ int32 (pos excess))) d)
    else some d

unfoldable pub max_scale : Decimal → Decimal → ℤ
max_scale a b = if ltb_ℤ a.scale b.scale then b.scale else a.scale

unfoldable pub align : Decimal → Decimal → ℤ × ℤ × ℤ
unfolding max_scale rescale
align a b = let s = max_scale a b in ((rescale s a).coef, (rescale s b).coef, s)

unfoldable pub cmp : Decimal → Decimal → ℤ
unfolding align cmp_ℤ
cmp d o = let (x, y, s) = align d o in cmp_ℤ x y

unfoldable pub sign : Decimal → ℤ
unfolding cmp_ℤ
sign d = cmp_ℤ d.coef (pos 0)

unfoldable pub add : Decimal → Decimal → Option Decimal
unfolding align checked ◌+ℤ◌
add d o = let (x, y, s) = align d o in checked (record { coef = x +ℤ y; scale = s })

unfoldable pub sub : Decimal → Decimal → Option Decimal
unfolding align checked
sub d o = let (x, y, s) = align d o in checked (record { coef = x -ℤ y; scale = s })

unfoldable pub mul : Decimal → Decimal → Option Decimal
unfolding checked ◌+ℤ◌
mul d o = checked (record { coef = d.coef *ℤ o.coef; scale = int32 (d.scale +ℤ o.scale) })

-- The zeros at the end of `s` fractional digits are dropped.
unfoldable pub trim_zeros : ℤ → ℕ → Decimal
unfolding quo
trim_zeros c zero = record { coef = c; scale = pos 0 }
trim_zeros c (suc s) = elim (magnitude c % 10 == 0) [
  | true ↦ trim_zeros (quo c (pos 10)) s
  | false ↦ record { coef = c; scale = pos (suc s) }
]

unfoldable pub trimmed : Decimal → Decimal
unfolding trim_zeros
trimmed d = elim d.scale [ pos s ↦ trim_zeros d.coef s | negsuc s ↦ d ]

-- The quotient with one digit more than is kept.
unfoldable pub guarded_quo : Decimal → Decimal → ℤ
unfolding quo int32 exp10 ◌+ℤ◌
guarded_quo d o =
    let k = int32 (int32 (pos (decimal_division_scale + 1) +ℤ o.scale) -ℤ d.scale) in
    if leb_ℤ (pos 0) k
    then quo (d.coef *ℤ pos (exp10 k)) o.coef
    else quo d.coef (o.coef *ℤ pos (exp10 (int32 (neg_ℤ k))))

unfoldable pub quo_decimal : Decimal → Decimal → Option Decimal
unfolding guarded_quo trimmed checked
quo_decimal d o =
    let q : Decimal = record { coef = guarded_quo d o; scale = pos (decimal_division_scale + 1) } in
    if magnitude o.coef == 0
    then none
    else checked (trimmed (rescale (pos decimal_division_scale) q))

unfoldable pub rem_decimal : Decimal → Decimal → Option Decimal
unfolding align checked rem
rem_decimal d o =
    let (x, y, s) = align d o in
    if magnitude o.coef == 0 then none else checked (record { coef = rem x y; scale = s })

unfoldable pub neg : Decimal → Decimal
neg d = record { coef = neg_ℤ d.coef; scale = d.scale }

unfoldable pub abs : Decimal → Decimal
abs d = record { coef = pos (magnitude d.coef); scale = d.scale }

unfoldable pub round : ℤ → Decimal → Decimal
unfolding rescale
round n d =
    let m = if ltb_ℤ n (pos 0) then pos 0 else n in if leb_ℤ d.scale m then d else rescale m d

-- The quotient rounded down, for a positive divisor.
unfoldable pub floor_quo : ℤ → ℤ → ℤ
unfolding quo rem
floor_quo x y = if ltb_ℤ (rem x y) (pos 0) then quo x y -ℤ pos 1 else quo x y

unfoldable pub floor : Decimal → Decimal → Option Decimal
unfolding align floor_quo checked
floor d step =
    let (x, y, s) = align d step in
    if leb_ℤ step.coef (pos 0)
    then none
    else checked (record { coef = floor_quo x y *ℤ y; scale = s })

unfoldable pub to_int64 : Decimal → Option ℤ
unfolding quo exp10
to_int64 d =
    let q = quo d.coef (pos (exp10 d.scale)) in
    if leb_ℤ (negsuc (2 ^ 63 - 1)) q && ltb_ℤ q (pos (2 ^ 63)) then some q else none
