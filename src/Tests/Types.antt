-- ===== src/Tests/Types.antt =====
-- Decimals at concrete numbers.
use gokql.Base.{◌*◌, ◌^◌, ◌-◌, ◌≡◌, refl, some, arith}
use gokql.Base.Bytes.{codes}
use gokql.Base.Int.{ℤ, pos, negsuc, ◌*ℤ◌, cmp_ℤ}
use gokql.Types.Decimal.{digit_count, checked, cmp, quo_decimal, floor}
use gokql.Types.Decimal.Text.{text, parse_decimal}
use gokql.Types.Decimal.Text.RoundTrip.{parse_decimal-text}
use gokql.Types.Decimal.Floor.{IsFloor, floor_lem}
use gokql.Types.Decimal.Order.{cmp_lem}
use gokql.Types.Decimal.Rounding.{Checked, checked_lem}

-- 1.5 and 1.50
cmp_example :
    cmp (record { coef = pos 15; scale = pos 1 }) (record { coef = pos 150; scale = pos 2 })
    ≡ cmp_ℤ (pos 15 *ℤ pos (10 ^ 2)) (pos 150 *ℤ pos (10 ^ 1))
cmp_example = cmp_lem (pos 15) (pos 150) 1 2 (omega arith) (omega arith)

-- 39 nines behind the point leave a coefficient of 39 digits.
rounded_up :
    checked (record { coef = pos (10 ^ 39 - 1); scale = pos 39 })
    ≡ some (record { coef = pos (10 ^ 38); scale = pos 38 })
unfolding checked
rounded_up = refl

checked_example :
    Checked (pos (10 ^ 39 - 1)) 39 (checked (record { coef = pos (10 ^ 39 - 1); scale = pos 39 }))
checked_example = checked_lem (pos (10 ^ 39 - 1)) 39 (omega arith)

-- 1 / -3 and the multiple of 0.5 below -1.2
divided :
    quo_decimal (record { coef = pos 1; scale = pos 0 }) (record { coef = negsuc 2; scale = pos 0 })
    ≡ some (record { coef = negsuc 3333333333333333333333333332; scale = pos 28 })
unfolding quo_decimal
divided = refl

floored :
    floor (record { coef = negsuc 11; scale = pos 1 }) (record { coef = pos 5; scale = pos 1 })
    ≡ some (record { coef = negsuc 14; scale = pos 1 })
unfolding floor
floored = refl

printed : text (record { coef = negsuc 4; scale = pos 2 }) ≡ codes "-0.05"
unfolding text
printed = refl

parsed : parse_decimal (codes " -0.05 ") ≡ some (record { coef = negsuc 4; scale = pos 2 })
unfolding parse_decimal
parsed = refl

parsed_exponent : parse_decimal (codes "1.5e3") ≡ some (record { coef = pos 1500; scale = pos 0 })
unfolding parse_decimal
parsed_exponent = refl

-- The scale 2^31 of this number does not fit 32 bits.
wrapped_scale :
    parse_decimal (codes "1e-2147483648")
    ≡ some (record { coef = pos 1; scale = negsuc 2147483647 })
unfolding parse_decimal
wrapped_scale = refl

parse_decimal-text_example :
    parse_decimal (text (record { coef = negsuc 4; scale = pos 2 }))
    ≡ some (record { coef = negsuc 4; scale = pos 2 })
unfolding digit_count
parse_decimal-text_example = parse_decimal-text (negsuc 4) 2 (omega arith) (omega arith)

-- -1.1 by steps of 0.5
floor_example :
    (q : ℤ) × (IsFloor (negsuc 10 *ℤ pos (10 ^ 0)) (5 * 10 ^ 0) q)
    × (floor (record { coef = negsuc 10; scale = pos 1 }) (record { coef = pos 5; scale = pos 1 })
        ≡ checked (record { coef = q *ℤ pos (5 * 10 ^ 0); scale = pos 1 }))
floor_example = floor_lem (negsuc 10) 4 1 1 (omega arith) (omega arith)
