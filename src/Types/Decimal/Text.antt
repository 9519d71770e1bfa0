-- ===== src/Types/Decimal/Text.antt =====
-- pkg/types/decimal.go: `String` and `ParseDecimal`.
pub mod Digits
pub mod RoundTrip
use gokql.Base.{
  ℕ, zero, suc, ◌+◌, ◌-◌, ◌*◌, ◌^◌, Bool, true, false, ◌&&◌, ◌||◌, Option, none, some, [], ◌∷◌,
  ◌++◌, if◌then◌else◌, leb, ltb, ◌==◌, length, take, drop, replicate,
}
use gokql.Base.Bytes.{Bytes}
use gokql.Base.Int.{ℤ, pos, negsuc, magnitude, neg_ℤ, ◌-ℤ◌}
use gokql.Types.KqlType.{trim_space}
use gokql.Types.Decimal.{Decimal, int32, decimal_digits, checked}

-- The digits, with at least one before the point, which stands before the last `s`.
unfoldable pub with_point : ℕ → Bytes → Bytes
with_point s digits =
    let padded = replicate (s + 1 - length digits) b'0' ++ digits in
    let cut = length padded - s in take cut padded ++ b'.' ∷ drop cut padded

unfoldable pub text : Decimal → Bytes
unfolding decimal_digits with_point
text d =
    let digits = decimal_digits (magnitude d.coef) in
    let shown : Bytes = elim d.scale [
      | pos zero ↦ digits
      | pos (suc s) ↦ with_point (suc s) digits
      | negsuc s ↦ digits
    ] in
    elim d.coef [ pos n ↦ shown | negsuc n ↦ b'-' ∷ shown ]

-- What stands before the first byte of the kind, and what stands behind it.
unfoldable pub split_at : (ℕ → Bool) → Bytes → Option (Bytes × Bytes)
split_at p [] = none
split_at p (c ∷ s) = elim (p c) [
  | true ↦ some ([], s)
  | false ↦ elim (split_at p s) [ none ↦ none | some (a, b) ↦ some (c ∷ a, b) ]
]

-- The number of decimal digits, behind `acc`; none for another byte.
unfoldable pub read_digits : ℕ → Bytes → Option ℕ
read_digits acc [] = some acc
read_digits acc (c ∷ s) = elim (leb b'0' c && leb c b'9') [
  | true ↦ read_digits (acc * 10 + (c - b'0')) s
  | false ↦ none
]

-- The same, with one digit at least.
unfoldable pub read_number : Bytes → Option ℕ
unfolding read_digits
read_number [] = none
read_number (c ∷ s) = read_digits 0 (c ∷ s)

unfoldable pub strip_sign : Bytes → Bool × Bytes
strip_sign [] = (false, [])
strip_sign (c ∷ s) =
    if c == b'-' then (true, s) else if c == b'+' then (false, s) else (false, c ∷ s)

-- `ParseInt(s, 10, 32)` of strconv.
unfoldable pub parse_int32 : Bytes → Option ℤ
unfolding strip_sign read_number
parse_int32 s =
    let (negative, digits) = strip_sign s in
    elim (read_number digits) [
      | none ↦ none
      | some n ↦
          if negative
          then if leb n (2 ^ 31) then some (neg_ℤ (pos n)) else none
          else if ltb n (2 ^ 31)
          then some (pos n)
          else none
    ]

unfoldable pub is_exponent_mark : ℕ → Bool
is_exponent_mark c = c == b'e' || c == b'E'

unfoldable pub is_point : ℕ → Bool
is_point c = c == b'.'

-- The decimal of a digit string with `places` of it fractional and an exponent.
unfoldable pub scaled : Bool → ℕ → ℕ → ℤ → Option Decimal
unfolding int32 checked ◌-ℤ◌
scaled negative n places exp =
    let sgn = λ (m : ℕ). if negative then neg_ℤ (pos m) else pos m in
    elim (pos places -ℤ exp) [
      | pos s ↦ checked (record { coef = sgn n; scale = int32 (pos s) })
      | negsuc s ↦ checked (record { coef = sgn (n * 10 ^ suc s); scale = pos 0 })
    ]

-- The digits before the point and those behind it.
unfoldable pub split_point : Bytes → Bytes × Bytes
unfolding split_at is_point
split_point s = elim (split_at is_point s) [ none ↦ (s, []) | some p ↦ p ]

unfoldable pub read_parts : Bool → ℤ → Bytes × Bytes → Option Decimal
unfolding read_number scaled
read_parts negative exp (int_part, frac) = elim (read_number (int_part ++ frac)) [
  | none ↦ none
  | some n ↦ scaled negative n (length frac) exp
]

-- Sign, digits and fraction, before the exponent.
unfoldable pub parse_mantissa : ℤ → Bytes → Option Decimal
unfolding strip_sign split_point read_parts
parse_mantissa exp s =
    let (negative, body) = strip_sign s in read_parts negative exp (split_point body)

unfoldable pub parse_trimmed : Bytes → Option Decimal
unfolding split_at parse_int32 parse_mantissa is_exponent_mark
parse_trimmed s = elim (split_at is_exponent_mark s) [
  | none ↦ parse_mantissa (pos 0) s
  | some (mantissa, exponent) ↦ elim (parse_int32 exponent) [
    | none ↦ none
    | some exp ↦ parse_mantissa exp mantissa
  ]
]

unfoldable pub parse_decimal : Bytes → Option Decimal
unfolding trim_space parse_trimmed
parse_decimal src = parse_trimmed (trim_space src)
