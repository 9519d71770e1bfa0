-- ===== src/Types/Decimal/Text/RoundTrip.antt =====
-- The text of a decimal is read back as that decimal.
use mathlib.Core.Path.{subst}
use mathlib.Core.List.{append-nil}
use gokql.Base.{
  ℕ, zero, suc, ◌+◌, ◌-◌, ◌^◌, ◌≤◌, ◌<◌, ◌≡◌, refl, ap, ◌∙◌, Bool, true, false, some, [], ◌∷◌, ◌++◌,
  if◌then◌else◌, length, take, drop, replicate, All, All-append, arith, length-append,
  length-replicate,
}
use gokql.Base.Bytes.{Bytes}
use gokql.Base.Int.{ℤ, pos, negsuc, neg_ℤ, ◌-ℤ◌}
use gokql.Types.Decimal.{decimal_digits, digit_count}
use gokql.Types.Decimal.Order.{int32-small}
use gokql.Types.Decimal.Rounding.{checked-fits}
use gokql.Types.Decimal.Text.{
  with_point, text, read_digits, strip_sign, split_point, read_parts, scaled, is_point,
  is_exponent_mark, parse_mantissa, parse_trimmed, parse_decimal,
}
use gokql.Types.Decimal.Text.Digits.{
  IsDigit, IsPlain, replicate-All, read-zeros, read_number-nonempty, decimal_digits-All,
  read-decimal_digits, first-IsDigit, digits-IsPlain, digits-no_point, plain-no_mark, split_at-none,
  split_at-here, trim_space-plain, All-split, take-drop, length-drop, decimal_digits-nonempty,
}

read-parts :
    (negative : Bool) (n : ℕ) (a b : Bytes)
    → 0 < length (a ++ b)
    → read_digits 0 (a ++ b) ≡ some n
    → read_parts negative (pos 0) (a, b) ≡ scaled negative n (length b) (pos 0)
unfolding read_parts
read-parts negative n a b long value =
    rw (read_parts, read_number-nonempty (a ++ b) long, value) refl

-- A text without a sign that is read as `n` with `s` fractional digits.
abbrev IsTextOf : ℕ → ℕ → Bytes → Type 0
IsTextOf n s shown =
    (c : ℕ) × (rest : Bytes) × (shown ≡ c ∷ rest)
    × (IsDigit c)
    × (All IsPlain shown)
    × ((negative : Bool)
        → read_parts negative (pos 0) (split_point shown) ≡ scaled negative n s (pos 0))

whole-IsTextOf : (n : ℕ) → IsTextOf n 0 (decimal_digits n)
unfolding split_point
whole-IsTextOf n =
    let ds = decimal_digits n in
    let digits = decimal_digits-All n in
    let (c, rest, e, d) = first-IsDigit ds (decimal_digits-nonempty n) digits in
    let split : split_point ds ≡ (ds, []) =
      rw (split_point, split_at-none is_point ds (digits-no_point ds digits)) refl in
    let len : 0 < length (ds ++ []) =
      omega (arith, length-append ds [], decimal_digits-nonempty n) in
    let value : read_digits 0 (ds ++ []) ≡ some n =
      ap (read_digits 0) (append-nil ds) ∙ read-decimal_digits n in
    (
      c,
      rest,
      e,
      d,
      digits-IsPlain ds digits,
      λ negative. ap (read_parts negative (pos 0)) split ∙ read-parts negative n ds [] len value,
    )

point-IsTextOf :
    (n : ℕ) (a b : Bytes)
    → 0 < length a
    → All IsDigit a
    → All IsDigit b
    → read_digits 0 (a ++ b) ≡ some n
    → IsTextOf n (length b) (a ++ b'.' ∷ b)
unfolding split_point
point-IsTextOf n a b long whole frac value =
    let (c, rest, e, d) = first-IsDigit a long whole in
    let len : 0 < length (a ++ b) = omega (arith, length-append a b) in
    let split : split_point (a ++ b'.' ∷ b) ≡ (a, b) =
      rw (split_point, split_at-here is_point a b b'.' (digits-no_point a whole) refl) refl in
    (
      c,
      rest ++ b'.' ∷ b,
      ap (λ x. x ++ b'.' ∷ b) e,
      d,
      All-append IsPlain a (b'.' ∷ b) (digits-IsPlain a whole)
          ((omega arith, omega arith), digits-IsPlain b frac),
      λ negative. ap (read_parts negative (pos 0)) split ∙ read-parts negative n a b len value,
    )

with_point-IsTextOf : (n s : ℕ) → IsTextOf n (suc s) (with_point (suc s) (decimal_digits n))
unfolding with_point
with_point-IsTextOf n s =
    let ds = decimal_digits n in
    let zeros = replicate (suc s + 1 - length ds) b'0' in
    let padded = zeros ++ ds in
    let cut = length padded - suc s in
    let len : suc s + 1 ≤ length padded =
      omega
        (arith, length-append zeros ds, length-replicate {A = ℕ} (suc s + 1 - length ds) b'0') in
    let digits : All IsDigit padded =
      All-append IsDigit zeros ds (replicate-All (suc s + 1 - length ds)) (decimal_digits-All n) in
    let (whole, frac) = All-split IsDigit cut padded digits in
    let places : length (drop cut padded) ≡ suc s = omega (arith, length-drop cut padded) in
    let value : read_digits 0 (take cut padded ++ drop cut padded) ≡ some n =
      ap (read_digits 0) (take-drop cut padded)
      ∙ read-zeros (suc s + 1 - length ds) ds
      ∙ read-decimal_digits n in
    subst (λ m. IsTextOf n m (take cut padded ++ b'.' ∷ drop cut padded)) places
      (point-IsTextOf n (take cut padded) (drop cut padded)
        (omega (
          arith,
          len,
          places,
          length-append (take cut padded) (drop cut padded),
          ap length (take-drop cut padded),
        ))
        whole frac value)

parse-plain : (s : Bytes) → All IsPlain s → parse_decimal s ≡ parse_mantissa (pos 0) s
unfolding parse_decimal parse_trimmed
parse-plain s plain =
    ap parse_trimmed (trim_space-plain s plain)
    ∙ rw (parse_trimmed, split_at-none is_exponent_mark s (plain-no_mark s plain)) refl

parse-unsigned :
    (n s : ℕ) (shown : Bytes) → IsTextOf n s shown → parse_decimal shown ≡ scaled false n s (pos 0)
unfolding parse_mantissa strip_sign
parse-unsigned n s shown (c, rest, e, d, plain, read) =
    let sgn : strip_sign shown ≡ (false, shown) = rw e (ground arith) in
    parse-plain shown plain
    ∙ ap (λ (r : Bool × Bytes). read_parts r.0 (pos 0) (split_point r.1)) sgn
    ∙ read false

parse-signed :
    (n s : ℕ) (shown : Bytes)
    → IsTextOf n s shown
    → parse_decimal (b'-' ∷ shown) ≡ scaled true n s (pos 0)
unfolding parse_mantissa strip_sign
parse-signed n s shown (c, rest, e, d, plain, read) =
    parse-plain (b'-' ∷ shown) ((omega arith, omega arith), plain) ∙ read true

abbrev with_sign : Bool → ℕ → ℤ
with_sign negative n = if negative then neg_ℤ (pos n) else pos n

scaled-fits :
    (negative : Bool) (n s : ℕ)
    → s < 2 ^ 31
    → digit_count (with_sign negative n) ≤ 38
    → scaled negative n s (pos 0) ≡ some (record { coef = with_sign negative n; scale = pos s })
unfolding scaled ◌-ℤ◌
scaled-fits negative n s small fits =
    let d : pos s -ℤ pos 0 ≡ pos s = ground arith in
    rw (scaled, d, int32-small s small) (checked-fits (with_sign negative n) s fits)

-- A decimal of at most 38 digits and a scale below 2^31 is printed to a text that is parsed as the
-- same coefficient and scale.
pub parse_decimal-text :
    (c : ℤ) (s : ℕ)
    → s < 2 ^ 31
    → digit_count c ≤ 38
    → parse_decimal (text (record { coef = c; scale = pos s }))
      ≡ some (record { coef = c; scale = pos s })
unfolding text
parse_decimal-text (pos n) zero small fits =
    parse-unsigned n 0 _ (whole-IsTextOf n) ∙ scaled-fits false n 0 small fits
parse_decimal-text (pos n) (suc s) small fits =
    parse-unsigned n (suc s) _ (with_point-IsTextOf n s) ∙ scaled-fits false n (suc s) small fits
parse_decimal-text (negsuc n) zero small fits =
    parse-signed (suc n) 0 _ (whole-IsTextOf (suc n)) ∙ scaled-fits true (suc n) 0 small fits
parse_decimal-text (negsuc n) (suc s) small fits =
    parse-signed (suc n) (suc s) _ (with_point-IsTextOf (suc n) s)
    ∙ scaled-fits true (suc n) (suc s) small fits
