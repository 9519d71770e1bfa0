-- ===== src/Tests/Plain.antt =====
-- A plain instance of the conversions, for runs.
use gokql.Base.{none, []}
use gokql.Base.Int.{ℤ, pos}
use gokql.Types.Value.{Real, num, Conversions}

abbrev whole : Real → ℤ
whole (num n) = n
whole x = pos 0

-- Conversions that keep whole numbers and read no text.
abbrev pub plain : Conversions
plain = record {
  int_of_real = whole;
  int32_of_real = whole;
  real_of_int = num;
  parse_float = λ s. none;
  show = λ v. [];
  decimal_of_real = λ x. none;
  real_of_decimal = λ d. num (pos 0);
}
