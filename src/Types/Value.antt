-- ===== src/Types/Value.antt =====
-- Values of pkg/types/types.go, their conversions and `CompareValues`.
pub mod Order
pub mod Orders
pub mod Cells
use gokql.Base.{
  ℕ, ◌+◌, ◌^◌, Bool, true, false, ◌&&◌, ◌||◌, Option, none, some, List, [], ◌∷◌, if◌then◌else◌, ltb,
  ◌==◌,
}
use gokql.Base.Bytes.{Bytes}
use gokql.Base.Int.{ℤ, pos, negsuc, ltb_ℤ}
use gokql.Types.KqlType.{
  trim_space, KqlType, string, long, int, real, bool, datetime, timespan, guid, dynamic, decimal,
}
use gokql.Types.Decimal.{Decimal, int32, cmp, decimal_from_int64, to_int64}
use gokql.Types.Decimal.Text.{parse_decimal}

-- A float64: `num m` is m / 2^1074, of which each finite one is some (its two zeros are one).
pub data Real : Type 0 where
  nan neg_inf pos_inf : Real
  num : ℤ → Real

-- What an `interface{}` holds; `long_value` is an int64, `int_value` an int32.
pub data Value : Type 0 where
  null : Value
  bool_value : Bool → Value
  long_value : ℤ → Value
  int_value : ℤ → Value
  real_value : Real → Value
  string_value : Bytes → Value
  decimal_value : Decimal → Value

-- `<` of floats, which is false beside a NaN.
unfoldable pub lt_real : Real → Real → Bool
lt_real nan b = false
lt_real neg_inf nan = false
lt_real neg_inf neg_inf = false
lt_real neg_inf pos_inf = true
lt_real neg_inf (num n) = true
lt_real pos_inf b = false
lt_real (num m) nan = false
lt_real (num m) neg_inf = false
lt_real (num m) pos_inf = true
lt_real (num m) (num n) = ltb_ℤ m n

-- `<` of strings, by bytes
unfoldable pub lt_bytes : Bytes → Bytes → Bool
lt_bytes s [] = false
lt_bytes [] (d ∷ t) = true
lt_bytes (c ∷ s) (d ∷ t) =
    let rest = lt_bytes s t in if ltb c d then true else if c == d then rest else false

unfoldable pub lt_bool : Bool → Bool → Bool
lt_bool false true = true
lt_bool false false = false
lt_bool true b = false

-- -1, 0 or 1
unfoldable pub cmp_by {ℓ} : {A : Type ℓ} → (A → A → Bool) → A → A → ℤ
cmp_by lt a b = if lt a b then negsuc 0 else if lt b a then pos 1 else pos 0

-- The conversions that the language and the packages strconv and fmt define: float64 to int64, to
-- int32 and back, `ParseFloat`, `Sprintf("%v", …)`, and a float's shortest decimal.
pub record Conversions : Type 0 where
  pub int_of_real : Real → ℤ
  pub int32_of_real : Real → ℤ
  pub real_of_int : ℤ → Real
  pub parse_float : Bytes → Option Real
  pub show : Value → Bytes
  pub decimal_of_real : Real → Option Decimal
  pub real_of_decimal : Decimal → Real

unfoldable pub or_zero : Option ℤ → ℤ
or_zero none = pos 0
or_zero (some n) = n

unfoldable pub is_null : Value → Bool
is_null null = true
is_null v = false

unfoldable pub is_decimal : Value → Bool
is_decimal (decimal_value d) = true
is_decimal v = false

module _ (conv : Conversions) where
  unfoldable pub int_of_text : Bytes → ℤ
  unfolding trim_space
  int_of_text s = elim (conv.parse_float (trim_space s)) [
    | none ↦ pos 0
    | some f ↦ conv.int_of_real f
  ]

  -- `toInt64`
  unfoldable pub value_to_int64 : Value → ℤ
  unfolding or_zero int_of_text to_int64
  value_to_int64 (long_value n) = n
  value_to_int64 (int_value n) = n
  value_to_int64 (real_value f) = conv.int_of_real f
  value_to_int64 (decimal_value d) = or_zero (to_int64 d)
  value_to_int64 (string_value s) = int_of_text s
  value_to_int64 (bool_value b) = pos 0
  value_to_int64 null = pos 0

  -- `toInt32`, which wraps around where a long or a decimal does not fit
  unfoldable pub value_to_int32 : Value → ℤ
  unfolding or_zero trim_space to_int64 int32
  value_to_int32 (int_value n) = n
  value_to_int32 (long_value n) = int32 n
  value_to_int32 (real_value f) = conv.int32_of_real f
  value_to_int32 (decimal_value d) = int32 (or_zero (to_int64 d))
  value_to_int32 (string_value s) = elim (conv.parse_float (trim_space s)) [
    | none ↦ pos 0
    | some f ↦ conv.int32_of_real f
  ]
  value_to_int32 (bool_value b) = pos 0
  value_to_int32 null = pos 0

  -- `toFloat64`
  unfoldable pub value_to_float64 : Value → Real
  unfolding trim_space
  value_to_float64 (real_value f) = f
  value_to_float64 (long_value n) = conv.real_of_int n
  value_to_float64 (int_value n) = conv.real_of_int n
  value_to_float64 (decimal_value d) = conv.real_of_decimal d
  value_to_float64 (string_value s) = elim (conv.parse_float (trim_space s)) [
    | none ↦ num (pos 0)
    | some f ↦ f
  ]
  value_to_float64 (bool_value b) = num (pos 0)
  value_to_float64 null = num (pos 0)

  unfoldable pub to_decimal : Value → Option Decimal
  unfolding decimal_from_int64 parse_decimal
  to_decimal (decimal_value d) = some d
  to_decimal (long_value n) = some (decimal_from_int64 n)
  to_decimal (int_value n) = some (decimal_from_int64 n)
  to_decimal (real_value f) = conv.decimal_of_real f
  to_decimal (bool_value b) = some (decimal_from_int64 (if b then pos 1 else pos 0))
  to_decimal (string_value s) = parse_decimal s
  to_decimal null = none

  -- Strings as they are, and anything else as `Sprintf` shows it.
  unfoldable pub cmp_shown : Value → Value → ℤ
  unfolding cmp_by lt_bytes
  cmp_shown (string_value s) (string_value t) = cmp_by lt_bytes s t
  cmp_shown a b = cmp_by lt_bytes (conv.show a) (conv.show b)

  unfoldable pub cmp_bools : Value → Value → ℤ
  unfolding cmp_by lt_bytes lt_bool
  cmp_bools (bool_value a) (bool_value b) = cmp_by lt_bool a b
  cmp_bools a b = cmp_by lt_bytes (conv.show a) (conv.show b)

  -- The switch over the column's type.
  unfoldable pub cmp_typed : KqlType → Value → Value → ℤ
  unfolding cmp_by cmp_shown cmp_bools lt_real value_to_int64 value_to_int32 value_to_float64
  cmp_typed string a b = cmp_shown a b
  cmp_typed guid a b = cmp_shown a b
  cmp_typed dynamic a b = cmp_shown a b
  cmp_typed long a b = cmp_by ltb_ℤ (value_to_int64 a) (value_to_int64 b)
  cmp_typed datetime a b = cmp_by ltb_ℤ (value_to_int64 a) (value_to_int64 b)
  cmp_typed timespan a b = cmp_by ltb_ℤ (value_to_int64 a) (value_to_int64 b)
  cmp_typed int a b = cmp_by ltb_ℤ (value_to_int32 a) (value_to_int32 b)
  cmp_typed real a b = cmp_by lt_real (value_to_float64 a) (value_to_float64 b)
  cmp_typed bool a b = cmp_bools a b
  cmp_typed decimal a b = pos 0

  unfoldable pub is_decimal_type : KqlType → Bool
  is_decimal_type decimal = true
  is_decimal_type t = false

  -- Neither value is null.
  unfoldable pub cmp_present : KqlType → Value → Value → ℤ
  unfolding is_decimal is_decimal_type to_decimal cmp cmp_typed
  cmp_present t a b =
      if is_decimal a || is_decimal b || is_decimal_type t
      then elim (to_decimal a) [
        | none ↦ cmp_typed t a b
        | some x ↦ elim (to_decimal b) [ none ↦ cmp_typed t a b | some y ↦ cmp x y ]
      ]
      else cmp_typed t a b

  unfoldable pub compare_values : KqlType → Value → Value → ℤ
  unfolding cmp_present is_null
  compare_values t a b =
      if is_null a && is_null b
      then pos 0
      else if is_null a
      then negsuc 0
      else if is_null b
      then pos 1
      else cmp_present t a b
