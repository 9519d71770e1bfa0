-- ===== src/Types/Value/Cells.antt =====
-- The values that a column of a type holds, and the order of `CompareValues` on them.
use gokql.Base.{zero, suc, ◌≡◌, ◌⊎◌, refl, inl, inr, true, false, arith}
use gokql.Base.Int.{ℤ, pos, negsuc, neg_ℤ, ◌≤ℤ◌, ltb_ℤ}
use gokql.Types.KqlType.{
  KqlType, string, long, int, real, bool, datetime, timespan, guid, dynamic, decimal,
}
use gokql.Types.Value.{
  Value, null, bool_value, long_value, int_value, real_value, string_value, decimal_value,
  Conversions, cmp_by, lt_real, lt_bytes, lt_bool, is_null, is_decimal, is_decimal_type, to_decimal,
  cmp_typed, cmp_present, compare_values, cmp_shown, cmp_bools, value_to_int64, value_to_int32,
  value_to_float64,
}
use gokql.Types.Value.Order.{IsOrdering, IsOrdering-nulls, IsOrdering-same, cmp_by-IsOrdering}
use gokql.Types.Value.Orders.{
  Any, IsNumber, IsScaled, ltb_ℤ-IsStrictWeak, lt_bool-IsStrictWeak, lt_bytes-IsStrictWeak,
  lt_real-IsStrictWeak, cmp-IsOrdering,
}

-- A value of one Go type, with `P` of what it holds.
abbrev pub Holds : {A : Type 0} → (A → Type 0) → (A → Value) → Value → Type 0
Holds {A} P con v = (x : A) × P x × (v ≡ con x)

-- What a column of the type holds where it is not null; a NaN is no number.
abbrev pub IsPresent : KqlType → Value → Type 0
IsPresent string = Holds Any string_value
IsPresent guid = Holds Any string_value
IsPresent dynamic = Holds Any string_value
IsPresent long = Holds Any long_value
IsPresent datetime = Holds Any long_value
IsPresent timespan = Holds Any long_value
IsPresent int = Holds Any int_value
IsPresent real = Holds IsNumber real_value
IsPresent bool = Holds Any bool_value
IsPresent decimal = Holds IsScaled decimal_value

abbrev pub IsCell : KqlType → Value → Type 0
IsCell t v = (v ≡ null) ⊎ IsPresent t v

IsOrdering-Holds :
    {A : Type 0} (P : A → Type 0) (con : A → Value) (c : A → A → ℤ) (d : Value → Value → ℤ)
    → ((x y : A) → d (con x) (con y) ≡ c x y)
    → IsOrdering P c
    → IsOrdering (Holds P con) d
IsOrdering-Holds P con c d same o = record {
  flip = λ a b pa pb. flip_held a b pa pb;
  trans = λ a b e pa pb pe. trans_held a b e pa pb pe;
}
  where
    flip_held : (a b : Value) → Holds P con a → Holds P con b → d b a ≡ neg_ℤ (d a b)
    flip_held a b (x, px, ex) (y, py, ey) = rw (ex, ey, same y x, same x y) (o.flip x y px py)

    trans_held :
        (a b e : Value)
        → Holds P con a
        → Holds P con b
        → Holds P con e
        → d a b ≤ℤ pos 0
        → d b e ≤ℤ pos 0
        → d a e ≤ℤ pos 0
    trans_held a b e (x, px, ex) (y, py, ey) (z, pz, ez) h k =
        rw (ex, ez, same x z)
          (o.trans x y z px py pz (rw (ex, ey, same x y) at h) (rw (ey, ez, same y z) at k))

positive_or_not : (a : ℤ) → (pos 1 ≤ℤ a) ⊎ (a ≤ℤ pos 0)
positive_or_not (pos zero) = inr (omega arith)
positive_or_not (pos (suc n)) = inl (omega arith)
positive_or_not (negsuc n) = inr (omega arith)

module _ (conv : Conversions) where
  texts : IsOrdering Any (cmp_by lt_bytes)
  texts = cmp_by-IsOrdering Any lt_bytes lt_bytes-IsStrictWeak

  integers : IsOrdering Any (cmp_by ltb_ℤ)
  integers = cmp_by-IsOrdering Any ltb_ℤ ltb_ℤ-IsStrictWeak

  pub cmp_present-IsOrdering : (t : KqlType) → IsOrdering (IsPresent t) (cmp_present conv t)
  unfolding cmp_present cmp_typed cmp_shown cmp_bools value_to_int64 value_to_int32 value_to_float64
      is_decimal is_decimal_type to_decimal
  cmp_present-IsOrdering string = IsOrdering-Holds Any string_value _ _ (λ x y. refl) texts
  cmp_present-IsOrdering guid = IsOrdering-Holds Any string_value _ _ (λ x y. refl) texts
  cmp_present-IsOrdering dynamic = IsOrdering-Holds Any string_value _ _ (λ x y. refl) texts
  cmp_present-IsOrdering long = IsOrdering-Holds Any long_value _ _ (λ x y. refl) integers
  cmp_present-IsOrdering datetime = IsOrdering-Holds Any long_value _ _ (λ x y. refl) integers
  cmp_present-IsOrdering timespan = IsOrdering-Holds Any long_value _ _ (λ x y. refl) integers
  cmp_present-IsOrdering int = IsOrdering-Holds Any int_value _ _ (λ x y. refl) integers
  cmp_present-IsOrdering real =
      IsOrdering-Holds IsNumber real_value _ _ (λ x y. refl)
        (cmp_by-IsOrdering IsNumber lt_real lt_real-IsStrictWeak)
  cmp_present-IsOrdering bool =
      IsOrdering-Holds Any bool_value _ _ (λ x y. refl)
        (cmp_by-IsOrdering Any lt_bool lt_bool-IsStrictWeak)
  cmp_present-IsOrdering decimal =
      IsOrdering-Holds IsScaled decimal_value _ _ (λ x y. refl) cmp-IsOrdering

  Holds-not_null :
      {A : Type 0} (P : A → Type 0) (con : A → Value)
      → ((x : A) → is_null (con x) ≡ false)
      → (v : Value) → Holds P con v
      → is_null v ≡ false
  Holds-not_null P con f v (x, p, e) = rw e (f x)

  pub IsPresent-not_null : (t : KqlType) (v : Value) → IsPresent t v → is_null v ≡ false
  unfolding is_null
  IsPresent-not_null string = Holds-not_null Any string_value (λ x. refl)
  IsPresent-not_null guid = Holds-not_null Any string_value (λ x. refl)
  IsPresent-not_null dynamic = Holds-not_null Any string_value (λ x. refl)
  IsPresent-not_null long = Holds-not_null Any long_value (λ x. refl)
  IsPresent-not_null datetime = Holds-not_null Any long_value (λ x. refl)
  IsPresent-not_null timespan = Holds-not_null Any long_value (λ x. refl)
  IsPresent-not_null int = Holds-not_null Any int_value (λ x. refl)
  IsPresent-not_null real = Holds-not_null IsNumber real_value (λ x. refl)
  IsPresent-not_null bool = Holds-not_null Any bool_value (λ x. refl)
  IsPresent-not_null decimal = Holds-not_null IsScaled decimal_value (λ x. refl)

  pub two_nulls :
      (t : KqlType) (a b : Value) → a ≡ null → b ≡ null → compare_values conv t a b ≡ pos 0
  unfolding compare_values is_null
  two_nulls t a b ea eb = rw (ea, eb) refl

  pub null_first :
      (t : KqlType) (a b : Value) → a ≡ null → IsPresent t b → compare_values conv t a b ≡ negsuc 0
  unfolding compare_values is_null
  null_first t a b ea pb = rw (ea, compare_values, IsPresent-not_null t b pb) refl

  pub null_second :
      (t : KqlType) (a b : Value) → IsPresent t a → b ≡ null → compare_values conv t a b ≡ pos 1
  unfolding compare_values is_null
  null_second t a b pa eb = rw (eb, compare_values, IsPresent-not_null t a pa) refl

  pub both_present :
      (t : KqlType) (a b : Value)
      → IsPresent t a
      → IsPresent t b
      → compare_values conv t a b ≡ cmp_present conv t a b
  unfolding compare_values
  both_present t a b pa pb =
      rw (compare_values, IsPresent-not_null t a pa, IsPresent-not_null t b pb) refl

  pub compare_values-IsOrdering : (t : KqlType) → IsOrdering (IsCell t) (compare_values conv t)
  compare_values-IsOrdering t =
      IsOrdering-nulls (λ v. v ≡ null) (IsPresent t) (compare_values conv t) true
        (IsOrdering-same (IsPresent t) (cmp_present conv t) (compare_values conv t) (both_present t)
          (cmp_present-IsOrdering t))
        (two_nulls t) (null_first t) (null_second t)

  -- On the cells of a column, NaN excluded, and whatever the conversions of the language are,
  -- `CompareValues` changes its sign with the order of its arguments, and is transitive: where it is
  -- positive neither on the first two of three cells nor on the last two, it is not positive on the
  -- first and the last.
  pub compare_values_lem :
      (t : KqlType) (a b d : Value)
      → IsCell t a
      → IsCell t b
      → IsCell t d
      → (compare_values conv t b a ≡ neg_ℤ (compare_values conv t a b))
        × ((pos 1 ≤ℤ compare_values conv t a b)
            ⊎ (pos 1 ≤ℤ compare_values conv t b d)
            ⊎ (compare_values conv t a d ≤ℤ pos 0))
  compare_values_lem t a b d pa pb pd =
      let o = compare_values-IsOrdering t in
      (
        o.flip a b pa pb,
        elim (positive_or_not (compare_values conv t a b)) [
          | inl above ↦ inl above
          | inr h ↦ elim (positive_or_not (compare_values conv t b d)) [
            | inl above ↦ inr (inl above)
            | inr k ↦ inr (inr (o.trans a b d pa pb pd h k))
          ]
        ],
      )
