-- ===== src/Types/Timespan/Agree.antt =====
-- The two printers of timespans agree where the first does not overflow.
use gokql.Base.{
  ℕ, suc, ◌+◌, ◌*◌, ◌/◌, ◌%◌, ◌^◌, ◌≤◌, ◌<◌, ◌≡◌, refl, Bool, true, false, [], ◌∷◌, ◌++◌,
  if◌then◌else◌, arith,
}
use mathlib.Core.List.{append_assoc}
use gokql.Base.Bytes.{Bytes}
use gokql.Base.Int.{ℤ, pos, negsuc, neg_ℤ, ◌*ℤ◌, quo, rem, ltb_ℤ, magnitude}
use gokql.Functions.Bin.{int64}
use gokql.Types.Timespan.{
  show_padded, clock, nanos_text, ticks_text, format_timespan, format_timespan_tostring,
}

hundred : (n : ℕ) → suc n * 100 ≡ suc (n * 100 + 99)
hundred n = omega arith

int64-negsuc : (y : ℕ) → y < 2 ^ 63 → int64 (negsuc y) ≡ negsuc y
unfolding int64
int64-negsuc y h = ground arith

int64-pos : (y : ℕ) → y < 2 ^ 63 → int64 (pos y) ≡ pos y
unfolding int64
int64-pos y h = ground arith

negative_product :
    (n : ℕ) → suc n ≤ 92233720368547758 → int64 (negsuc n *ℤ pos 100) ≡ negsuc (n * 100 + 99)
unfolding ◌*ℤ◌
negative_product n h = rw (hundred n) (int64-negsuc (n * 100 + 99) (omega (arith, h)))

positive_product : (n : ℕ) → n ≤ 92233720368547758 → int64 (pos n *ℤ pos 100) ≡ pos (n * 100)
unfolding ◌*ℤ◌
positive_product n h = int64-pos (n * 100) (omega (arith, h))

not_below_zero : (y : ℕ) → ltb_ℤ (pos y) (pos 0) ≡ false
not_below_zero y = ground arith

below_zero : (y : ℕ) → ltb_ℤ (negsuc y) (pos 0) ≡ true
below_zero y = ground arith

product_sign :
    (ticks : ℤ)
    → magnitude ticks ≤ 92233720368547758
    → ltb_ℤ (int64 (ticks *ℤ pos 100)) (pos 0) ≡ ltb_ℤ ticks (pos 0)
product_sign (pos n) h = rw (positive_product n h, not_below_zero (n * 100), not_below_zero n) refl
product_sign (negsuc n) h = rw (negative_product n h, below_zero (n * 100 + 99), below_zero n) refl

nanos_lem :
    (ticks : ℤ)
    → magnitude ticks ≤ 92233720368547758
    → (if ltb_ℤ (int64 (ticks *ℤ pos 100)) (pos 0)
        then int64 (neg_ℤ (int64 (ticks *ℤ pos 100)))
        else int64 (ticks *ℤ pos 100))
      ≡ pos (magnitude ticks * 100)
nanos_lem (pos n) h = rw (positive_product n h, not_below_zero (n * 100)) refl
nanos_lem (negsuc n) h =
    rw (negative_product n h, below_zero (n * 100 + 99), hundred n)
      (int64-pos (suc (n * 100 + 99)) (omega (arith, h)))

ticks_lem :
    (ticks : ℤ)
    → magnitude ticks ≤ 92233720368547758
    → (if ltb_ℤ ticks (pos 0) then int64 (neg_ℤ ticks) else ticks) ≡ pos (magnitude ticks)
unfolding int64
ticks_lem (pos n) h = ground arith
ticks_lem (negsuc n) h = ground arith

same_secs : (m : ℕ) → m * 100 / 1000000000 ≡ m / 10000000
same_secs m = omega arith

same_frac : (m : ℕ) → m * 100 % 1000000000 / 100 ≡ m % 10000000
same_frac m = omega arith

same_hours : (x : ℕ) → x % 86400 / 3600 ≡ x / 3600 % 24
same_hours x = omega arith

same_mins : (x : ℕ) → x % 3600 / 60 ≡ x / 60 % 60
same_mins x = omega arith

has_frac : (m : ℕ) → ltb_ℤ (pos 0) (pos (m * 100 % 1000000000)) ≡ ltb_ℤ (pos 0) (pos (m % 10000000))
has_frac m = ground arith

-- The texts of one sign, with or without days and a fraction.
same_text :
    (negative has_days has_part : Bool) (days time part : Bytes)
    → (let s = if has_days then days ++ b'.' ∷ time else time in
        let t = if has_part then s ++ b'.' ∷ part else s in if negative then b'-' ∷ t else t)
      ≡ (let sign = if negative then b'-' ∷ [] else [] in
          let out = (if has_days then sign ++ days ++ b'.' ∷ [] else sign) ++ time in
          if has_part then out ++ b'.' ∷ part else out)
same_text true true true days time part = rw (append_assoc days (b'.' ∷ []) time) refl
same_text true true false days time part = rw (append_assoc days (b'.' ∷ []) time) refl
same_text true false true days time part = refl
same_text true false false days time part = refl
same_text false true true days time part = rw (append_assoc days (b'.' ∷ []) time) refl
same_text false true false days time part = rw (append_assoc days (b'.' ∷ []) time) refl
same_text false false true days time part = refl
same_text false false false days time part = refl

same_parts :
    (negative : Bool) (m : ℕ) → nanos_text negative (pos (m * 100)) ≡ ticks_text negative (pos m)
unfolding nanos_text ticks_text quo rem
same_parts negative m =
    rw (has_frac m, same_frac m, same_secs m, same_hours (m / 10000000), same_mins (m / 10000000))
      (same_text negative (ltb_ℤ (pos 0) (pos (m / 10000000 / 86400)))
        (ltb_ℤ (pos 0) (pos (m % 10000000))) (show_padded 0 (pos (m / 10000000 / 86400)))
        (clock (pos (m / 10000000 / 3600 % 24)) (pos (m / 10000000 / 60 % 60))
          (pos (m / 10000000 % 60)))
        (show_padded 7 (pos (m % 10000000))))

-- Where a hundred times the ticks fits an int64, FormatValue and formatTimespanTostring print a
-- timespan the same.
pub format_timespan_lem :
    (ticks : ℤ)
    → magnitude ticks ≤ 92233720368547758
    → format_timespan ticks ≡ format_timespan_tostring ticks
unfolding format_timespan format_timespan_tostring
format_timespan_lem ticks h =
    rw
      (
        format_timespan,
        format_timespan_tostring,
        nanos_lem ticks h,
        product_sign ticks h,
        ticks_lem ticks h,
      )
      (same_parts (ltb_ℤ ticks (pos 0)) (magnitude ticks))
