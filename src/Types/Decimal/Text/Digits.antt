-- ===== src/Types/Decimal/Text/Digits.antt =====
-- The bytes that a decimal is written with: digits are read back, and no byte of them is a space, a
-- point or an exponent mark.
use mathlib.Core.List.{reverse, reverse_aux, reverse-reverse}
use gokql.Base.{
  ℕ, zero, suc, ◌+◌, ◌-◌, ◌*◌, ◌/◌, ◌%◌, ◌≤◌, ◌<◌, ◌≡◌, refl, ap, ◌∙◌, inl, inr, Bool, true, false,
  ◌&&◌, none, some, [], ◌∷◌, ◌++◌, ltb, leb, length, take, drop, replicate, All, All-imp, arith,
  Bool-cases,
}
use gokql.Base.Bytes.{Bytes}
use gokql.Types.KqlType.{trim_space, trim_left, is_space}
use gokql.Types.Decimal.{digits_before, decimal_digits}
use gokql.Types.Decimal.Text.{split_at, read_digits, read_number, is_point, is_exponent_mark}

abbrev pub IsDigit : ℕ → Type 0
IsDigit c = (48 ≤ c) × (c ≤ 57)

-- A byte of a decimal's text.
abbrev pub IsPlain : ℕ → Type 0
IsPlain c = (43 ≤ c) × (c ≤ 57)

pub digits_before-All :
    (fuel n : ℕ) (tail : Bytes) → All IsDigit tail → All IsDigit (digits_before fuel n tail)
unfolding digits_before
digits_before-All zero n tail h = h
digits_before-All (suc fuel) n tail h = elim (Bool-cases (ltb n 10)) [
  | inl small ↦ rw (small, digits_before) (ground arith, h)
  | inr large ↦
      rw (large, digits_before)
        (digits_before-All fuel (n / 10) ((b'0' + n % 10) ∷ tail) ((omega arith, omega arith), h))
]

pub replicate-All : (k : ℕ) → All IsDigit (replicate k b'0')
replicate-All zero = tt
replicate-All (suc k) = ((omega arith, omega arith), replicate-All k)

pub read-digit :
    (acc d m : ℕ) (s : Bytes)
    → d < 10
    → acc * 10 + d ≡ m
    → read_digits acc ((b'0' + d) ∷ s) ≡ read_digits m s
unfolding read_digits
read-digit acc d m s h e =
    let t : (leb b'0' (b'0' + d) && leb (b'0' + d) b'9') ≡ true = ground arith in
    let v : acc * 10 + (b'0' + d - b'0') ≡ m = omega arith in rw (read_digits, t, v) refl

pub read-digits_before :
    (fuel n : ℕ) (tail : Bytes)
    → n < fuel
    → read_digits 0 (digits_before fuel n tail) ≡ read_digits n tail
unfolding digits_before
read-digits_before zero n tail h = absurd (omega arith)
read-digits_before (suc fuel) n tail h = elim (Bool-cases (ltb n 10)) [
  | inl small ↦ rw (small, digits_before) (read-digit 0 n n tail (ground arith) (omega arith))
  | inr large ↦
      let large' : 10 ≤ n = ground arith in
      rw (large, digits_before)
        (read-digits_before fuel (n / 10) ((b'0' + n % 10) ∷ tail) (omega arith)
          ∙ read-digit (n / 10) (n % 10) n tail (omega arith) (omega arith))
]

pub read-zeros : (k : ℕ) (s : Bytes) → read_digits 0 (replicate k b'0' ++ s) ≡ read_digits 0 s
unfolding read_digits
read-zeros zero s = refl
read-zeros (suc k) s = read-zeros k s

pub split_at-none : (p : ℕ → Bool) (s : Bytes) → All (λ c. p c ≡ false) s → split_at p s ≡ none
unfolding split_at
split_at-none p [] h = refl
split_at-none p (c ∷ s) h = rw (split_at, h.0, split_at-none p s h.1) refl

pub split_at-here :
    (p : ℕ → Bool) (a b : Bytes) (c : ℕ)
    → All (λ d. p d ≡ false) a
    → p c ≡ true
    → split_at p (a ++ c ∷ b) ≡ some (a, b)
unfolding split_at
split_at-here p [] b c h e = rw (split_at, e) refl
split_at-here p (x ∷ a) b c h e = rw (split_at, h.0, split_at-here p a b c h.1 e) refl

pub trim_left-plain : (s : Bytes) → All IsPlain s → trim_left s ≡ s
unfolding trim_left is_space
trim_left-plain [] h = refl
trim_left-plain (c ∷ s) h = let e : is_space c ≡ false = ground arith in rw (trim_left, e) refl

pub reverse_aux-All : (P : ℕ → Type 0) (s r : Bytes) → All P s → All P r → All P (reverse_aux s r)
reverse_aux-All P [] r h k = k
reverse_aux-All P (c ∷ s) r h k = reverse_aux-All P s (c ∷ r) h.1 (h.0, k)

pub trim_space-plain : (s : Bytes) → All IsPlain s → trim_space s ≡ s
unfolding trim_space
trim_space-plain s h =
    ap (λ x. reverse (trim_left (reverse x))) (trim_left-plain s h)
    ∙ ap reverse (trim_left-plain (reverse s) (reverse_aux-All IsPlain s [] h tt))
    ∙ reverse-reverse s

pub All-split : (P : ℕ → Type 0) (n : ℕ) (s : Bytes) → All P s → All P (take n s) × All P (drop n s)
All-split P zero s h = (tt, h)
All-split P (suc n) [] h = (tt, tt)
All-split P (suc n) (c ∷ s) h = let (a, b) = All-split P n s h.1 in ((h.0, a), b)

pub take-drop : (n : ℕ) (s : Bytes) → take n s ++ drop n s ≡ s
take-drop zero s = refl
take-drop (suc n) [] = refl
take-drop (suc n) (c ∷ s) = ap (λ x. c ∷ x) (take-drop n s)

pub length-drop : (n : ℕ) (s : Bytes) → length (drop n s) ≡ length s - n
length-drop zero s = omega arith
length-drop (suc n) [] = omega arith
length-drop (suc n) (c ∷ s) = omega (arith, length-drop n s)

pub digits_before-longer :
    (fuel n : ℕ) (tail : Bytes) → length tail ≤ length (digits_before fuel n tail)
unfolding digits_before
digits_before-longer zero n tail = omega arith
digits_before-longer (suc fuel) n tail = elim (Bool-cases (ltb n 10)) [
  | inl small ↦ rw (small, digits_before) (omega arith)
  | inr large ↦
      rw (large, digits_before)
        (omega (arith, digits_before-longer fuel (n / 10) ((b'0' + n % 10) ∷ tail)))
]

pub decimal_digits-nonempty : (n : ℕ) → 0 < length (decimal_digits n)
unfolding decimal_digits digits_before
decimal_digits-nonempty n = elim (Bool-cases (ltb n 10)) [
  | inl small ↦
      let e : digits_before (suc n) n [] ≡ (b'0' + n) ∷ [] = rw (small, digits_before) refl in
      rw (decimal_digits, e) (omega arith)
  | inr large ↦
      let tail = (b'0' + n % 10) ∷ [] in
      let e : digits_before (suc n) n [] ≡ digits_before n (n / 10) tail =
        rw (large, digits_before) refl in
      rw (decimal_digits, e) (omega (arith, digits_before-longer n (n / 10) tail))
]

pub read_number-nonempty : (s : Bytes) → 0 < length s → read_number s ≡ read_digits 0 s
unfolding read_number
read_number-nonempty [] h = absurd (omega arith)
read_number-nonempty (c ∷ s) h = refl

pub first-IsDigit :
    (s : Bytes)
    → 0 < length s
    → All IsDigit s
    → (c : ℕ) × (rest : Bytes) × (s ≡ c ∷ rest) × IsDigit c
first-IsDigit [] long h = absurd (omega arith)
first-IsDigit (c ∷ s) long h = (c, s, refl, h.0)

pub digits-IsPlain : (s : Bytes) → All IsDigit s → All IsPlain s
digits-IsPlain s = All-imp IsDigit IsPlain s (λ c h. (omega arith, omega arith))

pub digits-no_point : (s : Bytes) → All IsDigit s → All (λ c. is_point c ≡ false) s
unfolding is_point
digits-no_point s = All-imp IsDigit (λ c. is_point c ≡ false) s (λ c h. ground arith)

pub plain-no_mark : (s : Bytes) → All IsPlain s → All (λ c. is_exponent_mark c ≡ false) s
unfolding is_exponent_mark
plain-no_mark s = All-imp IsPlain (λ c. is_exponent_mark c ≡ false) s (λ c h. ground arith)

pub decimal_digits-All : (n : ℕ) → All IsDigit (decimal_digits n)
unfolding decimal_digits
decimal_digits-All n = digits_before-All (suc n) n [] tt

pub read-decimal_digits : (n : ℕ) → read_digits 0 (decimal_digits n) ≡ some n
unfolding decimal_digits read_digits
read-decimal_digits n = read-digits_before (suc n) n [] (omega arith)
