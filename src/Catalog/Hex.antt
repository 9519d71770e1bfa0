-- ===== src/Catalog/Hex.antt =====
-- Extent ids are read back as the number that they were written for.
use native.Mathlib.Nat.{pow-suc}
use gokql.Base.{
  ℕ, zero, suc, ◌+◌, ◌-◌, ◌*◌, ◌/◌, ◌%◌, ◌^◌, ◌≤◌, ◌<◌, ◌≡◌, refl, ◌∙◌, inl, inr, true, some, [],
  ◌∷◌, ◌++◌, ltb, length, replicate, arith, Bool-cases, length-append, length-replicate,
}
use gokql.Base.Bytes.{Bytes}
use gokql.Catalog.State.{u64_mod}
use gokql.Catalog.ExtentId.{hex_value, parse_hex_from, parse_hex, hex_digit, hex_digits, format_id}
use gokql.Catalog.Discover.{is_id_digit, all_id_digits}

hex_value-hex_digit : (d : ℕ) → d < 16 → hex_value (hex_digit d) ≡ some d
unfolding hex_value hex_digit
hex_value-hex_digit d h = ground arith

parse-digit :
    (acc d m : ℕ) (s : Bytes)
    → d < 16
    → m ≡ acc * 16 + d
    → m < u64_mod
    → parse_hex_from acc (hex_digit d ∷ s) ≡ parse_hex_from m s
unfolding parse_hex_from
parse-digit acc d m s h e k = rw (parse_hex_from, hex_value-hex_digit d h, ← e) (ground arith)

parse-hex_digits :
    (fuel n : ℕ) (tail : Bytes)
    → n < 16 ^ fuel
    → n < u64_mod
    → parse_hex_from 0 (hex_digits fuel n tail) ≡ parse_hex_from n tail
unfolding hex_digits
parse-hex_digits zero n tail h k = let e : n ≡ 0 = omega arith in rw e
parse-hex_digits (suc fuel) n tail h k = elim (Bool-cases (ltb n 16)) [
  | inl small ↦ rw small (parse-digit 0 n n tail (ground arith) (omega arith) k)
  | inr large ↦ rw large (
      parse-hex_digits fuel (n / 16) (hex_digit (n % 16) ∷ tail) (omega (arith, pow-suc 16 fuel))
        (omega arith)
      ∙ parse-digit (n / 16) (n % 16) n tail (omega arith) (omega arith) k)
]

parse-zeros : (k : ℕ) (s : Bytes) → parse_hex_from 0 (replicate k b'0' ++ s) ≡ parse_hex_from 0 s
unfolding parse_hex_from hex_value
parse-zeros zero s = refl
parse-zeros (suc k) s = parse-zeros k s

parse_hex-of_pos : (s : Bytes) → 0 < length s → parse_hex s ≡ parse_hex_from 0 s
unfolding parse_hex
parse_hex-of_pos [] h = absurd (omega arith)
parse_hex-of_pos (c ∷ s) h = refl

length-format_id : (n : ℕ) → 8 ≤ length (format_id n)
unfolding format_id
length-format_id n =
    let ds = hex_digits 16 n [] in
    omega (
      arith,
      length-append (replicate (8 - length ds) b'0') ds,
      length-replicate {A = ℕ} (8 - length ds) b'0',
    )

-- An id written by `AllocateExtentID` is read by `ParseUint` as the number that was allocated.
pub parse_hex-format_id : (n : ℕ) → n < u64_mod → parse_hex (format_id n) ≡ some n
unfolding format_id parse_hex_from
parse_hex-format_id n h =
    parse_hex-of_pos (format_id n) (omega (arith, length-format_id n))
    ∙ parse-zeros (8 - length (hex_digits 16 n [])) (hex_digits 16 n [])
    ∙ parse-hex_digits 16 n [] h h

is_id_digit-hex_digit : (d : ℕ) → d < 16 → is_id_digit (hex_digit d) ≡ true
unfolding is_id_digit hex_digit
is_id_digit-hex_digit d h = ground arith

all-hex_digits :
    (fuel n : ℕ) (tail : Bytes)
    → n < 16 ^ fuel
    → all_id_digits tail ≡ true
    → all_id_digits (hex_digits fuel n tail) ≡ true
unfolding hex_digits all_id_digits
all-hex_digits zero n tail h k = k
all-hex_digits (suc fuel) n tail h k = elim (Bool-cases (ltb n 16)) [
  | inl small ↦ rw (small, is_id_digit-hex_digit n (ground arith)) k
  | inr large ↦ rw large (
      all-hex_digits fuel (n / 16) (hex_digit (n % 16) ∷ tail) (omega (arith, pow-suc 16 fuel))
        (rw (is_id_digit-hex_digit (n % 16) (omega arith)) k))
]

all-zeros :
    (k : ℕ) (s : Bytes) → all_id_digits s ≡ true → all_id_digits (replicate k b'0' ++ s) ≡ true
unfolding all_id_digits is_id_digit
all-zeros zero s h = h
all-zeros (suc k) s h = all-zeros k s h

-- An allocated id is made of the digits that a file name's id must be made of.
pub all_id_digits-format_id : (n : ℕ) → n < u64_mod → all_id_digits (format_id n) ≡ true
unfolding format_id all_id_digits
all_id_digits-format_id n h =
    all-zeros (8 - length (hex_digits 16 n [])) (hex_digits 16 n []) (all-hex_digits 16 n [] h refl)
