-- ===== src/Functions/Ipv4/Powers.antt =====
-- The two loops over bits of pkg/engine/func_net.go (`ipv4RangeToCIDRList`).
use native.Mathlib.Nat.{two-pow-succ, one-le-pow, pow-le-pow_right, add-mul, mul-add, mul-div_left}
use gokql.Base.{
  ℕ, zero, suc, ◌+◌, ◌-◌, ◌*◌, ◌/◌, ◌%◌, ◌^◌, ◌≤◌, ◌<◌, ◌≡◌, ◌⊎◌, refl, sym, ap, ◌∙◌, inl, inr,
  true, false, Bool-cases, ==_iff, leb, ltb, ◌↔◌, ◌==◌, arith,
}
use gokql.Functions.Ipv4.{count_zeros, low_zeros, count_fitting, block_bits}

abbrev pub Multiple : ℕ → ℕ → Type 0
Multiple m n = (q : ℕ) × (n ≡ q * m)

double : (r m : ℕ) → (r + r) * m ≡ r * (m + m)
double r m = add-mul r r m ∙ sym (mul-add r m m)

two_pow_pos : (n : ℕ) → 0 < 2 ^ n
two_pow_pos n = let h : 1 ≤ 2 ^ n = one-le-pow n 2 (omega arith) in omega (arith, h)

quotient : (start q tz : ℕ) → start ≡ q * 2 ^ tz → start / 2 ^ tz ≡ q
quotient start q tz e = rw e (mul-div_left q (two_pow_pos tz))

even-Multiple : (start q tz : ℕ) → start ≡ q * 2 ^ tz → q % 2 ≡ 0 → Multiple (2 ^ suc tz) start
even-Multiple start q tz e h =
    let half : q ≡ q / 2 + q / 2 = omega (arith, h) in
    (
      q / 2,
      e
          ∙ ap (λ n. n * 2 ^ tz) half
          ∙ double (q / 2) (2 ^ tz)
          ∙ ap (λ m. q / 2 * m) (sym (two-pow-succ tz)),
    )

Multiple-even : (start q tz : ℕ) → start ≡ q * 2 ^ tz → Multiple (2 ^ suc tz) start → q % 2 ≡ 0
Multiple-even start q tz e (r, f) =
    let twice : start ≡ (r + r) * 2 ^ tz =
      f ∙ ap (λ m. r * m) (two-pow-succ tz) ∙ sym (double r (2 ^ tz)) in
    let same : q ≡ r + r = sym (quotient start q tz e) ∙ quotient start (r + r) tz twice in
    omega (arith, same)

pub leb_iff : (n m : ℕ) → (leb n m ≡ true) ↔ (n ≤ m)
leb_iff n m = ground arith

pub leb_above : (n m : ℕ) → leb n m ≡ false → m < n
leb_above n m h = ground (arith, h)

ltb_iff : (n m : ℕ) → (ltb n m ≡ true) ↔ (n < m)
ltb_iff n m = ground arith

ltb_above : (n m : ℕ) → ltb n m ≡ false → m ≤ n
ltb_above n m h = ground (arith, h)

-- The most low bits that are 0, from tz up to a limit.
abbrev IsCount : ℕ → ℕ → ℕ → ℕ → Type 0
IsCount start limit tz r =
    (tz ≤ r)
    × (r ≤ limit)
    × Multiple (2 ^ r) start
    × ((r ≡ limit) ⊎ (Multiple (2 ^ suc r) start → ⊥))

count_zeros-IsCount :
    (start rounds tz limit : ℕ)
    → tz + rounds ≡ limit
    → Multiple (2 ^ tz) start
    → IsCount start limit tz (count_zeros start rounds tz)
unfolding count_zeros
count_zeros-IsCount start zero tz limit l m =
    (omega arith, omega (arith, l), m, inl (omega (arith, l)))
count_zeros-IsCount start (suc rounds) tz limit l (q, e) =
    let test : start / 2 ^ tz % 2 ≡ q % 2 = ap (λ n. n % 2) (quotient start q tz e) in
    elim (Bool-cases (start / 2 ^ tz % 2 == 0)) [
      | inl p ↦
          let even = sym test ∙ (==_iff (start / 2 ^ tz % 2) 0).0 p in
          let (a, b, m, c) =
            count_zeros-IsCount start rounds (suc tz) limit (omega (arith, l))
              (even-Multiple start q tz e even) in
          rw (count_zeros, p) (omega (arith, a), b, m, c)
      | inr p ↦
          rw (count_zeros, p)
            (
              omega arith,
              omega (arith, l),
              (q, e),
              inr (λ m. cc (
                  sym p ∙ (==_iff (start / 2 ^ tz % 2) 0).1 (test ∙ Multiple-even start q tz e m))),
            )
    ]

low_zeros-IsCount : (start : ℕ) → IsCount start 32 0 (low_zeros start)
unfolding low_zeros
low_zeros-IsCount start = elim (Bool-cases (start == 0)) [
  | inl p ↦
      let e = (==_iff start 0).0 p in
      let none_left : 0 ≡ 0 * 2 ^ 32 = omega arith in
      rw (low_zeros, p) (omega arith, omega arith, (0, e ∙ none_left), inl refl)
  | inr p ↦
      let whole : start ≡ start * 2 ^ 0 = omega arith in
      rw (low_zeros, p) (count_zeros-IsCount start 32 0 32 refl (start, whole))
]

Multiple-less : (d i n : ℕ) → Multiple (2 ^ (d + i)) n → Multiple (2 ^ i) n
Multiple-less zero i n m = let e : 0 + i ≡ i = omega arith in rw e at m
Multiple-less (suc d) i n (q, e) =
    let step : suc d + i ≡ suc (d + i) = omega arith in
    Multiple-less d i n (
      q + q,
      e
          ∙ ap (λ k. q * 2 ^ k) step
          ∙ ap (λ m. q * m) (two-pow-succ (d + i))
          ∙ sym (double q (2 ^ (d + i))),
    )

-- A power that divides is not above the count.
IsCount-most : (start k r : ℕ) → IsCount start 32 0 r → k ≤ 32 → Multiple (2 ^ k) start → k ≤ r
IsCount-most start k r (a, b, m, inl e) h d = omega (arith, e, h)
IsCount-most start k r (a, b, m, inr c) h d = elim (Bool-cases (leb k r)) [
  | inl p ↦ (leb_iff k r).0 p
  | inr p ↦
      let above : r < k = leb_above k r p in
      let split : k ≡ k - suc r + suc r = omega (arith, above) in
      absurd (c (Multiple-less (k - suc r) (suc r) start (rw split at d)))
]

abbrev IsFit : ℕ → ℕ → ℕ → Type 0
IsFit remaining limit r =
    (r ≤ limit) × (2 ^ r ≤ remaining) × ((r ≡ limit) ⊎ (remaining < 2 ^ suc r))

count_fitting-IsFit :
    (remaining rounds bits limit : ℕ)
    → bits + rounds ≡ limit
    → 2 ^ bits ≤ remaining
    → IsFit remaining limit (count_fitting remaining rounds bits)
unfolding count_fitting
count_fitting-IsFit remaining zero bits limit l h = (omega (arith, l), h, inl (omega (arith, l)))
count_fitting-IsFit remaining (suc rounds) bits limit l h =
    let next : bits + 1 ≡ suc bits = omega arith in
    elim (Bool-cases (leb (2 ^ (bits + 1)) remaining)) [
      | inl p ↦
          let fits = (leb_iff (2 ^ (bits + 1)) remaining).0 p in
          rw (count_fitting, p)
            (count_fitting-IsFit remaining rounds (suc bits) limit (omega (arith, l))
              (rw next at fits))
      | inr p ↦
          let over = leb_above (2 ^ (bits + 1)) remaining p in
          rw (count_fitting, p) (omega (arith, l), h, inr (rw next at over))
    ]

IsFit-most : (remaining k r : ℕ) → IsFit remaining 32 r → k ≤ 32 → 2 ^ k ≤ remaining → k ≤ r
IsFit-most remaining k r (a, b, inl e) h d = omega (arith, e, h)
IsFit-most remaining k r (a, b, inr c) h d = elim (Bool-cases (leb k r)) [
  | inl p ↦ (leb_iff k r).0 p
  | inr p ↦
      let above : r < k = leb_above k r p in
      let more : 2 ^ suc r ≤ 2 ^ k =
        pow-le-pow_right (let two : 0 < 2 = omega arith in two) (omega (arith, above)) in
      absurd (omega (arith, c, d, more))
]

-- From an address on, the bits of the largest block that is aligned and ends by a stop.
abbrev pub IsLargest : ℕ → ℕ → ℕ → Type 0
IsLargest start stop bits =
    (bits ≤ 32)
    × Multiple (2 ^ bits) start
    × (start + 2 ^ bits ≤ stop)
    × ((k : ℕ) → k ≤ 32 → Multiple (2 ^ k) start → start + 2 ^ k ≤ stop → k ≤ bits)

pub block_bits-IsLargest :
    (start end : ℕ) → start ≤ end → IsLargest start (end + 1) (block_bits start end)
unfolding block_bits
block_bits-IsLargest start end h =
    let tz = low_zeros start in
    let max_bits = count_fitting (end - start + 1) 32 0 in
    let low = low_zeros-IsCount start in
    let fit = count_fitting-IsFit (end - start + 1) 32 0 32 refl (omega arith) in
    elim (Bool-cases (ltb max_bits tz)) [
      | inl p ↦
          let below = (ltb_iff max_bits tz).0 p in
          let split : tz ≡ tz - max_bits + max_bits = omega (arith, below) in
          rw (block_bits, p)
            (
              fit.0,
              Multiple-less (tz - max_bits) max_bits start (rw split at low.2),
              omega (arith, fit.1, h),
              λ k le m f. IsFit-most (end - start + 1) k max_bits fit le (omega (arith, f)),
            )
      | inr p ↦
          let below = ltb_above max_bits tz p in
          let smaller : 2 ^ tz ≤ 2 ^ max_bits =
            pow-le-pow_right (let two : 0 < 2 = omega arith in two) below in
          rw (block_bits, p)
            (
              low.1,
              low.2,
              omega (arith, fit.1, smaller, h),
              λ k le m f. IsCount-most start k tz low le m,
            )
    ]
