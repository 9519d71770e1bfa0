-- ===== src/Types/Decimal/Order.antt =====
-- Comparison of decimals is the order of their numbers.
use native.Mathlib.Nat.{
  mul-lt-mul_of_pos_right, pow-suc, add-mul, zero-mul, mul_assoc, mul-one, one-le-pow,
}
use gokql.Base.{
  ◌⊎◌, ℕ, zero, suc, ◌+◌, ◌-◌, ◌*◌, ◌^◌, ◌≤◌, ◌<◌, ◌≡◌, refl, sym, ap, ◌∙◌, true, false, inl, inr,
  ltb, if◌then◌else◌, arith, Bool-cases,
}
use gokql.Base.Int.{ℤ, pos, negsuc, magnitude, neg_ℤ, signed, pos_part, neg_part, ◌*ℤ◌, ◌-ℤ◌, cmp_ℤ}
use gokql.Types.Decimal.{int32, exp10, rescale, max_scale, align, cmp}

pub int32-small : (n : ℕ) → n < 2 ^ 31 → int32 (pos n) ≡ pos n
unfolding int32
int32-small n h = ground arith

-- How a product with a positive number compares.
mul-compare :
    (x y p : ℕ) → 0 < p → ((x < y) × (x * p < y * p)) ⊎ ((y < x) × (y * p < x * p)) ⊎ (x ≡ y)
mul-compare x y p h = elim (Bool-cases (ltb x y)) [
  | inl lt ↦ let lt' : x < y = ground arith in inl (lt', mul-lt-mul_of_pos_right lt' h)
  | inr ge ↦ elim (Bool-cases (ltb y x)) [
    | inl gt ↦ let gt' : y < x = ground arith in inr (inl (gt', mul-lt-mul_of_pos_right gt' h))
    | inr le ↦ let e : x ≡ y = ground arith in inr (inr e)
  ]
]

pub neg-parts : (m : ℕ) → (pos_part (neg_ℤ (pos m)) ≡ 0) × (neg_part (neg_ℤ (pos m)) ≡ m)
neg-parts zero = (refl, refl)
neg-parts (suc m) = (refl, refl)

pub pow10-add : (m n : ℕ) → 10 ^ (m + n) ≡ 10 ^ m * 10 ^ n
pow10-add m zero = let e : m + 0 ≡ m = omega arith in rw e (sym (mul-one (10 ^ m)))
pow10-add m (suc n) =
    let e : m + suc n ≡ suc (m + n) = omega arith in
    rw (e, pow-suc 10 (m + n), pow-suc 10 n, pow10-add m n) (mul_assoc (10 ^ m) (10 ^ n) 10)

pub parts-mul :
    (c : ℤ) (p : ℕ)
    → (pos_part (c *ℤ pos p) ≡ pos_part c * p) × (neg_part (c *ℤ pos p) ≡ neg_part c * p)
unfolding ◌*ℤ◌
parts-mul (pos n) p = (refl, sym (zero-mul p))
parts-mul (negsuc n) p = ((neg-parts (suc n * p)).0 ∙ sym (zero-mul p), (neg-parts (suc n * p)).1)

pub cmp_ℤ-mul : (a b : ℤ) (p : ℕ) → 0 < p → cmp_ℤ (a *ℤ pos p) (b *ℤ pos p) ≡ cmp_ℤ a b
unfolding cmp_ℤ
cmp_ℤ-mul a b p h =
    let x = pos_part a + neg_part b in
    let y = pos_part b + neg_part a in
    rw
      (
        (parts-mul a p).0,
        (parts-mul a p).1,
        (parts-mul b p).0,
        (parts-mul b p).1,
        ← add-mul (pos_part a) (neg_part b) p,
        ← add-mul (pos_part b) (neg_part a) p,
      )
      (ground (arith, mul-compare x y p h))

signed-again :
    (c : ℤ) (m q : ℕ) → signed (signed c m) (magnitude (signed c m) * q) ≡ signed c (m * q)
signed-again (pos n) m q = refl
signed-again (negsuc n) zero q = rw (zero-mul q) refl
signed-again (negsuc n) (suc m) q = refl

pub mul-assoc_pos : (c : ℤ) (p q : ℕ) → c *ℤ pos p *ℤ pos q ≡ c *ℤ pos (p * q)
unfolding ◌*ℤ◌
mul-assoc_pos c p q =
    signed-again c (magnitude c * p) q ∙ ap (signed c) (mul_assoc (magnitude c) p q)

mul-one_pos : (c : ℤ) → c *ℤ pos 1 ≡ c
unfolding ◌*ℤ◌
mul-one_pos (pos n) = ap pos (mul-one n)
mul-one_pos (negsuc n) = ap (signed (negsuc n)) (mul-one (suc n))

pub int32-diff : (s t : ℕ) → s ≤ t → t < 2 ^ 31 → int32 (pos t -ℤ pos s) ≡ pos (t - s)
unfolding ◌-ℤ◌
int32-diff s t le h =
    let e : pos t -ℤ pos s ≡ pos (t - s) = ground arith in
    ap int32 e ∙ int32-small (t - s) (omega arith)

pub rescale-up :
    (c : ℤ) (s t : ℕ)
    → s ≤ t
    → t < 2 ^ 31
    → (rescale (pos t) (record { coef = c; scale = pos s })).coef ≡ c *ℤ pos (10 ^ (t - s))
unfolding rescale exp10
rescale-up c s t le bound = elim (Bool-cases (ltb s t)) [
  | inl up ↦
      let u : ltb (s + 0) (t + 0) ≡ true = ground arith in
      rw u (ap (λ k. c *ℤ pos (exp10 k)) (int32-diff s t le bound))
  | inr same ↦
      let u : ltb (s + 0) (t + 0) ≡ false = ground arith in
      let v : ltb (t + 0) (s + 0) ≡ false = ground arith in
      let le' : t ≤ s = ground arith in
      let e : t - s ≡ 0 = omega arith in rw (u, v, e) (sym (mul-one_pos c))
]

abbrev pub max_ℕ : ℕ → ℕ → ℕ
max_ℕ s t = if ltb s t then t else s

-- Two decimals are brought to the larger scale.
pub align-of_pos :
    (c e : ℤ) (s t : ℕ)
    → s < 2 ^ 31
    → t < 2 ^ 31
    → align (record { coef = c; scale = pos s }) (record { coef = e; scale = pos t })
      ≡ (c *ℤ pos (10 ^ (max_ℕ s t - s)), e *ℤ pos (10 ^ (max_ℕ s t - t)), pos (max_ℕ s t))
unfolding align max_scale
align-of_pos c e s t hs ht =
    let m : (if ltb (s + 0) (t + 0) then pos t else pos s) ≡ pos (max_ℕ s t) = ground arith in
    rw
      (
        m,
        rescale-up c s (max_ℕ s t) (ground arith) (ground arith),
        rescale-up e t (max_ℕ s t) (ground arith) (ground arith),
      )
      refl

pub lift : (c : ℤ) (i k t : ℕ) → i + k ≡ t → c *ℤ pos (10 ^ i) *ℤ pos (10 ^ k) ≡ c *ℤ pos (10 ^ t)
lift c i k t h =
    mul-assoc_pos c (10 ^ i) (10 ^ k)
    ∙ ap (λ p. c *ℤ pos p) (sym (pow10-add i k) ∙ ap (λ j. 10 ^ j) h)

-- Up to scales of 2^31 - 1, `Cmp` orders two decimals as their numbers: c / 10^s is compared with
-- e / 10^t as c * 10^t is with e * 10^s.
pub cmp_lem :
    (c e : ℤ) (s t : ℕ)
    → s < 2 ^ 31
    → t < 2 ^ 31
    → cmp (record { coef = c; scale = pos s }) (record { coef = e; scale = pos t })
      ≡ cmp_ℤ (c *ℤ pos (10 ^ t)) (e *ℤ pos (10 ^ s))
unfolding cmp align
cmp_lem c e s t hs ht =
    let m = max_ℕ s t in
    let k = s + t - m in
    ap (λ (r : ℤ × ℤ × ℤ). cmp_ℤ r.0 r.1) (align-of_pos c e s t hs ht)
    ∙ (sym (
          cmp_ℤ-mul (c *ℤ pos (10 ^ (m - s))) (e *ℤ pos (10 ^ (m - t))) (10 ^ k)
            (one-le-pow k 10 (omega arith)))
        ∙ rw (lift c (m - s) k t (ground arith), lift e (m - t) k s (ground arith)) refl)
