-- ===== src/Types/Value/Order.antt =====
-- `CompareValues` is an order on the values of a column's type.
use gokql.Base.{◌⊎◌, ◌≡◌, refl, ap, inl, inr, Bool, true, false, Bool-cases, arith}
use gokql.Base.Int.{ℤ, pos, negsuc, neg_ℤ, ◌≤ℤ◌}
use gokql.Types.Value.{cmp_by}

-- A test that orders the values with `P`, up to values that it takes as equal.
pub record IsStrictWeak {ℓ κ} {A : Type ℓ} (P : A → Type κ) (lt : A → A → Bool) : Type (ℓ ⊔ κ) where
  pub asym : (a b : A) → P a → P b → lt a b ≡ true → lt b a ≡ false
  pub cotrans : (a b c : A) → P a → P b → P c → lt a c ≡ true → lt a b ≡ false → lt b c ≡ true

-- A three-way comparison that orders the values with `P`.
pub record IsOrdering {ℓ κ} {A : Type ℓ} (P : A → Type κ) (c : A → A → ℤ) : Type (ℓ ⊔ κ) where
  pub flip : (a b : A) → P a → P b → c b a ≡ neg_ℤ (c a b)
  pub trans : (a b d : A) → P a → P b → P d → c a b ≤ℤ pos 0 → c b d ≤ℤ pos 0 → c a d ≤ℤ pos 0

module _ {ℓ κ} {A : Type ℓ} (P : A → Type κ) (lt : A → A → Bool) (w : IsStrictWeak P lt) where
  cmp_by-flip : (a b : A) → P a → P b → cmp_by lt b a ≡ neg_ℤ (cmp_by lt a b)
  unfolding cmp_by
  cmp_by-flip a b pa pb =
      let x = w.asym a b pa pb in
      let y = w.asym b a pb pa in
      elim (Bool-cases (lt a b)) [
        | inl p ↦ rw (p, x p) refl
        | inr p ↦ elim (Bool-cases (lt b a)) [ inl q ↦ rw (p, q) refl | inr q ↦ rw (p, q) refl ]
      ]

  not_after : (a b : A) → P a → P b → cmp_by lt a b ≤ℤ pos 0 → lt b a ≡ false
  unfolding cmp_by
  not_after a b pa pb h = elim (Bool-cases (lt b a)) [
    | inr q ↦ q
    | inl q ↦ absurd (ground (arith, w.asym b a pb pa q))
  ]

  not_before : (a b : A) → lt b a ≡ false → cmp_by lt a b ≤ℤ pos 0
  unfolding cmp_by
  not_before a b h = ground arith

  pub cmp_by-IsOrdering : IsOrdering P (cmp_by lt)
  cmp_by-IsOrdering = record {
    flip = cmp_by-flip;
    trans = λ a b d pa pb pd h k.
        let x = not_after a b pa pb h in
        let y = not_after b d pb pd k in
        elim (Bool-cases (lt d a)) [
          | inr q ↦ not_before a d q
          | inl q ↦ absurd (ground (arith, w.cotrans d b a pd pb pa q y))
        ];
  }

-- The sign of a null beside another value.
abbrev pub null_sign : Bool → ℤ
null_sign true = negsuc 0
null_sign false = pos 1

-- An order on some values, with the nulls before or behind all of them.
module _ {ℓ κ} {A : Type ℓ} (IsNull : A → Type κ) (IsRest : A → Type κ) (c : A → A → ℤ)
    (first : Bool) (rest : IsOrdering IsRest c)
    (both : (a b : A) → IsNull a → IsNull b → c a b ≡ pos 0)
    (left : (a b : A) → IsNull a → IsRest b → c a b ≡ null_sign first)
    (right : (a b : A) → IsRest a → IsNull b → c a b ≡ neg_ℤ (null_sign first)) where
  nulls-flip : (a b : A) → IsNull a ⊎ IsRest a → IsNull b ⊎ IsRest b → c b a ≡ neg_ℤ (c a b)
  nulls-flip a b (inl x) (inl y) = rw (both a b x y, both b a y x) refl
  nulls-flip a b (inl x) (inr y) = rw (left a b x y, right b a y x) refl
  nulls-flip a b (inr x) (inl y) =
      rw (right a b x y, left b a y x)
        (elim first as (λ f. null_sign f ≡ neg_ℤ (neg_ℤ (null_sign f))) [
          | true ↦ refl
          | false ↦ refl
        ])
  nulls-flip a b (inr x) (inr y) = rest.flip a b x y

  nulls-trans :
      (a b d : A)
      → IsNull a ⊎ IsRest a
      → IsNull b ⊎ IsRest b
      → IsNull d ⊎ IsRest d
      → c a b ≤ℤ pos 0
      → c b d ≤ℤ pos 0
      → c a d ≤ℤ pos 0
  nulls-trans a b d (inl x) y (inl z) h k = rw (both a d x z) (omega arith)
  nulls-trans a b d (inl x) (inl y) (inr z) h k = rw (left a d x z, ← left b d y z) k
  nulls-trans a b d (inl x) (inr y) (inr z) h k = rw (left a d x z, ← left a b x y) h
  nulls-trans a b d (inr x) (inl y) (inl z) h k = rw (right a d x z, ← right a b x y) h
  nulls-trans a b d (inr x) (inr y) (inl z) h k = rw (right a d x z, ← right b d y z) k
  nulls-trans a b d (inr x) (inl y) (inr z) h k =
      absurd (opposite first (rw (right a b x y) at h) (rw (left b d y z) at k))
    where
      opposite : (f : Bool) → neg_ℤ (null_sign f) ≤ℤ pos 0 → null_sign f ≤ℤ pos 0 → ⊥
      opposite true p q = omega arith
      opposite false p q = omega arith
  nulls-trans a b d (inr x) (inr y) (inr z) h k = rest.trans a b d x y z h k

  pub IsOrdering-nulls : IsOrdering (λ a. IsNull a ⊎ IsRest a) c
  IsOrdering-nulls = record { flip = nulls-flip; trans = nulls-trans }

-- The reverse of an order.
pub IsOrdering-neg {ℓ κ} :
    {A : Type ℓ} (P : A → Type κ) (c : A → A → ℤ)
    → IsOrdering P c
    → IsOrdering P (λ a b. neg_ℤ (c a b))
IsOrdering-neg P c o = record {
  flip = λ a b pa pb. ap neg_ℤ (o.flip a b pa pb);
  trans = λ a b d pa pb pd h k.
      rw (← o.flip a d pa pd)
        (o.trans d b a pd pb pa (rw (o.flip b d pb pd) k) (rw (o.flip a b pa pb) h));
}

-- An order of the same signs on the values.
pub IsOrdering-same {ℓ κ} :
    {A : Type ℓ} (P : A → Type κ) (c d : A → A → ℤ)
    → ((a b : A) → P a → P b → d a b ≡ c a b)
    → IsOrdering P c
    → IsOrdering P d
IsOrdering-same P c d same o = record {
  flip = λ a b pa pb. rw (same a b pa pb, same b a pb pa) (o.flip a b pa pb);
  trans = λ a b e pa pb pe h k.
      rw (same a e pa pe)
        (o.trans a b e pa pb pe (rw (← same a b pa pb) h) (rw (← same b e pb pe) k));
}
