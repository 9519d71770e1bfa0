-- ===== src/Types/Value/Orders.antt =====
-- The orders of integers, strings, Booleans, floats and decimals.
use mathlib.Core.Path.{subst}
use gokql.Base.{
  ℕ, ◌+◌, ◌^◌, ◌<◌, ◌≡◌, refl, sym, ap, ◌∙◌, Bool, true, false, if◌then◌else◌, arith, [], ◌∷◌, ltb,
  ◌==◌,
}
use gokql.Base.Bytes.{Bytes}
use gokql.Base.Int.{ℤ, pos, neg_ℤ, ◌≤ℤ◌, ltb_ℤ, cmp_ℤ, ◌*ℤ◌}
use gokql.Types.Decimal.{Decimal, cmp}
use native.Mathlib.Nat.{one-le-pow}
use gokql.Types.Decimal.Order.{lift, cmp_lem, cmp_ℤ-mul}
use gokql.Types.Value.{Real, nan, neg_inf, pos_inf, num, lt_real, lt_bytes, lt_bool, cmp_by}
use gokql.Types.Value.Order.{IsStrictWeak, IsOrdering, cmp_by-IsOrdering}

abbrev pub Any {ℓ} : {A : Type ℓ} → A → Type 0
Any a = Unit

pub ltb_ℤ-IsStrictWeak : IsStrictWeak Any ltb_ℤ
ltb_ℤ-IsStrictWeak = record {
  asym = λ a b pa pb h. ground arith;
  cotrans = λ a b c pa pb pc h k. ground arith;
}

lt_bool-asym : (a b : Bool) → lt_bool a b ≡ true → lt_bool b a ≡ false
unfolding lt_bool
lt_bool-asym false true h = refl
lt_bool-asym false false h = refl
lt_bool-asym true b h = cc h

lt_bool-cotrans : (a b c : Bool) → lt_bool a c ≡ true → lt_bool a b ≡ false → lt_bool b c ≡ true
unfolding lt_bool
lt_bool-cotrans false true c h k = cc k
lt_bool-cotrans false false c h k = h
lt_bool-cotrans true b c h k = cc h

pub lt_bool-IsStrictWeak : IsStrictWeak Any lt_bool
lt_bool-IsStrictWeak = record {
  asym = λ a b pa pb. lt_bool-asym a b;
  cotrans = λ a b c pa pb pc. lt_bool-cotrans a b c;
}

lt_bytes-asym : (a b : Bytes) → lt_bytes a b ≡ true → lt_bytes b a ≡ false
unfolding lt_bytes
lt_bytes-asym a [] h = cc h
lt_bytes-asym [] (d ∷ t) h = refl
lt_bytes-asym (c ∷ s) (d ∷ t) h = ground (arith, lt_bytes-asym s t)

lt_bytes-cotrans :
    (a b c : Bytes) → lt_bytes a c ≡ true → lt_bytes a b ≡ false → lt_bytes b c ≡ true
unfolding lt_bytes
lt_bytes-cotrans a b [] h k = cc h
lt_bytes-cotrans a [] (e ∷ u) h k = refl
lt_bytes-cotrans [] (d ∷ t) (e ∷ u) h k = cc k
lt_bytes-cotrans (c ∷ s) (d ∷ t) (e ∷ u) h k = ground (arith, lt_bytes-cotrans s t u)

pub lt_bytes-IsStrictWeak : IsStrictWeak Any lt_bytes
lt_bytes-IsStrictWeak = record {
  asym = λ a b pa pb. lt_bytes-asym a b;
  cotrans = λ a b c pa pb pc. lt_bytes-cotrans a b c;
}

-- A float that is a number.
abbrev pub IsNumber : Real → Type 0
IsNumber nan = ⊥
IsNumber neg_inf = Unit
IsNumber pos_inf = Unit
IsNumber (num n) = Unit

-- A float's place among the infinities.
rank : Real → ℕ
rank nan = 0
rank neg_inf = 0
rank (num n) = 1
rank pos_inf = 2

part : Real → ℤ
part nan = pos 0
part neg_inf = pos 0
part (num n) = n
part pos_inf = pos 0

lt_ranked : ℕ × ℤ → ℕ × ℤ → Bool
lt_ranked (i, m) (j, n) = if ltb i j then true else if i == j then ltb_ℤ m n else false

lt_real-ranked :
    (a b : Real)
    → IsNumber a
    → IsNumber b
    → lt_real a b ≡ lt_ranked (rank a, part a) (rank b, part b)
unfolding lt_real lt_ranked rank part
lt_real-ranked nan b pa pb = elim pa [ ]
lt_real-ranked neg_inf nan pa pb = elim pb [ ]
lt_real-ranked neg_inf neg_inf pa pb = refl
lt_real-ranked neg_inf pos_inf pa pb = refl
lt_real-ranked neg_inf (num n) pa pb = refl
lt_real-ranked pos_inf nan pa pb = elim pb [ ]
lt_real-ranked pos_inf neg_inf pa pb = refl
lt_real-ranked pos_inf pos_inf pa pb = refl
lt_real-ranked pos_inf (num n) pa pb = refl
lt_real-ranked (num m) nan pa pb = elim pb [ ]
lt_real-ranked (num m) neg_inf pa pb = refl
lt_real-ranked (num m) pos_inf pa pb = refl
lt_real-ranked (num m) (num n) pa pb = refl

lt_ranked-asym : (a b : ℕ × ℤ) → lt_ranked a b ≡ true → lt_ranked b a ≡ false
unfolding lt_ranked
lt_ranked-asym (i, m) (j, n) h = ground arith

lt_ranked-cotrans :
    (a b c : ℕ × ℤ) → lt_ranked a c ≡ true → lt_ranked a b ≡ false → lt_ranked b c ≡ true
unfolding lt_ranked
lt_ranked-cotrans (i, m) (j, n) (k, o) h h' = ground arith

pub lt_real-IsStrictWeak : IsStrictWeak IsNumber lt_real
lt_real-IsStrictWeak = record {
  asym = λ a b pa pb h.
      lt_real-ranked b a pb pa ∙ lt_ranked-asym _ _ (sym (lt_real-ranked a b pa pb) ∙ h);
  cotrans = λ a b c pa pb pc h k.
      lt_real-ranked b c pb pc
      ∙ lt_ranked-cotrans (rank a, part a) _ _ (sym (lt_real-ranked a c pa pc) ∙ h)
          (sym (lt_real-ranked a b pa pb) ∙ k);
}

-- A decimal as arithmetic leaves it.
abbrev pub IsScaled : Decimal → Type 0
IsScaled d = (s : ℕ) × (d.scale ≡ pos s) × (s < 2 ^ 31)

cmp_ℤ-IsOrdering : IsOrdering Any cmp_ℤ
unfolding cmp_ℤ cmp_by
cmp_ℤ-IsOrdering = cmp_by-IsOrdering Any ltb_ℤ ltb_ℤ-IsStrictWeak

-- Comparison at a common scale.
cmp-common :
    (c e : ℤ) (s t u i j : ℕ)
    → s < 2 ^ 31
    → t < 2 ^ 31
    → t + u ≡ i
    → s + u ≡ j
    → cmp (record { coef = c; scale = pos s }) (record { coef = e; scale = pos t })
      ≡ cmp_ℤ (c *ℤ pos (10 ^ i)) (e *ℤ pos (10 ^ j))
cmp-common c e s t u i j hs ht hi hj =
    cmp_lem c e s t hs ht
    ∙ sym
        (cmp_ℤ-mul (c *ℤ pos (10 ^ t)) (e *ℤ pos (10 ^ s)) (10 ^ u) (one-le-pow u 10 (omega arith)))
    ∙ rw (lift c t u i hi, lift e s u j hj) refl

cmp-flip :
    (c e : ℤ) (s t : ℕ)
    → s < 2 ^ 31
    → t < 2 ^ 31
    → cmp (record { coef = e; scale = pos t }) (record { coef = c; scale = pos s })
      ≡ neg_ℤ (cmp (record { coef = c; scale = pos s }) (record { coef = e; scale = pos t }))
cmp-flip c e s t hs ht =
    cmp_lem e c t s ht hs
    ∙ cmp_ℤ-IsOrdering.flip (c *ℤ pos (10 ^ t)) (e *ℤ pos (10 ^ s)) tt tt
    ∙ ap neg_ℤ (sym (cmp_lem c e s t hs ht))

cmp-trans :
    (c e f : ℤ) (s t u : ℕ)
    → s < 2 ^ 31
    → t < 2 ^ 31
    → u < 2 ^ 31
    → cmp (record { coef = c; scale = pos s }) (record { coef = e; scale = pos t }) ≤ℤ pos 0
    → cmp (record { coef = e; scale = pos t }) (record { coef = f; scale = pos u }) ≤ℤ pos 0
    → cmp (record { coef = c; scale = pos s }) (record { coef = f; scale = pos u }) ≤ℤ pos 0
cmp-trans c e f s t u hs ht hu h k =
    let ab = cmp-common c e s t u (t + u) (s + u) hs ht refl refl in
    let bd = cmp-common e f t u s (s + u) (s + t) ht hu (omega arith) (omega arith) in
    let ad = cmp-common c f s u t (t + u) (s + t) hs hu (omega arith) refl in
    let below = λ (x : ℤ). x ≤ℤ pos 0 in
    subst below (sym ad) (
      cmp_ℤ-IsOrdering.trans (c *ℤ pos (10 ^ (t + u))) (e *ℤ pos (10 ^ (s + u)))
        (f *ℤ pos (10 ^ (s + t))) tt tt tt (subst below ab h) (subst below bd k))

at_scale : (d : Decimal) (s : ℕ) → d.scale ≡ pos s → record { coef = d.coef; scale = pos s } ≡ d
at_scale d s e = ap (λ (x : ℤ). record { coef = d.coef; scale = x }) (sym e)

pub cmp-IsOrdering : IsOrdering IsScaled cmp
cmp-IsOrdering = record {
  flip = λ a b pa pb. flip_scaled a b pa pb;
  trans = λ a b d pa pb pd. trans_scaled a b d pa pb pd;
}
  where
    flip_scaled : (a b : Decimal) → IsScaled a → IsScaled b → cmp b a ≡ neg_ℤ (cmp a b)
    flip_scaled a b (s, p, hs) (t, q, ht) =
        subst (λ (y : Decimal). cmp y a ≡ neg_ℤ (cmp a y)) (at_scale b t q)
          (subst
            (λ (x : Decimal).
              cmp (record { coef = b.coef; scale = pos t }) x
              ≡ neg_ℤ (cmp x (record { coef = b.coef; scale = pos t })))
            (at_scale a s p) (cmp-flip a.coef b.coef s t hs ht))

    trans_scaled :
        (a b d : Decimal)
        → IsScaled a
        → IsScaled b
        → IsScaled d
        → cmp a b ≤ℤ pos 0
        → cmp b d ≤ℤ pos 0
        → cmp a d ≤ℤ pos 0
    trans_scaled a b d (s, p, hs) (t, q, ht) (u, r, hu) h k =
        let a' = sym (at_scale a s p) in
        let b' = sym (at_scale b t q) in
        let d' = sym (at_scale d u r) in
        subst (λ (y : Decimal). cmp a y ≤ℤ pos 0) (sym d')
          (subst (λ (x : Decimal). cmp x (record { coef = d.coef; scale = pos u }) ≤ℤ pos 0)
            (sym a')
            (cmp-trans a.coef b.coef d.coef s t u hs ht hu
              (subst (λ (x : Decimal). cmp x (record { coef = b.coef; scale = pos t }) ≤ℤ pos 0) a'
                (subst (λ (y : Decimal). cmp a y ≤ℤ pos 0) b' h))
              (subst (λ (x : Decimal). cmp x (record { coef = d.coef; scale = pos u }) ≤ℤ pos 0) b'
                (subst (λ (y : Decimal). cmp b y ≤ℤ pos 0) d' k))))
