-- ===== src/Engine/Join/Keys.antt =====
-- Keys of pkg/engine/join.go (`typedKey`, `joinKey`) tell rows apart.
use gokql.Base.{
  ℕ, suc, ◌↔◌, get_or, ◌<◌, ◌≡◌, ◌⊎◌, refl, sym, ap, ◌∙◌, inl, inr, true, false, none, some, List,
  [], ◌∷◌, ◌++◌, map, All, All-imp, All-append, arith,
}
use gokql.Base.Bytes.{Bytes, codes}
use gokql.Base.Int.{ℤ, pos, negsuc}
use gokql.Types.Decimal.{decimal_digits}
use gokql.Types.Decimal.Text.{read_digits}
use gokql.Types.Decimal.Text.Digits.{IsDigit, decimal_digits-All, read-decimal_digits}
use gokql.Types.Value.{
  Real, Value, null, bool_value, long_value, int_value, real_value, string_value, decimal_value,
}
use gokql.Engine.Sort.{Row, cell}
use gokql.Engine.Join.{format_int, join_parts, typed_key, join_key}

-- No byte of a text is 0.
abbrev pub NoZero : Bytes → Type 0
NoZero s = All (λ c. 0 < c) s

-- A value that is neither a float nor a decimal, whose text has no zero byte.
abbrev pub IsExact : Value → Type 0
IsExact null = Unit
IsExact (bool_value b) = Unit
IsExact (long_value n) = Unit
IsExact (int_value n) = Unit
IsExact (string_value s) = NoZero s
IsExact (real_value f) = ⊥
IsExact (decimal_value d) = ⊥

-- A part of a key: the tag of null, or bytes that are not 0, of which there is one at least.
abbrev IsPart : Bytes → Type 0
IsPart p = (p ≡ 0 ∷ codes "nil") ⊎ ((c : ℕ) × (s : Bytes) × (p ≡ c ∷ s) × NoZero (c ∷ s))

abbrev pub SameLength {ℓ} : {A : Type ℓ} → List A → List A → Type 0
SameLength [] [] = Unit
SameLength (x ∷ xs) (y ∷ ys) = SameLength xs ys
SameLength xs ys = ⊥

decimal_digits-NoZero : (n : ℕ) → NoZero (decimal_digits n)
decimal_digits-NoZero n =
    All-imp IsDigit (λ c. 0 < c) (decimal_digits n) (λ c h. omega arith) (decimal_digits-All n)

format_int-NoZero : (n : ℤ) → NoZero (format_int n)
unfolding format_int
format_int-NoZero (pos n) = decimal_digits-NoZero n
format_int-NoZero (negsuc n) = (omega arith, decimal_digits-NoZero (suc n))

zero_or_not : (c : ℕ) → 0 ≡ c → 0 < c → ⊥
zero_or_not c e l = omega (arith, e, l)

-- Up to the first zero byte, two texts are the same.
split_zero : (p q r s : Bytes) → NoZero p → NoZero q → p ++ 0 ∷ r ≡ q ++ 0 ∷ s → (p ≡ q) × (r ≡ s)
split_zero [] [] r s h k e = (refl, cc e)
split_zero [] (d ∷ q) r s h k e = absurd (zero_or_not d (cc e) k.0)
split_zero (c ∷ p) [] r s h k e = absurd (zero_or_not c (sym (cc e)) h.0)
split_zero (c ∷ p) (d ∷ q) r s h k e =
    let (a, b) = split_zero p q r s h.1 k.1 (cc e) in let head : c ≡ d = cc e in (cc (a, head), b)

split_part : (p q r s : Bytes) → IsPart p → IsPart q → p ++ 0 ∷ r ≡ q ++ 0 ∷ s → (p ≡ q) × (r ≡ s)
split_part p q r s (inl a) (inl b) e = (a ∙ sym b, cc (rw (a, b) at e))
split_part p q r s (inl a) (inr (d, t, b, k)) e = absurd (zero_or_not d (cc (rw (a, b) at e)) k.0)
split_part p q r s (inr (c, t, a, h)) (inl b) e =
    absurd (zero_or_not c (sym (cc (rw (a, b) at e))) h.0)
split_part p q r s (inr (c, t, a, h)) (inr (d, u, b, k)) e = split_zero p q r s (rw a h) (rw b k) e

-- With as many parts on both sides, the parts can be read off a key.
join_parts-inj :
    {A : Type 0} (f g : A → Bytes) (is js : List A)
    → SameLength is js
    → All (λ i. IsPart (f i)) is
    → All (λ j. IsPart (g j)) js
    → join_parts (map f is) ≡ join_parts (map g js)
    → map f is ≡ map g js
unfolding join_parts
join_parts-inj f g [] [] l h k e = refl
join_parts-inj f g [] (j ∷ js) l h k e = elim l [ ]
join_parts-inj f g (i ∷ []) [] l h k e = elim l [ ]
join_parts-inj f g (i ∷ []) (j ∷ []) l h k e = ap (λ p. p ∷ []) e
join_parts-inj f g (i ∷ []) (j ∷ j' ∷ js) l h k e = elim l [ ]
join_parts-inj f g (i ∷ i' ∷ is) [] l h k e = elim l [ ]
join_parts-inj f g (i ∷ i' ∷ is) (j ∷ []) l h k e = elim l [ ]
join_parts-inj f g (i ∷ i' ∷ is) (j ∷ j' ∷ js) l h k e =
    let (a, b) = split_part (f i) (g j) _ _ h.0 k.0 e in
    rw (a, join_parts-inj f g (i' ∷ is) (j' ∷ js) l h.1 k.1 b) refl

decimal_digits-inj : (n m : ℕ) → decimal_digits n ≡ decimal_digits m → n ≡ m
decimal_digits-inj n m e =
    let r : some n ≡ some m =
      sym (read-decimal_digits n) ∙ ap (read_digits 0) e ∙ read-decimal_digits m in
    cc r

digits_or_minus : (n : ℕ) (s : Bytes) → decimal_digits n ≡ b'-' ∷ s → ⊥
unfolding read_digits
digits_or_minus n s e =
    let r : some n ≡ none = sym (read-decimal_digits n) ∙ ap (read_digits 0) e in cc r

format_int-inj : (n m : ℤ) → format_int n ≡ format_int m → n ≡ m
unfolding format_int
format_int-inj (pos n) (pos m) e = ap pos (decimal_digits-inj n m e)
format_int-inj (pos n) (negsuc m) e = absurd (digits_or_minus n _ e)
format_int-inj (negsuc n) (pos m) e = absurd (digits_or_minus m _ (sym e))
format_int-inj (negsuc n) (negsuc m) e =
    let t : decimal_digits (suc n) ≡ decimal_digits (suc m) = cc e in
    let u : suc n ≡ suc m = decimal_digits-inj (suc n) (suc m) t in ap negsuc (omega (arith, u))

module _ (real_text : Real → Bytes) where
  typed_key-IsPart : (v : Value) → IsExact v → IsPart (typed_key real_text v)
  unfolding typed_key
  typed_key-IsPart null h = inl refl
  typed_key-IsPart (bool_value true) h = inr (_, _, refl, ground arith)
  typed_key-IsPart (bool_value false) h = inr (_, _, refl, ground arith)
  typed_key-IsPart (long_value n) h = inr (
    _,
    _,
    refl,
    All-append _ (codes "int64") (1 ∷ format_int n) (ground arith)
        (omega arith, format_int-NoZero n),
  )
  typed_key-IsPart (int_value n) h = inr (
    _,
    _,
    refl,
    All-append _ (codes "int32") (1 ∷ format_int n) (ground arith)
        (omega arith, format_int-NoZero n),
  )
  typed_key-IsPart (string_value s) h =
      inr (_, _, refl, All-append _ (codes "string") (1 ∷ s) (ground arith) (omega arith, h))
  typed_key-IsPart (real_value f) h = elim h [ ]
  typed_key-IsPart (decimal_value d) h = elim h [ ]

  typed_key-inj :
      (v w : Value) → IsExact v → IsExact w → typed_key real_text v ≡ typed_key real_text w → v ≡ w
  unfolding typed_key
  typed_key-inj null null h k e = refl
  typed_key-inj null (bool_value true) h k e = absurd (cc e)
  typed_key-inj null (bool_value false) h k e = absurd (cc e)
  typed_key-inj null (long_value m) h k e = absurd (cc e)
  typed_key-inj null (int_value m) h k e = absurd (cc e)
  typed_key-inj null (string_value t) h k e = absurd (cc e)
  typed_key-inj (bool_value true) null h k e = absurd (cc e)
  typed_key-inj (bool_value true) (bool_value true) h k e = refl
  typed_key-inj (bool_value true) (bool_value false) h k e = absurd (cc e)
  typed_key-inj (bool_value true) (long_value m) h k e = absurd (cc e)
  typed_key-inj (bool_value true) (int_value m) h k e = absurd (cc e)
  typed_key-inj (bool_value true) (string_value t) h k e = absurd (cc e)
  typed_key-inj (bool_value false) null h k e = absurd (cc e)
  typed_key-inj (bool_value false) (bool_value true) h k e = absurd (cc e)
  typed_key-inj (bool_value false) (bool_value false) h k e = refl
  typed_key-inj (bool_value false) (long_value m) h k e = absurd (cc e)
  typed_key-inj (bool_value false) (int_value m) h k e = absurd (cc e)
  typed_key-inj (bool_value false) (string_value t) h k e = absurd (cc e)
  typed_key-inj (long_value n) null h k e = absurd (cc e)
  typed_key-inj (long_value n) (bool_value true) h k e = absurd (cc e)
  typed_key-inj (long_value n) (bool_value false) h k e = absurd (cc e)
  typed_key-inj (long_value n) (long_value m) h k e = ap long_value (format_int-inj n m (cc e))
  typed_key-inj (long_value n) (int_value m) h k e =
      absurd (omega (arith, ap (λ s. get_or s 3 0) e))
  typed_key-inj (long_value n) (string_value t) h k e = absurd (cc e)
  typed_key-inj (int_value n) null h k e = absurd (cc e)
  typed_key-inj (int_value n) (bool_value true) h k e = absurd (cc e)
  typed_key-inj (int_value n) (bool_value false) h k e = absurd (cc e)
  typed_key-inj (int_value n) (long_value m) h k e =
      absurd (omega (arith, ap (λ s. get_or s 3 0) e))
  typed_key-inj (int_value n) (int_value m) h k e = ap int_value (format_int-inj n m (cc e))
  typed_key-inj (int_value n) (string_value t) h k e = absurd (cc e)
  typed_key-inj (string_value s) null h k e = absurd (cc e)
  typed_key-inj (string_value s) (bool_value true) h k e = absurd (cc e)
  typed_key-inj (string_value s) (bool_value false) h k e = absurd (cc e)
  typed_key-inj (string_value s) (long_value m) h k e = absurd (cc e)
  typed_key-inj (string_value s) (int_value m) h k e = absurd (cc e)
  typed_key-inj (string_value s) (string_value t) h k e = ap string_value (cc e)
  typed_key-inj (real_value f) w h k e = elim h [ ]
  typed_key-inj (decimal_value d) w h k e = elim h [ ]
  typed_key-inj null (real_value f) h k e = elim k [ ]
  typed_key-inj null (decimal_value d) h k e = elim k [ ]
  typed_key-inj (bool_value b) (real_value f) h k e = elim k [ ]
  typed_key-inj (bool_value b) (decimal_value d) h k e = elim k [ ]
  typed_key-inj (long_value n) (real_value f) h k e = elim k [ ]
  typed_key-inj (long_value n) (decimal_value d) h k e = elim k [ ]
  typed_key-inj (int_value n) (real_value f) h k e = elim k [ ]
  typed_key-inj (int_value n) (decimal_value d) h k e = elim k [ ]
  typed_key-inj (string_value s) (real_value f) h k e = elim k [ ]
  typed_key-inj (string_value s) (decimal_value d) h k e = elim k [ ]

  join_key_parts :
      (idxs : List ℕ) (row : Row)
      → join_key real_text idxs row ≡ join_parts (map (λ i. typed_key real_text (cell row i)) idxs)
  unfolding join_key join_parts
  join_key_parts [] row = refl
  join_key_parts (i ∷ []) row = refl
  join_key_parts (i ∷ j ∷ is) row = refl

  cells-typed_key :
      (a b : Row) (is js : List ℕ)
      → SameLength is js
      → All (λ i. IsExact (cell a i)) is
      → All (λ j. IsExact (cell b j)) js
      → map (λ i. typed_key real_text (cell a i)) is ≡ map (λ j. typed_key real_text (cell b j)) js
      → map (λ i. cell a i) is ≡ map (λ j. cell b j) js
  cells-typed_key a b [] [] l h k e = refl
  cells-typed_key a b [] (j ∷ js) l h k e = elim l [ ]
  cells-typed_key a b (i ∷ is) [] l h k e = elim l [ ]
  cells-typed_key a b (i ∷ is) (j ∷ js) l h k e =
      let u : cell a i ≡ cell b j = typed_key-inj (cell a i) (cell b j) h.0 k.0 (cc e) in
      rw (u, cells-typed_key a b is js l h.1 k.1 (cc e)) refl

  typed_keys-map :
      (a : Row) (is : List ℕ)
      → map (λ i. typed_key real_text (cell a i)) is
        ≡ map (typed_key real_text) (map (λ i. cell a i) is)
  typed_keys-map a [] = refl
  typed_keys-map a (i ∷ is) = rw (typed_keys-map a is) refl

  pub join_key_lem :
      (is js : List ℕ) (a b : Row)
      → SameLength is js
      → All (λ i. IsExact (cell a i)) is
      → All (λ j. IsExact (cell b j)) js
      → (join_key real_text is a ≡ join_key real_text js b)
        ↔ (map (λ i. cell a i) is ≡ map (λ j. cell b j) js)
  join_key_lem is js a b l h k = (
    (λ e. cells-typed_key a b is js l h k (
        join_parts-inj (λ i. typed_key real_text (cell a i)) (λ j. typed_key real_text (cell b j))
          is js l
          (All-imp (λ i. IsExact (cell a i)) (λ i. IsPart (typed_key real_text (cell a i))) is
            (λ i x. typed_key-IsPart (cell a i) x) h)
          (All-imp (λ j. IsExact (cell b j)) (λ j. IsPart (typed_key real_text (cell b j))) js
            (λ j x. typed_key-IsPart (cell b j) x) k)
          (sym (join_key_parts is a) ∙ e ∙ join_key_parts js b))),
    λ e.
        join_key_parts is a
        ∙ ap join_parts
            (typed_keys-map a is ∙ ap (map (typed_key real_text)) e ∙ sym (typed_keys-map b js))
        ∙ sym (join_key_parts js b),
  )
