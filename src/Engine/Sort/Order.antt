-- ===== src/Engine/Sort/Order.antt =====
-- `less` of pkg/engine/topn.go is an order of rows.
use gokql.Base.{
  zero, suc, Bool-cases, ◌≡◌, ◌⊎◌, refl, inl, inr, Bool, true, false, not, ◌&&◌, List, [], ◌∷◌,
  if◌then◌else◌, arith,
}
use gokql.Base.Int.{ℤ, pos, negsuc, neg_ℤ, ◌≤ℤ◌, ltb_ℤ, eqb_ℤ}
use gokql.Types.KqlType.{KqlType}
use gokql.Types.Value.{Value, null, is_null, Conversions, compare_values}
use gokql.Types.Value.Order.{
  IsStrictWeak, IsOrdering, IsOrdering-nulls, IsOrdering-same, IsOrdering-neg, null_sign,
}
use gokql.Types.Value.Cells.{
  IsPresent, IsCell, IsPresent-not_null, two_nulls, compare_values-IsOrdering,
}
use gokql.Engine.Sort.{SortCol, Row, cell, is_first, is_default, differ, less}

-- By the sign of an order, and by a test where it is 0.
abbrev sign_or : ℤ → Bool → Bool
sign_or x r = if ltb_ℤ x (pos 0) then true else if eqb_ℤ x (pos 0) then r else false

sign_or-asym :
    (x : ℤ) (r s : Bool) → (r ≡ true → s ≡ false) → sign_or x r ≡ true → sign_or (neg_ℤ x) s ≡ false
sign_or-asym (pos zero) r s f h = f h
sign_or-asym (pos (suc n)) r s f h = ground arith
sign_or-asym (negsuc n) r s f h = ground arith

-- With the orders of a and d, of a and b, and of b and d.
sign_or-cotrans :
    (ad ab bd : ℤ) (r s t : Bool)
    → (neg_ℤ ab ≤ℤ pos 0 → ad ≤ℤ pos 0 → bd ≤ℤ pos 0)
    → (ad ≤ℤ pos 0 → neg_ℤ bd ≤ℤ pos 0 → ab ≤ℤ pos 0)
    → (neg_ℤ bd ≤ℤ pos 0 → neg_ℤ ab ≤ℤ pos 0 → neg_ℤ ad ≤ℤ pos 0)
    → (r ≡ true → s ≡ false → t ≡ true)
    → sign_or ad r ≡ true
    → sign_or ab s ≡ false
    → sign_or bd t ≡ true
sign_or-cotrans ad (negsuc n) bd r s t f g h i j k = absurd (ground arith)
sign_or-cotrans (pos (suc n)) ab bd r s t f g h i j k = absurd (ground arith)
sign_or-cotrans ad ab (negsuc n) r s t f g h i j k = ground arith
sign_or-cotrans (pos zero) (pos zero) (pos zero) r s t f g h i j k = i j k
sign_or-cotrans (pos zero) (pos (suc m)) (pos zero) r s t f g h i j k = absurd (ground arith)
sign_or-cotrans (negsuc n) (pos m) (pos zero) r s t f g h i j k = absurd (ground arith)
sign_or-cotrans (pos zero) (pos m) (pos (suc l)) r s t f g h i j k = absurd (ground arith)
sign_or-cotrans (negsuc n) (pos m) (pos (suc l)) r s t f g h i j k = absurd (ground arith)

abbrev first_by {ℓ} : {A : Type ℓ} → (A → A → ℤ) → (A → A → Bool) → A → A → Bool
first_by c lt a b = sign_or (c a b) (lt a b)

first_by-IsStrictWeak {ℓ κ} :
    {A : Type ℓ} (P : A → Type κ) (c : A → A → ℤ) (lt : A → A → Bool)
    → IsOrdering P c
    → IsStrictWeak P lt
    → IsStrictWeak P (first_by c lt)
first_by-IsStrictWeak P c lt o w = record {
  asym = λ a b pa pb h.
      rw (o.flip a b pa pb) (sign_or-asym (c a b) (lt a b) (lt b a) (w.asym a b pa pb) h);
  cotrans = λ a b d pa pb pd.
      let ba = o.flip a b pa pb in
      let da = o.flip a d pa pd in
      let db = o.flip b d pb pd in
      sign_or-cotrans (c a d) (c a b) (c b d) (lt a d) (lt a b) (lt b d)
        (rw ba at (o.trans b a d pb pa pd)) (rw db at (o.trans a d b pa pd pb))
        (rw (db, ba, da) at (o.trans d b a pd pb pa)) (w.cotrans a b d pa pb pd);
}

-- One column's guards, as the sign of its comparison.
column_step :
    (apart before desc rest : Bool) (c : ℤ)
    → (if apart
        then before
        else if eqb_ℤ c (pos 0)
        then rest
        else if desc
        then ltb_ℤ (pos 0) c
        else ltb_ℤ c (pos 0))
      ≡ sign_or
          (if apart then (if before then negsuc 0 else pos 1) else if desc then neg_ℤ c else c)
          rest
column_step true true desc rest c = refl
column_step true false desc rest c = refl
column_step false before desc rest (pos zero) =
    elim desc
      as (λ d.
        (if eqb_ℤ (pos 0) (pos 0) then rest else if d then false else false)
        ≡ sign_or (if d then pos 0 else pos 0) rest) [ true ↦ refl | false ↦ refl ]
column_step false before true rest (pos (suc n)) = ground arith
column_step false before false rest (pos (suc n)) = ground arith
column_step false before true rest (negsuc n) = ground arith
column_step false before false rest (negsuc n) = ground arith

module _ (conv : Conversions) where
  -- The comparison of one column's cells.
  abbrev signed_cmp : SortCol → Value → Value → ℤ
  signed_cmp sc a b =
      if sc.desc then neg_ℤ (compare_values conv sc.type a b) else compare_values conv sc.type a b

  abbrev cell_cmp : SortCol → Value → Value → ℤ
  cell_cmp sc a b =
      if not (is_default sc.nulls) && differ (is_null a) (is_null b)
      then if not (differ (is_null a) (is_first sc.nulls)) then negsuc 0 else pos 1
      else signed_cmp sc a b

  signed_cmp-IsOrdering {κ} :
      (sc : SortCol) (P : Value → Type κ)
      → IsOrdering P (compare_values conv sc.type)
      → IsOrdering P (signed_cmp sc)
  signed_cmp-IsOrdering sc P o = elim (Bool-cases sc.desc) [
    | inl p ↦
        IsOrdering-same P (λ a b. neg_ℤ (compare_values conv sc.type a b)) (signed_cmp sc)
          (λ a b pa pb. rw p refl) (IsOrdering-neg P (compare_values conv sc.type) o)
    | inr p ↦
        IsOrdering-same P (compare_values conv sc.type) (signed_cmp sc) (λ a b pa pb. rw p refl) o
  ]

  IsPresent-IsOrdering : (t : KqlType) → IsOrdering (IsPresent t) (compare_values conv t)
  IsPresent-IsOrdering t = record {
    flip = λ a b pa pb. o.flip a b (inr pa) (inr pb);
    trans = λ a b d pa pb pd. o.trans a b d (inr pa) (inr pb) (inr pd);
  }
    where
      o : IsOrdering (IsCell t) (compare_values conv t)
      o = compare_values-IsOrdering conv t

  -- Nulls are placed where the clause says.
  module _ (sc : SortCol) (placed : is_default sc.nulls ≡ false) where
    both_cells :
        (a b : Value)
        → IsPresent sc.type a
        → IsPresent sc.type b
        → cell_cmp sc a b ≡ signed_cmp sc a b
    unfolding differ
    both_cells a b pa pb =
        rw (placed, IsPresent-not_null conv sc.type a pa, IsPresent-not_null conv sc.type b pb) refl

    both_nulls : (a b : Value) → a ≡ null → b ≡ null → cell_cmp sc a b ≡ pos 0
    unfolding differ is_null
    both_nulls a b ea eb =
        rw (placed, ea, eb, two_nulls conv sc.type null null refl refl)
          (elim sc.desc as (λ d. (if d then neg_ℤ (pos 0) else pos 0) ≡ pos 0) [
            | true ↦ refl
            | false ↦ refl
          ])

    null_left :
        (a b : Value)
        → a ≡ null
        → IsPresent sc.type b
        → cell_cmp sc a b ≡ null_sign (is_first sc.nulls)
    unfolding differ is_null
    null_left a b ea pb =
        rw (placed, ea, IsPresent-not_null conv sc.type b pb)
          (elim (is_first sc.nulls)
            as (λ f. (if not (not f) then negsuc 0 else pos 1) ≡ null_sign f) [
              | true ↦ refl
              | false ↦ refl
            ])

    null_right :
        (a b : Value)
        → IsPresent sc.type a
        → b ≡ null
        → cell_cmp sc a b ≡ neg_ℤ (null_sign (is_first sc.nulls))
    unfolding differ is_null
    null_right a b pa eb =
        rw (placed, eb, IsPresent-not_null conv sc.type a pa)
          (elim (is_first sc.nulls)
            as (λ f. (if not f then negsuc 0 else pos 1) ≡ neg_ℤ (null_sign f)) [
              | true ↦ refl
              | false ↦ refl
            ])

    placed-IsOrdering : IsOrdering (IsCell sc.type) (cell_cmp sc)
    placed-IsOrdering =
        IsOrdering-nulls (λ v. v ≡ null) (IsPresent sc.type) (cell_cmp sc) (is_first sc.nulls)
          (IsOrdering-same (IsPresent sc.type) (signed_cmp sc) (cell_cmp sc) both_cells
            (signed_cmp-IsOrdering sc (IsPresent sc.type) (IsPresent-IsOrdering sc.type)))
          both_nulls null_left null_right

  cell_cmp-IsOrdering : (sc : SortCol) → IsOrdering (IsCell sc.type) (cell_cmp sc)
  unfolding is_default
  cell_cmp-IsOrdering sc = elim (Bool-cases (is_default sc.nulls)) [
    | inl p ↦
        IsOrdering-same (IsCell sc.type) (signed_cmp sc) (cell_cmp sc) (λ a b pa pb. rw p refl)
          (signed_cmp-IsOrdering sc (IsCell sc.type) (compare_values-IsOrdering conv sc.type))
    | inr p ↦ placed-IsOrdering sc p
  ]

  less_first :
      (sc : SortCol) (spec : List SortCol) (a b : Row)
      → less conv (sc ∷ spec) a b
        ≡ sign_or (cell_cmp sc (cell a sc.idx) (cell b sc.idx)) (less conv spec a b)
  unfolding less is_default is_first differ
  less_first sc spec a b =
      let av = cell a sc.idx in
      let bv = cell b sc.idx in
      column_step (not (is_default sc.nulls) && differ (is_null av) (is_null bv))
        (not (differ (is_null av) (is_first sc.nulls))) sc.desc (less conv spec a b)
        (compare_values conv sc.type av bv)

  -- A row whose cells suit the columns of the order.
  abbrev pub HasCells : List SortCol → Row → Type 0
  HasCells [] row = Unit
  HasCells (sc ∷ spec) row = IsCell sc.type (cell row sc.idx) × HasCells spec row

  less-one_more :
      (sc : SortCol) (spec : List SortCol)
      → IsStrictWeak (HasCells spec) (less conv spec)
      → IsStrictWeak (HasCells (sc ∷ spec)) (less conv (sc ∷ spec))
  less-one_more sc spec rest = record {
    asym = λ a b pa pb h.
        rw (less_first sc spec b a) (w.asym a b pa pb (rw (← less_first sc spec a b) h));
    cotrans = λ a b d pa pb pd h k. rw (less_first sc spec b d) (
        w.cotrans a b d pa pb pd (rw (← less_first sc spec a d) h)
          (rw (← less_first sc spec a b) k));
  }
    where
      cells : IsOrdering (HasCells (sc ∷ spec)) (λ a b. cell_cmp sc (cell a sc.idx) (cell b sc.idx))
      cells = record {
        flip = λ a b pa pb.
            (cell_cmp-IsOrdering sc).flip (cell a sc.idx) (cell b sc.idx) (pa.0) (pb.0);
        trans = λ a b d pa pb pd.
            (cell_cmp-IsOrdering sc).trans (cell a sc.idx) (cell b sc.idx) (cell d sc.idx) (pa.0)
              (pb.0) (pd.0);
      }

      others : IsStrictWeak (HasCells (sc ∷ spec)) (less conv spec)
      others = record {
        asym = λ a b pa pb. rest.asym a b (pa.1) (pb.1);
        cotrans = λ a b d pa pb pd. rest.cotrans a b d (pa.1) (pb.1) (pd.1);
      }

      w :
          IsStrictWeak
            (HasCells (sc ∷ spec))
            (first_by (λ a b. cell_cmp sc (cell a sc.idx) (cell b sc.idx)) (less conv spec))
      w =
          first_by-IsStrictWeak (HasCells (sc ∷ spec))
            (λ a b. cell_cmp sc (cell a sc.idx) (cell b sc.idx)) (less conv spec) cells others

  pub less-IsStrictWeak : (spec : List SortCol) → IsStrictWeak (HasCells spec) (less conv spec)
  unfolding less
  less-IsStrictWeak [] = record {
    asym = λ a b pa pb h. refl;
    cotrans = λ a b d pa pb pd h k. absurd (cc h);
  }
  less-IsStrictWeak (sc ∷ spec) = less-one_more sc spec (less-IsStrictWeak spec)

  -- On rows whose cells suit the columns sorted by, NaN excluded, and wherever the clauses place
  -- nulls: where one row sorts before another, the other does not sort before it, and each third row
  -- sorts behind the one or before the other.
  pub less_lem :
      (spec : List SortCol) (a b d : Row)
      → HasCells spec a
      → HasCells spec b
      → HasCells spec d
      → less conv spec a d ≡ true
      → (less conv spec d a ≡ false) × ((less conv spec a b ≡ true) ⊎ (less conv spec b d ≡ true))
  less_lem spec a b d pa pb pd h =
      let w = less-IsStrictWeak spec in
      (
        w.asym a d pa pd h,
        elim (Bool-cases (less conv spec a b)) [
          | inl p ↦ inl p
          | inr p ↦ inr (w.cotrans a b d pa pb pd h p)
        ],
      )
