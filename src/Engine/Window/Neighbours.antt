-- ===== src/Engine/Window/Neighbours.antt =====
-- prev and next of pkg/engine/window.go.
use gokql.Base.{
  ℕ, ◌≤◌, ◌<◌, ◌^◌, ◌≡◌, refl, ap, inl, inr, Bool, true, false, ◌||◌, Bool-cases, if◌then◌else◌,
  ltb, leb, ◌==◌, ◌∙◌, ◌⊎◌, arith,
}
use gokql.Base.Int.{ℤ, pos, negsuc, pos_part, neg_part, ◌+ℤ◌, ◌-ℤ◌, leb_ℤ, ltb_ℤ}
use gokql.Base.Result.{ok}
use gokql.Types.Value.{Real, Value, null, long_value, int_value, real_value, Conversions}
use gokql.Functions.Bin.{int64}
use gokql.Engine.Window.{Evaluated, offset_at, read_row, neighbour}

-- Rows outside of the table stay outside in 64 bits.
outside :
    (n : ℕ) (a : ℤ)
    → n < 2 ^ 63
    → pos_part a < 2 ^ 64
    → neg_part a ≤ 2 ^ 63
    → (ltb_ℤ (int64 a) (pos 0) || leb_ℤ (pos n) (int64 a)) ≡ (ltb_ℤ a (pos 0) || leb_ℤ (pos n) a)
unfolding int64
outside n (pos a) h k l = ground arith
outside n (negsuc a) h k l = ground arith

inside :
    (n : ℕ) (a : ℤ)
    → n < 2 ^ 63
    → neg_part a ≤ 2 ^ 63
    → (ltb_ℤ a (pos 0) || leb_ℤ (pos n) a) ≡ false
    → int64 a ≡ a
unfolding int64
inside n (pos a) h l e = ground arith
inside n (negsuc a) h l e = ground arith

few : (argc : ℕ) → 1 ≤ argc → argc ≤ 3 → (ltb argc 1 || ltb 3 argc) ≡ false
few argc a b = ground arith

sum_bounds :
    (i : ℕ) (d : ℤ)
    → i < 2 ^ 63
    → pos_part d < 2 ^ 63
    → neg_part d ≤ 2 ^ 63
    → (pos_part (pos i +ℤ d) < 2 ^ 64) × (neg_part (pos i +ℤ d) ≤ 2 ^ 63)
unfolding ◌+ℤ◌
sum_bounds i d h u v = ground arith

difference_bounds :
    (i : ℕ) (d : ℤ)
    → i < 2 ^ 63
    → pos_part d < 2 ^ 63
    → neg_part d ≤ 2 ^ 63
    → (pos_part (pos i -ℤ d) < 2 ^ 64) × (neg_part (pos i -ℤ d) ≤ 2 ^ 63)
unfolding ◌-ℤ◌
difference_bounds i d h u v = ground arith

module _ (conv : Conversions) (add_real : Real → Real → Real) (argc : ℕ)
    (arg : ℕ → ℕ → Evaluated Value) where
  read_row-int64 :
      (n i : ℕ) (a : ℤ)
      → n < 2 ^ 63
      → pos_part a < 2 ^ 64
      → neg_part a ≤ 2 ^ 63
      → read_row conv add_real argc arg n i (int64 a) ≡ read_row conv add_real argc arg n i a
  unfolding read_row
  read_row-int64 n i a h k l = elim (Bool-cases (ltb_ℤ a (pos 0) || leb_ℤ (pos n) a)) [
    | inl p ↦ rw (read_row, outside n a h k l, p) refl
    | inr p ↦ ap (read_row conv add_real argc arg n i) (inside n a h l p)
  ]

  -- The row that `prev` or `next` reads at row i, before any cut to 64 bits.
  abbrev pub neighbour_index : Bool → ℕ → ℤ → ℤ
  unfolding ◌+ℤ◌ ◌-ℤ◌
  neighbour_index forward i d = if forward then pos i +ℤ d else pos i -ℤ d

  -- What shows a position: the first argument at a row there is, and else the third argument at row
  -- i, where there is one, or null.
  abbrev pub shown_at : ℕ → ℕ → ℤ → Evaluated Value
  shown_at n i (pos m) = if ltb m n then arg 0 m else if argc == 3 then arg 2 i else ok null
  shown_at n i (negsuc m) = if argc == 3 then arg 2 i else ok null

  read_row-shown : (n i : ℕ) (a : ℤ) → read_row conv add_real argc arg n i a ≡ shown_at n i a
  unfolding read_row
  read_row-shown n i (pos m) = elim (Bool-cases (ltb m n)) [
    | inl p ↦
        let e : (ltb_ℤ (pos m) (pos 0) || leb_ℤ (pos n) (pos m)) ≡ false = ground arith in
        rw (read_row, e, p) refl
    | inr p ↦
        let e : (ltb_ℤ (pos m) (pos 0) || leb_ℤ (pos n) (pos m)) ≡ true = ground arith in
        rw (read_row, e, p) refl
  ]
  read_row-shown n i (negsuc m) =
      let e : (ltb_ℤ (negsuc m) (pos 0) || leb_ℤ (pos n) (negsuc m)) ≡ true = ground arith in
      rw (read_row, e) refl

  -- The number in a cell; a float is cut to an integer as the language does.
  abbrev HasNumber : Value → ℤ → Type 0
  HasNumber v d =
      (v ≡ long_value d)
      ⊎ (v ≡ int_value d)
      ⊎ ((f : Real) × (v ≡ real_value f) × (conv.int_of_real f ≡ d))

  -- The offset at row i: the number of the second argument, or 1 where there is none.
  abbrev pub HasOffset : ℕ → ℤ → Type 0
  HasOffset i d =
      (argc ≤ 1) × (d ≡ pos 1) ⊎ (v : Value) × (2 ≤ argc) × (arg 1 i ≡ ok v) × HasNumber v d

  offset_at-HasOffset : (i : ℕ) (d : ℤ) → HasOffset i d → offset_at conv add_real argc arg i ≡ ok d
  unfolding offset_at
  offset_at-HasOffset i d (inl (few_args, e)) =
      let no : leb 2 argc ≡ false = ground arith in rw (offset_at, no, e) refl
  offset_at-HasOffset i d (inr (v, enough, found, inl e)) =
      let yes : leb 2 argc ≡ true = ground arith in rw (offset_at, yes, found, e) refl
  offset_at-HasOffset i d (inr (v, enough, found, inr (inl e))) =
      let yes : leb 2 argc ≡ true = ground arith in rw (offset_at, yes, found, e) refl
  offset_at-HasOffset i d (inr (v, enough, found, inr (inr (f, e, cut)))) =
      let yes : leb 2 argc ≡ true = ground arith in rw (offset_at, yes, found, e, cut) refl

  -- With one to three arguments, fewer than 2^63 rows and an offset (1 by default) that is any 64-bit
  -- integer, prev and next at row i show the first argument at the row at the exact distance, where
  -- there is one, and else the third argument at row i, where there is one, or null: no wrap-around
  -- brings a row from the other end.
  pub neighbour_lem :
      (forward : Bool) (n i : ℕ) (d : ℤ)
      → 1 ≤ argc
      → argc ≤ 3
      → i < n
      → n < 2 ^ 63
      → pos_part d < 2 ^ 63
      → neg_part d ≤ 2 ^ 63
      → HasOffset i d
      → neighbour conv add_real argc arg forward n i ≡ shown_at n i (neighbour_index forward i d)
  unfolding neighbour
  neighbour_lem true n i d h k p q u v o =
      let (x, y) = sum_bounds i d (omega (arith, p, q)) u v in
      rw (neighbour, few argc h k, offset_at-HasOffset i d o)
        (read_row-int64 n i (pos i +ℤ d) q x y ∙ read_row-shown n i (pos i +ℤ d))
  neighbour_lem false n i d h k p q u v o =
      let (x, y) = difference_bounds i d (omega (arith, p, q)) u v in
      rw (neighbour, few argc h k, offset_at-HasOffset i d o)
        (read_row-int64 n i (pos i -ℤ d) q x y ∙ read_row-shown n i (pos i -ℤ d))
