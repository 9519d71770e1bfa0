-- ===== src/Engine/Window/Sums.antt =====
-- row_number and row_cumsum of pkg/engine/window.go, row by row.
use gokql.Base.{
  ℕ, zero, suc, ◌+◌, ◌-◌, ◌≤◌, ◌<◌, ◌==◌, ◌≡◌, refl, sym, ap, ◌∙◌, inl, inr, Bool, true, false,
  ◌||◌, Bool-cases, if◌then◌else◌, arith,
}
use gokql.Base.Int.{ℤ, pos, ◌+ℤ◌, int_laws}
use gokql.Base.Result.{ok}
use gokql.Types.KqlType.{KqlType}
use gokql.Types.Value.{Real, num, Value, long_value, Conversions, is_null, or_zero}
use gokql.Functions.Bin.{int64}
use gokql.Engine.Window.{
  row_number, row_cumsum, is_integral, number_of_value, starting_index, number_row, add_term,
  sum_row, compute_column,
}
use gokql.Engine.Window.Rows.{
  last_restart, last_restart-le, Advances, arg, restarts, restart_at_lem, with_count_lem, HasCell,
  HasCell-column, each_row-HasColumn,
}
use gokql.Engine.Window.Wrap.{int64-add}

add_one : (s : ℤ) (k : ℕ) → s +ℤ pos k +ℤ pos 1 ≡ s +ℤ pos (suc k)
add_one s k = grind int_laws

add_none : (s : ℤ) → s +ℤ pos 0 ≡ s
add_none s = grind int_laws

no_rest : (i : ℕ) → i - i ≡ 0
no_rest i = omega arith

one_more : (i k : ℕ) → k ≤ i → suc (i - k) ≡ suc i - k
one_more i k h = omega (arith, h)

later : (i : ℕ) → (suc i == 0) ≡ false
later i = ground arith

-- The sum of k integers from f a.
unfoldable pub sum_from : (ℕ → ℤ) → ℕ → ℕ → ℤ
unfolding ◌+ℤ◌
sum_from f a zero = pos 0
sum_from f a (suc k) = sum_from f a k +ℤ f (a + k)

sum_one : (f : ℕ → ℤ) (a : ℕ) → sum_from f a 1 ≡ pos 0 +ℤ f a
unfolding sum_from
sum_one f a = ap (λ k. pos 0 +ℤ f k) (at_start a)
  where
    at_start : (k : ℕ) → k + 0 ≡ k
    at_start k = omega arith

sum_more : (f : ℕ → ℤ) (a k : ℕ) → sum_from f a (suc k) ≡ sum_from f a k +ℤ f (a + k)
unfolding sum_from
sum_more f a k = refl

int64-zero : pos 0 ≡ int64 (pos 0)
unfolding int64
int64-zero = refl

started :
    (r : Bool) (s : ℤ × Real)
    → s.0 ≡ pos 0
    → (if r then (pos 0, num (pos 0)) else s).0 ≡ int64 (pos 0)
started true s h = int64-zero
started false s h = h ∙ int64-zero

one_term : (k : ℕ) → suc (suc k) - suc k ≡ 1
one_term k = omega arith

more_terms : (k a : ℕ) → a ≤ k → suc (suc k) - a ≡ suc (suc k - a)
more_terms k a h = omega (arith, h)

back : (k a : ℕ) → a ≤ k → a + (suc k - a) ≡ suc k
back k a h = omega (arith, h)

-- With arguments that evaluate.
module _ (conv : Conversions) (add_real : Real → Real → Real) (argc : ℕ)
    (value : ℕ → ℕ → Value) where
  -- The number of a row: the starting index, and one more for each row since the last restart.
  abbrev pub number_at : ℤ → ℕ → ℤ
  unfolding ◌+ℤ◌ int64
  number_at start j = int64 (start +ℤ pos (j - last_restart (restarts argc value 1) j))

  abbrev Numbered : ℤ → ℕ → ℤ → Type 0
  Numbered start zero cur = Unit
  Numbered start (suc i) cur = cur ≡ number_at start i

  number_row-next :
      (start : ℤ) (i : ℕ) (cur : ℤ)
      → int64 start ≡ start
      → Numbered start i cur
      → (if i == 0 || restarts argc value 1 i then start else int64 (cur +ℤ pos 1))
        ≡ number_at start i
  unfolding number_at
  number_row-next start zero cur e h = rw (add_none start) (sym e)
  number_row-next start (suc i) cur e h = elim (Bool-cases (restarts argc value 1 (suc i))) [
    | inl p ↦ rw (later i, p, no_rest (suc i), add_none start) (sym e)
    | inr p ↦
        rw
          (
            later i,
            p,
            h,
            int64-add (start +ℤ pos (i - last_restart (restarts argc value 1) i)) (pos 1),
            add_one start (i - last_restart (restarts argc value 1) i),
            one_more i (last_restart (restarts argc value 1) i)
                (last_restart-le (restarts argc value 1) i),
          )
          refl
  ]

  number_row-Advances :
      (start : ℤ)
      → int64 start ≡ start
      → (i : ℕ) (cur : ℤ) → Numbered start i cur
      → Advances
          (number_row conv add_real argc (arg value) start)
          (Numbered start)
          (λ j v. v ≡ long_value (number_at start j))
          i
          cur
  unfolding number_row
  number_row-Advances start e i cur h = (
    (number_at start i, long_value (number_at start i)),
    rw (number_row, restart_at_lem conv add_real argc value 1 i, number_row-next start i cur e h)
        refl,
    refl,
    refl,
  )

  -- The integer that a term adds.
  abbrev pub term : Value → ℤ
  term v = if is_null v then pos 0 else or_zero (number_of_value conv add_real argc (arg value) v)

  -- The terms since the last restart, added without bound and then cut to 64 bits.
  abbrev pub sum_at : ℕ → ℤ
  unfolding sum_from int64
  sum_at j =
      let from = last_restart (restarts argc value 1) j in
      int64 (sum_from (λ i. term (value 0 i)) from (suc j - from))

  abbrev Summed : ℕ → ℤ × Real → Type 0
  Summed zero s = s.0 ≡ pos 0
  Summed (suc i) s = s.0 ≡ sum_at i

  add_term_lem :
      (x : ℤ) (s : ℤ × Real) (v : Value)
      → s.0 ≡ int64 x
      → (add_term conv add_real argc (arg value) true s v).0 ≡ int64 (x +ℤ term v)
  unfolding add_term
  add_term_lem x (a, f) v h = elim (Bool-cases (is_null v)) [
    | inl p ↦ rw (add_term, p) (h ∙ ap int64 (sym (add_none x)))
    | inr p ↦
        rw (add_term, p, h)
          (int64-add x (or_zero (number_of_value conv add_real argc (arg value) v)))
  ]

  sum_row-next :
      (i : ℕ) (s : ℤ × Real)
      → Summed i s
      → (add_term conv add_real argc
          (arg value)
          true
          (if restarts argc value 1 i then (pos 0, num (pos 0)) else s)
          (value 0 i)).0
        ≡ sum_at i
  unfolding sum_at
  sum_row-next zero s h = rw (sum_one (λ k. term (value 0 k)) 0) (
      add_term_lem (pos 0) (if restarts argc value 1 0 then (pos 0, num (pos 0)) else s) (value 0 0)
        (started (restarts argc value 1 0) s h))
  sum_row-next (suc i) (a, f) h = elim (Bool-cases (restarts argc value 1 (suc i))) [
    | inl p ↦
        rw (p, one_term i, sum_one (λ k. term (value 0 k)) (suc i))
          (add_term_lem (pos 0) (pos 0, num (pos 0)) (value 0 (suc i)) int64-zero)
    | inr p ↦
        let from = last_restart (restarts argc value 1) i in
        let le = last_restart-le (restarts argc value 1) i in
        rw
          (
            p,
            more_terms i from le,
            sum_more (λ k. term (value 0 k)) from (suc i - from),
            back i from le,
          )
          (add_term_lem (sum_from (λ k. term (value 0 k)) from (suc i - from)) (a, f)
            (value 0 (suc i)) h)
  ]

  sum_row-Advances :
      (i : ℕ) (s : ℤ × Real)
      → Summed i s
      → Advances
          (sum_row conv add_real argc (arg value) true)
          Summed
          (λ j v. v ≡ long_value (sum_at j))
          i
          s
  unfolding sum_row
  sum_row-Advances i s h =
      let now : ℤ × Real =
        add_term conv add_real argc (arg value) true
          (if restarts argc value 1 i then (pos 0, num (pos 0)) else s) (value 0 i) in
      (
        (now, long_value (now.0)),
        rw (sum_row, restart_at_lem conv add_real argc value 1 i) refl,
        sum_row-next i s h,
        ap long_value (sum_row-next i s h),
      )

  -- With at most two arguments that evaluate, a starting index that is a 64-bit integer, and any
  -- number of rows, row_number succeeds, and numbers each row by the starting index plus the count of
  -- rows since the last restart, in 64 bits.
  pub row_number_lem :
      (t : KqlType) (n : ℕ) (start : ℤ)
      → argc ≤ 2
      → int64 start ≡ start
      → starting_index conv add_real argc (arg value) n ≡ ok start
      → (j : ℕ) → j < n
      → HasCell
          (compute_column conv add_real argc (arg value) row_number t n)
          n
          j
          (λ v. v ≡ long_value (number_at start j))
  unfolding compute_column
  row_number_lem t n start h e f =
      rw (compute_column, with_count_lem conv add_real argc value 0 2 _ (omega arith) h, f)
        (HasCell-column _ n (λ j v. v ≡ long_value (number_at start j))
          (each_row-HasColumn (number_row conv add_real argc (arg value) start) (Numbered start) _
            (number_row-Advances start e) start 0 n tt))

  -- With one argument or two that evaluate and a term whose type is int, long or timespan, row_cumsum
  -- succeeds, and each row has the exact sum of the terms since the last restart, nulls left out, cut
  -- to 64 bits once.
  pub row_cumsum_lem :
      (t : KqlType) (n : ℕ)
      → 1 ≤ argc
      → argc ≤ 2
      → is_integral t ≡ true
      → (j : ℕ) → j < n
      → HasCell
          (compute_column conv add_real argc (arg value) row_cumsum t n)
          n
          j
          (λ v. v ≡ long_value (sum_at j))
  unfolding compute_column
  row_cumsum_lem t n h k e =
      rw (compute_column, with_count_lem conv add_real argc value 1 2 _ h k, e)
        (HasCell-column _ n (λ j v. v ≡ long_value (sum_at j))
          (each_row-HasColumn (sum_row conv add_real argc (arg value) true) Summed _
            sum_row-Advances (pos 0, num (pos 0)) 0 n refl))
