-- ===== src/Engine/Window/Ranks.antt =====
-- row_rank_dense and row_rank_min of pkg/engine/window.go, row by row.
use gokql.Base.{
  ℕ, zero, suc, ◌+◌, ◌-◌, ◌≤◌, ◌<◌, ◌==◌, ◌≡◌, refl, sym, ap, inl, inr, Bool, true, false, not,
  ◌||◌, Bool-cases, if◌then◌else◌, arith,
}
use gokql.Base.Int.{pos}
use gokql.Types.KqlType.{KqlType}
use gokql.Types.Value.{Real, Value, null, long_value, Conversions}
use gokql.Engine.Window.{
  each_row, row_rank_dense, row_rank_min, Rank, same_value, rank_row, compute_column,
}
use gokql.Engine.Window.Rows.{
  last_restart, last_restart-le, arg, restarts, restart_at_lem, with_count_lem, Advances, HasCell,
  HasCell-column, each_row-HasColumn,
}

-- How many of the k rows behind row a pass a test.
abbrev pub count : (ℕ → Bool) → ℕ → ℕ → ℕ
count c a zero = 0
count c a (suc k) = let before = count c a k in if c (a + suc k) then suc before else before

no_rest : (i : ℕ) → i - i ≡ 0
no_rest i = omega arith

one_more : (i k : ℕ) → k ≤ i → suc i - k ≡ suc (i - k)
one_more i k h = omega (arith, h)

back : (i k : ℕ) → k ≤ i → k + suc (i - k) ≡ suc i
back i k h = omega (arith, h)

later : (i : ℕ) → (suc i == 0) ≡ false
later i = ground arith

count-more :
    (c : ℕ → Bool) (a i : ℕ)
    → a ≤ i
    → count c a (suc i - a) ≡ (if c (suc i) then suc (count c a (i - a)) else count c a (i - a))
count-more c a i h = rw (one_more i a h, back i a h) refl

module _ (conv : Conversions) (add_real : Real → Real → Real) (argc : ℕ) (value : ℕ → ℕ → Value)
    (t : KqlType) where
  -- Whether a row's value differs from that of the row before, or ranks start again.
  abbrev pub changes : ℕ → Bool
  changes zero = true
  changes (suc i) =
      restarts argc value 1 (suc i)
      || not (same_value conv add_real argc (arg value) t (value 0 (suc i)) (value 0 i))

  -- The dense rank counts the runs of equal values since the last restart; the minimal one is the
  -- place, since then, of the run's first row.
  abbrev pub rank_at : Bool → ℕ → ℕ
  rank_at true j =
      let from = last_restart (restarts argc value 1) j in suc (count changes from (j - from))
  rank_at false j = suc (last_restart changes j - last_restart (restarts argc value 1) j)

  abbrev Ranked : Bool → ℕ → Rank → Type 0
  Ranked dense zero s = Unit
  Ranked dense (suc i) s =
      (s.prev ≡ value 0 i)
      × (s.at ≡ suc (i - last_restart (restarts argc value 1) i))
      × (s.rank ≡ rank_at dense i)

  abbrev place_next : ℕ → Rank → ℕ
  place_next i s = if i == 0 || restarts argc value 1 i then 1 else suc s.at

  abbrev rank_next : Bool → ℕ → Rank → ℕ
  rank_next dense i s =
      if i == 0 || restarts argc value 1 i
      then 1
      else if same_value conv add_real argc (arg value) t (value 0 i) s.prev
      then s.rank
      else if dense
      then suc s.rank
      else place_next i s

  place_next_lem :
      (dense : Bool) (i : ℕ) (s : Rank)
      → Ranked dense i s
      → place_next i s ≡ suc (i - last_restart (restarts argc value 1) i)
  place_next_lem dense zero s h = refl
  place_next_lem dense (suc i) s (e, f, g) =
      let le = last_restart-le (restarts argc value 1) i in
      elim (Bool-cases (restarts argc value 1 (suc i))) [
        | inl p ↦ ground arith
        | inr p ↦ ground arith
      ]

  rank_next_lem :
      (dense : Bool) (i : ℕ) (s : Rank) → Ranked dense i s → rank_next dense i s ≡ rank_at dense i
  rank_next_lem true zero s h = refl
  rank_next_lem false zero s h = refl
  rank_next_lem true (suc i) s (e, f, g) = elim (Bool-cases (restarts argc value 1 (suc i))) [
    | inl p ↦ rw (later i, p, no_rest (suc i)) refl
    | inr p ↦
        let from = last_restart (restarts argc value 1) i in
        let more = count-more changes from i (last_restart-le (restarts argc value 1) i) in
        elim (Bool-cases
          (same_value conv add_real argc (arg value) t (value 0 (suc i)) (value 0 i))) [
            | inl q ↦ rw (later i, p, e, q, g) (rw (p, q) at (ap suc (sym more)))
            | inr q ↦ rw (later i, p, e, q, g) (rw (p, q) at (ap suc (sym more)))
          ]
  ]
  rank_next_lem false (suc i) s (e, f, g) = elim (Bool-cases (restarts argc value 1 (suc i))) [
    | inl p ↦ rw (later i, p, no_rest (suc i)) refl
    | inr p ↦
        elim (Bool-cases
          (same_value conv add_real argc (arg value) t (value 0 (suc i)) (value 0 i))) [
            | inl q ↦ rw (later i, p, e, q, g) refl
            | inr q ↦
                rw
                  (
                    later i,
                    p,
                    e,
                    q,
                    f,
                    one_more i (last_restart (restarts argc value 1) i)
                        (last_restart-le (restarts argc value 1) i),
                  )
                  refl
          ]
  ]

  rank_row-Advances :
      (dense : Bool) (i : ℕ) (s : Rank)
      → Ranked dense i s
      → Advances
          (rank_row conv add_real argc (arg value) t dense)
          (Ranked dense)
          (λ j v. v ≡ long_value (pos (rank_at dense j)))
          i
          s
  unfolding rank_row
  rank_row-Advances dense i s h =
      let next : Rank = record {
        prev = value 0 i;
        rank = rank_next dense i s;
        at = place_next i s;
      } in
      (
        (next, long_value (pos (rank_next dense i s))),
        rw (rank_row, restart_at_lem conv add_real argc value 1 i) refl,
        (refl, place_next_lem dense i s h, rank_next_lem dense i s h),
        ap (λ k. long_value (pos k)) (rank_next_lem dense i s h),
      )

  rank_column :
      (dense : Bool) (n j : ℕ)
      → j < n
      → HasCell
          (each_row
            (rank_row conv add_real argc (arg value) t dense)
            (record { prev = null; rank = 0; at = 0 })
            0
            n)
          n
          j
          (λ v. v ≡ long_value (pos (rank_at dense j)))
  rank_column dense n =
      HasCell-column _ n (λ j v. v ≡ long_value (pos (rank_at dense j)))
        (each_row-HasColumn (rank_row conv add_real argc (arg value) t dense) (Ranked dense) _
          (rank_row-Advances dense) (record { prev = null; rank = 0; at = 0 }) 0 n tt)

  -- With one argument or two that evaluate, both rank functions succeed: the dense rank of a row is
  -- the number of runs of equal values since the last restart, and its minimal rank the place, since
  -- then, of the first row of its run.
  pub row_rank_lem :
      (n j : ℕ)
      → 1 ≤ argc
      → argc ≤ 2
      → j < n
      → HasCell
          (compute_column conv add_real argc (arg value) row_rank_dense t n)
          n
          j
          (λ v. v ≡ long_value (pos (rank_at true j)))
        × HasCell
            (compute_column conv add_real argc (arg value) row_rank_min t n)
            n
            j
            (λ v. v ≡ long_value (pos (rank_at false j)))
  unfolding compute_column
  row_rank_lem n j h k l = (
    rw (compute_column, with_count_lem conv add_real argc value 1 2 _ h k) (rank_column true n j l),
    rw (compute_column, with_count_lem conv add_real argc value 1 2 _ h k)
        (rank_column false n j l),
  )
