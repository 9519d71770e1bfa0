-- ===== src/Tests/Window.antt =====
-- Window functions over a few rows.
use gokql.Base.{ℕ, zero, suc, ◌≡◌, refl, inl, true, false, [], ◌∷◌, arith}
use gokql.Base.Int.{pos}
use gokql.Base.Result.{ok}
use gokql.Types.KqlType.{long}
use gokql.Types.Value.{Real, Value, null, bool_value, long_value}
use gokql.Functions.Bin.{int64}
use gokql.Engine.Window.{
  row_number, row_cumsum, row_rank_dense, row_rank_min, row_window_session, compute_column,
  neighbour, starting_index,
}
use gokql.Engine.Window.Rows.{arg, HasCell}
use gokql.Engine.Window.Sums.{number_at, sum_at, row_number_lem, row_cumsum_lem}
use gokql.Engine.Window.Ranks.{rank_at, row_rank_lem}
use gokql.Engine.Window.Sessions.{IsSessionCell, row_window_session_lem}
use gokql.Engine.Window.Neighbours.{neighbour_index, shown_at, neighbour_lem}
use gokql.Tests.Plain.{plain}

abbrev add_real : Real → Real → Real
add_real a b = a

-- Terms 5, 5, null, 7, …; every other argument restarts at row 3 alone.
abbrev value : ℕ → ℕ → Value
value zero zero = long_value (pos 5)
value zero (suc zero) = long_value (pos 5)
value zero (suc (suc zero)) = null
value zero (suc (suc (suc i))) = long_value (pos 7)
value (suc k) (suc (suc (suc zero))) = bool_value true
value (suc k) i = bool_value false

numbers :
    compute_column plain add_real 2 (arg value) row_cumsum long 5
    ≡ ok (
        long_value (pos 5)
        ∷ long_value (pos 10)
        ∷ long_value (pos 10)
        ∷ long_value (pos 7)
        ∷ long_value (pos 14)
        ∷ [])
unfolding compute_column
numbers = refl

dense :
    compute_column plain add_real 2 (arg value) row_rank_dense long 5
    ≡ ok (
        long_value (pos 1)
        ∷ long_value (pos 1)
        ∷ long_value (pos 2)
        ∷ long_value (pos 1)
        ∷ long_value (pos 1)
        ∷ [])
unfolding compute_column
dense = refl

row_number_example :
    HasCell
      (compute_column plain add_real 2 (arg value) row_number long 5)
      5
      4
      (λ v. v ≡ long_value (number_at plain add_real 2 value (pos 5) 4))
unfolding starting_index int64
row_number_example =
    row_number_lem plain add_real 2 value long 5 (pos 5) (omega arith) refl refl 4 (omega arith)

row_cumsum_example :
    HasCell
      (compute_column plain add_real 2 (arg value) row_cumsum long 5)
      5
      4
      (λ v. v ≡ long_value (sum_at plain add_real 2 value 4))
row_cumsum_example =
    row_cumsum_lem plain add_real 2 value long 5 (omega arith) (omega arith) refl 4 (omega arith)

row_rank_example :
    HasCell
      (compute_column plain add_real 2 (arg value) row_rank_dense long 5)
      5
      2
      (λ v. v ≡ long_value (pos (rank_at plain add_real 2 value long true 2)))
    × HasCell
        (compute_column plain add_real 2 (arg value) row_rank_min long 5)
        5
        2
        (λ v. v ≡ long_value (pos (rank_at plain add_real 2 value long false 2)))
row_rank_example =
    row_rank_lem plain add_real 2 value long 5 2 (omega arith) (omega arith) (omega arith)

-- Events at 0, 300 and 600 ns, no session longer than 4 ticks, no gap of 5 ticks or more.
abbrev event : ℕ → ℕ → Value
event zero zero = long_value (pos 0)
event zero (suc zero) = long_value (pos 300)
event zero (suc (suc i)) = long_value (pos 600)
event (suc zero) i = long_value (pos 4)
event (suc (suc k)) i = long_value (pos 5)

sessions :
    compute_column plain add_real 3 (arg event) row_window_session long 3
    ≡ ok (long_value (pos 0) ∷ long_value (pos 0) ∷ long_value (pos 600) ∷ [])
unfolding compute_column
sessions = refl

row_window_session_example :
    HasCell
      (compute_column plain add_real 3 (arg event) row_window_session long 3)
      3
      2
      (IsSessionCell plain add_real 3 event 2)
row_window_session_example =
    row_window_session_lem plain add_real 3 event long 3 2 (omega arith) (omega arith) (omega arith)

neighbour_example :
    neighbour plain add_real 1 (arg value) false 5 3
    ≡ shown_at plain add_real 1
        (arg value)
        5
        3
        (neighbour_index plain add_real 1 (arg value) false 3 (pos 1))
neighbour_example =
    neighbour_lem plain add_real 1 (arg value) false 5 3 (pos 1) (omega arith) (omega arith)
      (omega arith) (omega arith) (omega arith) (omega arith) (inl (omega arith, refl))
