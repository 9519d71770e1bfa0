-- ===== src/Engine/Window.antt =====
-- The window functions of pkg/engine/window.go over the rows of a table, in their order.
pub mod Rows
pub mod Wrap
pub mod Sums
pub mod Ranks
pub mod Sessions
pub mod Neighbours
use gokql.Base.{
  ℕ, zero, suc, ◌+◌, ◌-◌, ◌==◌, Bool, true, false, not, ◌&&◌, ◌||◌, Option, none, some, List, [],
  ◌∷◌, if◌then◌else◌, ltb, leb,
}
use gokql.Base.Bytes.{Bytes}
use gokql.Base.Int.{ℤ, pos, negsuc, ◌+ℤ◌, ◌-ℤ◌, ◌*ℤ◌, leb_ℤ, ltb_ℤ, eqb_ℤ, pos_part}
use gokql.Base.Result.{Result, ok, failed, ◌>>=◌}
use gokql.Types.KqlType.{KqlType, int, long, timespan}
use gokql.Types.Value.{
  Real, num, Value, null, bool_value, long_value, int_value, real_value, Conversions, is_null,
  or_zero, value_to_int64, value_to_float64, compare_values,
}
use gokql.Functions.Bin.{int64}

pub data WindowFunc : Type 0 where
  row_number row_cumsum row_rank_dense row_rank_min row_window_session : WindowFunc

pub data WindowError : Type 0 where
  evaluation : Bytes → WindowError
  argument_count not_an_integer : WindowError

abbrev pub Evaluated : Type 0 → Type 0
Evaluated A = Result WindowError A

-- A loop over `left` rows from row i: a step gives the state for the next row, and the row's value.
unfoldable pub each_row :
    {S : Type 0} → (S → ℕ → Evaluated (S × Value)) → S → ℕ → ℕ → Evaluated (List Value)
each_row step s i zero = ok []
each_row step s i (suc left) = do
  (next, v) ← step s i
  out ← each_row step next (suc i) left
  ok (v ∷ out)

abbrev pub truth : Value → Bool
truth (bool_value b) = b
truth v = false

-- `sumIsIntegral`, of a term's type
abbrev pub is_integral : KqlType → Bool
is_integral int = true
is_integral long = true
is_integral timespan = true
is_integral t = false

-- The distances of a session are in ticks of 100 ns.
abbrev pub ticks : ℤ → ℤ
unfolding ◌*ℤ◌ int64
ticks d = int64 (d *ℤ pos 100)

pub record Rank : Type 0 where
  pub prev : Value
  pub rank : ℕ
  pub at : ℕ

pub record Session : Type 0 where
  pub start : ℤ
  pub prev : ℤ

-- With the addition of floats, the number of the call's arguments, and argument k at row i.
module _ (conv : Conversions) (add_real : Real → Real → Real) (argc : ℕ)
    (arg : ℕ → ℕ → Evaluated Value) where
  -- `toInt64` of func_net.go
  unfoldable pub number_of_value : Value → Option ℤ
  number_of_value (long_value n) = some n
  number_of_value (int_value n) = some n
  number_of_value (real_value f) = some (conv.int_of_real f)
  number_of_value v = none

  unfoldable pub restart_at : ℕ → ℕ → Evaluated Bool
  restart_at k i = if leb argc k then ok false else (arg k i >>= λ v. ok (truth v))

  unfoldable pub same_value : KqlType → Value → Value → Bool
  unfolding is_null compare_values
  same_value t a b =
      if is_null a || is_null b
      then is_null a && is_null b
      else eqb_ℤ (compare_values conv t a b) (pos 0)

  -- A call without a starting index, or over no rows, starts at 1.
  unfoldable pub starting_index : ℕ → Evaluated ℤ
  unfolding number_of_value
  starting_index n =
      if leb 1 argc && ltb 0 n
      then (arg 0 0 >>= λ v. elim (number_of_value v) [
        | none ↦ failed not_an_integer
        | some s ↦ ok s
      ])
      else ok (pos 1)

  unfoldable pub number_row : ℤ → ℤ → ℕ → Evaluated (ℤ × Value)
  unfolding restart_at ◌+ℤ◌ int64
  number_row start cur i = do
    r ← restart_at 1 i
    let now = if i == 0 || r then start else int64 (cur +ℤ pos 1)
    ok (now, long_value now)

  -- Both sums are kept; the term's type says which of them is shown.
  unfoldable pub add_term : Bool → ℤ × Real → Value → ℤ × Real
  unfolding number_of_value or_zero value_to_float64 is_null ◌+ℤ◌ int64
  add_term integral (isum, fsum) v =
      if is_null v
      then (isum, fsum)
      else if integral
      then (int64 (isum +ℤ or_zero (number_of_value v)), fsum)
      else (isum, add_real fsum (value_to_float64 conv v))

  unfoldable pub sum_row : Bool → ℤ × Real → ℕ → Evaluated ((ℤ × Real) × Value)
  unfolding restart_at add_term
  sum_row integral sums i = do
    r ← restart_at 1 i
    v ← arg 0 i
    let now = add_term integral (if r then (pos 0, num (pos 0)) else sums) v
    ok (now, if integral then long_value (now.0) else real_value (now.1))

  unfoldable pub rank_row : KqlType → Bool → Rank → ℕ → Evaluated (Rank × Value)
  unfolding restart_at same_value
  rank_row t dense s i = do
    v ← arg 0 i
    r ← restart_at 1 i
    let at = if i == 0 || r then 1 else suc s.at
    let rank =
        if i == 0 || r
        then 1
        else if same_value t v s.prev
        then s.rank
        else if dense
        then suc s.rank
        else at
    ok (record { prev = v; rank = rank; at = at }, long_value (pos rank))

  -- Whether x opens a session, with the distances from its first value and from the value before.
  unfoldable pub opens : Option Session → Bool → ℤ → ℤ → ℤ → Bool
  unfolding ◌+ℤ◌ int64
  opens none r x d1 d2 = true
  opens (some s) r x d1 d2 = r || leb_ℤ (int64 (s.start +ℤ d1)) x || leb_ℤ (int64 (s.prev +ℤ d2)) x

  abbrev pub start_of : Option Session → ℤ → ℤ
  start_of none x = x
  start_of (some s) x = s.start

  unfoldable pub session_row : Option Session → ℕ → Evaluated (Option Session × Value)
  unfolding restart_at value_to_int64 opens is_null
  session_row s i = do
    v ← arg 0 i
    d1 ← arg 1 i
    d2 ← arg 2 i
    r ← restart_at 3 i
    let x = value_to_int64 conv v
    let start =
        if opens s r x (ticks (value_to_int64 conv d1)) (ticks (value_to_int64 conv d2))
        then x
        else start_of s x
    if is_null v
        then ok (none, null)
        else ok (some (record { start = start; prev = x }), long_value start)

  abbrev pub with_count : ℕ → ℕ → Evaluated (List Value) → Evaluated (List Value)
  with_count lo hi out = if ltb argc lo || ltb hi argc then failed argument_count else out

  -- `computeColumn` over n rows, with the type of the first argument.
  unfoldable pub compute_column : WindowFunc → KqlType → ℕ → Evaluated (List Value)
  unfolding each_row starting_index number_row sum_row rank_row session_row
  compute_column row_number t n =
      with_count 0 2 (starting_index n >>= λ start. each_row (number_row start) start 0 n)
  compute_column row_cumsum t n =
      with_count 1 2 (each_row (sum_row (is_integral t)) (pos 0, num (pos 0)) 0 n)
  compute_column row_rank_dense t n =
      with_count 1 2 (each_row (rank_row t true) (record { prev = null; rank = 0; at = 0 }) 0 n)
  compute_column row_rank_min t n =
      with_count 1 2 (each_row (rank_row t false) (record { prev = null; rank = 0; at = 0 }) 0 n)
  compute_column row_window_session t n = with_count 3 4 (each_row session_row none 0 n)

  -- The offset of `prev` and `next`, 1 where it is left out.
  unfoldable pub offset_at : ℕ → Evaluated ℤ
  unfolding number_of_value
  offset_at i =
      if leb 2 argc
      then (arg 1 i >>= λ v. elim (number_of_value v) [
        | none ↦ failed not_an_integer
        | some n ↦ ok n
      ])
      else ok (pos 1)

  unfoldable pub read_row : ℕ → ℕ → ℤ → Evaluated Value
  read_row n i j =
      if ltb_ℤ j (pos 0) || leb_ℤ (pos n) j
      then if argc == 3 then arg 2 i else ok null
      else arg 0 (pos_part j)

  -- `prev` and `next` at row i of n rows: the branch of `windowAt` that reads another row.
  unfoldable pub neighbour : Bool → ℕ → ℕ → Evaluated Value
  unfolding offset_at read_row ◌+ℤ◌ ◌-ℤ◌ int64
  neighbour forward n i =
      if ltb argc 1 || ltb 3 argc
      then failed argument_count
      else (offset_at i >>= λ d. read_row n i (int64 (if forward then pos i +ℤ d else pos i -ℤ d)))
