-- ===== src/Tests/Rewrite.antt =====
-- Window calls inside an expression.
use gokql.Base.{◌≡◌, refl, true, false, []}
use gokql.Base.Bytes.{Bytes, codes}
use gokql.Base.Int.{pos}
use gokql.Base.Result.{Result, ok}
use gokql.Types.KqlType.{KqlType, long}
use gokql.Types.Value.{Value, long_value, string_value}
use gokql.Query.Expr.{Expr, binary, column_ref, literal, func_call, args, no_args, op_add}
use gokql.Engine.Rewrite.{contains_window, value_at, row_eval, done}
use gokql.Engine.Rewrite.Calls.{has_window, with_values}
use gokql.Engine.Rewrite.Found.{contains_window_lem}
use gokql.Engine.Rewrite.Values.{window_at, value_at_lem, row_eval_lem}

-- x + f(row_number())
abbrev sample : Expr
sample = binary (column_ref (codes "x")) op_add (
    func_call (codes "f")
      (args (func_call (codes "row_number") no_args (codes "row_number") []) no_args) (codes "f")
      [])

abbrev seven : Expr → Value
seven c = long_value (pos 7)

abbrev any_long : Expr → KqlType
any_long c = long

-- An evaluation that tells the two results apart.
abbrev shown : Expr → Result Bytes Value
shown (binary left op (func_call name (args (literal v t) es) raw names)) = ok v
shown e = ok (string_value [])

evaluated :
    value_at (λ c. done (seven c)) any_long shown sample true ≡ (true, ok (long_value (pos 7)))
unfolding value_at
evaluated = refl

contains_window_example : contains_window sample ≡ has_window sample
contains_window_example = contains_window_lem sample

value_at_example :
    (value_at (window_at seven any_long shown) any_long shown sample true
      ≡ (true, shown (with_values seven any_long sample)))
    × (has_window (with_values seven any_long sample) ≡ false)
value_at_example = value_at_lem seven any_long shown sample true

row_eval_example :
    row_eval (window_at seven any_long shown) any_long shown sample true
    ≡ value_at (window_at seven any_long shown) any_long shown sample true
row_eval_example = row_eval_lem seven any_long shown sample true
