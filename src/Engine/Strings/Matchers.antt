-- ===== src/Engine/Strings/Matchers.antt =====
-- The compiled matchers of pkg/engine/string_ops.go against its reference definition.
use gokql.Base.{◌≡◌, refl, inl, inr, Option-cases, Bool, Option}
use gokql.Base.Bytes.{Bytes}
use gokql.Base.Result.{Result, ok, failed}
use gokql.Query.Expr.{BinaryOp, op_matches_regex}
use gokql.Engine.Strings.{
  StringError, is_string_op_family, is_string_operator, string_op_match, compile_string_matcher,
}

abbrev pub on_text : Result StringError (Bytes → Bool) → Bytes → Result StringError Bool
on_text (ok matches) s = ok (matches s)
on_text (failed e) s = failed e

module _ (lower : Bytes → Bytes) (compile : Bytes → Option (Bytes → Bool))
    (equal_fold : Bytes → Bytes → Bool) where
  -- The matcher compiled for an operator and a pattern gives on each text what stringOpMatch gives, and
  -- is refused, with the same error, exactly where stringOpMatch fails.
  pub compile_string_matcher_lem :
      (op : BinaryOp) (rs s : Bytes)
      → on_text (compile_string_matcher lower compile equal_fold op rs) s
        ≡ string_op_match lower compile equal_fold op s rs
  unfolding compile_string_matcher string_op_match is_string_op_family is_string_operator
  compile_string_matcher_lem op rs s =
      elim op
        as (λ o.
          on_text (compile_string_matcher lower compile equal_fold o rs) s
          ≡ string_op_match lower compile equal_fold o s rs) [
            | op_matches_regex ↦ elim (Option-cases (compile rs)) [
              | inl e ↦ rw (string_op_match, compile_string_matcher, e) refl
              | inr (f, e) ↦ rw (string_op_match, compile_string_matcher, e) refl
            ]
            | _ ↦ refl
          ]
