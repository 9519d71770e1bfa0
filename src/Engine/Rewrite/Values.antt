-- ===== src/Engine/Rewrite/Values.antt =====
-- What `valueAt` and `rowEvaluator` of pkg/engine/window.go compute.
use gokql.Base.{
  Bool, true, false, ◌||◌, Bool-cases, Option, [], if◌then◌else◌, ◌≡◌, inl, inr, refl, sym,
}
use gokql.Base.Bytes.{Bytes}
use gokql.Base.Result.{Result, ok}
use gokql.Types.KqlType.{KqlType}
use gokql.Types.Value.{Value}
use gokql.Query.Expr.{
  Expr, Args, AccessPath, column_ref, to_scalar, star, literal, binary, unary, func_call, access,
  between, in_list, has_terms, no_args, args, no_keys, fixed, computed,
}
use gokql.Engine.Rewrite.{
  is_window, is_window_name, Step, done, or_self, changed, rebuilt, rewrite, rewrite_args,
  rewrite_keys, put_value, value_at, row_eval,
}
use gokql.Engine.Rewrite.Calls.{
  has_window, args_have_window, path_has_window, with_values, args_with_values, path_with_values,
  with_values-none, args_with_values-none, path_with_values-none, has_window-with_values,
}
use gokql.Engine.Rewrite.Found.{contains_window_lem}

changed-rebuilt {ℓ} : {A : Type ℓ} (b : Bool) (x : A) → changed (rebuilt b x) ≡ b
changed-rebuilt true x = refl
changed-rebuilt false x = refl

or_self-rebuilt {ℓ} :
    {A : Type ℓ} (b : Bool) (a x : A) → (b ≡ false → x ≡ a) → or_self a (rebuilt b x) ≡ x
or_self-rebuilt true a x h = refl
or_self-rebuilt false a x h = sym (h refl)

-- A node that is not rebuilt keeps its query.
terms_same :
    {S : Type 0} (b : Bool) (node : Bytes → Expr) (query : Bytes) (s : S)
    → Path
        (S × Result Bytes (Option Expr))
        (s, ok (rebuilt b (node [])))
        (s, ok (rebuilt b (node (if b then [] else query))))
terms_same true node query s = refl
terms_same false node query s = refl

module _ (value_of : Expr → Value) (type_of : Expr → KqlType) where
  changed_mark :
      (e : Expr) → changed (rebuilt (has_window e) (with_values value_of type_of e)) ≡ has_window e
  changed_mark e = changed-rebuilt (has_window e) (with_values value_of type_of e)

  self_mark :
      (e : Expr)
      → or_self e (rebuilt (has_window e) (with_values value_of type_of e))
        ≡ with_values value_of type_of e
  self_mark e =
      or_self-rebuilt (has_window e) e (with_values value_of type_of e)
        (with_values-none value_of type_of e)

  args_changed_mark :
      (es : Args)
      → changed (rebuilt (args_have_window es) (args_with_values value_of type_of es))
        ≡ args_have_window es
  args_changed_mark es =
      changed-rebuilt (args_have_window es) (args_with_values value_of type_of es)

  args_self_mark :
      (es : Args)
      → or_self es (rebuilt (args_have_window es) (args_with_values value_of type_of es))
        ≡ args_with_values value_of type_of es
  args_self_mark es =
      or_self-rebuilt (args_have_window es) es (args_with_values value_of type_of es)
        (args_with_values-none value_of type_of es)

  path_changed_mark :
      (ks : AccessPath)
      → changed (rebuilt (path_has_window ks) (path_with_values value_of type_of ks))
        ≡ path_has_window ks
  path_changed_mark ks = changed-rebuilt (path_has_window ks) (path_with_values value_of type_of ks)

  path_self_mark :
      (ks : AccessPath)
      → or_self ks (rebuilt (path_has_window ks) (path_with_values value_of type_of ks))
        ≡ path_with_values value_of type_of ks
  path_self_mark ks =
      or_self-rebuilt (path_has_window ks) ks (path_with_values value_of type_of ks)
        (path_with_values-none value_of type_of ks)

-- With a value for each window call.
module _ {S : Type 0} (value_of : Expr → Value) (type_of : Expr → KqlType)
    (eval_expr : Expr → Result Bytes Value) where
  abbrev pub window_at : Expr → Step S Bytes Value
  window_at c = done (value_of c)

  abbrev put : Expr → Step S Bytes (Option Expr)
  unfolding put_value
  put = put_value window_at type_of eval_expr

  mutual
    unfolding rewrite put_value is_window has_window with_values

    rewrite-put :
        (e : Expr) (s : S)
        → rewrite put e s ≡ (s, ok (rebuilt (has_window e) (with_values value_of type_of e)))
    rewrite-put (binary left op right) s =
        rw
          (
            rewrite-put left s,
            rewrite-put right s,
            changed_mark value_of type_of left,
            changed_mark value_of type_of right,
            self_mark value_of type_of left,
            self_mark value_of type_of right,
          )
          refl
    rewrite-put (unary op e) s =
        rw (rewrite-put e s, changed_mark value_of type_of e, self_mark value_of type_of e) refl
    rewrite-put (func_call name xs raw names) s = elim (Bool-cases (is_window_name name)) [
      | inl p ↦ rw p refl
      | inr p ↦
          rw
            (
              p,
              rewrite_args-put xs s,
              args_changed_mark value_of type_of xs,
              args_self_mark value_of type_of xs,
            )
            refl
    ]
    rewrite-put (access object path) s =
        rw
          (
            rewrite-put object s,
            rewrite_keys-put path s,
            changed_mark value_of type_of object,
            path_changed_mark value_of type_of path,
            self_mark value_of type_of object,
            path_self_mark value_of type_of path,
          )
          refl
    rewrite-put (between e low high negated) s =
        rw
          (
            rewrite-put e s,
            rewrite-put low s,
            rewrite-put high s,
            changed_mark value_of type_of e,
            changed_mark value_of type_of low,
            changed_mark value_of type_of high,
            self_mark value_of type_of e,
            self_mark value_of type_of low,
            self_mark value_of type_of high,
          )
          refl
    rewrite-put (in_list column values table query negated folded) s =
        rw
          (
            rewrite-put column s,
            rewrite_args-put values s,
            changed_mark value_of type_of column,
            args_changed_mark value_of type_of values,
            self_mark value_of type_of column,
            args_self_mark value_of type_of values,
          )
          refl
    rewrite-put (has_terms column values all query) s =
        rw
          (
            rewrite-put column s,
            rewrite_args-put values s,
            changed_mark value_of type_of column,
            args_changed_mark value_of type_of values,
            self_mark value_of type_of column,
            args_self_mark value_of type_of values,
          )
          (terms_same (has_window column || args_have_window values)
            (has_terms (with_values value_of type_of column)
              (args_with_values value_of type_of values) all)
            query s)
    rewrite-put (column_ref name) s = refl
    rewrite-put (to_scalar query names) s = refl
    rewrite-put star s = refl
    rewrite-put (literal v t) s = refl

    rewrite_args-put :
        (es : Args) (s : S)
        → rewrite_args put es s
          ≡ (s, ok (rebuilt (args_have_window es) (args_with_values value_of type_of es)))
    rewrite_args-put no_args s = refl
    rewrite_args-put (args e es) s =
        rw
          (
            rewrite-put e s,
            rewrite_args-put es s,
            changed_mark value_of type_of e,
            args_changed_mark value_of type_of es,
            self_mark value_of type_of e,
            args_self_mark value_of type_of es,
          )
          refl

    rewrite_keys-put :
        (ks : AccessPath) (s : S)
        → rewrite_keys put ks s
          ≡ (s, ok (rebuilt (path_has_window ks) (path_with_values value_of type_of ks)))
    rewrite_keys-put no_keys s = refl
    rewrite_keys-put (fixed k ks) s =
        rw
          (
            rewrite_keys-put ks s,
            path_changed_mark value_of type_of ks,
            path_self_mark value_of type_of ks,
          )
          refl
    rewrite_keys-put (computed k e ks) s =
        rw
          (
            rewrite-put e s,
            rewrite_keys-put ks s,
            changed_mark value_of type_of e,
            path_changed_mark value_of type_of ks,
            self_mark value_of type_of e,
            path_self_mark value_of type_of ks,
          )
          refl

  -- Where each window call has a value, valueAt evaluates, once, the expression in which each outermost
  -- window call is replaced by its value; no window call is left in it.
  pub value_at_lem :
      (e : Expr) (s : S)
      → (value_at window_at type_of eval_expr e s ≡ (s, eval_expr (with_values value_of type_of e)))
        × (has_window (with_values value_of type_of e) ≡ false)
  unfolding value_at
  value_at_lem e s = (
    rw (value_at, rewrite-put e s, self_mark value_of type_of e) refl,
    has_window-with_values value_of type_of e,
  )

  -- Where each window call has a value, the row evaluator, which evaluates an expression without window
  -- calls as it is, gives what valueAt gives for every expression.
  pub row_eval_lem :
      (e : Expr) (s : S)
      → row_eval window_at type_of eval_expr e s ≡ value_at window_at type_of eval_expr e s
  unfolding row_eval
  row_eval_lem e s = elim (Bool-cases (has_window e)) [
    | inl p ↦ rw (row_eval, contains_window_lem e, p) refl
    | inr p ↦
        rw
          (
            row_eval,
            contains_window_lem e,
            p,
            (value_at_lem e s).0,
            with_values-none value_of type_of e p,
          )
          refl
  ]
