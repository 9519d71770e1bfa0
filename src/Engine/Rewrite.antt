-- ===== src/Engine/Rewrite.antt =====
-- `rewriteExpr`, `containsWindow`, `valueAt` and `rowEvaluator` of pkg/engine/window.go.
pub mod Calls
pub mod Found
pub mod Values
use gokql.Base.{Bool, true, false, ◌||◌, Option, none, some, List, [], ◌∷◌, if◌then◌else◌}
use gokql.Base.Bytes.{Bytes, codes, bytes_eq}
use gokql.Base.Result.{Result, ok, failed}
use gokql.Types.KqlType.{KqlType}
use gokql.Types.Value.{Value}
use gokql.Query.Expr.{
  Expr, Args, AccessPath, column_ref, to_scalar, star, literal, binary, unary, func_call, access,
  between, in_list, has_terms, no_args, args, no_keys, fixed, computed,
}

unfoldable pub is_window_name : Bytes → Bool
unfolding bytes_eq
is_window_name s =
    bytes_eq s (codes "row_number")
    || bytes_eq s (codes "prev")
    || bytes_eq s (codes "next")
    || bytes_eq s (codes "row_cumsum")
    || bytes_eq s (codes "row_rank_dense")
    || bytes_eq s (codes "row_rank_min")
    || bytes_eq s (codes "row_window_session")

unfoldable pub is_window : Expr → Bool
unfolding is_window_name
is_window (func_call name xs raw names) = is_window_name name
is_window e = false

-- A call that may write what its closure captures, and may fail.
abbrev pub Step : Type 0 → Type 0 → Type 0 → Type 0
Step S E A = S → S × Result E A

module _ {S E : Type 0} where
  abbrev pub done : {A : Type 0} → A → Step S E A
  done a s = (s, ok a)

  abbrev pub after : {A B : Type 0} → Result E A → S → (A → Step S E B) → S × Result E B
  after (ok a) s f = f a s
  after (failed e) s f = (s, failed e)

  infixl 5 ◌>>=◌
  abbrev pub ◌>>=◌ : {A B : Type 0} → Step S E A → (A → Step S E B) → Step S E B
  ◌>>=◌ m f s = let r = m s in after (r.1) (r.0) f

-- None stands for the node itself, which is shared, and some for a node in its place.
abbrev pub or_self {ℓ} : {A : Type ℓ} → A → Option A → A
or_self a none = a
or_self a (some b) = b

abbrev pub changed {ℓ} : {A : Type ℓ} → Option A → Bool
changed none = false
changed (some a) = true

abbrev pub rebuilt {ℓ} : {A : Type ℓ} → Bool → A → Option A
rebuilt b a = if b then some a else none

module _ {S E : Type 0} (fn : Expr → Step S E (Option Expr)) where
  abbrev pub replace : Expr → Step S E (Option Expr) → Step S E (Option Expr)
  replace e rest = fn e >>= λ r. elim r [ none ↦ rest | some x ↦ done (some x) ]

  unfoldable mutual
    pub rewrite : Expr → Step S E (Option Expr)
    rewrite (column_ref name) = replace (column_ref name) (done none)
    rewrite (to_scalar query names) = replace (to_scalar query names) (done none)
    rewrite star = replace star (done none)
    rewrite (literal v t) = replace (literal v t) (done none)
    rewrite (binary left op right) = replace (binary left op right) (do
      l ← rewrite left
      r ← rewrite right
      done (rebuilt (changed l || changed r) (binary (or_self left l) op (or_self right r))))
    rewrite (unary op e) =
        replace (unary op e)
          (do inner ← rewrite e; done (rebuilt (changed inner) (unary op (or_self e inner))))
    rewrite (func_call name xs raw names) = replace (func_call name xs raw names) (do
      ys ← rewrite_args xs
      done (rebuilt (changed ys) (func_call name (or_self xs ys) raw names)))
    rewrite (access object path) = replace (access object path) (do
      obj ← rewrite object
      keys ← rewrite_keys path
      done
          (rebuilt (changed obj || changed keys) (access (or_self object obj) (or_self path keys))))
    rewrite (between e low high negated) = replace (between e low high negated) (do
      v ← rewrite e
      lo ← rewrite low
      hi ← rewrite high
      done (
          rebuilt (changed v || changed lo || changed hi)
            (between (or_self e v) (or_self low lo) (or_self high hi) negated)))
    rewrite (in_list column values table query negated folded) =
        replace (in_list column values table query negated folded) (do
          col ← rewrite column
          vals ← rewrite_args values
          done (
              rebuilt (changed col || changed vals)
                (in_list (or_self column col) (or_self values vals) table query negated folded)))
    -- A rebuilt node has no query.
    rewrite (has_terms column values all query) = replace (has_terms column values all query) (do
      col ← rewrite column
      vals ← rewrite_args values
      done (
          rebuilt (changed col || changed vals)
            (has_terms (or_self column col) (or_self values vals) all [])))

    pub rewrite_args : Args → Step S E (Option Args)
    rewrite_args no_args = done none
    rewrite_args (args e es) = do
      r ← rewrite e
      rs ← rewrite_args es
      done (rebuilt (changed r || changed rs) (args (or_self e r) (or_self es rs)))

    pub rewrite_keys : AccessPath → Step S E (Option AccessPath)
    rewrite_keys no_keys = done none
    rewrite_keys (fixed k ks) = do
      rs ← rewrite_keys ks
      done (rebuilt (changed rs) (fixed k (or_self ks rs)))
    rewrite_keys (computed k e ks) = do
      r ← rewrite e
      rs ← rewrite_keys ks
      done (rebuilt (changed r || changed rs) (computed k (or_self e r) (or_self ks rs)))

-- `found`, set at each window call; no node is replaced.
unfoldable pub note_window : Expr → Step Bool Bytes (Option Expr)
unfolding is_window
note_window e found = (found || is_window e, ok none)

unfoldable pub contains_window : Expr → Bool
unfolding rewrite note_window
contains_window e = (rewrite note_window e false).0

-- With the value of a window call at the row, the type of a call, and the evaluation of an expression
-- without window calls; the columns that are kept for a call are values too.
module _ {S : Type 0} (window_at : Expr → Step S Bytes Value) (type_of : Expr → KqlType)
    (eval_expr : Expr → Result Bytes Value) where
  unfoldable pub put_value : Expr → Step S Bytes (Option Expr)
  unfolding is_window
  put_value e =
      if is_window e then (window_at e >>= λ v. done (some (literal v (type_of e)))) else done none

  unfoldable pub value_at : Expr → Step S Bytes Value
  unfolding rewrite put_value
  value_at e = rewrite put_value e >>= λ r. (λ s. (s, eval_expr (or_self e r)))

  -- Only an expression with a window call goes through the window evaluation.
  unfoldable pub row_eval : Expr → Step S Bytes Value
  unfolding contains_window value_at
  row_eval e = if contains_window e then value_at e else (λ s. (s, eval_expr e))
