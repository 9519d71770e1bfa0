-- ===== src/Engine/Rewrite/Found.antt =====
-- What `containsWindow` of pkg/engine/window.go finds.
use gokql.Base.{Bool, true, false, ◌||◌, none, ◌≡◌, refl}
use gokql.Base.Result.{ok}
use gokql.Query.Expr.{
  Expr, Args, AccessPath, column_ref, to_scalar, star, literal, binary, unary, func_call, access,
  between, in_list, has_terms, no_args, args, no_keys, fixed, computed,
}
use gokql.Engine.Rewrite.{
  is_window, is_window_name, rewrite, rewrite_args, rewrite_keys, note_window, contains_window,
}
use gokql.Engine.Rewrite.Calls.{has_window, args_have_window, path_has_window}

join_one : (s a : Bool) → ((s || false) || a) ≡ s || a
join_one true a = refl
join_one false a = refl

join_two : (s a b : Bool) → ((s || false) || a || b) ≡ s || (a || b)
join_two true a b = refl
join_two false a b = refl

join_three : (s a b c : Bool) → ((s || false) || a || b || c) ≡ s || (a || b || c)
join_three true a b c = refl
join_three false a b c = refl

join_args : (s a b : Bool) → (s || a || b) ≡ s || (a || b)
join_args true a b = refl
join_args false a b = refl

join_none : (s : Bool) → (s || false) ≡ s
join_none true = refl
join_none false = refl

mutual
  unfolding rewrite note_window is_window has_window

  rewrite-note : (e : Expr) (s : Bool) → rewrite note_window e s ≡ (s || has_window e, ok none)
  rewrite-note (binary left op right) s =
      rw
        (
          rewrite-note left (s || false),
          rewrite-note right (s || false || has_window left),
          join_two s (has_window left) (has_window right),
        )
        refl
  rewrite-note (unary op e) s = rw (rewrite-note e (s || false), join_one s (has_window e)) refl
  rewrite-note (func_call name xs raw names) s =
      rw
        (
          rewrite_args-note xs (s || is_window_name name),
          join_args s (is_window_name name) (args_have_window xs),
        )
        refl
  rewrite-note (access object path) s =
      rw
        (
          rewrite-note object (s || false),
          rewrite_keys-note path (s || false || has_window object),
          join_two s (has_window object) (path_has_window path),
        )
        refl
  rewrite-note (between e low high negated) s =
      rw
        (
          rewrite-note e (s || false),
          rewrite-note low (s || false || has_window e),
          rewrite-note high (s || false || has_window e || has_window low),
          join_three s (has_window e) (has_window low) (has_window high),
        )
        refl
  rewrite-note (in_list column values table query negated folded) s =
      rw
        (
          rewrite-note column (s || false),
          rewrite_args-note values (s || false || has_window column),
          join_two s (has_window column) (args_have_window values),
        )
        refl
  rewrite-note (has_terms column values all query) s =
      rw
        (
          rewrite-note column (s || false),
          rewrite_args-note values (s || false || has_window column),
          join_two s (has_window column) (args_have_window values),
        )
        refl
  rewrite-note (column_ref name) s = refl
  rewrite-note (to_scalar query names) s = refl
  rewrite-note star s = refl
  rewrite-note (literal v t) s = refl

  rewrite_args-note :
      (es : Args) (s : Bool) → rewrite_args note_window es s ≡ (s || args_have_window es, ok none)
  rewrite_args-note no_args s = rw (join_none s) refl
  rewrite_args-note (args e es) s =
      rw
        (
          rewrite-note e s,
          rewrite_args-note es (s || has_window e),
          join_args s (has_window e) (args_have_window es),
        )
        refl

  rewrite_keys-note :
      (ks : AccessPath) (s : Bool)
      → rewrite_keys note_window ks s ≡ (s || path_has_window ks, ok none)
  rewrite_keys-note no_keys s = rw (join_none s) refl
  rewrite_keys-note (fixed k ks) s = rw (rewrite_keys-note ks s) refl
  rewrite_keys-note (computed k e ks) s =
      rw
        (
          rewrite-note e s,
          rewrite_keys-note ks (s || has_window e),
          join_args s (has_window e) (path_has_window ks),
        )
        refl

-- containsWindow finds exactly whether a window call stands in the expression, at any depth, also in
-- the arguments of another call, in computed keys and in lists.
pub contains_window_lem : (e : Expr) → contains_window e ≡ has_window e
unfolding contains_window
contains_window_lem e = rw (contains_window, rewrite-note e false) refl
