-- ===== src/Engine/Rewrite/Calls.antt =====
-- The window calls of an expression, and the expression with a value for each.
use gokql.Base.{Bool, true, false, ◌||◌, Bool-cases, [], if◌then◌else◌, ◌≡◌, inl, inr, refl}
use gokql.Types.KqlType.{KqlType}
use gokql.Types.Value.{Value}
use gokql.Query.Expr.{
  Expr, Args, AccessPath, column_ref, to_scalar, star, literal, binary, unary, func_call, access,
  between, in_list, has_terms, no_args, args, no_keys, fixed, computed,
}
use gokql.Engine.Rewrite.{is_window_name}

unfoldable mutual
  pub has_window : Expr → Bool
  has_window (binary left op right) = has_window left || has_window right
  has_window (unary op e) = has_window e
  has_window (func_call name xs raw names) = is_window_name name || args_have_window xs
  has_window (access object path) = has_window object || path_has_window path
  has_window (between e low high negated) = has_window e || has_window low || has_window high
  has_window (in_list column values table query negated folded) =
      has_window column || args_have_window values
  has_window (has_terms column values all query) = has_window column || args_have_window values
  has_window (column_ref name) = false
  has_window (to_scalar query names) = false
  has_window star = false
  has_window (literal v t) = false

  pub args_have_window : Args → Bool
  args_have_window no_args = false
  args_have_window (args e es) = has_window e || args_have_window es

  pub path_has_window : AccessPath → Bool
  path_has_window no_keys = false
  path_has_window (fixed k ks) = path_has_window ks
  path_has_window (computed k e ks) = has_window e || path_has_window ks

or_false : (a b : Bool) → (a || b) ≡ false → (a ≡ false) × (b ≡ false)
or_false false b h = (refl, h)
or_false true b h = cc h

module _ (value_of : Expr → Value) (type_of : Expr → KqlType) where
  -- An outermost window call becomes its value.
  unfoldable mutual
    unfolding has_window

    pub with_values : Expr → Expr
    with_values (binary left op right) = binary (with_values left) op (with_values right)
    with_values (unary op e) = unary op (with_values e)
    with_values (func_call name xs raw names) =
        let c = func_call name xs raw names in
        let ys = args_with_values xs in
        if is_window_name name
        then literal (value_of c) (type_of c)
        else func_call name ys raw names
    with_values (access object path) = access (with_values object) (path_with_values path)
    with_values (between e low high negated) =
        between (with_values e) (with_values low) (with_values high) negated
    with_values (in_list column values table query negated folded) =
        in_list (with_values column) (args_with_values values) table query negated folded
    with_values (has_terms column values all query) =
        has_terms (with_values column) (args_with_values values) all
          (if has_window column || args_have_window values then [] else query)
    with_values (column_ref name) = column_ref name
    with_values (to_scalar query names) = to_scalar query names
    with_values star = star
    with_values (literal v t) = literal v t

    pub args_with_values : Args → Args
    args_with_values no_args = no_args
    args_with_values (args e es) = args (with_values e) (args_with_values es)

    pub path_with_values : AccessPath → AccessPath
    path_with_values no_keys = no_keys
    path_with_values (fixed k ks) = fixed k (path_with_values ks)
    path_with_values (computed k e ks) = computed k (with_values e) (path_with_values ks)

  mutual
    unfolding has_window with_values

    pub with_values-none : (e : Expr) → has_window e ≡ false → with_values e ≡ e
    with_values-none (binary left op right) h =
        let (a, b) = or_false (has_window left) (has_window right) h in
        rw (with_values-none left a, with_values-none right b) refl
    with_values-none (unary op e) h = rw (with_values-none e h) refl
    with_values-none (func_call name xs raw names) h =
        let (a, b) = or_false (is_window_name name) (args_have_window xs) h in
        rw (a, args_with_values-none xs b) refl
    with_values-none (access object path) h =
        let (a, b) = or_false (has_window object) (path_has_window path) h in
        rw (with_values-none object a, path_with_values-none path b) refl
    with_values-none (between e low high negated) h =
        let (ab, c) = or_false (has_window e || has_window low) (has_window high) h in
        let (a, b) = or_false (has_window e) (has_window low) ab in
        rw (with_values-none e a, with_values-none low b, with_values-none high c) refl
    with_values-none (in_list column values table query negated folded) h =
        let (a, b) = or_false (has_window column) (args_have_window values) h in
        rw (with_values-none column a, args_with_values-none values b) refl
    with_values-none (has_terms column values all query) h =
        let (a, b) = or_false (has_window column) (args_have_window values) h in
        rw (h, with_values-none column a, args_with_values-none values b) refl
    with_values-none (column_ref name) h = refl
    with_values-none (to_scalar query names) h = refl
    with_values-none star h = refl
    with_values-none (literal v t) h = refl

    pub args_with_values-none : (es : Args) → args_have_window es ≡ false → args_with_values es ≡ es
    args_with_values-none no_args h = refl
    args_with_values-none (args e es) h =
        let (a, b) = or_false (has_window e) (args_have_window es) h in
        rw (with_values-none e a, args_with_values-none es b) refl

    pub path_with_values-none :
        (ks : AccessPath) → path_has_window ks ≡ false → path_with_values ks ≡ ks
    path_with_values-none no_keys h = refl
    path_with_values-none (fixed k ks) h = rw (path_with_values-none ks h) refl
    path_with_values-none (computed k e ks) h =
        let (a, b) = or_false (has_window e) (path_has_window ks) h in
        rw (with_values-none e a, path_with_values-none ks b) refl

  mutual
    unfolding has_window with_values

    pub has_window-with_values : (e : Expr) → has_window (with_values e) ≡ false
    has_window-with_values (binary left op right) =
        rw (has_window-with_values left, has_window-with_values right) refl
    has_window-with_values (unary op e) = has_window-with_values e
    has_window-with_values (func_call name xs raw names) = elim (Bool-cases (is_window_name name)) [
      | inl p ↦ rw p refl
      | inr p ↦ rw (p, args_have_window-with_values xs, p) refl
    ]
    has_window-with_values (access object path) =
        rw (has_window-with_values object, path_has_window-with_values path) refl
    has_window-with_values (between e low high negated) =
        rw (has_window-with_values e, has_window-with_values low, has_window-with_values high) refl
    has_window-with_values (in_list column values table query negated folded) =
        rw (has_window-with_values column, args_have_window-with_values values) refl
    has_window-with_values (has_terms column values all query) =
        rw (has_window-with_values column, args_have_window-with_values values) refl
    has_window-with_values (column_ref name) = refl
    has_window-with_values (to_scalar query names) = refl
    has_window-with_values star = refl
    has_window-with_values (literal v t) = refl

    pub args_have_window-with_values : (es : Args) → args_have_window (args_with_values es) ≡ false
    args_have_window-with_values no_args = refl
    args_have_window-with_values (args e es) =
        rw (has_window-with_values e, args_have_window-with_values es) refl

    pub path_has_window-with_values :
        (ks : AccessPath) → path_has_window (path_with_values ks) ≡ false
    path_has_window-with_values no_keys = refl
    path_has_window-with_values (fixed k ks) = path_has_window-with_values ks
    path_has_window-with_values (computed k e ks) =
        rw (has_window-with_values e, path_has_window-with_values ks) refl
