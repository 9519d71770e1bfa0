-- ===== src/Query/Expr.antt =====
-- The expressions of pkg/parser/ast.go.
use gokql.Base.{Bool, List}
use gokql.Base.Bytes.{Bytes}
use gokql.Base.Int.{ℤ}
use gokql.Types.KqlType.{KqlType}
use gokql.Types.Value.{Value}

pub data BinaryOp : Type 0 where
  op_eq op_neq op_lt op_lte op_gt op_gte op_and op_or op_add op_sub op_mul op_div op_mod : BinaryOp
  op_contains op_not_contains op_has op_not_has op_starts_with op_ends_with op_in op_not_in :
      BinaryOp
  op_contains_cs op_not_contains_cs op_has_cs op_not_has_cs op_starts_with_cs : BinaryOp
  op_not_starts_with op_not_starts_with_cs op_ends_with_cs op_not_ends_with : BinaryOp
  op_not_ends_with_cs op_matches_regex op_ci_eq op_ci_neq op_like op_not_like op_has_prefix :
      BinaryOp
  op_not_has_prefix op_has_prefix_cs op_not_has_prefix_cs op_has_suffix op_not_has_suffix : BinaryOp
  op_has_suffix_cs op_not_has_suffix_cs : BinaryOp

-- A step of an access: a property's name, or an index.
pub record AccessKey : Type 0 where
  pub name : Bytes
  pub index : ℤ
  pub from_end : Bool

-- A slice of expressions is `no_args` or `args`; a step whose key is computed is `computed`. What the
-- engine caches in a `between` is left out.
mutual
  pub data Expr : Type 0 where
    column_ref : Bytes → Expr
    to_scalar : Bytes → Bool → Expr
    star : Expr
    literal : Value → KqlType → Expr
    binary : Expr → BinaryOp → Expr → Expr
    unary : Bytes → Expr → Expr
    func_call : Bytes → Args → Bytes → List Bytes → Expr
    access : Expr → AccessPath → Expr
    between : Expr → Expr → Expr → Bool → Expr
    in_list : Expr → Args → Bytes → Bytes → Bool → Bool → Expr
    has_terms : Expr → Args → Bool → Bytes → Expr

  pub data Args : Type 0 where
    no_args : Args
    args : Expr → Args → Args

  pub data AccessPath : Type 0 where
    no_keys : AccessPath
    fixed : AccessKey → AccessPath → AccessPath
    computed : AccessKey → Expr → AccessPath → AccessPath
