-- ===== src/Engine/Sort.antt =====
-- The row order of pkg/engine/topn.go, by which `sort`, `top` and the bounded selection order rows.
pub mod Order
use gokql.Base.{
  ℕ, Bool, true, false, not, ◌&&◌, Option, none, some, List, [], ◌∷◌, if◌then◌else◌, get_or,
}
use gokql.Base.Bytes.{Bytes}
use gokql.Base.Int.{ℤ, pos, negsuc, ltb_ℤ, eqb_ℤ}
use gokql.Types.KqlType.{KqlType, string}
use gokql.Types.Schema.{Schema, Column, column_index}
use gokql.Types.Value.{Value, null, is_null, Conversions, compare_values}

pub data NullPlacement : Type 0 where
  nulls_default nulls_first nulls_last : NullPlacement

pub record OrderClause : Type 0 where
  pub column : Bytes
  pub desc : Bool
  pub nulls : NullPlacement

pub record SortCol : Type 0 where
  pub idx : ℕ
  pub type : KqlType
  pub desc : Bool
  pub nulls : NullPlacement

abbrev pub Row : Type 0
Row = List Value

-- An index comes from the schema, for each column of which a row has a cell.
abbrev pub cell : Row → ℕ → Value
cell row i = get_or row i null

-- None where a column is not found.
unfoldable pub build_sort_spec : Schema → List OrderClause → Option (List SortCol)
unfolding column_index
build_sort_spec schema [] = some []
build_sort_spec schema (c ∷ cs) = elim (column_index schema c.column) [
  | none ↦ none
  | some i ↦ elim (build_sort_spec schema cs) [
    | none ↦ none
    | some spec ↦
        let col : Column = get_or schema.columns i (record { name = []; type = string }) in
        some (record { idx = i; type = col.type; desc = c.desc; nulls = c.nulls } ∷ spec)
  ]
]

unfoldable pub is_first : NullPlacement → Bool
is_first nulls_first = true
is_first p = false

unfoldable pub is_default : NullPlacement → Bool
is_default nulls_default = true
is_default p = false

unfoldable pub differ : Bool → Bool → Bool
differ a b = if a then not b else b

module _ (conv : Conversions) where
  -- Whether row `a` sorts before row `b`.
  unfoldable pub less : List SortCol → Row → Row → Bool
  unfolding is_first is_default differ compare_values is_null
  less [] a b = false
  less (sc ∷ spec) a b =
      let rest = less spec a b in
      let av = cell a sc.idx in
      let bv = cell b sc.idx in
      let c = compare_values conv sc.type av bv in
      if not (is_default sc.nulls) && differ (is_null av) (is_null bv)
      then not (differ (is_null av) (is_first sc.nulls))
      else if eqb_ℤ c (pos 0)
      then rest
      else if sc.desc
      then ltb_ℤ (pos 0) c
      else ltb_ℤ c (pos 0)
