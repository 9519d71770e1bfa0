-- ===== src/Engine/Union.antt =====
-- `buildUnionSchema` of pkg/engine/operators.go: the columns of a union, and where each leg has them.
pub mod Keys
pub mod Names
use gokql.Base.{
  ℕ, suc, Bool, true, false, ◌&&◌, Option, none, some, List, [], ◌∷◌, ◌++◌, map, if◌then◌else◌,
  length, keep, any, ltb, ◌==◌,
}
use gokql.Base.Bytes.{Bytes, codes, bytes_eq}
use gokql.Types.KqlType.{type_eq, type_name}
use gokql.Types.Schema.{Schema, Column}
use gokql.Engine.Join.{fresh_name, has_name}

-- The same name and type.
unfoldable pub column_eq : Column → Column → Bool
unfolding bytes_eq type_eq
column_eq c d = bytes_eq c.name d.name && type_eq c.type d.type

abbrev pub has_column : Column → List Column → Bool
has_column k cs = any (λ c. column_eq c k) cs

-- The first of each pair of a name and a type, in order.
unfoldable pub add_keys : List Column → List Column → List Column
unfolding column_eq
add_keys order [] = order
add_keys order (c ∷ cs) = add_keys (if has_column c order then order else order ++ c ∷ []) cs

unfoldable pub union_keys : List Column → List Schema → List Column
unfolding add_keys
union_keys order [] = order
union_keys order (t ∷ ts) = union_keys (add_keys order t.columns) ts

-- The number of types of a name among the pairs, each of which stands there once.
abbrev pub type_count : List Column → Bytes → ℕ
type_count keys name = length (keep (λ k. bytes_eq k.name name) keys)

-- The legs that have a column.
abbrev pub leg_count : List Schema → Column → ℕ
leg_count tables k = length (keep (λ t. has_column k t.columns) tables)

-- The types of a name side by side, where the name stands first.
unfoldable pub group_types : List Column → List Bytes → List Column → List Column
unfolding bytes_eq
group_types order placed [] = []
group_types order placed (k ∷ ks) = elim (has_name k.name placed) [
  | true ↦ group_types order placed ks
  | false ↦ keep (λ k2. bytes_eq k2.name k.name) order ++ group_types order (k.name ∷ placed) ks
]

-- The names with one type.
abbrev pub genuine : List Column → List Column → List Bytes
genuine keys order = map (λ k. k.name) (keep (λ k. type_count keys k.name == 1) order)

unfoldable pub free_name : List Bytes → Bytes → Bytes
unfolding fresh_name bytes_eq
free_name used base =
    if has_name base used then fresh_name (suc (length used)) base used 1 else base

unfoldable pub name_columns : List Column → List Bytes → List Column → List Column
unfolding free_name type_name
name_columns keys used [] = []
name_columns keys used (k ∷ ks) =
    let name = free_name used (k.name ++ b'_' ∷ type_name k.type) in
    elim (ltb 1 (type_count keys k.name)) [
      | true ↦ record { name = name; type = k.type } ∷ name_columns keys (name ∷ used) ks
      | false ↦ k ∷ name_columns keys used ks
    ]

-- The index of a leg's column, `none` where the source has -1.
unfoldable pub source_index : List Column → Column → Option ℕ
unfolding column_eq
source_index [] k = none
source_index (c ∷ cs) k =
    let rest = source_index cs k in
    if column_eq c k then some 0 else elim rest [ none ↦ none | some i ↦ some (suc i) ]

-- The pairs that get a column.
unfoldable pub union_order : List Schema → Bytes → List Column
unfolding union_keys column_eq group_types bytes_eq
union_order tables kind =
    let keys = union_keys [] tables in
    if bytes_eq kind (codes "inner")
    then keep (λ k. leg_count tables k == length tables) keys
    else group_types keys [] keys

unfoldable pub build_union_schema : List Schema → Bytes → Schema × List (List (Option ℕ))
unfolding union_order name_columns source_index
build_union_schema tables kind =
    let keys = union_keys [] tables in
    let order = union_order tables kind in
    (
      record { columns = name_columns keys (genuine keys order) order },
      map (λ t. map (λ k. source_index t.columns k) order) tables,
    )
