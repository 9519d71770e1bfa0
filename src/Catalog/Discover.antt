-- ===== src/Catalog/Discover.antt =====
-- The pure parts of pkg/catalog/discover.go: file names of extents, and schemas that grow.
use gokql.Base.{
  ℕ, suc, ◌-◌, Bool, true, ◌&&◌, ◌||◌, Option, none, some, List, [], ◌∷◌, ◌++◌, if◌then◌else◌, ◌==◌,
  leb, length, take, drop, get_elem?,
}
use gokql.Base.Bytes.{Bytes, bytes_eq, codes}
use gokql.Types.KqlType.{KqlType, type_eq}
use gokql.Types.Schema.{Column, Schema, column_index}

-- `strings.TrimSuffix(base, ".vtx")`, or `none` where the suffix is missing
unfoldable pub strip_vtx : Bytes → Option Bytes
strip_vtx base =
    let n = length base in
    if leb 4 n && bytes_eq (drop (n - 4) base) (codes ".vtx")
    then some (take (n - 4) base)
    else none

-- The parts before and after the last underscore.
unfoldable pub split_last_underscore : Bytes → Option (Bytes × Bytes)
split_last_underscore [] = none
split_last_underscore (c ∷ s) = elim (split_last_underscore s) [
  | some (before, after) ↦ some (c ∷ before, after)
  | none ↦ if c == b'_' then some ([], s) else none
]

unfoldable pub is_id_digit : ℕ → Bool
is_id_digit c = (leb b'0' c && leb c b'9') || (leb b'a' c && leb c b'f')

unfoldable pub all_id_digits : Bytes → Bool
all_id_digits [] = true
all_id_digits (c ∷ s) = is_id_digit c && all_id_digits s

-- `none` where the source returns two empty strings
unfoldable pub split_id : Bytes → Option (Bytes × Bytes)
split_id name = elim (split_last_underscore name) [
  | none ↦ none
  | some ([], suffix) ↦ none
  | some (table, []) ↦ none
  | some (c ∷ table, d ∷ suffix) ↦
      if all_id_digits (d ∷ suffix) then some (c ∷ table, d ∷ suffix) else none
]

unfoldable pub parse_extent_name : Bytes → Option (Bytes × Bytes)
parse_extent_name base = elim (strip_vtx base) [ none ↦ none | some name ↦ split_id name ]

abbrev pub time_received_column : Bytes
time_received_column = codes "_TimeReceived"

-- `schema.Columns[i]` moved to the end
unfoldable pub move_last : ℕ → List Column → List Column
move_last i cols = elim (get_elem? cols i) [
  | none ↦ cols
  | some c ↦ take i cols ++ drop (suc i) cols ++ c ∷ []
]

unfoldable pub time_received_last : Schema → Schema
time_received_last schema = elim (column_index schema time_received_column) [
  | none ↦ schema
  | some i ↦
      if i == (length schema.columns - 1)
      then schema
      else record { columns = move_last i schema.columns }
]

-- The type of the last column of `a` with the name, which is what the map built from `a` finds.
unfoldable pub indexed_type : Bytes → List Column → Option KqlType
indexed_type name [] = none
indexed_type name (c ∷ cs) = elim (indexed_type name cs) [
  | some t ↦ some t
  | none ↦ if bytes_eq c.name name then some c.type else none
]

-- `none` is the type conflict. The map is built from `a` alone, so a name that `b` has twice and `a`
-- has not is appended twice.
unfoldable pub merge_from : List Column → List Column → List Column → Option (List Column)
merge_from a merged [] = some merged
merge_from a merged (col ∷ cols) =
    let appended = merge_from a (merged ++ col ∷ []) cols in
    let skipped = merge_from a merged cols in
    elim (indexed_type col.name a) [
      | none ↦ appended
      | some t ↦ if type_eq t col.type then skipped else none
    ]

unfoldable pub merge_schemas : Schema → Schema → Option Schema
merge_schemas a b = elim (merge_from a.columns a.columns b.columns) [
  | none ↦ none
  | some cols ↦ some (record { columns = cols })
]

-- `extentPath` (pkg/engine/discovery.go): `fmt.Sprintf("%s_%s.vtx", tableName, extentID)`
unfoldable pub extent_file_name : Bytes → Bytes → Bytes
extent_file_name table id = table ++ b'_' ∷ (id ++ codes ".vtx")
