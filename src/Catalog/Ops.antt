-- ===== src/Catalog/Ops.antt =====
-- The table and extent operations of pkg/catalog/catalog.go.
use gokql.Base.{
  ℕ, ◌+◌, ◌%◌, Bool, true, false, Option, none, some, List, [], ◌∷◌, ◌++◌, if◌then◌else◌, keep, map,
  any,
}
use gokql.Base.Bytes.{Bytes, bytes_eq, codes}
use gokql.Base.Dict.{Dict, lookup, insert, delete}
use gokql.Types.Schema.{Column, Schema, column_index}
use gokql.Catalog.State.{
  u64_mod, ExtentEntry, Table, Catalog, table_exists, table_missing, extent_missing,
  extent_not_in_table, Outcome, ok, err, save, with_tables,
}
use gokql.Catalog.Discover.{time_received_last}

-- A new column goes to the end, unless a column has its name.
unfoldable pub merge_columns : List Column → List Column → List Column
merge_columns merged [] = merged
merge_columns merged (c ∷ cs) =
    merge_columns
      (elim (column_index (record { columns = merged }) c.name) [
        | none ↦ merged ++ c ∷ []
        | some _ ↦ merged
      ])
      cs

-- `_Dictionaries`, `_Functions` and `_MaterializedViews` belong to the engine.
unfoldable pub is_system_table : Bytes → Bool
is_system_table name =
    if bytes_eq name (codes "_Dictionaries")
    then true
    else if bytes_eq name (codes "_Functions")
    then true
    else bytes_eq name (codes "_MaterializedViews")

module _ {ℓ} {V : Type ℓ} where
  abbrev new_table : Bytes → Schema → ℕ → Table V
  new_table name schema now = record { name = name; schema = schema; extents = []; created = now }

  abbrev pub put_table : Catalog V → Bytes → Table V → Catalog V
  put_table c name t = save (with_tables c (insert name t c.database.tables))

  unfoldable pub get_table : Catalog V → Bytes → Option (Table V)
  get_table c name = lookup name c.database.tables

  unfoldable pub create_table : Catalog V → Bytes → Schema → ℕ → Outcome (Catalog V)
  create_table c name schema now = elim (lookup name c.database.tables) [
    | some _ ↦ err (table_exists name)
    | none ↦ ok (put_table c name (new_table name schema now))
  ]

  unfoldable pub create_merge_table : Catalog V → Bytes → Schema → ℕ → Outcome (Catalog V)
  create_merge_table c name schema now = elim (lookup name c.database.tables) [
    | none ↦ ok (put_table c name (new_table name schema now))
    | some existing ↦ ok (
        put_table c name (record existing {
          schema =
              time_received_last
                (record { columns = merge_columns existing.schema.columns schema.columns });
        }))
  ]

  unfoldable pub drop_table : Catalog V → Bytes → Outcome (Catalog V)
  drop_table c name = elim (lookup name c.database.tables) [
    | none ↦ err (table_missing name)
    | some _ ↦ ok (save (with_tables c (delete name c.database.tables)))
  ]

  unfoldable pub all_names : Dict (Table V) → List Bytes
  all_names [] = []
  all_names ((name, _) ∷ ts) = name ∷ all_names ts

  unfoldable pub list_all_tables : Catalog V → List Bytes
  list_all_tables c = all_names c.database.tables

  unfoldable pub user_names : Dict (Table V) → List Bytes
  user_names [] = []
  user_names ((name, _) ∷ ts) =
      let rest = user_names ts in if is_system_table name then rest else name ∷ rest

  unfoldable pub list_tables : Catalog V → List Bytes
  list_tables c = user_names c.database.tables

  unfoldable pub add_extent : Catalog V → Bytes → ExtentEntry V → Outcome (Catalog V)
  add_extent c table_name entry = elim (lookup table_name c.database.tables) [
    | none ↦ err (table_missing table_name)
    | some table ↦
        ok (put_table c table_name (record table { extents = table.extents ++ entry ∷ [] }))
  ]

  -- The first extent with the id, and the list without it.
  unfoldable pub take_extent :
      Bytes → List (ExtentEntry V) → Option (ExtentEntry V × List (ExtentEntry V))
  take_extent id [] = none
  take_extent id (ext ∷ exts) =
      let rest = take_extent id exts in
      if bytes_eq ext.id id
      then some (ext, exts)
      else elim rest [ none ↦ none | some (found, others) ↦ some (found, ext ∷ others) ]

  abbrev pub os_remove : Catalog V → List Bytes → Catalog V
  os_remove c paths = record c { removed = c.removed ++ paths }

  unfoldable pub remove_extent_from : Catalog V → Bytes → Bytes → Outcome (Catalog V)
  remove_extent_from c table_name extent_id = elim (lookup table_name c.database.tables) [
    | none ↦ err (table_missing table_name)
    | some table ↦ elim (take_extent extent_id table.extents) [
      | none ↦ err (extent_not_in_table extent_id table_name)
      | some (ext, others) ↦ ok (
          put_table (os_remove c (ext.file_path ∷ [])) table_name
            (record table { extents = others }))
    ]
  ]

  -- The first table with such an extent, its name, and the tables after the removal.
  unfoldable pub take_from_tables :
      Bytes → Dict (Table V) → Option (Bytes × ExtentEntry V × Dict (Table V))
  take_from_tables id [] = none
  take_from_tables id ((name, t) ∷ ts) =
      let rest = take_from_tables id ts in
      elim (take_extent id t.extents) [
        | some (ext, others) ↦ some (name, ext, (name, record t { extents = others }) ∷ ts)
        | none ↦ elim rest [
          | none ↦ none
          | some (found, ext, ts') ↦ some (found, ext, (name, t) ∷ ts')
        ]
      ]

  unfoldable pub remove_extent : Catalog V → Bytes → Outcome (Catalog V × Bytes)
  remove_extent c extent_id = elim (take_from_tables extent_id c.database.tables) [
    | none ↦ err (extent_missing extent_id)
    | some (name, ext, ts) ↦ ok (save (with_tables (os_remove c (ext.file_path ∷ [])) ts), name)
  ]

  -- The tables that hold an extent with the id, before `sort.Strings`.
  unfoldable pub holders : Bytes → Dict (Table V) → List Bytes
  holders id [] = []
  holders id ((name, t) ∷ ts) =
      let rest = holders id ts in
      if any (λ ext. bytes_eq ext.id id) t.extents then name ∷ rest else rest

  abbrev pub in_ids : List Bytes → ExtentEntry V → Bool
  in_ids ids ext = any (λ id. bytes_eq id ext.id) ids

  abbrev pub not_in_ids : List Bytes → ExtentEntry V → Bool
  not_in_ids ids ext = if in_ids ids ext then false else true

  unfoldable pub replace_extents :
      Catalog V → Bytes → List Bytes → List (ExtentEntry V) → Outcome (Catalog V)
  replace_extents c table_name old_ids new_entries = elim (lookup table_name c.database.tables) [
    | none ↦ err (table_missing table_name)
    | some table ↦ ok (
        os_remove
          (put_table c table_name
            (record table { extents = keep (not_in_ids old_ids) table.extents ++ new_entries }))
          (map (λ ext. ext.file_path) (keep (in_ids old_ids) table.extents)))
  ]

  unfoldable pub sum_rows : ℕ → List (ExtentEntry V) → ℕ
  sum_rows total [] = total
  sum_rows total (ext ∷ exts) = sum_rows ((total + ext.row_count) % u64_mod) exts

  unfoldable pub table_row_count : Catalog V → Bytes → Outcome ℕ
  table_row_count c table_name = elim (lookup table_name c.database.tables) [
    | none ↦ err (table_missing table_name)
    | some table ↦ ok (sum_rows 0 table.extents)
  ]
