-- ===== src/Tests/Join.antt =====
-- Joins of two small tables.
use gokql.Base.{ℕ, ◌≡◌, ◌↔◌, refl, Bool, true, false, some, List, [], ◌∷◌, ◌++◌, length}
use gokql.Base.Bytes.{Bytes, codes, bytes_eq}
use gokql.Base.Int.{pos}
use gokql.Base.Result.{ok, failed}
use gokql.Types.KqlType.{long}
use gokql.Types.Schema.{Schema, column_index}
use gokql.Types.Value.{Real, null, long_value, string_value}
use gokql.Engine.Sort.{Row}
use gokql.Engine.Join.{
  ResultTable, JoinOp, key_indices, JoinKind, inner, inner_unique, left_outer, right_outer,
  full_outer, emit, join_key, output_rows, build_join_schema, apply_join, left_not_found,
}
use gokql.Engine.Join.Nested.{nested_loops, emit-nested_loops}
use gokql.Engine.Join.Names.{names_of, Distinct, build_join_schema-Distinct}
use gokql.Engine.Join.Widths.{HasWidth, apply_join_lem}
use gokql.Engine.Join.Sizes.{IsCounted, output_rows_lem}
use gokql.Engine.Join.Keys.{join_key_lem}

abbrev no_text : Real → Bytes
no_text f = []

abbrev row : ℕ → ℕ → Row
row k v = long_value (pos k) ∷ long_value (pos v) ∷ []

-- Columns k, v and k, v1, and a name that is numbered: v becomes v2.
abbrev left_schema : Schema
left_schema = record {
  columns =
      record { name = codes "k"; type = long } ∷ record { name = codes "v"; type = long } ∷ [];
}

abbrev right_schema : Schema
right_schema = record {
  columns =
      record { name = codes "k"; type = long }
      ∷ record { name = codes "v"; type = long }
      ∷ record { name = codes "v1"; type = long }
      ∷ [];
}

abbrev left_table : ResultTable
left_table = record { schema = left_schema; rows = row 1 10 ∷ row 2 20 ∷ row 1 30 ∷ row 4 40 ∷ [] }

abbrev right_rows : List Row
right_rows =
    (row 1 7 ++ null ∷ [])
    ∷ (row 3 8 ++ null ∷ [])
    ∷ (row 1 9 ++ null ∷ [])
    ∷ (row 2 6 ++ null ∷ [])
    ∷ []

abbrev right_table : ResultTable
right_table = record { schema = right_schema; rows = right_rows }

abbrev on_k : JoinKind → Bool → JoinOp
on_k kind drop = record {
  kind = kind;
  on_clauses = record { left_column = codes "k"; right_column = codes "k" } ∷ [];
  drop_right_keys = drop;
}

abbrev key : Row → Bytes
unfolding join_key
key = join_key no_text (0 ∷ [])

inner_rows :
    emit key key right_rows (1 ∷ []) 2 inner left_table.rows
    ≡ (row 1 10 ++ long_value (pos 7) ∷ [])
      ∷ (row 1 10 ++ long_value (pos 9) ∷ [])
      ∷ (row 2 20 ++ long_value (pos 6) ∷ [])
      ∷ (row 1 30 ++ long_value (pos 7) ∷ [])
      ∷ (row 1 30 ++ long_value (pos 9) ∷ [])
      ∷ []
unfolding emit bytes_eq key
inner_rows = refl

full_rows :
    emit key key right_rows (1 ∷ []) 2 full_outer (row 2 20 ∷ row 4 40 ∷ [])
    ≡ (row 2 20 ++ long_value (pos 6) ∷ [])
      ∷ (row 4 40 ++ null ∷ [])
      ∷ (null ∷ null ∷ long_value (pos 7) ∷ [])
      ∷ (null ∷ null ∷ long_value (pos 8) ∷ [])
      ∷ (null ∷ null ∷ long_value (pos 9) ∷ [])
      ∷ []
unfolding emit bytes_eq key
full_rows = refl

-- The count leaves out the three right rows without a match.
full_count :
    output_rows key key right_rows (1 ∷ []) 2 full_outer (row 2 20 ∷ row 4 40 ∷ []) ≡ some 2
unfolding output_rows bytes_eq key
full_count = refl

column_names :
    names_of ((build_join_schema left_schema right_schema (on_k inner true)).0).columns
    ≡ codes "k" ∷ codes "v" ∷ codes "v2" ∷ codes "v1" ∷ []
unfolding build_join_schema
column_names = refl

missing_column :
    apply_join no_text left_table right_table record {
      kind = inner;
      on_clauses = record { left_column = codes "x"; right_column = codes "y" } ∷ [];
      drop_right_keys = false;
    }
    ≡ failed (left_not_found (codes "x"))
unfolding apply_join
missing_column = refl

-- Two pairs of texts that differ, with one key: a zero byte in a text is not told from the one between
-- the parts.
abbrev first_pair : Row
first_pair =
    string_value (codes "a" ++ 0 ∷ codes "string" ++ 1 ∷ codes "b") ∷ string_value (codes "c") ∷ []

abbrev second_pair : Row
second_pair =
    string_value (codes "a") ∷ string_value (codes "b" ++ 0 ∷ codes "string" ++ 1 ∷ codes "c") ∷ []

zero_bytes : join_key no_text (0 ∷ 1 ∷ []) first_pair ≡ join_key no_text (0 ∷ 1 ∷ []) second_pair
unfolding join_key
zero_bytes = refl

emit_example :
    emit key key right_rows (1 ∷ []) 2 inner_unique left_table.rows
    ≡ nested_loops key key right_rows (1 ∷ []) 2 inner_unique left_table.rows
emit_example = emit-nested_loops key key right_rows (1 ∷ []) 2 inner_unique left_table.rows

output_rows_example : IsCounted key key right_rows (1 ∷ []) 2 full_outer left_table.rows
output_rows_example = output_rows_lem key key right_rows (1 ∷ []) 2 full_outer left_table.rows

build_join_schema_example :
    Distinct
      (names_of ((build_join_schema left_schema right_schema (on_k left_outer true)).0).columns)
unfolding bytes_eq
build_join_schema_example =
    build_join_schema-Distinct left_schema right_schema (on_k left_outer true) (refl, (refl, tt))
      (refl, (refl, (refl, tt)))

found_keys :
    key_indices left_schema right_schema (on_k right_outer true).on_clauses ≡ ok (0 ∷ [], 0 ∷ [])
unfolding key_indices column_index bytes_eq
found_keys = refl

apply_join_example :
    (result : ResultTable) × (apply_join no_text left_table right_table (on_k right_outer true)
      ≡ ok result)
    × (result.rows
        ≡ nested_loops
            (join_key no_text (0 ∷ []))
            (join_key no_text (0 ∷ []))
            right_rows
            ((build_join_schema left_schema right_schema (on_k right_outer true)).1)
            2
            right_outer
            left_table.rows)
    × HasWidth (length result.schema.columns) result.rows
apply_join_example =
    apply_join_lem no_text left_table right_table (on_k right_outer true) (0 ∷ []) (0 ∷ [])
      found_keys (refl, (refl, (refl, (refl, tt)))) (refl, (refl, (refl, (refl, tt))))

join_key_example :
    (join_key no_text (0 ∷ 1 ∷ []) (row 1 2) ≡ join_key no_text (1 ∷ 0 ∷ []) (row 2 1))
    ↔ (long_value (pos 1) ∷ long_value (pos 2) ∷ [] ≡ long_value (pos 1) ∷ long_value (pos 2) ∷ [])
join_key_example =
    join_key_lem no_text (0 ∷ 1 ∷ []) (1 ∷ 0 ∷ []) (row 1 2) (row 2 1) tt (tt, (tt, tt))
      (tt, (tt, tt))
