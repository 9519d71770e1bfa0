-- ===== src/Tests/Catalog.antt =====
-- Runs of pkg/catalog.
use gokql.Base.{
  ℕ, ◌≤◌, ◌<◌, ◌≡◌, ◌≢◌, ◌⊎◌, refl, none, some, List, [], ◌∷◌, ◌+◌, ◌++◌, arith, true,
  if◌then◌else◌, keep, map,
}
use gokql.Base.Bytes.{Bytes, codes, bytes_eq}
use gokql.Base.Dict.{lookup, insert}
use gokql.Types.KqlType.{string, long}
use gokql.Types.Schema.{Column}
use gokql.Catalog.State.{ExtentEntry, Table, Catalog, ok, err, table_missing, save, new_memory}
use gokql.Catalog.ExtentId.{
  parse_hex, parse_hex_from, hex_value, allocate_extent_id, format_id, next_id, past_tables,
  past_extents, hex_digits, hex_digit,
}
use gokql.Catalog.Discover.{
  all_id_digits, is_id_digit, parse_extent_name, strip_vtx, split_id, split_last_underscore,
  extent_file_name,
}
use gokql.Catalog.Ops.{
  get_table, put_table, os_remove, create_table, create_merge_table, drop_table, replace_extents,
  table_row_count, in_ids,
}
use gokql.Catalog.Names.{parse-extent_file_name, parse_extent_name-eq_some}
use gokql.Catalog.Fresh.{IsFresh, allocate_extent_id-IsFresh}
use gokql.Catalog.Counts.{count}
use gokql.Catalog.Rows.{total, replace_extents-row_count}
use gokql.Catalog.Tables.{
  distinct, unknown, IsTimeReceivedLast, create_merge_table_lem, drop_table_lem,
}
use gokql.Catalog.Session.{Session, Reach, here, next, allocate, create, replace, uses}
use gokql.Catalog.Session.Unique.{Reach-unique}

abbrev extent : Bytes → ℕ → ExtentEntry ℕ
extent id rows = record {
  id = id;
  file_path = codes "extents/" ++ id;
  row_count = rows;
  size_bytes = 64;
  created_at = 0;
  column_stats = [];
}

abbrev name_column : Column
name_column = record { name = codes "Name"; type = string }

abbrev size_column : Column
size_column = record { name = codes "Size"; type = long }

abbrev first : Bytes
first = codes "00000001"

abbrev second : Bytes
second = codes "0000000a"

abbrev events : Table ℕ
events = record {
  name = codes "Events";
  schema = record { columns = name_column ∷ [] };
  extents = extent first 3 ∷ extent second 4 ∷ [];
  created = 0;
}

abbrev sample : Catalog ℕ
sample = record {
  database = record { name = codes "db"; tables = (codes "Events", events) ∷ []; version = 3 };
  last_allocated_id = 2;
  removed = [];
}

events_found : get_table sample (codes "Events") ≡ some events
unfolding get_table lookup bytes_eq
events_found = refl

name_read : parse_extent_name (codes "My_Table_0a1.vtx") ≡ some (codes "My_Table", codes "0a1")
unfolding parse_extent_name strip_vtx split_id split_last_underscore all_id_digits is_id_digit
    bytes_eq
name_read = refl

name_refused : parse_extent_name (codes "Table_0A1.vtx") ≡ none
unfolding parse_extent_name strip_vtx split_id split_last_underscore all_id_digits is_id_digit
    bytes_eq
name_refused = refl

parse-extent_file_name_example :
    parse_extent_name (extent_file_name (codes "My_Table") (codes "0a1"))
    ≡ some (codes "My_Table", codes "0a1")
unfolding all_id_digits is_id_digit
parse-extent_file_name_example =
    parse-extent_file_name (codes "My_Table") (codes "0a1") (λ e. cc e) (λ e. cc e) refl

parse_extent_name-eq_some_example :
    (codes "My_Table_0a1.vtx" ≡ extent_file_name (codes "My_Table") (codes "0a1"))
    × (codes "My_Table" ≢ [])
    × (codes "0a1" ≢ [])
    × (all_id_digits (codes "0a1") ≡ true)
parse_extent_name-eq_some_example =
    parse_extent_name-eq_some (codes "My_Table_0a1.vtx") (codes "My_Table") (codes "0a1") name_read

first_read : (n : ℕ) → parse_hex first ≡ some n → n ≤ 10
unfolding parse_hex parse_hex_from hex_value
first_read n e = let same : ◌≡◌ {A = ℕ} 1 n = cc e in omega arith

second_read : (n : ℕ) → parse_hex second ≡ some n → n ≤ 10
unfolding parse_hex parse_hex_from hex_value
second_read n e = let same : ◌≡◌ {A = ℕ} 10 n = cc e in omega arith

next_allocated : (allocate_extent_id sample).1 ≡ codes "0000000b"
unfolding allocate_extent_id next_id past_tables past_extents parse_hex parse_hex_from hex_value
    format_id hex_digits hex_digit
next_allocated = refl

allocate_extent_id-IsFresh_example :
    IsFresh (allocate_extent_id sample).1 sample.last_allocated_id sample.database.tables
    × (sample.last_allocated_id < (allocate_extent_id sample).0.last_allocated_id)
    × ((allocate_extent_id sample).0.database ≡ sample.database)
allocate_extent_id-IsFresh_example =
    allocate_extent_id-IsFresh sample 10 (omega arith) (omega arith) (omega arith)
      ((first_read, (second_read, tt)), tt)

-- A table, two ids, and a replacement that registers the older id first.
abbrev empty : Session ℕ
empty = record { catalog = new_memory (codes ":memory:"); pending = [] }

abbrev no_extents : Table ℕ
no_extents = record events { extents = [] }

abbrev with_table : Session ℕ
with_table = record empty { catalog = put_table empty.catalog (codes "Events") no_extents }

abbrev one_pending : Session ℕ
one_pending = record {
  catalog = (allocate_extent_id with_table.catalog).0;
  pending = (allocate_extent_id with_table.catalog).1 ∷ [];
}

abbrev two_pending : Session ℕ
two_pending = record {
  catalog = (allocate_extent_id one_pending.catalog).0;
  pending = (allocate_extent_id one_pending.catalog).1 ∷ one_pending.pending;
}

abbrev both : List (ExtentEntry ℕ)
both =
    extent (allocate_extent_id with_table.catalog).1 3
    ∷ extent (allocate_extent_id one_pending.catalog).1 4
    ∷ []

abbrev registered : Session ℕ
registered = record {
  catalog =
      os_remove
        (put_table two_pending.catalog (codes "Events") (record no_extents { extents = both })) [];
  pending = [];
}

two_allocations : Reach empty two_pending
unfolding new_memory create_table lookup insert save allocate_extent_id next_id past_tables
    past_extents
two_allocations =
    next
      (next (next here (create (codes "Events") no_extents.schema 0 with_table.catalog refl))
        (allocate (omega arith) (omega arith)))
      (allocate (omega arith) (omega arith))

any_order : (x y id : Bytes) → count id (y ∷ x ∷ []) ≡ count id (x ∷ y ∷ []) + count id []
unfolding count
any_order x y id = ground arith

registration : Reach empty registered
unfolding new_memory lookup insert bytes_eq save allocate_extent_id replace_extents
registration =
    next two_allocations
      (replace (codes "Events") [] both [] registered.catalog (λ id. any_order _ _ id) refl)

Reach-unique_example : uses (codes "00000002") registered ≤ 1
Reach-unique_example = Reach-unique (codes ":memory:") registered registration (codes "00000002")

abbrev merged : ExtentEntry ℕ
merged = extent (codes "0000000b") 7

abbrev compacted : Catalog ℕ
compacted = record {
  database = record {
    name = codes "db";
    tables = (codes "Events", record events { extents = merged ∷ [] }) ∷ [];
    version = 4;
  };
  last_allocated_id = 2;
  removed = codes "extents/00000001" ∷ codes "extents/0000000a" ∷ [];
}

replaced :
    replace_extents sample (codes "Events") (first ∷ second ∷ []) (merged ∷ []) ≡ ok compacted
unfolding replace_extents lookup insert bytes_eq save
replaced = refl

replace_extents-row_count_example :
    (table_row_count compacted (codes "Events") ≡ table_row_count sample (codes "Events"))
    × ((other : Bytes)
        → get_table compacted other ≡ (
            if bytes_eq (codes "Events") other
            then get_table compacted (codes "Events")
            else get_table sample other))
    × (compacted.removed
        ≡ sample.removed
          ++ map (λ ext. ext.file_path) (keep (in_ids (first ∷ second ∷ [])) events.extents))
unfolding total bytes_eq
replace_extents-row_count_example =
    replace_extents-row_count sample compacted (codes "Events") (first ∷ second ∷ []) (merged ∷ [])
      events events_found replaced refl

create_merge_table_example :
    (c' : Catalog ℕ) × (t' : Table ℕ) × (create_merge_table sample
        (codes "Events")
        (record { columns = size_column ∷ [] })
        5
      ≡ ok c')
    × ((other : Bytes)
        → get_table c' other
          ≡ (if bytes_eq (codes "Events") other then some t' else get_table sample other))
    × (t'.extents ≡ events.extents)
    × IsTimeReceivedLast
        (name_column ∷ unknown (name_column ∷ []) (distinct (size_column ∷ [])))
        t'.schema.columns
create_merge_table_example =
    create_merge_table_lem sample (codes "Events") (record { columns = size_column ∷ [] }) 5 events
      events_found

drop_table_example :
    ((get_table sample (codes "Events") ≡ none)
      × (drop_table sample (codes "Events") ≡ err (table_missing (codes "Events"))))
    ⊎ ((c' : Catalog ℕ) × (t : Table ℕ) × (get_table sample (codes "Events") ≡ some t)
        × (drop_table sample (codes "Events") ≡ ok c')
        × ((other : Bytes)
            → get_table c' other
              ≡ (if bytes_eq (codes "Events") other then none else get_table sample other))
        × (c'.removed ≡ sample.removed))
drop_table_example = drop_table_lem sample (codes "Events")
