-- ===== src/Catalog/Session.antt =====
-- A session of an in-memory catalog: ids are allocated ahead of the registration of their extents,
-- as a flush does, which allocates the id of its data extent and of its dictionary extent before it
-- registers either.
use mathlib.Core.Path.{subst}
use gokql.Base.{
  ℕ, zero, suc, ◌+◌, ◌≤◌, ◌<◌, ◌≡◌, refl, sym, ◌∙◌, Bool, true, false, Option, none, some, List, [],
  ◌∷◌, ◌++◌, if◌then◌else◌, All, any, keep, arith, inl, inr, Option-cases,
}
use gokql.Base.Bytes.{Bytes, bytes_eq, bytes_eq_iff, bytes_eq_refl}
use gokql.Base.Dict.{Dict, lookup}
pub mod Unique
use gokql.Types.Schema.{Schema}
use gokql.Catalog.State.{u64_mod, ExtentEntry, Table, Catalog, ok, save, new_memory}
use gokql.Catalog.ExtentId.{parse_hex, format_id, next_id, allocate_extent_id}
use gokql.Catalog.Ops.{
  create_table, create_merge_table, drop_table, add_extent, remove_extent_from, remove_extent,
  replace_extents, take_extent, take_from_tables, not_in_ids,
}
use gokql.Catalog.Hex.{parse_hex-format_id}
use gokql.Catalog.Fresh.{EachExtent, IdAtMost, next_id_bounds}
use gokql.Catalog.Counts.{
  count, count-append, ids, count_tables, count-ids_append, count-keep, count-insert,
  count-insert_new, count-delete, count-take_extent, count-take_from_tables,
}

-- `pending` holds the ids that were allocated and whose extents are not registered yet.
pub record Session {ℓ} (V : Type ℓ) : Type ℓ where
  pub catalog : Catalog V
  pub pending : List Bytes

module _ {ℓ} {V : Type ℓ} where
  abbrev pub tables : Session V → Dict (Table V)
  tables s = s.catalog.database.tables

  abbrev pub at_catalog : Session V → Catalog V → Session V
  at_catalog s c = record s { catalog = c }

  -- The steps: every operation that changes a catalog, with what it allocates and registers.
  pub data Step (s : Session V) : Session V → Type ℓ where
    allocate :
        s.catalog.database.version + 1 < u64_mod
        → s.catalog.last_allocated_id + 1 < u64_mod
        → Step s (record {
          catalog = (allocate_extent_id s.catalog).0;
          pending = (allocate_extent_id s.catalog).1 ∷ s.pending;
        })
    register :
        (name : Bytes) (entry : ExtentEntry V) (before after : List Bytes) (c : Catalog V)
        → s.pending ≡ before ++ entry.id ∷ after
        → add_extent s.catalog name entry ≡ ok c
        → Step s (record { catalog = c; pending = before ++ after })
    -- The ids of the new extents are pending, in whatever order and place.
    replace :
        (name : Bytes) (old : List Bytes) (entries : List (ExtentEntry V)) (rest : List Bytes)
        (c : Catalog V)
        → ((id : Bytes) → count id s.pending ≡ count id (ids entries) + count id rest)
        → replace_extents s.catalog name old entries ≡ ok c
        → Step s (record { catalog = c; pending = rest })
    create :
        (name : Bytes) (schema : Schema) (now : ℕ) (c : Catalog V)
        → create_table s.catalog name schema now ≡ ok c
        → Step s (at_catalog s c)
    create_merge :
        (name : Bytes) (schema : Schema) (now : ℕ) (c : Catalog V)
        → create_merge_table s.catalog name schema now ≡ ok c
        → Step s (at_catalog s c)
    drop :
        (name : Bytes) (c : Catalog V) → drop_table s.catalog name ≡ ok c → Step s (at_catalog s c)
    remove_from :
        (name id : Bytes) (c : Catalog V)
        → remove_extent_from s.catalog name id ≡ ok c
        → Step s (at_catalog s c)
    remove :
        (id name : Bytes) (c : Catalog V)
        → remove_extent s.catalog id ≡ ok (c, name)
        → Step s (at_catalog s c)

  pub data Reach (s : Session V) : Session V → Type ℓ where
    here : Reach s s
    next : {t u : Session V} → Reach s t → Step t u → Reach s u

  -- How many extents and pending allocations have the id.
  abbrev pub uses : Bytes → Session V → ℕ
  uses id s = count_tables id s.catalog.database.tables + count id s.pending

  pub record IsValid (s : Session V) : Type 0 where
    pub unique : (id : Bytes) → uses id s ≤ 1
    pub numbered :
        (id : Bytes) (n : ℕ)
        → parse_hex id ≡ some n
        → s.catalog.last_allocated_id < n
        → uses id s ≡ 0
