-- ===== src/Catalog/Session/Unique.antt =====
-- No extent id is ever in use twice.
use gokql.Base.{
  ℕ, ◌+◌, ◌≤◌, ◌<◌, ◌≡◌, refl, some, List, [], ◌∷◌, ◌++◌, All, keep, arith, inl, inr, Option-cases,
}
use gokql.Base.Bytes.{Bytes, bytes_eq_iff, bytes_eq_refl}
use gokql.Base.Dict.{Dict, lookup}
use gokql.Types.Schema.{Schema}
use gokql.Catalog.Discover.{time_received_last}
use gokql.Catalog.State.{u64_mod, ExtentEntry, Table, Catalog, ok, save, new_memory}
use gokql.Catalog.ExtentId.{parse_hex, format_id, next_id, allocate_extent_id}
use gokql.Catalog.Ops.{
  create_table, create_merge_table, drop_table, add_extent, remove_extent_from, remove_extent,
  replace_extents, take_extent, take_from_tables, not_in_ids, merge_columns,
}
use gokql.Catalog.Hex.{parse_hex-format_id}
use gokql.Catalog.Fresh.{EachExtent, IdAtMost, next_id_bounds}
use gokql.Catalog.Counts.{
  count, count-append, ids, count_tables, count-ids_append, count-keep, count-insert,
  count-insert_new, count-delete, count-take_extent, count-take_from_tables,
}
use gokql.Catalog.Session.{
  Session, tables, at_catalog, Step, allocate, register, replace, create, create_merge, drop,
  remove_from, remove, Reach, here, next, uses, IsValid,
}

count-middle :
    (id x : Bytes) (before after : List Bytes)
    → count id (before ++ x ∷ after) ≡ count id (before ++ after) + count id (x ∷ [])
unfolding count
count-middle id x before after =
    ground (arith, count-append id before (x ∷ after), count-append id before after)

module _ {ℓ} {V : Type ℓ} where
  -- A step that allocates nothing brings in no use of an id.
  record Keeps (s t : Session V) : Type 0 where
    fewer : (id : Bytes) → uses id t ≤ uses id s
    last : t.catalog.last_allocated_id ≡ s.catalog.last_allocated_id

  Keeps-IsValid : {s t : Session V} → Keeps s t → IsValid s → IsValid t
  Keeps-IsValid {s} {t} k v = record {
    unique = λ id. omega (arith, k.fewer id, v.unique id);
    numbered = λ id n e lt. omega (arith, k.fewer id, v.numbered id n e (omega (arith, k.last)));
  }

  module _ (s : Session V) where
    register-Keeps :
        (name : Bytes) (entry : ExtentEntry V) (before after : List Bytes) (c : Catalog V)
        → s.pending ≡ before ++ entry.id ∷ after
        → add_extent s.catalog name entry ≡ ok c
        → Keeps s (record { catalog = c; pending = before ++ after })
    unfolding add_extent save
    register-Keeps name entry before after c p h = elim (Option-cases (lookup name (tables s))) [
      | inl missing ↦ ground arith
      | inr (t, found) ↦ record {
        fewer = λ id. ground (
          arith,
          count-insert id name t (record t { extents = t.extents ++ entry ∷ [] }) (tables s),
          count-ids_append id t.extents (entry ∷ []),
          count-middle id entry.id before after,
        );
        last = ground arith;
      }
    ]

    replace-Keeps :
        (name : Bytes) (old : List Bytes) (entries : List (ExtentEntry V)) (rest : List Bytes)
        (c : Catalog V)
        → ((id : Bytes) → count id s.pending ≡ count id (ids entries) + count id rest)
        → replace_extents s.catalog name old entries ≡ ok c
        → Keeps s (record { catalog = c; pending = rest })
    unfolding replace_extents save
    replace-Keeps name old entries rest c p h = elim (Option-cases (lookup name (tables s))) [
      | inl missing ↦ ground arith
      | inr (t, found) ↦
          let kept = keep (not_in_ids old) t.extents in
          record {
            fewer = λ id. ground (
              arith,
              count-insert id name t (record t { extents = kept ++ entries }) (tables s),
              count-ids_append id kept entries,
              count-keep id (not_in_ids old) t.extents,
              p id,
            );
            last = ground arith;
          }
    ]

    create-Keeps :
        (name : Bytes) (schema : Schema) (now : ℕ) (c : Catalog V)
        → create_table s.catalog name schema now ≡ ok c
        → Keeps s (at_catalog s c)
    unfolding create_table save count
    create-Keeps name schema now c h = elim (Option-cases (lookup name (tables s))) [
      | inr (t, found) ↦ ground arith
      | inl missing ↦
          let t : Table V = record { name = name; schema = schema; extents = []; created = now } in
          record {
            fewer = λ id. ground (arith, count-insert_new id name t (tables s));
            last = ground arith;
          }
    ]

    create_merge-Keeps :
        (name : Bytes) (schema : Schema) (now : ℕ) (c : Catalog V)
        → create_merge_table s.catalog name schema now ≡ ok c
        → Keeps s (at_catalog s c)
    unfolding create_merge_table save count
    create_merge-Keeps name schema now c h = elim (Option-cases (lookup name (tables s))) [
      | inr (t, found) ↦
          let merged =
            time_received_last
              (record { columns = merge_columns t.schema.columns schema.columns }) in
          record {
            fewer = λ id.
                ground (arith, count-insert id name t (record t { schema = merged }) (tables s));
            last = ground arith;
          }
      | inl missing ↦
          let t : Table V = record { name = name; schema = schema; extents = []; created = now } in
          record {
            fewer = λ id. ground (arith, count-insert_new id name t (tables s));
            last = ground arith;
          }
    ]

    drop-Keeps :
        (name : Bytes) (c : Catalog V) → drop_table s.catalog name ≡ ok c → Keeps s (at_catalog s c)
    unfolding drop_table save
    drop-Keeps name c h = elim (Option-cases (lookup name (tables s))) [
      | inl missing ↦ ground arith
      | inr (t, found) ↦ record {
        fewer = λ id. ground (arith, count-delete id name (tables s));
        last = ground arith;
      }
    ]

    remove_from-Keeps :
        (name id : Bytes) (c : Catalog V)
        → remove_extent_from s.catalog name id ≡ ok c
        → Keeps s (at_catalog s c)
    unfolding remove_extent_from save
    remove_from-Keeps name wanted c h = elim (Option-cases (lookup name (tables s))) [
      | inl missing ↦ ground arith
      | inr (t, found) ↦ elim (Option-cases (take_extent wanted t.extents)) [
        | inl absent ↦ ground arith
        | inr ((ext, others), there) ↦ record {
          fewer = λ id. ground (
            arith,
            count-insert id name t (record t { extents = others }) (tables s),
            count-take_extent id wanted t.extents ext others,
          );
          last = ground arith;
        }
      ]
    ]

    remove-Keeps :
        (wanted name : Bytes) (c : Catalog V)
        → remove_extent s.catalog wanted ≡ ok (c, name)
        → Keeps s (at_catalog s c)
    unfolding remove_extent save
    remove-Keeps wanted name c h = elim (Option-cases (take_from_tables wanted (tables s))) [
      | inl absent ↦ ground arith
      | inr ((n, ext, ts), there) ↦ record {
        fewer = λ id. ground (arith, count-take_from_tables id wanted (tables s) n ext ts);
        last = ground arith;
      }
    ]

  -- An id in use has a number that was allocated already.
  at_most_exts :
      (last : ℕ) (exts : List (ExtentEntry V))
      → ((id : Bytes) (n : ℕ) → parse_hex id ≡ some n → last < n → count id (ids exts) ≡ 0)
      → All (λ ext. IdAtMost last ext.id) exts
  unfolding count
  at_most_exts last [] h = tt
  at_most_exts last (ext ∷ exts) h = (
    λ n e. ground (arith, h ext.id n e, bytes_eq_refl ext.id),
    at_most_exts last exts (λ id n e lt. ground (arith, h id n e lt)),
  )

  at_most :
      (last : ℕ) (ts : Dict (Table V))
      → ((id : Bytes) (n : ℕ) → parse_hex id ≡ some n → last < n → count_tables id ts ≡ 0)
      → EachExtent (λ ext. IdAtMost last ext.id) ts
  unfolding count_tables
  at_most last [] h = tt
  at_most last ((name, t) ∷ ts) h = (
    at_most_exts last t.extents (λ id n e lt. omega (arith, h id n e lt)),
    at_most last ts (λ id n e lt. omega (arith, h id n e lt)),
  )

  allocate-IsValid :
      (s : Session V)
      → IsValid s
      → s.catalog.database.version + 1 < u64_mod
      → s.catalog.last_allocated_id + 1 < u64_mod
      → IsValid (record {
        catalog = (allocate_extent_id s.catalog).0;
        pending = (allocate_extent_id s.catalog).1 ∷ s.pending;
      })
  unfolding allocate_extent_id count
  allocate-IsValid s v room_v room_l =
      let last = s.catalog.last_allocated_id in
      let (above, small, _) =
        next_id_bounds s.catalog last room_l room_v room_l
          (at_most last (tables s) (λ id n e lt. omega (arith, v.numbered id n e lt))) in
      let read = parse_hex-format_id (next_id s.catalog) small in
      let new = format_id (next_id s.catalog) in
      record {
        unique = λ id. ground (
          arith,
          bytes_eq_iff new id,
          v.unique id,
          v.numbered new (next_id s.catalog) read above,
        );
        numbered = λ id n e lt. ground (arith, bytes_eq_iff new id, v.numbered id n e, read);
      }

  Step-IsValid : {s t : Session V} → Step s t → IsValid s → IsValid t
  Step-IsValid {s} (allocate a b) v = allocate-IsValid s v a b
  Step-IsValid {s} (register name entry before after c p h) v =
      Keeps-IsValid (register-Keeps s name entry before after c p h) v
  Step-IsValid {s} (replace name old entries rest c p h) v =
      Keeps-IsValid (replace-Keeps s name old entries rest c p h) v
  Step-IsValid {s} (create name schema now c h) v =
      Keeps-IsValid (create-Keeps s name schema now c h) v
  Step-IsValid {s} (create_merge name schema now c h) v =
      Keeps-IsValid (create_merge-Keeps s name schema now c h) v
  Step-IsValid {s} (drop name c h) v = Keeps-IsValid (drop-Keeps s name c h) v
  Step-IsValid {s} (remove_from name id c h) v = Keeps-IsValid (remove_from-Keeps s name id c h) v
  Step-IsValid {s} (remove id name c h) v = Keeps-IsValid (remove-Keeps s id name c h) v

  Reach-IsValid : {s t : Session V} → Reach s t → IsValid s → IsValid t
  Reach-IsValid here v = v
  Reach-IsValid (next r st) v = Step-IsValid st (Reach-IsValid r v)

  -- From a new in-memory catalog, after any steps, an id is the id of at most one extent or pending
  -- allocation, over all tables: in whatever order ids are allocated and extents are registered,
  -- replaced and removed, and tables created, extended and dropped. The allocations happen while the
  -- version and the last allocated id are below 2^64 - 1, and the extents that are registered, one by
  -- one or as the new extents of a replacement, have ids that are pending, wherever those stand.
  pub Reach-unique :
      (name : Bytes) (s : Session V)
      → Reach (record { catalog = new_memory name; pending = [] }) s
      → (id : Bytes) → uses id s ≤ 1
  unfolding new_memory count count_tables
  Reach-unique name s r id =
      (Reach-IsValid r (record { unique = λ id. omega arith; numbered = λ id n e lt. refl })).unique
        id
