-- ===== src/Catalog/Rows.antt =====
-- Row counts from the extents' metadata, and what an operation does to them.
use gokql.Base.{
  ℕ, ◌+◌, ◌%◌, ◌<◌, ◌≡◌, refl, sym, ap, ◌∙◌, some, List, [], ◌∷◌, ◌++◌, if◌then◌else◌, keep, map,
  arith,
}
use gokql.Base.Bytes.{Bytes, bytes_eq, bytes_eq_refl}
use gokql.Base.Dict.{insert, lookup-insert}
use gokql.Catalog.State.{u64_mod, ExtentEntry, Table, Catalog, ok, save}
use gokql.Catalog.Ops.{
  get_table, add_extent, replace_extents, sum_rows, table_row_count, in_ids, not_in_ids,
}

module _ {ℓ} {V : Type ℓ} where
  -- The rows of some extents, as a number without bound.
  unfoldable pub total : List (ExtentEntry V) → ℕ
  total [] = 0
  total (ext ∷ exts) = ext.row_count + total exts

  total-append : (xs ys : List (ExtentEntry V)) → total (xs ++ ys) ≡ total xs + total ys
  unfolding total
  total-append [] ys = omega arith
  total-append (x ∷ xs) ys = omega (arith, total-append xs ys)

  total-split :
      (ids : List Bytes) (xs : List (ExtentEntry V))
      → total (keep (in_ids ids) xs) + total (keep (not_in_ids ids) xs) ≡ total xs
  unfolding total
  total-split ids [] = refl
  total-split ids (x ∷ xs) = ground (arith, total-split ids xs)

  sum_rows-eq_total :
      (acc : ℕ) (xs : List (ExtentEntry V))
      → acc < u64_mod
      → sum_rows acc xs ≡ (acc + total xs) % u64_mod
  unfolding sum_rows total
  sum_rows-eq_total acc [] h = omega arith
  sum_rows-eq_total acc (x ∷ xs) h =
      sum_rows-eq_total ((acc + x.row_count) % u64_mod) xs (omega arith) ∙ omega arith

  row_count-of_get :
      (c : Catalog V) (name : Bytes) (t : Table V)
      → get_table c name ≡ some t
      → table_row_count c name ≡ ok (total t.extents % u64_mod)
  unfolding get_table table_row_count
  row_count-of_get c name t h = ground (arith, sum_rows-eq_total 0 t.extents)

  get-replace :
      (c c' : Catalog V) (name : Bytes) (old : List Bytes) (new : List (ExtentEntry V))
      (t : Table V)
      → get_table c name ≡ some t
      → replace_extents c name old new ≡ ok c'
      → get_table c' name ≡ some (record t { extents = keep (not_in_ids old) t.extents ++ new })
  unfolding get_table replace_extents save
  get-replace c c' name old new t found h =
      let t' = record t { extents = keep (not_in_ids old) t.extents ++ new } in
      ground (arith, lookup-insert name name t' c.database.tables, bytes_eq_refl name)

  -- Where the new extents of a compaction hold as many rows together as the extents that they
  -- replace, the table's row count after `ReplaceExtents` is the one before, modulo 2^64; every
  -- other name has the table that it had; and the files removed are those of the extents replaced.
  pub replace_extents-row_count :
      (c c' : Catalog V) (name : Bytes) (old : List Bytes) (new : List (ExtentEntry V))
      (t : Table V)
      → get_table c name ≡ some t
      → replace_extents c name old new ≡ ok c'
      → total new ≡ total (keep (in_ids old) t.extents)
      → (table_row_count c' name ≡ table_row_count c name)
        × ((other : Bytes)
            → get_table c' other
              ≡ (if bytes_eq name other then get_table c' name else get_table c other))
        × (c'.removed ≡ c.removed ++ map (λ ext. ext.file_path) (keep (in_ids old) t.extents))
  replace_extents-row_count c c' name old new t found h same =
      let t' = record t { extents = keep (not_in_ids old) t.extents ++ new } in
      let sums : total t'.extents ≡ total t.extents =
        omega
          (arith, total-append (keep (not_in_ids old) t.extents) new, total-split old t.extents) in
      (
        row_count-of_get c' name t' (get-replace c c' name old new t found h)
            ∙ ap (λ (n : ℕ). ok (n % u64_mod)) sums
            ∙ sym (row_count-of_get c name t found),
        λ other.
            unfold get_table replace_extents save in
            ground (
              arith,
              lookup-insert name other t' c.database.tables,
              lookup-insert name name t' c.database.tables,
              bytes_eq_refl name,
            ),
        unfold get_table replace_extents save in ground arith,
      )

  -- `AddExtent` to a table that exists succeeds, and the table's row count grows by the rows of the
  -- new extent, modulo 2^64.
  add_extent-row_count :
      (c : Catalog V) (name : Bytes) (entry : ExtentEntry V) (t : Table V)
      → get_table c name ≡ some t
      → (c' : Catalog V) × (add_extent c name entry ≡ ok c')
        × (table_row_count c' name ≡ ok ((total t.extents + entry.row_count) % u64_mod))
  add_extent-row_count c name entry t found =
      let t' = record t { extents = t.extents ++ entry ∷ [] } in
      let c' =
        save (record c {
          database = record c.database { tables = insert name t' c.database.tables };
        }) in
      let found' : get_table c' name ≡ some t' =
        unfold get_table save in
        (lookup-insert name name t' c.database.tables ∙ rw (bytes_eq_refl name) refl) in
      (
        c',
        (unfold get_table add_extent in ground arith),
        row_count-of_get c' name t' found'
            ∙ ap (λ (n : ℕ). ok (n % u64_mod))
                (total-append t.extents (entry ∷ []) ∙ (unfold total in omega arith)),
      )
