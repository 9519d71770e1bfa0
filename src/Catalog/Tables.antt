-- ===== src/Catalog/Tables.antt =====
-- Tables are created, extended and dropped by name; a schema only grows.
use mathlib.Core.Path.{subst}
use mathlib.Core.List.{append-nil, append_assoc}
use gokql.Base.{
  ℕ, zero, suc, ◌≡◌, ◌⊎◌, refl, sym, ◌∙◌, none, some, List, [], ◌∷◌, ◌++◌, if◌then◌else◌, get_elem?,
  take, drop, keep, any, not, Bool, true, false, ap, length, ◌<◌, ◌≤◌, ◌-◌, ◌==◌, arith, inl, inr,
  Option-cases, Bool-cases,
}
use gokql.Base.Bytes.{Bytes, bytes_eq, bytes_eq_iff}
use gokql.Base.Dict.{insert, delete, lookup-insert, lookup-delete}
use gokql.Types.Schema.{Column, Schema, index_of, column_index}
use gokql.Catalog.State.{Table, Catalog, ok, err, table_exists, table_missing, save}
use gokql.Catalog.Discover.{time_received_column, time_received_last, move_last}
use gokql.Catalog.Ops.{get_table, create_table, create_merge_table, drop_table, merge_columns}

abbrev pub named : Bytes → Column → Bool
named name c = bytes_eq c.name name

-- The first column of each name, in order.
unfoldable pub distinct : List Column → List Column
distinct [] = []
distinct (c ∷ cs) = c ∷ keep (λ d. not (named c.name d)) (distinct cs)

-- The columns with no namesake in `old`.
abbrev pub unknown : List Column → List Column → List Column
unknown old = keep (λ d. not (any (named d.name) old))

-- The columns of `merged`, with the first `_TimeReceived`, if there is one, moved to the end.
abbrev pub IsTimeReceivedLast : List Column → List Column → Type 0
IsTimeReceivedLast merged cols =
    ((any (named time_received_column) merged ≡ false) × (cols ≡ merged))
    ⊎ ((before : List Column) × (c : Column) × (after : List Column) × (merged
          ≡ before ++ c ∷ after)
        × (c.name ≡ time_received_column)
        × (any (named time_received_column) before ≡ false)
        × (cols ≡ before ++ after ++ c ∷ []))

index_of-any :
    (name : Bytes) (cs : List Column) → index_of name cs ≡ none → any (named name) cs ≡ false
unfolding index_of
index_of-any name [] h = refl
index_of-any name (c ∷ cs) h = elim (Option-cases (index_of name cs)) [
  | inl nowhere ↦ ground (arith, index_of-any name cs)
  | inr (i, found) ↦ ground arith
]

-- The columns around the one found.
index_of-split :
    (name : Bytes) (cs : List Column) (i : ℕ)
    → index_of name cs ≡ some i
    → (c : Column) × (get_elem? cs i ≡ some c)
      × (c.name ≡ name)
      × (cs ≡ take i cs ++ c ∷ drop (suc i) cs)
      × (any (named name) (take i cs) ≡ false)
      × (any (named name) cs ≡ true)
      × (i < length cs)
unfolding index_of
index_of-split name [] i h = cc
index_of-split name (c ∷ cs) i h = elim (Bool-cases (bytes_eq c.name name)) [
  | inl same ↦
      let e : i ≡ 0 = ground arith in
      rw e (c, refl, (bytes_eq_iff c.name name).0 same, refl, refl, rw same refl, omega arith)
  | inr other ↦ elim (Option-cases (index_of name cs)) [
    | inl nowhere ↦ ground arith
    | inr (j, found) ↦
        let (d, at, called, split, before, here, le) = index_of-split name cs j found in
        let e : i ≡ suc j = ground arith in
        rw e (
          d,
          at,
          called,
          ap (λ x. c ∷ x) split,
          rw (other, before) refl,
          rw (other, here) refl,
          omega arith,
        )
  ]
]

without_namesakes :
    (name : Bytes) (old cs : List Column)
    → any (named name) old ≡ true
    → unknown old (keep (λ d. not (named name d)) cs) ≡ unknown old cs
without_namesakes name old [] h = refl
without_namesakes name old (d ∷ cs) h = elim (Bool-cases (bytes_eq d.name name)) [
  | inl same ↦
      let e : d.name ≡ name = (bytes_eq_iff d.name name).0 same in
      let known : any (named d.name) old ≡ true = rw e h in
      rw (same, known) (without_namesakes name old cs h)
  | inr other ↦ rw other (ground (arith, without_namesakes name old cs h))
]

any-append :
    (name : Bytes) (old : List Column) (c : Column)
    → any (named name) (old ++ c ∷ [])
      ≡ (if any (named name) old then true else bytes_eq c.name name)
any-append name [] c = ground arith
any-append name (d ∷ old) c = ground (arith, any-append name old c)

keep_append :
    (c : Column) (old cs : List Column)
    → unknown (old ++ c ∷ []) cs ≡ unknown old (keep (λ d. not (named c.name d)) cs)
keep_append c old [] = refl
keep_append c old (d ∷ cs) = ground (
  arith,
  any-append d.name old c,
  bytes_eq_iff c.name d.name,
  bytes_eq_iff d.name c.name,
  keep_append c old cs,
)

merge_columns-distinct :
    (old new : List Column) → merge_columns old new ≡ old ++ unknown old (distinct new)
unfolding merge_columns column_index distinct
merge_columns-distinct old [] = sym (append-nil old)
merge_columns-distinct old (c ∷ new) = elim (Option-cases (index_of c.name old)) [
  | inl fresh ↦
      let missing = index_of-any c.name old fresh in
      rw (merge_columns, fresh, missing)
        (merge_columns-distinct (old ++ c ∷ []) new
          ∙ append_assoc old (c ∷ []) (unknown (old ++ c ∷ []) (distinct new))
          ∙ ap (λ x. old ++ c ∷ x) (keep_append c old (distinct new)))
  | inr (i, known) ↦
      let (d, at, called, split, before, here, le) = index_of-split c.name old i known in
      rw (merge_columns, known, here)
        (merge_columns-distinct old new
          ∙ ap (λ x. old ++ x) (sym (without_namesakes c.name old (distinct new) here)))
]

drop_last : {A : Type 0} (i : ℕ) (xs : List A) → length xs ≤ suc i → drop (suc i) xs ≡ []
drop_last i [] h = refl
drop_last zero (x ∷ []) h = refl
drop_last zero (x ∷ y ∷ xs) h = absurd (omega arith)
drop_last (suc i) (x ∷ xs) h = drop_last i xs (omega arith)

time_received_last_lem : (s : Schema) → IsTimeReceivedLast s.columns (time_received_last s).columns
unfolding time_received_last column_index move_last
time_received_last_lem s = elim (Option-cases (index_of time_received_column s.columns)) [
  | inl absent ↦
      inl (index_of-any time_received_column s.columns absent, rw (time_received_last, absent) refl)
  | inr (i, found) ↦
      let (c, at, called, split, before, here, le) =
        index_of-split time_received_column s.columns i found in
      inr (
        take i s.columns,
        c,
        drop (suc i) s.columns,
        split,
        called,
        before,
        elim (Bool-cases (i == (length s.columns - 1))) [
          | inl last ↦
              let none_behind = drop_last i s.columns (ground arith) in
              rw (time_received_last, found, last)
                (split
                  ∙ ap (λ x. take i s.columns ++ c ∷ x) none_behind
                  ∙ sym (ap (λ x. x ++ c ∷ []) (append-nil (take i s.columns)))
                  ∙ sym (ap (λ x. take i s.columns ++ x ++ c ∷ []) none_behind))
          | inr inner ↦ rw (time_received_last, found, inner, move_last, at) refl
        ],
      )
]

module _ {ℓ} {V : Type ℓ} (c : Catalog V) (name : Bytes) where
  abbrev pub new_table : Schema → ℕ → Table V
  new_table schema now = record { name = name; schema = schema; extents = []; created = now }

  abbrev put : Table V → Catalog V
  put t =
      save (record c { database = record c.database { tables = insert name t c.database.tables } })

  get-put :
      (t : Table V) (other : Bytes)
      → get_table (put t) other ≡ (if bytes_eq name other then some t else get_table c other)
  unfolding get_table save
  get-put t other = lookup-insert name other t c.database.tables

  -- `CreateTable` fails on a name that is taken. On any other name it succeeds: the name then has a
  -- table with the schema and no extents, and every other name has the table that it had.
  create_table_lem :
      (schema : Schema) (now : ℕ)
      → ((t : Table V) × (get_table c name ≡ some t)
          × (create_table c name schema now ≡ err (table_exists name)))
        ⊎ ((c' : Catalog V) × (get_table c name ≡ none)
            × (create_table c name schema now ≡ ok c')
            × ((other : Bytes)
                → get_table c' other ≡ (
                    if bytes_eq name other
                    then some (new_table schema now)
                    else get_table c other)))
  unfolding create_table get_table
  create_table_lem schema now = elim (Option-cases (get_table c name)) [
    | inr (t, taken) ↦ inl (t, taken, ground arith)
    | inl free ↦ let t = new_table schema now in inr (put t, free, ground arith, get-put t)
  ]

  -- `CreateMergeTable` of a table that exists succeeds, keeps its extents and leaves every other
  -- table as it is. The columns are the table's own with, behind them, the first of each name that
  -- the given schema has and the table has not, in their order; and the first `_TimeReceived` of all,
  -- if there is one, is moved to the end.
  pub create_merge_table_lem :
      (schema : Schema) (now : ℕ) (t : Table V)
      → get_table c name ≡ some t
      → (c' : Catalog V) × (t' : Table V) × (create_merge_table c name schema now ≡ ok c')
        × ((other : Bytes)
            → get_table c' other ≡ (if bytes_eq name other then some t' else get_table c other))
        × (t'.extents ≡ t.extents)
        × IsTimeReceivedLast
            (t.schema.columns ++ unknown t.schema.columns (distinct schema.columns))
            t'.schema.columns
  unfolding create_merge_table get_table
  create_merge_table_lem schema now t found =
      let merged : Schema = record { columns = merge_columns t.schema.columns schema.columns } in
      let t' = record t { schema = time_received_last merged } in
      (
        put t',
        t',
        ground arith,
        get-put t',
        refl,
        subst (λ cols. IsTimeReceivedLast cols t'.schema.columns)
            (merge_columns-distinct t.schema.columns schema.columns)
            (time_received_last_lem merged),
      )

  -- `DropTable` fails on a name without a table. On any other it succeeds: the name then has no
  -- table, every other name has the table that it had, and no file is removed.
  pub drop_table_lem :
      ((get_table c name ≡ none) × (drop_table c name ≡ err (table_missing name)))
      ⊎ ((c' : Catalog V) × (t : Table V) × (get_table c name ≡ some t)
          × (drop_table c name ≡ ok c')
          × ((other : Bytes)
              → get_table c' other ≡ (if bytes_eq name other then none else get_table c other))
          × (c'.removed ≡ c.removed))
  unfolding drop_table get_table save
  drop_table_lem = elim (Option-cases (get_table c name)) [
    | inl absent ↦ inl (absent, ground arith)
    | inr (t, found) ↦ inr (
      save (record c { database = record c.database { tables = delete name c.database.tables } }),
      t,
      found,
      ground arith,
      λ other. lookup-delete name other c.database.tables,
      refl,
    )
  ]
