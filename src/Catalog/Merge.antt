-- ===== src/Catalog/Merge.antt =====
-- `mergeSchemas` in closed form.
use mathlib.Core.List.{append-nil, append_assoc}
use gokql.Base.{
  ◌≡◌, refl, sym, ap, ◌∙◌, inl, inr, Bool, true, false, Option, none, some, ◌⊎◌, List, [], ◌∷◌,
  ◌++◌, if◌then◌else◌, keep, any, not, Bool-cases,
}
use gokql.Types.KqlType.{type_eq}
use gokql.Base.Bytes.{Bytes, bytes_eq}
use gokql.Types.Schema.{Column, Schema}
use gokql.Catalog.Discover.{indexed_type, merge_from, merge_schemas}

abbrev pub last : List Column → Option Column
last [] = none
last (c ∷ cs) = elim (last cs) [ none ↦ some c | some d ↦ some d ]

abbrev pub named : Bytes → Column → Bool
named name c = bytes_eq c.name name

-- Whether the last column of `a` with the column's name has another type.
unfoldable pub conflicts : List Column → Column → Bool
conflicts a c = elim (last (keep (named c.name) a)) [
  | none ↦ false
  | some d ↦ not (type_eq d.type c.type)
]

-- Whether `a` does not have the column's name.
unfoldable pub is_new : List Column → Column → Bool
is_new a c = not (any (named c.name) a)

-- What the map built from the columns finds.
indexed_type-last :
    (name : Bytes) (cs : List Column)
    → ((indexed_type name cs ≡ none)
        × (last (keep (named name) cs) ≡ none)
        × (any (named name) cs ≡ false))
      ⊎ ((d : Column) × (indexed_type name cs ≡ some d.type)
          × (last (keep (named name) cs) ≡ some d)
          × (any (named name) cs ≡ true))
unfolding indexed_type
indexed_type-last name [] = inl (refl, refl, refl)
indexed_type-last name (c ∷ cs) = elim (indexed_type-last name cs) [
  | inl (e, k, a) ↦ elim (Bool-cases (bytes_eq c.name name)) [
    | inl same ↦ inr (c, rw (indexed_type, e, same) refl, rw (same, k) refl, rw same refl)
    | inr other ↦ inl (rw (indexed_type, e, other) refl, rw (other, k) refl, rw (other, a) refl)
  ]
  | inr (d, e, k, a) ↦ elim (Bool-cases (bytes_eq c.name name)) [
    | inl same ↦ inr (d, rw (indexed_type, e) refl, rw (same, k) refl, rw same refl)
    | inr other ↦ inr (d, rw (indexed_type, e) refl, rw (other, k) refl, rw (other, a) refl)
  ]
]

merge_from_lem :
    (a merged cols : List Column)
    → merge_from a merged cols
      ≡ (if any (conflicts a) cols then none else some (merged ++ keep (is_new a) cols))
unfolding merge_from conflicts is_new
merge_from_lem a merged [] = ap some (sym (append-nil merged))
merge_from_lem a merged (col ∷ cols) = elim (indexed_type-last col.name a) [
  | inl (e, k, new) ↦
      rw (merge_from, conflicts, is_new, e, k, new)
        (merge_from_lem a (merged ++ col ∷ []) cols
          ∙ ap (λ (x : List Column). if any (conflicts a) cols then none else some x)
              (append_assoc merged (col ∷ []) (keep (is_new a) cols)))
  | inr (d, e, k, old) ↦ elim (Bool-cases (type_eq d.type col.type)) [
    | inl same ↦ rw (merge_from, conflicts, is_new, e, k, old, same) (merge_from_lem a merged cols)
    | inr other ↦ rw (merge_from, conflicts, is_new, e, k, old, other) refl
  ]
]

-- Two schemas merge exactly where no column of the second has another type than the last column of
-- its name in the first, and then to the first's columns with, behind them and in order, those columns
-- of the second whose name the first does not have.
pub merge_schemas_lem :
    (a b : Schema)
    → merge_schemas a b ≡ (
        if any (conflicts a.columns) b.columns
        then none
        else some (record { columns = a.columns ++ keep (is_new a.columns) b.columns }))
unfolding merge_schemas
merge_schemas_lem a b =
    let e = merge_from_lem a.columns a.columns b.columns in
    elim (Bool-cases (any (conflicts a.columns) b.columns)) [
      | inl clash ↦ rw (merge_schemas, e, clash) refl
      | inr fits ↦ rw (merge_schemas, e, fits) refl
    ]
