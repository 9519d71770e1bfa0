-- ===== src/Catalog/Counts.antt =====
-- How often the extents of a catalog carry an id, under every operation.
use gokql.Base.{
  ℕ, suc, ◌+◌, ◌≤◌, ◌≡◌, Bool, none, some, List, [], ◌∷◌, ◌++◌, if◌then◌else◌, keep, map, arith,
  inl, inr, Option-cases,
}
use gokql.Base.Bytes.{Bytes, bytes_eq}
use gokql.Base.Dict.{Dict, lookup, insert, delete}
use gokql.Catalog.State.{ExtentEntry, Table}
use gokql.Catalog.Ops.{take_extent, take_from_tables}

unfoldable pub count : Bytes → List Bytes → ℕ
count id [] = 0
count id (x ∷ xs) = let rest = count id xs in if bytes_eq x id then suc rest else rest

pub count-append :
    (id : Bytes) (xs ys : List Bytes) → count id (xs ++ ys) ≡ count id xs + count id ys
unfolding count
count-append id [] ys = omega arith
count-append id (x ∷ xs) ys = ground (arith, count-append id xs ys)

module _ {ℓ} {V : Type ℓ} where
  abbrev pub ids : List (ExtentEntry V) → List Bytes
  ids exts = map (λ ext. ext.id) exts

  unfoldable pub count_tables : Bytes → Dict (Table V) → ℕ
  count_tables id [] = 0
  count_tables id ((name, t) ∷ ts) = count id (ids t.extents) + count_tables id ts

  pub count-ids_append :
      (id : Bytes) (xs ys : List (ExtentEntry V))
      → count id (ids (xs ++ ys)) ≡ count id (ids xs) + count id (ids ys)
  unfolding count
  count-ids_append id [] ys = omega arith
  count-ids_append id (x ∷ xs) ys = ground (arith, count-ids_append id xs ys)

  pub count-keep :
      (id : Bytes) (p : ExtentEntry V → Bool) (xs : List (ExtentEntry V))
      → count id (ids (keep p xs)) ≤ count id (ids xs)
  unfolding count
  count-keep id p [] = omega arith
  count-keep id p (x ∷ xs) = ground (arith, count-keep id p xs)

  pub count-insert :
      (id name : Bytes) (t t' : Table V) (ts : Dict (Table V))
      → lookup name ts ≡ some t
      → count_tables id (insert name t' ts) + count id (ids t.extents)
        ≡ count_tables id ts + count id (ids t'.extents)
  unfolding count_tables lookup insert
  count-insert id name t t' [] h = cc
  count-insert id name t t' ((j, w) ∷ ts) h = ground (arith, count-insert id name t t' ts)

  pub count-insert_new :
      (id name : Bytes) (t' : Table V) (ts : Dict (Table V))
      → lookup name ts ≡ none
      → count_tables id (insert name t' ts) ≡ count_tables id ts + count id (ids t'.extents)
  unfolding count_tables lookup insert
  count-insert_new id name t' [] h = omega arith
  count-insert_new id name t' ((j, w) ∷ ts) h = ground (arith, count-insert_new id name t' ts)

  pub count-delete :
      (id name : Bytes) (ts : Dict (Table V))
      → count_tables id (delete name ts) ≤ count_tables id ts
  unfolding count_tables delete
  count-delete id name [] = omega arith
  count-delete id name ((j, w) ∷ ts) = ground (arith, count-delete id name ts)

  pub count-take_extent :
      (id wanted : Bytes) (exts : List (ExtentEntry V)) (ext : ExtentEntry V)
      (others : List (ExtentEntry V))
      → take_extent wanted exts ≡ some (ext, others)
      → count id (ids others) ≤ count id (ids exts)
  unfolding count take_extent
  count-take_extent id wanted [] ext others h = cc
  count-take_extent id wanted (x ∷ xs) ext others h = elim (Option-cases (take_extent wanted xs)) [
    | inl nowhere ↦ ground arith
    | inr ((found, rest), more) ↦ ground (arith, count-take_extent id wanted xs found rest)
  ]

  pub count-take_from_tables :
      (id wanted : Bytes) (ts : Dict (Table V)) (name : Bytes) (ext : ExtentEntry V)
      (ts' : Dict (Table V))
      → take_from_tables wanted ts ≡ some (name, ext, ts')
      → count_tables id ts' ≤ count_tables id ts
  unfolding count_tables take_from_tables
  count-take_from_tables id wanted [] name ext ts' h = cc
  count-take_from_tables id wanted ((j, t) ∷ ts) name ext ts' h =
      elim (Option-cases (take_extent wanted t.extents)) [
        | inr ((found, others), here) ↦
            ground (arith, count-take_extent id wanted t.extents found others here)
        | inl absent ↦ elim (Option-cases (take_from_tables wanted ts)) [
          | inl nowhere ↦ ground arith
          | inr ((n, e, rest), more) ↦ ground (arith, count-take_from_tables id wanted ts n e rest)
        ]
      ]
