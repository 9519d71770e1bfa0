-- ===== src/Engine/Join/Names.antt =====
-- The column names of a join's result (`buildJoinSchema` of pkg/engine/join.go).
use gokql.Base.{
  ℕ, suc, ◌≡◌, ◌⊎◌, refl, sym, ◌∙◌, inl, inr, Bool, true, false, Bool-cases, Option-cases, List, [],
  ◌∷◌, ◌++◌, map, if◌then◌else◌, All, All-imp, arith,
}
use gokql.Base.Bytes.{Bytes, bytes_eq, bytes_eq_iff, bytes_eq_refl}
use gokql.Types.Schema.{Schema, Column}
use gokql.Engine.Join.{
  has_name, is_one_of, column_name, add_columns, JoinOp, is_one_sided, build_join_schema,
  right_keys,
}
use gokql.Engine.Join.Fresh.{column_name-left, column_name-cases}

abbrev pub names_of : List Column → List Bytes
names_of cs = map (λ c. c.name) cs

-- No name stands twice.
abbrev pub Distinct : List Bytes → Type 0
Distinct [] = Unit
Distinct (s ∷ names) = (has_name s names ≡ false) × Distinct names

-- The names of new columns: apart from the left ones, and each a right column's or free.
abbrev IsAdded : List Bytes → List Bytes → List Bytes → Bytes → Type 0
IsAdded left_names taken rest s =
    (has_name s left_names ≡ false) × ((has_name s rest ≡ true) ⊎ (has_name s taken ≡ false))

pub or_true : (a : Bool) {b : Bool} → b ≡ true → (if a then true else b) ≡ true
or_true true h = refl
or_true false h = h

pub or_none : (a b : Bool) → (if a then true else b) ≡ false → (a ≡ false) × (b ≡ false)
or_none true b h = cc h
or_none false b h = (refl, h)

pub absent :
    (name : Bytes) (ns : List Bytes)
    → All (λ s. bytes_eq s name ≡ false) ns
    → has_name name ns ≡ false
absent name [] h = refl
absent name (s ∷ ns) h = rw (h.0) (absent name ns h.1)

module _ (left_names : List Bytes) (keys : List ℕ) where
  abbrev Apart : List Bytes → List Bytes → Type 0
  Apart taken rest =
      ((s : Bytes) → has_name s taken ≡ false → has_name s left_names ≡ false)
      × ((s : Bytes) → has_name s taken ≡ false → has_name s rest ≡ false)

  Apart-rest :
      (taken : List Bytes) (t : Bytes) (rest : List Bytes)
      → Apart taken (t ∷ rest)
      → Apart taken rest
  Apart-rest taken t rest (f, g) = (f, λ s q. (or_none (bytes_eq t s) (has_name s rest) (g s q)).1)

  Apart-taken :
      (taken : List Bytes) (name t : Bytes) (rest : List Bytes)
      → Apart taken (t ∷ rest)
      → Apart (name ∷ taken) rest
  Apart-taken taken name t rest h =
      let (f, g) = Apart-rest taken t rest h in
      (
        λ s q. f s ((or_none (bytes_eq name s) (has_name s taken) q).1),
        λ s q. g s ((or_none (bytes_eq name s) (has_name s taken) q).1),
      )

  IsAdded-rest :
      (taken : List Bytes) (t : Bytes) (rest : List Bytes) (s : Bytes)
      → IsAdded left_names taken rest s
      → IsAdded left_names taken (t ∷ rest) s
  IsAdded-rest taken t rest s (a, inl p) = (a, inl (or_true (bytes_eq t s) p))
  IsAdded-rest taken t rest s (a, inr q) = (a, inr q)

  IsAdded-taken :
      (taken : List Bytes) (name t : Bytes) (rest : List Bytes) (s : Bytes)
      → IsAdded left_names (name ∷ taken) rest s
      → IsAdded left_names taken (t ∷ rest) s
  IsAdded-taken taken name t rest s (a, inl p) = (a, inl (or_true (bytes_eq t s) p))
  IsAdded-taken taken name t rest s (a, inr q) =
      (a, inr ((or_none (bytes_eq name s) (has_name s taken) q).1))

  column_name-IsAdded :
      (taken : List Bytes) (name : Bytes) (rest : List Bytes)
      → Apart taken (name ∷ rest)
      → IsAdded left_names taken (name ∷ rest) (column_name left_names taken name)
  column_name-IsAdded taken name rest (f, g) = (
    column_name-left left_names taken name f,
    elim (column_name-cases left_names taken name) [
      | inl p ↦ inl (rw (p, bytes_eq_refl name) refl)
      | inr q ↦ inr q
    ],
  )

  add_columns-IsAdded :
      (cs : List Column) (i : ℕ) (taken : List Bytes)
      → Apart taken (names_of cs)
      → All
          (IsAdded left_names taken (names_of cs))
          (names_of ((add_columns left_names keys cs i taken).0))
  unfolding add_columns
  add_columns-IsAdded [] i taken h = tt
  add_columns-IsAdded (c ∷ cs) i taken h = elim (Bool-cases (is_one_of i keys)) [
    | inl p ↦
        rw (add_columns, p)
          (All-imp _ _ (names_of ((add_columns left_names keys cs (suc i) taken).0))
            (IsAdded-rest taken c.name (names_of cs))
            (add_columns-IsAdded cs (suc i) taken (Apart-rest taken c.name (names_of cs) h)))
    | inr p ↦
        let name = column_name left_names taken c.name in
        rw (add_columns, p)
          (
            column_name-IsAdded taken c.name (names_of cs) h,
            All-imp _ _ (names_of ((add_columns left_names keys cs (suc i) (name ∷ taken)).0))
                (IsAdded-taken taken name c.name (names_of cs))
                (add_columns-IsAdded cs (suc i) (name ∷ taken)
                  (Apart-taken taken name c.name (names_of cs) h)),
          )
  ]

  -- A later column has another name than one that was added.
  later-Apart :
      (taken : List Bytes) (name : Bytes) (rest : List Bytes) (s : Bytes)
      → Apart taken (name ∷ rest)
      → has_name name rest ≡ false
      → IsAdded left_names (column_name left_names taken name ∷ taken) rest s
      → bytes_eq s (column_name left_names taken name) ≡ false
  later-Apart taken name rest s h d a =
      elim (Bool-cases (bytes_eq s (column_name left_names taken name))) [
        | inr p ↦ p
        | inl p ↦
            let same : s ≡ column_name left_names taken name =
              (bytes_eq_iff s (column_name left_names taken name)).0 p in
            absurd (elim (a.1) [
              | inr q ↦
                  let self : bytes_eq (column_name left_names taken name) s ≡ true =
                    rw same (bytes_eq_refl (column_name left_names taken name)) in
                  cc (
                    sym
                      (or_none (bytes_eq (column_name left_names taken name) s) (has_name s taken)
                        q).0
                    ∙ self)
              | inl q ↦ elim (column_name-cases left_names taken name) [
                | inl e ↦ cc (sym d ∙ rw (same, e) at q)
                | inr e ↦ cc (
                    sym
                      (or_none (bytes_eq name (column_name left_names taken name))
                        (has_name (column_name left_names taken name) rest)
                        (h.1 (column_name left_names taken name) e)).1
                    ∙ rw same at q)
              ]
            ])
      ]

  add_columns-Distinct :
      (cs : List Column) (i : ℕ) (taken : List Bytes)
      → Distinct (names_of cs)
      → Apart taken (names_of cs)
      → Distinct (names_of ((add_columns left_names keys cs i taken).0))
  unfolding add_columns
  add_columns-Distinct [] i taken d h = tt
  add_columns-Distinct (c ∷ cs) i taken d h = elim (Bool-cases (is_one_of i keys)) [
    | inl p ↦
        rw (add_columns, p)
          (add_columns-Distinct cs (suc i) taken d.1 (Apart-rest taken c.name (names_of cs) h))
    | inr p ↦
        let name = column_name left_names taken c.name in
        let apart = Apart-taken taken name c.name (names_of cs) h in
        rw (add_columns, p)
          (
            absent name (names_of ((add_columns left_names keys cs (suc i) (name ∷ taken)).0)) (
                All-imp _ _ (names_of ((add_columns left_names keys cs (suc i) (name ∷ taken)).0))
                  (λ s a. later-Apart taken c.name (names_of cs) s h d.0 a)
                  (add_columns-IsAdded cs (suc i) (name ∷ taken) apart)),
            add_columns-Distinct cs (suc i) (name ∷ taken) d.1 apart,
          )
  ]

has_name-append :
    (s : Bytes) (xs ys : List Bytes)
    → has_name s (xs ++ ys) ≡ (if has_name s xs then true else has_name s ys)
has_name-append s [] ys = refl
has_name-append s (x ∷ xs) ys =
    rw (has_name-append s xs ys) (nested (bytes_eq x s) (has_name s xs) (has_name s ys))
  where
    nested :
        (a b c : Bool)
        → (if a then true else if b then true else c)
          ≡ (if (if a then true else b) then true else c)
    nested true b c = refl
    nested false b c = refl

bytes_eq-sym_false : (a b : Bytes) → bytes_eq a b ≡ false → bytes_eq b a ≡ false
bytes_eq-sym_false a b h = ground (arith, bytes_eq_iff a b, bytes_eq_iff b a)

pub Distinct-append :
    (xs ys : List Bytes)
    → Distinct xs
    → Distinct ys
    → All (λ s. has_name s xs ≡ false) ys
    → Distinct (xs ++ ys)
Distinct-append [] ys d e h = e
Distinct-append (x ∷ xs) ys d e h =
    let here : has_name x ys ≡ false = absent x ys (
      All-imp _ _ ys (λ s q. bytes_eq-sym_false x s (or_none (bytes_eq x s) (has_name s xs) q).0)
        h) in
    (
      rw (has_name-append x xs ys, d.0, here) refl,
      Distinct-append xs ys d.1 e
          (All-imp _ _ ys (λ s q. (or_none (bytes_eq x s) (has_name s xs) q).1) h),
    )

names_of-append : (xs ys : List Column) → names_of (xs ++ ys) ≡ names_of xs ++ names_of ys
names_of-append [] ys = refl
names_of-append (x ∷ xs) ys = rw (names_of-append xs ys) refl

-- Where no column name stands twice on either side, none stands twice in the result of a join of any
-- kind, with or without the right keys: the numbering of a clashing name always finds a free one.
pub build_join_schema-Distinct :
    (left right : Schema) (op : JoinOp)
    → Distinct (names_of left.columns)
    → Distinct (names_of right.columns)
    → Distinct (names_of ((build_join_schema left right op).0).columns)
unfolding build_join_schema
build_join_schema-Distinct left right op d e = elim (Option-cases (is_one_sided op.kind)) [
  | inr (true, p) ↦ rw (build_join_schema, p) d
  | inr (false, p) ↦ rw (build_join_schema, p) e
  | inl p ↦
      let names = names_of left.columns in
      let keys = if op.drop_right_keys then right_keys right op.on_clauses else [] in
      let taken = names ++ names_of right.columns in
      let added = (add_columns names keys right.columns 0 taken).0 in
      let apart = all_taken names (names_of right.columns) in
      rw (build_join_schema, p, names_of-append left.columns added)
        (Distinct-append names (names_of added) d
          (add_columns-Distinct names keys right.columns 0 taken e apart)
          (All-imp _ _ (names_of added) (λ s a. a.0)
            (add_columns-IsAdded names keys right.columns 0 taken apart)))
]
  where
    all_taken :
        (xs ys : List Bytes)
        → ((s : Bytes) → has_name s (xs ++ ys) ≡ false → has_name s xs ≡ false)
          × ((s : Bytes) → has_name s (xs ++ ys) ≡ false → has_name s ys ≡ false)
    all_taken xs ys = (
      λ s q. (or_none (has_name s xs) (has_name s ys) (sym (has_name-append s xs ys) ∙ q)).0,
      λ s q. (or_none (has_name s xs) (has_name s ys) (sym (has_name-append s xs ys) ∙ q)).1,
    )
