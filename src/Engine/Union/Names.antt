-- ===== src/Engine/Union/Names.antt =====
-- The column names of a union (`buildUnionSchema` of pkg/engine/operators.go).
use gokql.Base.{
  ℕ, suc, ◌<◌, ◌≡◌, ◌⊎◌, refl, sym, ◌∙◌, inl, inr, true, false, Bool-cases, List, [], ◌∷◌, ◌++◌,
  length, ltb, ◌==◌, ==_iff, All, All-imp, arith,
}
use gokql.Base.Bytes.{Bytes, bytes_eq, bytes_eq_iff, bytes_eq_refl}
use gokql.Types.KqlType.{type_name, type_eq}
use gokql.Types.Schema.{Schema, Column}
use gokql.Engine.Join.{has_name}
use gokql.Engine.Join.Fresh.{fresh_name_free}
use gokql.Engine.Join.Names.{Distinct, names_of, or_none, or_true, absent}
use gokql.Engine.Union.{
  column_eq, has_column, union_keys, type_count, genuine, free_name, name_columns, union_order,
  build_union_schema,
}
use gokql.Engine.Union.Keys.{
  Once, Among, other_name, column_eq-sym, union_order-Once, union_order-Among,
}

free_name_free : (used : List Bytes) (base : Bytes) → has_name (free_name used base) used ≡ false
unfolding free_name
free_name_free used base = elim (Bool-cases (has_name base used)) [
  | inl p ↦
      rw (free_name, p)
        (fresh_name_free (suc (length used)) base used used 1 (omega arith) (λ k le. refl))
  | inr p ↦ rw (free_name, p) p
]

same_name : (k c : Column) → column_eq k c ≡ true → k.name ≡ c.name
unfolding column_eq
same_name k c h = elim (Bool-cases (bytes_eq k.name c.name)) [
  | inl p ↦ (bytes_eq_iff k.name c.name).0 p
  | inr p ↦ cc (rw p at h)
]

type_count-some :
    (keys : List Column) (k : Column) → has_column k keys ≡ true → 0 < type_count keys k.name
type_count-some [] k h = cc h
type_count-some (c ∷ cs) k h = elim (Bool-cases (bytes_eq c.name k.name)) [
  | inl p ↦ rw p (omega arith)
  | inr p ↦ elim (Bool-cases (column_eq c k)) [
    | inl q ↦ cc (sym p ∙ (bytes_eq_iff c.name k.name).1 (same_name c k q))
    | inr q ↦ rw p (type_count-some cs k (rw q at h))
  ]
]

column_eq-both :
    (c k l : Column) → column_eq c k ≡ true → column_eq c l ≡ true → column_eq l k ≡ true
unfolding column_eq type_eq
column_eq-both c k l h i =
    ground
      (arith, bytes_eq_iff c.name k.name, bytes_eq_iff c.name l.name, bytes_eq_iff l.name k.name)

-- A name of two pairs has two types.
type_count-two :
    (keys : List Column) (k l : Column)
    → has_column k keys ≡ true
    → has_column l keys ≡ true
    → k.name ≡ l.name
    → column_eq l k ≡ false
    → 1 < type_count keys k.name
type_count-two [] k l h i e d = cc h
type_count-two (c ∷ cs) k l h i e d = elim (Bool-cases (bytes_eq c.name k.name)) [
  | inr p ↦
      let apart_k : column_eq c k ≡ false = other_name k c p in
      let apart_l : column_eq c l ≡ false = other_name l c (rw (← e) p) in
      rw p (type_count-two cs k l (rw apart_k at h) (rw apart_l at i) e d)
  | inl p ↦ elim (Bool-cases (column_eq c k)) [
    | inr q ↦ rw p (let more = type_count-some cs k (rw q at h) in omega (arith, more))
    | inl q ↦ elim (Bool-cases (column_eq c l)) [
      | inl r ↦ cc (sym d ∙ column_eq-both c k l q r)
      | inr r ↦ rw p (
          let more = type_count-some cs l (rw r at i) in
          let counted : 0 < type_count cs k.name = rw e more in omega (arith, counted))
    ]
  ]
]

many : (n : ℕ) → ltb 1 n ≡ true → (n == 1) ≡ false
many n h = ground (arith, h)

one : (n : ℕ) → ltb 1 n ≡ false → 0 < n → (n == 1) ≡ true
one n h k = ground (arith, h, k)

apart : (s t : Bytes) → (s ≡ t → ⊥) → bytes_eq s t ≡ false
apart s t h = elim (Bool-cases (bytes_eq s t)) [
  | inr p ↦ p
  | inl p ↦ absurd (h ((bytes_eq_iff s t).0 p))
]

bytes_eq-swap : (s t : Bytes) → bytes_eq s t ≡ false → bytes_eq t s ≡ false
bytes_eq-swap s t h = apart t s (λ e. cc (sym h ∙ (bytes_eq_iff s t).1 (sym e)))

-- With the pairs of all legs.
module _ (keys : List Column) where
  genuine-Distinct :
      (order : List Column) → Once order → Among keys order → Distinct (genuine keys order)
  genuine-Distinct [] o a = tt
  genuine-Distinct (k ∷ ks) o a = elim (Bool-cases (type_count keys k.name == 1)) [
    | inr p ↦ rw p (genuine-Distinct ks o.1 a.1)
    | inl p ↦ rw p (lone ks o.0 a.1, genuine-Distinct ks o.1 a.1)
  ]
    where
      lone :
          (cs : List Column)
          → has_column k cs ≡ false
          → Among keys cs
          → has_name k.name (genuine keys cs) ≡ false
      lone [] h b = refl
      lone (c ∷ cs) h b =
          let (u, v) = or_none (column_eq c k) (has_column k cs) h in
          elim (Bool-cases (type_count keys c.name == 1)) [
            | inr p ↦ rw p (lone cs v b.1)
            | inl p ↦ elim (Bool-cases (bytes_eq c.name k.name)) [
              | inr q ↦ rw (p, q) (lone cs v b.1)
              | inl q ↦
                  let two =
                    type_count-two keys c k b.0 a.0 ((bytes_eq_iff c.name k.name).0 q)
                      (column_eq-sym c k u) in
                  let one = (==_iff (type_count keys c.name) 1).0 p in
                  absurd (omega (arith, two, one))
            ]
          ]

  -- A name in the result is genuine, or was free.
  abbrev IsNamed : List Bytes → List Column → Bytes → Type 0
  IsNamed used order s = (has_name s (genuine keys order) ≡ true) ⊎ (has_name s used ≡ false)

  name_columns-IsNamed :
      (order : List Column) (used : List Bytes)
      → Among keys order
      → All (IsNamed used order) (names_of (name_columns keys used order))
  unfolding name_columns
  name_columns-IsNamed [] used a = tt
  name_columns-IsNamed (k ∷ ks) used a =
      let name = free_name used (k.name ++ b'_' ∷ type_name k.type) in
      elim (Bool-cases (ltb 1 (type_count keys k.name))) [
        | inl p ↦
            let not_one = many (type_count keys k.name) p in
            rw (name_columns, p, not_one)
              (
                inr (free_name_free used (k.name ++ b'_' ∷ type_name k.type)),
                All-imp (IsNamed (name ∷ used) ks) _ (names_of (name_columns keys (name ∷ used) ks))
                    (λ s h. elim h [
                      | inl g ↦ inl (rw not_one g)
                      | inr q ↦ inr ((or_none (bytes_eq name s) (has_name s used) q).1)
                    ])
                    (name_columns-IsNamed ks (name ∷ used) a.1),
              )
        | inr p ↦
            let is_one = one (type_count keys k.name) p (type_count-some keys k a.0) in
            rw (name_columns, p, is_one)
              (
                inl (rw (bytes_eq_refl k.name) refl),
                All-imp (IsNamed used ks) _ (names_of (name_columns keys used ks))
                    (λ s h. elim h [
                      | inl g ↦ inl (rw is_one (or_true (bytes_eq k.name s) g))
                      | inr q ↦ inr q
                    ])
                    (name_columns-IsNamed ks used a.1),
              )
      ]

  abbrev Covers : List Bytes → List Column → Type 0
  Covers used order =
      (s : Bytes) → has_name s used ≡ false → has_name s (genuine keys order) ≡ false

  name_columns-Distinct :
      (order : List Column) (used : List Bytes)
      → Among keys order
      → Distinct (genuine keys order)
      → Covers used order
      → Distinct (names_of (name_columns keys used order))
  unfolding name_columns
  name_columns-Distinct [] used a d f = tt
  name_columns-Distinct (k ∷ ks) used a d f =
      let name = free_name used (k.name ++ b'_' ∷ type_name k.type) in
      let free = free_name_free used (k.name ++ b'_' ∷ type_name k.type) in
      elim (Bool-cases (ltb 1 (type_count keys k.name))) [
        | inl p ↦
            let not_one = many (type_count keys k.name) p in
            let d' : Distinct (genuine keys ks) = rw not_one at d in
            let f' : Covers used ks = λ s q. rw not_one at (f s q) in
            rw (name_columns, p)
              (
                absent name (names_of (name_columns keys (name ∷ used) ks)) (
                    All-imp (IsNamed (name ∷ used) ks) _
                      (names_of (name_columns keys (name ∷ used) ks))
                      (λ s h. elim h [
                        | inl g ↦ apart s name (λ e. cc (sym (f' name free) ∙ rw e at g))
                        | inr q ↦
                            bytes_eq-swap name s ((or_none (bytes_eq name s) (has_name s used) q).0)
                      ])
                      (name_columns-IsNamed ks (name ∷ used) a.1)),
                name_columns-Distinct ks (name ∷ used) a.1 d'
                    (λ s q. f' s ((or_none (bytes_eq name s) (has_name s used) q).1)),
              )
        | inr p ↦
            let is_one = one (type_count keys k.name) p (type_count-some keys k a.0) in
            let d' : Distinct (k.name ∷ genuine keys ks) = rw is_one at d in
            let f' : (s : Bytes)
                → has_name s used ≡ false
                → has_name s (k.name ∷ genuine keys ks) ≡ false =
              λ s q. rw is_one at (f s q) in
            rw (name_columns, p)
              (
                absent k.name (names_of (name_columns keys used ks)) (
                    All-imp (IsNamed used ks) _ (names_of (name_columns keys used ks))
                      (λ s h. elim h [
                        | inl g ↦ apart s k.name (λ e. cc (sym d'.0 ∙ rw e at g))
                        | inr q ↦ bytes_eq-swap k.name s (
                            (or_none (bytes_eq k.name s) (has_name s (genuine keys ks)) (f' s q)).0)
                      ])
                      (name_columns-IsNamed ks used a.1)),
                name_columns-Distinct ks used a.1 d'.1 (λ s q.
                    (or_none (bytes_eq k.name s) (has_name s (genuine keys ks)) (f' s q)).1),
              )
      ]

-- The result schema of a union has no column name twice, whatever the legs and the kind.
pub build_union_schema-Distinct :
    (tables : List Schema) (kind : Bytes)
    → Distinct (names_of ((build_union_schema tables kind).0).columns)
unfolding build_union_schema
build_union_schema-Distinct tables kind =
    let keys = union_keys [] tables in
    let order = union_order tables kind in
    let among = union_order-Among tables kind in
    name_columns-Distinct keys order (genuine keys order) among
      (genuine-Distinct keys order (union_order-Once tables kind) among) (λ s q. q)
