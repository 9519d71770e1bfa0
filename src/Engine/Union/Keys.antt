-- ===== src/Engine/Union/Keys.antt =====
-- The pairs of names and types of a union (`buildUnionSchema` of pkg/engine/operators.go) stand once each.
use gokql.Base.{
  ◌≡◌, refl, inl, inr, Bool, true, false, Bool-cases, List, [], ◌∷◌, ◌++◌, if◌then◌else◌, length,
  keep, ◌==◌, All, All-imp, All-append, arith,
}
use gokql.Base.Bytes.{Bytes, codes, bytes_eq, bytes_eq_iff, bytes_eq_refl}
use gokql.Types.KqlType.{type_eq}
use gokql.Types.Schema.{Schema, Column}
use gokql.Engine.Join.{has_name}
use gokql.Engine.Join.Names.{or_none}
use gokql.Engine.Union.{
  column_eq, has_column, add_keys, union_keys, leg_count, group_types, union_order,
}

-- No pair of a name and a type stands twice.
abbrev pub Once : List Column → Type 0
Once [] = Unit
Once (c ∷ cs) = (has_column c cs ≡ false) × Once cs

column_eq_refl : (c : Column) → column_eq c c ≡ true
unfolding column_eq type_eq
column_eq_refl c = rw (bytes_eq_refl c.name) (ground arith)

pub column_eq-sym : (c d : Column) → column_eq c d ≡ false → column_eq d c ≡ false
unfolding column_eq type_eq
column_eq-sym c d h = ground (arith, bytes_eq_iff c.name d.name, bytes_eq_iff d.name c.name)

has_column-append :
    (k : Column) (xs ys : List Column)
    → has_column k (xs ++ ys) ≡ (if has_column k xs then true else has_column k ys)
has_column-append k [] ys = refl
has_column-append k (x ∷ xs) ys = elim (Bool-cases (column_eq x k)) [
  | inl p ↦ rw p refl
  | inr p ↦ rw p (has_column-append k xs ys)
]

not_among :
    (k : Column) (cs : List Column) → All (λ c. column_eq c k ≡ false) cs → has_column k cs ≡ false
not_among k [] h = refl
not_among k (c ∷ cs) h = rw (h.0) (not_among k cs h.1)

Once-append :
    (xs ys : List Column)
    → Once xs
    → Once ys
    → All (λ y. has_column y xs ≡ false) ys
    → Once (xs ++ ys)
Once-append [] ys d e h = e
Once-append (x ∷ xs) ys d e h =
    let here : has_column x ys ≡ false = not_among x ys (
      All-imp _ _ ys (λ y q. column_eq-sym x y (or_none (column_eq x y) (has_column y xs) q).0)
        h) in
    (
      rw (has_column-append x xs ys, d.0) here,
      Once-append xs ys d.1 e
          (All-imp _ _ ys (λ y q. (or_none (column_eq x y) (has_column y xs) q).1) h),
    )

add_keys-Once : (order cs : List Column) → Once order → Once (add_keys order cs)
unfolding add_keys
add_keys-Once order [] h = h
add_keys-Once order (c ∷ cs) h = elim (Bool-cases (has_column c order)) [
  | inl p ↦ rw (add_keys, p) (add_keys-Once order cs h)
  | inr p ↦
      rw (add_keys, p)
        (add_keys-Once (order ++ c ∷ []) cs (Once-append order (c ∷ []) h (refl, tt) (p, tt)))
]

union_keys-Once : (order : List Column) (ts : List Schema) → Once order → Once (union_keys order ts)
unfolding union_keys
union_keys-Once order [] h = h
union_keys-Once order (t ∷ ts) h =
    union_keys-Once (add_keys order t.columns) ts (add_keys-Once order t.columns h)

has_column-keep :
    (p : Column → Bool) (k : Column) (cs : List Column)
    → has_column k cs ≡ false
    → has_column k (keep p cs) ≡ false
has_column-keep p k [] h = h
has_column-keep p k (c ∷ cs) h =
    let (a, b) = or_none (column_eq c k) (has_column k cs) h in
    elim (Bool-cases (p c)) [
      | inl q ↦ rw (q, a) (has_column-keep p k cs b)
      | inr q ↦ rw q (has_column-keep p k cs b)
    ]

keep-Once : (p : Column → Bool) (cs : List Column) → Once cs → Once (keep p cs)
keep-Once p [] h = tt
keep-Once p (c ∷ cs) h = elim (Bool-cases (p c)) [
  | inl q ↦ rw q (has_column-keep p c cs h.0, keep-Once p cs h.1)
  | inr q ↦ rw q (keep-Once p cs h.1)
]

-- Every pair is one of some others.
abbrev pub Among : List Column → List Column → Type 0
Among keys cs = All (λ c. has_column c keys ≡ true) cs

keep-All :
    (P : Column → Type 0) (p : Column → Bool) (cs : List Column) → All P cs → All P (keep p cs)
keep-All P p [] h = tt
keep-All P p (c ∷ cs) h = elim (Bool-cases (p c)) [
  | inl q ↦ rw q (h.0, keep-All P p cs h.1)
  | inr q ↦ rw q (keep-All P p cs h.1)
]

keep-test : (p : Column → Bool) (cs : List Column) → All (λ c. p c ≡ true) (keep p cs)
keep-test p [] = tt
keep-test p (c ∷ cs) = elim (Bool-cases (p c)) [
  | inl q ↦ rw q (q, keep-test p cs)
  | inr q ↦ rw q (keep-test p cs)
]

has_column-more :
    (c k : Column) (cs : List Column) → has_column k cs ≡ true → has_column k (c ∷ cs) ≡ true
has_column-more c k cs h = elim (Bool-cases (column_eq c k)) [ inl p ↦ rw p refl | inr p ↦ rw p h ]

Among-self : (cs : List Column) → Among cs cs
Among-self [] = tt
Among-self (c ∷ cs) =
    (rw (column_eq_refl c) refl, All-imp _ _ cs (λ k h. has_column-more c k cs h) (Among-self cs))

group_types-Among :
    (keys : List Column) (placed : List Bytes) (ks : List Column)
    → Among keys (group_types keys placed ks)
unfolding group_types
group_types-Among keys placed [] = tt
group_types-Among keys placed (k ∷ ks) = elim (Bool-cases (has_name k.name placed)) [
  | inl p ↦ rw (group_types, p) (group_types-Among keys placed ks)
  | inr p ↦
      rw (group_types, p)
        (All-append _ (keep (λ k2. bytes_eq k2.name k.name) keys)
          (group_types keys (k.name ∷ placed) ks)
          (keep-All _ (λ k2. bytes_eq k2.name k.name) keys (Among-self keys))
          (group_types-Among keys (k.name ∷ placed) ks))
]

-- A name that is placed is not placed again.
group_types-unplaced :
    (keys : List Column) (placed : List Bytes) (ks : List Column)
    → All (λ c. has_name c.name placed ≡ false) (group_types keys placed ks)
unfolding group_types
group_types-unplaced keys placed [] = tt
group_types-unplaced keys placed (k ∷ ks) = elim (Bool-cases (has_name k.name placed)) [
  | inl p ↦ rw (group_types, p) (group_types-unplaced keys placed ks)
  | inr p ↦
      rw (group_types, p)
        (All-append _ (keep (λ k2. bytes_eq k2.name k.name) keys)
          (group_types keys (k.name ∷ placed) ks)
          (All-imp _ _ (keep (λ k2. bytes_eq k2.name k.name) keys)
            (λ c h. let same : c.name ≡ k.name = (bytes_eq_iff c.name k.name).0 h in rw same p)
            (keep-test (λ k2. bytes_eq k2.name k.name) keys))
          (All-imp _ _ (group_types keys (k.name ∷ placed) ks)
            (λ c h. (or_none (bytes_eq k.name c.name) (has_name c.name placed) h).1)
            (group_types-unplaced keys (k.name ∷ placed) ks)))
]

pub other_name : (c k : Column) → bytes_eq k.name c.name ≡ false → column_eq k c ≡ false
unfolding column_eq
other_name c k h = rw h refl

group_types-Once :
    (keys : List Column) (placed : List Bytes) (ks : List Column)
    → Once keys
    → Once (group_types keys placed ks)
unfolding group_types
group_types-Once keys placed [] h = tt
group_types-Once keys placed (k ∷ ks) h = elim (Bool-cases (has_name k.name placed)) [
  | inl p ↦ rw (group_types, p) (group_types-Once keys placed ks h)
  | inr p ↦
      rw (group_types, p)
        (Once-append (keep (λ k2. bytes_eq k2.name k.name) keys)
          (group_types keys (k.name ∷ placed) ks) (keep-Once (λ k2. bytes_eq k2.name k.name) keys h)
          (group_types-Once keys (k.name ∷ placed) ks h)
          (All-imp _ _ (group_types keys (k.name ∷ placed) ks)
            (λ c u. not_among c (keep (λ k2. bytes_eq k2.name k.name) keys) (
              All-imp _ _ (keep (λ k2. bytes_eq k2.name k.name) keys)
                (λ d same.
                  let named : d.name ≡ k.name = (bytes_eq_iff d.name k.name).0 same in
                  other_name c d
                    (rw named ((or_none (bytes_eq k.name c.name) (has_name c.name placed) u).0)))
                (keep-test (λ k2. bytes_eq k2.name k.name) keys)))
            (group_types-unplaced keys (k.name ∷ placed) ks)))
]

pub union_order-Once : (tables : List Schema) (kind : Bytes) → Once (union_order tables kind)
unfolding union_order
union_order-Once tables kind =
    let keys = union_keys [] tables in
    let once = union_keys-Once [] tables tt in
    elim (Bool-cases (bytes_eq kind (codes "inner"))) [
      | inl p ↦ rw (union_order, p) (keep-Once (λ k. leg_count tables k == length tables) keys once)
      | inr p ↦ rw (union_order, p) (group_types-Once keys [] keys once)
    ]

pub union_order-Among :
    (tables : List Schema) (kind : Bytes) → Among (union_keys [] tables) (union_order tables kind)
unfolding union_order
union_order-Among tables kind =
    let keys = union_keys [] tables in
    elim (Bool-cases (bytes_eq kind (codes "inner"))) [
      | inl p ↦
          rw (union_order, p)
            (keep-All _ (λ k. leg_count tables k == length tables) keys (Among-self keys))
      | inr p ↦ rw (union_order, p) (group_types-Among keys [] keys)
    ]
