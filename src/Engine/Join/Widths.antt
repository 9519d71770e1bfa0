-- ===== src/Engine/Join/Widths.antt =====
-- The rows of a join's result (pkg/engine/join.go) fit its schema.
use gokql.Base.{
  ℕ, suc, ◌+◌, ◌≡◌, refl, ap, ◌∙◌, inl, inr, Bool, true, false, Bool-cases, Option-cases, none,
  some, List, [], ◌∷◌, map, if◌then◌else◌, length, length-append, length-replicate, replicate, keep,
  any, All, All-append, arith,
}
use gokql.Base.Bytes.{Bytes, bytes_eq}
use gokql.Base.Result.{ok}
use gokql.Types.Schema.{Schema, Column}
use gokql.Types.Value.{Real, null}
use gokql.Engine.Sort.{Row, cell}
use gokql.Engine.Join.{
  JoinKind, inner, inner_unique, left_outer, right_outer, full_outer, left_anti, left_semi,
  right_anti, right_semi, JoinOp, ResultTable, build_join_row, right_only, emit, is_one_of,
  column_name, add_columns, is_one_sided, build_join_schema, key_indices, apply_join, join_key,
}
use gokql.Engine.Join.Matches.{meets}
use gokql.Engine.Join.Nested.{
  flat_map, first_per_key, partners, partners_or_alone, alone, nested_loops, emit-nested_loops,
}

-- Every row has as many cells as there are columns.
abbrev pub HasWidth : ℕ → List Row → Type 0
HasWidth n rows = All (λ row. length row ≡ n) rows

length-cells : (outs : List ℕ) (r : Row) → length (map (λ i. cell r i) outs) ≡ length outs
length-cells [] r = refl
length-cells (i ∷ outs) r = ap suc (length-cells outs r)

All-map :
    (f : Row → Row) (n : ℕ) (rows : List Row)
    → ((r : Row) → length (f r) ≡ n)
    → HasWidth n (map f rows)
All-map f n [] h = tt
All-map f n (r ∷ rows) h = (h r, All-map f n rows h)

All-keep : (p : Row → Bool) (n : ℕ) (rows : List Row) → HasWidth n rows → HasWidth n (keep p rows)
All-keep p n [] h = tt
All-keep p n (r ∷ rows) h = elim (Bool-cases (p r)) [
  | inl q ↦ rw q (h.0, All-keep p n rows h.1)
  | inr q ↦ rw q (All-keep p n rows h.1)
]

All-flat_map :
    (f : Row → List Row) (m n : ℕ) (ls : List Row)
    → HasWidth m ls
    → ((l : Row) → length l ≡ m → HasWidth n (f l))
    → HasWidth n (flat_map f ls)
All-flat_map f m n [] h g = tt
All-flat_map f m n (l ∷ ls) h g =
    All-append _ (f l) (flat_map f ls) (g l h.0) (All-flat_map f m n ls h.1 g)

All-first_per_key :
    (key : Row → Bytes) (n : ℕ) (ls : List Row) (seen : Bytes → Bool)
    → HasWidth n ls
    → HasWidth n (first_per_key key seen ls)
All-first_per_key key n [] seen h = tt
All-first_per_key key n (l ∷ ls) seen h = elim (Bool-cases (seen (key l))) [
  | inl q ↦ rw q (All-first_per_key key n ls seen h.1)
  | inr q ↦
      rw q (h.0, All-first_per_key key n ls (λ k. if bytes_eq (key l) k then true else seen k) h.1)
]

-- The width of a kind's rows.
abbrev pub width_of : JoinKind → ℕ → ℕ → ℕ → ℕ
width_of kind left right outs = elim (is_one_sided kind) [
  | none ↦ left + outs
  | some true ↦ left
  | some false ↦ right
]

module _ (left_key right_key : Row → Bytes) (right_rows : List Row) (outs : List ℕ)
    (width : ℕ) where
  HasWidth-partners :
      (l : Row)
      → length l ≡ width
      → HasWidth (width + length outs) (partners left_key right_key right_rows outs width l)
  HasWidth-partners l h =
      All-map (build_join_row left_key right_key right_rows outs width l) (width + length outs) _
        (λ r. length-append l (map (λ i. cell r i) outs) ∙ wide r)
    where
      wide : (r : Row) → length l + length (map (λ i. cell r i) outs) ≡ width + length outs
      wide r = omega (arith, h, length-cells outs r)

  HasWidth-alone :
      (ls : List Row)
      → HasWidth (width + length outs) (alone left_key right_key right_rows outs width ls)
  HasWidth-alone ls =
      All-map (right_only left_key right_key right_rows outs width) (width + length outs) _
        (λ r. length-append (replicate width null) (map (λ i. cell r i) outs) ∙ wide r)
    where
      wide :
          (r : Row)
          → length (replicate width null) + length (map (λ i. cell r i) outs) ≡ width + length outs
      wide r = omega (arith, length-replicate width null, length-cells outs r)

  HasWidth-partners_or_alone :
      (l : Row)
      → length l ≡ width
      → HasWidth
          (width + length outs)
          (partners_or_alone left_key right_key right_rows outs width l)
  HasWidth-partners_or_alone l h = elim (Bool-cases (any (meets left_key right_key l) right_rows)) [
    | inl p ↦ rw (partners_or_alone, p) (HasWidth-partners l h)
    | inr p ↦ rw (partners_or_alone, p) (length-append l (replicate (length outs) null) ∙ wide, tt)
  ]
    where
      wide : length l + length (replicate (length outs) null) ≡ width + length outs
      wide = omega (arith, h, length-replicate (length outs) null)

  nested_loops-HasWidth :
      (kind : JoinKind) (n : ℕ) (ls : List Row)
      → HasWidth width ls
      → HasWidth n right_rows
      → HasWidth
          (width_of kind width n (length outs))
          (nested_loops left_key right_key right_rows outs width kind ls)
  nested_loops-HasWidth inner n ls h k =
      All-flat_map _ width (width + length outs) ls h HasWidth-partners
  nested_loops-HasWidth inner_unique n ls h k =
      All-flat_map _ width (width + length outs) (first_per_key left_key (λ s. false) ls)
        (All-first_per_key left_key width ls (λ s. false) h) HasWidth-partners
  nested_loops-HasWidth left_outer n ls h k =
      All-flat_map _ width (width + length outs) ls h HasWidth-partners_or_alone
  nested_loops-HasWidth right_outer n ls h k =
      All-append _ _ _ (All-flat_map _ width (width + length outs) ls h HasWidth-partners)
        (HasWidth-alone ls)
  nested_loops-HasWidth full_outer n ls h k =
      All-append _ _ _ (All-flat_map _ width (width + length outs) ls h HasWidth-partners_or_alone)
        (HasWidth-alone ls)
  nested_loops-HasWidth left_anti n ls h k = All-keep _ width ls h
  nested_loops-HasWidth left_semi n ls h k = All-keep _ width ls h
  nested_loops-HasWidth right_anti n ls h k = All-keep _ n right_rows k
  nested_loops-HasWidth right_semi n ls h k = All-keep _ n right_rows k

length-add_columns :
    (left_names : List Bytes) (keys : List ℕ) (cs : List Column) (i : ℕ) (taken : List Bytes)
    → length ((add_columns left_names keys cs i taken).0)
      ≡ length ((add_columns left_names keys cs i taken).1)
unfolding add_columns
length-add_columns left_names keys [] i taken = refl
length-add_columns left_names keys (c ∷ cs) i taken = elim (Bool-cases (is_one_of i keys)) [
  | inl p ↦ rw (add_columns, p) (length-add_columns left_names keys cs (suc i) taken)
  | inr p ↦
      rw (add_columns, p)
        (ap suc (
          length-add_columns left_names keys cs (suc i)
            (column_name left_names taken c.name ∷ taken)))
]

build_join_schema-width :
    (left right : Schema) (op : JoinOp)
    → length ((build_join_schema left right op).0).columns
      ≡ width_of op.kind
          (length left.columns)
          (length right.columns)
          (length ((build_join_schema left right op).1))
unfolding build_join_schema
build_join_schema-width left right op = elim (Option-cases (is_one_sided op.kind)) [
  | inr (true, p) ↦ rw (build_join_schema, width_of, p) refl
  | inr (false, p) ↦ rw (build_join_schema, width_of, p) refl
  | inl p ↦
      rw (build_join_schema, width_of, p, build_join_schema, p)
        (length-append left.columns _
          ∙ ap (λ n. length left.columns + n) (length-add_columns _ _ right.columns 0 _))
]

-- Where the columns of the clauses are found and each row has as many cells as its table has columns,
-- a join of any kind succeeds with the rows of the nested loops, and each of them has as many cells as
-- the result has columns.
pub apply_join_lem :
    (real_text : Real → Bytes) (left right : ResultTable) (op : JoinOp)
    (left_idxs right_idxs : List ℕ)
    → key_indices left.schema right.schema op.on_clauses ≡ ok (left_idxs, right_idxs)
    → HasWidth (length left.schema.columns) left.rows
    → HasWidth (length right.schema.columns) right.rows
    → (result : ResultTable) × (apply_join real_text left right op ≡ ok result)
      × (result.rows
          ≡ nested_loops
              (join_key real_text left_idxs)
              (join_key real_text right_idxs)
              right.rows
              ((build_join_schema left.schema right.schema op).1)
              (length left.schema.columns)
              op.kind
              left.rows)
      × HasWidth (length result.schema.columns) result.rows
unfolding apply_join
apply_join_lem real_text left right op left_idxs right_idxs found h k =
    let left_key = join_key real_text left_idxs in
    let right_key = join_key real_text right_idxs in
    let outs = (build_join_schema left.schema right.schema op).1 in
    let width = length left.schema.columns in
    let same = emit-nested_loops left_key right_key right.rows outs width op.kind left.rows in
    (
      record {
        schema = (build_join_schema left.schema right.schema op).0;
        rows = emit left_key right_key right.rows outs width op.kind left.rows;
      },
      rw (apply_join, found) refl,
      same,
      rw (same, build_join_schema-width left.schema right.schema op)
          (nested_loops-HasWidth left_key right_key right.rows outs width op.kind
            (length right.schema.columns) left.rows h k),
    )
