-- ===== src/Engine/Join/Sizes.antt =====
-- The number of rows of pkg/engine/join.go (`outputRows`).
use gokql.Base.{
  ℕ, suc, ◌+◌, ◌≡◌, refl, sym, ap, inl, inr, Bool, true, false, Option-cases, none, some, List, [],
  ◌∷◌, map, if◌then◌else◌, length, length-append, arith,
}
use gokql.Base.Bytes.{Bytes}
use gokql.Engine.Sort.{Row}
use gokql.Engine.Join.{
  JoinKind, inner, inner_unique, left_outer, right_outer, full_outer, left_anti, left_semi,
  right_anti, right_semi, matches, left_only, emit, output_rows, count_rows,
}
use gokql.Engine.Join.Nested.{
  flat_map, partners, partners_or_alone, alone, rows_for, rows_for-partners, rows_for-alone,
  flat_map-same, emit-nested_loops,
}

module _ (left_key right_key : Row → Bytes) (right_rows : List Row) (outs : List ℕ)
    (width : ℕ) where
  length-map : (f : ℕ → Row) (xs : List ℕ) → length (map f xs) ≡ length xs
  length-map f [] = refl
  length-map f (x ∷ xs) = rw (length-map f xs) refl

  count_rows-length :
      (counted : Bool) (ls : List Row)
      → count_rows left_key right_key right_rows outs width counted ls
        ≡ length (flat_map (rows_for left_key right_key right_rows outs width counted) ls)
  unfolding count_rows
  count_rows-length counted [] = refl
  count_rows-length counted (l ∷ ls) =
      let rest = flat_map (rows_for left_key right_key right_rows outs width counted) ls in
      rw (length-append (rows_for left_key right_key right_rows outs width counted l) rest)
        (elim (Option-cases (matches left_key right_key right_rows outs width l)) [
          | inl e ↦
              rw (rows_for, count_rows, e, count_rows-length counted ls)
                (alone_size counted (length rest))
          | inr (ris, e) ↦
              rw (rows_for, count_rows, e, count_rows-length counted ls)
                (ap (λ n. n + length rest) (sym (length-map _ ris)))
        ])
    where
      alone_size :
          (b : Bool) (n : ℕ)
          → (if b then suc n else n)
            ≡ length (if b then left_only left_key right_key right_rows outs width l ∷ [] else [])
              + n
      alone_size true n = omega arith
      alone_size false n = omega arith

  count_rows-partners :
      (ls : List Row)
      → count_rows left_key right_key right_rows outs width false ls
        ≡ length (flat_map (partners left_key right_key right_rows outs width) ls)
  count_rows-partners ls =
      rw
        (
          count_rows-length false ls,
          flat_map-same left_key right_key right_rows outs width
              (rows_for left_key right_key right_rows outs width false)
              (partners left_key right_key right_rows outs width)
              (rows_for-partners left_key right_key right_rows outs width) ls,
        )
        refl

  count_rows-alone :
      (ls : List Row)
      → count_rows left_key right_key right_rows outs width true ls
        ≡ length (flat_map (partners_or_alone left_key right_key right_rows outs width) ls)
  count_rows-alone ls =
      rw
        (
          count_rows-length true ls,
          flat_map-same left_key right_key right_rows outs width
              (rows_for left_key right_key right_rows outs width true)
              (partners_or_alone left_key right_key right_rows outs width)
              (rows_for-alone left_key right_key right_rows outs width) ls,
        )
        refl

  -- The rows of the outer joins but those for right rows alone.
  abbrev pub AddsAlone : JoinKind → List Row → Type 0
  AddsAlone kind ls =
      (n : ℕ) × (output_rows left_key right_key right_rows outs width kind ls ≡ some n)
      × (length (emit left_key right_key right_rows outs width kind ls)
          ≡ n + length (alone left_key right_key right_rows outs width ls))

  abbrev pub IsCounted : JoinKind → List Row → Type 0
  IsCounted inner ls =
      output_rows left_key right_key right_rows outs width inner ls
      ≡ some (length (emit left_key right_key right_rows outs width inner ls))
  IsCounted left_outer ls =
      output_rows left_key right_key right_rows outs width left_outer ls
      ≡ some (length (emit left_key right_key right_rows outs width left_outer ls))
  IsCounted right_outer ls = AddsAlone right_outer ls
  IsCounted full_outer ls = AddsAlone full_outer ls
  IsCounted kind ls = output_rows left_key right_key right_rows outs width kind ls ≡ none

  -- For an inner and a left outer join, outputRows is the number of rows that emit gives; for a right and
  -- a full outer join it is short of it by the right rows without a match; for the other kinds it is -1.
  pub output_rows_lem : (kind : JoinKind) (ls : List Row) → IsCounted kind ls
  unfolding output_rows
  output_rows_lem inner ls =
      rw
        (
          emit-nested_loops left_key right_key right_rows outs width inner ls,
          count_rows-partners ls,
        )
        refl
  output_rows_lem left_outer ls =
      rw
        (
          emit-nested_loops left_key right_key right_rows outs width left_outer ls,
          count_rows-alone ls,
        )
        refl
  output_rows_lem right_outer ls = (
    _,
    refl,
    rw
        (
          emit-nested_loops left_key right_key right_rows outs width right_outer ls,
          length-append (flat_map (partners left_key right_key right_rows outs width) ls)
              (alone left_key right_key right_rows outs width ls),
          count_rows-partners ls,
        )
        refl,
  )
  output_rows_lem full_outer ls = (
    _,
    refl,
    rw
        (
          emit-nested_loops left_key right_key right_rows outs width full_outer ls,
          length-append (flat_map (partners_or_alone left_key right_key right_rows outs width) ls)
              (alone left_key right_key right_rows outs width ls),
          count_rows-alone ls,
        )
        refl,
  )
  output_rows_lem inner_unique ls = refl
  output_rows_lem left_anti ls = refl
  output_rows_lem left_semi ls = refl
  output_rows_lem right_anti ls = refl
  output_rows_lem right_semi ls = refl
