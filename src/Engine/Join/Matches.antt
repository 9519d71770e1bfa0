-- ===== src/Engine/Join/Matches.antt =====
-- What the index of pkg/engine/join.go holds for a left row: the right rows with its key.
use gokql.Base.{
  ℕ, suc, ◌+◌, ◌≡◌, refl, sym, ap, ◌∙◌, inl, inr, Bool, Bool-cases, Option, none, some, List, [],
  ◌∷◌, ◌++◌, map, if◌then◌else◌, get_or, keep, any, arith,
}
use mathlib.Core.List.{append-nil, append_assoc}
use gokql.Base.Bytes.{Bytes, bytes_eq, bytes_eq_iff}
use gokql.Base.Dict.{Dict, lookup, insert, lookup-insert}
use gokql.Engine.Sort.{Row}
use gokql.Engine.Join.{or_nil, has, index_rows, right_index, matches, build_join_row, joined_all}

-- Both keys are the same.
abbrev pub meets : (Row → Bytes) → (Row → Bytes) → Row → Row → Bool
meets left_key right_key l r = bytes_eq (right_key r) (left_key l)

-- The indices, from i, of the rows with a key.
abbrev pub indices : (Row → Bytes) → Bytes → ℕ → List Row → List ℕ
indices right_key k i [] = []
indices right_key k i (r ∷ rs) =
    let rest = indices right_key k (suc i) rs in if bytes_eq (right_key r) k then i ∷ rest else rest

abbrev pub nonempty {ℓ} : {A : Type ℓ} → List A → Option (List A)
nonempty [] = none
nonempty (x ∷ xs) = some (x ∷ xs)

abbrev grown : Option (List ℕ) → List ℕ → Option (List ℕ)
grown none ys = nonempty ys
grown (some xs) ys = some (xs ++ ys)

grown-snoc :
    (o : Option (List ℕ)) (i : ℕ) (ys : List ℕ)
    → grown (some (or_nil o ++ i ∷ [])) ys ≡ grown o (i ∷ ys)
grown-snoc none i ys = refl
grown-snoc (some xs) i ys = ap some (append_assoc xs (i ∷ []) ys)

grown-nil : (o : Option (List ℕ)) → grown o [] ≡ o
grown-nil none = refl
grown-nil (some xs) = ap some (append-nil xs)

or_nil-nonempty {ℓ} : {A : Type ℓ} (xs : List A) → or_nil (nonempty xs) ≡ xs
or_nil-nonempty [] = refl
or_nil-nonempty (x ∷ xs) = refl

module _ (left_key right_key : Row → Bytes) where
  lookup-index_rows :
      (k : Bytes) (rows : List Row) (i : ℕ) (m : Dict (List ℕ))
      → lookup k (index_rows left_key right_key rows i m)
        ≡ grown (lookup k m) (indices right_key k i rows)
  unfolding index_rows
  lookup-index_rows k [] i m = sym (grown-nil (lookup k m))
  lookup-index_rows k (r ∷ rs) i m =
      rw
        (
          lookup-index_rows k rs (suc i)
              (insert (right_key r) (or_nil (lookup (right_key r) m) ++ i ∷ []) m),
          lookup-insert (right_key r) k (or_nil (lookup (right_key r) m) ++ i ∷ []) m,
        )
        (elim (Bool-cases (bytes_eq (right_key r) k)) [
          | inl p ↦
              rw (p, (bytes_eq_iff (right_key r) k).0 p)
                (grown-snoc (lookup k m) i (indices right_key k (suc i) rs))
          | inr p ↦ rw p refl
        ])

  -- The index is looked up for the rows from i of all rows.
  indices-rows :
      (all rs : List Row) (i : ℕ) (k : Bytes) (f : Row → Row)
      → ((j : ℕ) → get_or all (i + j) [] ≡ get_or rs j [])
      → map (λ ri. f (get_or all ri [])) (indices right_key k i rs)
        ≡ map f (keep (λ r. bytes_eq (right_key r) k) rs)
  indices-rows all [] i k f h = refl
  indices-rows all (r ∷ rs) i k f h =
      let rest = indices-rows all rs (suc i) k f (λ j. rw (up i j) (h (suc j))) in
      elim (Bool-cases (bytes_eq (right_key r) k)) [
        | inl p ↦ rw (p, rw (at_start i) at (h 0), rest) refl
        | inr p ↦ rw p rest
      ]
    where
      up : (a b : ℕ) → suc a + b ≡ a + suc b
      up a b = omega arith

      at_start : (a : ℕ) → a + 0 ≡ a
      at_start a = omega arith

  has-indices :
      (rs : List Row) (i : ℕ) (k : Bytes)
      → has (nonempty (indices right_key k i rs)) ≡ any (λ r. bytes_eq (right_key r) k) rs
  has-indices [] i k = refl
  has-indices (r ∷ rs) i k = elim (Bool-cases (bytes_eq (right_key r) k)) [
    | inl p ↦ rw p refl
    | inr p ↦ rw p (has-indices rs (suc i) k)
  ]

  module _ (right_rows : List Row) (outs : List ℕ) (width : ℕ) where
    matches_lem :
        (l : Row)
        → matches left_key right_key right_rows outs width l
          ≡ nonempty (indices right_key (left_key l) 0 right_rows)
    unfolding matches right_index
    matches_lem l =
        lookup-index_rows (left_key l) right_rows 0 []
        ∙ empty_grown (indices right_key (left_key l) 0 right_rows)
      where
        empty_grown : (ys : List ℕ) → grown none ys ≡ nonempty ys
        empty_grown ys = refl

    pub has-matches :
        (l : Row)
        → has (matches left_key right_key right_rows outs width l)
          ≡ any (meets left_key right_key l) right_rows
    has-matches l = rw (matches_lem l) (has-indices right_rows 0 (left_key l))

    pub or_nil-matches :
        (l : Row)
        → or_nil (matches left_key right_key right_rows outs width l)
          ≡ indices right_key (left_key l) 0 right_rows
    or_nil-matches l =
        rw (matches_lem l) (or_nil-nonempty (indices right_key (left_key l) 0 right_rows))

    pub joined_all-indices :
        (l : Row)
        → joined_all left_key right_key right_rows outs width l
            (indices right_key (left_key l) 0 right_rows)
          ≡ map
              (build_join_row left_key right_key right_rows outs width l)
              (keep (meets left_key right_key l) right_rows)
    joined_all-indices l =
        indices-rows right_rows right_rows 0 (left_key l)
          (build_join_row left_key right_key right_rows outs width l) (λ j. rw (from_zero j) refl)
      where
        from_zero : (j : ℕ) → 0 + j ≡ j
        from_zero j = omega arith
