-- ===== src/Engine/Join/Nested.antt =====
-- The hash join of pkg/engine/join.go against the join by nested loops.
use gokql.Base.{
  ℕ, ◌+◌, ◌<◌, ◌≡◌, refl, ap, ◌∙◌, inl, inr, Bool, true, false, not, Bool-cases, Option-cases,
  Option, none, some, List, [], ◌∷◌, ◌++◌, map, if◌then◌else◌, length, get_or, replicate, keep, any,
  All, All-imp, arith, get_or-replicate, length-replicate,
}
use gokql.Base.Bytes.{Bytes, bytes_eq, bytes_eq_iff, bytes_eq_refl}
use gokql.Base.Dict.{Dict, lookup, insert, lookup-insert}
use gokql.Engine.Sort.{Row}
use gokql.Engine.Join.{
  JoinKind, inner, inner_unique, left_outer, right_outer, full_outer, left_anti, left_semi,
  right_anti, right_semi, or_nil, has, matches, build_join_row, left_only, right_only, emit_inner,
  emit_unique, emit_left_outer, emit_outer, matched_keys, unmatched, emit, joined_all,
}
use gokql.Engine.Join.Matches.{meets, has-matches, or_nil-matches, joined_all-indices}
use gokql.Engine.Join.Marks.{emit_outer-marks, unmatched-keep}

-- The rows of all items, in order.
abbrev pub flat_map {ℓ κ} : {A : Type ℓ} {B : Type κ} → (A → List B) → List A → List B
flat_map f [] = []
flat_map f (x ∷ xs) = f x ++ flat_map f xs

-- The first row of each key, without the keys that were seen before.
abbrev pub first_per_key : (Row → Bytes) → (Bytes → Bool) → List Row → List Row
first_per_key key seen [] = []
first_per_key key seen (l ∷ ls) =
    let now : Bytes → Bool = λ k. if bytes_eq (key l) k then true else seen k in
    let rest = first_per_key key now ls in
    if seen (key l) then first_per_key key seen ls else l ∷ rest

module _ (left_key right_key : Row → Bytes) (right_rows : List Row) (outs : List ℕ)
    (width : ℕ) where
  abbrev pub partners : Row → List Row
  partners l =
      map (build_join_row left_key right_key right_rows outs width l)
        (keep (meets left_key right_key l) right_rows)

  abbrev pub partners_or_alone : Row → List Row
  partners_or_alone l =
      if any (meets left_key right_key l) right_rows
      then partners l
      else left_only left_key right_key right_rows outs width l ∷ []

  abbrev pub met : List Row → Row → Bool
  met ls r = any (λ l. meets left_key right_key l r) ls

  abbrev pub alone : List Row → List Row
  alone ls =
      map (right_only left_key right_key right_rows outs width)
        (keep (λ r. not (met ls r)) right_rows)

  -- The join of each kind, without an index: each left row is tried with each right row.
  abbrev pub nested_loops : JoinKind → List Row → List Row
  nested_loops inner ls = flat_map partners ls
  nested_loops inner_unique ls = flat_map partners (first_per_key left_key (λ k. false) ls)
  nested_loops left_outer ls = flat_map partners_or_alone ls
  nested_loops right_outer ls = flat_map partners ls ++ alone ls
  nested_loops full_outer ls = flat_map partners_or_alone ls ++ alone ls
  nested_loops left_anti ls = keep (λ l. not (any (meets left_key right_key l) right_rows)) ls
  nested_loops left_semi ls = keep (λ l. any (meets left_key right_key l) right_rows) ls
  nested_loops right_anti ls = keep (λ r. not (met ls r)) right_rows
  nested_loops right_semi ls = keep (met ls) right_rows

  found-partners :
      (l : Row)
      → joined_all left_key right_key right_rows outs width l
          (or_nil (matches left_key right_key right_rows outs width l))
        ≡ partners l
  found-partners l =
      rw (or_nil-matches left_key right_key right_rows outs width l)
        (joined_all-indices left_key right_key right_rows outs width l)

  -- The rows for a left row, where one without a match is kept or not.
  abbrev pub rows_for : Bool → Row → List Row
  rows_for full l = elim (matches left_key right_key right_rows outs width l) [
    | none ↦ if full then left_only left_key right_key right_rows outs width l ∷ [] else []
    | some ris ↦ joined_all left_key right_key right_rows outs width l ris
  ]

  pub rows_for-partners : (l : Row) → rows_for false l ≡ partners l
  rows_for-partners l = elim (Option-cases (matches left_key right_key right_rows outs width l)) [
    | inl e ↦ rw (rows_for, e) (rw e at (found-partners l))
    | inr (ris, e) ↦ rw (rows_for, e) (rw e at (found-partners l))
  ]

  pub rows_for-alone : (l : Row) → rows_for true l ≡ partners_or_alone l
  rows_for-alone l = elim (Option-cases (matches left_key right_key right_rows outs width l)) [
    | inl e ↦ rw (← has-matches left_key right_key right_rows outs width l, rows_for, e) refl
    | inr (ris, e) ↦
        rw (← has-matches left_key right_key right_rows outs width l, rows_for, e)
          (rw e at (found-partners l))
  ]

  emit_inner-partners :
      (ls : List Row)
      → emit_inner left_key right_key right_rows outs width ls ≡ flat_map partners ls
  unfolding emit_inner
  emit_inner-partners [] = refl
  emit_inner-partners (l ∷ ls) = rw (found-partners l, emit_inner-partners ls) refl

  emit_unique-first :
      (seen : Dict Bool) (f : Bytes → Bool) (ls : List Row)
      → ((k : Bytes) → has (lookup k seen) ≡ f k)
      → emit_unique left_key right_key right_rows outs width seen ls
        ≡ flat_map partners (first_per_key left_key f ls)
  unfolding emit_unique
  emit_unique-first seen f [] h = refl
  emit_unique-first seen f (l ∷ ls) h =
      let now : Bytes → Bool = λ k. if bytes_eq (left_key l) k then true else f k in
      let later = emit_unique-first (insert (left_key l) true seen) now ls (λ k.
        rw (lookup-insert (left_key l) k true seen) (
          has-if (bytes_eq (left_key l) k) (lookup k seen)
          ∙ ap (λ b. if bytes_eq (left_key l) k then true else b) (h k))) in
      rw (emit_unique, h (left_key l))
        (elim (Bool-cases (f (left_key l))) [
          | inl p ↦ rw p (emit_unique-first seen f ls h)
          | inr p ↦ rw (p, found-partners l, later) refl
        ])
    where
      has-if :
          (b : Bool) (o : Option Bool)
          → has (if b then some true else o) ≡ (if b then true else has o)
      has-if true o = refl
      has-if false o = refl

  emit_left_outer-partners :
      (ls : List Row)
      → emit_left_outer left_key right_key right_rows outs width ls ≡ flat_map partners_or_alone ls
  unfolding emit_left_outer
  emit_left_outer-partners [] = refl
  emit_left_outer-partners (l ∷ ls) = rw (rows_for-alone l, emit_left_outer-partners ls) refl

  emit_outer-rows :
      (full : Bool) (ls : List Row) (m : List Bool)
      → (emit_outer left_key right_key right_rows outs width full ls m).0
        ≡ flat_map (rows_for full) ls
  unfolding emit_outer
  emit_outer-rows full [] m = refl
  emit_outer-rows full (l ∷ ls) m = rw (emit_outer-rows full ls _) refl

  pub flat_map-same :
      (f g : Row → List Row)
      → ((l : Row) → f l ≡ g l)
      → (ls : List Row) → flat_map f ls ≡ flat_map g ls
  flat_map-same f g h [] = refl
  flat_map-same f g h (l ∷ ls) = rw (h l, flat_map-same f g h ls) refl

  keep-same : (p q : Row → Bool) → ((r : Row) → p r ≡ q r) → (rs : List Row) → keep p rs ≡ keep q rs
  keep-same p q h [] = refl
  keep-same p q h (r ∷ rs) = rw (h r, keep-same p q h rs) refl

  outer-alone :
      (full : Bool) (ls : List Row)
      → unmatched left_key right_key right_rows outs width
          ((emit_outer left_key right_key right_rows outs width full ls
            (replicate (length right_rows) false)).1)
          right_rows
          0
        ≡ alone ls
  outer-alone full ls =
      unmatched-keep left_key right_key right_rows outs width
        ((emit_outer left_key right_key right_rows outs width full ls
          (replicate (length right_rows) false)).1)
        (met ls) right_rows 0 (λ j h. marked j h)
    where
      from_zero : (k : ℕ) → 0 + k ≡ k
      from_zero k = omega arith

      marked :
          (j : ℕ)
          → j < length right_rows
          → get_or
              ((emit_outer left_key right_key right_rows outs width full ls
                (replicate (length right_rows) false)).1)
              (0 + j)
              false
            ≡ met ls (get_or right_rows j [])
      marked j h =
          rw
            (
              from_zero j,
              emit_outer-marks left_key right_key right_rows outs width full ls
                  (replicate (length right_rows) false) j
                  (length-replicate (length right_rows) false) h,
              get_or-replicate (length right_rows) j false,
            )
            refl

  marked_key :
      (l r : Row) (m : Dict Bool)
      → any (λ q. bytes_eq (right_key q) (right_key r)) right_rows ≡ true
      → has (
          lookup (right_key r) (
            if has (matches left_key right_key right_rows outs width l)
            then insert (left_key l) true m
            else m))
        ≡ (if meets left_key right_key l r then true else has (lookup (right_key r) m))
  marked_key l r m h = elim (Bool-cases (meets left_key right_key l r)) [
    | inl p ↦
        let same : right_key r ≡ left_key l = (bytes_eq_iff (right_key r) (left_key l)).0 p in
        let found : has (matches left_key right_key right_rows outs width l) ≡ true =
          has-matches left_key right_key right_rows outs width l ∙ rw same at h in
        rw
          (
            found,
            p,
            lookup-insert (left_key l) (right_key r) true m,
            same,
            bytes_eq_refl (left_key l),
          )
          refl
    | inr p ↦
        let apart : bytes_eq (left_key l) (right_key r) ≡ false = ground (
          arith,
          bytes_eq_iff (left_key l) (right_key r),
          bytes_eq_iff (right_key r) (left_key l),
          p,
        ) in
        elim (Bool-cases (has (matches left_key right_key right_rows outs width l))) [
          | inl q ↦ rw (q, p, lookup-insert (left_key l) (right_key r) true m, apart) refl
          | inr q ↦ rw (q, p) refl
        ]
  ]

  matched_keys-met :
      (ls : List Row) (m : Dict Bool) (r : Row)
      → any (λ q. bytes_eq (right_key q) (right_key r)) right_rows ≡ true
      → has (lookup (right_key r) (matched_keys left_key right_key right_rows outs width ls m))
        ≡ (if met ls r then true else has (lookup (right_key r) m))
  unfolding matched_keys
  matched_keys-met [] m r h = refl
  matched_keys-met (l ∷ ls) m r h =
      rw
        (
          matched_keys-met ls
              (if has (matches left_key right_key right_rows outs width l)
                then insert (left_key l) true m
                else m)
              r h,
          marked_key l r m h,
        )
        (swap (meets left_key right_key l r) (met ls r) (has (lookup (right_key r) m)))
    where
      swap :
          (a b c : Bool)
          → (if b then true else if a then true else c)
            ≡ (if (if a then true else b) then true else c)
      swap true true c = refl
      swap true false c = refl
      swap false b c = refl

  -- Every right row has its own key.
  present :
      (rs : List Row) → All (λ r. any (λ q. bytes_eq (right_key q) (right_key r)) rs ≡ true) rs
  present [] = tt
  present (r ∷ rs) = (
    rw (bytes_eq_refl (right_key r)) refl,
    All-imp _ _ rs (λ q h. weaken (bytes_eq (right_key r) (right_key q)) h) (present rs),
  )
    where
      weaken : (a : Bool) {b : Bool} → b ≡ true → (if a then true else b) ≡ true
      weaken true h = refl
      weaken false h = h

  keep-same_in :
      (p q : Row → Bool) (rs : List Row) → All (λ r. p r ≡ q r) rs → keep p rs ≡ keep q rs
  keep-same_in p q [] h = refl
  keep-same_in p q (r ∷ rs) h = rw (h.0, keep-same_in p q rs h.1) refl

  right_met :
      (ls : List Row)
      → All
          (λ r.
            has (lookup (right_key r) (matched_keys left_key right_key right_rows outs width ls []))
            ≡ met ls r)
          right_rows
  unfolding lookup
  right_met ls =
      All-imp _ _ right_rows (λ r h. matched_keys-met ls [] r h ∙ plain (met ls r))
        (present right_rows)
    where
      plain : (b : Bool) → (if b then true else false) ≡ b
      plain true = refl
      plain false = refl

  -- For every kind of join, the index finds what trying each left row with each right row finds, in the
  -- same order.
  pub emit-nested_loops :
      (kind : JoinKind) (ls : List Row)
      → emit left_key right_key right_rows outs width kind ls ≡ nested_loops kind ls
  unfolding emit lookup
  emit-nested_loops inner ls = emit_inner-partners ls
  emit-nested_loops inner_unique ls = emit_unique-first [] (λ k. false) ls (λ k. no_seen k)
    where
      no_seen : (k : Bytes) → has {A = Bool} (lookup k []) ≡ false
      no_seen k = refl
  emit-nested_loops left_outer ls = emit_left_outer-partners ls
  emit-nested_loops right_outer ls =
      rw
        (
          emit_outer-rows false ls (replicate (length right_rows) false),
          flat_map-same (rows_for false) partners rows_for-partners ls,
          outer-alone false ls,
        )
        refl
  emit-nested_loops full_outer ls =
      rw
        (
          emit_outer-rows true ls (replicate (length right_rows) false),
          flat_map-same (rows_for true) partners_or_alone rows_for-alone ls,
          outer-alone true ls,
        )
        refl
  emit-nested_loops left_anti ls =
      keep-same _ _ (λ l. ap not (has-matches left_key right_key right_rows outs width l)) ls
  emit-nested_loops left_semi ls =
      keep-same _ _ (has-matches left_key right_key right_rows outs width) ls
  emit-nested_loops right_anti ls =
      keep-same_in _ _ right_rows (All-imp _ _ right_rows (λ r h. ap not h) (right_met ls))
  emit-nested_loops right_semi ls = keep-same_in _ _ right_rows (right_met ls)
