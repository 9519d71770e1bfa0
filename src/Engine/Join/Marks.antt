-- ===== src/Engine/Join/Marks.antt =====
-- The right rows that the outer joins of pkg/engine/join.go mark as matched.
use gokql.Base.{
  ℕ, zero, suc, ◌+◌, ◌==◌, ◌<◌, ◌≡◌, refl, sym, ap, ◌∙◌, inl, inr, Bool, true, false, not, ◌||◌,
  Bool-cases, List, [], ◌∷◌, map, if◌then◌else◌, length, get_or, set, keep, any, arith,
  get_or-set_self, get_or-set_ne, length-set,
}
use gokql.Base.Bytes.{Bytes, bytes_eq}
use gokql.Engine.Sort.{Row}
use gokql.Engine.Join.{mark, emit_outer, unmatched, right_only}
use gokql.Engine.Join.Matches.{meets, indices, or_nil-matches}

abbrev member : ℕ → List ℕ → Bool
member j ris = any (λ i. i == j) ris

or_false : (a : Bool) → (a || false) ≡ a
or_false true = refl
or_false false = refl

if_or : (a b : Bool) → (a || b) ≡ (if a then true else b)
if_or true b = refl
if_or false b = refl

or_assoc : (a b c : Bool) → (a || b || c) ≡ a || (b || c)
or_assoc true b c = refl
or_assoc false b c = refl

get_or-set-true :
    (m : List Bool) (i j : ℕ)
    → j < length m
    → get_or (set m i true) j false ≡ (get_or m j false || (i == j))
get_or-set-true m i j h =
    ground (arith, get_or-set_self m j true false, get_or-set_ne m i j true false)

get_or-mark :
    (ris : List ℕ) (m : List Bool) (j : ℕ)
    → j < length m
    → get_or (mark ris m) j false ≡ (get_or m j false || member j ris)
get_or-mark [] m j h = sym (or_false (get_or m j false))
get_or-mark (i ∷ ris) m j h =
    rw
      (
        get_or-mark ris (set m i true) j (omega (arith, h, length-set m i true)),
        get_or-set-true m i j h,
      )
      (or_assoc (get_or m j false) (i == j) (member j ris)
        ∙ ap (λ b. get_or m j false || b) (if_or (i == j) (member j ris)))

length-mark : (ris : List ℕ) (m : List Bool) → length (mark ris m) ≡ length m
length-mark [] m = refl
length-mark (i ∷ ris) m = length-mark ris (set m i true) ∙ length-set m i true

member-below :
    (right_key : Row → Bytes) (k : Bytes) (rs : List Row) (i n : ℕ)
    → n < i
    → member n (indices right_key k i rs) ≡ false
member-below right_key k [] i n h = refl
member-below right_key k (r ∷ rs) i n h =
    ground (arith, member-below right_key k rs (suc i) n (omega (arith, h)))

member-indices :
    (right_key : Row → Bytes) (k : Bytes) (rs : List Row) (i j : ℕ)
    → j < length rs
    → member (i + j) (indices right_key k i rs) ≡ bytes_eq (right_key (get_or rs j [])) k
member-indices right_key k [] i j h = absurd (omega (arith, h))
member-indices right_key k (r ∷ rs) i zero h =
    ground (arith, member-below right_key k rs (suc i) (i + 0) (omega arith))
member-indices right_key k (r ∷ rs) i (suc j) h =
    ground (arith, rw (up i j) at (member-indices right_key k rs (suc i) j (omega (arith, h))))
  where
    up : (a b : ℕ) → suc a + b ≡ a + suc b
    up a b = omega arith

module _ (left_key right_key : Row → Bytes) (right_rows : List Row) (outs : List ℕ)
    (width : ℕ) where
  pub emit_outer-marks :
      (full : Bool) (ls : List Row) (m : List Bool) (j : ℕ)
      → length m ≡ length right_rows
      → j < length right_rows
      → get_or ((emit_outer left_key right_key right_rows outs width full ls m).1) j false
        ≡ (get_or m j false || any (λ l. meets left_key right_key l (get_or right_rows j [])) ls)
  unfolding emit_outer
  emit_outer-marks full [] m j e h = sym (or_false (get_or m j false))
  emit_outer-marks full (l ∷ ls) m j e h =
      let ris = indices right_key (left_key l) 0 right_rows in
      rw
        (
          or_nil-matches left_key right_key right_rows outs width l,
          emit_outer-marks full ls (mark ris m) j (length-mark ris m ∙ e) h,
          get_or-mark ris m j (omega (arith, e, h)),
          at_zero j h l,
        )
        (or_assoc (get_or m j false) (meets left_key right_key l (get_or right_rows j []))
            (any (λ k. meets left_key right_key k (get_or right_rows j [])) ls)
          ∙ ap (λ b. get_or m j false || b)
              (if_or (meets left_key right_key l (get_or right_rows j []))
                (any (λ k. meets left_key right_key k (get_or right_rows j [])) ls)))
    where
      from_zero : (k : ℕ) → 0 + k ≡ k
      from_zero k = omega arith

      at_zero :
          (k : ℕ)
          → k < length right_rows
          → (x : Row)
          → member k (indices right_key (left_key x) 0 right_rows)
            ≡ meets left_key right_key x (get_or right_rows k [])
      at_zero k p x = rw (from_zero k) at (member-indices right_key (left_key x) right_rows 0 k p)

  pub unmatched-keep :
      (marks : List Bool) (P : Row → Bool) (rs : List Row) (i : ℕ)
      → ((j : ℕ) → j < length rs → get_or marks (i + j) false ≡ P (get_or rs j []))
      → unmatched left_key right_key right_rows outs width marks rs i
        ≡ map (right_only left_key right_key right_rows outs width) (keep (λ r. not (P r)) rs)
  unfolding unmatched
  unmatched-keep marks P [] i f = refl
  unmatched-keep marks P (r ∷ rs) i f =
      let rest =
        unmatched-keep marks P rs (suc i) (λ j h. rw (up i j) (f (suc j) (omega (arith, h)))) in
      let here : get_or marks i false ≡ P r = rw (at_start i) at (f 0 (omega arith)) in
      rw (here, rest) (elim (Bool-cases (P r)) [ inl p ↦ rw p refl | inr p ↦ rw p refl ])
    where
      up : (a b : ℕ) → suc a + b ≡ a + suc b
      up a b = omega arith

      at_start : (a : ℕ) → a + 0 ≡ a
      at_start a = omega arith
