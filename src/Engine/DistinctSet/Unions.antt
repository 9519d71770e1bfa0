-- ===== src/Engine/DistinctSet/Unions.antt =====
-- The union of two sets of distinct values (`distinctSet` of pkg/engine/columnar_agg.go).
use gokql.Base.{
  ℕ, ◌<◌, ◌≡◌, refl, sym, ap, ◌∙◌, inl, inr, Bool, true, false, ◌||◌, Bool-cases, Option, none,
  some, List, [], ◌∷◌, map, length, replicate, length-replicate, All, All-imp, arith,
}
use gokql.Base.Bytes.{Bytes, bytes_eq}
use gokql.Engine.Join.{has_name, or_nil, has}
use gokql.Engine.DistinctSet.{
  Slice, DistinctSet, same_backing, bit_codes, is_other, set_bits, or_bits, put_all, leave_codes,
  merge_plain, merge_texts, add_list, with_bits, union_set,
}
use gokql.Engine.DistinctSet.Bits.{
  bit_codes-zeros, set_all, coded, set_bits-coded, has_name-set_all, All-set_all, length-set_all,
}
use gokql.Engine.DistinctSet.Valid.{
  Mode, unused, texts, sparse, dense, to_set, IsMode, InDict, elements, add_code-Adds,
  to_str-elements,
}
use gokql.Engine.DistinctSet.Texts.{or_false, same_backing-eq}
use gokql.Engine.DistinctSet.Merging.{
  regroup, has_name-put_all, put_all-Distinct, has_name-or_bits, All-or_bits, length-or_bits,
}

module _ (text : ℕ → ℕ → Bytes) where
  -- A set with what two sets have.
  abbrev pub Joins : Mode → Mode → DistinctSet → Type 0
  Joins m n d =
      (m' : Mode) × (d ≡ to_set m')
      × IsMode m'
      × ((s : Bytes)
          → has_name s (elements text m')
            ≡ (has_name s (elements text m) || has_name s (elements text n)))

  abbrev IsPlain : Mode → Type 0
  IsPlain unused = Unit
  IsPlain (texts xs) = Unit
  IsPlain m = ⊥

  leave_codes-elements :
      (m : Mode)
      → IsMode m
      → (p : Mode) × (leave_codes text (to_set m) ≡ to_set p)
        × IsMode p
        × IsPlain p
        × ((s : Bytes) → has_name s (elements text p) ≡ has_name s (elements text m))
  unfolding leave_codes
  leave_codes-elements unused h = (unused, refl, tt, tt, λ s. refl)
  leave_codes-elements (texts xs) h = (texts xs, refl, h, tt, λ s. refl)
  leave_codes-elements (sparse dict cs) h =
      let (xs, e, d, k) = to_str-elements text (sparse dict cs) h in (texts xs, e, d, tt, k)
  leave_codes-elements (dense dict bs) h =
      let (xs, e, d, k) = to_str-elements text (dense dict bs) h in (texts xs, e, d, tt, k)

  merge_plain-Joins :
      (p q : Mode)
      → IsMode p
      → IsPlain p
      → IsMode q
      → IsPlain q
      → Joins p q (merge_plain text (to_set p) (to_set q))
  unfolding merge_plain
  merge_plain-Joins unused unused h a k b = (unused, refl, tt, λ s. refl)
  merge_plain-Joins unused (texts ys) h a k b = (texts ys, refl, k, λ s. refl)
  merge_plain-Joins unused (sparse x y) h a k b = elim b [ ]
  merge_plain-Joins unused (dense x y) h a k b = elim b [ ]
  merge_plain-Joins (texts xs) unused h a k b =
      (texts xs, refl, h, λ s. sym (or_false (has_name s xs)))
  merge_plain-Joins (texts xs) (texts ys) h a k b =
      (texts (put_all ys xs), refl, put_all-Distinct ys xs h, λ s. has_name-put_all s ys xs)
  merge_plain-Joins (texts xs) (sparse x y) h a k b = elim b [ ]
  merge_plain-Joins (texts xs) (dense x y) h a k b = elim b [ ]
  merge_plain-Joins (sparse x y) q h a k b = elim a [ ]
  merge_plain-Joins (dense x y) q h a k b = elim a [ ]

  merge_texts-Joins :
      (m n : Mode) → IsMode m → IsMode n → Joins m n (merge_texts text (to_set m) (to_set n))
  unfolding merge_texts
  merge_texts-Joins m n h k =
      let (p, e, i, a, f) = leave_codes-elements m h in
      let (q, e2, i2, a2, f2) = leave_codes-elements n k in
      let (r, g, j, w) = merge_plain-Joins p q i a i2 a2 in
      (
        r,
        ap (λ d. merge_plain text d (leave_codes text (to_set n))) e
            ∙ ap (λ d. merge_plain text (to_set p) d) e2
            ∙ g,
        j,
        λ s.
            w s
            ∙ ap (λ x. x || has_name s (elements text q)) (f s)
            ∙ ap (λ x. has_name s (elements text m) || x) (f2 s),
      )

  add_list-Joins :
      (m : Mode) (dict : Slice) (cs : List ℕ)
      → IsMode m
      → InDict dict cs
      → (m' : Mode) × (add_list text (to_set m) dict cs ≡ to_set m')
        × IsMode m'
        × ((s : Bytes)
            → has_name s (elements text m')
              ≡ (has_name s (elements text m) || has_name s (map (λ c. text dict.address c) cs)))
  add_list-Joins m dict [] h a = (m, refl, h, λ s. sym (or_false (has_name s (elements text m))))
  add_list-Joins m dict (c ∷ cs) h a =
      let (m1, e, i, k) = add_code-Adds text m dict c h a.0 in
      let (m2, e2, i2, k2) = add_list-Joins m1 dict cs i a.1 in
      (
        m2,
        ap (λ d. add_list text d dict cs) e ∙ e2,
        i2,
        λ s.
            k2 s
            ∙ ap (λ x. x || has_name s (map (λ c. text dict.address c) cs)) (k s)
            ∙ regroup (has_name s (elements text m)) (bytes_eq (text dict.address c) s)
                (has_name s (map (λ c. text dict.address c) cs)),
      )

  -- The two ends of the coded cases.
  abbrev settled : DistinctSet → DistinctSet → DistinctSet
  settled d src = elim (has d.str) [ false ↦ d | true ↦ merge_texts text d src ]

  abbrev joined_bits : DistinctSet → List Bool → DistinctSet → DistinctSet
  joined_bits d sb src =
      let bs = or_bits (or_nil d.bits) sb in
      elim (has d.str) [
        | false ↦ record d { bits = some bs; nbits = length (bit_codes 0 bs) }
        | true ↦ merge_texts text d src
      ]

  abbrev without_codes : DistinctSet → DistinctSet
  without_codes d = record d { codes = none }

  -- The codes of one dictionary added to a set.
  sparse_case :
      (m m1 : Mode) (dict : Slice) (cs : List ℕ)
      → has ((to_set m).str) || is_other text ((to_set m).dict) dict ≡ false
      → add_list text (to_set m) dict cs ≡ to_set m1
      → IsMode m1
      → IsMode (sparse dict cs)
      → ((s : Bytes)
          → has_name s (elements text m1)
            ≡ (has_name s (elements text m) || has_name s (map (λ c. text dict.address c) cs)))
      → Joins m (sparse dict cs) (union_set text (to_set m) (to_set (sparse dict cs)))
  unfolding union_set
  sparse_case m unused dict cs p e i n k = (unused, rw (union_set, p, e) e, i, k)
  sparse_case m (sparse x y) dict cs p e i n k = (sparse x y, rw (union_set, p, e) e, i, k)
  sparse_case m (dense x y) dict cs p e i n k = (dense x y, rw (union_set, p, e) e, i, k)
  sparse_case m (texts xs) dict cs p e i n k =
      let (r, g, j, w) = merge_texts-Joins (texts xs) (sparse dict cs) i n in
      (
        r,
        rw (union_set, p) (ap (λ d. settled d (to_set (sparse dict cs))) e ∙ g),
        j,
        λ s.
            w s
            ∙ ap (λ x. x || has_name s (map (λ c. text dict.address c) cs)) (k s)
            ∙ twice (has_name s (elements text m)) (has_name s (map (λ c. text dict.address c) cs)),
      )
    where
      twice : (x y : Bool) → ((x || y) || y) ≡ (x || y)
      twice true y = refl
      twice false true = refl
      twice false false = refl

  -- The bits of one dictionary joined with those of a set.
  dense_case :
      (m : Mode) (dict : Slice) (bs sb : List Bool)
      → has ((to_set m).str) || is_other text ((to_set m).dict) dict ≡ false
      → with_bits text (to_set m) dict (length sb) ≡ to_set (dense dict bs)
      → IsMode (dense dict bs)
      → IsMode (dense dict sb)
      → ((s : Bytes) → has_name s (elements text (dense dict bs)) ≡ has_name s (elements text m))
      → Joins m (dense dict sb) (union_set text (to_set m) (to_set (dense dict sb)))
  unfolding union_set
  dense_case m dict bs sb p e (w, a, z) (w2, a2, z2) k = (
    dense dict (or_bits bs sb),
    rw (union_set, p) (ap (λ d. joined_bits d sb (to_set (dense dict sb))) e),
    (length-or_bits bs sb ∙ w, All-or_bits dict.size 0 bs sb a a2, z),
    λ s.
        has_name-or_bits (λ c. text dict.address c) s 0 bs sb (w ∙ sym w2)
        ∙ ap (λ x. x || has_name s (map (λ c. text dict.address c) (bit_codes 0 sb))) (k s),
  )

  zeros_start :
      (dict : Slice) (codes : Option (List ℕ)) (n : ℕ)
      → coded dict codes (replicate n false) ≡ record {
        str = none;
        num = none;
        dict = some dict;
        codes = codes;
        bits = some (replicate n false);
        nbits = 0;
      }
  zeros_start dict codes n =
      ap
        (λ k. record {
          str = none;
          num = none;
          dict = some dict;
          codes = codes;
          bits = some (replicate n false);
          nbits = length k;
        })
        (bit_codes-zeros n 0)

  with_zeros :
      (dict : Slice) (cs : List ℕ) (sb : List Bool)
      → InDict dict cs
      → IsMode (dense dict sb)
      → IsMode (dense dict (set_all (replicate (length sb) false) cs))
        × ((s : Bytes)
            → has_name s (
                map
                  (λ c. text dict.address c)
                  (bit_codes 0 (set_all (replicate (length sb) false) cs)))
              ≡ has_name s (map (λ c. text dict.address c) cs))
        × All (λ c. c < length (replicate (length sb) false)) cs
  with_zeros dict cs sb a (w, b, z) =
      let zeros = replicate (length sb) false in
      let size : length zeros ≡ length sb = length-replicate (length sb) false in
      let inside =
        All-imp (λ c. c < dict.size) (λ c. c < length zeros) cs (λ c h. omega (arith, h, size, w))
          a in
      let none_set = bit_codes-zeros (length sb) 0 in
      (
        (length-set_all cs zeros ∙ size ∙ w, All-set_all dict.size cs zeros a (rw none_set tt), z),
        λ s.
            has_name-set_all (λ c. text dict.address c) s cs zeros inside
            ∙ ap
                (λ k.
                  has_name s (map (λ c. text dict.address c) k)
                  || has_name s (map (λ c. text dict.address c) cs))
                none_set,
        inside,
      )

  -- The union of two valid sets is valid and has the elements of both.
  pub union_set-Joins :
      (m n : Mode) → IsMode m → IsMode n → Joins m n (union_set text (to_set m) (to_set n))
  unfolding union_set with_bits
  union_set-Joins m unused h k = merge_texts-Joins m unused h k
  union_set-Joins m (texts ys) h k = merge_texts-Joins m (texts ys) h k
  union_set-Joins m (sparse dict cs) h k =
      elim (Bool-cases (has ((to_set m).str) || is_other text ((to_set m).dict) dict)) [
        | inl p ↦ rw (union_set, p) (merge_texts-Joins m (sparse dict cs) h k)
        | inr p ↦
            let (m1, e, i, w) = add_list-Joins m dict cs h k.1 in sparse_case m m1 dict cs p e i k w
      ]
  union_set-Joins unused (dense dict sb) h k =
      let (i, w, inside) = with_zeros dict [] sb tt k in
      dense_case unused dict (replicate (length sb) false) sb refl
        (sym (zeros_start dict none (length sb))) i k w
  union_set-Joins (texts xs) (dense dict sb) h k = merge_texts-Joins (texts xs) (dense dict sb) h k
  union_set-Joins (sparse old cs) (dense dict sb) (o, a, z) k =
      elim (Bool-cases (same_backing old dict)) [
        | inr p ↦ rw (union_set, p) (merge_texts-Joins (sparse old cs) (dense dict sb) (o, a, z) k)
        | inl p ↦
            let same : old ≡ dict = same_backing-eq old dict 0 k.2 p in
            let inside_dict : InDict dict cs = rw same at a in
            let (i, w, inside) = with_zeros dict cs sb inside_dict k in
            let zeros = replicate (length sb) false in
            let bits_set =
              ap (λ d. set_bits d cs) (sym (zeros_start dict (some cs) (length sb)))
              ∙ set_bits-coded dict (some cs) cs zeros inside in
            dense_case (sparse old cs) dict (set_all zeros cs) sb (rw p refl)
              (ap without_codes bits_set) i k (λ s. rw same (w s))
      ]
  union_set-Joins (dense old bs) (dense dict sb) h k = elim (Bool-cases (same_backing old dict)) [
    | inr p ↦ rw (union_set, p) (merge_texts-Joins (dense old bs) (dense dict sb) h k)
    | inl p ↦
        let same : old ≡ dict = same_backing-eq old dict 0 k.2 p in
        let here : IsMode (dense dict bs) = rw same at h in
        dense_case (dense old bs) dict bs sb (rw p refl) (ap (λ x. to_set (dense x bs)) same) here k
          (λ s. rw same refl)
  ]
