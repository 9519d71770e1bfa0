-- ===== src/Graph/Index/Groups.antt =====
-- The counting sort of `csr`: each node's group holds exactly its edges, in edge order.
use mathlib.Core.Path.{ap₂}
use native.Mathlib.Decide.{dec_lt}
use gokql.Base.{
  ℕ, zero, suc, ◌+◌, ◌-◌, ◌≤◌, ◌<◌, ◌≡◌, refl, ap, ◌∙◌, Option, none, some, List, [], ◌∷◌, get_or,
  set, take, drop, replicate, length, arith, length-set, length-replicate,
}
use gokql.Graph.Index.{bump, count_ends, place, offsets, csr, group}
use gokql.Graph.Index.Offsets.{
  EndsBelow, edges_at, get-offsets, length-count_ends, length-edges_at, length-sum_up, occurs,
  start, start_before,
}
use gokql.Graph.Index.Place.{Room, place-inside}

-- A segment of a list is known by its elements.
segment :
    (s : ℕ) (flat xs : List ℕ)
    → s + length xs ≤ length flat
    → ((k : ℕ) → k < length xs → get_or flat (s + k) 0 ≡ get_or xs k 0)
    → take (length xs) (drop s flat) ≡ xs
segment zero flat [] fits same = refl
segment zero [] (x ∷ xs) fits same = absurd (omega arith)
segment zero (y ∷ flat) (x ∷ xs) fits same =
    ap₂ (λ (a : ℕ) (as' : List ℕ). a ∷ as') (same 0 (omega arith))
      (segment zero flat xs (omega arith) (λ k h.
        let e : 0 + suc k ≡ suc (0 + k) = omega arith in (rw e at (same (suc k) (omega arith)))))
segment (suc s) [] xs fits same = ground arith
segment (suc s) (y ∷ flat) xs fits same =
    segment s flat xs (omega arith)
      (λ k h. let e : suc s + k ≡ suc (s + k) = omega arith in (rw e at (same k h)))

length-place :
    (ei : ℕ) (ends : List (Option ℕ)) (next flat : List ℕ)
    → length (place ei ends next flat) ≡ length flat
unfolding place
length-place ei [] next flat = refl
length-place ei (none ∷ ends) next flat = length-place (suc ei) ends next flat
length-place ei (some x ∷ ends) next flat =
    length-place (suc ei) ends (bump next x) (set flat (get_or next x 0) ei)
    ∙ length-set flat (get_or next x 0) ei

get-take : (k i : ℕ) (xs : List ℕ) → i < k → get_or (take k xs) i 0 ≡ get_or xs i 0
get-take zero i xs h = absurd (omega arith)
get-take (suc k) i [] h = refl
get-take (suc k) zero (x ∷ xs) h = refl
get-take (suc k) (suc i) (x ∷ xs) h = get-take k i xs (omega arith)

length-take : (k : ℕ) (xs : List ℕ) → k ≤ length xs → length (take k xs) ≡ k
length-take zero xs h = refl
length-take (suc k) [] h = absurd (omega arith)
length-take (suc k) (x ∷ xs) h = ap suc (length-take k xs (omega arith))

pub length-offsets : (n : ℕ) (ends : List (Option ℕ)) → length (offsets n ends) ≡ suc n
unfolding offsets
length-offsets n ends =
    let nought : ℕ = 0 in
    length-sum_up n 0 (count_ends (replicate (suc n) nought) ends)
    ∙ length-count_ends (replicate (suc n) nought) ends
    ∙ length-replicate (suc n) nought

-- Where every end is a node, the group that `csr` stores for a node is the list of the edges with
-- that end, in edge order: none is missing, and none is another node's.
pub csr-groups :
    (n : ℕ) (ends : List (Option ℕ)) (o : ℕ)
    → EndsBelow n ends
    → o < n
    → group (csr n ends).0 (csr n ends).1 o ≡ edges_at o 0 ends
unfolding csr group
csr-groups n ends o b h =
    let nought : ℕ = 0 in
    let off = offsets n ends in
    let next = take n off in
    let blank : List ℕ = replicate (get_or off n 0) nought in
    let sized : length blank ≡ get_or off n 0 = length-replicate (get_or off n 0) nought in
    let begin = λ (p : ℕ) (hp : p < n). get-take n p off hp ∙ get-offsets ends n p (omega arith) in
    let ends_at : get_or off n 0 ≡ start n ends = get-offsets ends n n (omega arith) in
    let room : Room n next blank ends = record {
      size = length-take n off (omega (arith, length-offsets n ends));
      fits = λ p k hp hk. omega (arith, begin p hp, start_before ends p n hp);
      apart = λ p q j k hp hq hj hk e. elim (dec_lt p q) [
        | yes less ↦ absurd (omega (arith, begin p hp, begin q hq, start_before ends p q less))
        | no not_less ↦ elim (dec_lt q p) [
          | yes more ↦ absurd (omega (arith, begin p hp, begin q hq, start_before ends q p more))
          | no not_more ↦ omega arith
        ]
      ];
    } in
    let all = edges_at o 0 ends in
    let count : length all ≡ occurs o ends = length-edges_at o 0 ends in
    let here : get_or off o 0 ≡ start o ends = get-offsets ends n o (omega arith) in
    let there : get_or off (suc o) 0 ≡ start o ends + occurs o ends =
      get-offsets ends n (suc o) (omega arith) ∙ (unfold start in refl) in
    let width : get_or off (suc o) 0 - get_or off o 0 ≡ length all = omega arith in
    rw (width, here)
      (segment (start o ends) (place 0 ends next blank) all
        (omega (arith, length-place 0 ends next blank, start_before ends o n h))
        (λ k hk.
          let at : start o ends ≡ get_or next o 0 = omega (arith, begin o h) in
          rw at (place-inside n 0 ends next blank o k b room h (omega arith))))
