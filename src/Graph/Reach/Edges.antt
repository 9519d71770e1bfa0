-- ===== src/Graph/Reach/Edges.antt =====
-- The ends that the search reads at a node are the edges of the graph, by source and target.
use mathlib.Core.Path.{subst}
use mathlib.Core.List.{Memᴰ}
use mathlib.Core.List.Memᴰ
use gokql.Base.{
  ℕ, zero, suc, ◌+◌, ◌-◌, ◌≤◌, ◌<◌, ◌≡◌, ◌⊎◌, inl, inr, refl, sym, Option, none, some, List, [],
  ◌∷◌, ◌++◌, ◌==◌, ==_iff, get_elem?, get_or, length, arith, Bool-cases,
}
use gokql.Graph.Index.{GraphIndex, out_edges, in_edges, build_index, csr}
use gokql.Graph.Index.Offsets.{EndsBelow, edges_at}
use gokql.Graph.Index.Groups.{csr-groups, length-offsets}
use gokql.Graph.Reach.{
  EdgeDirection, forward, backward, any, flip, is_forward, is_backward, ends_of,
}
use gokql.Graph.Reach.Rounds.{InRange, targets}

-- Edge `ei` leads from `u` to `v`.
pub record EdgeFrom (src dst : List (Option ℕ)) (ei u v : ℕ) : Type 0 where
  pub source : get_elem? src ei ≡ some (some u)
  pub target : get_elem? dst ei ≡ some (some v)

-- A step that a pattern of the direction may take from `u` to `v`.
abbrev pub Edge : List (Option ℕ) → List (Option ℕ) → EdgeDirection → ℕ → ℕ → Type 0
Edge src dst forward u v = (ei : ℕ) × EdgeFrom src dst ei u v
Edge src dst backward u v = (ei : ℕ) × EdgeFrom src dst ei v u
Edge src dst any u v = ((ei : ℕ) × EdgeFrom src dst ei u v) ⊎ ((ei : ℕ) × EdgeFrom src dst ei v u)

edges_at-mem :
    (o ei : ℕ) (ends : List (Option ℕ)) (i : ℕ)
    → Memᴰ i (edges_at o ei ends)
    → (ei ≤ i) × (get_elem? ends (i - ei) ≡ some (some o))
unfolding edges_at
edges_at-mem o ei [] i m = absurd (Memᴰ.not-nil m)
edges_at-mem o ei (none ∷ ends) i m =
    let (le, at) = edges_at-mem o (suc ei) ends i m in
    let e : i - ei ≡ suc (i - suc ei) = omega arith in (omega arith, rw e at)
edges_at-mem o ei (some x ∷ ends) i m = elim (Bool-cases (x == o)) [
  | inl same ↦ elim (Memᴰ.cases_cons (rw (same) at m)) [
    | inl first ↦
        let e : i - ei ≡ 0 = omega arith in
        let e' : x ≡ o = (==_iff x o).0 same in (omega arith, rw (e, e') refl)
    | inr later ↦
        let (le, at) = edges_at-mem o (suc ei) ends i later in
        let e : i - ei ≡ suc (i - suc ei) = omega arith in (omega arith, rw e at)
  ]
  | inr other ↦
      let (le, at) = edges_at-mem o (suc ei) ends i (rw (other) at m) in
      let e : i - ei ≡ suc (i - suc ei) = omega arith in (omega arith, rw e at)
]

mem-edges_at :
    (o ei : ℕ) (ends : List (Option ℕ)) (k : ℕ)
    → get_elem? ends k ≡ some (some o)
    → Memᴰ (ei + k) (edges_at o ei ends)
unfolding edges_at
mem-edges_at o ei [] k at = cc
mem-edges_at o ei (none ∷ ends) zero at = cc
mem-edges_at o ei (none ∷ ends) (suc k) at =
    let e : ei + suc k ≡ suc ei + k = omega arith in rw e (mem-edges_at o (suc ei) ends k at)
mem-edges_at o ei (some x ∷ ends) zero at =
    let same : x ≡ o = cc at in
    let e : ei + 0 ≡ ei = omega arith in rw ((==_iff x o).1 same) (Memᴰ.head e)
mem-edges_at o ei (some x ∷ ends) (suc k) at =
    let e : ei + suc k ≡ suc ei + k = omega arith in
    let rest = mem-edges_at o (suc ei) ends k at in
    elim (Bool-cases (x == o)) [
      | inl same ↦ rw (same, e) (Memᴰ.tail rest)
      | inr other ↦ rw (other, e) rest
    ]

edges_at-mem_zero :
    (o : ℕ) (ends : List (Option ℕ)) (i : ℕ)
    → Memᴰ i (edges_at o 0 ends)
    → get_elem? ends i ≡ some (some o)
edges_at-mem_zero o ends i m =
    let e : i - 0 ≡ i = omega arith in rw e at ((edges_at-mem o 0 ends i m).1)

mem-edges_at_zero :
    (o : ℕ) (ends : List (Option ℕ)) (k : ℕ)
    → get_elem? ends k ≡ some (some o)
    → Memᴰ k (edges_at o 0 ends)
mem-edges_at_zero o ends k at =
    let e : 0 + k ≡ k = omega arith in rw e at (mem-edges_at o 0 ends k at)

ends_of-mem :
    (ends : List (Option ℕ)) (edges : List ℕ) (v : ℕ)
    → Memᴰ (some v) (ends_of ends edges)
    → (ei : ℕ) × Memᴰ ei edges × (get_elem? ends ei ≡ some (some v))
unfolding ends_of
ends_of-mem ends [] v m = absurd (Memᴰ.not-nil m)
ends_of-mem ends (i ∷ edges) v m = elim (Memᴰ.cases_cons m) [
  | inl first ↦ (i, Memᴰ.head refl, known ends i first)
  | inr later ↦ let (ei, at, e) = ends_of-mem ends edges v later in (ei, Memᴰ.tail at, e)
]
  where
    known :
        (xs : List (Option ℕ)) (k : ℕ) → some v ≡ get_or xs k none → get_elem? xs k ≡ some (some v)
    known [] k e = cc
    known (x ∷ xs) zero e = cc
    known (x ∷ xs) (suc k) e = known xs k e

get_or-of_get :
    (xs : List (Option ℕ)) (k v : ℕ) → get_elem? xs k ≡ some (some v) → get_or xs k none ≡ some v
get_or-of_get [] k v e = cc
get_or-of_get (x ∷ xs) zero v e = cc e
get_or-of_get (x ∷ xs) (suc k) v e = get_or-of_get xs k v e

mem-ends_of :
    (ends : List (Option ℕ)) (edges : List ℕ) (ei v : ℕ)
    → Memᴰ ei edges
    → get_elem? ends ei ≡ some (some v)
    → Memᴰ (some v) (ends_of ends edges)
unfolding ends_of
mem-ends_of ends [] ei v m e = absurd (Memᴰ.not-nil m)
mem-ends_of ends (i ∷ edges) ei v m e = elim (Memᴰ.cases_cons m) [
  | inl first ↦
      Memᴰ.head
        (sym (get_or-of_get ends i v (subst (λ k. get_elem? ends k ≡ some (some v)) first e)))
  | inr later ↦ Memᴰ.tail (mem-ends_of ends edges ei v later e)
]

InRange-cons :
    (n : ℕ) (x : Option ℕ) (es : List (Option ℕ))
    → ((v : ℕ) → x ≡ some v → v < n)
    → InRange n es
    → InRange n (x ∷ es)
InRange-cons n none es h r = r
InRange-cons n (some v) es h r = (h v refl, r)

lt-of_end :
    (n : ℕ) (ends : List (Option ℕ)) (k v : ℕ)
    → EndsBelow n ends
    → get_or ends k none ≡ some v
    → v < n
lt-of_end n [] k v b e = cc
lt-of_end n (none ∷ ends) zero v b e = cc
lt-of_end n (some x ∷ ends) zero v b e = let same : x ≡ v = cc e in omega (arith, b.0)
lt-of_end n (none ∷ ends) (suc k) v b e = lt-of_end n ends k v b e
lt-of_end n (some x ∷ ends) (suc k) v b e = lt-of_end n ends k v b.1 e

InRange-ends_of :
    (n : ℕ) (ends : List (Option ℕ)) (edges : List ℕ)
    → EndsBelow n ends
    → InRange n (ends_of ends edges)
unfolding ends_of
InRange-ends_of n ends [] b = tt
InRange-ends_of n ends (i ∷ edges) b =
    InRange-cons n _ _ (λ v e. lt-of_end n ends i v b e) (InRange-ends_of n ends edges b)

InRange-append :
    (n : ℕ) (xs ys : List (Option ℕ)) → InRange n xs → InRange n ys → InRange n (xs ++ ys)
InRange-append n [] ys a b = b
InRange-append n (none ∷ xs) ys a b = InRange-append n xs ys a b
InRange-append n (some v ∷ xs) ys a b = (a.0, InRange-append n xs ys a.1 b)

pub InRange-mem : (n v : ℕ) (es : List (Option ℕ)) → InRange n es → Memᴰ (some v) es → v < n
InRange-mem n v [] r m = absurd (Memᴰ.not-nil m)
InRange-mem n v (none ∷ es) r m = elim (Memᴰ.cases_cons m) [
  | inl first ↦ cc
  | inr later ↦ InRange-mem n v es r later
]
InRange-mem n v (some x ∷ es) r m = elim (Memᴰ.cases_cons m) [
  | inl first ↦ let same : v ≡ x = cc in omega (arith, r.0)
  | inr later ↦ InRange-mem n v es r.1 later
]

module _ (n : ℕ) (src dst : List (Option ℕ)) (bs : EndsBelow n src) (bd : EndsBelow n dst) where
  abbrev ix : GraphIndex
  ix = build_index n src dst

  out_edges-build : (o : ℕ) → o < n → out_edges ix o ≡ edges_at o 0 src
  unfolding out_edges build_index
  out_edges-build o h = csr-groups n src o bs h

  in_edges-build : (o : ℕ) → o < n → in_edges ix o ≡ edges_at o 0 dst
  unfolding in_edges build_index csr
  in_edges-build o h =
      let size : length (csr n src).0 - 1 ≡ n = omega (arith, length-offsets n src) in
      rw size (csr-groups n dst o bd h)

  pub InRange-targets : (dir : EdgeDirection) (o : ℕ) → InRange n (targets ix dir o)
  unfolding targets build_index is_forward is_backward
  InRange-targets forward o =
      InRange-append n (ends_of dst (out_edges ix o)) [] (InRange-ends_of n dst _ bd) tt
  InRange-targets backward o = InRange-ends_of n src (in_edges ix o) bs
  InRange-targets any o =
      InRange-append n (ends_of dst (out_edges ix o)) (ends_of src (in_edges ix o))
        (InRange-ends_of n dst _ bd) (InRange-ends_of n src _ bs)

  -- Along the out-edges of `u`.
  out-EdgeFrom :
      (u v : ℕ)
      → u < n
      → Memᴰ (some v) (ends_of dst (out_edges ix u))
      → (ei : ℕ) × EdgeFrom src dst ei u v
  out-EdgeFrom u v h m =
      let (ei, at, e) = ends_of-mem dst (out_edges ix u) v m in
      let s = edges_at-mem_zero u src ei (subst (Memᴰ ei) (out_edges-build u h) at) in
      (ei, record { source = s; target = e })

  in-EdgeFrom :
      (u v : ℕ)
      → u < n
      → Memᴰ (some v) (ends_of src (in_edges ix u))
      → (ei : ℕ) × EdgeFrom src dst ei v u
  in-EdgeFrom u v h m =
      let (ei, at, e) = ends_of-mem src (in_edges ix u) v m in
      let s = edges_at-mem_zero u dst ei (subst (Memᴰ ei) (in_edges-build u h) at) in
      (ei, record { source = e; target = s })

  mem-out :
      (u v ei : ℕ) → u < n → EdgeFrom src dst ei u v → Memᴰ (some v) (ends_of dst (out_edges ix u))
  mem-out u v ei h e =
      mem-ends_of dst (out_edges ix u) ei v
        (rw (out_edges-build u h) (mem-edges_at_zero u src ei e.source)) e.target

  mem-in :
      (u v ei : ℕ) → u < n → EdgeFrom src dst ei v u → Memᴰ (some v) (ends_of src (in_edges ix u))
  mem-in u v ei h e =
      mem-ends_of src (in_edges ix u) ei v
        (rw (in_edges-build u h) (mem-edges_at_zero u dst ei e.target)) e.source

  -- The flipped search goes from `u` to `v` exactly where a step leads from `v` to `u`.
  pub targets-Edge :
      (dir : EdgeDirection) (u v : ℕ)
      → u < n
      → Memᴰ (some v) (targets ix (flip dir) u)
      → Edge src dst dir v u
  unfolding targets flip is_forward is_backward build_index
  targets-Edge forward u v h m = in-EdgeFrom u v h m
  targets-Edge backward u v h m = elim (Memᴰ.append_cases (ends_of dst (out_edges ix u)) m) [
    | inl out ↦ out-EdgeFrom u v h out
    | inr nothing ↦ absurd (Memᴰ.not-nil nothing)
  ]
  targets-Edge any u v h m = elim (Memᴰ.append_cases (ends_of dst (out_edges ix u)) m) [
    | inl out ↦ inr (out-EdgeFrom u v h out)
    | inr back ↦ inl (in-EdgeFrom u v h back)
  ]

  pub Edge-targets :
      (dir : EdgeDirection) (u v : ℕ)
      → u < n
      → Edge src dst dir v u
      → Memᴰ (some v) (targets ix (flip dir) u)
  unfolding targets flip is_forward is_backward build_index
  Edge-targets forward u v h (ei, e) = mem-in u v ei h e
  Edge-targets backward u v h (ei, e) = Memᴰ.append_left [] (mem-out u v ei h e)
  Edge-targets any u v h (inl (ei, e)) =
      Memᴰ.append_right (ends_of dst (out_edges ix u)) (mem-in u v ei h e)
  Edge-targets any u v h (inr (ei, e)) = Memᴰ.append_left _ (mem-out u v ei h e)
