-- ===== src/Graph/Index/Place.antt =====
-- The placing of edges by `csr`: every edge goes to a place of its own.
use native.Mathlib.Decide.{ℕ_discrete}
use gokql.Base.{
  ℕ, zero, suc, ◌+◌, ◌<◌, ◌≡◌, ◌≢◌, refl, ap, ◌∙◌, Option, none, some, List, [], ◌∷◌, get_or, set,
  length, arith, length-set, get_or-set_self, get_or-set_ne, ==_iff,
}
use gokql.Graph.Index.{bump, place}
use gokql.Graph.Index.Offsets.{EndsBelow, edges_at, get-bump, length-bump, occurs}

-- The places still to be filled: the next one of each node, and as many as it has edges left.
module _ (n : ℕ) where
  pub record Room (next flat : List ℕ) (ends : List (Option ℕ)) : Type 0 where
    pub size : length next ≡ n
    pub fits : (o k : ℕ) → o < n → k < occurs o ends → get_or next o 0 + k < length flat
    pub apart :
        (o p j k : ℕ)
        → o < n
        → p < n
        → j < occurs o ends
        → k < occurs p ends
        → get_or next o 0 + j ≡ get_or next p 0 + k
        → o ≡ p

  Room-place :
      (next flat : List ℕ) (x ei : ℕ) (ends : List (Option ℕ))
      → x < n
      → Room next flat (some x ∷ ends)
      → Room (bump next x) (set flat (get_or next x 0) ei) ends
  unfolding occurs
  Room-place next flat x ei ends hx r = record {
    size = length-bump next x ∙ r.size;
    fits = λ o k ho hk. ground (
      arith,
      get-bump next x o (omega (arith, r.size)),
      r.fits o k ho,
      r.fits o (suc k) ho,
      length-set flat (get_or next x 0) ei,
    );
    apart = λ o p j k ho hp hj hk e. ground (
      arith,
      get-bump next x o (omega (arith, r.size)),
      get-bump next x p (omega (arith, r.size)),
      r.apart o p j k ho hp,
      r.apart o p (suc j) k ho hp,
      r.apart o p j (suc k) ho hp,
      r.apart o p (suc j) (suc k) ho hp,
    );
  }

  -- A place outside all that is to be filled keeps its edge.
  pub place-outside :
      (ei : ℕ) (ends : List (Option ℕ)) (next flat : List ℕ) (at : ℕ)
      → EndsBelow n ends
      → Room next flat ends
      → ((o k : ℕ) → o < n → k < occurs o ends → get_or next o 0 + k ≢ at)
      → get_or (place ei ends next flat) at 0 ≡ get_or flat at 0
  unfolding place occurs
  place-outside ei [] next flat at b r h = refl
  place-outside ei (none ∷ ends) next flat at b r h =
      place-outside (suc ei) ends next flat at b
        (record { size = r.size; fits = r.fits; apart = r.apart }) h
  place-outside ei (some x ∷ ends) next flat at b r h =
      place-outside (suc ei) ends (bump next x) (set flat (get_or next x 0) ei) at b.1
        (Room-place next flat x ei ends b.0 r)
        (λ o k ho hk.
          ground (arith, get-bump next x o (omega (arith, r.size)), h o k ho, h o (suc k) ho))
      ∙ get_or-set_ne flat (get_or next x 0) at ei 0 (ground (arith, h x 0 b.0))

  -- The first of the places of `o` holds the first edge, which nothing overwrites.
  pub place-own :
      (ei x o : ℕ) (ends : List (Option ℕ)) (next flat : List ℕ) (k : ℕ)
      → x ≡ o
      → o < n
      → EndsBelow n ends
      → Room next flat (some x ∷ ends)
      → k < suc (occurs o ends)
      → ((j : ℕ)
          → j < occurs o ends
          → get_or
              (place (suc ei) ends (bump next x) (set flat (get_or next x 0) ei))
              (get_or (bump next x) o 0 + j)
              0
            ≡ get_or (edges_at o (suc ei) ends) j 0)
      → get_or
          (place (suc ei) ends (bump next x) (set flat (get_or next x 0) ei))
          (get_or next o 0 + k)
          0
        ≡ get_or (ei ∷ edges_at o (suc ei) ends) k 0
  unfolding occurs
  place-own ei x o ends next flat zero same ho b r hk rest =
      let at = get_or next x 0 in
      let e : get_or next o 0 + 0 ≡ at = omega (arith, ap (λ (i : ℕ). get_or next i 0) same) in
      let hx : x < n = omega arith in
      rw e (
        place-outside (suc ei) ends (bump next x) (set flat at ei) at b
          (Room-place next flat x ei ends hx r)
          (λ p k hp hk'.
            ground
              (arith, get-bump next x p (omega (arith, r.size)), r.apart p x k 0 hp hx, ==_iff x p))
        ∙ get_or-set_self flat at ei 0 (ground (arith, r.fits x 0 hx)))
  place-own ei x o ends next flat (suc k) same ho b r hk rest =
      let e : get_or next o 0 + suc k ≡ get_or (bump next x) o 0 + k =
        ground (arith, get-bump next x o (omega (arith, r.size)), ==_iff x o) in
      rw e (rest k (omega arith))

  pub place-inside :
      (ei : ℕ) (ends : List (Option ℕ)) (next flat : List ℕ) (o k : ℕ)
      → EndsBelow n ends
      → Room next flat ends
      → o < n
      → k < occurs o ends
      → get_or (place ei ends next flat) (get_or next o 0 + k) 0 ≡ get_or (edges_at o ei ends) k 0
  unfolding place occurs edges_at
  place-inside ei [] next flat o k b r ho hk = absurd (omega arith)
  place-inside ei (none ∷ ends) next flat o k b r ho hk =
      place-inside (suc ei) ends next flat o k b
        (record { size = r.size; fits = r.fits; apart = r.apart }) ho hk
  place-inside ei (some x ∷ ends) next flat o k b r ho hk =
      let flat' = set flat (get_or next x 0) ei in
      let rest = λ (j : ℕ) (hj : j < occurs o ends).
        place-inside (suc ei) ends (bump next x) flat' o j b.1
          (Room-place next flat x ei ends b.0 r) ho hj in
      elim (ℕ_discrete x o) [
        | no other ↦ ground (arith, rest k, get-bump next x o (omega (arith, r.size)), ==_iff x o)
        | yes same ↦
            rw ((==_iff x o).1 same)
              (place-own ei x o ends next flat k same ho b.1 r (ground (arith, ==_iff x o)) rest)
      ]
