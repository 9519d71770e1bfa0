-- ===== src/Graph/Index/Offsets.antt =====
-- The offsets of `csr`: where the group of each node begins.
use mathlib.Core.Path.{subst}
use gokql.Base.{
  ℕ, zero, suc, ◌+◌, ◌-◌, ◌≤◌, ◌<◌, ◌≡◌, inl, inr, refl, ◌∙◌, Option, none, some, List, [], ◌∷◌,
  if◌then◌else◌, ◌==◌, get_or, set, replicate, length, arith, length-set, length-replicate,
  get_or-set_self, get_or-set_ne, get_or-replicate, Bool-cases, ==_iff,
}
use gokql.Graph.Index.{bump, count_ends, sum_up, offsets}

-- The edges with the end `o`, numbered from `ei`: what a group should be.
unfoldable pub edges_at : ℕ → ℕ → List (Option ℕ) → List ℕ
edges_at o ei [] = []
edges_at o ei (none ∷ ends) = edges_at o (suc ei) ends
edges_at o ei (some x ∷ ends) =
    let rest = edges_at o (suc ei) ends in if x == o then ei ∷ rest else rest

-- The ends are nodes of the graph.
abbrev pub EndsBelow : ℕ → List (Option ℕ) → Type 0
EndsBelow n [] = Unit
EndsBelow n (none ∷ ends) = EndsBelow n ends
EndsBelow n (some x ∷ ends) = (x < n) × EndsBelow n ends

unfoldable pub occurs : ℕ → List (Option ℕ) → ℕ
occurs o [] = 0
occurs o (none ∷ ends) = occurs o ends
occurs o (some x ∷ ends) = let rest = occurs o ends in if x == o then suc rest else rest

pub length-edges_at :
    (o ei : ℕ) (ends : List (Option ℕ)) → length (edges_at o ei ends) ≡ occurs o ends
unfolding edges_at occurs
length-edges_at o ei [] = refl
length-edges_at o ei (none ∷ ends) = length-edges_at o (suc ei) ends
length-edges_at o ei (some x ∷ ends) = ground (arith, length-edges_at o (suc ei) ends)

-- Where the group of `o` begins.
unfoldable pub start : ℕ → List (Option ℕ) → ℕ
start zero ends = 0
start (suc o) ends = start o ends + occurs o ends

pub get-bump :
    (xs : List ℕ) (i j : ℕ)
    → j < length xs
    → get_or (bump xs i) j 0 ≡ (if i == j then get_or xs j 0 + 1 else get_or xs j 0)
unfolding bump
get-bump xs i j h = elim (Bool-cases (i == j)) [
  | inl same ↦
      let e : i ≡ j = (==_iff i j).0 same in
      rw same (rw e (get_or-set_self xs j (get_or xs j 0 + 1) 0 h))
  | inr other ↦ rw other (get_or-set_ne xs i j (get_or xs i 0 + 1) 0 (λ e. ground arith))
]

pub length-bump : (xs : List ℕ) (i : ℕ) → length (bump xs i) ≡ length xs
unfolding bump
length-bump xs i = length-set xs i _

pub length-count_ends :
    (off : List ℕ) (ends : List (Option ℕ)) → length (count_ends off ends) ≡ length off
unfolding count_ends
length-count_ends off [] = refl
length-count_ends off (none ∷ ends) = length-count_ends off ends
length-count_ends off (some x ∷ ends) =
    length-count_ends (bump off (suc x)) ends ∙ length-bump off (suc x)

pub get-count_ends :
    (off : List ℕ) (ends : List (Option ℕ)) (o : ℕ)
    → suc o < length off
    → get_or (count_ends off ends) (suc o) 0 ≡ get_or off (suc o) 0 + occurs o ends
unfolding count_ends occurs
get-count_ends off [] o h = omega arith
get-count_ends off (none ∷ ends) o h = get-count_ends off ends o h
get-count_ends off (some x ∷ ends) o h =
    let ih = get-count_ends (bump off (suc x)) ends o (omega (arith, length-bump off (suc x))) in
    ground (arith, ih, get-bump off (suc x) (suc o) h)

pub zero-count_ends :
    (off : List ℕ) (ends : List (Option ℕ))
    → 0 < length off
    → get_or (count_ends off ends) 0 0 ≡ get_or off 0 0
unfolding count_ends
zero-count_ends off [] h = refl
zero-count_ends off (none ∷ ends) h = zero-count_ends off ends h
zero-count_ends off (some x ∷ ends) h =
    let ih = zero-count_ends (bump off (suc x)) ends (omega (arith, length-bump off (suc x))) in
    ground (arith, ih, get-bump off (suc x) 0 h)

pub length-sum_up : (rounds i : ℕ) (off : List ℕ) → length (sum_up rounds i off) ≡ length off
unfolding sum_up
length-sum_up zero i off = refl
length-sum_up (suc rounds) i off =
    let v = get_or off (suc i) 0 + get_or off i 0 in
    length-sum_up rounds (suc i) (set off (suc i) v) ∙ length-set off (suc i) v

module _ (ends : List (Option ℕ)) where
  -- Before round `i` the places up to `i` are summed, and the later ones hold counts.
  pub get-sum_up :
      (rounds i : ℕ) (off : List ℕ)
      → i + rounds < length off
      → ((j : ℕ) → j ≤ i → get_or off j 0 ≡ start j ends)
      → ((j : ℕ) → i ≤ j → j < i + rounds → get_or off (suc j) 0 ≡ occurs j ends)
      → (j : ℕ) → j ≤ i + rounds
      → get_or (sum_up rounds i off) j 0 ≡ start j ends
  unfolding sum_up
  get-sum_up zero i off room low high j h = low j (omega arith)
  get-sum_up (suc rounds) i off room low high j h =
      let v = get_or off (suc i) 0 + get_or off i 0 in
      let off' = set off (suc i) v in
      get-sum_up rounds (suc i) off' (omega (arith, length-set off (suc i) v))
        (λ k le. elim (Bool-cases (suc i == k)) [
          | inl same ↦
              let e : suc i ≡ k = (==_iff (suc i) k).0 same in
              subst (λ k. get_or off' k 0 ≡ start k ends) e
                (get_or-set_self off (suc i) v 0 (omega arith)
                  ∙ (unfold start in
                      omega (arith, low i (omega arith), high i (omega arith) (omega arith))))
          | inr other ↦ get_or-set_ne off (suc i) k v 0 (λ e. ground arith) ∙ low k (ground arith)
        ])
        (λ k le lt.
          get_or-set_ne off (suc i) (suc k) v 0 (λ e. absurd (omega arith))
          ∙ high k (omega arith) (omega arith))
        j (omega arith)

  pub get-offsets : (n j : ℕ) → j ≤ n → get_or (offsets n ends) j 0 ≡ start j ends
  unfolding offsets start
  get-offsets n j h =
      let nought : ℕ = 0 in
      let blank : List ℕ = replicate (suc n) nought in
      let size : length blank ≡ suc n = length-replicate (suc n) nought in
      let off = count_ends blank ends in
      let size' = length-count_ends blank ends in
      get-sum_up n 0 off (omega arith)
        (λ k le. let e : k ≡ 0 = omega arith in rw e (zero-count_ends blank ends (omega arith)))
        (λ k le lt.
          get-count_ends blank ends k (omega arith) ∙ omega (arith, get_or-replicate n k nought))
        j (omega arith)

  pub start_mono : (d o : ℕ) → start o ends + occurs o ends ≤ start (suc o + d) ends
  unfolding start
  start_mono zero o = let e : suc o + 0 ≡ suc o = omega arith in rw e (omega arith)
  start_mono (suc d) o =
      let e : suc o + suc d ≡ suc (suc o + d) = omega arith in rw e (omega (arith, start_mono d o))

  pub start_before : (o p : ℕ) → o < p → start o ends + occurs o ends ≤ start p ends
  start_before o p h =
      let e : suc o + (p - suc o) ≡ p = omega arith in
      subst (λ q. start o ends + occurs o ends ≤ start q ends) e (start_mono (p - suc o) o)
