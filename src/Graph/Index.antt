-- ===== src/Graph/Index.antt =====
-- The traversal index of pkg/engine/graph_index.go: edges grouped by their end, in edge order.
pub mod Offsets
pub mod Place
pub mod Groups
use gokql.Base.{
  ℕ, zero, suc, ◌+◌, ◌-◌, Option, none, some, List, [], ◌∷◌, get_or, set, take, drop, replicate,
  length,
}

-- An end is the ordinal of its node, and `none` where the source has -1.
pub record GraphIndex : Type 0 where
  pub src : List (Option ℕ)
  pub dst : List (Option ℕ)
  pub out_off : List ℕ
  pub out : List ℕ

-- xs[i]++
unfoldable pub bump : List ℕ → ℕ → List ℕ
bump xs i = set xs i (get_or xs i 0 + 1)

-- off[o+1]++ for each end
unfoldable pub count_ends : List ℕ → List (Option ℕ) → List ℕ
unfolding bump
count_ends off [] = off
count_ends off (none ∷ ends) = count_ends off ends
count_ends off (some o ∷ ends) = count_ends (bump off (suc o)) ends

-- `rounds` rounds of off[i+1] += off[i], from `i`
unfoldable pub sum_up : ℕ → ℕ → List ℕ → List ℕ
sum_up zero i off = off
sum_up (suc rounds) i off =
    sum_up rounds (suc i) (set off (suc i) (get_or off (suc i) 0 + get_or off i 0))

-- Each edge goes to the next free place of its end.
unfoldable pub place : ℕ → List (Option ℕ) → List ℕ → List ℕ → List ℕ
unfolding bump
place ei [] next flat = flat
place ei (none ∷ ends) next flat = place (suc ei) ends next flat
place ei (some o ∷ ends) next flat =
    place (suc ei) ends (bump next o) (set flat (get_or next o 0) ei)

unfoldable pub offsets : ℕ → List (Option ℕ) → List ℕ
unfolding count_ends sum_up
offsets n ends = sum_up n 0 (count_ends (replicate (suc n) 0) ends)

unfoldable pub csr : ℕ → List (Option ℕ) → List ℕ × List ℕ
unfolding offsets place
csr n ends =
    let off = offsets n ends in (off, place 0 ends (take n off) (replicate (get_or off n 0) 0))

-- flat[off[o]:off[o+1]]
unfoldable pub group : List ℕ → List ℕ → ℕ → List ℕ
group off flat o = take (get_or off (suc o) 0 - get_or off o 0) (drop (get_or off o 0) flat)

unfoldable pub out_edges : GraphIndex → ℕ → List ℕ
unfolding group
out_edges ix o = group ix.out_off ix.out o

-- The groups by target are built on first use; they are the same at every use.
unfoldable pub in_edges : GraphIndex → ℕ → List ℕ
unfolding csr group
in_edges ix o = let (off, flat) = csr (length ix.out_off - 1) ix.dst in group off flat o

-- The index over ends that are resolved already (`buildGraphIndex` looks them up in a map).
unfoldable pub build_index : ℕ → List (Option ℕ) → List (Option ℕ) → GraphIndex
unfolding csr
build_index n src dst = record {
  src = src;
  dst = dst;
  out_off = (csr n src).0;
  out = (csr n src).1;
}
