-- ===== src/Graph/Reach.antt =====
-- pkg/engine/graph_reach.go: distances back to a target, by breadth-first search.
pub mod Rounds
pub mod Correct
pub mod Edges
pub mod Distances
use gokql.Base.{
  ℕ, zero, suc, ◌+◌, Bool, true, false, not, Option, none, some, List, [], ◌∷◌, ◌++◌, if◌then◌else◌,
  get_or, set, replicate, map,
}
use gokql.Graph.Index.{GraphIndex, out_edges, in_edges}

pub data EdgeDirection : Type 0 where
  forward backward any : EdgeDirection

unfoldable pub flip : EdgeDirection → EdgeDirection
flip forward = backward
flip backward = forward
flip any = any

unfoldable pub is_forward : EdgeDirection → Bool
is_forward forward = true
is_forward _ = false

unfoldable pub is_backward : EdgeDirection → Bool
is_backward backward = true
is_backward _ = false

-- `none` where the source has -1
abbrev pub Distances : Type 0
Distances = List (Option ℕ)

abbrev pub distance : Distances → ℕ → Option ℕ
distance dist v = get_or dist v none

-- The distances and the next frontier.
pub record Search : Type 0 where
  pub dist : Distances
  pub next : List ℕ

unfoldable pub visit : ℕ → Search → Option ℕ → Search
visit depth s none = s
visit depth s (some nx) = elim (distance s.dist nx) [
  | some _ ↦ s
  | none ↦ record { dist = set s.dist nx (some depth); next = s.next ++ nx ∷ [] }
]

unfoldable pub visit_all : ℕ → Search → List (Option ℕ) → Search
visit_all depth s [] = s
visit_all depth s (nx ∷ rest) = visit_all depth (visit depth s nx) rest

-- The ends of some edges.
unfoldable pub ends_of : List (Option ℕ) → List ℕ → List (Option ℕ)
ends_of ends edges = map (λ ei. get_or ends ei none) edges

-- The round's work at one node: along its out-edges, then back along its in-edges.
unfoldable pub expand : GraphIndex → EdgeDirection → ℕ → Search → ℕ → Search
unfolding visit visit_all ends_of is_forward is_backward
expand ix dir depth s o =
    let s' = (if is_backward dir then s else visit_all depth s (ends_of ix.dst (out_edges ix o))) in
    if is_forward dir then s' else visit_all depth s' (ends_of ix.src (in_edges ix o))

unfoldable pub expand_all : GraphIndex → EdgeDirection → ℕ → Search → List ℕ → Search
unfolding expand
expand_all ix dir depth s [] = s
expand_all ix dir depth s (o ∷ frontier) =
    expand_all ix dir depth (expand ix dir depth s o) frontier

-- `rounds` counts the depths from `depth` up to `maxHops`.
unfoldable pub search_from : GraphIndex → EdgeDirection → ℕ → ℕ → Distances → List ℕ → Distances
unfolding expand_all
search_from ix dir zero depth dist frontier = dist
search_from ix dir (suc rounds) depth dist [] = dist
search_from ix dir (suc rounds) depth dist (o ∷ frontier) =
    let s = expand_all ix dir depth (record { dist = dist; next = [] }) (o ∷ frontier) in
    search_from ix dir rounds (suc depth) s.dist s.next

unfoldable pub reachability_to_target : GraphIndex → ℕ → ℕ → EdgeDirection → ℕ → Distances
unfolding search_from flip
reachability_to_target ix n target direction max_hops =
    search_from ix (flip direction) max_hops 1 (set (replicate n none) target (some 0))
      (target ∷ [])
