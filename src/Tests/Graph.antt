-- ===== src/Tests/Graph.antt =====
-- Runs of the graph traversal.
use gokql.Base.{ℕ, ◌≤◌, ◌≡◌, ◌↔◌, refl, Option, none, some, List, [], ◌∷◌, arith}
use gokql.Graph.Index.{build_index, csr, group, out_edges, in_edges}
use gokql.Graph.Index.Offsets.{edges_at}
use gokql.Graph.Index.Groups.{csr-groups}
use gokql.Graph.Reach.{forward, distance, reachability_to_target}
use gokql.Graph.Reach.Distances.{IsDistance, reachability_to_target_lem}

-- 0 → 1 → 2, 2 → 0, 1 → 2 again, and an edge into a node that is missing
abbrev src : List (Option ℕ)
src = some 1 ∷ some 0 ∷ some 2 ∷ some 1 ∷ some 0 ∷ []

abbrev dst : List (Option ℕ)
dst = some 2 ∷ some 1 ∷ some 0 ∷ some 2 ∷ none ∷ []

grouped : group (csr 3 src).0 (csr 3 src).1 1 ≡ 0 ∷ 3 ∷ []
unfolding csr group
grouped = refl

distances :
    reachability_to_target (build_index 3 src dst) 3 2 forward 5 ≡ some 2 ∷ some 1 ∷ some 0 ∷ []
unfolding reachability_to_target build_index out_edges in_edges csr group
distances = refl

csr-groups_example : group (csr 3 src).0 (csr 3 src).1 1 ≡ edges_at 1 0 src
csr-groups_example = csr-groups 3 src 1 (omega arith) (omega arith)

reachability_to_target_example :
    (distance (reachability_to_target (build_index 3 src dst) 3 2 forward 5) 0 ≡ some 2)
    ↔ ((2 ≤ 5) × IsDistance src dst forward 2 0 2)
reachability_to_target_example =
    reachability_to_target_lem 3 src dst forward 2 (omega arith) (omega arith) (omega arith) 5 0 2
