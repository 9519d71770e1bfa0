-- ===== src/Tests/Components.antt =====
-- Weak components of a small graph.
use gokql.Base.{◌≡◌, ◌↔◌, refl, none, some, [], ◌∷◌, get_or, arith}
use gokql.Graph.Components.{mark_weak}
use gokql.Graph.Components.Labels.{Connected}
use gokql.Graph.Components.Numbers.{mark_weak-Connected}

-- Edges 3 -> 1, 4 -> 2, one from a missing node, and 3 -> 4.
marked :
    mark_weak 6 (some 3 ∷ some 4 ∷ none ∷ some 3 ∷ []) (some 1 ∷ some 2 ∷ some 0 ∷ some 4 ∷ [])
    ≡ 0 ∷ 1 ∷ 1 ∷ 1 ∷ 1 ∷ 2 ∷ []
unfolding mark_weak
marked = refl

mark_weak_example :
    (get_or (mark_weak 4 (some 3 ∷ []) (some 1 ∷ [])) 1 0
      ≡ get_or (mark_weak 4 (some 3 ∷ []) (some 1 ∷ [])) 3 0)
    ↔ Connected (some 3 ∷ []) (some 1 ∷ []) 1 3
mark_weak_example =
    mark_weak-Connected 4 (some 3 ∷ []) (some 1 ∷ []) 1 3 0 (omega arith, tt) (omega arith, tt)
      (omega arith) (omega arith)
