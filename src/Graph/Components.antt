-- ===== src/Graph/Components.antt =====
-- pkg/engine/graph_components.go: weak components by union-find, with path halving.
pub mod Roots
pub mod Find
pub mod Unite
pub mod Labels
pub mod Numbers
use gokql.Base.{
  ℕ, zero, suc, true, false, Option, none, some, List, [], ◌∷◌, ◌++◌, if◌then◌else◌, ltb, ◌==◌,
  length, get_or, set,
}

-- 0, 1, …, as `parent` starts: n numbers from i.
unfoldable pub count_up : ℕ → ℕ → List ℕ
count_up zero i = []
count_up (suc n) i = i ∷ count_up n (suc i)

-- The root of `x`, and the parents with every other one on the way set to its grandparent.
unfoldable pub find : ℕ → List ℕ → ℕ → ℕ × List ℕ
find zero parent x = (x, parent)
find (suc fuel) parent x =
    let up = get_or parent x x in
    elim (up == x) [
      | true ↦ (x, parent)
      | false ↦ let over = get_or parent up up in find fuel (set parent x over) over
    ]

-- The larger of two roots gets the smaller as its parent.
unfoldable pub link : ℕ → ℕ → List ℕ → List ℕ
link a b parent = if a == b then parent else if ltb a b then set parent b a else set parent a b

unfoldable pub unite : ℕ → ℕ → List ℕ → List ℕ
unfolding find link
unite src dst parent =
    let (a, after_a) = find (suc src) parent src in
    let (b, after_b) = find (suc dst) after_a dst in link a b after_b

-- The loop over the edges; an edge with an end that is no node is passed over.
unfoldable pub unite_edges : List (Option ℕ) → List (Option ℕ) → List ℕ → List ℕ
unfolding unite
unite_edges (some a ∷ src) (some b ∷ dst) parent = unite_edges src dst (unite a b parent)
unite_edges (some a ∷ src) (none ∷ dst) parent = unite_edges src dst parent
unite_edges (none ∷ src) (b ∷ dst) parent = unite_edges src dst parent
unite_edges [] dst parent = parent
unite_edges (a ∷ src) [] parent = parent

-- comp[i] = find(i) for n nodes from i.
unfoldable pub find_each : ℕ → ℕ → List ℕ → List ℕ
unfolding find
find_each zero i parent = []
find_each (suc n) i parent =
    let (root, after) = find (suc i) parent i in root ∷ find_each n (suc i) after

unfoldable pub weak_labels : ℕ → List (Option ℕ) → List (Option ℕ) → List ℕ
unfolding count_up unite_edges find_each
weak_labels n src dst = find_each n 0 (unite_edges src dst (count_up n 0))

-- The number that a label has in the map so far.
unfoldable pub number_of : ℕ → List (ℕ × ℕ) → Option ℕ
number_of c [] = none
number_of c ((d, id) ∷ ids) = let rest = number_of c ids in if d == c then some id else rest

-- Labels are numbered in the order in which they occur first.
unfoldable pub renumber : List (ℕ × ℕ) → List ℕ → List ℕ
unfolding number_of
renumber ids [] = []
renumber ids (c ∷ comp) = elim (number_of c ids) [
  | some id ↦ id ∷ renumber ids comp
  | none ↦ length ids ∷ renumber ((c, length ids) ∷ ids) comp
]

unfoldable pub mark_weak : ℕ → List (Option ℕ) → List (Option ℕ) → List ℕ
unfolding weak_labels renumber
mark_weak n src dst = renumber [] (weak_labels n src dst)
