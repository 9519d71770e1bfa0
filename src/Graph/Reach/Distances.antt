-- ===== src/Graph/Reach/Distances.antt =====
-- The distances of `reachabilityToTarget`, by the edges of the graph.
use native.Mathlib.Decide.{dec_le}
use gokql.Base.{
  ℕ, zero, suc, ◌≤◌, ◌<◌, ◌≡◌, ◌↔◌, Option, none, some, List, [], ◌∷◌, ap, sym, ◌∙◌, set, replicate,
  arith,
}
use gokql.Graph.Index.{build_index}
use gokql.Graph.Index.Offsets.{EndsBelow}
use gokql.Graph.Reach.{EdgeDirection, flip, distance, search_from, reachability_to_target}
use gokql.Graph.Reach.Correct.{Hops, here, step, start-IsLeast, IsLeast-complete}
use gokql.Graph.Reach.Edges.{Edge, InRange-mem, InRange-targets, targets-Edge, Edge-targets}

-- `Walk k v`: a walk of `k` edges leads from `v` to the target, each taken in the direction.
pub data Walk (src dst : List (Option ℕ)) (dir : EdgeDirection) (target : ℕ) : ℕ → ℕ → Type 0 where
  done : Walk src dst dir target zero target
  along :
      {k u v : ℕ}
      → Edge src dst dir v u
      → Walk src dst dir target k u
      → Walk src dst dir target (suc k) v

-- `k` edges lead from `v` to the target, and fewer do not.
pub record IsDistance (src dst : List (Option ℕ)) (dir : EdgeDirection) (target v k : ℕ)
    : Type 0 where
  pub walk : Walk src dst dir target k v
  pub least : (j : ℕ) → Walk src dst dir target j v → k ≤ j

module _ (n : ℕ) (src dst : List (Option ℕ)) (dir : EdgeDirection) (target : ℕ)
    (bs : EndsBelow n src) (bd : EndsBelow n dst) (ht : target < n) where
  Hops-lt : {k v : ℕ} → Hops (build_index n src dst) (flip dir) target k v → v < n
  Hops-lt here = ht
  Hops-lt (step {u} {v} walk edge) =
      InRange-mem n v _ (InRange-targets n src dst bs bd (flip dir) u) edge

  Hops-Walk :
      {k v : ℕ} → Hops (build_index n src dst) (flip dir) target k v → Walk src dst dir target k v
  Hops-Walk here = done
  Hops-Walk (step {u} {v} walk edge) =
      along (targets-Edge n src dst bs bd dir u v (Hops-lt walk) edge) (Hops-Walk walk)

  Walk-Hops :
      {k v : ℕ} → Walk src dst dir target k v → Hops (build_index n src dst) (flip dir) target k v
  Walk-Hops done = here
  Walk-Hops (along {u} {v} edge walk) =
      let before = Walk-Hops walk in
      step before (Edge-targets n src dst bs bd dir u v (Hops-lt before) edge)

  -- In a graph whose edges end at nodes, `reachabilityToTarget` gives a node the distance `d` exactly
  -- where `d` is at most the bound on hops and is the least number of edges, taken in the pattern's
  -- direction, that lead from the node to the target. So a node without a distance is not within the
  -- bound.
  pub reachability_to_target_lem :
      (max_hops v d : ℕ)
      → (distance (reachability_to_target (build_index n src dst) n target dir max_hops) v ≡ some d)
        ↔ ((d ≤ max_hops) × IsDistance src dst dir target v d)
  unfolding reachability_to_target
  reachability_to_target_lem max_hops v d =
      let ix = build_index n src dst in
      let ok =
        start-IsLeast ix (flip dir) n target (InRange-targets n src dst bs bd (flip dir)) max_hops
          ht in
      let dist =
        search_from ix (flip dir) max_hops 1 (set (replicate n none) target (some 0))
          (target ∷ []) in
      (
        λ e.
            let le = ok.below v d e in
            (
              le,
              record {
                walk = Hops-Walk (ok.hops v d e);
                least = λ j w. elim (dec_le j max_hops) [
                  | no far ↦ omega arith
                  | yes near ↦
                      let (x, ex, small) =
                        IsLeast-complete ix (flip dir) n target max_hops dist ok (Walk-Hops w)
                          near in
                      let same : some d ≡ some x = sym e ∙ ex in
                      let same' : d ≡ x = cc same in omega arith
                ];
              },
            ),
        λ (le, is).
            let (x, ex, small) =
              IsLeast-complete ix (flip dir) n target max_hops dist ok (Walk-Hops is.walk) le in
            let large = is.least x (Hops-Walk (ok.hops v x ex)) in
            let same : x ≡ d = omega arith in ex ∙ ap (λ (k : ℕ). some k) same,
      )
