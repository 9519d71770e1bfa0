-- ===== src/Graph/Reach/Correct.antt =====
-- The search labels a node with the least number of steps, over the ends that it reads at each node.
use mathlib.Core.Path.{subst}
use mathlib.Core.List.{Memᴰ}
use mathlib.Core.List.Memᴰ
use gokql.Base.{
  ℕ, zero, suc, ◌+◌, ◌≤◌, ◌<◌, ◌≡◌, inl, inr, ◌∙◌, Option, none, some, List, [], ◌∷◌, set,
  replicate, length, arith, length-set, length-replicate, get_or-replicate,
}
use native.Mathlib.Decide.{dec_le}
use gokql.Graph.Index.{GraphIndex}
use gokql.Graph.Reach.{EdgeDirection, Distances, distance, Search, expand_all, search_from}
use gokql.Graph.Reach.Rounds.{
  distance-set, InRange, IsQueue, Visits, targets, all_targets, expand_all-Visits, mem-all_targets,
  all_targets-mem,
}

-- `Hops k v`: `v` is `k` steps from the start.
pub data Hops (ix : GraphIndex) (dir : EdgeDirection) (start : ℕ) : ℕ → ℕ → Type 0 where
  here : Hops ix dir start zero start
  step :
      {k u v : ℕ}
      → Hops ix dir start k u
      → Memᴰ (some v) (targets ix dir u)
      → Hops ix dir start (suc k) v

module _ (ix : GraphIndex) (dir : EdgeDirection) (n start : ℕ) where
  -- The nodes labelled below `bound` have all their neighbours labelled, by one more at most.
  abbrev Closed : ℕ → Distances → Type 0
  Closed bound dist =
      (u v d : ℕ)
      → distance dist u ≡ some d
      → d < bound
      → Memᴰ (some v) (targets ix dir u)
      → (e : ℕ) × (distance dist v ≡ some e) × (e ≤ suc d)

  -- Before the round that looks for depth `suc last`.
  record Inv (last : ℕ) (dist : Distances) (frontier : List ℕ) : Type 0 where
    size : length dist ≡ n
    origin : distance dist start ≡ some 0
    below : (v d : ℕ) → distance dist v ≡ some d → d ≤ last
    hops : (v d : ℕ) → distance dist v ≡ some d → Hops ix dir start d v
    front : (v : ℕ) → Memᴰ v frontier → distance dist v ≡ some last
    full : (v : ℕ) → distance dist v ≡ some last → Memᴰ v frontier
    closed : Closed last dist

  pub record IsLeast (bound : ℕ) (dist : Distances) : Type 0 where
    pub origin : distance dist start ≡ some 0
    pub below : (v d : ℕ) → distance dist v ≡ some d → d ≤ bound
    pub hops : (v d : ℕ) → distance dist v ≡ some d → Hops ix dir start d v
    pub closed : Closed bound dist

  module _ (in_range : (o : ℕ) → InRange n (targets ix dir o)) where
    round :
        (last : ℕ) (dist : Distances) (frontier : List ℕ)
        → Inv last dist frontier
        → Inv
            (suc last)
            (expand_all ix dir (suc last) (record { dist = dist; next = [] }) frontier).dist
            (expand_all ix dir (suc last) (record { dist = dist; next = [] }) frontier).next
    round last dist frontier h =
        let s : Search = record { dist = dist; next = [] } in
        let t = expand_all ix dir (suc last) s frontier in
        let did : Visits (suc last) s (all_targets ix dir (suc last) frontier) t =
          expand_all-Visits ix dir (suc last) frontier s (λ o. rw h.size (in_range o)) in
        let empty : IsQueue (suc last) s = record {
          sound = λ v m. absurd (Memᴰ.not-nil m);
          full = λ v e. absurd (omega (arith, h.below v (suc last) e));
        } in
        let old : (v d : ℕ) → distance t.dist v ≡ some d → d ≤ last → distance dist v ≡ some d =
          λ v d e le. elim (did.new v d e) [ inl o ↦ o | inr (at, _) ↦ absurd (omega arith) ] in
        let at_most : (v d : ℕ) → distance t.dist v ≡ some d → d ≤ suc last = λ v d e.
          elim (did.new v d e) [
            | inl o ↦ omega (arith, h.below v d o)
            | inr (at, _) ↦ omega arith
          ] in
        let fresh : (v d : ℕ) → distance t.dist v ≡ some d → Hops ix dir start d v = λ v d e.
          elim (did.new v d e) [
            | inl o ↦ h.hops v d o
            | inr (at, m) ↦
                let (u, mu, edge) = all_targets-mem ix dir (suc last) frontier (some v) m in
                rw at (step (h.hops u last (h.front u mu)) edge)
          ] in
        record {
          size = did.size ∙ h.size;
          origin = did.keeps start 0 h.origin;
          below = at_most;
          hops = fresh;
          front = (did.queue empty).sound;
          full = (did.queue empty).full;
          closed = λ u v d e lt edge.
              let before = old u d e (omega arith) in
              elim (dec_le (suc d) last) [
                | yes less ↦
                    let (x, ex, le) = h.closed u v d before less edge in (x, did.keeps v x ex, le)
                | no not_less ↦
                    let same : d ≡ last = omega arith in
                    let waiting = h.full u (subst (λ k. distance dist u ≡ some k) same before) in
                    let (x, ex) =
                      did.covers v
                        (mem-all_targets ix dir (suc last) frontier (some v) u waiting edge) in
                    (x, ex, omega (arith, at_most v x ex))
              ];
        }

    finish :
        (last bound : ℕ) (dist : Distances) → Inv last dist [] → last ≤ bound → IsLeast bound dist
    finish last bound dist h le = record {
      origin = h.origin;
      below = λ v d e. omega (arith, h.below v d e);
      hops = h.hops;
      closed = λ u v d e lt edge. elim (dec_le (suc d) last) [
        | yes less ↦ h.closed u v d e less edge
        | no not_less ↦
            let same : d ≡ last = omega (arith, h.below u d e) in
            absurd (Memᴰ.not-nil (h.full u (subst (λ k. distance dist u ≡ some k) same e)))
      ];
    }

    search-IsLeast :
        (rounds last : ℕ) (dist : Distances) (frontier : List ℕ)
        → Inv last dist frontier
        → IsLeast (last + rounds) (search_from ix dir rounds (suc last) dist frontier)
    unfolding search_from
    search-IsLeast zero last dist frontier h =
        let same : last + 0 ≡ last = omega arith in
        rw same (record { origin = h.origin; below = h.below; hops = h.hops; closed = h.closed })
    search-IsLeast (suc rounds) last dist [] h =
        finish last (last + suc rounds) dist h (omega arith)
    search-IsLeast (suc rounds) last dist (o ∷ frontier) h =
        let next = round last dist (o ∷ frontier) h in
        let t = expand_all ix dir (suc last) (record { dist = dist; next = [] }) (o ∷ frontier) in
        let same : last + suc rounds ≡ suc last + rounds = omega arith in
        rw same (search-IsLeast rounds (suc last) t.dist t.next next)

    pub start-IsLeast :
        (max_hops : ℕ)
        → start < n
        → IsLeast max_hops
            (search_from ix dir max_hops 1 (set (replicate n none) start (some 0)) (start ∷ []))
    start-IsLeast max_hops h =
        let nothing : Option ℕ = none in
        let blank = replicate n nothing in
        let size : length blank ≡ n = length-replicate n nothing in
        let at = λ (v : ℕ). distance-set blank start v 0 (omega arith) in
        let only : (v d : ℕ)
            → distance (set blank start (some 0)) v ≡ some d
            → (v ≡ start) × (d ≡ 0) =
          λ v d e. ground (arith, at v, get_or-replicate n v nothing) in
        let origin : distance (set blank start (some 0)) start ≡ some 0 =
          ground (arith, at start) in
        let same : 0 + max_hops ≡ max_hops = omega arith in
        rw same at (
          search-IsLeast max_hops 0 (set blank start (some 0)) (start ∷ []) (record {
            size = length-set blank start (some 0) ∙ size;
            origin = origin;
            below = λ v d e. omega (arith, only v d e);
            hops = λ v d e. let (ev, ed) = only v d e in rw (ev, ed) here;
            front = λ v m. let e : v ≡ start = Memᴰ.eq_of_singleton m in rw e origin;
            full = λ v e. Memᴰ.head (only v 0 e).0;
            closed = λ u v d e lt. absurd (omega arith);
          }))

  -- A walk within the bound ends at a node that is labelled, by its length at most.
  pub IsLeast-complete :
      (bound : ℕ) (dist : Distances)
      → IsLeast bound dist
      → {k v : ℕ} → Hops ix dir start k v
      → k ≤ bound
      → (d : ℕ) × (distance dist v ≡ some d) × (d ≤ k)
  IsLeast-complete bound dist h here le = (0, h.origin, omega arith)
  IsLeast-complete bound dist h (step {k} {u} {v} walk edge) le =
      let (d, e, small) = IsLeast-complete bound dist h walk (omega arith) in
      let (x, ex, small') = h.closed u v d e (omega arith) edge in (x, ex, omega arith)
