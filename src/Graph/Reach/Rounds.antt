-- ===== src/Graph/Reach/Rounds.antt =====
-- One round of the search: which nodes it labels, and which it queues.
use mathlib.Core.Path.{subst}
use mathlib.Core.Logic.{⊎_elim}
use mathlib.Core.List.{Memᴰ}
use mathlib.Core.List.Memᴰ
use gokql.Base.{
  ℕ, zero, suc, ◌<◌, ◌≡◌, ◌↔◌, ◌⊎◌, inl, inr, refl, ap, ◌∙◌, Bool, true, false, Option, none, some,
  List, [], ◌∷◌, ◌++◌, if◌then◌else◌, ◌==◌, set, length, arith, Option-cases, Bool-cases,
  length-set,
}
use gokql.Graph.Index.{GraphIndex, out_edges, in_edges}
use gokql.Graph.Reach.{
  EdgeDirection, is_forward, is_backward, Distances, distance, Search, visit, visit_all, ends_of,
  expand, expand_all,
}

pub distance-set :
    (dist : Distances) (i v depth : ℕ)
    → i < length dist
    → distance (set dist i (some depth)) v ≡ (if i == v then some depth else distance dist v)
distance-set [] i v depth h = absurd (omega arith)
distance-set (x ∷ dist) zero zero depth h = refl
distance-set (x ∷ dist) zero (suc v) depth h = ground arith
distance-set (x ∷ dist) (suc i) zero depth h = ground arith
distance-set (x ∷ dist) (suc i) (suc v) depth h =
    distance-set dist i v depth (omega arith) ∙ ground arith

-- The nodes of a list of ends are nodes of the graph.
abbrev pub InRange : ℕ → List (Option ℕ) → Type 0
InRange n [] = Unit
InRange n (none ∷ es) = InRange n es
InRange n (some v ∷ es) = (v < n) × InRange n es

Mem-concat : (v x : ℕ) (xs : List ℕ) → Memᴰ v (xs ++ x ∷ []) ↔ (Memᴰ v xs ⊎ (v ≡ x))
Mem-concat v x xs = (
  λ m. ⊎_elim inl (λ last. inr (Memᴰ.eq_of_singleton last)) (Memᴰ.append_cases xs m),
  ⊎_elim (Memᴰ.append_left _) (λ e. Memᴰ.append_right xs (Memᴰ.head e)),
)

module _ (depth : ℕ) where
  -- The queue holds exactly the nodes at this depth.
  pub record IsQueue (s : Search) : Type 0 where
    pub sound : (v : ℕ) → Memᴰ v s.next → distance s.dist v ≡ some depth
    pub full : (v : ℕ) → distance s.dist v ≡ some depth → Memᴰ v s.next

  -- What visiting some ends does.
  pub record Visits (s : Search) (es : List (Option ℕ)) (t : Search) : Type 0 where
    pub size : length t.dist ≡ length s.dist
    pub keeps : (v d : ℕ) → distance s.dist v ≡ some d → distance t.dist v ≡ some d
    pub covers : (v : ℕ) → Memᴰ (some v) es → (d : ℕ) × (distance t.dist v ≡ some d)
    pub new :
        (v d : ℕ)
        → distance t.dist v ≡ some d
        → (distance s.dist v ≡ some d) ⊎ ((d ≡ depth) × Memᴰ (some v) es)
    pub queue : IsQueue s → IsQueue t

  known-Visits : (s : Search) (nx d0 : ℕ) → distance s.dist nx ≡ some d0 → Visits s (some nx ∷ []) s
  known-Visits s nx d0 known = record {
    size = refl;
    keeps = λ v d e. e;
    covers = λ v m. (d0, let e : v ≡ nx = cc (Memᴰ.eq_of_singleton m) in rw e known);
    new = λ v d e. inl e;
    queue = λ q. q;
  }

  label : Search → ℕ → Search
  label s nx = record { dist = set s.dist nx (some depth); next = s.next ++ nx ∷ [] }

  label-Visits :
      (s : Search) (nx : ℕ)
      → nx < length s.dist
      → distance s.dist nx ≡ none
      → Visits s (some nx ∷ []) (label s nx)
  unfolding label
  label-Visits s nx h free =
      let at = λ (v : ℕ). distance-set s.dist nx v depth h in
      record {
        size = length-set s.dist nx (some depth);
        keeps = λ v d e. ground (arith, at v);
        covers =
            λ v m. (depth, let e : v ≡ nx = cc (Memᴰ.eq_of_singleton m) in ground (arith, at v));
        new = λ v d e. elim (Bool-cases (nx == v)) [
          | inl same ↦
              let e' : v ≡ nx = ground arith in inr (ground (arith, at v), Memᴰ.head (ap some e'))
          | inr other ↦ inl (ground (arith, at v))
        ];
        queue = λ q. record {
          sound = λ v m. ground (arith, at v, Mem-concat v nx s.next, q.sound v);
          full = λ v e. ground (arith, at v, Mem-concat v nx s.next, q.full v);
        };
      }

  visit-Visits :
      (s : Search) (nx : ℕ) → nx < length s.dist → Visits s (some nx ∷ []) (visit depth s (some nx))
  unfolding visit label
  visit-Visits s nx h = elim (Option-cases (distance s.dist nx)) [
    | inl free ↦ rw (free, visit) (label-Visits s nx h free)
    | inr (d0, known) ↦ rw (known, visit) (known-Visits s nx d0 known)
  ]

  none-Visits : (s : Search) → Visits s (none ∷ []) s
  none-Visits s = record {
    size = refl;
    keeps = λ v d e. e;
    covers = λ v m. cc (Memᴰ.eq_of_singleton m);
    new = λ v d e. inl e;
    queue = λ q. q;
  }

  nil-Visits : (s : Search) → Visits s [] s
  nil-Visits s = record {
    size = refl;
    keeps = λ v d e. e;
    covers = λ v m. absurd (Memᴰ.not-nil m);
    new = λ v d e. inl e;
    queue = λ q. q;
  }

  Visits-trans :
      (s t u : Search) (xs ys : List (Option ℕ))
      → Visits s xs t
      → Visits t ys u
      → Visits s (xs ++ ys) u
  Visits-trans s t u xs ys p q = record {
    size = q.size ∙ p.size;
    keeps = λ v d e. q.keeps v d (p.keeps v d e);
    covers = λ v m. elim (Memᴰ.append_cases xs m) [
      | inl before ↦ let (d, e) = p.covers v before in (d, q.keeps v d e)
      | inr after ↦ q.covers v after
    ];
    new = λ v d e. elim (q.new v d e) [
      | inl old ↦ elim (p.new v d old) [
        | inl older ↦ inl older
        | inr (at, m) ↦ inr (at, Memᴰ.append_left ys m)
      ]
      | inr (at, m) ↦ inr (at, Memᴰ.append_right xs m)
    ];
    queue = λ k. q.queue (p.queue k);
  }

  visit_all-Visits :
      (es : List (Option ℕ)) (s : Search)
      → InRange (length s.dist) es
      → Visits s es (visit_all depth s es)
  unfolding visit_all visit
  visit_all-Visits [] s h = nil-Visits s
  visit_all-Visits (none ∷ es) s h =
      Visits-trans s s _ (none ∷ []) es (none-Visits s) (visit_all-Visits es s h)
  visit_all-Visits (some nx ∷ es) s h =
      let first = visit-Visits s nx h.0 in
      Visits-trans s (visit depth s (some nx)) _ (some nx ∷ []) es first
        (visit_all-Visits es (visit depth s (some nx)) (rw first.size h.1))

-- The ends that the round reads at a node, in its order.
unfoldable pub targets : GraphIndex → EdgeDirection → ℕ → List (Option ℕ)
targets ix dir o =
    (if is_backward dir then [] else ends_of ix.dst (out_edges ix o))
    ++ (if is_forward dir then [] else ends_of ix.src (in_edges ix o))

module _ (ix : GraphIndex) (dir : EdgeDirection) (depth : ℕ) where
  InRange-append :
      (n : ℕ) (xs ys : List (Option ℕ)) → InRange n (xs ++ ys) → InRange n xs × InRange n ys
  InRange-append n [] ys h = (tt, h)
  InRange-append n (none ∷ xs) ys h = InRange-append n xs ys h
  InRange-append n (some v ∷ xs) ys h = let (a, b) = InRange-append n xs ys h.1 in ((h.0, a), b)

  if-Visits :
      (b : Bool) (s : Search) (es : List (Option ℕ))
      → InRange (length s.dist) (if b then [] else es)
      → Visits depth s (if b then [] else es) (if b then s else visit_all depth s es)
  if-Visits true s es h = nil-Visits depth s
  if-Visits false s es h = visit_all-Visits depth es s h

  expand-Visits :
      (s : Search) (o : ℕ)
      → InRange (length s.dist) (targets ix dir o)
      → Visits depth s (targets ix dir o) (expand ix dir depth s o)
  unfolding targets expand
  expand-Visits s o h =
      let outs = ends_of ix.dst (out_edges ix o) in
      let ins = ends_of ix.src (in_edges ix o) in
      let (h1, h2) =
        InRange-append (length s.dist) (if is_backward dir then [] else outs)
          (if is_forward dir then [] else ins) h in
      let first = if-Visits (is_backward dir) s outs h1 in
      let s' = (if is_backward dir then s else visit_all depth s outs) in
      Visits-trans depth s s' _ _ _ first (if-Visits (is_forward dir) s' ins (rw first.size h2))

  -- The ends at every node of a frontier.
  pub all_targets : List ℕ → List (Option ℕ)
  all_targets [] = []
  all_targets (o ∷ os) = targets ix dir o ++ all_targets os

  pub expand_all-Visits :
      (os : List ℕ) (s : Search)
      → ((o : ℕ) → InRange (length s.dist) (targets ix dir o))
      → Visits depth s (all_targets os) (expand_all ix dir depth s os)
  unfolding expand_all all_targets
  expand_all-Visits [] s h = nil-Visits depth s
  expand_all-Visits (o ∷ os) s h =
      let first = expand-Visits s o (h o) in
      Visits-trans depth s (expand ix dir depth s o) _ (targets ix dir o) (all_targets os) first
        (expand_all-Visits os (expand ix dir depth s o) (λ x. rw first.size (h x)))

  pub mem-all_targets :
      (os : List ℕ) (x : Option ℕ) (u : ℕ)
      → Memᴰ u os
      → Memᴰ x (targets ix dir u)
      → Memᴰ x (all_targets os)
  unfolding all_targets
  mem-all_targets [] x u m k = absurd (Memᴰ.not-nil m)
  mem-all_targets (o ∷ os) x u m k = elim (Memᴰ.cases_cons m) [
    | inl e ↦ Memᴰ.append_left _ (subst (λ w. Memᴰ x (targets ix dir w)) e k)
    | inr later ↦ Memᴰ.append_right (targets ix dir o) (mem-all_targets os x u later k)
  ]

  pub all_targets-mem :
      (os : List ℕ) (x : Option ℕ)
      → Memᴰ x (all_targets os)
      → (u : ℕ) × Memᴰ u os × Memᴰ x (targets ix dir u)
  unfolding all_targets
  all_targets-mem [] x m = absurd (Memᴰ.not-nil m)
  all_targets-mem (o ∷ os) x m = elim (Memᴰ.append_cases (targets ix dir o) m) [
    | inl here ↦ (o, Memᴰ.head refl, here)
    | inr later ↦ let (u, at, k) = all_targets-mem os x later in (u, Memᴰ.tail at, k)
  ]
