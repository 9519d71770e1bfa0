-- ===== src/Graph/Components/Labels.antt =====
-- After the loop over the edges, two nodes get the same label when the edges connect them.
use mathlib.Core.Path.{subst}
use gokql.Base.{
  ℕ, zero, suc, ◌+◌, ◌≤◌, ◌<◌, ◌≡◌, ◌↔◌, refl, ap, ◌∙◌, List, [], ◌∷◌, Option, none, some, length,
  get_or, get_elem?, arith,
}
use gokql.Graph.Components.{find, unite, unite_edges, count_up, find_each, weak_labels}
use gokql.Graph.Index.Offsets.{EndsBelow}
use gokql.Graph.Components.Roots.{
  parent_of, Root, top, Root-unique, SameRoot, SameRoot-trans, IsForest, Root-exists,
}
use gokql.Graph.Components.Find.{find-Found}
use gokql.Graph.Components.Unite.{unite-Joins, KeepsRoots-back}

-- Edge `k` leads from `a` to `b`, both of them nodes.
abbrev pub EdgeAt : List (Option ℕ) → List (Option ℕ) → ℕ → ℕ → ℕ → Type 0
EdgeAt src dst k a b = (get_elem? src k ≡ some (some a)) × (get_elem? dst k ≡ some (some b))

-- Edges, taken in both directions, lead from the one node to the other.
pub data Connected (src dst : List (Option ℕ)) : ℕ → ℕ → Type 0 where
  here : {i : ℕ} → Connected src dst i i
  edge : (k : ℕ) {a b : ℕ} → EdgeAt src dst k a b → Connected src dst a b
  flip : {i j : ℕ} → Connected src dst i j → Connected src dst j i
  chain : {i j k : ℕ} → Connected src dst i j → Connected src dst j k → Connected src dst i k

-- What the loop over edges makes of the parents `p`.
record Covers (src dst : List (Option ℕ)) (p : List ℕ) (n : ℕ) (q : List ℕ) : Type 1 where
  forest : IsForest q n
  keeps : (i j : ℕ) → SameRoot p i j → SameRoot q i j
  covers : (k a b : ℕ) → EdgeAt src dst k a b → SameRoot q a b
  sound :
      (C : ℕ → ℕ → Type 0)
      → ((i j : ℕ) → C i j → C j i)
      → ((i j k : ℕ) → C i j → C j k → C i k)
      → ((k a b : ℕ) → EdgeAt src dst k a b → C a b)
      → ((i r : ℕ) → Root p i r → C i r)
      → (i r : ℕ) → Root q i r
      → C i r

Covers-step :
    (e f : Option ℕ) (src dst : List (Option ℕ)) (p p1 : List ℕ) (n : ℕ) (q : List ℕ)
    → ((i j : ℕ) → SameRoot p i j → SameRoot p1 i j)
    → ((a b : ℕ) → e ≡ some a → f ≡ some b → SameRoot p1 a b)
    → ((C : ℕ → ℕ → Type 0)
        → ((i j : ℕ) → C i j → C j i)
        → ((i j k : ℕ) → C i j → C j k → C i k)
        → ((a b : ℕ) → e ≡ some a → f ≡ some b → C a b)
        → ((i r : ℕ) → Root p i r → C i r)
        → (i r : ℕ) → Root p1 i r
        → C i r)
    → Covers src dst p1 n q
    → Covers (e ∷ src) (f ∷ dst) p n q
Covers-step e f src dst p p1 n q keeps joined sound rest = record {
  forest = rest.forest;
  keeps = λ i j s. rest.keeps i j (keeps i j s);
  covers = λ k a b at. covers_at k a b at;
  sound = λ C flip trans edges s.
      rest.sound C flip trans (λ k a b at. edges (suc k) a b at)
        (sound C flip trans (λ a b x y. edges 0 a b (ap some x, ap some y)) s);
}
  where
    covers_at : (k a b : ℕ) → EdgeAt (e ∷ src) (f ∷ dst) k a b → SameRoot q a b
    covers_at zero a b (x, y) = rest.keeps a b (joined a b (cc x) (cc y))
    covers_at (suc k) a b at = rest.covers k a b at

Covers-nothing :
    (src dst : List (Option ℕ)) (p : List ℕ) (n : ℕ)
    → IsForest p n
    → ((k a b : ℕ) → EdgeAt src dst k a b → ⊥)
    → Covers src dst p n p
Covers-nothing src dst p n f empty = record {
  forest = f;
  keeps = λ i j s. s;
  covers = λ k a b at. elim (empty k a b at) [ ];
  sound = λ C flip trans edges s. s;
}

unite_edges-Covers :
    (src dst : List (Option ℕ)) (p : List ℕ) (n : ℕ)
    → IsForest p n
    → EndsBelow n src
    → EndsBelow n dst
    → Covers src dst p n (unite_edges src dst p)
unfolding unite_edges
unite_edges-Covers [] dst p n f hs hd = Covers-nothing [] dst p n f (λ k a b at. cc at.0)
unite_edges-Covers (some a ∷ src) [] p n f hs hd =
    Covers-nothing (some a ∷ src) [] p n f (λ k a b at. cc at.1)
unite_edges-Covers (none ∷ src) [] p n f hs hd =
    Covers-nothing (none ∷ src) [] p n f (λ k a b at. cc at.1)
unite_edges-Covers (some a ∷ src) (some b ∷ dst) p n f hs hd =
    let j = unite-Joins p n a b f hs.0 hd.0 in
    Covers-step (some a) (some b) src dst p (unite a b p) n _ j.keeps
      (λ c d x y.
        subst (λ k. SameRoot (unite a b p) k d) (cc x)
          (subst (SameRoot (unite a b p) a) (cc y) j.joined))
      (λ C flip trans edges s. j.sound C flip trans (edges a b refl refl) s)
      (unite_edges-Covers src dst (unite a b p) n j.forest hs.1 hd.1)
unite_edges-Covers (some a ∷ src) (none ∷ dst) p n f hs hd =
    Covers-step (some a) none src dst p p n _ (λ i j s. s) (λ c d x y. cc y)
      (λ C flip trans edges s. s) (unite_edges-Covers src dst p n f hs.1 hd)
unite_edges-Covers (none ∷ src) (some b ∷ dst) p n f hs hd =
    Covers-step none (some b) src dst p p n _ (λ i j s. s) (λ c d x y. cc x)
      (λ C flip trans edges s. s) (unite_edges-Covers src dst p n f hs hd.1)
unite_edges-Covers (none ∷ src) (none ∷ dst) p n f hs hd =
    Covers-step none none src dst p p n _ (λ i j s. s) (λ c d x y. cc x) (λ C flip trans edges s. s)
      (unite_edges-Covers src dst p n f hs hd)

length-count_up : (n i : ℕ) → length (count_up n i) ≡ n
unfolding count_up
length-count_up zero i = refl
length-count_up (suc n) i = ap suc (length-count_up n (suc i))

get_or-count_up : (n s i d : ℕ) → d ≡ s + i → get_or (count_up n s) i d ≡ d
unfolding count_up
get_or-count_up zero s i d e = refl
get_or-count_up (suc n) s zero d e = omega arith
get_or-count_up (suc n) s (suc i) d e = get_or-count_up n (suc s) i d (omega arith)

count_up-fixed : (n i : ℕ) → parent_of (count_up n 0) i ≡ i
count_up-fixed n i = get_or-count_up n 0 i i (omega arith)

count_up-IsForest : (n : ℕ) → IsForest (count_up n 0) n
count_up-IsForest n = record {
  size = length-count_up n 0;
  down = λ i. rw (count_up-fixed n i) (omega arith);
}

pub length-find_each : (m i : ℕ) (p : List ℕ) → length (find_each m i p) ≡ m
unfolding find_each
length-find_each zero i p = refl
length-find_each (suc m) i p = ap suc (length-find_each m (suc i) (find (suc i) p i).1)

find_each-Root :
    (m i : ℕ) (p : List ℕ) (n j d : ℕ)
    → IsForest p n
    → i + m ≤ n
    → j < m
    → Root p (i + j) (get_or (find_each m i p) j d)
unfolding find_each
find_each-Root zero i p n j d f room h = absurd (omega arith)
find_each-Root (suc m) i p n zero d f room h =
    let e : i + 0 ≡ i = omega arith in
    rw e (find-Found (suc i) p n i (omega arith) (omega arith) f).root
find_each-Root (suc m) i p n (suc j) d f room h =
    let found = find-Found (suc i) p n i (omega arith) (omega arith) f in
    let q = (find (suc i) p i).1 in
    let e : i + suc j ≡ suc i + j = omega arith in
    rw e (
      KeepsRoots-back p q n f found.keeps (suc i + j) _
        (find_each-Root m (suc i) q n j d found.forest (omega arith) (omega arith)))

zero_plus : (k : ℕ) → 0 + k ≡ k
zero_plus k = omega arith

count_up-here :
    (src dst : List (Option ℕ)) (n k r : ℕ) → Root (count_up n 0) k r → Connected src dst k r
count_up-here src dst n k r d =
    subst (Connected src dst k) (Root-unique (count_up n 0) k k r (top (count_up-fixed n k)) d) here

Connected-SameRoot :
    (src dst : List (Option ℕ)) (q : List ℕ) (n : ℕ)
    → IsForest q n
    → ((k a b : ℕ) → EdgeAt src dst k a b → SameRoot q a b)
    → (i j : ℕ) → Connected src dst i j
    → SameRoot q i j
Connected-SameRoot src dst q n f covers i j here = let (r, d, le) = Root-exists q n f i in (r, d, d)
Connected-SameRoot src dst q n f covers i j (edge k at) = covers k i j at
Connected-SameRoot src dst q n f covers i j (flip x) =
    let (r, a, b) = Connected-SameRoot src dst q n f covers j i x in (r, b, a)
Connected-SameRoot src dst q n f covers i j (chain {j = m} x y) =
    SameRoot-trans q i m j (Connected-SameRoot src dst q n f covers i m x)
      (Connected-SameRoot src dst q n f covers m j y)

pub length-weak_labels : (n : ℕ) (src dst : List (Option ℕ)) → length (weak_labels n src dst) ≡ n
unfolding weak_labels
length-weak_labels n src dst = length-find_each n 0 (unite_edges src dst (count_up n 0))

pub weak_labels-Connected :
    (n : ℕ) (src dst : List (Option ℕ)) (i j d : ℕ)
    → EndsBelow n src
    → EndsBelow n dst
    → i < n
    → j < n
    → (get_or (weak_labels n src dst) i d ≡ get_or (weak_labels n src dst) j d)
      ↔ Connected src dst i j
unfolding weak_labels
weak_labels-Connected n src dst i j d hs hd hi hj =
    let p = count_up n 0 in
    let q = unite_edges src dst p in
    let c = unite_edges-Covers src dst p n (count_up-IsForest n) hs hd in
    let label = λ (k : ℕ). get_or (find_each n 0 q) k d in
    let at = λ (k : ℕ). λ (h : k < n).
      subst (λ x. Root q x (label k)) (zero_plus k)
        (find_each-Root n 0 q n k d c.forest (omega arith) h) in
    let known : (k r : ℕ) → Root q k r → Connected src dst k r =
      c.sound (Connected src dst) (λ a b x. flip x) (λ a b e x y. chain x y) (λ k a b x. edge k x)
        (λ k r x. count_up-here src dst n k r x) in
    (
      λ same.
          chain (subst (Connected src dst i) same (known i (label i) (at i hi)))
            (flip (known j (label j) (at j hj))),
      λ x.
          let (r, a, b) = Connected-SameRoot src dst q n c.forest c.covers i j x in
          Root-unique q i (label i) r (at i hi) a ∙ Root-unique q j r (label j) b (at j hj),
    )
