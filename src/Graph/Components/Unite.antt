-- ===== src/Graph/Components/Unite.antt =====
-- `unite` joins the classes of two nodes, and no others.
use mathlib.Core.Path.{subst}
use gokql.Base.{
  ℕ, suc, ◌≤◌, ◌<◌, ◌≡◌, refl, sym, ◌∙◌, inl, inr, List, set, arith, Bool-cases, ◌==◌, ltb,
  length-set, if◌then◌else◌,
}
use gokql.Graph.Components.{find, link, unite}
use gokql.Graph.Components.Roots.{
  parent_of, Root, top, up, Root-unique, Root-fixed, SameRoot, SameRoot-trans, Root-le, IsForest,
  Root-exists, parent_of-set,
}
use gokql.Graph.Components.Find.{KeepsRoots, Found, find-Found}

-- The root after the root `hi` went below the root `lo`.
abbrev moved : ℕ → ℕ → ℕ → ℕ
moved hi lo r = if r == hi then lo else r

module _ (p : List ℕ) (n hi lo : ℕ) (f : IsForest p n) (inside : hi < n) (below : lo < hi)
    (hi_top : parent_of p hi ≡ hi) (lo_top : parent_of p lo ≡ lo) where
  under : List ℕ
  under = set p hi lo

  under_parent : (i : ℕ) → parent_of under i ≡ (if i == hi then lo else parent_of p i)
  unfolding under
  under_parent i = parent_of-set p hi lo i (omega (arith, f.size))

  under-IsForest : IsForest under n
  unfolding under
  under-IsForest = record {
    size = length-set p hi lo ∙ f.size;
    down = λ i. let a = under_parent i in let b = f.down i in ground (arith, a, b);
  }

  Root-lo : Root under hi lo
  Root-lo =
      let at_lo : parent_of under lo ≡ lo = under_parent lo ∙ ground (arith, lo_top) in
      let at_hi : parent_of under hi ≡ lo = under_parent hi ∙ ground arith in
      up (subst (λ j. Root under j lo) (sym at_hi) (top at_lo))

  under-Root : (i r : ℕ) → Root p i r → Root under i (moved hi lo r)
  under-Root i r (top e) = elim (Bool-cases (i == hi)) [
    | inl same ↦
        let e' : i ≡ hi = ground arith in rw same (subst (λ j. Root under j lo) (sym e') Root-lo)
    | inr other ↦ rw other (top (under_parent i ∙ rw other e))
  ]
  under-Root i r (up d) = elim (Bool-cases (i == hi)) [
    | inl same ↦
        let e' : i ≡ hi = ground arith in
        let stays : parent_of p i ≡ i = subst (λ j. parent_of p j ≡ j) (sym e') hi_top in
        subst (λ j. Root under j (moved hi lo r)) stays (under-Root (parent_of p i) r d)
    | inr other ↦
        let same : parent_of under i ≡ parent_of p i = under_parent i ∙ rw other refl in
        up (subst (λ j. Root under j (moved hi lo r)) (sym same) (under-Root (parent_of p i) r d))
  ]

  under-SameRoot : (i j : ℕ) → SameRoot p i j → SameRoot under i j
  under-SameRoot i j (r, a, b) = (moved hi lo r, under-Root i r a, under-Root j r b)

  under-joined : SameRoot under hi lo
  under-joined =
      let at_lo : parent_of under lo ≡ lo = under_parent lo ∙ ground (arith, lo_top) in
      (lo, Root-lo, top at_lo)

  under-sound :
      (C : ℕ → ℕ → Type 0)
      → ((i j k : ℕ) → C i j → C j k → C i k)
      → C hi lo
      → ((i r : ℕ) → Root p i r → C i r)
      → (i r : ℕ) → Root under i r
      → C i r
  under-sound C trans joined sound i r d =
      let (s, e, le) = Root-exists p n f i in
      let same : moved hi lo s ≡ r = Root-unique under i (moved hi lo s) r (under-Root i s e) d in
      elim (Bool-cases (s == hi)) [
        | inl at ↦
            let e' : s ≡ hi = ground arith in
            let m : moved hi lo s ≡ lo = rw at refl in
            subst (C i) (sym m ∙ same)
              (trans i s lo (sound i s e) (subst (λ k. C k lo) (sym e') joined))
        | inr off ↦
            let m : moved hi lo s ≡ s = rw off refl in subst (C i) (sym m ∙ same) (sound i s e)
      ]

-- What a step makes of the parents `p`: `a` and `b` are joined, no two nodes are parted, and a relation
-- that relates each node to its root, and `a` to `b`, still does so.
pub record Joins (p : List ℕ) (n a b : ℕ) (q : List ℕ) : Type 1 where
  pub forest : IsForest q n
  pub joined : SameRoot q a b
  pub keeps : (i j : ℕ) → SameRoot p i j → SameRoot q i j
  pub sound :
      (C : ℕ → ℕ → Type 0)
      → ((i j : ℕ) → C i j → C j i)
      → ((i j k : ℕ) → C i j → C j k → C i k)
      → C a b
      → ((i r : ℕ) → Root p i r → C i r)
      → (i r : ℕ) → Root q i r
      → C i r

link-Joins :
    (p : List ℕ) (n a b : ℕ)
    → IsForest p n
    → a < n
    → b < n
    → parent_of p a ≡ a
    → parent_of p b ≡ b
    → Joins p n a b (link a b p)
unfolding link under
link-Joins p n a b f ha hb ta tb = elim (Bool-cases (a == b)) [
  | inl same ↦
      let e : a ≡ b = ground arith in
      rw (link, same)
        (record {
          forest = f;
          joined = (a, top ta, subst (λ j. Root p j a) e (top ta));
          keeps = λ i j s. s;
          sound = λ C flip trans c s. s;
        })
  | inr other ↦ elim (Bool-cases (ltb a b)) [
    | inl lt ↦
        let lt' : a < b = ground arith in
        rw (link, other, lt)
          (record {
            forest = under-IsForest p n b a f hb lt' tb ta;
            joined = flip_root (under-joined p n b a f hb lt' tb ta);
            keeps = under-SameRoot p n b a f hb lt' tb ta;
            sound = λ C flip trans c s. under-sound p n b a f hb lt' tb ta C trans (flip a b c) s;
          })
    | inr ge ↦
        let lt' : b < a = ground arith in
        rw (link, other, ge)
          (record {
            forest = under-IsForest p n a b f ha lt' ta tb;
            joined = under-joined p n a b f ha lt' ta tb;
            keeps = under-SameRoot p n a b f ha lt' ta tb;
            sound = λ C flip trans c s. under-sound p n a b f ha lt' ta tb C trans c s;
          })
  ]
]
  where
    flip_root : {q : List ℕ} {i j : ℕ} → SameRoot q i j → SameRoot q j i
    flip_root (r, x, y) = (r, y, x)

KeepsRoots-SameRoot : (p q : List ℕ) → KeepsRoots p q → (i j : ℕ) → SameRoot p i j → SameRoot q i j
KeepsRoots-SameRoot p q keep i j (r, a, b) = (r, keep i r a, keep j r b)

pub KeepsRoots-back : (p q : List ℕ) (n : ℕ) → IsForest p n → KeepsRoots p q → KeepsRoots q p
KeepsRoots-back p q n f keep i r d =
    let (s, e, le) = Root-exists p n f i in subst (Root p i) (Root-unique q i s r (keep i s e) d) e

unite_step :
    (p : List ℕ) (n a b : ℕ)
    → IsForest p n
    → a < n
    → b < n
    → (first : ℕ × List ℕ) → Found p n a first
    → (second : ℕ × List ℕ) → Found first.1 n b second
    → Joins p n a b (link first.0 second.0 second.1)
unite_step p n a b f ha hb (ra, p1) one (rb, p2) two =
    let root_a : Root p2 a ra = two.keeps a ra (one.keeps a ra one.root) in
    let root_b : Root p2 b rb = two.keeps b rb two.root in
    let top_a = Root-fixed p2 a ra root_a in
    let top_b = Root-fixed p2 b rb root_b in
    let le_a : ra ≤ a = Root-le p2 n two.forest a ra root_a in
    let le_b : rb ≤ b = Root-le p2 n two.forest b rb root_b in
    let l = link-Joins p2 n ra rb two.forest (omega arith) (omega arith) top_a top_b in
    let keeps2 = KeepsRoots-SameRoot p1 p2 two.keeps in
    let keeps1 = KeepsRoots-SameRoot p p1 one.keeps in
    let back1 = KeepsRoots-back p p1 n f one.keeps in
    let back2 = KeepsRoots-back p1 p2 n one.forest two.keeps in
    let q = link ra rb p2 in
    let up_a : SameRoot q a ra = l.keeps a ra (ra, root_a, top top_a) in
    let down_b : SameRoot q rb b = l.keeps rb b (rb, top top_b, root_b) in
    record {
      forest = l.forest;
      joined = SameRoot-trans q a ra b up_a (SameRoot-trans q ra rb b l.joined down_b);
      keeps = λ i j s. l.keeps i j (keeps2 i j (keeps1 i j s));
      sound = λ C flip trans c s.
          l.sound C flip trans
            (trans ra a rb (flip a ra (s a ra one.root))
              (trans a b rb c (s b rb (back1 b rb two.root))))
            (λ i r d. s i r (back1 i r (back2 i r d)));
    }

pub unite-Joins :
    (p : List ℕ) (n a b : ℕ) → IsForest p n → a < n → b < n → Joins p n a b (unite a b p)
unfolding unite
unite-Joins p n a b f ha hb =
    let first = find (suc a) p a in
    let one = find-Found (suc a) p n a (omega arith) ha f in
    unite_step p n a b f ha hb first one (find (suc b) first.1 b)
      (find-Found (suc b) first.1 n b (omega arith) hb one.forest)
