-- ===== src/Graph/Components/Find.antt =====
-- `find` returns the root and keeps the root of every node.
use mathlib.Core.Path.{subst}
use gokql.Base.{
  ℕ, zero, suc, ◌≤◌, ◌<◌, ◌≡◌, ◌≢◌, sym, ap, ◌∙◌, inl, inr, List, length, set, arith, Bool-cases,
  ◌==◌, length-set,
}
use gokql.Graph.Components.{find}
use gokql.Graph.Components.Roots.{
  parent_of, Root, top, up, Root-unique, IsForest, Root-exists, parent_of-set,
}

-- The parents `q` have the roots of the parents `p`.
abbrev pub KeepsRoots : List ℕ → List ℕ → Type 0
KeepsRoots p q = (i r : ℕ) → Root p i r → Root q i r

module _ (p : List ℕ) (x : ℕ) (inside : x < length p) where
  halved : List ℕ
  halved = set p x (parent_of p (parent_of p x))

  halved_self : parent_of halved x ≡ parent_of p (parent_of p x)
  unfolding halved
  halved_self = parent_of-set p x _ x inside ∙ ground arith

  halved_other : (i : ℕ) → i ≢ x → parent_of halved i ≡ parent_of p i
  unfolding halved
  halved_other i ne = parent_of-set p x _ i inside ∙ ground arith

  -- Over a node's parent, and so over its grandparent.
  Root-over : (r : ℕ) → Root halved (parent_of p x) r → Root halved (parent_of p (parent_of p x)) r
  Root-over r d = elim (Bool-cases (parent_of p x == x)) [
    | inl same ↦
        let e : parent_of p x ≡ x = ground arith in
        subst (λ j. Root halved j r) (sym (ap (parent_of p) e)) d
    | inr other ↦
        let ne : parent_of p x ≢ x = ground arith in
        over (parent_of p x) d (halved_other (parent_of p x) ne)
  ]
    where
      over :
          (j : ℕ)
          → Root halved j r
          → parent_of halved j ≡ parent_of p j
          → Root halved (parent_of p j) r
      over j (top e) same = subst (λ k. Root halved k j) (sym (sym same ∙ e)) (top e)
      over j (up d) same = subst (λ k. Root halved k r) same d

  halved-KeepsRoots : KeepsRoots p halved
  halved-KeepsRoots i r (top e) = elim (Bool-cases (i == x)) [
    | inl same ↦
        let e' : i ≡ x = ground arith in
        let fixed : parent_of p x ≡ x = subst (λ j. parent_of p j ≡ j) e' e in
        subst (λ j. Root halved j j) (sym e') (top (halved_self ∙ ap (parent_of p) fixed ∙ fixed))
    | inr other ↦ let ne : i ≢ x = ground arith in top (halved_other i ne ∙ e)
  ]
  halved-KeepsRoots i r (up d) = elim (Bool-cases (i == x)) [
    | inl same ↦
        let e' : i ≡ x = ground arith in
        let d' =
          subst (λ j. Root halved (parent_of p j) r) e' (halved-KeepsRoots (parent_of p i) r d) in
        subst (λ j. Root halved j r) (sym e')
          (up (subst (λ j. Root halved j r) (sym halved_self) (Root-over r d')))
    | inr other ↦
        let ne : i ≢ x = ground arith in
        up (
          subst (λ j. Root halved j r) (sym (halved_other i ne))
            (halved-KeepsRoots (parent_of p i) r d))
  ]

  halved_down : (n : ℕ) → IsForest p n → (i : ℕ) → parent_of halved i ≤ i
  unfolding halved
  halved_down n f i =
      let e = parent_of-set p x (parent_of p (parent_of p x)) i inside in
      let a = f.down x in
      let b = f.down (parent_of p x) in let c = f.down i in rw e (ground (arith, a, b, c))

  halved-IsForest : (n : ℕ) → IsForest p n → IsForest halved n
  unfolding halved
  halved-IsForest n f = record { size = length-set p x _ ∙ f.size; down = halved_down n f }

-- What `find` makes of the parents `p`.
pub record Found (p : List ℕ) (n x : ℕ) (res : ℕ × List ℕ) : Type 0 where
  pub root : Root p x res.0
  pub keeps : KeepsRoots p res.1
  pub forest : IsForest res.1 n

Found-halved :
    (p : List ℕ) (x : ℕ) (within : x < length p) (n : ℕ)
    → IsForest p n
    → (res : ℕ × List ℕ) → Found (halved p x within) n (parent_of p (parent_of p x)) res
    → Found p n x res
Found-halved p x within n f res found =
    let q = halved p x within in
    let keep = halved-KeepsRoots p x within in
    let (r, d, le) = Root-exists p n f x in
    let above : Root q x res.0 =
      up (subst (λ j. Root q j res.0) (sym (halved_self p x within)) found.root) in
    record {
      root = subst (Root p x) (Root-unique q x r res.0 (keep x r d) above) d;
      keeps = λ i s d'. found.keeps i s (keep i s d');
      forest = found.forest;
    }

pub find-Found :
    (fuel : ℕ) (p : List ℕ) (n x : ℕ)
    → x < fuel
    → x < n
    → IsForest p n
    → Found p n x (find fuel p x)
unfolding find halved
find-Found zero p n x enough inside f = absurd (omega arith)
find-Found (suc fuel) p n x enough inside f = elim (Bool-cases (parent_of p x == x)) [
  | inl fixed ↦
      let e : parent_of p x ≡ x = ground arith in
      rw (find, fixed) (record { root = top e; keeps = λ i r d. d; forest = f })
  | inr other ↦
      let ne : parent_of p x ≢ x = ground arith in
      let over = parent_of p (parent_of p x) in
      let within : x < length p = omega (arith, f.size) in
      let less : over < x = omega (arith, f.down x, f.down (parent_of p x)) in
      let rest =
        find-Found fuel (halved p x within) n over (omega arith) (omega arith)
          (halved-IsForest p x within n f) in
      rw (find, other) (Found-halved p x within n f (find fuel (halved p x within) over) rest)
]
