-- ===== src/Graph/Components/Roots.antt =====
-- The roots of a forest of parents, and what a write to a parent does to them.
use gokql.Base.{
  ℕ, zero, suc, ◌≤◌, ◌<◌, ◌≡◌, ◌≢◌, refl, sym, ap, ◌∙◌, inl, inr, List, length, get_or, set, arith,
  Bool-cases, ◌==◌, if◌then◌else◌, get_or-set_self, get_or-set_ne,
}
use mathlib.Core.Path.{subst}

-- The parent of `i`; outside the list, `i` itself.
abbrev pub parent_of : List ℕ → ℕ → ℕ
parent_of p i = get_or p i i

-- `r` is the root above `i`.
pub data Root (p : List ℕ) : ℕ → ℕ → Type 0 where
  top : {i : ℕ} → parent_of p i ≡ i → Root p i i
  up : {i r : ℕ} → Root p (parent_of p i) r → Root p i r

Root-of_fixed : (p : List ℕ) (i j r : ℕ) → Root p j r → j ≡ i → parent_of p i ≡ i → r ≡ i
Root-of_fixed p i j r (top e) same fixed = same
Root-of_fixed p i j r (up d) same fixed =
    Root-of_fixed p i (parent_of p j) r d (ap (parent_of p) same ∙ fixed) fixed

pub Root-unique : (p : List ℕ) (i r s : ℕ) → Root p i r → Root p i s → r ≡ s
Root-unique p i r s (top e) d = sym (Root-of_fixed p i i s d refl e)
Root-unique p i r s (up d) (top e) = Root-of_fixed p i (parent_of p i) r d e e
Root-unique p i r s (up d) (up d') = Root-unique p (parent_of p i) r s d d'

-- Parents point down, and each stands for a node.
pub record IsForest (p : List ℕ) (n : ℕ) : Type 0 where
  pub size : length p ≡ n
  pub down : (i : ℕ) → parent_of p i ≤ i

Root-exists_below :
    (p : List ℕ) (n : ℕ) → IsForest p n → (k i : ℕ) → i < k → (r : ℕ) × Root p i r × (r ≤ i)
Root-exists_below p n f zero i h = absurd (omega arith)
Root-exists_below p n f (suc k) i h = elim (Bool-cases (parent_of p i == i)) [
  | inl e ↦ let e' : parent_of p i ≡ i = ground arith in (i, top e', omega arith)
  | inr e ↦
      let ne : parent_of p i ≢ i = ground arith in
      let (r, d, le) = Root-exists_below p n f k (parent_of p i) (omega (arith, f.down i)) in
      (r, up d, omega (arith, f.down i))
]

pub Root-exists : (p : List ℕ) (n : ℕ) → IsForest p n → (i : ℕ) → (r : ℕ) × Root p i r × (r ≤ i)
Root-exists p n f i = Root-exists_below p n f (suc i) i (omega arith)

pub Root-le : (p : List ℕ) (n : ℕ) → IsForest p n → (i r : ℕ) → Root p i r → r ≤ i
Root-le p n f i r (top e) = omega arith
Root-le p n f i r (up d) = omega (arith, f.down i, Root-le p n f (parent_of p i) r d)

pub Root-fixed : (p : List ℕ) (i r : ℕ) → Root p i r → parent_of p r ≡ r
Root-fixed p i r (top e) = e
Root-fixed p i r (up d) = Root-fixed p (parent_of p i) r d

-- Nodes with the same root.
abbrev pub SameRoot : List ℕ → ℕ → ℕ → Type 0
SameRoot p i j = (r : ℕ) × Root p i r × Root p j r

pub SameRoot-trans : (p : List ℕ) (i j k : ℕ) → SameRoot p i j → SameRoot p j k → SameRoot p i k
SameRoot-trans p i j k (r, a, b) (s, c, d) =
    (r, a, subst (Root p k) (sym (Root-unique p j r s b c)) d)

-- A write of `v` to the parent of `x`.
pub parent_of-set :
    (p : List ℕ) (x v i : ℕ)
    → x < length p
    → parent_of (set p x v) i ≡ (if i == x then v else parent_of p i)
parent_of-set p x v i h = elim (Bool-cases (i == x)) [
  | inl e ↦ let e' : i ≡ x = ground arith in rw (e, e') (get_or-set_self p x v x h)
  | inr e ↦ let ne : x ≢ i = ground arith in rw e (get_or-set_ne p x i v i ne)
]
