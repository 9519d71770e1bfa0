-- ===== src/Engine/DistinctSet/Texts.antt =====
-- Lists of texts and codes that hold each item once (`distinctSet` of pkg/engine/columnar_agg.go).
use gokql.Base.{
  ℕ, ◌<◌, ◌≡◌, refl, sym, ap, ◌∙◌, inl, inr, Bool, true, false, ◌||◌, Bool-cases, List, [], ◌∷◌,
  ◌++◌, map, if◌then◌else◌, ◌==◌, ==_iff, All, All-append, arith,
}
use gokql.Base.Bytes.{Bytes, bytes_eq, bytes_eq_iff, bytes_eq_refl}
use gokql.Engine.Join.{has_name}
use gokql.Engine.Join.Names.{Distinct, Distinct-append}
use gokql.Engine.DistinctSet.{Slice, same_backing, put_text, has_code, put_code}
use gokql.Engine.DistinctSet.Bits.{Once}

pub if_self : (x : Bool) → (if x then true else false) ≡ x
if_self true = refl
if_self false = refl

pub or_false : (x : Bool) → (x || false) ≡ x
or_false true = refl
or_false false = refl

pub has_name-append :
    (s : Bytes) (xs ys : List Bytes) → has_name s (xs ++ ys) ≡ (has_name s xs || has_name s ys)
has_name-append s [] ys = refl
has_name-append s (x ∷ xs) ys = elim (Bool-cases (bytes_eq x s)) [
  | inl p ↦ rw p refl
  | inr p ↦ rw p (has_name-append s xs ys)
]

pub has_name-put_text :
    (s t : Bytes) (xs : List Bytes) → has_name s (put_text t xs) ≡ (has_name s xs || bytes_eq t s)
has_name-put_text s t xs = elim (Bool-cases (has_name t xs)) [
  | inl p ↦ rw p (known p)
  | inr p ↦ rw (p, has_name-append s xs (t ∷ [])) (last (has_name s xs) (bytes_eq t s))
]
  where
    last : (x y : Bool) → (x || (if y then true else false)) ≡ (x || y)
    last x true = refl
    last x false = refl

    known : has_name t xs ≡ true → has_name s xs ≡ (has_name s xs || bytes_eq t s)
    known p = elim (Bool-cases (bytes_eq t s)) [
      | inl q ↦
          let same : t ≡ s = (bytes_eq_iff t s).0 q in
          let e : has_name s xs ≡ true = rw same at p in rw e refl
      | inr q ↦ rw q (sym (or_false (has_name s xs)))
    ]

pub put_text-Distinct : (t : Bytes) (xs : List Bytes) → Distinct xs → Distinct (put_text t xs)
put_text-Distinct t xs d = elim (Bool-cases (has_name t xs)) [
  | inl p ↦ rw p d
  | inr p ↦ rw p (Distinct-append xs (t ∷ []) d (refl, tt) (p, tt))
]

Once-last : (c : ℕ) (cs : List ℕ) → has_code c cs ≡ false → Once cs → Once (cs ++ c ∷ [])
Once-last c [] h o = (refl, tt)
Once-last c (d ∷ cs) h o = elim (Bool-cases (d == c)) [
  | inl p ↦ cc (rw p at h)
  | inr p ↦ (has_code-last d c cs o.0 (ground (arith, p)), Once-last c cs (rw p at h) o.1)
]
  where
    has_code-last :
        (x y : ℕ) (ds : List ℕ)
        → has_code x ds ≡ false
        → (y == x) ≡ false
        → has_code x (ds ++ y ∷ []) ≡ false
    has_code-last x y [] a b = rw b refl
    has_code-last x y (z ∷ ds) a b = elim (Bool-cases (z == x)) [
      | inl q ↦ cc (rw q at a)
      | inr q ↦ rw q (has_code-last x y ds (rw q at a) b)
    ]

pub put_code-Once : (c : ℕ) (cs : List ℕ) → Once cs → Once (put_code c cs)
put_code-Once c cs o = elim (Bool-cases (has_code c cs)) [
  | inl p ↦ rw p o
  | inr p ↦ rw p (Once-last c cs p o)
]

pub put_code-All :
    (n c : ℕ) (cs : List ℕ) → c < n → All (λ d. d < n) cs → All (λ d. d < n) (put_code c cs)
put_code-All n c cs h a = elim (Bool-cases (has_code c cs)) [
  | inl p ↦ rw p a
  | inr p ↦ rw p (All-append _ cs (c ∷ []) a (h, tt))
]

has_name-code :
    (f : ℕ → Bytes) (c : ℕ) (cs : List ℕ) → has_code c cs ≡ true → has_name (f c) (map f cs) ≡ true
has_name-code f c [] h = cc h
has_name-code f c (d ∷ cs) h = elim (Bool-cases (d == c)) [
  | inl p ↦ let e : d ≡ c = (==_iff d c).0 p in rw (e, bytes_eq_refl (f c)) refl
  | inr p ↦ elim (Bool-cases (bytes_eq (f d) (f c))) [
    | inl q ↦ rw q refl
    | inr q ↦ rw q (has_name-code f c cs (rw p at h))
  ]
]

map-append : (f : ℕ → Bytes) (cs ds : List ℕ) → map f (cs ++ ds) ≡ map f cs ++ map f ds
map-append f [] ds = refl
map-append f (c ∷ cs) ds = ap (λ r. f c ∷ r) (map-append f cs ds)

pub has_name-put_code :
    (f : ℕ → Bytes) (s : Bytes) (c : ℕ) (cs : List ℕ)
    → has_name s (map f (put_code c cs)) ≡ (has_name s (map f cs) || bytes_eq (f c) s)
has_name-put_code f s c cs = elim (Bool-cases (has_code c cs)) [
  | inl p ↦ elim (Bool-cases (bytes_eq (f c) s)) [
    | inl q ↦
        let same : f c ≡ s = (bytes_eq_iff (f c) s).0 q in
        let e : has_name s (map f cs) ≡ true = rw same at (has_name-code f c cs p) in rw (p, e) refl
    | inr q ↦ rw (p, q) (or_no (has_name s (map f cs)))
  ]
  | inr p ↦
      rw (p, map-append f cs (c ∷ []), has_name-append s (map f cs) (f c ∷ []))
        (last (has_name s (map f cs)) (bytes_eq (f c) s))
]
  where
    or_no : (x : Bool) → x ≡ (x || false)
    or_no true = refl
    or_no false = refl

    last : (x y : Bool) → (x || (if y then true else false)) ≡ (x || y)
    last x true = refl
    last x false = refl

pub same_backing-eq : (a b : Slice) (c : ℕ) → c < b.size → same_backing a b ≡ true → a ≡ b
unfolding same_backing
same_backing-eq a b c h e =
    let sizes : a.size ≡ b.size = ground (arith, e) in
    let places : a.address ≡ b.address = ground (arith, e, h) in
    ap (λ x. record { address = x; size = a.size }) places
    ∙ ap (λ y. record { address = b.address; size = y }) sizes
