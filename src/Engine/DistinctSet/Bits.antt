-- ===== src/Engine/DistinctSet/Bits.antt =====
-- The bitset of `distinctSet` (pkg/engine/columnar_agg.go).
use gokql.Base.{
  ℕ, zero, suc, ◌+◌, ◌<◌, ◌≡◌, refl, sym, ap, ◌∙◌, inl, inr, Bool, true, false, ◌||◌, Bool-cases,
  List, [], ◌∷◌, if◌then◌else◌, length, get_or, set, replicate, arith, some, none, Option, map, All,
  All-imp, length-set,
}
use gokql.Base.Bytes.{Bytes, bytes_eq}
use gokql.Engine.Join.{has_name}
use gokql.Engine.DistinctSet.{has_code, bit_codes, DistinctSet, Slice, set_bit, set_bits}

abbrev pub Once : List ℕ → Type 0
Once [] = Unit
Once (c ∷ cs) = (has_code c cs ≡ false) × Once cs

has_code-below : (bs : List Bool) (i c : ℕ) → c < i → has_code c (bit_codes i bs) ≡ false
has_code-below [] i c h = refl
has_code-below (true ∷ bs) i c h = ground (arith, has_code-below bs (suc i) c (omega (arith, h)))
has_code-below (false ∷ bs) i c h = has_code-below bs (suc i) c (omega (arith, h))

pub bit_codes-Once : (bs : List Bool) (i : ℕ) → Once (bit_codes i bs)
bit_codes-Once [] i = tt
bit_codes-Once (true ∷ bs) i =
    (has_code-below bs (suc i) i (omega arith), bit_codes-Once bs (suc i))
bit_codes-Once (false ∷ bs) i = bit_codes-Once bs (suc i)

length-set_bit :
    (bs : List Bool) (i c : ℕ)
    → c < length bs
    → get_or bs c false ≡ false
    → length (bit_codes i (set bs c true)) ≡ suc (length (bit_codes i bs))
length-set_bit [] i c h z = absurd (omega (arith, h))
length-set_bit (b ∷ bs) i zero h z = rw z refl
length-set_bit (true ∷ bs) i (suc c) h z = ap suc (length-set_bit bs (suc i) c (omega (arith, h)) z)
length-set_bit (false ∷ bs) i (suc c) h z = length-set_bit bs (suc i) c (omega (arith, h)) z

pub bit_codes-zeros : (n i : ℕ) → bit_codes i (replicate n false) ≡ []
bit_codes-zeros zero i = refl
bit_codes-zeros (suc n) i = bit_codes-zeros n (suc i)

-- A set bit adds its code.
pub has_name-set_bit :
    (f : ℕ → Bytes) (s : Bytes) (bs : List Bool) (i c : ℕ)
    → c < length bs
    → has_name s (map f (bit_codes i (set bs c true)))
      ≡ (has_name s (map f (bit_codes i bs)) || bytes_eq (f (i + c)) s)
has_name-set_bit f s [] i c h = absurd (omega (arith, h))
has_name-set_bit f s (true ∷ bs) i zero h =
    let e : i + 0 ≡ i = omega arith in
    rw e (once (bytes_eq (f i) s) (has_name s (map f (bit_codes (suc i) bs))))
  where
    once : (y z : Bool) → (if y then true else z) ≡ ((if y then true else z) || y)
    once true z = refl
    once false true = refl
    once false false = refl
has_name-set_bit f s (false ∷ bs) i zero h =
    let e : i + 0 ≡ i = omega arith in
    rw e (swap (bytes_eq (f i) s) (has_name s (map f (bit_codes (suc i) bs))))
  where
    swap : (y z : Bool) → (if y then true else z) ≡ (z || y)
    swap true true = refl
    swap true false = refl
    swap false true = refl
    swap false false = refl
has_name-set_bit f s (true ∷ bs) i (suc c) h =
    let e : i + suc c ≡ suc i + c = omega arith in
    rw (e, has_name-set_bit f s bs (suc i) c (omega (arith, h)))
      (inner (bytes_eq (f i) s) (has_name s (map f (bit_codes (suc i) bs)))
        (bytes_eq (f (suc i + c)) s))
  where
    inner : (y z x : Bool) → (if y then true else (z || x)) ≡ ((if y then true else z) || x)
    inner true z x = refl
    inner false z x = refl
has_name-set_bit f s (false ∷ bs) i (suc c) h =
    let e : i + suc c ≡ suc i + c = omega arith in
    rw e (has_name-set_bit f s bs (suc i) c (omega (arith, h)))

set_same : (bs : List Bool) (c : ℕ) → get_or bs c false ≡ true → set bs c true ≡ bs
set_same [] c h = refl
set_same (b ∷ bs) zero h = rw h refl
set_same (b ∷ bs) (suc c) h = ap (λ r. b ∷ r) (set_same bs c h)

pub All-set_bit :
    (n : ℕ) (bs : List Bool) (i c : ℕ)
    → i + c < n
    → All (λ d. d < n) (bit_codes i bs)
    → All (λ d. d < n) (bit_codes i (set bs c true))
All-set_bit n [] i c h a = a
All-set_bit n (true ∷ bs) i zero h a = a
All-set_bit n (false ∷ bs) i zero h a = (omega (arith, h), a)
All-set_bit n (true ∷ bs) i (suc c) h a = (a.0, All-set_bit n bs (suc i) c (omega (arith, h)) a.1)
All-set_bit n (false ∷ bs) i (suc c) h a = All-set_bit n bs (suc i) c (omega (arith, h)) a

-- A list of bits set one after the other.
abbrev pub set_all : List Bool → List ℕ → List Bool
set_all bs [] = bs
set_all bs (c ∷ cs) = set_all (set bs c true) cs

-- In coded mode with a bitset.
abbrev pub coded : Slice → Option (List ℕ) → List Bool → DistinctSet
coded dict codes bs = record {
  str = none;
  num = none;
  dict = some dict;
  codes = codes;
  bits = some bs;
  nbits = length (bit_codes 0 bs);
}

pub set_bit-coded :
    (dict : Slice) (codes : Option (List ℕ)) (bs : List Bool) (c : ℕ)
    → c < length bs
    → set_bit (coded dict codes bs) c ≡ coded dict codes (set bs c true)
unfolding set_bit
set_bit-coded dict codes bs c h = elim (Bool-cases (get_or bs c false)) [
  | inl p ↦ rw (set_bit, p, set_same bs c p) refl
  | inr p ↦ rw (set_bit, p, length-set_bit bs 0 c h p) refl
]

pub set_bits-coded :
    (dict : Slice) (codes : Option (List ℕ)) (cs : List ℕ) (bs : List Bool)
    → All (λ c. c < length bs) cs
    → set_bits (coded dict codes bs) cs ≡ coded dict codes (set_all bs cs)
unfolding set_bits
set_bits-coded dict codes [] bs a = refl
set_bits-coded dict codes (c ∷ cs) bs a = rw (set_bit-coded dict codes bs c a.0) (
    set_bits-coded dict codes cs (set bs c true)
      (All-imp _ _ cs (λ d h. omega (arith, h, length-set bs c true)) a.1))

pub has_name-set_all :
    (f : ℕ → Bytes) (s : Bytes) (cs : List ℕ) (bs : List Bool)
    → All (λ c. c < length bs) cs
    → has_name s (map f (bit_codes 0 (set_all bs cs)))
      ≡ (has_name s (map f (bit_codes 0 bs)) || has_name s (map f cs))
has_name-set_all f s [] bs a = sym (or_false (has_name s (map f (bit_codes 0 bs))))
  where
    or_false : (x : Bool) → (x || false) ≡ x
    or_false true = refl
    or_false false = refl
has_name-set_all f s (c ∷ cs) bs a =
    has_name-set_all f s cs (set bs c true)
      (All-imp _ _ cs (λ d h. omega (arith, h, length-set bs c true)) a.1)
    ∙ ap (λ x. x || has_name s (map f cs)) (has_name-set_bit f s bs 0 c a.0)
    ∙ ap (λ n. (has_name s (map f (bit_codes 0 bs)) || bytes_eq (f n) s) || has_name s (map f cs))
        (from_zero c)
    ∙ regroup (has_name s (map f (bit_codes 0 bs))) (bytes_eq (f c) s) (has_name s (map f cs))
  where
    from_zero : (n : ℕ) → 0 + n ≡ n
    from_zero n = omega arith

    regroup : (x y z : Bool) → ((x || y) || z) ≡ (x || (if y then true else z))
    regroup true y z = refl
    regroup false true z = refl
    regroup false false z = refl

pub All-set_all :
    (n : ℕ) (cs : List ℕ) (bs : List Bool)
    → All (λ d. d < n) cs
    → All (λ d. d < n) (bit_codes 0 bs)
    → All (λ d. d < n) (bit_codes 0 (set_all bs cs))
All-set_all n [] bs h a = a
All-set_all n (c ∷ cs) bs h a =
    All-set_all n cs (set bs c true) h.1
      (All-set_bit n bs 0 c (let k : c < n = h.0 in omega (arith, k)) a)

pub length-set_all : (cs : List ℕ) (bs : List Bool) → length (set_all bs cs) ≡ length bs
length-set_all [] bs = refl
length-set_all (c ∷ cs) bs = length-set_all cs (set bs c true) ∙ length-set bs c true
