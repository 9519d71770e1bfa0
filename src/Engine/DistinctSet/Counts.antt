-- ===== src/Engine/DistinctSet/Counts.antt =====
-- The count of `distinctSet` (pkg/engine/columnar_agg.go).
use gokql.Engine.DistinctSet.Unions.{union_set-Joins}
use gokql.Base.{
  ◌++◌, ℕ, suc, ◌<◌, ◌≡◌, refl, sym, ap, ◌∙◌, inl, inr, Bool, true, false, ◌||◌, Bool-cases, List,
  [], ◌∷◌, map, if◌then◌else◌, length, ◌==◌, ==_iff, All, arith,
}
use gokql.Base.Bytes.{Bytes, bytes_eq, bytes_eq_iff}
use gokql.Engine.Join.{has_name}
use gokql.Engine.Join.Names.{Distinct}
use gokql.Engine.DistinctSet.{
  Slice, DistinctSet, empty_set, has_code, bit_codes, add_code, count, union_set,
}
use gokql.Engine.DistinctSet.Bits.{Once, bit_codes-Once}
use gokql.Engine.DistinctSet.Valid.{
  Mode, unused, texts, sparse, dense, to_set, IsMode, elements, add_code-Adds,
}
use gokql.Engine.DistinctSet.Texts.{has_name-append}

length-map : (f : ℕ → Bytes) (cs : List ℕ) → length (map f cs) ≡ length cs
length-map f [] = refl
length-map f (c ∷ cs) = ap suc (length-map f cs)

module _ (text : ℕ → ℕ → Bytes) where
  count-elements : (m : Mode) → count (to_set m) ≡ length (elements text m)
  unfolding count
  count-elements unused = refl
  count-elements (texts xs) = omega arith
  count-elements (sparse dict cs) = omega (arith, length-map (λ c. text dict.address c) cs)
  count-elements (dense dict bs) =
      omega (arith, length-map (λ c. text dict.address c) (bit_codes 0 bs))

  -- No dictionary has an entry twice.
  abbrev pub Injective : Type 0
  Injective =
      (dict : Slice) (i j : ℕ)
      → i < dict.size
      → j < dict.size
      → text dict.address i ≡ text dict.address j
      → i ≡ j

  text_apart :
      Injective
      → (dict : Slice) (c : ℕ) (cs : List ℕ) → c < dict.size
      → All (λ d. d < dict.size) cs
      → has_code c cs ≡ false
      → has_name (text dict.address c) (map (λ d. text dict.address d) cs) ≡ false
  text_apart inj dict c [] l a h = refl
  text_apart inj dict c (d ∷ cs) l a h = elim (Bool-cases (d == c)) [
    | inl p ↦ cc (rw p at h)
    | inr p ↦ elim (Bool-cases (bytes_eq (text dict.address d) (text dict.address c))) [
      | inr q ↦ rw q (text_apart inj dict c cs l a.1 (rw p at h))
      | inl q ↦
          let same =
            inj dict d c a.0 l ((bytes_eq_iff (text dict.address d) (text dict.address c)).0 q) in
          cc (sym p ∙ (==_iff d c).1 same)
    ]
  ]

  map-Distinct :
      Injective
      → (dict : Slice) (cs : List ℕ) → Once cs
      → All (λ d. d < dict.size) cs
      → Distinct (map (λ d. text dict.address d) cs)
  map-Distinct inj dict [] o a = tt
  map-Distinct inj dict (c ∷ cs) o a =
      (text_apart inj dict c cs a.0 a.1 o.0, map-Distinct inj dict cs o.1 a.1)

  elements-Distinct : Injective → (m : Mode) → IsMode m → Distinct (elements text m)
  elements-Distinct inj unused h = tt
  elements-Distinct inj (texts xs) h = h
  elements-Distinct inj (sparse dict cs) (o, a, z) = map-Distinct inj dict cs o a
  elements-Distinct inj (dense dict bs) (w, a, z) =
      map-Distinct inj dict (bit_codes 0 bs) (bit_codes-Once bs 0) a

-- How a set came about: new, with a code of a dictionary added, or united with another set, which is not
-- used afterwards.
pub data History : Type 0 where
  new : History
  added : History → Slice → ℕ → History
  united : History → History → History

module _ (text : ℕ → ℕ → Bytes) where
  abbrev pub result : History → DistinctSet
  result new = empty_set
  result (added a dict c) = add_code text (result a) dict c
  result (united a b) = union_set text (result a) (result b)

  abbrev pub texts_of : History → List Bytes
  texts_of new = []
  texts_of (added a dict c) = text dict.address c ∷ texts_of a
  texts_of (united a b) = texts_of a ++ texts_of b

  abbrev pub InDicts : History → Type 0
  InDicts new = Unit
  InDicts (added a dict c) = InDicts a × (c < dict.size)
  InDicts (united a b) = InDicts a × InDicts b

  result-elements :
      (a : History)
      → InDicts a
      → (m : Mode) × (result a ≡ to_set m)
        × IsMode m
        × ((s : Bytes) → has_name s (elements text m) ≡ has_name s (texts_of a))
  result-elements new h = (unused, refl, tt, λ s. refl)
  result-elements (added a dict c) h =
      let (m, e, i, k) = result-elements a h.0 in
      let (m', e', i', k') = add_code-Adds text m dict c i h.1 in
      (
        m',
        ap (λ d. add_code text d dict c) e ∙ e',
        i',
        λ s.
            k' s
            ∙ ap (λ x. x || bytes_eq (text dict.address c) s) (k s)
            ∙ swap (has_name s (texts_of a)) (bytes_eq (text dict.address c) s),
      )
    where
      swap : (x y : Bool) → (x || y) ≡ (if y then true else x)
      swap true true = refl
      swap true false = refl
      swap false true = refl
      swap false false = refl
  result-elements (united a b) h =
      let (m, e, i, k) = result-elements a h.0 in
      let (n, f, j, l) = result-elements b h.1 in
      let (r, g, o, w) = union_set-Joins text m n i j in
      (
        r,
        ap (λ d. union_set text d (result b)) e ∙ ap (λ d. union_set text (to_set m) d) f ∙ g,
        o,
        λ s.
            w s
            ∙ ap (λ x. x || has_name s (elements text n)) (k s)
            ∙ ap (λ x. has_name s (texts_of a) || x) (l s)
            ∙ sym (has_name-append s (texts_of a) (texts_of b)),
      )

  -- Where no dictionary has an entry twice and every code is one of its dictionary, after codes of any
  -- dictionaries were added to new sets and sets were united, in any order, the count of a set is the length
  -- of a list of different texts: those of the codes added to it and to the sets united with it.
  pub count_lem :
      Injective text
      → (a : History) → InDicts a
      → (xs : List Bytes) × Distinct xs
        × ((s : Bytes) → has_name s xs ≡ has_name s (texts_of a))
        × (count (result a) ≡ length xs)
  count_lem inj a h =
      let (m, e, i, k) = result-elements a h in
      (elements text m, elements-Distinct text inj m i, k, ap count e ∙ count-elements text m)
