-- ===== src/Engine/DistinctSet/Valid.antt =====
-- What `distinctSet` (pkg/engine/columnar_agg.go) holds after any codes were added.
use gokql.Base.{
  ℕ, ◌+◌, ◌*◌, ◌/◌, ◌≤◌, ◌<◌, ◌≡◌, refl, sym, ap, ◌∙◌, inl, inr, Bool, true, false, ◌||◌,
  Bool-cases, none, some, List, [], ◌∷◌, map, if◌then◌else◌, length, set, length-set, replicate,
  length-replicate, ltb, All, All-imp, arith,
}
use gokql.Base.Bytes.{Bytes, bytes_eq}
use gokql.Engine.Join.{has_name, has}
use gokql.Engine.Join.Names.{Distinct}
use gokql.Engine.DistinctSet.{
  Slice, DistinctSet, empty_set, same_backing, put_text, put_code, bit_codes, put_texts, to_str,
  is_other, add_code, set_bits,
}
use gokql.Engine.DistinctSet.Bits.{
  Once, bit_codes-zeros, set_all, coded, set_bit-coded, set_bits-coded, has_name-set_bit,
  has_name-set_all, All-set_bit, All-set_all, length-set_all,
}
use gokql.Engine.DistinctSet.Texts.{
  if_self, or_false, has_name-put_text, put_text-Distinct, put_code-Once, put_code-All,
  has_name-put_code, same_backing-eq,
}

-- The state of a set of texts: not used yet, its texts, its codes, or its bits.
pub data Mode : Type 0 where
  unused : Mode
  texts : List Bytes → Mode
  sparse : Slice → List ℕ → Mode
  dense : Slice → List Bool → Mode

abbrev pub to_set : Mode → DistinctSet
to_set unused = empty_set
to_set (texts xs) = record {
  str = some xs;
  num = none;
  dict = none;
  codes = none;
  bits = none;
  nbits = 0;
}
to_set (sparse dict cs) = record {
  str = none;
  num = none;
  dict = some dict;
  codes = some cs;
  bits = none;
  nbits = 0;
}
to_set (dense dict bs) = coded dict none bs

abbrev pub InDict : Slice → List ℕ → Type 0
InDict dict cs = All (λ c. c < dict.size) cs

-- The bits of whole words.
abbrev pub words : Slice → ℕ
words dict = 64 * ((dict.size + 63) / 64)

abbrev pub IsMode : Mode → Type 0
IsMode unused = Unit
IsMode (texts xs) = Distinct xs
IsMode (sparse dict cs) = Once cs × InDict dict cs × (0 < dict.size)
IsMode (dense dict bs) = (length bs ≡ words dict) × InDict dict (bit_codes 0 bs) × (0 < dict.size)

module _ (text : ℕ → ℕ → Bytes) where
  abbrev pub elements : Mode → List Bytes
  elements unused = []
  elements (texts xs) = xs
  elements (sparse dict cs) = map (λ c. text dict.address c) cs
  elements (dense dict bs) = map (λ c. text dict.address c) (bit_codes 0 bs)

  -- The set after a text, or its code, was added.
  abbrev pub Adds : Mode → Bytes → DistinctSet → Type 0
  Adds m t d =
      (m' : Mode) × (d ≡ to_set m')
      × IsMode m'
      × ((s : Bytes) → has_name s (elements m') ≡ (has_name s (elements m) || bytes_eq t s))

  has_name-put_texts :
      (s : Bytes) (dict : Slice) (cs : List ℕ) (xs : List Bytes)
      → has_name s (put_texts text dict cs xs)
        ≡ (has_name s xs || has_name s (map (λ c. text dict.address c) cs))
  has_name-put_texts s dict [] xs = sym (or_false (has_name s xs))
  has_name-put_texts s dict (c ∷ cs) xs =
      has_name-put_texts s dict cs (put_text (text dict.address c) xs)
      ∙ ap (λ x. x || has_name s (map (λ c. text dict.address c) cs))
          (has_name-put_text s (text dict.address c) xs)
      ∙ regroup (has_name s xs) (bytes_eq (text dict.address c) s)
          (has_name s (map (λ c. text dict.address c) cs))
    where
      regroup : (x y z : Bool) → ((x || y) || z) ≡ (x || (if y then true else z))
      regroup true y z = refl
      regroup false true z = refl
      regroup false false z = refl

  put_texts-Distinct :
      (dict : Slice) (cs : List ℕ) (xs : List Bytes)
      → Distinct xs
      → Distinct (put_texts text dict cs xs)
  put_texts-Distinct dict [] xs d = d
  put_texts-Distinct dict (c ∷ cs) xs d =
      put_texts-Distinct dict cs (put_text (text dict.address c) xs)
        (put_text-Distinct (text dict.address c) xs d)

  -- Leaving coded mode keeps the elements.
  pub to_str-elements :
      (m : Mode)
      → IsMode m
      → (xs : List Bytes) × (to_str text (to_set m) ≡ to_set (texts xs))
        × Distinct xs
        × ((s : Bytes) → has_name s xs ≡ has_name s (elements m))
  unfolding to_str
  to_str-elements unused h = ([], refl, tt, λ s. refl)
  to_str-elements (texts xs) h = (xs, refl, h, λ s. refl)
  to_str-elements (sparse dict cs) h =
      (_, refl, put_texts-Distinct dict cs [] tt, λ s. has_name-put_texts s dict cs [])
  to_str-elements (dense dict bs) h = (
    _,
    refl,
    put_texts-Distinct dict (bit_codes 0 bs) [] tt,
    λ s. has_name-put_texts s dict (bit_codes 0 bs) [],
  )

  as_text :
      (m : Mode) (dict : Slice) (code : ℕ)
      → IsMode m
      → has ((to_set m).str) || is_other text ((to_set m).dict) dict ≡ true
      → Adds m (text dict.address code) (add_code text (to_set m) dict code)
  unfolding add_code
  as_text m dict code h other =
      let (xs, e, d, k) = to_str-elements m h in
      rw (add_code, other, e)
        (
          texts (put_text (text dict.address code) xs),
          refl,
          put_text-Distinct (text dict.address code) xs d,
          λ s.
              has_name-put_text s (text dict.address code) xs
              ∙ ap (λ x. x || bytes_eq (text dict.address code) s) (k s),
        )

  abbrev without_codes : DistinctSet → DistinctSet
  without_codes d = record d { codes = none }

  -- The codes of a set in coded mode without a bitset, which may turn into one.
  abbrev pub grown : Slice → List ℕ → DistinctSet
  unfolding set_bits
  grown dict cs = elim (ltb dict.size (length cs * 128)) [
    | false ↦ to_set (sparse dict cs)
    | true ↦
        let zeros = replicate (64 * ((dict.size + 63) / 64)) false in
        record (set_bits
          record {
            str = none;
            num = none;
            dict = some dict;
            codes = some cs;
            bits = some zeros;
            nbits = 0;
          }
          cs) { codes = none }
  ]

  grown-elements :
      (dict : Slice) (cs : List ℕ)
      → Once cs
      → InDict dict cs
      → 0 < dict.size
      → (m : Mode) × (grown dict cs ≡ to_set m)
        × IsMode m
        × ((s : Bytes) → has_name s (elements m) ≡ has_name s (map (λ c. text dict.address c) cs))
  unfolding grown
  grown-elements dict cs o a z = elim (Bool-cases (ltb dict.size (length cs * 128))) [
    | inr p ↦ (sparse dict cs, rw (grown, p) refl, (o, a, z), λ s. refl)
    | inl p ↦
        let n = 64 * ((dict.size + 63) / 64) in
        let zeros = replicate n false in
        let size : length zeros ≡ n = length-replicate n false in
        let wide : dict.size ≤ n = omega arith in
        let inside =
          All-imp (λ c. c < dict.size) (λ c. c < length zeros) cs
            (λ c h. omega (arith, h, size, wide)) a in
        let none_set : bit_codes 0 zeros ≡ [] = bit_codes-zeros n 0 in
        let start : coded dict (some cs) zeros ≡ record {
          str = none;
          num = none;
          dict = some dict;
          codes = some cs;
          bits = some zeros;
          nbits = 0;
        } =
          ap
            (λ k. record {
              str = none;
              num = none;
              dict = some dict;
              codes = some cs;
              bits = some zeros;
              nbits = length k;
            })
            none_set in
        (
          dense dict (set_all zeros cs),
          rw (grown, p)
              (ap without_codes (
                ap (λ d. set_bits d cs) (sym start)
                ∙ set_bits-coded dict (some cs) cs zeros inside)),
          (
            omega (arith, length-set_all cs zeros, size),
            All-set_all dict.size cs zeros a (rw none_set tt),
            z,
          ),
          λ s.
              has_name-set_all (λ c. text dict.address c) s cs zeros inside
              ∙ ap
                  (λ k.
                    has_name s (map (λ c. text dict.address c) k)
                    || has_name s (map (λ c. text dict.address c) cs))
                  none_set,
        )
  ]

  pub add_code-Adds :
      (m : Mode) (dict : Slice) (code : ℕ)
      → IsMode m
      → code < dict.size
      → Adds m (text dict.address code) (add_code text (to_set m) dict code)
  unfolding add_code
  add_code-Adds unused dict code h l =
      let (m, e, i, k) = grown-elements dict (code ∷ []) (refl, tt) (l, tt) (omega (arith, l)) in
      (m, e, i, λ s. k s ∙ if_self (bytes_eq (text dict.address code) s))
  add_code-Adds (texts xs) dict code h l = as_text (texts xs) dict code h refl
  add_code-Adds (sparse old cs) dict code (o, a, z) l = elim (Bool-cases (same_backing old dict)) [
    | inr p ↦ as_text (sparse old cs) dict code (o, a, z) (rw p refl)
    | inl p ↦
        let same : old ≡ dict = same_backing-eq old dict code l p in
        let inside : InDict dict cs = rw same at a in
        let (m, e, i, k) =
          grown-elements dict (put_code code cs) (put_code-Once code cs o)
            (put_code-All dict.size code cs l inside) (omega (arith, l)) in
        (
          m,
          rw (add_code, p) e,
          i,
          λ s. rw same (k s ∙ has_name-put_code (λ c. text dict.address c) s code cs),
        )
  ]
  add_code-Adds (dense old bs) dict code (w, a, z) l = elim (Bool-cases (same_backing old dict)) [
    | inr p ↦ as_text (dense old bs) dict code (w, a, z) (rw p refl)
    | inl p ↦
        let same : old ≡ dict = same_backing-eq old dict code l p in
        let inside : InDict dict (bit_codes 0 bs) = rw same at a in
        let sized : length bs ≡ words dict = rw same at w in
        let wide : dict.size ≤ length bs = omega (arith, sized) in
        let below : code < length bs = omega (arith, l, wide) in
        (
          dense dict (set bs code true),
          rw (add_code, p) (set_bit-coded dict none bs code below),
          (
            omega (arith, sized, length-set bs code true),
            All-set_bit dict.size bs 0 code (omega (arith, l)) inside,
            omega (arith, l),
          ),
          λ s.
              let from_zero : 0 + code ≡ code = omega arith in
              rw same
                (rw from_zero at (has_name-set_bit (λ c. text dict.address c) s bs 0 code below)),
        )
  ]
