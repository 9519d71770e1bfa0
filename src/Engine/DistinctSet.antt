-- ===== src/Engine/DistinctSet.antt =====
-- `distinctSet` of pkg/engine/columnar_agg.go: the distinct values that dcount has met.
pub mod Bits
pub mod Texts
pub mod Valid
pub mod Merging
pub mod Counts
pub mod Unions
use gokql.Base.{
  ℕ, zero, suc, ◌+◌, ◌*◌, ◌/◌, Bool, true, false, not, ◌&&◌, ◌||◌, Option, none, some, List, [],
  ◌∷◌, ◌++◌, map, if◌then◌else◌, length, get_or, set, replicate, any, ltb, ◌==◌,
}
use gokql.Base.Bytes.{Bytes, bytes_eq}
use gokql.Engine.Join.{has_name, or_nil, has}

-- A dictionary: where its entries stand, and how many there are.
pub record Slice : Type 0 where
  pub address : ℕ
  pub size : ℕ

-- A map to the empty struct is the list of its keys; the bitset is given by its bits.
pub record DistinctSet : Type 0 where
  pub str : Option (List Bytes)
  pub num : Option (List ℕ)
  pub dict : Option Slice
  pub codes : Option (List ℕ)
  pub bits : Option (List Bool)
  pub nbits : ℕ

abbrev pub empty_set : DistinctSet
empty_set = record { str = none; num = none; dict = none; codes = none; bits = none; nbits = 0 }

unfoldable pub same_backing : Slice → Slice → Bool
same_backing a b = a.size == b.size && (a.size == 0 || a.address == b.address)

abbrev pub put_text : Bytes → List Bytes → List Bytes
put_text s texts = if has_name s texts then texts else texts ++ s ∷ []

abbrev pub has_code : ℕ → List ℕ → Bool
has_code c codes = any (λ d. d == c) codes

abbrev pub put_code : ℕ → List ℕ → List ℕ
put_code c codes = if has_code c codes then codes else codes ++ c ∷ []

-- The codes whose bits are set, the first bit standing for i.
abbrev pub bit_codes : ℕ → List Bool → List ℕ
bit_codes i [] = []
bit_codes i (b ∷ bs) = let rest = bit_codes (suc i) bs in if b then i ∷ rest else rest

-- Without a bitset the source panics; the set is then left as it is.
unfoldable pub set_bit : DistinctSet → ℕ → DistinctSet
set_bit d code = elim (d.bits) [
  | none ↦ d
  | some b ↦
      if get_or b code false
      then d
      else record d { bits = some (set b code true); nbits = suc d.nbits }
]

unfoldable pub set_bits : DistinctSet → List ℕ → DistinctSet
unfolding set_bit
set_bits d [] = d
set_bits d (c ∷ cs) = set_bits (set_bit d c) cs

-- With the entries of the dictionaries, which are not written to.
module _ (text : ℕ → ℕ → Bytes) where
  abbrev pub put_texts : Slice → List ℕ → List Bytes → List Bytes
  put_texts dict [] texts = texts
  put_texts dict (c ∷ cs) texts = put_texts dict cs (put_text (text dict.address c) texts)

  unfoldable pub to_str : DistinctSet → DistinctSet
  unfolding bytes_eq
  to_str d = elim (d.dict) [
    | none ↦ record d { str = some (or_nil d.str) }
    | some dict ↦ record {
      str = some (
          put_texts dict (bit_codes 0 (or_nil d.bits))
            (put_texts dict (or_nil d.codes) (or_nil d.str)));
      num = d.num;
      dict = none;
      codes = none;
      bits = none;
      nbits = 0;
    }
  ]

  abbrev pub is_other : Option Slice → Slice → Bool
  unfolding same_backing
  is_other none dict = false
  is_other (some old) dict = not (same_backing old dict)

  unfoldable pub add_code : DistinctSet → Slice → ℕ → DistinctSet
  unfolding to_str is_other set_bit set_bits bytes_eq
  add_code d dict code = elim (has d.str || is_other d.dict dict) [
    | true ↦
        let d' = to_str d in
        record d' { str = some (put_text (text dict.address code) (or_nil d'.str)) }
    | false ↦
        let coded = record d { dict = some dict } in
        elim (d.bits) [
          | some b ↦ set_bit coded code
          | none ↦
              let codes = put_code code (or_nil d.codes) in
              elim (ltb dict.size (length codes * 128)) [
                | false ↦ record coded { codes = some codes }
                | true ↦
                    let zeros = replicate (64 * ((dict.size + 63) / 64)) false in
                    record (set_bits (record coded { codes = some codes; bits = some zeros })
                      codes) { codes = none }
              ]
        ]
  ]

abbrev pub or_bits : List Bool → List Bool → List Bool
or_bits [] ys = []
or_bits (x ∷ xs) [] = x ∷ xs
or_bits (x ∷ xs) (y ∷ ys) = (x || y) ∷ or_bits xs ys

abbrev pub put_all : List Bytes → List Bytes → List Bytes
put_all [] xs = xs
put_all (y ∷ ys) xs = put_all ys (put_text y xs)

abbrev pub put_numbers : List ℕ → List ℕ → List ℕ
put_numbers [] ns = ns
put_numbers (k ∷ ks) ns = put_numbers ks (put_code k ns)

-- `union`, of which only the receiver is given.
module _ (text : ℕ → ℕ → Bytes) where
  unfoldable pub leave_codes : DistinctSet → DistinctSet
  unfolding to_str
  leave_codes d = elim (has d.dict) [ false ↦ d | true ↦ to_str text d ]

  -- The part behind the coded cases, on sets that are not coded.
  unfoldable pub merge_plain : DistinctSet → DistinctSet → DistinctSet
  unfolding bytes_eq
  merge_plain d src = record d {
    str = elim (d.str) [ none ↦ src.str | some xs ↦ some (put_all (or_nil src.str) xs) ];
    num = elim (d.num) [ none ↦ src.num | some ns ↦ some (put_numbers (or_nil src.num) ns) ];
  }

  unfoldable pub merge_texts : DistinctSet → DistinctSet → DistinctSet
  unfolding leave_codes merge_plain
  merge_texts d src = merge_plain (leave_codes d) (leave_codes src)

  abbrev pub add_list : DistinctSet → Slice → List ℕ → DistinctSet
  add_list d dict [] = d
  add_list d dict (c ∷ cs) = add_list (add_code text d dict c) dict cs

  -- The receiver's codes as a bitset of some length.
  unfoldable pub with_bits : DistinctSet → Slice → ℕ → DistinctSet
  unfolding set_bits
  with_bits d dict n = elim (d.bits) [
    | some b ↦ d
    | none ↦
        record (set_bits (record d { dict = some dict; bits = some (replicate n false) })
          (or_nil d.codes)) { codes = none }
  ]

  unfoldable pub union_set : DistinctSet → DistinctSet → DistinctSet
  unfolding merge_texts add_code is_other with_bits
  union_set d src = elim (src.dict) [
    | none ↦ merge_texts d src
    | some dict ↦ elim (has d.str || is_other text d.dict dict) [
      | true ↦ merge_texts d src
      | false ↦
          let d1 = add_list d dict (or_nil src.codes) in
          elim (src.bits) [
            | none ↦ elim (has d1.str) [ false ↦ d1 | true ↦ merge_texts d1 src ]
            | some sb ↦
                let d2 = with_bits d1 dict (length sb) in
                let bs = or_bits (or_nil d2.bits) sb in
                elim (has d2.str) [
                  | false ↦ record d2 { bits = some bs; nbits = length (bit_codes 0 bs) }
                  | true ↦ merge_texts d2 src
                ]
          ]
    ]
  ]

unfoldable pub count : DistinctSet → ℕ
count d = length (or_nil d.str) + length (or_nil d.num) + length (or_nil d.codes) + d.nbits
