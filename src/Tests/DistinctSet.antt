-- ===== src/Tests/DistinctSet.antt =====
-- Distinct values of two small dictionaries.
use gokql.Base.{ℕ, ◌≡◌, refl, ◌+◌, none, some, [], ◌∷◌, List, true, false, length, arith, replicate}
use gokql.Base.Bytes.{Bytes, bytes_eq}
use gokql.Engine.Join.{has_name}
use gokql.Engine.Join.Names.{Distinct}
use gokql.Engine.DistinctSet.{Slice, empty_set, add_code, union_set, count}
use gokql.Engine.DistinctSet.Counts.{
  Injective, History, new, added, united, result, texts_of, count_lem,
}

-- Entry i of the dictionary at address a is the one byte a + i.
abbrev text : ℕ → ℕ → Bytes
text a i = (a + i) ∷ []

text-Injective : Injective text
text-Injective dict i j h k e =
    let same : dict.address + i ≡ dict.address + j = cc e in omega (arith, same)

abbrev small : Slice
small = record { address = 10; size = 3 }

abbrev large : Slice
large = record { address = 11; size = 1000 }

-- A code of a small dictionary makes a bitset at once.
one_code : add_code text empty_set small 1 ≡ record {
  str = none;
  num = none;
  dict = some small;
  codes = none;
  bits = some (false ∷ true ∷ replicate 62 false);
  nbits = 1;
}
unfolding add_code bytes_eq
one_code = refl

sparse_codes : count (result text (added (added (added new large 5) large 7) large 5)) ≡ 2
unfolding add_code count bytes_eq
sparse_codes = refl

-- Entries 1 and 2 of the one are entries 0 and 1 of the other.
abbrev some_small : History
some_small = added (added new small 1) small 2

abbrev some_large : History
some_large = added (added (added new large 0) large 1) large 9

shared_texts : result text (united some_small some_large) ≡ record {
  str = some ((11 ∷ []) ∷ (12 ∷ []) ∷ (20 ∷ []) ∷ []);
  num = none;
  dict = none;
  codes = none;
  bits = none;
  nbits = 0;
}
unfolding union_set add_code bytes_eq
shared_texts = refl

joined_bitsets : count (result text (united some_small (added (added new small 0) small 1))) ≡ 3
unfolding union_set add_code count bytes_eq
joined_bitsets = refl

count_example :
    (xs : List Bytes) × Distinct xs
    × ((s : Bytes) → has_name s xs ≡ has_name s (texts_of text (united some_small some_large)))
    × (count (result text (united some_small some_large)) ≡ length xs)
count_example =
    count_lem text text-Injective (united some_small some_large)
      (((tt, omega arith), omega arith), (((tt, omega arith), omega arith), omega arith))
