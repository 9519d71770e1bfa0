-- ===== src/Catalog/Names.antt =====
-- The names of extent files: what `extentPath` writes, discovery reads back, and nothing else.
use gokql.Base.{
  ℕ, zero, suc, ◌+◌, ◌-◌, ◌≡◌, ◌≢◌, refl, sym, ap, ◌∙◌, inl, inr, true, none, some, [], ◌∷◌, ◌++◌,
  leb, arith, length, take, drop, Option-cases, length-append,
}
use mathlib.Core.List.{append_assoc}
use gokql.Base.Bytes.{Bytes, codes, bytes_eq, bytes_eq_iff}
use gokql.Catalog.Discover.{
  strip_vtx, split_last_underscore, is_id_digit, all_id_digits, split_id, parse_extent_name,
  extent_file_name,
}

drop-length_append : (xs ys : Bytes) → drop (length xs) (xs ++ ys) ≡ ys
drop-length_append [] ys = refl
drop-length_append (x ∷ xs) ys = drop-length_append xs ys

take-length_append : (xs ys : Bytes) → take (length xs) (xs ++ ys) ≡ xs
take-length_append [] ys = refl
take-length_append (x ∷ xs) ys = ap (λ (r : Bytes). x ∷ r) (take-length_append xs ys)

take_append_drop : (n : ℕ) (xs : Bytes) → take n xs ++ drop n xs ≡ xs
take_append_drop zero xs = refl
take_append_drop (suc n) [] = refl
take_append_drop (suc n) (x ∷ xs) = ap (λ (r : Bytes). x ∷ r) (take_append_drop n xs)

strip_vtx-append : (name : Bytes) → strip_vtx (name ++ codes ".vtx") ≡ some name
unfolding strip_vtx bytes_eq
strip_vtx-append name =
    let n : length (name ++ codes ".vtx") ≡ length name + 4 = length-append name (codes ".vtx") in
    let m : length name + 4 - 4 ≡ length name = omega arith in
    let big : leb 4 (length name + 4) ≡ true = ground arith in
    rw (n, m, drop-length_append name (codes ".vtx"), take-length_append name (codes ".vtx"), big)
      refl

-- Digits hold no underscore.
split-digits : (s : Bytes) → all_id_digits s ≡ true → split_last_underscore s ≡ none
unfolding split_last_underscore all_id_digits is_id_digit
split-digits [] h = refl
split-digits (c ∷ s) h = rw (split-digits s (ground arith)) (ground arith)

split-append :
    (table id : Bytes)
    → all_id_digits id ≡ true
    → split_last_underscore (table ++ b'_' ∷ id) ≡ some (table, id)
unfolding split_last_underscore
split-append [] id h = rw (split-digits id h) refl
split-append (c ∷ table) id h = rw (split-append table id h) refl

split_id-append :
    (c d : ℕ) (table id : Bytes)
    → all_id_digits (d ∷ id) ≡ true
    → split_id ((c ∷ table) ++ b'_' ∷ d ∷ id) ≡ some (c ∷ table, d ∷ id)
unfolding split_id
split_id-append c d table id h = rw (split-append (c ∷ table) (d ∷ id) h, split_id, h) refl

-- A file name written for a non-empty table name, with underscores or not, and a non-empty id of
-- lower-case hexadecimal digits is read back as that table and that id.
pub parse-extent_file_name :
    (table id : Bytes)
    → table ≢ []
    → id ≢ []
    → all_id_digits id ≡ true
    → parse_extent_name (extent_file_name table id) ≡ some (table, id)
unfolding parse_extent_name extent_file_name
parse-extent_file_name [] id ht hi h = absurd (ht refl)
parse-extent_file_name (c ∷ table) [] ht hi h = absurd (hi refl)
parse-extent_file_name (c ∷ table) (d ∷ id) ht hi h =
    let regroup : (c ∷ table) ++ b'_' ∷ ((d ∷ id) ++ codes ".vtx")
        ≡ ((c ∷ table) ++ b'_' ∷ d ∷ id) ++ codes ".vtx" =
      sym (append_assoc (c ∷ table) (b'_' ∷ d ∷ id) (codes ".vtx")) in
    rw (regroup, parse_extent_name, strip_vtx-append ((c ∷ table) ++ b'_' ∷ d ∷ id))
      (split_id-append c d table id h)

strip_vtx-eq_some : (base name : Bytes) → strip_vtx base ≡ some name → base ≡ name ++ codes ".vtx"
unfolding strip_vtx
strip_vtx-eq_some base name h =
    let n = length base - 4 in
    ground (arith, bytes_eq_iff (drop n base) (codes ".vtx"), take_append_drop n base)

split-eq_some :
    (s before after : Bytes)
    → split_last_underscore s ≡ some (before, after)
    → s ≡ before ++ b'_' ∷ after
unfolding split_last_underscore
split-eq_some [] before after h = cc
split-eq_some (c ∷ s) before after h = elim (Option-cases (split_last_underscore s)) [
  | inl no_more ↦ ground arith
  | inr ((b, a), more) ↦ ground (arith, split-eq_some s b a more)
]

split_id-eq_some :
    (name table id : Bytes)
    → split_id name ≡ some (table, id)
    → (name ≡ table ++ b'_' ∷ id) × (table ≢ []) × (id ≢ []) × (all_id_digits id ≡ true)
unfolding split_id
split_id-eq_some name table id h = elim (Option-cases (split_last_underscore name)) [
  | inl no_more ↦ ground arith
  | inr ((b, a), more) ↦ ground (arith, split-eq_some name b a more)
]

-- Discovery takes a file as an extent only where its name is the one written for the table and the
-- id that are read from it; the table is then not empty, and the id is made of digits.
pub parse_extent_name-eq_some :
    (base table id : Bytes)
    → parse_extent_name base ≡ some (table, id)
    → (base ≡ extent_file_name table id) × (table ≢ []) × (id ≢ []) × (all_id_digits id ≡ true)
unfolding parse_extent_name extent_file_name
parse_extent_name-eq_some base table id h = elim (Option-cases (strip_vtx base)) [
  | inl bad ↦ ground arith
  | inr (name, good) ↦
      let (named, ht, hi, hd) = split_id-eq_some name table id (ground arith) in
      (
        strip_vtx-eq_some base name good
            ∙ ap (λ (r : Bytes). r ++ codes ".vtx") named
            ∙ append_assoc table (b'_' ∷ id) (codes ".vtx"),
        ht,
        hi,
        hd,
      )
]
