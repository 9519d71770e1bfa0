-- ===== src/Engine/DistinctSet/Merging.antt =====
-- Texts and bits of two sets put together (`distinctSet` of pkg/engine/columnar_agg.go).
use gokql.Base.{
  ℕ, suc, ◌<◌, ◌≡◌, refl, sym, ap, ◌∙◌, Bool, true, false, ◌||◌, List, [], ◌∷◌, map, if◌then◌else◌,
  length, All, arith,
}
use gokql.Base.Bytes.{Bytes, bytes_eq}
use gokql.Engine.Join.{has_name}
use gokql.Engine.Join.Names.{Distinct}
use gokql.Engine.DistinctSet.{put_text, bit_codes, or_bits, put_all}
use gokql.Engine.DistinctSet.Texts.{has_name-put_text, put_text-Distinct, or_false}

pub regroup : (x y z : Bool) → ((x || y) || z) ≡ (x || (if y then true else z))
regroup true y z = refl
regroup false true z = refl
regroup false false z = refl

pub has_name-put_all :
    (s : Bytes) (ys xs : List Bytes) → has_name s (put_all ys xs) ≡ (has_name s xs || has_name s ys)
has_name-put_all s [] xs = sym (or_false (has_name s xs))
has_name-put_all s (y ∷ ys) xs =
    has_name-put_all s ys (put_text y xs)
    ∙ ap (λ x. x || has_name s ys) (has_name-put_text s y xs)
    ∙ regroup (has_name s xs) (bytes_eq y s) (has_name s ys)

pub put_all-Distinct : (ys xs : List Bytes) → Distinct xs → Distinct (put_all ys xs)
put_all-Distinct [] xs d = d
put_all-Distinct (y ∷ ys) xs d = put_all-Distinct ys (put_text y xs) (put_text-Distinct y xs d)

pub has_name-or_bits :
    (f : ℕ → Bytes) (s : Bytes) (i : ℕ) (xs ys : List Bool)
    → length xs ≡ length ys
    → has_name s (map f (bit_codes i (or_bits xs ys)))
      ≡ (has_name s (map f (bit_codes i xs)) || has_name s (map f (bit_codes i ys)))
has_name-or_bits f s i [] [] h = refl
has_name-or_bits f s i [] (y ∷ ys) h = absurd (omega (arith, h))
has_name-or_bits f s i (x ∷ xs) [] h = absurd (omega (arith, h))
has_name-or_bits f s i (true ∷ xs) (true ∷ ys) h =
    rw (has_name-or_bits f s (suc i) xs ys (omega (arith, h))) (
      both (bytes_eq (f i) s) (has_name s (map f (bit_codes (suc i) xs)))
        (has_name s (map f (bit_codes (suc i) ys))))
  where
    both :
        (b x y : Bool)
        → (if b then true else (x || y)) ≡ ((if b then true else x) || (if b then true else y))
    both true x y = refl
    both false x y = refl
has_name-or_bits f s i (true ∷ xs) (false ∷ ys) h =
    rw (has_name-or_bits f s (suc i) xs ys (omega (arith, h))) (
      left (bytes_eq (f i) s) (has_name s (map f (bit_codes (suc i) xs)))
        (has_name s (map f (bit_codes (suc i) ys))))
  where
    left : (b x y : Bool) → (if b then true else (x || y)) ≡ ((if b then true else x) || y)
    left true x y = refl
    left false x y = refl
has_name-or_bits f s i (false ∷ xs) (true ∷ ys) h =
    rw (has_name-or_bits f s (suc i) xs ys (omega (arith, h))) (
      right (bytes_eq (f i) s) (has_name s (map f (bit_codes (suc i) xs)))
        (has_name s (map f (bit_codes (suc i) ys))))
  where
    right : (b x y : Bool) → (if b then true else (x || y)) ≡ (x || (if b then true else y))
    right true true y = refl
    right true false y = refl
    right false x y = refl
has_name-or_bits f s i (false ∷ xs) (false ∷ ys) h =
    has_name-or_bits f s (suc i) xs ys (omega (arith, h))

pub All-or_bits :
    (n i : ℕ) (xs ys : List Bool)
    → All (λ c. c < n) (bit_codes i xs)
    → All (λ c. c < n) (bit_codes i ys)
    → All (λ c. c < n) (bit_codes i (or_bits xs ys))
All-or_bits n i [] ys a b = tt
All-or_bits n i (x ∷ xs) [] a b = a
All-or_bits n i (true ∷ xs) (true ∷ ys) a b = (a.0, All-or_bits n (suc i) xs ys a.1 b.1)
All-or_bits n i (true ∷ xs) (false ∷ ys) a b = (a.0, All-or_bits n (suc i) xs ys a.1 b)
All-or_bits n i (false ∷ xs) (true ∷ ys) a b = (b.0, All-or_bits n (suc i) xs ys a b.1)
All-or_bits n i (false ∷ xs) (false ∷ ys) a b = All-or_bits n (suc i) xs ys a b

pub length-or_bits : (xs ys : List Bool) → length (or_bits xs ys) ≡ length xs
length-or_bits [] ys = refl
length-or_bits (x ∷ xs) [] = refl
length-or_bits (x ∷ xs) (y ∷ ys) = ap suc (length-or_bits xs ys)
