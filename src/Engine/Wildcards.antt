-- ===== src/Engine/Wildcards.antt =====
-- `wildcardMatch` of pkg/engine/operators.go: column patterns in which a star stands for any text.
pub mod Greedy
use gokql.Base.{
  ℕ, ◌+◌, ◌-◌, Bool, true, false, not, ◌&&◌, Option, none, some, List, [], ◌∷◌, length,
  if◌then◌else◌, drop, leb, ◌==◌,
}
use gokql.Base.Bytes.{Bytes, bytes_eq}
use gokql.Base.Search.{starts_with, index_of_text, ends_with}

-- `strings.Split` at each star: the first part, and the others.
unfoldable pub split_stars : Bytes → Bytes × List Bytes
split_stars [] = ([], [])
split_stars (c ∷ p) =
    let (part, parts) = split_stars p in
    elim (c == b'*') [ true ↦ ([], part ∷ parts) | false ↦ (c ∷ part, parts) ]

-- The parts between the first and the last, found from a position on, and then the last part.
unfoldable pub match_parts : Bytes → ℕ → Bytes → List Bytes → Bool
unfolding index_of_text ends_with
match_parts name pos part [] = leb (length part) (length name - pos) && ends_with part name
match_parts name pos part (q ∷ qs) = elim (index_of_text part (drop pos name)) [
  | none ↦ false
  | some i ↦ match_parts name (pos + (i + length part)) q qs
]

-- With the pattern's first part and the others.
unfoldable pub match_split : Bytes → Bytes → Bytes → List Bytes → Bool
unfolding starts_with match_parts bytes_eq
match_split pattern name first [] = bytes_eq pattern name
match_split pattern name first (q ∷ qs) =
    if not (starts_with first name) then false else match_parts name (length first) q qs

unfoldable pub wildcard_match : Bytes → Bytes → Bool
unfolding split_stars match_split
wildcard_match pattern name =
    let (first, others) = split_stars pattern in match_split pattern name first others
