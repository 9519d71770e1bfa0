-- ===== src/Engine/Strings.antt =====
-- The string operators of pkg/engine/string_ops.go, with the searches of pkg/engine/eval.go.
pub mod Terms
pub mod Matchers
use gokql.Base.{
  ℕ, zero, suc, ◌+◌, Bool, true, false, not, ◌&&◌, ◌||◌, Option, none, some, List, [], ◌∷◌, ◌++◌,
  if◌then◌else◌, length, drop, get_or, any, leb, ◌==◌,
}
use gokql.Base.Bytes.{Bytes, codes}
use gokql.Base.Result.{Result, ok, failed}
use gokql.Base.Search.{starts_with, index_of_text, ends_with, contains}
use gokql.Query.Expr.{
  BinaryOp, op_contains, op_not_contains, op_has, op_not_has, op_starts_with, op_ends_with,
  op_contains_cs, op_not_contains_cs, op_has_cs, op_not_has_cs, op_starts_with_cs,
  op_not_starts_with, op_not_starts_with_cs, op_ends_with_cs, op_not_ends_with, op_not_ends_with_cs,
  op_matches_regex, op_ci_eq, op_ci_neq, op_like, op_not_like, op_has_prefix, op_not_has_prefix,
  op_has_prefix_cs, op_not_has_prefix_cs, op_has_suffix, op_not_has_suffix, op_has_suffix_cs,
  op_not_has_suffix_cs,
}

pub data StringError : Type 0 where
  invalid_pattern : Bytes → StringError
  not_string_operator : BinaryOp → StringError

unfoldable pub is_term_byte : ℕ → Bool
is_term_byte b = leb b'a' b && leb b b'z' || leb b'A' b && leb b b'Z' || leb b'0' b && leb b b'9'

-- The test on the byte before a position.
unfoldable pub starts_term : Bytes → ℕ → Bool
unfolding is_term_byte
starts_term s zero = true
starts_term s (suc p) = not (is_term_byte (get_or s p 0))

-- The test on the byte at the end of an occurrence.
unfoldable pub ends_term : Bytes → ℕ → Bool
unfolding is_term_byte
ends_term s e = e == length s || not (is_term_byte (get_or s e 0))

-- The loop of `hasTerm`, `hasTermPrefix` and `hasTermSuffix`: whether an occurrence from i on is accepted.
unfoldable pub find_term : (ℕ → Bool) → Bytes → Bytes → ℕ → ℕ → Bool
unfolding index_of_text
find_term accepts s term zero i = false
find_term accepts s term (suc fuel) i = elim (index_of_text term (drop i s)) [
  | none ↦ false
  | some idx ↦ elim (accepts (i + idx)) [
    | true ↦ true
    | false ↦ find_term accepts s term fuel (suc (i + idx))
  ]
]

unfoldable pub is_string_operator : BinaryOp → Bool
is_string_operator op = elim op [
  | op_contains ↦ true
  | op_not_contains ↦ true
  | op_contains_cs ↦ true
  | op_not_contains_cs ↦ true
  | op_has ↦ true
  | op_not_has ↦ true
  | op_has_cs ↦ true
  | op_not_has_cs ↦ true
  | op_starts_with ↦ true
  | op_not_starts_with ↦ true
  | op_starts_with_cs ↦ true
  | op_not_starts_with_cs ↦ true
  | op_ends_with ↦ true
  | op_not_ends_with ↦ true
  | op_ends_with_cs ↦ true
  | op_not_ends_with_cs ↦ true
  | op_has_prefix ↦ true
  | op_not_has_prefix ↦ true
  | op_has_prefix_cs ↦ true
  | op_not_has_prefix_cs ↦ true
  | op_has_suffix ↦ true
  | op_not_has_suffix ↦ true
  | op_has_suffix_cs ↦ true
  | op_not_has_suffix_cs ↦ true
  | op_like ↦ true
  | op_not_like ↦ true
  | op_matches_regex ↦ true
  | _ ↦ false
]

unfoldable pub is_string_op_family : BinaryOp → Bool
unfolding is_string_operator
is_string_op_family op =
    is_string_operator op || elim op [ op_ci_eq ↦ true | op_ci_neq ↦ true | _ ↦ false ]

-- With `strings.ToLower`.
module _ (lower : Bytes → Bytes) where
  abbrev pub fold : Bool → Bytes → Bytes
  fold case_sensitive s = if case_sensitive then s else lower s

  unfoldable pub has_term : Bytes → Bytes → Bool → Bool
  unfolding find_term starts_term ends_term
  has_term s [] case_sensitive = false
  has_term s (c ∷ t) case_sensitive =
      let text = fold case_sensitive s in
      let term = fold case_sensitive (c ∷ t) in
      find_term (λ pos. starts_term text pos && ends_term text (pos + length term)) text term
        (suc (length text)) 0

  unfoldable pub has_term_prefix : Bytes → Bytes → Bool → Bool
  unfolding find_term starts_term
  has_term_prefix s [] case_sensitive = false
  has_term_prefix s (c ∷ t) case_sensitive =
      let text = fold case_sensitive s in
      let term = fold case_sensitive (c ∷ t) in
      find_term (λ pos. starts_term text pos) text term (suc (length text)) 0

  unfoldable pub has_term_suffix : Bytes → Bytes → Bool → Bool
  unfolding find_term ends_term
  has_term_suffix s [] case_sensitive = false
  has_term_suffix s (c ∷ t) case_sensitive =
      let text = fold case_sensitive s in
      let term = fold case_sensitive (c ∷ t) in
      find_term (λ pos. ends_term text (pos + length term)) text term (suc (length text)) 0

  -- With `regexp.Compile`, which gives the test of `MatchString`.
  module _ (compile : Bytes → Option (Bytes → Bool)) where
    unfoldable pub like_pattern : Bytes → Bytes
    like_pattern [] = []
    like_pattern (c ∷ p) =
        let rest = like_pattern p in
        if c == b'*'
        then codes ".*" ++ rest
        else if c == b'?'
        then b'.' ∷ rest
        else if any (λ d. c == d) (codes ".+()[]{}^$|\\")
        then 92 ∷ c ∷ rest
        else c ∷ rest

    unfoldable pub match_like : Bytes → Bytes → Bool → Bool
    unfolding like_pattern
    match_like s pattern case_sensitive =
        elim (compile (b'^' ∷ like_pattern (fold case_sensitive pattern) ++ codes "$")) [
          | none ↦ false
          | some matches ↦ matches (fold case_sensitive s)
        ]

    -- With `strings.EqualFold`.
    module _ (equal_fold : Bytes → Bytes → Bool) where
      unfoldable pub string_op_match : BinaryOp → Bytes → Bytes → Result StringError Bool
      unfolding contains starts_with ends_with has_term has_term_prefix has_term_suffix match_like
      string_op_match op_contains ls rs = ok (contains (lower rs) (lower ls))
      string_op_match op_not_contains ls rs = ok (not (contains (lower rs) (lower ls)))
      string_op_match op_contains_cs ls rs = ok (contains rs ls)
      string_op_match op_not_contains_cs ls rs = ok (not (contains rs ls))
      string_op_match op_has ls rs = ok (has_term ls rs false)
      string_op_match op_not_has ls rs = ok (not (has_term ls rs false))
      string_op_match op_has_cs ls rs = ok (has_term ls rs true)
      string_op_match op_not_has_cs ls rs = ok (not (has_term ls rs true))
      string_op_match op_starts_with ls rs = ok (starts_with (lower rs) (lower ls))
      string_op_match op_not_starts_with ls rs = ok (not (starts_with (lower rs) (lower ls)))
      string_op_match op_starts_with_cs ls rs = ok (starts_with rs ls)
      string_op_match op_not_starts_with_cs ls rs = ok (not (starts_with rs ls))
      string_op_match op_ends_with ls rs = ok (ends_with (lower rs) (lower ls))
      string_op_match op_not_ends_with ls rs = ok (not (ends_with (lower rs) (lower ls)))
      string_op_match op_ends_with_cs ls rs = ok (ends_with rs ls)
      string_op_match op_not_ends_with_cs ls rs = ok (not (ends_with rs ls))
      string_op_match op_matches_regex ls rs = elim (compile rs) [
        | none ↦ failed (invalid_pattern rs)
        | some matches ↦ ok (matches ls)
      ]
      string_op_match op_ci_eq ls rs = ok (equal_fold ls rs)
      string_op_match op_ci_neq ls rs = ok (not (equal_fold ls rs))
      string_op_match op_like ls rs = ok (match_like ls rs false)
      string_op_match op_not_like ls rs = ok (not (match_like ls rs false))
      string_op_match op_has_prefix ls rs = ok (has_term_prefix ls rs false)
      string_op_match op_not_has_prefix ls rs = ok (not (has_term_prefix ls rs false))
      string_op_match op_has_prefix_cs ls rs = ok (has_term_prefix ls rs true)
      string_op_match op_not_has_prefix_cs ls rs = ok (not (has_term_prefix ls rs true))
      string_op_match op_has_suffix ls rs = ok (has_term_suffix ls rs false)
      string_op_match op_not_has_suffix ls rs = ok (not (has_term_suffix ls rs false))
      string_op_match op_has_suffix_cs ls rs = ok (has_term_suffix ls rs true)
      string_op_match op_not_has_suffix_cs ls rs = ok (not (has_term_suffix ls rs true))
      string_op_match op ls rs = failed (not_string_operator op)

      unfoldable pub compile_string_matcher : BinaryOp → Bytes → Result StringError (Bytes → Bool)
      unfolding string_op_match is_string_op_family contains starts_with ends_with
      compile_string_matcher op rs =
          let lrs = lower rs in
          elim op [
            | op_contains ↦ ok (λ s. contains lrs (lower s))
            | op_not_contains ↦ ok (λ s. not (contains lrs (lower s)))
            | op_starts_with ↦ ok (λ s. starts_with lrs (lower s))
            | op_not_starts_with ↦ ok (λ s. not (starts_with lrs (lower s)))
            | op_ends_with ↦ ok (λ s. ends_with lrs (lower s))
            | op_not_ends_with ↦ ok (λ s. not (ends_with lrs (lower s)))
            | op_matches_regex ↦ elim (compile rs) [
              | none ↦ failed (invalid_pattern rs)
              | some matches ↦ ok matches
            ]
            | other ↦
                if not (is_string_op_family other)
                then failed (not_string_operator other)
                else ok (λ s. elim (string_op_match other s rs) [
                  | ok matched ↦ matched
                  | failed e ↦ false
                ])
          ]
