-- ===== src/Tests/Strings.antt =====
-- String operators and column patterns on short texts.
use gokql.Base.{
  ◌≡◌, ◌↔◌, refl, ℕ, ◌<◌, Bool, true, false, ◌&&◌, Option, none, some, [], ◌∷◌, length, leb, ◌+◌,
  map, if◌then◌else◌, arith,
}
use gokql.Base.Bytes.{Bytes, codes, bytes_eq}
use gokql.Base.Result.{ok, failed}
use gokql.Query.Expr.{op_has, op_eq, op_matches_regex, op_not_ends_with}
use gokql.Engine.Strings.{
  is_term_byte, is_string_op_family, has_term, has_term_prefix, has_term_suffix, fold,
  string_op_match, compile_string_matcher, like_pattern, not_string_operator, invalid_pattern,
}
use gokql.Engine.Strings.Terms.{Occurs, ends_free, starts_free, term_searches_lem}
use gokql.Engine.Strings.Matchers.{on_text, compile_string_matcher_lem}
use gokql.Engine.Wildcards.{wildcard_match}
use gokql.Engine.Wildcards.Greedy.{Fits, wildcard_match_lem}

-- Lower case of ASCII texts.
abbrev lower : Bytes → Bytes
lower s = map (λ c. if leb b'A' c && leb c b'Z' then c + 32 else c) s

-- A regexp package that knows patterns without operators, and refuses the empty one.
abbrev compile : Bytes → Option (Bytes → Bool)
compile [] = none
compile (c ∷ p) = some (λ s. bytes_eq (c ∷ p) s)

abbrev equal_fold : Bytes → Bytes → Bool
equal_fold a b = bytes_eq (lower a) (lower b)

whole_term : has_term lower (codes "Hello world") (codes "hello") false ≡ true
unfolding has_term is_term_byte
whole_term = refl

part_of_term : has_term lower (codes "hello world") (codes "hell") false ≡ false
unfolding has_term is_term_byte
part_of_term = refl

-- The second occurrence stands at the start of a term.
prefix_of_term : has_term_prefix lower (codes "midwest north-western") (codes "west") true ≡ true
unfolding has_term_prefix is_term_byte
prefix_of_term = refl

suffix_of_term : has_term_suffix lower (codes "erna western trail") (codes "ern") true ≡ true
unfolding has_term_suffix is_term_byte
suffix_of_term = refl

empty_term : string_op_match lower compile equal_fold op_has (codes "a") [] ≡ ok false
unfolding string_op_match
empty_term = refl

not_an_operator :
    compile_string_matcher lower compile equal_fold op_eq [] ≡ failed (not_string_operator op_eq)
unfolding compile_string_matcher is_string_op_family
not_an_operator = refl

refused_pattern :
    compile_string_matcher lower compile equal_fold op_matches_regex []
    ≡ failed (invalid_pattern [])
unfolding compile_string_matcher
refused_pattern = refl

-- A star becomes a point and a star, and a point is escaped.
like_text : like_pattern lower compile (codes "a*.?") ≡ codes "a.*\\.."
unfolding like_pattern
like_text = refl

middle_stars : wildcard_match (codes "a*b*c") (codes "axbxxbc") ≡ true
unfolding wildcard_match bytes_eq
middle_stars = refl

overlapping_ends : wildcard_match (codes "ab*ba") (codes "aba") ≡ false
unfolding wildcard_match bytes_eq
overlapping_ends = refl

wildcard_match_example :
    (wildcard_match (codes "a*b*c") (codes "axbxxbc") ≡ true)
    ↔ Fits (codes "a*b*c") (codes "axbxxbc")
wildcard_match_example = wildcard_match_lem (codes "a*b*c") (codes "axbxxbc")

lower-nonempty : (c : ℕ) (s : Bytes) → 0 < length (lower (c ∷ s))
lower-nonempty c s = omega arith

term_searches_example :
    ((has_term lower (codes "cmd.EXE") (codes "exe") false ≡ true)
      ↔ Occurs
          (λ before after. ends_free before && starts_free after)
          (fold lower false (codes "cmd.EXE"))
          (fold lower false (codes "exe")))
    × ((has_term_prefix lower (codes "cmd.EXE") (codes "exe") false ≡ true)
        ↔ Occurs
            (λ before after. ends_free before)
            (fold lower false (codes "cmd.EXE"))
            (fold lower false (codes "exe")))
    × ((has_term_suffix lower (codes "cmd.EXE") (codes "exe") false ≡ true)
        ↔ Occurs
            (λ before after. starts_free after)
            (fold lower false (codes "cmd.EXE"))
            (fold lower false (codes "exe")))
term_searches_example =
    term_searches_lem lower lower-nonempty false (codes "cmd.EXE") b'e' (codes "xe")

compile_string_matcher_example :
    on_text
      (compile_string_matcher lower compile equal_fold op_not_ends_with (codes "LD"))
      (codes "world")
    ≡ string_op_match lower compile equal_fold op_not_ends_with (codes "world") (codes "LD")
compile_string_matcher_example =
    compile_string_matcher_lem lower compile equal_fold op_not_ends_with (codes "LD")
      (codes "world")
