-- ===== src/Gql/Lexer/Widths.antt =====
-- How many bytes the parts of a token take, and what the tests of pkg/gql/lexer.go say of a byte.
use mathlib.Core.Path.{subst}
use gokql.Base.{
  ℕ, zero, suc, ◌+◌, ◌-◌, ◌≤◌, ◌≡◌, ◌⊎◌, any, inl, inr, refl, Bool, true, false, ◌||◌, Option, none,
  some, List, [], ◌∷◌, ◌==◌, length, take, drop, All, arith, Option-cases, Bool-cases,
}
use gokql.Base.Search.{starts_with, index_of_text}
use gokql.Base.Bytes.{Bytes}
use gokql.Gql.Lexer.{
  int, float, is_digit, is_blank, count_while, head_is, number_mantissa, exponent_sign, number,
  multi_punct, first_prefix, one_of,
}

pub nowhere-starts :
    (t : Bytes)
    → 1 ≤ length t
    → (s : Bytes) → index_of_text t s ≡ none
    → (j : ℕ) → starts_with t (drop j s) ≡ false
unfolding index_of_text starts_with
nowhere-starts [] h s e j = absurd (omega arith)
nowhere-starts (c ∷ t) h [] e zero = refl
nowhere-starts (c ∷ t) h [] e (suc j) = refl
nowhere-starts (c ∷ t) h (d ∷ s) e j = elim (Bool-cases (starts_with (c ∷ t) (d ∷ s))) [
  | inl here ↦ absurd (none-some (rw (index_of_text, here) at e))
  | inr further ↦ elim (Option-cases (index_of_text (c ∷ t) s)) [
    | inr (i, found) ↦ absurd (none-some (rw (index_of_text, further, found) at e))
    | inl nowhere ↦ later j further (nowhere-starts (c ∷ t) h s nowhere)
  ]
]
  where
    none-some : {i : ℕ} → ◌≡◌ {A = Option ℕ} (some i) none → ⊥
    none-some p = cc

    later :
        (j : ℕ)
        → starts_with (c ∷ t) (d ∷ s) ≡ false
        → ((j : ℕ) → starts_with (c ∷ t) (drop j s) ≡ false)
        → starts_with (c ∷ t) (drop j (d ∷ s)) ≡ false
    later zero further rec = further
    later (suc j) further rec = rec j

pub one_of-any : (ds : Bytes) (c : ℕ) → one_of ds c ≡ any (λ d. c == d) ds
unfolding one_of
one_of-any [] c = refl
one_of-any (d ∷ ds) c = ground (arith, one_of-any ds c)

pub quote-cases : (c : ℕ) → (c == 39 || c == 34) ≡ true → (c ≡ 39) ⊎ (c ≡ 34)
quote-cases c h = elim (Bool-cases (c == 39)) [
  | inl single ↦ inl (ground arith)
  | inr other ↦ inr (ground arith)
]

pub count_while-le : (p : ℕ → Bool) (s : Bytes) → count_while p s ≤ length s
unfolding count_while
count_while-le p [] = omega arith
count_while-le p (c ∷ s) = ground (arith, count_while-le p s)

pub count_while_pos : (p : ℕ → Bool) (c : ℕ) (s : Bytes) → p c ≡ true → 1 ≤ count_while p (c ∷ s)
unfolding count_while
count_while_pos p c s h = ground arith

pub length-drop : (n : ℕ) (s : Bytes) → length (drop n s) ≡ length s - n
length-drop zero s = omega arith
length-drop (suc n) [] = omega arith
length-drop (suc n) (c ∷ s) = omega (arith, length-drop n s)

head_is_pos : (p : ℕ → Bool) (s : Bytes) → head_is p s ≡ true → 1 ≤ length s
unfolding head_is
head_is_pos p [] h = cc
head_is_pos p (c ∷ s) h = omega arith

pub starts_with-take :
    (p s : Bytes) → starts_with p s ≡ true → (take (length p) s ≡ p) × (length p ≤ length s)
unfolding starts_with
starts_with-take [] s h = (refl, omega arith)
starts_with-take (d ∷ p) [] h = cc
starts_with-take (d ∷ p) (c ∷ s) h = ground (arith, starts_with-take p s)

pub index_of_text-le : (t s : Bytes) (e : ℕ) → index_of_text t s ≡ some e → e + length t ≤ length s
unfolding index_of_text
index_of_text-le t [] e h = ground (arith, starts_with-take t [])
index_of_text-le t (c ∷ s) e h = elim (Option-cases (index_of_text t s)) [
  | inl nowhere ↦ ground (arith, starts_with-take t (c ∷ s))
  | inr (i, found) ↦ ground (arith, starts_with-take t (c ∷ s), index_of_text-le t s i)
]

-- What the number scanner takes: the digits at least, and no more than there is.
number_mantissa_bounds :
    (s : Bytes)
    → (count_while is_digit s ≤ (number_mantissa s).0) × ((number_mantissa s).0 ≤ length s)
unfolding number_mantissa
number_mantissa_bounds s =
    let n = count_while is_digit s in
    ground (
      arith,
      count_while-le is_digit s,
      length-drop n s,
      head_is_pos (λ c. c == b'.') (drop n s),
      count_while-le is_digit (drop 1 (drop n s)),
      length-drop 1 (drop n s),
    )

pub number_bounds :
    (s : Bytes) → (count_while is_digit s ≤ (number s).0) × ((number s).0 ≤ length s)
unfolding number
number_bounds s =
    let n = (number_mantissa s).0 in
    let rest = drop n s in
    let j = 1 + exponent_sign (drop 1 rest) in
    ground (
      arith,
      number_mantissa_bounds s,
      length-drop n s,
      length-drop j rest,
      head_is_pos is_digit (drop j rest),
      count_while-le is_digit (drop j rest),
    )

pub number_kind : (s : Bytes) → ((number s).1 ≡ int) ⊎ ((number s).1 ≡ float)
unfolding number number_mantissa
number_kind s = ground arith

pub first_prefix-All :
    (ps : List Bytes) (s m : Bytes)
    → All (λ p. 1 ≤ length p) ps
    → first_prefix ps s ≡ some m
    → (starts_with m s ≡ true) × (1 ≤ length m)
unfolding first_prefix
first_prefix-All [] s m h e = cc
first_prefix-All (p ∷ ps) s m h e = elim (Bool-cases (starts_with p s)) [
  | inl here ↦
      let same : p ≡ m = ground arith in
      subst (λ q. (starts_with q s ≡ true) × (1 ≤ length q)) same (here, h.0)
  | inr further ↦ first_prefix-All ps s m h.1 (rw (further, first_prefix) at e)
]

pub multi_punct-All : All (λ p. 1 ≤ length p) multi_punct
unfolding multi_punct
multi_punct-All = omega arith

pub blank-cases : (c : ℕ) → is_blank c ≡ true → (c ≡ 32) ⊎ (c ≡ 9) ⊎ (c ≡ 10) ⊎ (c ≡ 13)
unfolding is_blank
blank-cases c h = elim (Bool-cases (c == 32)) [
  | inl e ↦ inl (ground arith)
  | inr not_space ↦ elim (Bool-cases (c == 9)) [
    | inl e ↦ inr (inl (ground arith))
    | inr not_tab ↦ elim (Bool-cases (c == 10)) [
      | inl e ↦ inr (inr (inl (ground arith)))
      | inr not_newline ↦ inr (inr (inr (ground arith)))
    ]
  ]
]
