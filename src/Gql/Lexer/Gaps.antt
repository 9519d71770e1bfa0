-- ===== src/Gql/Lexer/Gaps.antt =====
-- What pkg/gql/lexer.go passes over between tokens: blanks and comments.
use gokql.Base.{
  ℕ, zero, suc, ◌+◌, ◌<◌, ◌≡◌, ◌⊎◌, inl, inr, refl, true, false, Bool-cases, Option-cases, some, [],
  ◌∷◌, ◌==◌, if◌then◌else◌, any, take, drop, get_elem?, arith,
}
use gokql.Base.Search.{starts_with, index_of_text}
use gokql.Base.Bytes.{Bytes, codes}
use gokql.Gql.Lexer.{count_while}

-- The first `n` bytes of `s` are a blank, a comment up to the end of the line or of the source, or a
-- comment up to the first `*/` behind its opening.
abbrev pub IsSkipped : ℕ → Bytes → Type 0
IsSkipped n s =
    ((n ≡ 1)
      × (c : ℕ) × (rest : Bytes) × (s ≡ c ∷ rest)
      × ((c ≡ 32) ⊎ (c ≡ 9) ⊎ (c ≡ 10) ⊎ (c ≡ 13)))
    ⊎ ((starts_with (codes "//") s ≡ true)
        × (any (λ d. d == 10) (take n s) ≡ false)
        × ((drop n s ≡ []) ⊎ (get_elem? (drop n s) 0 ≡ some 10)))
    ⊎ ((e : ℕ) × (n ≡ e + 4)
        × (starts_with (codes "/*") s ≡ true)
        × (starts_with (codes "*/") (drop e (drop 2 s)) ≡ true)
        × ((j : ℕ) → j < e → starts_with (codes "*/") (drop j (drop 2 s)) ≡ false))

-- Nothing but blanks and comments from the one position to the other.
pub data Gap (src : Bytes) : ℕ → ℕ → Type 0 where
  no_bytes : {i : ℕ} → Gap src i i
  and_more : {i j : ℕ} (n : ℕ) → IsSkipped n (drop i src) → Gap src (i + n) j → Gap src i j

pub line_end :
    (s : Bytes)
    → (any (λ d. d == 10) (take (count_while (λ d. if d == 10 then false else true) s) s) ≡ false)
      × ((drop (count_while (λ d. if d == 10 then false else true) s) s ≡ [])
          ⊎ (get_elem? (drop (count_while (λ d. if d == 10 then false else true) s) s) 0 ≡ some 10))
unfolding count_while
line_end [] = (refl, inl refl)
line_end (c ∷ s) = elim (Bool-cases (c == 10)) [
  | inl ends ↦ let e : c ≡ 10 = ground arith in rw ends (refl, inr (ground arith))
  | inr further ↦ let (a, b) = line_end s in rw (further, further) (a, b)
]

pub found-starts :
    (t s : Bytes) (i : ℕ)
    → index_of_text t s ≡ some i
    → (starts_with t (drop i s) ≡ true) × ((j : ℕ) → j < i → starts_with t (drop j s) ≡ false)
unfolding index_of_text
found-starts t [] i e = elim (Bool-cases (starts_with t [])) [
  | inl p ↦ let k : i ≡ 0 = cc (rw p at e) in rw k (p, λ j l. absurd (omega arith))
  | inr p ↦ cc (rw p at e)
]
found-starts t (c ∷ s) i e = elim (Bool-cases (starts_with t (c ∷ s))) [
  | inl p ↦ let k : i ≡ 0 = cc (rw p at e) in rw k (p, λ j l. absurd (omega arith))
  | inr p ↦ elim (Option-cases (index_of_text t s)) [
    | inl q ↦ cc (rw (p, q) at e)
    | inr (m, q) ↦
        let (here, before) = found-starts t s m q in
        let k : i ≡ suc m = cc (rw (p, q) at e) in rw k (here, λ j l. earlier m p before j l)
  ]
]
  where
    earlier :
        (m : ℕ)
        → starts_with t (c ∷ s) ≡ false
        → ((j : ℕ) → j < m → starts_with t (drop j s) ≡ false)
        → (j : ℕ) → j < suc m
        → starts_with t (drop j (c ∷ s)) ≡ false
    earlier m p before zero l = p
    earlier m p before (suc j) l = before j (omega arith)
