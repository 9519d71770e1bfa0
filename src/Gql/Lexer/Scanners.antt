-- ===== src/Gql/Lexer/Scanners.antt =====
-- A round of the lexer takes a byte or more, and no more than there is.
use mathlib.Core.Path.{subst}
use gokql.Base.{
  ℕ, suc, ◌+◌, ◌-◌, ◌≤◌, ◌<◌, ◌≡◌, ◌⊎◌, ap, any, ◌∙◌, inl, inr, refl, sym, Bool, true, false, ◌||◌,
  ◌∷◌, if◌then◌else◌, ◌==◌, length, take, drop, arith, Option-cases, Bool-cases,
}
use gokql.Base.Search.{starts_with, index_of_text}
use gokql.Base.Bytes.{Bytes, codes}
use gokql.Gql.Lexer.{
  TokKind, eof, ident, quoted_ident, string, param, is_digit, is_ident_start, is_ident_char,
  is_blank, count_while, read_string, multi_punct, first_prefix, LexError, unterminated_comment,
  unterminated_string, unterminated_identifier, unexpected_character, Scan, skip, tok, fail,
  scan_comment, scan_string, scan_quoted, scan_punct, scan_number, is_punct, scan,
}
use gokql.Gql.Lexer.Gaps.{IsSkipped, line_end, found-starts}
use gokql.Gql.Lexer.Literals.{Literal, Reads, read_string-Reads, Literal-read_string}
use gokql.Gql.Lexer.Widths.{
  nowhere-starts, one_of-any, quote-cases, count_while-le, count_while_pos, length-drop,
  starts_with-take, index_of_text-le, number_bounds, number_kind, first_prefix-All, multi_punct-All,
  blank-cases,
}

-- What a token's text is, for `n` bytes taken from `s`.
abbrev pub TextOf : TokKind → Bytes → ℕ → Bytes → Type 0
TextOf eof text n s = ⊥
TextOf string text n s =
    (quote : ℕ) × (rest : Bytes) × (s ≡ quote ∷ rest)
    × ((quote ≡ 39) ⊎ (quote ≡ 34))
    × Literal quote rest text (drop n s)
TextOf param text n s = text ≡ take (n - 1) (drop 1 s)
TextOf quoted_ident text n s = text ≡ take (n - 2) (drop 1 s)
TextOf _ text n s = text ≡ take n s

-- What is wrong with `s`, which stands at position `start`.
abbrev pub IsWrong : LexError → ℕ → Bytes → Type 0
IsWrong unterminated_comment start s =
    (starts_with (codes "/*") s ≡ true)
    × ((j : ℕ) → starts_with (codes "*/") (drop j (drop 2 s)) ≡ false)
IsWrong (unterminated_string k) start s =
    (k ≡ start)
    × (quote : ℕ) × (rest : Bytes) × (s ≡ quote ∷ rest)
    × ((quote ≡ 39) ⊎ (quote ≡ 34))
    × ((text behind : Bytes) → Literal quote rest text behind → ⊥)
IsWrong unterminated_identifier start s =
    (rest : Bytes) × (s ≡ b'`' ∷ rest) × ((j : ℕ) → starts_with (codes "`") (drop j rest) ≡ false)
IsWrong (unexpected_character c k) start s =
    (k ≡ start)
    × (rest : Bytes) × (s ≡ c ∷ rest)
    × (c < 0x80)
    × (any (λ d. c == d) (codes "()[]{},.:;|&!?*+-/%=<>^~") ≡ false)

abbrev pub IsValid : ℕ → Scan → Bytes → Type 0
IsValid start (skip n) s = (1 ≤ n) × (n ≤ length s) × IsSkipped n s
IsValid start (tok kind text n) s = (1 ≤ n) × (n ≤ length s) × TextOf kind text n s
IsValid start (fail e) s = IsWrong e start s

-- Each scanner takes a byte or more, and no more than there is.
module _ (start c : ℕ) (s : Bytes) where
  comment-IsValid :
      starts_with (codes "/*") (c ∷ s) ≡ true → IsValid start (scan_comment (c ∷ s)) (c ∷ s)
  unfolding scan_comment
  comment-IsValid opening = elim (Option-cases (index_of_text (codes "*/") (drop 2 (c ∷ s)))) [
    | inl nowhere ↦
        rw (nowhere, IsValid)
          (opening, nowhere-starts (codes "*/") (omega arith) (drop 2 (c ∷ s)) nowhere)
    | inr (e, found) ↦
        let le = index_of_text-le (codes "*/") (drop 2 (c ∷ s)) e found in
        let (here, before) = found-starts (codes "*/") (drop 2 (c ∷ s)) e found in
        rw (found, IsValid)
          (
            omega arith,
            omega (arith, le, length-drop 2 (c ∷ s)),
            inr (inr (e, refl, opening, here, before)),
          )
  ]

  string-IsValid : (c == 39 || c == 34) ≡ true → IsValid start (scan_string start c s) (c ∷ s)
  unfolding scan_string
  string-IsValid quote = elim (Option-cases (read_string c s)) [
    | inl unterminated ↦
        let no_literal : (text behind : Bytes) → Literal c s text behind → ⊥ = λ text behind l.
          let (n, found) = Literal-read_string (λ e. ground arith) l in cc (found, unterminated) in
        rw (unterminated, IsValid) (refl, c, s, refl, quote-cases c quote, no_literal)
    | inr ((text, n), found) ↦
        let (a, b, l) = subst (Reads c s) found (read_string-Reads c s) in
        rw (found, IsValid) (omega arith, omega arith, (c, s, refl, quote-cases c quote, l))
  ]

  quoted-IsValid : (c == b'`') ≡ true → IsValid start (scan_quoted s) (c ∷ s)
  unfolding scan_quoted
  quoted-IsValid quote = elim (Option-cases (index_of_text (codes "`") s)) [
    | inl nowhere ↦
        let e : c ≡ b'`' = ground arith in
        rw (nowhere, IsValid)
          (s, ap (λ d. d ∷ s) e, nowhere-starts (codes "`") (omega arith) s nowhere)
    | inr (e, found) ↦
        let same : e + 2 - 2 ≡ e = omega arith in
        let le = index_of_text-le (codes "`") s e found in
        rw (found, IsValid) (omega arith, omega arith, rw same refl)
  ]

  number-IsValid : is_digit c ≡ true → IsValid start (scan_number (c ∷ s)) (c ∷ s)
  unfolding scan_number
  number-IsValid digit =
      let bounds = number_bounds (c ∷ s) in
      let some_digit = count_while_pos is_digit c s digit in
      elim (number_kind (c ∷ s)) [
        | inl k ↦ rw (k, IsValid) (omega arith, omega arith, refl)
        | inr k ↦ rw (k, IsValid) (omega arith, omega arith, refl)
      ]

  punct-IsValid : is_ident_start c ≡ false → IsValid start (scan_punct start c s) (c ∷ s)
  unfolding scan_punct is_punct is_ident_start
  punct-IsValid no_ident = elim (Bool-cases (is_punct c)) [
    | inr unexpected ↦
        let small : c < 0x80 = ground arith in
        rw (unexpected, IsValid)
          (refl, s, refl, small, sym (one_of-any (codes "()[]{},.:;|&!?*+-/%=<>^~") c) ∙ unexpected)
    | inl expected ↦ elim (Option-cases (first_prefix multi_punct (c ∷ s))) [
      | inl single ↦ rw (expected, single, IsValid) (omega arith, omega arith, refl)
      | inr (m, found) ↦
          let (starts, some_byte) = first_prefix-All multi_punct (c ∷ s) m multi_punct-All found in
          let (same, fits) = starts_with-take m (c ∷ s) starts in
          rw (expected, found, IsValid) (some_byte, fits, sym same)
    ]
  ]

  if-IsValid :
      (b : Bool) (x y : Scan)
      → (b ≡ true → IsValid start x (c ∷ s))
      → (b ≡ false → IsValid start y (c ∷ s))
      → IsValid start (if b then x else y) (c ∷ s)
  if-IsValid true x y hx hy = hx refl
  if-IsValid false x y hx hy = hy refl

  line-IsValid :
      starts_with (codes "//") (c ∷ s) ≡ true
      → IsValid start (skip (count_while (λ d. if d == 10 then false else true) (c ∷ s))) (c ∷ s)
  line-IsValid line =
      let slash : c ≡ b'/' = unfold starts_with in ground arith in
      (
        count_while_pos _ c s (rw slash refl),
        count_while-le (λ d. if d == 10 then false else true) (c ∷ s),
        inr (inl (line, (line_end (c ∷ s)).0, (line_end (c ∷ s)).1)),
      )

  ident-IsValid :
      is_ident_start c ≡ true
      → IsValid start
          (let n = count_while is_ident_char (c ∷ s) in tok ident (take n (c ∷ s)) n)
          (c ∷ s)
  ident-IsValid h = (
    count_while_pos is_ident_char c s (unfold is_ident_char in rw h refl),
    count_while-le is_ident_char (c ∷ s),
    refl,
  )

  param-IsValid :
      IsValid start (let n = count_while is_ident_char s in tok param (take n s) (suc n)) (c ∷ s)
  param-IsValid =
      let same : suc (count_while is_ident_char s) - 1 ≡ count_while is_ident_char s =
        omega arith in
      (omega arith, omega (arith, count_while-le is_ident_char s), rw same refl)

  -- A round takes a byte or more, and no more than there is; a token has the text of its bytes, and
  -- an error is due.
  pub scan-IsValid : IsValid start (scan start c s) (c ∷ s)
  unfolding scan
  scan-IsValid =
      let n = count_while is_ident_char (c ∷ s) in
      let m = count_while is_ident_char s in
      let line = skip (count_while (λ d. if d == 10 then false else true) (c ∷ s)) in
      let name = tok ident (take n (c ∷ s)) n in
      let parameter = tok param (take m s) (suc m) in
      let r1 = (if is_ident_start c then name else scan_punct start c s) in
      let r2 = (if is_digit c then scan_number (c ∷ s) else r1) in
      let r3 = (if c == b'$' then parameter else r2) in
      let r4 = (if c == b'`' then scan_quoted s else r3) in
      let r5 = (if c == 39 || c == 34 then scan_string start c s else r4) in
      let r6 = (if starts_with (codes "/*") (c ∷ s) then scan_comment (c ∷ s) else r5) in
      let r7 = (if starts_with (codes "//") (c ∷ s) then line else r6) in
      let v1 =
        if-IsValid (is_ident_start c) name (scan_punct start c s) ident-IsValid punct-IsValid in
      let v2 = if-IsValid (is_digit c) (scan_number (c ∷ s)) r1 number-IsValid (λ _. v1) in
      let v3 = if-IsValid (c == b'$') parameter r2 (λ _. param-IsValid) (λ _. v2) in
      let v4 = if-IsValid (c == b'`') (scan_quoted s) r3 quoted-IsValid (λ _. v3) in
      let v5 =
        if-IsValid (c == 39 || c == 34) (scan_string start c s) r4 string-IsValid (λ _. v4) in
      let v6 =
        if-IsValid (starts_with (codes "/*") (c ∷ s)) (scan_comment (c ∷ s)) r5 comment-IsValid
          (λ _. v5) in
      let v7 = if-IsValid (starts_with (codes "//") (c ∷ s)) line r6 line-IsValid (λ _. v6) in
      if-IsValid (is_blank c) (skip 1) r7
        (λ h. (omega arith, omega arith, inl (refl, c, s, refl, blank-cases c h))) (λ _. v7)
