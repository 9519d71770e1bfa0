-- ===== src/Gql/Lexer/Literals.antt =====
-- String literals of pkg/gql/lexer.go, by a relation: what stands in the source, what it means and
-- what is behind it.
use gokql.Base.{
  ℕ, suc, ◌+◌, ◌≤◌, ◌≡◌, ◌≢◌, inl, inr, refl, true, false, Bool-cases, Option, none, some, [], ◌∷◌,
  ◌==◌, length, drop, get_elem?, arith,
}
use gokql.Base.Bytes.{Bytes}
use gokql.Gql.Lexer.{add_char, read_string, unescape}

-- The byte that a byte behind a backslash stands for.
pub data Escape : ℕ → ℕ → Type 0 where
  newline : Escape b'n' 10
  tab : Escape b't' 9
  carriage_return : Escape b'r' 13
  itself : (c : ℕ) → c ≢ b'n' → c ≢ b't' → c ≢ b'r' → Escape c c

-- `Literal quote s text rest`: behind an opening quote, `s` continues with the literal of `text`, its
-- closing quote included, and then with `rest`.
pub data Literal (quote : ℕ) : Bytes → Bytes → Bytes → Type 0 where
  closing : (rest : Bytes) → get_elem? rest 0 ≢ some quote → Literal quote (quote ∷ rest) [] rest
  escaped :
      {c d : ℕ} {s text rest : Bytes}
      → Escape c d
      → Literal quote s text rest
      → Literal quote (b'\\' ∷ c ∷ s) (d ∷ text) rest
  doubled :
      {s text rest : Bytes}
      → Literal quote s text rest
      → Literal quote (quote ∷ quote ∷ s) (quote ∷ text) rest
  byte :
      (c : ℕ) {s text rest : Bytes}
      → c ≢ quote
      → c ≢ b'\\'
      → Literal quote s text rest
      → Literal quote (c ∷ s) (c ∷ text) rest

unescape-Escape : (c : ℕ) → Escape c (unescape c)
unfolding unescape
unescape-Escape c = elim (Bool-cases (c == b'n')) [
  | inl n ↦ let e : c ≡ b'n' = ground arith in rw e newline
  | inr not_n ↦ elim (Bool-cases (c == b't')) [
    | inl t ↦ let e : c ≡ b't' = ground arith in rw e tab
    | inr not_t ↦ elim (Bool-cases (c == b'r')) [
      | inl r ↦ let e : c ≡ b'r' = ground arith in rw e carriage_return
      | inr not_r ↦
          rw (unescape, not_n, not_t, not_r)
            (itself c (λ e. ground arith) (λ e. ground arith) (λ e. ground arith))
    ]
  ]
]

Escape-unescape : {c d : ℕ} → Escape c d → unescape c ≡ d
unfolding unescape
Escape-unescape newline = refl
Escape-unescape tab = refl
Escape-unescape carriage_return = refl
Escape-unescape (itself c n t r) =
    let not_n : (c == b'n') ≡ false = ground arith in
    let not_t : (c == b't') ≡ false = ground arith in
    let not_r : (c == b'r') ≡ false = ground arith in rw (unescape, not_n, not_t, not_r) refl

-- What is read is a literal, and takes a byte or more and no more than there is.
abbrev pub Reads : ℕ → Bytes → Option (Bytes × ℕ) → Type 0
Reads quote s none = Unit
Reads quote s (some (text, n)) = (1 ≤ n) × (n ≤ length s) × Literal quote s text (drop n s)

Reads-escaped :
    (quote d : ℕ) (s : Bytes) (r : Option (Bytes × ℕ))
    → Reads quote s r
    → Reads quote (b'\\' ∷ d ∷ s) (add_char (unescape d) 2 r)
unfolding add_char
Reads-escaped quote d s none h = tt
Reads-escaped quote d s (some (text, n)) (a, b, l) =
    let e : 2 + n ≡ suc (suc n) = omega arith in
    rw e (omega arith, omega arith, escaped (unescape-Escape d) l)

Reads-doubled :
    (quote : ℕ) (s : Bytes) (r : Option (Bytes × ℕ))
    → Reads quote s r
    → Reads quote (quote ∷ quote ∷ s) (add_char quote 2 r)
unfolding add_char
Reads-doubled quote s none h = tt
Reads-doubled quote s (some (text, n)) (a, b, l) =
    let e : 2 + n ≡ suc (suc n) = omega arith in rw e (omega arith, omega arith, doubled l)

Reads-byte :
    (quote c : ℕ) (s : Bytes) (r : Option (Bytes × ℕ))
    → c ≢ quote
    → c ≢ b'\\'
    → Reads quote s r
    → Reads quote (c ∷ s) (add_char c 1 r)
unfolding add_char
Reads-byte quote c s none h k l = tt
Reads-byte quote c s (some (text, n)) h k (a, b, l) =
    let e : 1 + n ≡ suc n = omega arith in rw e (omega arith, omega arith, byte c h k l)

pub read_string-Reads : (quote : ℕ) (s : Bytes) → Reads quote s (read_string quote s)
unfolding read_string
read_string-Reads quote [] = tt
read_string-Reads quote (c ∷ []) = elim (Bool-cases (c == quote)) [
  | inl done ↦
      let e : c ≡ quote = ground arith in
      rw (done, e) (omega arith, omega arith, closing [] (λ e. cc e))
  | inr open_end ↦ rw open_end tt
]
read_string-Reads quote (c ∷ d ∷ s) = elim (Bool-cases (c == b'\\')) [
  | inl backslash ↦
      let e : c ≡ b'\\' = ground arith in
      rw (read_string, backslash, e) (Reads-escaped quote d s _ (read_string-Reads quote s))
  | inr no_escape ↦ elim (Bool-cases (c == quote)) [
    | inr inner ↦
        rw (read_string, no_escape, inner)
          (Reads-byte quote c (d ∷ s) _ (λ e. ground arith) (λ e. ground arith)
            (read_string-Reads quote (d ∷ s)))
    | inl end ↦
        let e : c ≡ quote = ground arith in
        elim (Bool-cases (d == quote)) [
          | inr done ↦
              rw (read_string, no_escape, end, done, e)
                (omega arith, omega arith, closing (d ∷ s) (λ f. ground arith))
          | inl twice ↦
              let f : d ≡ quote = ground arith in
              rw (read_string, no_escape, end, twice, e, f)
                (Reads-doubled quote s _ (read_string-Reads quote s))
        ]
  ]
]

read_byte :
    (quote c : ℕ) (s text : Bytes) (n : ℕ)
    → c ≢ quote
    → c ≢ b'\\'
    → read_string quote s ≡ some (text, n)
    → read_string quote (c ∷ s) ≡ some (c ∷ text, 1 + n)
unfolding read_string add_char
read_byte quote c [] text n h k e = cc
read_byte quote c (d ∷ s) text n h k e =
    let inner : (c == quote) ≡ false = ground arith in
    let no_escape : (c == b'\\') ≡ false = ground arith in
    rw (read_string, no_escape, inner, e) refl

-- A literal is read.
pub Literal-read_string :
    {quote : ℕ} {s text rest : Bytes}
    → quote ≢ b'\\'
    → Literal quote s text rest
    → (n : ℕ) × (read_string quote s ≡ some (text, n))
unfolding read_string add_char
Literal-read_string {quote} q (closing [] h) =
    let end : (quote == quote) ≡ true = ground arith in (1, rw end refl)
Literal-read_string {quote} q (closing (d ∷ rest) h) =
    let end : (quote == quote) ≡ true = ground arith in
    let no_escape : (quote == b'\\') ≡ false = ground arith in
    let done : (d == quote) ≡ false = ground arith in
    (1, rw (read_string, no_escape, end, done) refl)
Literal-read_string {quote} q (escaped {c} e l) =
    let (n, found) = Literal-read_string q l in (2 + n, rw (found, Escape-unescape e) refl)
Literal-read_string {quote} q (doubled l) =
    let (n, found) = Literal-read_string q l in
    let end : (quote == quote) ≡ true = ground arith in
    let no_escape : (quote == b'\\') ≡ false = ground arith in
    (2 + n, rw (read_string, no_escape, end, end, found) refl)
Literal-read_string {quote} q (byte c h k l) =
    let (n, found) = Literal-read_string q l in (1 + n, read_byte quote c _ _ n h k found)
