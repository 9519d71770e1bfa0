-- ===== src/Gql/Lexer.antt =====
-- pkg/gql/lexer.go. A scanner sees the rest of the source and returns how many bytes it takes.
pub mod Gaps
pub mod Literals
pub mod Scanners
pub mod Spans
pub mod Widths
use gokql.Base.{
  ℕ, zero, suc, ◌+◌, ◌-◌, Bool, true, false, ◌&&◌, ◌||◌, Option, none, some, List, [], ◌∷◌,
  if◌then◌else◌, leb, ◌==◌, length, take, drop,
}
use gokql.Base.Search.{starts_with, index_of_text}
use gokql.Base.Bytes.{Bytes, bytes_eq, codes}

pub data TokKind : Type 0 where
  eof ident quoted_ident string int float param punct : TokKind

pub record Token : Type 0 where
  pub kind : TokKind
  pub text : Bytes
  pub pos : ℕ
  pub end : ℕ

pub data LexError : Type 0 where
  unterminated_comment : LexError
  unterminated_string : ℕ → LexError
  unterminated_identifier : LexError
  unexpected_character : ℕ → ℕ → LexError

unfoldable pub is_digit : ℕ → Bool
is_digit c = leb b'0' c && leb c b'9'

-- `unicode.IsLetter` of a byte below 0x80; the bytes above are taken by the last test.
unfoldable pub is_ident_start : ℕ → Bool
is_ident_start c =
    c == b'_' || (leb b'A' c && leb c b'Z') || (leb b'a' c && leb c b'z') || leb 0x80 c

unfoldable pub is_ident_char : ℕ → Bool
unfolding is_ident_start is_digit
is_ident_char c = is_ident_start c || is_digit c

unfoldable pub is_blank : ℕ → Bool
is_blank c = c == 32 || c == 9 || c == 10 || c == 13

unfoldable pub count_while : (ℕ → Bool) → Bytes → ℕ
count_while p [] = 0
count_while p (c ∷ s) = let rest = count_while p s in if p c then suc rest else 0

unfoldable pub unescape : ℕ → ℕ
unescape c = if c == b'n' then 10 else if c == b't' then 9 else if c == b'r' then 13 else c

-- What a string literal reads: its decoded bytes and the bytes taken, behind `taken` more bytes.
unfoldable pub add_char : ℕ → ℕ → Option (Bytes × ℕ) → Option (Bytes × ℕ)
add_char c taken none = none
add_char c taken (some (text, n)) = some (c ∷ text, taken + n)

-- From behind the opening quote up to the closing quote, that one included.
unfoldable pub read_string : ℕ → Bytes → Option (Bytes × ℕ)
unfolding add_char unescape
read_string quote [] = none
read_string quote (c ∷ []) = if c == quote then some ([], 1) else none
read_string quote (c ∷ d ∷ s) = elim (c == b'\\') [
  | true ↦ add_char (unescape d) 2 (read_string quote s)
  | false ↦ elim (c == quote) [
    | true ↦ elim (d == quote) [
      | true ↦ add_char quote 2 (read_string quote s)
      | false ↦ some ([], 1)
    ]
    | false ↦ add_char c 1 (read_string quote (d ∷ s))
  ]
]

head_is : (ℕ → Bool) → Bytes → Bool
head_is p [] = false
head_is p (c ∷ s) = p c

-- The digits, and a point with digits behind it.
unfoldable pub number_mantissa : Bytes → ℕ × TokKind
unfolding count_while is_digit head_is
number_mantissa s =
    let n = count_while is_digit s in
    let rest = drop n s in
    if head_is (λ c. c == b'.') rest && head_is is_digit (drop 1 rest)
    then (n + 1 + count_while is_digit (drop 1 rest), float)
    else (n, int)

exponent_sign : Bytes → ℕ
unfolding head_is
exponent_sign s = if head_is (λ c. c == b'+' || c == b'-') s then 1 else 0

-- The exponent, if a digit stands in it.
unfoldable pub number : Bytes → ℕ × TokKind
unfolding number_mantissa exponent_sign head_is
number s =
    let (n, kind) = number_mantissa s in
    let rest = drop n s in
    let j = 1 + exponent_sign (drop 1 rest) in
    if head_is (λ c. c == b'e' || c == b'E') rest && head_is is_digit (drop j rest)
    then (n + j + count_while is_digit (drop j rest), float)
    else (n, kind)

pub multi_punct : List Bytes
multi_punct =
    codes "<>" ∷ codes "<=" ∷ codes ">=" ∷ codes "!=" ∷ codes "||" ∷ codes ".." ∷ codes "=~" ∷ []

pub first_prefix : List Bytes → Bytes → Option Bytes
unfolding starts_with
first_prefix [] s = none
first_prefix (p ∷ ps) s = let rest = first_prefix ps s in if starts_with p s then some p else rest

pub one_of : Bytes → ℕ → Bool
one_of [] c = false
one_of (d ∷ ds) c = c == d || one_of ds c

is_punct : ℕ → Bool
unfolding one_of
is_punct = one_of (codes "()[]{},.:;|&!?*+-/%=<>^~")

-- What stands at the start of the rest: bytes to skip, a token with its bytes, or an error.
pub data Scan : Type 0 where
  skip : ℕ → Scan
  tok : TokKind → Bytes → ℕ → Scan
  fail : LexError → Scan

scan_comment : Bytes → Scan
unfolding index_of_text
scan_comment s = elim (index_of_text (codes "*/") (drop 2 s)) [
  | none ↦ fail unterminated_comment
  | some e ↦ skip (e + 4)
]

scan_string : ℕ → ℕ → Bytes → Scan
unfolding read_string
scan_string start quote s = elim (read_string quote s) [
  | none ↦ fail (unterminated_string start)
  | some (text, n) ↦ tok string text (suc n)
]

scan_quoted : Bytes → Scan
unfolding index_of_text
scan_quoted s = elim (index_of_text (codes "`") s) [
  | none ↦ fail unterminated_identifier
  | some e ↦ tok quoted_ident (take e s) (e + 2)
]

scan_punct : ℕ → ℕ → Bytes → Scan
scan_punct start c s =
    let p : Bytes = elim (first_prefix multi_punct (c ∷ s)) [ none ↦ c ∷ [] | some m ↦ m ] in
    if is_punct c then tok punct p (length p) else fail (unexpected_character c start)

scan_number : Bytes → Scan
unfolding number
scan_number s = let (n, kind) = number s in tok kind (take n s) n

-- One round of the loop, at position `start` with `c ∷ s` ahead.
pub scan : ℕ → ℕ → Bytes → Scan
unfolding is_blank count_while is_ident_char starts_with scan_comment scan_string scan_quoted
    scan_punct scan_number
scan start c s =
    if is_blank c
    then skip 1
    else if starts_with (codes "//") (c ∷ s)
    then skip (count_while (λ d. if d == 10 then false else true) (c ∷ s))
    else if starts_with (codes "/*") (c ∷ s)
    then scan_comment (c ∷ s)
    else if c == 39 || c == 34
    then scan_string start c s
    else if c == b'`'
    then scan_quoted s
    else if c == b'$'
    then (let n = count_while is_ident_char s in tok param (take n s) (suc n))
    else if is_digit c
    then scan_number (c ∷ s)
    else if is_ident_start c
    then (let n = count_while is_ident_char (c ∷ s) in tok ident (take n (c ∷ s)) n)
    else scan_punct start c s

pub data Lexed : Type 0 where
  tokens : List Token → Lexed
  failed : LexError → Lexed
  out_of_fuel : Lexed

unfoldable pub add_token : Token → Lexed → Lexed
add_token t (tokens ts) = tokens (t ∷ ts)
add_token t (failed e) = failed e
add_token t out_of_fuel = out_of_fuel

-- From position `i` with `s` ahead.
pub lex_from : ℕ → ℕ → Bytes → Lexed
unfolding scan add_token
lex_from fuel i [] = tokens (record { kind = eof; text = []; pos = i; end = i } ∷ [])
lex_from zero i (c ∷ s) = out_of_fuel
lex_from (suc fuel) i (c ∷ s) = elim (scan i c s) [
  | skip n ↦ lex_from fuel (i + n) (drop n (c ∷ s))
  | tok kind text n ↦
      add_token (record { kind = kind; text = text; pos = i; end = i + n })
        (lex_from fuel (i + n) (drop n (c ∷ s)))
  | fail e ↦ failed e
]

unfoldable pub lex : Bytes → Lexed
unfolding lex_from multi_punct first_prefix is_punct
lex src = lex_from (length src) 0 src
