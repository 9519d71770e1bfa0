-- ===== src/Gql/Lexer/Spans.antt =====
-- The lexer ends, and the tokens lie in the source one after the other.
use gokql.Base.{ℕ, ◌-◌, ◌≤◌, ◌<◌, List, [], ◌∷◌, length, drop}
use gokql.Base.Bytes.{Bytes}
use gokql.Gql.Lexer.{eof, Token, Lexed, tokens, failed, out_of_fuel}
use gokql.Gql.Lexer.Gaps.{Gap}
use gokql.Gql.Lexer.Scanners.{TextOf, IsWrong}

-- The tokens from position `i` on: each has a byte or more, begins at or behind the end of the one
-- before, with blanks and comments between, ends within the source and has the text of its bytes;
-- the last is the end of the source.
pub data Spans (src : Bytes) : ℕ → List Token → Type 0 where
  finish :
      {i : ℕ}
      → i ≤ length src
      → Gap src i (length src)
      → Spans src i (record { kind = eof; text = []; pos = length src; end = length src } ∷ [])
  token :
      {i : ℕ} {t : Token} {ts : List Token}
      → i ≤ t.pos
      → Gap src i t.pos
      → t.pos < t.end
      → t.end ≤ length src
      → TextOf t.kind t.text (t.end - t.pos) (drop t.pos src)
      → Spans src t.end ts
      → Spans src i (t ∷ ts)

-- Lexing ends with tokens in their places or with an error that is due.
abbrev pub Ends : Bytes → ℕ → Lexed → Type 0
Ends src i (tokens ts) = Spans src i ts
Ends src i (failed e) = (k : ℕ) × (i ≤ k) × (k < length src) × IsWrong e k (drop k src)
Ends src i out_of_fuel = ⊥
