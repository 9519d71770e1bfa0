-- ===== src/Tests/Gql.antt =====
-- Runs of the lexer.
use gokql.Base.{◌≡◌, refl, [], ◌∷◌}
use gokql.Base.Bytes.{codes}
use gokql.Gql.Lexer.{ident, punct, string, eof, tokens, lex}

lexed_pattern :
    lex (codes "a<>'b''c' // x")
    ≡ tokens (
        record { kind = ident; text = codes "a"; pos = 0; end = 1 }
        ∷ record { kind = punct; text = codes "<>"; pos = 1; end = 3 }
        ∷ record { kind = string; text = codes "b'c"; pos = 3; end = 9 }
        ∷ record { kind = eof; text = []; pos = 14; end = 14 }
        ∷ [])
unfolding lex
lexed_pattern = refl
