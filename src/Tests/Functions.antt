-- ===== src/Tests/Functions.antt =====
-- Punycode at concrete inputs.
use gokql.Base.{◌+◌, ◌*◌, ◌++◌, arith, ◌≡◌, refl, some, [], ◌∷◌}
use gokql.Base.Bytes.{codes}
use gokql.Functions.Punycode.Delta.{read-encode_delta}
use gokql.Functions.Punycode.{encode_delta, read_delta, punycode_encode, punycode_decode}

-- "bücher"
encoded : punycode_encode (98 ∷ 252 ∷ 99 ∷ 104 ∷ 101 ∷ 114 ∷ []) ≡ some (codes "bcher-kva")
unfolding punycode_encode
encoded = refl

decoded : punycode_decode (codes "bcher-kva") ≡ some (98 ∷ 252 ∷ 99 ∷ 104 ∷ 101 ∷ 114 ∷ [])
unfolding punycode_decode
decoded = refl

read-encode_delta_example :
    read_delta 36 72 1 0 (encode_delta 746 36 72 745 ++ []) ≡ some (0 + 745 * 1, [])
read-encode_delta_example = read-encode_delta 746 36 72 1 0 745 [] (omega arith) (omega arith)
