-- ===== src/Functions/Punycode.antt =====
-- pkg/engine/func_punycode.go: punycode of a list of code points. The `int`s have 64 bits and the
-- guards keep them far below 2^63, so numbers without bound stand for them.
pub mod Delta
use gokql.Base.{
  ℕ, zero, suc, ◌+◌, ◌-◌, ◌*◌, ◌/◌, ◌%◌, ◌^◌, Bool, true, false, ◌&&◌, ◌||◌, Option, none, some,
  List, [], ◌∷◌, ◌++◌, if◌then◌else◌, leb, ltb, ◌==◌, length, take, drop, keep, any,
}
use gokql.Base.Bytes.{Bytes}

abbrev pc_base : ℕ
pc_base = 36

abbrev pc_tmin : ℕ
pc_tmin = 1

abbrev pc_tmax : ℕ
pc_tmax = 26

-- The loop of `pcAdapt`, which adds pc_base to `k` at each round.
adapt_rounds : ℕ → ℕ → ℕ → ℕ
adapt_rounds zero delta k = k + 36 * delta / (delta + 38)
adapt_rounds (suc fuel) delta k = elim (ltb 455 delta) [
  | true ↦ adapt_rounds fuel (delta / 35) (k + pc_base)
  | false ↦ k + 36 * delta / (delta + 38)
]

unfoldable pub pc_adapt : ℕ → ℕ → Bool → ℕ
unfolding adapt_rounds
pc_adapt delta num_points first =
    let d = if first then delta / 700 else delta / 2 in
    let e = d + d / num_points in adapt_rounds e e 0

unfoldable pub pc_digit : ℕ → ℕ
pc_digit d = if ltb d 26 then b'a' + d else b'0' + d - 26

unfoldable pub pc_decode_digit : ℕ → Option ℕ
pc_decode_digit c =
    if leb b'0' c && leb c b'9'
    then some (c - b'0' + 26)
    else if leb b'A' c && leb c b'Z'
    then some (c - b'A')
    else if leb b'a' c && leb c b'z'
    then some (c - b'a')
    else none

unfoldable pub threshold : ℕ → ℕ → ℕ
threshold k bias =
    let t = k - bias in if ltb t pc_tmin then pc_tmin else if ltb pc_tmax t then pc_tmax else t

-- The digits of one delta, from the digit position `k` on.
unfoldable pub encode_delta : ℕ → ℕ → ℕ → ℕ → Bytes
unfolding threshold pc_digit
encode_delta zero k bias q = []
encode_delta (suc fuel) k bias q =
    let t = threshold k bias in
    elim (ltb q t) [
      | true ↦ pc_digit q ∷ []
      | false ↦
          pc_digit (t + (q - t) % (pc_base - t))
          ∷ encode_delta fuel (k + pc_base) bias ((q - t) / (pc_base - t))
    ]

pub record Encoder : Type 0 where
  pub out : Bytes
  pub delta : ℕ
  pub bias : ℕ
  pub h : ℕ

-- One round of the loop over the runes, for the code point `n`.
encode_rune : ℕ → ℕ → ℕ → Encoder → Encoder
unfolding encode_delta pc_adapt
encode_rune n b r st =
    let delta = if ltb r n then st.delta + 1 else st.delta in
    if r == n
    then record {
      out = st.out ++ encode_delta (suc delta) pc_base st.bias delta;
      delta = 0;
      bias = pc_adapt delta (st.h + 1) (st.h == b);
      h = st.h + 1;
    }
    else record { out = st.out; delta = delta; bias = st.bias; h = st.h }

encode_runes : ℕ → ℕ → List ℕ → Encoder → Encoder
unfolding encode_rune
encode_runes n b [] st = st
encode_runes n b (r ∷ rs) st = encode_runes n b rs (encode_rune n b r st)

-- The least code point from `n` on, if it is below `m`.
next_code : ℕ → ℕ → List ℕ → ℕ
next_code n m [] = m
next_code n m (r ∷ rs) = next_code n (if leb n r && ltb r m then r else m) rs

-- Whether delta would leave 31 bits: `gap > (MaxInt32 - delta) / (h + 1)`, which truncates to 0.
too_far : ℕ → ℕ → ℕ → Bool
too_far gap delta h =
    if ltb (2 ^ 31 - 1) delta
    then ltb 0 gap || ltb 0 ((delta - (2 ^ 31 - 1)) / (h + 1))
    else ltb ((2 ^ 31 - 1 - delta) / (h + 1)) gap

encode_rounds : ℕ → ℕ → ℕ → List ℕ → Encoder → Option Bytes
unfolding encode_runes next_code too_far
encode_rounds zero n b input st = none
encode_rounds (suc fuel) n b input st = elim (ltb st.h (length input)) [
  | false ↦ some st.out
  | true ↦
      let m = next_code n (2 ^ 63 - 1) input in
      let gap = m - n in
      let start : Encoder = record {
        out = st.out;
        delta = st.delta + gap * (st.h + 1);
        bias = st.bias;
        h = st.h;
      } in
      let done = encode_runes m b input start in
      elim (too_far gap st.delta st.h) [
        | true ↦ none
        | false ↦
            encode_rounds fuel (m + 1) b input
              (record { out = done.out; delta = done.delta + 1; bias = done.bias; h = done.h })
      ]
]

is_basic : ℕ → Bool
is_basic r = ltb r 0x80

unfoldable pub punycode_encode : List ℕ → Option Bytes
unfolding encode_rounds is_basic
punycode_encode input =
    let basic = keep is_basic input in
    let b = length basic in
    encode_rounds (suc (length input)) 128 b input (record {
      out = (if ltb 0 b then basic ++ b'-' ∷ [] else basic);
      delta = 0;
      bias = 72;
      h = b;
    })

-- One delta read from digit position `k` with weight `w`, on top of `i`, and what is left.
unfoldable pub read_delta : ℕ → ℕ → ℕ → ℕ → Bytes → Option (ℕ × Bytes)
unfolding pc_decode_digit threshold
read_delta k bias w i [] = none
read_delta k bias w i (c ∷ s) = elim (pc_decode_digit c) [
  | none ↦ none
  | some d ↦
      let t = threshold k bias in
      elim (ltb d t) [
        | true ↦ some (i + d * w, s)
        | false ↦ elim (ltb (2 ^ 30) (w * (pc_base - t))) [
          | true ↦ none
          | false ↦ read_delta (k + pc_base) bias (w * (pc_base - t)) (i + d * w) s
        ]
      ]
]

decode_rounds : ℕ → ℕ → ℕ → ℕ → List ℕ → Bytes → Option (List ℕ)
unfolding read_delta pc_adapt
decode_rounds fuel n i bias out [] = some out
decode_rounds zero n i bias out (c ∷ s) = none
decode_rounds (suc fuel) n i bias out (c ∷ s) = elim (read_delta pc_base bias 1 i (c ∷ s)) [
  | none ↦ none
  | some (j, rest) ↦
      let points = length out + 1 in
      let code = n + j / points in
      let at = j % points in
      elim (ltb 0x10FFFF code) [
        | true ↦ none
        | false ↦
            decode_rounds fuel code (at + 1) (pc_adapt (j - i) points (i == 0))
              (take at out ++ code ∷ drop at out) rest
      ]
]

-- What stands before the last hyphen and what behind it, if there is one.
split_last_hyphen : Bytes → Option (Bytes × Bytes)
split_last_hyphen [] = none
split_last_hyphen (c ∷ s) = elim (split_last_hyphen s) [
  | some (a, b) ↦ some (c ∷ a, b)
  | none ↦ if c == b'-' then some ([], s) else none
]

unfoldable pub punycode_decode : Bytes → Option (List ℕ)
unfolding decode_rounds split_last_hyphen is_basic
punycode_decode s =
    let parts : Bytes × Bytes = elim (split_last_hyphen s) [ none ↦ ([], s) | some p ↦ p ] in
    let (basic, digits) = parts in
    if any (λ c. if is_basic c then false else true) s
    then none
    else decode_rounds (length digits) 128 0 72 basic digits
