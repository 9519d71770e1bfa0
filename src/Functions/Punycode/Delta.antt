-- ===== src/Functions/Punycode/Delta.antt =====
-- A delta's digits are read back as the delta.
use native.Mathlib.Nat.{
  mul_comm, mul_assoc, add-mul, mul-le-mul_left, mul-le-mul_right, div-add-mod, mod-lt, div-le_self,
}
use gokql.Base.{
  ℕ, zero, suc, ◌+◌, ◌-◌, ◌*◌, ◌/◌, ◌%◌, ◌^◌, ◌≤◌, ◌<◌, ◌≡◌, refl, sym, ap, ◌∙◌, inl, inr, true,
  false, some, ◌∷◌, ◌++◌, ltb, arith, Bool-cases,
}
use gokql.Base.Bytes.{Bytes}
use gokql.Functions.Punycode.{pc_digit, pc_decode_digit, threshold, encode_delta, read_delta}

decode-pc_digit : (d : ℕ) → d < 36 → pc_decode_digit (pc_digit d) ≡ some d
unfolding pc_decode_digit pc_digit
decode-pc_digit d h = ground arith

threshold-bounds : (k bias : ℕ) → (1 ≤ threshold k bias) × (threshold k bias ≤ 26)
unfolding threshold
threshold-bounds k bias = (ground arith, ground arith)

-- The digit `d` and the rest `p` behind it, at weight `w` and with `b` steps to the next weight.
step_sum : (i w q d p b : ℕ) → q ≡ d + p * b → i + d * w + p * (w * b) ≡ i + q * w
step_sum i w q d p b e =
    let x : p * (w * b) ≡ p * b * w = rw (mul_comm w b) (sym (mul_assoc p b w)) in
    let y : q * w ≡ d * w + p * b * w = rw e (add-mul d (p * b) w) in omega (arith, x, y)

step_bound : (w q d p b : ℕ) → q ≡ d + p * b → p * (w * b) ≤ q * w
step_bound w q d p b e = omega (arith, step_sum 0 w q d p b e)

weight_bound : (w q b : ℕ) → 1 ≤ q → b ≤ 35 → 35 * (q * w) ≤ 2 ^ 30 → w * b ≤ 2 ^ 30
weight_bound w q b pos small h =
    let x : w * b ≤ w * 35 = mul-le-mul_left w small in
    let y : 1 * w ≤ q * w = mul-le-mul_right w pos in omega (arith, x, y)

-- The last digit of a delta.
read-last :
    (k bias w i q : ℕ) (rest : Bytes)
    → q < threshold k bias
    → read_delta k bias w i (pc_digit q ∷ rest) ≡ some (i + q * w, rest)
unfolding read_delta
read-last k bias w i q rest h =
    let d : pc_decode_digit (pc_digit q) ≡ some q =
      decode-pc_digit q (omega (arith, threshold-bounds k bias)) in
    let g : ltb q (threshold k bias) ≡ true = ground arith in rw (read_delta, d, g) refl

-- A digit that is not the last.
read-next :
    (k bias w i d : ℕ) (rest : Bytes)
    → threshold k bias ≤ d
    → d < 36
    → w * (36 - threshold k bias) ≤ 2 ^ 30
    → read_delta k bias w i (pc_digit d ∷ rest)
      ≡ read_delta (k + 36) bias (w * (36 - threshold k bias)) (i + d * w) rest
unfolding read_delta
read-next k bias w i d rest h small light =
    let e : pc_decode_digit (pc_digit d) ≡ some d = decode-pc_digit d small in
    let g : ltb d (threshold k bias) ≡ false = ground arith in
    let l : ltb (2 ^ 30) (w * (36 - threshold k bias)) ≡ false = ground arith in
    rw (read_delta, e, g, l) refl

-- The digits written for a delta q of at most 2^30 / 35 (in units of the weight w they start with) are
-- read back, whatever follows them: the reader adds q * w and stops behind them.
pub read-encode_delta :
    (fuel k bias w i q : ℕ) (rest : Bytes)
    → q < fuel
    → 35 * (q * w) ≤ 2 ^ 30
    → read_delta k bias w i (encode_delta fuel k bias q ++ rest) ≡ some (i + q * w, rest)
unfolding encode_delta
read-encode_delta zero k bias w i q rest enough light = absurd (omega arith)
read-encode_delta (suc fuel) k bias w i q rest enough light =
    let t = threshold k bias in
    let (t_low, t_high) = threshold-bounds k bias in
    elim (Bool-cases (ltb q t)) [
      | inl last ↦
          let h : q < t = ground arith in rw (encode_delta, last) (read-last k bias w i q rest h)
      | inr more ↦
          let h : t ≤ q = ground arith in
          let b = 36 - t in
          let d = t + (q - t) % b in
          let p = (q - t) / b in
          let b_pos : 0 < b = omega arith in
          let e : q ≡ d + p * b = omega (arith, div-add-mod (q - t) b, mul_comm b p) in
          let small : d < 36 = omega (arith, mod-lt (q - t) b_pos) in
          let shrinks : p ≤ q - t = div-le_self (q - t) b in
          rw (encode_delta, more)
            (read-next k bias w i d (encode_delta fuel (k + 36) bias p ++ rest) (omega arith) small
                (weight_bound w q b (omega arith) (omega arith) light)
              ∙ read-encode_delta fuel (k + 36) bias (w * b) (i + d * w) p rest (omega arith)
                  (omega (arith, step_bound w q d p b e))
              ∙ ap (λ x. some (x, rest)) (step_sum i w q d p b e))
    ]
