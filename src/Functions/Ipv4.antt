-- ===== src/Functions/Ipv4.antt =====
-- pkg/engine/func_net.go: the blocks of `ipv4_range_to_cidr_list`.
pub mod Powers
pub mod Blocks
use gokql.Base.{
  ℕ, zero, suc, ◌+◌, ◌-◌, ◌/◌, ◌%◌, ◌^◌, Bool, true, false, List, [], ◌∷◌, ◌++◌, map, if◌then◌else◌,
  ltb, leb, ◌==◌,
}
use gokql.Base.Bytes.{Bytes}
use gokql.Types.Decimal.{decimal_digits}

-- The addresses from `first` on whose first `prefix` bits agree with it.
pub record Block : Type 0 where
  pub first : ℕ
  pub prefix : ℕ

-- The loop that counts low zero bits, with as many rounds as bits are left.
unfoldable pub count_zeros : ℕ → ℕ → ℕ → ℕ
count_zeros start zero tz = tz
count_zeros start (suc rounds) tz =
    let more = count_zeros start rounds (suc tz) in if start / 2 ^ tz % 2 == 0 then more else tz

unfoldable pub low_zeros : ℕ → ℕ
unfolding count_zeros
low_zeros start = if start == 0 then 32 else count_zeros start 32 0

-- The loop that finds the size that fits.
unfoldable pub count_fitting : ℕ → ℕ → ℕ → ℕ
count_fitting remaining zero bits = bits
count_fitting remaining (suc rounds) bits =
    let more = count_fitting remaining rounds (suc bits) in
    if leb (2 ^ (bits + 1)) remaining then more else bits

-- The bits of the block at the start of a range.
unfoldable pub block_bits : ℕ → ℕ → ℕ
unfolding low_zeros count_fitting
block_bits start end =
    let tz = low_zeros start in
    let max_bits = count_fitting (end - start + 1) 32 0 in if ltb max_bits tz then max_bits else tz

-- A round for each address from `start` to `end` is enough.
unfoldable pub range_blocks : ℕ → ℕ → ℕ → List Block
unfolding block_bits
range_blocks zero start end = []
range_blocks (suc rounds) start end =
    let bits = block_bits start end in
    elim (leb start end) [
      | false ↦ []
      | true ↦
          record { first = start; prefix = 32 - bits } ∷ range_blocks rounds (start + 2 ^ bits) end
    ]

unfoldable pub uint32_to_ipv4_string : ℕ → Bytes
unfolding decimal_digits
uint32_to_ipv4_string n =
    decimal_digits (n / 2 ^ 24 % 256)
    ++ b'.' ∷ decimal_digits (n / 2 ^ 16 % 256)
    ++ b'.' ∷ decimal_digits (n / 2 ^ 8 % 256)
    ++ b'.' ∷ decimal_digits (n % 256)

-- The blocks, before they are written as texts.
unfoldable pub cidr_blocks : ℕ → ℕ → List Block
unfolding range_blocks
cidr_blocks start end = range_blocks (end + 1 - start) start end

unfoldable pub ipv4_range_to_cidr_list : ℕ → ℕ → List Bytes
unfolding cidr_blocks uint32_to_ipv4_string
ipv4_range_to_cidr_list start end =
    map (λ b. uint32_to_ipv4_string b.first ++ b'/' ∷ decimal_digits b.prefix)
      (cidr_blocks start end)
