-- ===== src/Functions/Ipv4/Blocks.antt =====
-- The blocks of pkg/engine/func_net.go (`ipv4RangeToCIDRList`) tile the range.
use native.Mathlib.Nat.{one-le-pow}
use gokql.Base.{
  ℕ, zero, suc, ◌+◌, ◌-◌, ◌^◌, ◌≤◌, ◌≡◌, refl, inl, inr, Bool-cases, List, [], ◌∷◌, leb, arith,
}
use gokql.Functions.Ipv4.{Block, block_bits, range_blocks, cidr_blocks}
use gokql.Functions.Ipv4.Powers.{IsLargest, block_bits-IsLargest, leb_iff, leb_above}

-- Blocks that follow one another from an address to a stop, each the largest that is aligned and fits.
abbrev pub Tiles : ℕ → ℕ → List Block → Type 0
Tiles start stop [] = start ≡ stop
Tiles start stop (b ∷ bs) =
    (b.first ≡ start)
    × (b.prefix ≤ 32)
    × IsLargest start stop (32 - b.prefix)
    × Tiles (start + 2 ^ (32 - b.prefix)) stop bs

range_blocks-Tiles :
    (rounds start end : ℕ)
    → end + 1 ≤ rounds + start
    → start ≤ end + 1
    → Tiles start (end + 1) (range_blocks rounds start end)
unfolding range_blocks
range_blocks-Tiles zero start end f h = omega (arith, f, h)
range_blocks-Tiles (suc rounds) start end f h = elim (Bool-cases (leb start end)) [
  | inr p ↦ rw (range_blocks, p) (let above = leb_above start end p in omega (arith, above, h))
  | inl p ↦
      let bits = block_bits start end in
      let largest = block_bits-IsLargest start end ((leb_iff start end).0 p) in
      let back : 32 - (32 - bits) ≡ bits = omega (arith, largest.0) in
      let some_address : 1 ≤ 2 ^ bits = one-le-pow bits 2 (omega arith) in
      rw (range_blocks, p, back)
        (
          refl,
          omega arith,
          largest,
          range_blocks-Tiles rounds (start + 2 ^ bits) end (omega (arith, f, some_address))
              largest.2,
        )
]

-- For a range that ends no earlier than one address before its start, the blocks follow one another from
-- the first address to the last, without a gap or an overlap, and each is the largest of at most 32 bits
-- that is aligned to its size and ends within the range.
pub cidr_blocks_lem :
    (start end : ℕ) → start ≤ end + 1 → Tiles start (end + 1) (cidr_blocks start end)
unfolding cidr_blocks
cidr_blocks_lem start end h = range_blocks-Tiles (end + 1 - start) start end (omega (arith, h)) h
