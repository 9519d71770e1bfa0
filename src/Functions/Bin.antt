-- ===== src/Functions/Bin.antt =====
-- pkg/engine/func_bin.go: `bin` and `bin_at` of numbers that are long; an `int64` wraps around.
pub mod Floor
use gokql.Base.{ℕ, ◌+◌, ◌-◌, ◌*◌, ◌%◌, ◌^◌, Option, none, some, if◌then◌else◌, ltb, ◌==◌}
use gokql.Base.Int.{ℤ, pos, negsuc, magnitude, ◌+ℤ◌, ◌-ℤ◌, ◌*ℤ◌, quo, rem, ltb_ℤ, leb_ℤ}

-- The value that 64-bit arithmetic leaves.
unfoldable pub int64 : ℤ → ℤ
int64 (pos n) = let u = n % 2 ^ 64 in if ltb u (2 ^ 63) then pos u else negsuc (2 ^ 64 - 1 - u)
int64 (negsuc n) = let u = n % 2 ^ 64 in if ltb u (2 ^ 63) then negsuc u else pos (2 ^ 64 - 1 - u)

unfoldable pub floor_div_int64 : ℤ → ℤ → ℤ
unfolding quo rem ◌-ℤ◌
floor_div_int64 a b =
    let q = quo a b in
    let below = q -ℤ pos 1 in
    if magnitude (rem a b) == 0
    then q
    else if ltb_ℤ a (pos 0)
    then if ltb_ℤ b (pos 0) then q else below
    else if ltb_ℤ b (pos 0)
    then below
    else q

-- `bin_at` of long values; `bin` has 0 for the fixed point.
unfoldable pub bin_at : ℤ → ℤ → ℤ → Option ℤ
unfolding int64 floor_div_int64 ◌+ℤ◌ ◌-ℤ◌ ◌*ℤ◌
bin_at value size fixed =
    let q = floor_div_int64 (int64 (value -ℤ fixed)) size in
    if leb_ℤ size (pos 0) then none else some (int64 (fixed +ℤ int64 (q *ℤ size)))

unfoldable pub bin : ℤ → ℤ → Option ℤ
unfolding bin_at
bin value size = bin_at value size (pos 0)

-- 0001-01-01T00:00:00Z in Unix nanoseconds, reduced modulo a size above 0.
unfoldable pub datetime_bin_origin : ℕ → ℕ
datetime_bin_origin size =
    let r = 62135596800 * 1000000000 % size in
    if 86400000000000 % size == 0 then 0 else if r == 0 then 0 else size - r
