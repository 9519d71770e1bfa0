-- ===== src/Tests/Bin.antt =====
-- `bin` at concrete numbers.
use gokql.Base.{◌≡◌, refl, some, arith}
use gokql.Base.Int.{ℤ, pos, negsuc, ◌*ℤ◌}
use gokql.Types.Decimal.Floor.{IsFloor}
use gokql.Functions.Bin.{bin, datetime_bin_origin}
use gokql.Functions.Bin.Floor.{bin_lem}

down : bin (negsuc 6) (pos 5) ≡ some (negsuc 9)
unfolding bin
down = refl

-- Seven days: the origin of the first Monday.
week : datetime_bin_origin 604800000000000 ≡ 345600000000000
unfolding datetime_bin_origin
week = refl

bin_example : (q : ℤ) × (IsFloor (negsuc 6) 5 q) × (bin (negsuc 6) (pos 5) ≡ some (q *ℤ pos 5))
bin_example = bin_lem (negsuc 6) 5 (omega arith) (omega arith) (omega arith)
