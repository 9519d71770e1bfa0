-- ===== src/Engine/Window/Wrap.antt =====
-- The 64-bit value of a sum depends only on those of its parts.
use gokql.Base.{◌≡◌, arith}
use gokql.Base.Int.{ℤ, pos, negsuc, ◌+ℤ◌}
use gokql.Functions.Bin.{int64}

pub int64-add : (a b : ℤ) → int64 (int64 a +ℤ b) ≡ int64 (a +ℤ b)
unfolding int64 ◌+ℤ◌
int64-add (pos a) (pos b) = ground arith
int64-add (pos a) (negsuc b) = ground arith
int64-add (negsuc a) (pos b) = ground arith
int64-add (negsuc a) (negsuc b) = ground arith
