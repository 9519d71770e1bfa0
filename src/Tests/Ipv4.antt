-- ===== src/Tests/Ipv4.antt =====
-- Ranges of IPv4 addresses as blocks.
use gokql.Base.{◌≡◌, refl, [], ◌∷◌, ◌+◌, arith}
use gokql.Base.Bytes.{codes}
use gokql.Functions.Ipv4.{cidr_blocks, ipv4_range_to_cidr_list}
use gokql.Functions.Ipv4.Blocks.{Tiles, cidr_blocks_lem}
use gokql.Types.Decimal.{decimal_digits}

-- 1.1.128.0 to 1.1.140.255
worked_example :
    ipv4_range_to_cidr_list 16875520 16878847
    ≡ codes "1.1.128.0/21" ∷ codes "1.1.136.0/22" ∷ codes "1.1.140.0/24" ∷ []
unfolding ipv4_range_to_cidr_list decimal_digits
worked_example = refl

all_addresses : ipv4_range_to_cidr_list 0 4294967295 ≡ codes "0.0.0.0/0" ∷ []
unfolding ipv4_range_to_cidr_list decimal_digits
all_addresses = refl

last_addresses :
    ipv4_range_to_cidr_list 4294967293 4294967295
    ≡ codes "255.255.255.253/32" ∷ codes "255.255.255.254/31" ∷ []
unfolding ipv4_range_to_cidr_list decimal_digits
last_addresses = refl

reversed : cidr_blocks 5 3 ≡ []
unfolding cidr_blocks
reversed = refl

cidr_blocks_example : Tiles 16875520 (16878847 + 1) (cidr_blocks 16875520 16878847)
cidr_blocks_example = cidr_blocks_lem 16875520 16878847 (omega arith)
