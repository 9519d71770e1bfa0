-- ===== src/Tests/Timespan.antt =====
-- Timespans printed.
use gokql.Base.{◌≡◌, refl, arith}
use gokql.Base.Bytes.{codes}
use gokql.Base.Int.{pos, negsuc}
use gokql.Types.Timespan.{format_timespan, format_timespan_tostring}
use gokql.Types.Timespan.Agree.{format_timespan_lem}

with_days : format_timespan (pos 937840050000) ≡ codes "1.02:03:04.0050000"
unfolding format_timespan
with_days = refl

negative : format_timespan_tostring (negsuc 599999999) ≡ codes "-00:01:00"
unfolding format_timespan_tostring
negative = refl

-- One tick more than fits turns the sign.
too_long : format_timespan (pos 92233720368547759) ≡ codes "-106751.23:47:16.8547757"
unfolding format_timespan
too_long = refl

format_timespan_example : format_timespan (negsuc 4) ≡ format_timespan_tostring (negsuc 4)
format_timespan_example = format_timespan_lem (negsuc 4) (omega arith)
