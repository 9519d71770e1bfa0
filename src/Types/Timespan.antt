-- ===== src/Types/Timespan.antt =====
-- Timespans as text: the branch of `FormatValue` in pkg/types/types.go, and
-- `formatTimespanTostring` of pkg/engine/kql_tostring.go.
pub mod Agree
use gokql.Base.{
  ℕ, zero, suc, ◌+◌, ◌-◌, ◌*◌, ◌/◌, ◌%◌, ◌^◌, ◌≤◌, ◌≡◌, refl, ap, Bool, true, false, List, [], ◌∷◌,
  ◌++◌, if◌then◌else◌, length, replicate, ltb, leb, arith,
}
use gokql.Base.Bytes.{Bytes}
use gokql.Base.Int.{ℤ, pos, negsuc, neg_ℤ, ◌*ℤ◌, quo, rem, ltb_ℤ, magnitude}
use gokql.Types.Decimal.{decimal_digits}
use gokql.Functions.Bin.{int64}

-- `%0wd`
unfoldable pub show_padded : ℕ → ℤ → Bytes
unfolding decimal_digits
show_padded w (pos n) =
    let digits = decimal_digits n in replicate (w - length digits) b'0' ++ digits
show_padded w (negsuc n) =
    let digits = decimal_digits (suc n) in b'-' ∷ replicate (w - 1 - length digits) b'0' ++ digits

abbrev pub clock : ℤ → ℤ → ℤ → Bytes
unfolding show_padded
clock h m s = show_padded 2 h ++ b':' ∷ show_padded 2 m ++ b':' ∷ show_padded 2 s

-- The text of a count of nanoseconds, behind a sign.
unfoldable pub nanos_text : Bool → ℤ → Bytes
unfolding quo rem show_padded clock
nanos_text negative nanos =
    let total_secs = quo nanos (pos 1000000000) in
    let days = quo total_secs (pos 86400) in
    let time =
      clock (quo (rem total_secs (pos 86400)) (pos 3600)) (quo (rem total_secs (pos 3600)) (pos 60))
        (rem total_secs (pos 60)) in
    let frac_nanos = rem nanos (pos 1000000000) in
    let s = if ltb_ℤ (pos 0) days then show_padded 0 days ++ b'.' ∷ time else time in
    let t =
      if ltb_ℤ (pos 0) frac_nanos
      then s ++ b'.' ∷ show_padded 7 (quo frac_nanos (pos 100))
      else s in
    if negative then b'-' ∷ t else t

-- The timespan branch of `FormatValue`, from ticks of 100 ns.
unfoldable pub format_timespan : ℤ → Bytes
unfolding int64 ◌*ℤ◌ nanos_text
format_timespan ticks =
    let product = int64 (ticks *ℤ pos 100) in
    let negative = ltb_ℤ product (pos 0) in
    nanos_text negative (if negative then int64 (neg_ℤ product) else product)

-- The text of a count of ticks, behind a sign.
unfoldable pub ticks_text : Bool → ℤ → Bytes
unfolding quo rem show_padded clock
ticks_text neg n =
    let frac = rem n (pos 10000000) in
    let secs = quo n (pos 10000000) in
    let d = quo secs (pos 86400) in
    let sign = if neg then b'-' ∷ [] else [] in
    let with_days = if ltb_ℤ (pos 0) d then sign ++ show_padded 0 d ++ b'.' ∷ [] else sign in
    let out =
      with_days
      ++ clock (rem (quo secs (pos 3600)) (pos 24)) (rem (quo secs (pos 60)) (pos 60))
          (rem secs (pos 60)) in
    if ltb_ℤ (pos 0) frac then out ++ b'.' ∷ show_padded 7 frac else out

unfoldable pub format_timespan_tostring : ℤ → Bytes
unfolding int64 ticks_text
format_timespan_tostring ticks =
    let neg = ltb_ℤ ticks (pos 0) in ticks_text neg (if neg then int64 (neg_ℤ ticks) else ticks)
