-- ===== src/Js/Date.antt =====
-- `Date.prototype.toISOString` of a time after 1970, given in milliseconds.
use Prim.Native.String.{◌++◌}
use nestjs_saas.Prelude.{ℕ, ◌+◌, ◌-◌, ◌*◌, ◌/◌, ◌%◌, String, ltb, leb, if◌then◌else◌, ◌≡◌, refl}
use nestjs_saas.Js.Text.{decimal}

-- A number with leading zeros.
abbrev two_digits : ℕ → String
two_digits n = if ltb n 10 then "0" ++ decimal n else decimal n

abbrev three_digits : ℕ → String
three_digits n = if ltb n 100 then "0" ++ two_digits n else decimal n

pub record Day : Type 0 where
  pub year : ℕ
  pub month : ℕ
  pub day : ℕ

-- The Gregorian date of a day since 1970-01-01, reckoned in eras of 400 years that begin in March.
abbrev day_of : ℕ → Day
day_of days =
    let z = days + 719468 in
    let doe = z % 146097 in
    let yoe = (doe - doe / 1460 + doe / 36524 - doe / 146096) / 365 in
    let doy = doe - (365 * yoe + yoe / 4 - yoe / 100) in
    let mp = (5 * doy + 2) / 153 in
    let m = if ltb mp 10 then mp + 3 else mp - 9 in
    record {
      year = yoe + (z / 146097) * 400 + (if leb m 2 then 1 else 0);
      month = m;
      day = doy - (153 * mp + 2) / 5 + 1;
    }

-- `toISOString().slice(0, 10)`
unfoldable pub iso_day : ℕ → String
unfolding decimal
iso_day time =
    let d = day_of (time / 86400000) in
    decimal d.year ++ "-" ++ two_digits d.month ++ "-" ++ two_digits d.day

unfoldable pub to_iso_string : ℕ → String
unfolding decimal iso_day
to_iso_string time =
    iso_day time
    ++ "T"
    ++ two_digits ((time / 3600000) % 24)
    ++ ":"
    ++ two_digits ((time / 60000) % 60)
    ++ ":"
    ++ two_digits ((time / 1000) % 60)
    ++ "."
    ++ three_digits (time % 1000)
    ++ "Z"

iso_test : to_iso_string 1709210096007 ≡ "2024-02-29T12:34:56.007Z"
unfolding to_iso_string
iso_test = refl
