-- ===== src/Base/Clock.antt =====
-- time.Time as nanoseconds from 1970 on, and its RFC 3339 form in UTC.
use Prim.Native.Nat.{ℕ, ◌+◌, ◌-◌, ◌*◌, ◌/◌, ◌%◌}
use Prim.Native.String.{String, ◌++◌}
use mathlib.Core.Path.{◌≡◌, refl}
use mnemosyne_os.Base.Tests.{if◌then◌else◌, ltb}
use mnemosyne_os.Base.Number.{decimal}

pad2 : ℕ → String
pad2 n = if ltb n 10 then "0" ++ decimal n else decimal n

-- Years are counted from March 1 of year 0, so that the leap day is the last of its year; eras
-- have 400 years, and 719468 days lie before 1970.
abbrev day_number : ℕ → ℕ
day_number now = now / 86400000000000 + 719468

abbrev day_of_era : ℕ → ℕ
day_of_era d = d % 146097

abbrev year_of_era : ℕ → ℕ
year_of_era e = (e - e / 1460 + e / 36524 - e / 146096) / 365

abbrev day_of_year : ℕ → ℕ
day_of_year e = let y = year_of_era e in e - (365 * y + y / 4 - y / 100)

abbrev shifted_month : ℕ → ℕ
shifted_month e = (5 * day_of_year e + 2) / 153

date_of : ℕ → String
unfolding pad2
date_of d =
    let e = day_of_era d in
    let m = shifted_month e in
    let month = if ltb m 10 then m + 3 else m - 9 in
    let day = day_of_year e - (153 * m + 2) / 5 + 1 in
    let year = d / 146097 * 400 + year_of_era e in
    decimal (if ltb 2 month then year else year + 1) ++ "-" ++ pad2 month ++ "-" ++ pad2 day

time_of : ℕ → String
unfolding pad2
time_of s = pad2 (s / 3600 % 24) ++ ":" ++ pad2 (s / 60 % 60) ++ ":" ++ pad2 (s % 60)

-- now.UTC().Format(time.RFC3339), for years of four digits
unfoldable pub rfc3339 : ℕ → String
unfolding date_of time_of
rfc3339 now = date_of (day_number now) ++ "T" ++ time_of (now / 1000000000) ++ "Z"

rfc3339_test :
    (rfc3339 0 ≡ "1970-01-01T00:00:00Z") × (rfc3339 1709209845000000000 ≡ "2024-02-29T12:30:45Z")
unfolding rfc3339 decimal
rfc3339_test = (refl, refl)
