-- ===== src/Tests/Utc.antt =====
-- A concrete clock for the runs: `mktime`, `localtime` and `gmtime` in UTC, from the year 1 on.
use smart_device_svr.Base.{
  ℕ, zero, suc, ◌+◌, ◌-◌, ◌*◌, ◌/◌, ◌%◌, Bool, not, ◌&&◌, ◌||◌, some, [], ◌∷◌, get_or, ltb, leb,
  ◌==◌, if◌then◌else◌,
}
use smart_device_svr.Base.Int.{pos, pos_part, neg_part, sub_ℕ}
use smart_device_svr.Calendar.{Tm, Clock}

abbrev is_leap : ℕ → Bool
is_leap y = (y % 4 == 0) && (not (y % 100 == 0) || (y % 400 == 0))

abbrev days_before_year : ℕ → ℕ
days_before_year y = 365 * (y - 1) + ((y - 1) / 4 + (y - 1) / 400 - (y - 1) / 100)

abbrev days_before_month : ℕ → ℕ → ℕ
days_before_month y m =
    get_or (0 ∷ 31 ∷ 59 ∷ 90 ∷ 120 ∷ 151 ∷ 181 ∷ 212 ∷ 243 ∷ 273 ∷ 304 ∷ 334 ∷ []) m 0
    + (if is_leap y && ltb 1 m then 1 else 0)

-- The year of a day, found upwards from a guess that is not too late.
abbrev find_year : ℕ → ℕ → ℕ → ℕ
find_year zero y d = y
find_year (suc fuel) y d =
    let rest = find_year fuel (y + 1) d in if leb (days_before_year (y + 1)) d then rest else y

abbrev find_month : ℕ → ℕ → ℕ → ℕ → ℕ
find_month zero y m d = m
find_month (suc fuel) y m d =
    let rest = find_month fuel y (m + 1) d in
    if leb (days_before_month y (m + 1)) d then rest else m

abbrev of_seconds : ℕ → Tm
of_seconds s =
    let d = s / 86400 in
    let y = find_year 12 (d / 366 + 1) d in
    let doy = d - days_before_year y in
    let m = find_month 11 y 0 doy in
    record {
      tm_sec = pos (s % 60);
      tm_min = pos (s / 60 % 60);
      tm_hour = pos (s / 3600 % 24);
      tm_mday = pos (doy - days_before_month y m + 1);
      tm_mon = pos m;
      tm_year = sub_ℕ y 1900;
      tm_wday = pos ((d + 1) % 7);
      tm_isdst = pos 0;
    }

-- The seconds from the beginning of the year 1 to that of 1970.
abbrev epoch : ℕ
epoch = 719162 * 86400

abbrev seconds_of : Tm → ℕ
seconds_of t =
    let months =
      (pos_part t.tm_year + 1900 - neg_part t.tm_year) * 12
      + pos_part t.tm_mon
      - neg_part t.tm_mon in
    let days = days_before_year (months / 12) + days_before_month (months / 12) (months % 12) in
    (days + pos_part t.tm_mday) * 86400
    + pos_part t.tm_hour * 3600
    + pos_part t.tm_min * 60
    + pos_part t.tm_sec
    - ((neg_part t.tm_mday + 1) * 86400
        + neg_part t.tm_hour * 3600
        + neg_part t.tm_min * 60
        + neg_part t.tm_sec)

abbrev pub utc : Clock
utc = record {
  mktime = λ t. let s = seconds_of t in (of_seconds s, sub_ℕ s epoch);
  localtime = λ time. some (of_seconds (pos_part time + epoch - neg_part time));
  gmtime = λ time. some (of_seconds (pos_part time + epoch - neg_part time));
}
