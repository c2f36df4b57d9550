-- ===== src/Tests/Samples.antt =====
-- Data for the runs of ccronexpr.c.
use smart_device_svr.Base.{
  ℕ, true, not, ◌||◌, Bytes, [], ◌∷◌, codes, leb, ◌≡◌, refl, arith, every_below, every_below-at,
}
use smart_device_svr.Base.Int.{pos}
use smart_device_svr.Bitset.{member}
use smart_device_svr.Bitset.Laws.{IsArray}
use smart_device_svr.Bitset.Search.{NoneIn}
use smart_device_svr.Calendar.{Tm}
use smart_device_svr.Expr.{CronExpr}
use smart_device_svr.Programs.Datetime.Written.{Moment, IsMoment}

-- An expression that uses every construct of the syntax.
abbrev pub line : Bytes
line = codes "0 */15 8-18 ? jan,Mar 1-5,sun"

-- What the parse of the line leaves behind.
abbrev pub line_expr : CronExpr
line_expr = record {
  seconds = 1 ∷ 0 ∷ 0 ∷ 0 ∷ 0 ∷ 0 ∷ 0 ∷ 0 ∷ [];
  minutes = 1 ∷ 128 ∷ 0 ∷ 64 ∷ 0 ∷ 32 ∷ 0 ∷ 0 ∷ [];
  hours = 0 ∷ 255 ∷ 7 ∷ [];
  days_of_week = 63 ∷ [];
  days_of_month = 254 ∷ 255 ∷ 255 ∷ 255 ∷ [];
  months = 5 ∷ 0 ∷ [];
}

-- The hours 9 and 13.
abbrev pub hours : Bytes
hours = 0 ∷ 34 ∷ 0 ∷ []

pub hours-IsArray : IsArray 3 hours
hours-IsArray = record { size = refl; bytes = (omega arith, (omega arith, (omega arith, tt))) }

-- A finite check that a set has no member in a part of the array.
pub clear :
    (bits : Bytes) (lo hi : ℕ)
    → every_below hi (λ j. not (leb lo j) || not (member bits j)) ≡ true
    → NoneIn (member bits) lo hi
clear bits lo hi h j le lt =
    ground (arith, every_below-at hi (λ k. not (leb lo k) || not (member bits k)) j h lt)

-- A Thursday.
abbrev pub thursday : Tm
thursday = record {
  tm_sec = pos 0;
  tm_min = pos 30;
  tm_hour = pos 14;
  tm_mday = pos 13;
  tm_mon = pos 10;
  tm_year = pos 125;
  tm_wday = pos 4;
  tm_isdst = pos 0;
}

-- The moment 2019-02-08T12:11 of the help text.
abbrev pub noon : Moment
noon = record { year = 2019; month = 2; day = 8; hour = 12; minute = 11 }

pub noon-IsMoment : IsMoment noon
noon-IsMoment = record {
  year_from = omega arith;
  year_to = omega arith;
  month_from = omega arith;
  month_to = omega arith;
  day_from = omega arith;
  day_to = omega arith;
  hour_to = omega arith;
  minute_to = omega arith;
}
