-- ===== src/Tests/Ideal.antt =====
-- A clock that carries: months of 31 days, and every day of the week in turn.
use native.Mathlib.Decide.{dec_lt}
use smart_device_svr.Base.{
  ℕ, ◌+◌, ◌-◌, ◌*◌, ◌/◌, ◌%◌, ◌^◌, ◌≤◌, ◌<◌, ◌≡◌, refl, sym, ap, subst, Bool, true, false, some,
  arith, ltb, ltb→lt, if◌then◌else◌,
}
use smart_device_svr.Base.Int.{ℤ, pos, negsuc, pos_part, neg_part, ◌+ℤ◌}
use smart_device_svr.Calendar.{
  Tm, Clock, Field, second, minute, hour_of_day, day_of_week, day_of_month, month, year, added,
  is_invalid, cron_mktime,
}
use smart_device_svr.Calendar.Fields.{code_of}
use smart_device_svr.Dates.Rank.{IsNormal, rank, rank_day, rank_at, rank_at-le}
use smart_device_svr.Dates.Steady.{IsSteady}
use smart_device_svr.Tests.Samples.{thursday}

invalid_at : (b : Bool) (n : ℕ) → is_invalid (if b then pos n else negsuc 0) ≡ false → b ≡ true
invalid_at true n h = refl
invalid_at false n h = absurd (cc)

plus_one :
    (n : ℤ)
    → (pos_part (n +ℤ pos 1) + neg_part n ≡ pos_part n + 1 + neg_part (n +ℤ pos 1))
      × (neg_part (n +ℤ pos 1) ≤ neg_part n)
unfolding ◌+ℤ◌
plus_one (pos n) = ground arith
plus_one (negsuc n) = ground arith

-- The date of a day and a time of day.
abbrev pub date_at : ℕ → ℕ → ℕ → ℕ → Tm
date_at day hour min sec = record {
  tm_sec = pos sec;
  tm_min = pos min;
  tm_hour = pos hour;
  tm_mday = pos (day % 31 + 1);
  tm_mon = pos (day / 31 % 12);
  tm_year = pos (day / 372);
  tm_wday = pos ((day + 5) % 7);
  tm_isdst = pos 0;
}

abbrev pub date_of : ℕ → Tm
date_of n = date_at (n / 86400) (n / 3600 % 24) (n / 60 % 60) (n % 60)

abbrev pub day_number : Tm → ℕ
day_number t = (pos_part t.tm_year * 12 + pos_part t.tm_mon) * 31 + (pos_part t.tm_mday - 1)

abbrev pub number : Tm → ℕ
number t =
    day_number t * 86400 + pos_part t.tm_hour * 3600 + pos_part t.tm_min * 60 + pos_part t.tm_sec

-- The first number of a year that an `int` does not hold.
abbrev pub last_number : ℕ
last_number = 2 ^ 31 * 372 * 86400

abbrev pub ideal : Clock
ideal = record {
  mktime =
      λ t. (date_of (number t), if ltb (number t) last_number then pos (number t) else negsuc 0);
  localtime = λ date. some thursday;
  gmtime = λ date. some thursday;
}

pub day_number_lem : (d h m s : ℕ) → day_number (date_at d h m s) ≡ d
day_number_lem d h m s = omega arith

pub date_of-IsNormal : (n : ℕ) → n < last_number → IsNormal (date_of n)
date_of-IsNormal n lt = record {
  second_range = (refl, omega arith, omega arith);
  minute_range = (refl, omega arith, omega arith);
  hour_range = (refl, omega arith, omega arith);
  mday_range = (refl, omega arith, omega arith);
  month_range = (refl, omega arith, omega arith);
  wday_range = (refl, omega arith, omega arith);
  year_below = omega arith;
  year_above = omega arith;
}

number-date_of : (n : ℕ) → number (date_of n) ≡ n
number-date_of n = omega (arith, day_number_lem (n / 86400) (n / 3600 % 24) (n / 60 % 60) (n % 60))

pub date_of-at :
    (d h m s : ℕ)
    → h < 24
    → m < 60
    → s < 60
    → date_of (d * 86400 + h * 3600 + m * 60 + s) ≡ date_at d h m s
date_of-at d h m s hh hm hs =
    let n = d * 86400 + h * 3600 + m * 60 + s in
    let q1 : n / 86400 ≡ d = omega arith in
    let q2 : n / 3600 % 24 ≡ h = omega arith in
    let q3 : n / 60 % 60 ≡ m = omega arith in
    let q4 : n % 60 ≡ s = omega arith in rw (q1, q2, q3, q4) refl

-- The rank of a day grows with its number.
abbrev day_rank : ℕ → ℕ
day_rank d = ((d / 372 + 2 ^ 31) * 12 + d / 31 % 12) * 32 + (d % 31 + 1)

day_rank_le : (d d' : ℕ) → d ≤ d' → day_rank d ≤ day_rank d'
day_rank_le d d' h = omega arith

day_rank_lt : (d d' : ℕ) → d < d' → day_rank d < day_rank d'
day_rank_lt d d' h = omega arith

day_rank-day_number : (t : Tm) → IsNormal t → rank_day t ≤ day_rank (day_number t)
day_rank-day_number t n = omega (arith, n.mday_range, n.month_range, n.year_above)

pub number-lt : (t : Tm) → IsNormal t → number t < last_number
number-lt t n =
    omega (
      arith, n.mday_range, n.month_range, n.year_below, n.hour_range, n.minute_range,
      n.second_range,
    )

date_of-number :
    (t : Tm)
    → IsNormal t
    → date_of (number t)
      ≡ date_at (day_number t) (pos_part t.tm_hour) (pos_part t.tm_min) (pos_part t.tm_sec)
date_of-number t n =
    date_of-at (day_number t) (pos_part t.tm_hour) (pos_part t.tm_min) (pos_part t.tm_sec)
      n.hour_range.2 n.minute_range.2 n.second_range.2

rank_kept : (t : Tm) → IsNormal t → rank t ≤ rank (date_of (number t))
rank_kept t n =
    subst (λ u. rank t ≤ rank u) (sym (date_of-number t n)) (omega (arith, day_rank-day_number t n))

-- How far a field goes.
abbrev pub unit_of : Field → ℕ
unit_of second = 1
unit_of minute = 60
unit_of hour_of_day = 3600
unit_of _ = 86400

hour_le :
    (a b : ℕ)
    → a / 3600 ≤ b / 3600
    → rank_at hour_of_day (date_of a) ≤ rank_at hour_of_day (date_of b)
hour_le a b le = elim (dec_lt (a / 86400) (b / 86400)) [
  | yes less ↦ omega (arith, day_rank_lt (a / 86400) (b / 86400) less)
  | no same ↦ let q : a / 86400 ≡ b / 86400 = omega arith in omega (arith, ap day_rank q)
]

minute_le : (a b : ℕ) → a / 60 ≤ b / 60 → rank_at minute (date_of a) ≤ rank_at minute (date_of b)
minute_le a b le = omega (arith, hour_le a b (omega arith))

second_le : (a b : ℕ) → a ≤ b → rank (date_of a) ≤ rank (date_of b)
second_le a b le = omega (arith, minute_le a b (omega arith))

pub rank_at-date_of_le :
    (f : Field) (a b : ℕ)
    → code_of f < 5
    → a / unit_of f ≤ b / unit_of f
    → rank_at f (date_of a) ≤ rank_at f (date_of b)
rank_at-date_of_le second a b h le = second_le a b (omega arith)
rank_at-date_of_le minute a b h le = minute_le a b le
rank_at-date_of_le hour_of_day a b h le = hour_le a b le
rank_at-date_of_le day_of_week a b h le = omega (arith, day_rank_le (a / 86400) (b / 86400) le)
rank_at-date_of_le day_of_month a b h le = omega (arith, day_rank_le (a / 86400) (b / 86400) le)
rank_at-date_of_le month a b h le = absurd (omega arith)
rank_at-date_of_le year a b h le = absurd (omega arith)

hour_lt :
    (a b : ℕ)
    → a / 3600 < b / 3600
    → rank_at hour_of_day (date_of a) < rank_at hour_of_day (date_of b)
hour_lt a b lt = elim (dec_lt (a / 86400) (b / 86400)) [
  | yes less ↦ omega (arith, day_rank_lt (a / 86400) (b / 86400) less)
  | no same ↦ let q : a / 86400 ≡ b / 86400 = omega arith in omega (arith, ap day_rank q)
]

minute_lt : (a b : ℕ) → a / 60 < b / 60 → rank_at minute (date_of a) < rank_at minute (date_of b)
minute_lt a b lt = elim (dec_lt (a / 3600) (b / 3600)) [
  | yes less ↦ omega (arith, hour_lt a b less)
  | no same ↦ omega (arith, hour_le a b (omega arith))
]

pub second_lt : (a b : ℕ) → a < b → rank (date_of a) < rank (date_of b)
second_lt a b lt = elim (dec_lt (a / 60) (b / 60)) [
  | yes less ↦ omega (arith, minute_lt a b less)
  | no same ↦ omega (arith, minute_le a b (omega arith))
]

pub rank_at-date_of_lt :
    (f : Field) (a b : ℕ)
    → code_of f < 5
    → a / unit_of f < b / unit_of f
    → rank_at f (date_of a) < rank_at f (date_of b)
rank_at-date_of_lt second a b h lt = second_lt a b (omega arith)
rank_at-date_of_lt minute a b h lt = minute_lt a b lt
rank_at-date_of_lt hour_of_day a b h lt = hour_lt a b lt
rank_at-date_of_lt day_of_week a b h lt = omega (arith, day_rank_lt (a / 86400) (b / 86400) lt)
rank_at-date_of_lt day_of_month a b h lt = omega (arith, day_rank_lt (a / 86400) (b / 86400) lt)
rank_at-date_of_lt month a b h lt = absurd (omega arith)
rank_at-date_of_lt year a b h lt = absurd (omega arith)

pub unit_step : (f : Field) (n : ℕ) → (n + unit_of f) / unit_of f ≡ n / unit_of f + 1
unit_step second n = omega arith
unit_step minute n = omega arith
unit_step hour_of_day n = omega arith
unit_step day_of_week n = omega arith
unit_step day_of_month n = omega arith
unit_step month n = omega arith
unit_step year n = omega arith

-- What a date that is normalised becomes is no earlier, at any field of a time of day.
kept_at :
    (f : Field) (t : Tm) → code_of f < 5 → IsNormal t → rank_at f t ≤ rank_at f (date_of (number t))
kept_at f t h n =
    rank_at-le t (date_of (number t)) n (date_of-IsNormal (number t) (number-lt t n)) f
      (rank_kept t n)

pub raised_number :
    (f : Field) (t : Tm)
    → code_of f < 5
    → IsNormal t
    → number (added f (pos 1) t) ≡ number t + unit_of f
raised_number second t h n = omega (arith, plus_one t.tm_sec, n.second_range.0)
raised_number minute t h n = omega (arith, plus_one t.tm_min, n.minute_range.0)
raised_number hour_of_day t h n = omega (arith, plus_one t.tm_hour, n.hour_range.0)
raised_number day_of_week t h n = omega (arith, plus_one t.tm_mday, n.mday_range)
raised_number day_of_month t h n = omega (arith, plus_one t.tm_mday, n.mday_range)
raised_number month t h n = absurd (omega arith)
raised_number year t h n = absurd (omega arith)

raised_low :
    (f : Field) (t : Tm)
    → code_of f < 5
    → IsNormal t
    → rank_at f t < rank_at f (date_of (number (added f (pos 1) t)))
raised_low f t h n =
    let up : rank_at f (date_of (number t)) < rank_at f (date_of (number t + unit_of f)) =
      rank_at-date_of_lt f (number t) (number t + unit_of f) h
        (omega (arith, unit_step f (number t))) in
    subst (λ k. rank_at f t < rank_at f (date_of k)) (sym (raised_number f t h n))
      (omega (arith, kept_at f t h n))

raised :
    (f : Field) (t : Tm)
    → IsNormal t
    → rank_at f t < rank_at f (date_of (number (added f (pos 1) t)))
raised second t n = raised_low second t (omega arith) n
raised minute t n = raised_low minute t (omega arith) n
raised hour_of_day t n = raised_low hour_of_day t (omega arith) n
raised day_of_week t n = raised_low day_of_week t (omega arith) n
raised day_of_month t n = raised_low day_of_month t (omega arith) n
raised month t n = omega (
  arith,
  plus_one t.tm_mon,
  n.month_range,
  n.mday_range,
  n.hour_range,
  n.minute_range,
  n.second_range,
  n.year_above,
)
raised year t n = omega (
  arith,
  plus_one t.tm_year,
  n.month_range,
  n.mday_range,
  n.hour_range,
  n.minute_range,
  n.second_range,
  n.year_above,
)

in_time :
    (n : ℕ) → is_invalid (if ltb n last_number then pos n else negsuc 0) ≡ false → n < last_number
in_time n valid = ltb→lt n last_number (invalid_at (ltb n last_number) n valid)

pub ideal-IsSteady : IsSteady ideal
unfolding cron_mktime
ideal-IsSteady = record {
  keeps = λ t n. (date_of-IsNormal (number t) (number-lt t n), rank_kept t n);
  carries = λ f t n valid. (
    date_of-IsNormal (number (added f (pos 1) t)) (in_time (number (added f (pos 1) t)) valid),
    raised f t n,
  );
  keeps_second = λ v t lt n. ap pos (omega arith);
  settles = λ t.
      ap (λ k. (date_of k, if ltb k last_number then pos k else negsuc 0))
        (number-date_of (number t));
}
