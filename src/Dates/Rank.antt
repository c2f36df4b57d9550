-- ===== src/Dates/Rank.antt =====
-- The order of calendars, in the terms of the fields that ccronexpr.c steps through.
use native.Mathlib.Decide.{dec_lt}
use smart_device_svr.Base.{ℕ, ◌+◌, ◌-◌, ◌*◌, ◌^◌, ◌≤◌, ◌<◌, ◌≡◌, ◌≢◌, arith}
use smart_device_svr.Base.Int.{ℤ, pos, negsuc, pos_part, neg_part}
use smart_device_svr.Calendar.{
  Tm, Field, second, minute, hour_of_day, day_of_week, day_of_month, month, year, to_unsigned,
  written,
}
use smart_device_svr.Calendar.Fields.{code_of}

-- A number from 0 to below `max`, or from `min`.
abbrev pub InRange : ℕ → ℕ → ℤ → Type 0
InRange min max n = (neg_part n ≡ 0) × (min ≤ pos_part n) × (pos_part n < max)

-- The ranges of a calendar that `mktime` has normalised; the year is an `int`.
pub record IsNormal (t : Tm) : Type 0 where
  pub second_range : InRange 0 60 t.tm_sec
  pub minute_range : InRange 0 60 t.tm_min
  pub hour_range : InRange 0 24 t.tm_hour
  pub mday_range : InRange 1 32 t.tm_mday
  pub month_range : InRange 0 12 t.tm_mon
  pub wday_range : InRange 0 7 t.tm_wday
  pub year_below : pos_part t.tm_year < 2 ^ 31
  pub year_above : neg_part t.tm_year ≤ 2 ^ 31

-- The calendar down to a field as one number: later calendars have greater ones.
abbrev pub rank_year : Tm → ℕ
rank_year t = pos_part t.tm_year + 2 ^ 31 - neg_part t.tm_year

abbrev pub rank_month : Tm → ℕ
rank_month t = rank_year t * 12 + pos_part t.tm_mon

abbrev pub rank_day : Tm → ℕ
rank_day t = rank_month t * 32 + pos_part t.tm_mday

abbrev pub rank_hour : Tm → ℕ
rank_hour t = rank_day t * 24 + pos_part t.tm_hour

abbrev pub rank_minute : Tm → ℕ
rank_minute t = rank_hour t * 60 + pos_part t.tm_min

abbrev pub rank : Tm → ℕ
rank t = rank_minute t * 60 + pos_part t.tm_sec

abbrev pub rank_at : Field → Tm → ℕ
rank_at year t = rank_year t
rank_at month t = rank_month t
rank_at day_of_month t = rank_day t
rank_at day_of_week t = rank_day t
rank_at hour_of_day t = rank_hour t
rank_at minute t = rank_minute t
rank_at second t = rank t

-- No calendar has a greater rank.
abbrev pub rank_bound : ℕ
rank_bound = 2 ^ 32 * 12 * 32 * 24 * 3600 + 32 * 24 * 3600

pub rank-lt-bound : (t : Tm) → IsNormal t → rank t < rank_bound
rank-lt-bound t n =
    omega (
      arith, n.year_below, n.month_range, n.mday_range, n.hour_range, n.minute_range,
      n.second_range,
    )

module _ (t t' : Tm) (n : IsNormal t) (n' : IsNormal t') where
  pub rank_at-lt : (f : Field) → rank_at f t < rank_at f t' → rank t < rank t'
  rank_at-lt second h = h
  rank_at-lt minute h = omega (arith, n.second_range, n'.second_range)
  rank_at-lt hour_of_day h =
      omega (arith, n.second_range, n'.second_range, n.minute_range, n'.minute_range)
  rank_at-lt day_of_week h = omega (
    arith, n.second_range, n'.second_range, n.minute_range, n'.minute_range, n.hour_range,
    n'.hour_range,
  )
  rank_at-lt day_of_month h = omega (
    arith, n.second_range, n'.second_range, n.minute_range, n'.minute_range, n.hour_range,
    n'.hour_range,
  )
  rank_at-lt month h = omega (
    arith, n.second_range, n'.second_range, n.minute_range, n'.minute_range, n.hour_range,
    n'.hour_range, n.mday_range, n'.mday_range,
  )
  rank_at-lt year h = omega (
    arith, n.second_range, n'.second_range, n.minute_range, n'.minute_range, n.hour_range,
    n'.hour_range, n.mday_range, n'.mday_range, n.month_range, n'.month_range,
  )

pub rank_at-le :
    (t t' : Tm) (n : IsNormal t) (n' : IsNormal t') (f : Field)
    → rank t ≤ rank t'
    → rank_at f t ≤ rank_at f t'
rank_at-le t t' n n' f h = elim (dec_lt (rank_at f t') (rank_at f t)) [
  | yes less ↦ absurd (omega (arith, rank_at-lt t' t n' n f less))
  | no other ↦ omega arith
]

-- A write below a field leaves the rank at that field.
pub rank_at-written :
    (f g : Field) (v : ℤ) (t : Tm) → code_of g < code_of f → rank_at f (written g v t) ≡ rank_at f t
rank_at-written f g v t h = ground arith

abbrev pub value_of : Field → Tm → ℤ
value_of second t = t.tm_sec
value_of minute t = t.tm_min
value_of hour_of_day t = t.tm_hour
value_of day_of_week t = t.tm_wday
value_of day_of_month t = t.tm_mday
value_of month t = t.tm_mon
value_of year t = t.tm_year

-- The values that a field may be set to; the year is never set.
abbrev pub Fits : Field → ℕ → Type 0
Fits second v = v < 60
Fits minute v = v < 60
Fits hour_of_day v = v < 24
Fits day_of_week v = v < 7
Fits day_of_month v = (1 ≤ v) × (v < 32)
Fits month v = v < 12
Fits year v = ⊥

pub written-IsNormal :
    (f : Field) (v : ℕ) (t : Tm) → Fits f v → IsNormal t → IsNormal (written f (pos v) t)
written-IsNormal second v t h n = omega arith
written-IsNormal minute v t h n = omega arith
written-IsNormal hour_of_day v t h n = omega arith
written-IsNormal day_of_week v t h n = omega arith
written-IsNormal day_of_month v t h n = omega arith
written-IsNormal month v t h n = omega arith
written-IsNormal year v t h n = absurd h

-- The numbers that the code reads are the fields.
pub to_unsigned_value : (n : ℤ) → neg_part n ≡ 0 → pos_part n < 2 ^ 32 → to_unsigned n ≡ pos_part n
to_unsigned_value (pos n) e h = omega arith
to_unsigned_value (negsuc n) e h = absurd (omega arith)

-- A greater value of a field makes the calendar later.
pub rank_at-write_lt :
    (f : Field) (v : ℕ) (t : Tm)
    → Fits f v
    → f ≢ day_of_week
    → pos_part (value_of f t) < v
    → rank_at f t < rank_at f (written f (pos v) t)
rank_at-write_lt f v t fits ne h = ground arith
