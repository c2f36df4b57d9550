-- ===== src/Dates/Next/Places.antt =====
-- The fields that `find_next` of ccronexpr.c steps through, for an expression that the parser accepts.
use smart_device_svr.Base.{ℕ, ◌≤◌, ◌<◌, ◌≡◌, arith}
use smart_device_svr.Base.Int.{ℤ, pos_part}
use smart_device_svr.Calendar.{second, minute, hour_of_day, day_of_week, month, year, to_unsigned}
use smart_device_svr.Dates.Rank.{InRange, to_unsigned_value}
use smart_device_svr.Dates.Next.Forward.{IsPlace}
use smart_device_svr.Expr.{CronExpr}
use smart_device_svr.Expr.Parse.Total.{IsWellFormed}

reads_at :
    (max : ℕ) (n : ℤ)
    → max ≤ 60
    → InRange 0 max n
    → (to_unsigned n ≡ pos_part n) × (to_unsigned n < max)
reads_at max n small (positive, _, lt) =
    let e : to_unsigned n ≡ pos_part n = to_unsigned_value n positive (omega arith) in
    (e, omega arith)

module _ (e : CronExpr) (w : IsWellFormed e) where
  pub seconds-IsPlace : IsPlace second minute 8 60 e.seconds
  seconds-IsPlace = record {
    array = w.sized.seconds_size;
    small = omega arith;
    room = omega arith;
    above = omega arith;
    no_week = λ q. absurd (cc);
    fits = λ i h. h;
    carry = λ a b na nb le. omega (arith, na.second_range, nb.second_range);
    some_value = w.seconds_in.value;
    value_below = (w.seconds_in.bounds w.seconds_in.value w.seconds_in.holds).1;
    value_in = w.seconds_in.holds;
    reads = λ t n. reads_at 60 t.tm_sec (omega arith) n.second_range;
  }

  pub minutes-IsPlace : IsPlace minute hour_of_day 8 60 e.minutes
  minutes-IsPlace = record {
    array = w.sized.minutes_size;
    small = omega arith;
    room = omega arith;
    above = omega arith;
    no_week = λ q. absurd (cc);
    fits = λ i h. h;
    carry = λ a b na nb le. omega (arith, na.minute_range, nb.minute_range);
    some_value = w.minutes_in.value;
    value_below = (w.minutes_in.bounds w.minutes_in.value w.minutes_in.holds).1;
    value_in = w.minutes_in.holds;
    reads = λ t n. reads_at 60 t.tm_min (omega arith) n.minute_range;
  }

  pub hours-IsPlace : IsPlace hour_of_day day_of_week 3 24 e.hours
  hours-IsPlace = record {
    array = w.sized.hours_size;
    small = omega arith;
    room = omega arith;
    above = omega arith;
    no_week = λ q. absurd (cc);
    fits = λ i h. h;
    carry = λ a b na nb le. omega (arith, na.hour_range, nb.hour_range);
    some_value = w.hours_in.value;
    value_below = (w.hours_in.bounds w.hours_in.value w.hours_in.holds).1;
    value_in = w.hours_in.holds;
    reads = λ t n. reads_at 24 t.tm_hour (omega arith) n.hour_range;
  }

  pub months-IsPlace : IsPlace month year 2 12 e.months
  months-IsPlace = record {
    array = w.sized.months_size;
    small = omega arith;
    room = omega arith;
    above = omega arith;
    no_week = λ q. absurd (cc);
    fits = λ i h. h;
    carry = λ a b na nb le. omega (arith, na.month_range, nb.month_range);
    some_value = w.months_in.value;
    value_below = (w.months_in.bounds w.months_in.value w.months_in.holds).1;
    value_in = w.months_in.holds;
    reads = λ t n. reads_at 12 t.tm_mon (omega arith) n.month_range;
  }
