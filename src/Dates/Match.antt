-- ===== src/Dates/Match.antt =====
-- When a calendar matches an expression, in the terms of ccronexpr.c.
use smart_device_svr.Base.{◌<◌, ◌≡◌, refl, true, false, some, arith}
use smart_device_svr.Bitset.{member}
use smart_device_svr.Bitset.Laws.{cron_get_bit-member}
use smart_device_svr.Calendar.{Tm, to_unsigned}
use smart_device_svr.Dates.Steps.{day_mismatch}
use smart_device_svr.Expr.{CronExpr}
use smart_device_svr.Expr.Parse.Laws.{IsSized}

-- Each field of the calendar lies within its bounds, and is in the set of its member.
pub record Matches (e : CronExpr) (t : Tm) : Type 0 where
  pub second_within : to_unsigned t.tm_sec < 60
  pub second_in : member e.seconds (to_unsigned t.tm_sec) ≡ true
  pub minute_within : to_unsigned t.tm_min < 60
  pub minute_in : member e.minutes (to_unsigned t.tm_min) ≡ true
  pub hour_within : to_unsigned t.tm_hour < 24
  pub hour_in : member e.hours (to_unsigned t.tm_hour) ≡ true
  pub mday_within : to_unsigned t.tm_mday < 32
  pub mday_in : member e.days_of_month (to_unsigned t.tm_mday) ≡ true
  pub wday_within : to_unsigned t.tm_wday < 8
  pub wday_in : member e.days_of_week (to_unsigned t.tm_wday) ≡ true
  pub month_within : to_unsigned t.tm_mon < 12
  pub month_in : member e.months (to_unsigned t.tm_mon) ≡ true

-- On such a calendar the two day fields agree.
pub Matches-day_mismatch :
    (e : CronExpr) (t : Tm)
    → IsSized e
    → Matches e t
    → day_mismatch e.days_of_month (to_unsigned t.tm_mday) e.days_of_week (to_unsigned t.tm_wday)
      ≡ some false
unfolding day_mismatch
Matches-day_mismatch e t sized m =
    rw
      (
        day_mismatch,
        cron_get_bit-member {n = 4} e.days_of_month (to_unsigned t.tm_mday) sized.days_of_month_size
            (omega arith) (omega (arith, m.mday_within)),
        m.mday_in,
        cron_get_bit-member {n = 1} e.days_of_week (to_unsigned t.tm_wday) sized.days_of_week_size
            (omega arith) (omega (arith, m.wday_within)),
        m.wday_in,
      )
      refl
