-- ===== src/Dates/Prev/Fixed.antt =====
-- `do_prev` of ccronexpr.c on a calendar that matches.
use smart_device_svr.Base.{ℕ, suc, ◌≡◌, ◌∙◌, refl, Option, some, List, arith, ◌==◌}
use smart_device_svr.Calendar.{
  M, Tm, Clock, Field, to_unsigned, second, minute, hour_of_day, day_of_week, day_of_month, month,
  year,
}
use smart_device_svr.Calendar.Fields.{empty_list}
use smart_device_svr.Calendar.Monad.{then-some}
use smart_device_svr.Dates.Match.{Matches, Matches-day_mismatch}
use smart_device_svr.Dates.Steps.{unless, push_if, unless_same}
use smart_device_svr.Dates.Prev.{
  find_prev, find_prev_day_from, find_prev_day, search_round, do_prev,
}
use smart_device_svr.Dates.Prev.Find.{find_prev_here}
use smart_device_svr.Expr.{CronExpr}
use smart_device_svr.Expr.Parse.Laws.{IsSized}

module _ (c : Clock) (e : CronExpr) (t : Tm) (sized : IsSized e) (m : Matches e t) where
  -- The values of the fields, and the calls of a round.
  abbrev value_second : ℕ
  value_second = to_unsigned t.tm_sec

  abbrev search_second : List (Option Field) → M ℕ
  search_second = find_prev c e.seconds 60 value_second second minute

  abbrev value_minute : ℕ
  value_minute = to_unsigned t.tm_min

  abbrev search_minute : List (Option Field) → M ℕ
  search_minute = find_prev c e.minutes 60 value_minute minute hour_of_day

  abbrev value_hour : ℕ
  value_hour = to_unsigned t.tm_hour

  abbrev search_hour : List (Option Field) → M ℕ
  search_hour = find_prev c e.hours 24 value_hour hour_of_day day_of_week

  abbrev value_month : ℕ
  value_month = to_unsigned t.tm_mon

  abbrev search_month : List (Option Field) → M ℕ
  search_month = find_prev c e.months 12 value_month month year

  abbrev value_day : ℕ
  value_day = to_unsigned t.tm_mday

  abbrev search_day : List (Option Field) → M ℕ
  search_day = find_prev_day c e.days_of_month value_day e.days_of_week (to_unsigned t.tm_wday)

  second_here : (l : List (Option Field)) → search_second l t ≡ some (t, some value_second)
  second_here l =
      find_prev_here c {n = 8} {max = 60} e.seconds sized.seconds_size (omega arith) (omega arith)
        second minute l t value_second m.second_within m.second_in

  minute_here : (l : List (Option Field)) → search_minute l t ≡ some (t, some value_minute)
  minute_here l =
      find_prev_here c {n = 8} {max = 60} e.minutes sized.minutes_size (omega arith) (omega arith)
        minute hour_of_day l t value_minute m.minute_within m.minute_in

  hour_here : (l : List (Option Field)) → search_hour l t ≡ some (t, some value_hour)
  hour_here l =
      find_prev_here c {n = 3} {max = 24} e.hours sized.hours_size (omega arith) (omega arith)
        hour_of_day day_of_week l t value_hour m.hour_within m.hour_in

  month_here : (l : List (Option Field)) → search_month l t ≡ some (t, some value_month)
  month_here l =
      find_prev_here c {n = 2} {max = 12} e.months sized.months_size (omega arith) (omega arith)
        month year l t value_month m.month_within m.month_in

  day_here : (l : List (Option Field)) → search_day l t ≡ some (t, some value_day)
  unfolding find_prev_day find_prev_day_from
  day_here l = rw (Matches-day_mismatch e t sized m) refl

  -- The lists of resets of a round.
  abbrev resets_1 : List (Option Field)
  resets_1 = push_if (value_second == value_second) second empty_list

  abbrev resets_2 : List (Option Field)
  resets_2 = push_if (value_minute == value_minute) minute resets_1

  abbrev resets_3 : List (Option Field)
  resets_3 = push_if (value_hour == value_hour) hour_of_day resets_2

  abbrev resets_4 : List (Option Field)
  resets_4 = push_if (value_day == value_day) day_of_month resets_3

  search_round_here :
      (again : M (Unit {0})) (dot : ℕ) → search_round c again e dot t ≡ some (t, some tt)
  unfolding search_round
  search_round_here again dot =
      then-some (search_second empty_list) _ t t value_second (second_here empty_list)
      ∙ then-some (search_minute resets_1) _ t t value_minute (minute_here resets_1)
      ∙ then-some (unless (value_minute == value_minute) again) _ t t tt
          (unless_same value_minute again t)
      ∙ then-some (search_hour resets_2) _ t t value_hour (hour_here resets_2)
      ∙ then-some (unless (value_hour == value_hour) again) _ t t tt
          (unless_same value_hour again t)
      ∙ then-some (search_day resets_3) _ t t value_day (day_here resets_3)
      ∙ then-some (unless (value_day == value_day) again) _ t t tt (unless_same value_day again t)
      ∙ then-some (search_month resets_4) _ t t value_month (month_here resets_4)
      ∙ unless_same value_month _ t

  -- On a calendar whose fields all match an expression with arrays of the declared sizes, `do_prev`
  -- ends in one round and changes nothing, whatever the clock.
  pub do_prev-Matches : (fuel dot : ℕ) → do_prev c (suc fuel) e dot t ≡ some (t, some tt)
  unfolding do_prev
  do_prev-Matches fuel dot = search_round_here (do_prev c fuel e dot) dot
