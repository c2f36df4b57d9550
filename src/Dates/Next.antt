-- ===== src/Dates/Next.antt =====
-- `find_next`, `find_next_day`, `do_next` and `cron_next` of ccronexpr.c.
pub mod Find
pub mod Fixed
pub mod Cases
pub mod Forward
pub mod Days
pub mod Places
pub mod Real
pub mod Progress
pub mod Round
pub mod Sound
pub mod Answer
pub mod Digits
pub mod First
pub mod Nearest
pub mod NearestDay
pub mod Pushes
pub mod LeastSteps
pub mod LeastRound
pub mod Weekdays
pub mod Least
pub mod Finds
use smart_device_svr.Base.{
  ℕ, zero, suc, ◌-◌, ◌+◌, ◌^◌, ◌%◌, Bool, true, false, not, ◌&&◌, ◌||◌, Option, none, some, List,
  [], ◌∷◌, Bytes, ltb, ◌==◌, if◌then◌else◌,
}
use smart_device_svr.Base.Int.{ℤ, pos, negsuc}
use smart_device_svr.Bitset.{cron_get_bit, next_set_bit}
use smart_device_svr.Expr.{
  CronExpr, cron_max_seconds, cron_max_minutes, cron_max_hours, cron_max_months,
}
use smart_device_svr.Calendar.{
  Tm, Clock, Field, second, minute, hour_of_day, day_of_week, day_of_month, month, year, M, pure,
  ◌>>=◌, ◌>>◌, get, lift, attempt, is_invalid, to_unsigned, cron_mktime, add_to_field, reset_min,
  set_field, reset_all_min,
}
use smart_device_svr.Calendar.Fields.{push_to_fields_arr, empty_list}
use smart_device_svr.Dates.Steps.{
  day_mismatch, push_if, unless, minus_unsigned, fail_if, equal_ℤ, answer_of, time_of,
}

module _ (c : Clock) where
  -- The roll-over of `find_next`: the next higher field goes up by one, and the search begins anew.
  unfoldable pub roll_over : Bytes → ℕ → Field → Field → M (ℕ × Bool)
  roll_over bits max field next_field = do
    add_to_field c next_field (pos 1)
    reset_min c field
    lift (next_set_bit bits max 0)

  -- The new value is written, and the lower fields start again.
  unfoldable pub write_value : Field → ℕ → List (Option Field) → M ℕ
  write_value field value lower_orders = do
    set_field c field (pos value)
    reset_all_min c lower_orders
    pure value

  unfoldable pub find_next : Bytes → ℕ → ℕ → Field → Field → List (Option Field) → M ℕ
  find_next bits max value field next_field lower_orders = do
    found ← lift (next_set_bit bits max value)
    last ← (if found.1 then roll_over bits max field next_field else pure found)
    if last.1 || not (last.0 == value) then write_value field last.0 lower_orders else pure last.0

  -- The loop of `find_next_day`, with the rounds left that `count++ < max` allows.
  unfoldable pub find_next_day_from : ℕ → Bytes → ℕ → Bytes → ℕ → List (Option Field) → M ℕ
  find_next_day_from zero days_of_month mday days_of_week wday resets = do
    mismatch ← lift (day_mismatch days_of_month mday days_of_week wday)
    pure mday
  find_next_day_from (suc left) days_of_month mday days_of_week wday resets =
      let again : M ℕ = do
        add_to_field c Field.day_of_month (pos 1)
        t ← get
        attempt (reset_all_min c resets)
        find_next_day_from left days_of_month (to_unsigned t.tm_mday) days_of_week
            (to_unsigned t.tm_wday) resets
      in do
        mismatch ← lift (day_mismatch days_of_month mday days_of_week wday)
        if mismatch then again else pure mday

  unfoldable pub find_next_day : Bytes → ℕ → Bytes → ℕ → List (Option Field) → M ℕ
  find_next_day = find_next_day_from 366

  -- The body of `do_next` from each field on, with `again` for the recursive calls.
  unfoldable pub search_month : M (Unit {0}) → CronExpr → ℕ → List (Option Field) → M (Unit {0})
  search_month again expr dot resets = do
    t ← get
    let mon = to_unsigned t.tm_mon
    mon' ← find_next expr.months cron_max_months mon month year resets
    t ← get
    unless (mon == mon') (fail_if (ltb 4 (minus_unsigned (to_unsigned t.tm_year) dot)) >> again)

  unfoldable pub search_day : M (Unit {0}) → CronExpr → ℕ → List (Option Field) → M (Unit {0})
  unfolding search_month
  search_day again expr dot resets = do
    t ← get
    let d = to_unsigned t.tm_mday
    d' ← find_next_day expr.days_of_month d expr.days_of_week (to_unsigned t.tm_wday) resets
    unless (d == d') again
    search_month again expr dot (push_if (d == d') day_of_month resets)

  unfoldable pub search_hour : M (Unit {0}) → CronExpr → ℕ → List (Option Field) → M (Unit {0})
  unfolding search_day
  search_hour again expr dot resets = do
    t ← get
    let h = to_unsigned t.tm_hour
    h' ← find_next expr.hours cron_max_hours h hour_of_day day_of_week resets
    unless (h == h') again
    search_day again expr dot (push_if (h == h') hour_of_day resets)

  unfoldable pub search_minute : M (Unit {0}) → CronExpr → ℕ → List (Option Field) → M (Unit {0})
  unfolding search_hour
  search_minute again expr dot resets = do
    t ← get
    let m = to_unsigned t.tm_min
    m' ← find_next expr.minutes cron_max_minutes m minute hour_of_day resets
    unless (m == m') again
    search_hour again expr dot (push_if (m == m') minute resets)

  unfoldable pub search_round : M (Unit {0}) → CronExpr → ℕ → M (Unit {0})
  unfolding search_minute
  search_round again expr dot = do
    t ← get
    let s = to_unsigned t.tm_sec
    s' ← find_next expr.seconds cron_max_seconds s second minute empty_list
    search_minute again expr dot (push_if (s == s') second empty_list)

  -- With fuel for the recursion: `none` if it runs out.
  unfoldable pub do_next : ℕ → CronExpr → ℕ → M (Unit {0})
  unfolding search_round
  do_next zero expr dot t = none
  do_next (suc fuel) expr dot t = search_round (do_next fuel expr dot) expr dot t

  -- The second part of `cron_next`: if the search ends where it began, it is made again from the
  -- next second.
  unfoldable pub search_again : ℕ → CronExpr → Bool → M (Unit {0})
  search_again fuel expr false = pure tt
  search_again fuel expr true = do
    add_to_field c second (pos 1)
    t ← get
    do_next fuel expr (to_unsigned t.tm_year)

  unfoldable pub next_of : ℕ → CronExpr → M ℤ
  next_of fuel expr = do
    original ← time_of c
    t ← get
    do_next fuel expr (to_unsigned t.tm_year)
    calculated ← time_of c
    search_again fuel expr (equal_ℤ calculated original)
    time_of c

  -- -1 is CRON_INVALID_INSTANT. The expression is an `Option` as the pointer may be NULL.
  unfoldable pub cron_next : ℕ → Option CronExpr → ℤ → Option ℤ
  cron_next fuel none date = some (negsuc 0)
  cron_next fuel (some expr) date = elim (c.localtime date) [
    | none ↦ some (negsuc 0)
    | some t ↦ answer_of (next_of fuel expr t)
  ]
