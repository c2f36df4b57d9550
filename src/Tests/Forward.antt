-- ===== src/Tests/Forward.antt =====
-- The search of ccronexpr.c at a concrete clock that only moves forward.
use mathlib.Core.Option.{some-injective}
use smart_device_svr.Base.{
  ℕ, ◌≤◌, ◌<◌, ◌≡◌, refl, sym, subst, true, not, ◌||◌, some, none, [], ◌∷◌, codes, arith, leb,
  every_below, every_below-at,
}
use smart_device_svr.Bitset.{member}
use smart_device_svr.Calendar.{second}
use smart_device_svr.Calendar.Outcome.{Post}
use smart_device_svr.Dates.Rank.{IsNormal}
use smart_device_svr.Dates.Next.{find_next_day}
use smart_device_svr.Dates.Next.Days.{Stepped, find_next_day-Post}
use smart_device_svr.Dates.Next.Progress.{DayTells, every_day-DayTells}
use smart_device_svr.Expr.{CronExpr, zeroed}
use smart_device_svr.Expr.Parse.{cron_parse_expr}
use smart_device_svr.Expr.Parse.Total.{IsWellFormed, cron_parse_expr-IsWellFormed}
use smart_device_svr.Text.{split_str, has_char}
use smart_device_svr.Text.Decimal.{to_string}
use smart_device_svr.Text.Number.{parse_uint}
use smart_device_svr.Expr.Range.{get_range}
use smart_device_svr.Tests.Ideal.{ideal, ideal-IsSteady, date_of-IsNormal, number}
use smart_device_svr.Tests.Samples.{thursday}

-- At ten at night, every day.
abbrev pub evening : CronExpr
evening = record zeroed {
  seconds = 1 ∷ 0 ∷ 0 ∷ 0 ∷ 0 ∷ 0 ∷ 0 ∷ 0 ∷ [];
  minutes = 1 ∷ 0 ∷ 0 ∷ 0 ∷ 0 ∷ 0 ∷ 0 ∷ 0 ∷ [];
  hours = 0 ∷ 0 ∷ 64 ∷ [];
  days_of_week = 127 ∷ [];
  days_of_month = 254 ∷ 255 ∷ 255 ∷ 255 ∷ [];
  months = 255 ∷ 15 ∷ [];
}

evening-parse : (e : CronExpr) × (some evening ≡ some e) × IsWellFormed e
unfolding cron_parse_expr split_str has_char get_range parse_uint to_string
evening-parse =
    cron_parse_expr-IsWellFormed (codes "0 0 22 * * ?") zeroed
      (record { target = some evening; error = none }) refl refl

pub evening-IsWellFormed : IsWellFormed evening
evening-IsWellFormed =
    let (e, same, w) = evening-parse in
    subst (λ x. IsWellFormed x) (sym (some-injective evening e same)) w

every_mday : (d : ℕ) → 1 ≤ d → d < 32 → member evening.days_of_month d ≡ true
unfolding every_below member
every_mday d lo hi =
    ground
      (arith, every_below-at 32 (λ k. not (leb 1 k) || member evening.days_of_month k) d refl hi)

every_wday : (d : ℕ) → d < 7 → member evening.days_of_week d ≡ true
unfolding every_below member
every_wday d hi = every_below-at 7 (λ k. member evening.days_of_week k) d refl hi

pub thursday-IsNormal : IsNormal thursday
thursday-IsNormal = date_of-IsNormal (number thursday) (omega arith)

pub evening-DayTells : DayTells ideal evening
evening-DayTells = every_day-DayTells ideal evening evening-IsWellFormed.sized every_mday every_wday

find_next_day-Post_example :
    Post (Stepped evening.days_of_month evening.days_of_week 13 4 thursday) (
      find_next_day ideal evening.days_of_month 13 evening.days_of_week 4
        (some second ∷ [])
        thursday)
find_next_day-Post_example =
    find_next_day-Post evening-IsWellFormed.sized.days_of_month_size
      evening-IsWellFormed.sized.days_of_week_size ideal ideal-IsSteady (some second ∷ [])
      (omega arith, tt) thursday thursday-IsNormal
