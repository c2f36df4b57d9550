-- ===== src/Tests/Workdays.antt =====
-- The search of ccronexpr.c for an expression of working days.
use mathlib.Core.Option.{some-injective}
use smart_device_svr.Base.{
  ℕ, ◌+◌, ◌≤◌, ◌<◌, ◌≡◌, refl, sym, subst, true, not, ◌||◌, some, none, [], ◌∷◌, codes, arith, leb,
  every_below, every_below-at, false, ◌==◌, ltb, lt→ltb, if◌then◌else◌, Returns, ◌⊎◌,
}
use smart_device_svr.Bitset.{member}
use smart_device_svr.Dates.Next.Progress.{TellsDays, DayTells, Found}
use smart_device_svr.Calendar.Outcome.{Post}
use smart_device_svr.Dates.Next.Sound.{do_next-Sound}
use smart_device_svr.Dates.Next.Answer.{IsAnswer, cron_next-Sound}
use smart_device_svr.Dates.Next.Weekdays.{find_next_day-TellsDays}
use smart_device_svr.Expr.{CronExpr, zeroed}
use smart_device_svr.Expr.Parse.{cron_parse_expr}
use smart_device_svr.Expr.Parse.Total.{IsWellFormed, cron_parse_expr-IsWellFormed}
use smart_device_svr.Expr.Range.{get_range}
use smart_device_svr.Text.{split_str, has_char}
use smart_device_svr.Text.Decimal.{to_string}
use smart_device_svr.Text.Number.{parse_uint}
use smart_device_svr.Tests.Forward.{evening}
use smart_device_svr.Tests.Ideal.{
  ideal, ideal-IsSteady, number, unit_of, second_lt, raised_number, last_number, date_of-IsNormal,
}
use smart_device_svr.Tests.IdealExact.{ideal-IsExact, ideal-IsWeekly, rank_of}
use native.Mathlib.Decide.{dec_lt}
use smart_device_svr.Base.Int.{pos, negsuc}
use smart_device_svr.Calendar.{Tm, Field, second, is_invalid, cron_mktime}
use smart_device_svr.Dates.Exact.{IsReal, IsLone}
use smart_device_svr.Dates.Match.{Matches}
use smart_device_svr.Dates.Rank.{rank, rank_bound}
use smart_device_svr.Dates.Next.{cron_next, do_next}
use smart_device_svr.Dates.Next.Least.{IsEveryMonth, IsNext}
use smart_device_svr.Dates.Next.Finds.{Raisable, cron_next-Finds}
use smart_device_svr.Tests.Samples.{thursday}
use smart_device_svr.Tests.Exact.{thursday-IsReal, after_epoch}

-- At ten at night, from Monday to Friday.
abbrev pub workdays : CronExpr
workdays = record evening { days_of_week = 62 ∷ [] }

workdays_parse : (e : CronExpr) × (some workdays ≡ some e) × IsWellFormed e
unfolding cron_parse_expr split_str has_char get_range parse_uint to_string
workdays_parse =
    cron_parse_expr-IsWellFormed (codes "0 0 22 * * 1-5") zeroed
      (record { target = some workdays; error = none }) refl refl

pub workdays-IsWellFormed : IsWellFormed workdays
workdays-IsWellFormed =
    let (e, same, w) = workdays_parse in
    subst (λ x. IsWellFormed x) (sym (some-injective workdays e same)) w

every_mday : (d : ℕ) → 1 ≤ d → d < 32 → member workdays.days_of_month d ≡ true
unfolding every_below member
every_mday d lo hi =
    ground
      (arith, every_below-at 32 (λ k. not (leb 1 k) || member workdays.days_of_month k) d refl hi)

find_next_day-TellsDays_example : TellsDays ideal workdays
find_next_day-TellsDays_example =
    find_next_day-TellsDays ideal workdays 1 ideal-IsSteady ideal-IsExact ideal-IsWeekly
      workdays-IsWellFormed.sized every_mday (omega arith) (unfold member in refl)

workdays-IsLone : IsLone 0 workdays
unfolding every_below member
workdays-IsLone j lt on =
    let table = every_below-at 60 (λ k. (k == 0) || not (member workdays.seconds k)) j refl lt in
    ground arith

pub workdays-IsEveryMonth : IsEveryMonth workdays
unfolding every_below member
workdays-IsEveryMonth m h =
    ground (arith, every_below-at 12 (λ k. member workdays.months k) m refl h)

pub workdays-TellsDays : TellsDays ideal workdays
workdays-TellsDays =
    find_next_day-TellsDays ideal workdays 1 ideal-IsSteady ideal-IsExact ideal-IsWeekly
      workdays-IsWellFormed.sized every_mday (omega arith) (unfold member in refl)

-- The same Thursday, at ten at night.
abbrev pub ten : Tm
ten = record thursday { tm_hour = pos 22; tm_min = pos 0 }

pub ten-IsReal : IsReal ideal ten
unfolding cron_mktime
ten-IsReal = (date_of-IsNormal (number ten) (omega arith), refl)

pub workdays-Matches : Matches workdays ten
unfolding member
workdays-Matches = record {
  second_within = omega arith;
  second_in = refl;
  minute_within = omega arith;
  minute_in = refl;
  hour_within = omega arith;
  hour_in = refl;
  mday_within = omega arith;
  mday_in = refl;
  wday_within = omega arith;
  wday_in = refl;
  month_within = omega arith;
  month_in = refl;
}

raised_valid :
    (n : ℕ) → n < last_number → is_invalid (if ltb n last_number then pos n else negsuc 0) ≡ false
raised_valid n lt = rw (lt→ltb n last_number lt) refl

number_le : (u d : Tm) → IsReal ideal u → IsReal ideal d → rank u ≤ rank d → number u ≤ number d
number_le u d ru rd le = elim (dec_lt (number d) (number u)) [
  | yes lt ↦
      absurd (
        omega (arith, second_lt (number d) (number u) lt, rank_of second u ru, rank_of second d rd))
  | no other ↦ omega arith
]

unit_le : (f : Field) → unit_of f ≤ 86400
unit_le f = ground arith

pub ten-Raisable : Raisable ideal thursday ten
unfolding cron_mktime
ten-Raisable u f ru from to five =
    let below : number u ≤ number ten = number_le u ten ru ten-IsReal to in
    subst (λ k. is_invalid (if ltb k last_number then pos k else negsuc 0) ≡ false)
      (sym (raised_number f u five ru.0))
      (raised_valid (number u + unit_of f) (omega (arith, unit_le f)))

cron_next-Finds_example :
    Returns
      (cron_next ideal rank_bound (some workdays) (pos 1763044200))
      (IsNext ideal workdays thursday)
cron_next-Finds_example =
    cron_next-Finds ideal 0 workdays rank_bound (pos 1763044200) thursday ten ideal-IsSteady
      ideal-IsExact workdays-IsWellFormed workdays-IsLone workdays-IsEveryMonth workdays-TellsDays
      refl thursday-IsReal (after_epoch thursday) ten-IsReal workdays-Matches (omega arith)
      ten-Raisable (omega arith)

-- On this clock every date lies after the epoch.
pub workdays-DayTells : DayTells ideal workdays
workdays-DayTells resets t t' below real run =
    workdays-TellsDays resets t t' below real (after_epoch t) run

do_next-Sound_example :
    Post (λ t' _. Found ideal workdays thursday t') (do_next ideal rank_bound workdays 125 thursday)
do_next-Sound_example =
    do_next-Sound ideal workdays rank_bound 125 thursday ideal-IsSteady workdays-IsWellFormed
      workdays-DayTells thursday-IsReal (omega arith)

cron_next-Sound_example :
    Returns
      (cron_next ideal rank_bound (some workdays) (pos 1763044200))
      (λ time. (time ≡ negsuc 0) ⊎ IsAnswer ideal workdays thursday time)
cron_next-Sound_example =
    cron_next-Sound ideal workdays rank_bound (pos 1763044200) thursday ideal-IsSteady
      workdays-IsWellFormed workdays-DayTells refl thursday-IsReal.0 (omega arith)
