-- ===== src/Dates/Next/Progress.antt =====
-- How far a round of `do_next` (ccronexpr.c) has come, and the choices between its steps.
use smart_device_svr.Base.{
  ℕ, ◌^◌, ◌≤◌, ◌<◌, ◌≡◌, ◌≢◌, refl, inl, inr, Bool, Bool-cases, true, false, ◌&&◌, Option, some,
  List, Bytes, arith, ◌==◌,
}
use smart_device_svr.Base.Int.{ℤ, pos}
use smart_device_svr.Bitset.{member}
use smart_device_svr.Calendar.{Tm, Clock, Field, M, to_unsigned, ◌>>◌}
use smart_device_svr.Calendar.Fields.{code_of}
use smart_device_svr.Calendar.Outcome.{Post, fails, ends}
use smart_device_svr.Dates.Exact.{IsReal, IsAfterEpoch}
use smart_device_svr.Dates.Match.{Matches}
use smart_device_svr.Dates.Rank.{IsNormal, rank}
use smart_device_svr.Dates.Steady.{Below, push_to_fields_arr-Below}
use smart_device_svr.Dates.Steps.{unless, push_if, fail_if}
use smart_device_svr.Dates.Next.{find_next_day}
use smart_device_svr.Dates.Next.Forward.{IsPlace}
use smart_device_svr.Dates.Next.Days.{mday_range, wday_at_most, find_next_day_here}
use smart_device_svr.Dates.Next.Places.{
  seconds-IsPlace, minutes-IsPlace, hours-IsPlace, months-IsPlace,
}
use smart_device_svr.Expr.{CronExpr}
use smart_device_svr.Expr.Parse.Laws.{IsSized}
use smart_device_svr.Expr.Parse.Total.{IsWellFormed}

-- For the dates that exist and the resets that `do_next` gives: the search for a day ends on the day
-- number where it began only where it did not move, so that the number tells `do_next` whether to
-- search again.
abbrev pub DayTells : Clock → CronExpr → Type 0
DayTells c e =
    (resets : List (Option Field)) (t t' : Tm)
    → Below 3 resets
    → IsReal c t
    → find_next_day c e.days_of_month (to_unsigned t.tm_mday) e.days_of_week (to_unsigned t.tm_wday)
        resets t
      ≡ some (t', some (to_unsigned t.tm_mday))
    → t' ≡ t

-- The same for the dates that lie after the epoch too.
abbrev pub TellsDays : Clock → CronExpr → Type 0
TellsDays c e =
    (resets : List (Option Field)) (t t' : Tm)
    → Below 3 resets
    → IsReal c t
    → IsAfterEpoch c t
    → find_next_day c e.days_of_month (to_unsigned t.tm_mday) e.days_of_week (to_unsigned t.tm_wday)
        resets t
      ≡ some (t', some (to_unsigned t.tm_mday))
    → t' ≡ t

pub DayTells-TellsDays : (c : Clock) (e : CronExpr) → DayTells c e → TellsDays c e
DayTells-TellsDays c e tells resets t t' below real after run = tells resets t t' below real run

-- An expression for every day has the property on every clock.
pub every_day-DayTells :
    (c : Clock) (e : CronExpr)
    → IsSized e
    → ((d : ℕ) → 1 ≤ d → d < 32 → member e.days_of_month d ≡ true)
    → ((d : ℕ) → d < 7 → member e.days_of_week d ≡ true)
    → DayTells c e
every_day-DayTells c e sized mdays wdays resets t t' below (n, _) run =
    let (dlo, dlt) = mday_range t n in
    let wlt = wday_at_most t n in
    let both : (member e.days_of_month (to_unsigned t.tm_mday)
          && member e.days_of_week (to_unsigned t.tm_wday))
        ≡ true =
      rw (mdays (to_unsigned t.tm_mday) dlo dlt, wdays (to_unsigned t.tm_wday) wlt) refl in
    let stays =
      find_next_day_here sized.days_of_month_size sized.days_of_week_size c resets
        (to_unsigned t.tm_mday) (to_unsigned t.tm_wday) t dlt (omega arith) both in
    cc

-- A date of the expression that exists, no earlier than another calendar.
abbrev pub Found : Clock → CronExpr → Tm → Tm → Type 0
Found c e t t' = IsReal c t' × Matches e t' × (rank t ≤ rank t')

pub unless-Post :
    {Q : Tm → Type 0} (value v : ℕ) (again : M (Unit {0})) (t : Tm)
    → (v ≡ value → Q t)
    → (v ≢ value → Post (λ t' _. Q t') (again t))
    → Post (λ t' _. Q t') (unless (value == v) again t)
unless-Post value v again t same other = elim (Bool-cases (value == v)) [
  | inl e ↦ rw e (ends (same (ground arith)))
  | inr e ↦ rw e (other (ground arith))
]

pub fail_if-Post :
    {Q : Tm → Type 0} (b : Bool) (again : M (Unit {0})) (t : Tm)
    → Post (λ t' _. Q t') (again t)
    → Post (λ t' _. Q t') ((fail_if b >> again) t)
fail_if-Post true again t p = fails
fail_if-Post false again t p = p

pub push_if-Below :
    (k : ℕ) (b : Bool) (f : Field) (l : List (Option Field))
    → code_of f < k
    → Below k l
    → Below k (push_if b f l)
push_if-Below k true f l h all = push_to_fields_arr-Below k l f h all
push_if-Below k false f l h all = all

pub member_written :
    (bits : Bytes) (n : ℤ) (i : ℕ)
    → n ≡ pos i
    → i < 2 ^ 32
    → member bits i ≡ true
    → member bits (to_unsigned n) ≡ true
member_written bits n i same lt on = let e : to_unsigned n ≡ i = rw same (omega arith) in rw e on

-- How far a round has come.
abbrev pub InSecond : CronExpr → Tm → Type 0
InSecond e t = member e.seconds (to_unsigned t.tm_sec) ≡ true

abbrev pub InMinute : CronExpr → Tm → Type 0
InMinute e t = InSecond e t × (member e.minutes (to_unsigned t.tm_min) ≡ true)

abbrev pub InHour : CronExpr → Tm → Type 0
InHour e t = InMinute e t × (member e.hours (to_unsigned t.tm_hour) ≡ true)

abbrev pub InDay : CronExpr → Tm → Type 0
InDay e t =
    InHour e t
    × ((member e.days_of_month (to_unsigned t.tm_mday)
          && member e.days_of_week (to_unsigned t.tm_wday))
        ≡ true)

abbrev pub InMonth : CronExpr → Tm → Type 0
InMonth e t = InDay e t × (member e.months (to_unsigned t.tm_mon) ≡ true)

pub InMonth-Matches :
    (e : CronExpr) (w : IsWellFormed e) (t : Tm) → IsNormal t → InMonth e t → Matches e t
InMonth-Matches e w t n ((((s, m), h), d), mon) = record {
  second_within = (IsPlace.reads (seconds-IsPlace e w) t n).1;
  second_in = s;
  minute_within = (IsPlace.reads (minutes-IsPlace e w) t n).1;
  minute_in = m;
  hour_within = (IsPlace.reads (hours-IsPlace e w) t n).1;
  hour_in = h;
  mday_within = (mday_range t n).1;
  mday_in = ground arith;
  wday_within = omega (arith, wday_at_most t n);
  wday_in = ground arith;
  month_within = (IsPlace.reads (months-IsPlace e w) t n).1;
  month_in = mon;
}

pub Matches-InMonth : (e : CronExpr) (t : Tm) → Matches e t → InMonth e t
Matches-InMonth e t m =
    ((((m.second_in, m.minute_in), m.hour_in), rw (m.mday_in, m.wday_in) refl), m.month_in)
