-- ===== src/Dates/Exact.antt =====
-- What the search for the very next date of ccronexpr.c needs of the clock, and what lies between two
-- calendars.
pub mod Resets
pub mod Sure
pub mod Raise
pub mod Weekly
use native.Mathlib.Decide.{dec_lt}
use smart_device_svr.Base.{
  ℕ, ◌+◌, ◌*◌, ◌^◌, ◌≤◌, ◌<◌, ◌≡◌, ◌∙◌, refl, sym, ap, subst, ◌↔◌, true, false, arith,
}
use smart_device_svr.Base.Int.{pos, pos_part}
use smart_device_svr.Bitset.{member}
use smart_device_svr.Calendar.{
  Tm, Clock, Field, second, minute, hour_of_day, day_of_week, day_of_month, month, year,
  to_unsigned, added, written, is_invalid, cron_mktime,
}
use smart_device_svr.Calendar.Fields.{code_of}
use smart_device_svr.Dates.Match.{Matches}
use smart_device_svr.Dates.Rank.{
  IsNormal, rank, rank_day, rank_hour, rank_minute, rank_at, value_of, Fits, to_unsigned_value,
}
use smart_device_svr.Expr.{CronExpr}

-- A calendar that `mktime` leaves as it is: a date that exists.
abbrev pub IsReal : Clock → Tm → Type 0
IsReal c t = IsNormal t × ((cron_mktime c t).0 ≡ t)

-- A calendar without gaps: a second, a minute or an hour that is written stays, a field that is raised
-- goes to the very next date and leaves the fields below it, a day has one weekday, and times are as
-- different as dates. The calendar of UTC has these properties for the years from 1 on. A time zone
-- with daylight saving lacks them.
pub record IsExact (c : Clock) : Type 0 where
  pub stays :
      (g : Field) (v : ℕ) (t : Tm)
      → code_of g < 3
      → Fits g v
      → IsReal c t
      → (cron_mktime c (written g (pos v) t)).0 ≡ record (written g (pos v) t) {
        tm_isdst = (cron_mktime c (written g (pos v) t)).0.tm_isdst;
      }
  pub raises :
      (f : Field) (t u : Tm)
      → code_of f < 5
      → IsReal c t
      → IsReal c u
      → is_invalid (cron_mktime c (added f (pos 1) t)).1 ≡ false
      → rank_at f t < rank_at f u
      → rank_at f (cron_mktime c (added f (pos 1) t)).0 ≤ rank_at f u
  pub leaves_below :
      (f g : Field) (t : Tm)
      → code_of g < 3
      → code_of g < code_of f
      → code_of f < 5
      → IsReal c t
      → is_invalid (cron_mktime c (added f (pos 1) t)).1 ≡ false
      → value_of g (cron_mktime c (added f (pos 1) t)).0 ≡ value_of g t
  pub weekday :
      (t u : Tm) → IsReal c t → IsReal c u → rank_day t ≡ rank_day u → t.tm_wday ≡ u.tm_wday
  pub times :
      (t u : Tm)
      → IsReal c t
      → IsReal c u
      → ((cron_mktime c t).1 ≡ (cron_mktime c u).1) ↔ (rank t ≡ rank u)

-- The second before the epoch, of which the time is -1, lies before the calendar.
abbrev pub IsAfterEpoch : Clock → Tm → Type 0
IsAfterEpoch c t = (u : Tm) → IsReal c u → rank t ≤ rank u → is_invalid (cron_mktime c u).1 ≡ false

module _ (c : Clock) (e : CronExpr) where
  -- No date of the expression lies from the one calendar to before the other.
  abbrev pub Gap : Tm → Tm → Type 0
  Gap t t' = (u : Tm) → IsReal c u → Matches e u → rank t ≤ rank u → rank t' ≤ rank u

  -- A step forward that passes over no date of the expression.
  abbrev pub Moved : Tm → Tm → Type 0
  Moved t t' = IsReal c t' × (rank t ≤ rank t') × Gap t t'

  pub Moved-refl : (t : Tm) → IsReal c t → Moved t t
  Moved-refl t r = (r, omega arith, λ u real m le. le)

  pub Moved-trans : (t t1 t2 : Tm) → Moved t t1 → Moved t1 t2 → Moved t t2
  Moved-trans t t1 t2 (r1, le1, gap1) (r2, le2, gap2) =
      (r2, omega arith, λ u real m le. gap2 u real m (gap1 u real m le))

-- An expression of one second.
abbrev pub IsLone : ℕ → CronExpr → Type 0
IsLone s e = (j : ℕ) → j < 60 → member e.seconds j ≡ true → j ≡ s

-- Below the field, no date of an expression with the second stands lower.
abbrev pub Low : ℕ → Field → Tm → Type 0
Low s second t = Unit
Low s minute t = pos_part t.tm_sec ≤ s
Low s hour_of_day t = (pos_part t.tm_min ≡ 0) × (pos_part t.tm_sec ≤ s)
Low s _ t = (pos_part t.tm_hour ≡ 0) × (pos_part t.tm_min ≡ 0) × (pos_part t.tm_sec ≤ s)

pub lone_second :
    (s : ℕ) (e : CronExpr) (u : Tm)
    → IsLone s e
    → IsNormal u
    → member e.seconds (to_unsigned u.tm_sec) ≡ true
    → pos_part u.tm_sec ≡ s
lone_second s e u only n on =
    let same : to_unsigned u.tm_sec ≡ pos_part u.tm_sec =
      to_unsigned_value u.tm_sec n.second_range.0 (omega (arith, n.second_range)) in
    sym same ∙ only (to_unsigned u.tm_sec) (omega (arith, n.second_range)) on

-- A calendar that is low below a field comes first among the dates that are as late at the field.
pub Low-first :
    (s : ℕ) (f : Field) (t u : Tm)
    → code_of f < 5
    → Low s f t
    → pos_part u.tm_sec ≡ s
    → rank_at f t ≤ rank_at f u
    → rank t ≤ rank u
Low-first s second t u five low sec le = le
Low-first s minute t u five low sec le = omega arith
Low-first s hour_of_day t u five low sec le = omega arith
Low-first s day_of_week t u five low sec le = omega arith
Low-first s day_of_month t u five low sec le = omega arith
Low-first s month t u five low sec le = absurd (omega arith)
Low-first s year t u five low sec le = absurd (omega arith)
