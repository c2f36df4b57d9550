-- ===== src/Dates/Next/NearestDay.antt =====
-- `find_next_day` of ccronexpr.c on a clock without gaps: it passes over no date of the expression.
use native.Mathlib.Decide.{dec_le}
use smart_device_svr.Base.{
  ℕ, zero, suc, ◌≤◌, ◌<◌, ◌≡◌, ◌∙◌, refl, sym, ap, subst, ◌⊎◌, inl, inr, Bool, Bool-cases, true,
  false, ◌&&◌, Option, some, List, arith,
}
use smart_device_svr.Base.Int.{pos, pos_part}
use smart_device_svr.Bitset.{member}
use smart_device_svr.Calendar.{
  Tm, Clock, Field, second, minute, hour_of_day, day_of_month, M, to_unsigned, is_invalid,
  cron_mktime, get, attempt, add_to_field, reset_all_min, ◌>>=◌, ◌>>◌,
}
use smart_device_svr.Calendar.Fields.{has_field}
use smart_device_svr.Calendar.Monad.{then-some, attempt-some}
use smart_device_svr.Dates.Exact.{
  IsReal, IsExact, Gap, Moved, Moved-refl, Moved-trans, IsLone, Low, Low-first, lone_second,
}
use smart_device_svr.Dates.Exact.Sure.{Sure, sure, Sure-bind, Sure-map}
use smart_device_svr.Dates.Exact.Raise.{Raised, Refused, add_to_field-Raised}
use smart_device_svr.Dates.Exact.Resets.{reset_all_min-Ends}
use smart_device_svr.Dates.Rank.{
  IsNormal, rank, rank_day, rank_at-le, rank_at-lt, to_unsigned_value,
}
use smart_device_svr.Dates.Steady.{IsSteady, Below}
use smart_device_svr.Dates.Next.{find_next_day_from, find_next_day}
use smart_device_svr.Dates.Next.Days.{mday_range, wday_at_most, day_mismatch-member}
use smart_device_svr.Expr.{CronExpr}
use smart_device_svr.Expr.Parse.Laws.{IsSized}

-- A day has one number and one weekday.
pub same_mday :
    (t u : Tm)
    → IsNormal t
    → IsNormal u
    → rank_day t ≡ rank_day u
    → to_unsigned t.tm_mday ≡ to_unsigned u.tm_mday
same_mday t u n m same =
    let e : to_unsigned t.tm_mday ≡ pos_part t.tm_mday =
      to_unsigned_value t.tm_mday n.mday_range.0 (omega (arith, n.mday_range)) in
    let f : to_unsigned u.tm_mday ≡ pos_part u.tm_mday =
      to_unsigned_value u.tm_mday m.mday_range.0 (omega (arith, m.mday_range)) in
    omega (arith, n.mday_range, m.mday_range)

pub same_wday :
    (c : Clock) (exact : IsExact c) (t u : Tm)
    → IsReal c t
    → IsReal c u
    → rank_day t ≡ rank_day u
    → to_unsigned t.tm_wday ≡ to_unsigned u.tm_wday
same_wday c exact t u r ru same = ap to_unsigned (exact.weekday t u r ru same)

-- Whether a calendar stands on a day of both sets.
abbrev pub is_day : CronExpr → Tm → Bool
is_day e t =
    member e.days_of_month (to_unsigned t.tm_mday) && member e.days_of_week (to_unsigned t.tm_wday)

-- `mktime` reports an error where a field of a calendar is raised, and no date of the expression lies
-- before that calendar.
pub record Stuck (c : Clock) (e : CronExpr) (t : Tm) : Type 0 where
  pub at : Tm
  pub moved : Moved c e t at
  pub refused : Refused c at

pub Stuck-from :
    (c : Clock) (e : CronExpr) (t t1 : Tm) → Moved c e t t1 → Stuck c e t1 → Stuck c e t
Stuck-from c e t t1 moved stuck = record {
  at = stuck.at;
  moved = Moved-trans c e t t1 stuck.at moved stuck.moved;
  refused = stuck.refused;
}

pub Refused-Stuck : (c : Clock) (e : CronExpr) (t : Tm) → IsReal c t → Refused c t → Stuck c e t
Refused-Stuck c e t real refused = record {
  at = t;
  moved = Moved-refl c e t real;
  refused = refused;
}

-- The loop ended at once, on a day of both sets, or on a later day, over no date of the expression.
abbrev pub NearDay : Clock → CronExpr → Tm → Tm → ℕ → Type 0
NearDay c e t t' v =
    ((t' ≡ t) × (v ≡ to_unsigned t.tm_mday) × (is_day e t ≡ true))
    ⊎ ((rank_day t < rank_day t') × Moved c e t t')

module _ (c : Clock) (steady : IsSteady c) (exact : IsExact c) (s : ℕ) (e : CronExpr)
    (lone : IsLone s e) (sized : IsSized e) (l : List (Option Field)) (below : Below 3 l)
    (minutes : has_field l minute ≡ true) (hours : has_field l hour_of_day ≡ true) where
  abbrev from : ℕ → ℕ → ℕ → M ℕ
  from left mday wday = find_next_day_from c left e.days_of_month mday e.days_of_week wday l

  from_same :
      (left : ℕ) (t : Tm) (a a' b b' : ℕ) → a ≡ a' → b ≡ b' → from left a b t ≡ from left a' b' t
  from_same left t a a' b b' p q = rw (p, q) refl

  abbrev again : ℕ → M ℕ
  again left = do
    add_to_field c Field.day_of_month (pos 1)
    t ← get
    attempt (reset_all_min c l)
    from left (to_unsigned t.tm_mday) (to_unsigned t.tm_wday)

  abbrev Rest : ℕ → Type 0
  Rest left =
      (t : Tm)
      → IsReal c t
      → pos_part t.tm_sec ≤ s
      → ((u : Tm) → IsReal c u → rank t ≤ rank u → is_invalid (cron_mktime c u).1 ≡ false)
      → Sure (Stuck c e t) (λ t' v. Moved c e t t')
          (from left (to_unsigned t.tm_mday) (to_unsigned t.tm_wday) t)

  -- The next day at its beginning is the first date after a day that is none of the expression.
  day-Gap :
      (t t1 t2 : Tm)
      → IsReal c t
      → is_day e t ≡ false
      → Raised c day_of_month t t1
      → IsReal c t2
      → rank_day t2 ≡ rank_day t1
      → Low s day_of_month t2
      → Gap c e t t2
  day-Gap t t1 t2 real off raised real2 same low u ru m le =
      elim (dec_le (rank_day u) (rank_day t)) [
        | yes here ↦
            let day : rank_day u ≡ rank_day t =
              omega (arith, rank_at-le t u real.0 ru.0 day_of_month le) in
            let on : is_day e t ≡ true =
              rw
                (
                  ← same_mday u t ru.0 real.0 day,
                  ← same_wday c exact u t ru real day,
                  m.mday_in,
                  m.wday_in,
                )
                refl in
            absurd (cc)
        | no past ↦
            Low-first s day_of_month t2 u (omega arith) low
              (lone_second s e u lone ru.0 m.second_in)
              (omega (arith, raised.next u ru (omega arith)))
      ]

  again-Near :
      (left : ℕ) (t : Tm)
      → Rest left
      → IsReal c t
      → pos_part t.tm_sec ≤ s
      → ((u : Tm) → IsReal c u → rank t ≤ rank u → is_invalid (cron_mktime c u).1 ≡ false)
      → is_day e t ≡ false
      → Sure (Stuck c e t) (λ t' v. (rank_day t < rank_day t') × Moved c e t t') (again left t)
  again-Near left t rest real sec valid off =
      Sure-bind {Q = λ t1 done. Raised c day_of_month t t1}
        (add_to_field c Field.day_of_month (pos 1)) _ t
        (Sure-map (add_to_field-Raised c steady exact day_of_month t (omega arith) real)
          (Refused-Stuck c e t real) λ t1 done raised. raised)
        λ t1 done _ raised.
          let up : rank_day t < rank_day t1 = raised.up in
          let (t2, run, cleared) =
            reset_all_min-Ends c steady exact day_of_month 3 l t1 (omega arith) (omega arith) below
              raised.real
              (λ u ru h.
                valid u ru
                  (omega (arith, rank_at-lt t u real.0 ru.0 day_of_month (omega arith)))) in
          let low : Low s day_of_month t2 = (
            cleared.hour_zero hours,
            cleared.min_zero minutes,
            omega (
              arith,
              cleared.sec_le,
              ap pos_part (raised.kept second (omega arith) (omega arith)),
            ),
          ) in
          let top : rank_day t2 ≡ rank_day t1 = cleared.top in
          let rank_up : rank t < rank t2 =
            rank_at-lt t t2 real.0 cleared.real.0 day_of_month (omega arith) in
          let moved : Moved c e t t2 =
            (cleared.real, omega arith, day-Gap t t1 t2 real off raised cleared.real top low) in
          let here =
            then-some (attempt (reset_all_min c l))
              (λ done. from left (to_unsigned t1.tm_mday) (to_unsigned t1.tm_wday)) t1 t2 tt
              (attempt-some (reset_all_min c l) t1 t2 (some tt) run)
            ∙ from_same left t2 _ _ _ _ (same_mday t1 t2 raised.real.0 cleared.real.0 (sym top))
                (same_wday c exact t1 t2 raised.real cleared.real (sym top)) in
          subst (λ r. Sure (Stuck c e t) (λ t' v. (rank_day t < rank_day t') × Moved c e t t') r)
            (sym here)
            (Sure-map (rest t2 cleared.real (omega arith) (λ u ru h. valid u ru (omega arith)))
              (Stuck-from c e t t2 moved)
              λ t' v moved'. (
                omega (arith, rank_at-le t2 t' cleared.real.0 moved'.0.0 day_of_month moved'.1),
                Moved-trans c e t t2 t' moved moved',
              ))

  step-NearDay :
      (left : ℕ) (t : Tm)
      → Rest left
      → IsReal c t
      → pos_part t.tm_sec ≤ s
      → ((u : Tm) → IsReal c u → rank t ≤ rank u → is_invalid (cron_mktime c u).1 ≡ false)
      → Sure
          (Stuck c e t)
          (NearDay c e t)
          (from (suc left) (to_unsigned t.tm_mday) (to_unsigned t.tm_wday) t)
  unfolding find_next_day_from
  step-NearDay left t rest real sec valid =
      let test =
        day_mismatch-member sized.days_of_month_size sized.days_of_week_size (to_unsigned t.tm_mday)
          (to_unsigned t.tm_wday) (mday_range t real.0).1 (omega (arith, wday_at_most t real.0)) in
      elim (Bool-cases (is_day e t)) [
        | inl both ↦ rw (test, both) (sure (inl (refl, refl, both)))
        | inr off ↦
            rw (test, off)
              (Sure-map (again-Near left t rest real sec valid off) (λ why. why)
                λ t' v moved. inr moved)
      ]

  NearDay-Moved : (t t' : Tm) (v : ℕ) → IsReal c t → NearDay c e t t' v → Moved c e t t'
  NearDay-Moved t t' v real (inl (same, _, _)) = rw same (Moved-refl c e t real)
  NearDay-Moved t t' v real (inr (_, moved)) = moved

  every-Rest : (left : ℕ) → Rest left
  unfolding find_next_day_from
  every-Rest zero t real sec valid =
      let test =
        day_mismatch-member sized.days_of_month_size sized.days_of_week_size (to_unsigned t.tm_mday)
          (to_unsigned t.tm_wday) (mday_range t real.0).1 (omega (arith, wday_at_most t real.0)) in
      rw test (sure (Moved-refl c e t real))
  every-Rest (suc left) t real sec valid =
      Sure-map (step-NearDay left t (every-Rest left) real sec valid) (λ why. why)
        λ t' v near. NearDay-Moved t t' v real near

  pub find_next_day-Near :
      (t : Tm)
      → IsReal c t
      → pos_part t.tm_sec ≤ s
      → ((u : Tm) → IsReal c u → rank t ≤ rank u → is_invalid (cron_mktime c u).1 ≡ false)
      → Sure (Stuck c e t) (NearDay c e t) (
          find_next_day c e.days_of_month
            (to_unsigned t.tm_mday)
            e.days_of_week
            (to_unsigned t.tm_wday)
            l
            t)
  unfolding find_next_day
  find_next_day-Near t real sec valid = step-NearDay 365 t (every-Rest 365) real sec valid
