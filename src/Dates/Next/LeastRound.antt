-- ===== src/Dates/Next/LeastRound.antt =====
-- A round of `do_next` (ccronexpr.c) on a clock without gaps: it passes over no date of the expression.
use smart_device_svr.Base.{
  ℕ, ◌≤◌, ◌<◌, ◌≡◌, ◌∙◌, refl, ap, subst, inl, inr, true, false, Option, some, List, arith, ◌==◌,
}
use smart_device_svr.Base.Int.{pos_part}
use smart_device_svr.Bitset.{member}
use smart_device_svr.Calendar.{
  Tm, Clock, Field, second, minute, hour_of_day, day_of_week, day_of_month, month, year, M,
  to_unsigned, is_invalid, cron_mktime,
}
use smart_device_svr.Calendar.Fields.{has_field, room, empty_list}
use smart_device_svr.Dates.Exact.{IsReal, IsExact, Moved, Moved-refl, IsLone, lone_second}
use smart_device_svr.Dates.Exact.Sure.{Sure, sure, Sure-bind, Sure-map}
use smart_device_svr.Dates.Match.{Matches}
use smart_device_svr.Dates.Rank.{IsNormal, rank, rank_day, rank_at-lt}
use smart_device_svr.Dates.Steady.{IsSteady, Below, Below-weaken, empty_list-Below}
use smart_device_svr.Dates.Steps.{unless, push_if}
use smart_device_svr.Dates.Next.{
  find_next, find_next_day, search_month, search_day, search_hour, search_minute, search_round,
}
use smart_device_svr.Dates.Next.Days.{find_next_day_here, mday_range, wday_at_most}
use smart_device_svr.Dates.Next.Find.{find_next_here}
use smart_device_svr.Dates.Next.Digits.{second-IsDigit, minute-IsDigit, hour-IsDigit}
use smart_device_svr.Dates.Next.Nearest.{Near, find_next-Near}
use smart_device_svr.Dates.Next.NearestDay.{
  NearDay, Stuck, Stuck-from, Refused-Stuck, is_day, find_next_day-Near,
}
use smart_device_svr.Dates.Next.Pushes.{push_if-found, push_if-keeps, push_if-room}
use smart_device_svr.Dates.Next.Places.{
  seconds-IsPlace, minutes-IsPlace, hours-IsPlace, months-IsPlace,
}
use smart_device_svr.Dates.Next.Progress.{
  TellsDays, push_if-Below, InSecond, InMinute, InHour, InDay, InMonth-Matches, Matches-InMonth,
}
use smart_device_svr.Expr.{CronExpr}
use smart_device_svr.Expr.Parse.Total.{IsWellFormed}
use smart_device_svr.Dates.Next.LeastSteps.{At, unless-Sure, again-At, Near-unless, field-Near}

-- A round from `t0` on, where the search from every later date is known.
module _ (c : Clock) (steady : IsSteady c) (exact : IsExact c) (s : ℕ) (e : CronExpr)
    (lone : IsLone s e) (w : IsWellFormed e) (tells : TellsDays c e)
    (every_month : (m : ℕ) → m < 12 → member e.months m ≡ true) (t0 : Tm)
    (valid : (u : Tm) → IsReal c u → rank t0 ≤ rank u → is_invalid (cron_mktime c u).1 ≡ false)
    (again : M (Unit {0}))
    (forward : (t1 : Tm)
      → IsReal c t1
      → rank t0 < rank t1
      → Sure (Stuck c e t1) (λ t' _. Matches e t' × Moved c e t1 t') (again t1)) where
  sec_low : (t : Tm) → IsNormal t → InSecond e t → pos_part t.tm_sec ≤ s
  sec_low t n on = omega (arith, lone_second s e t lone n on)

  -- The months are all of the expression, so that the search for one ends where it begins.
  month-At :
      (dot : ℕ) (l : List (Option Field)) (t : Tm)
      → At c e t0 (InDay e) Unit t
      → Sure
          (Stuck c e t0)
          (λ t' _. Matches e t' × Moved c e t0 t')
          (search_month c again e dot l t)
  unfolding search_month
  month-At dot l t (moved, p, _) =
      let place = months-IsPlace e w in
      let mon = to_unsigned t.tm_mon in
      let (_, lt) = place.reads t moved.0.0 in
      let on = every_month mon lt in
      Sure-bind {Q = λ t1 v. (t1 ≡ t) × (v ≡ mon)} (find_next c e.months 12 mon month year l) _ t
        (rw (find_next_here c e.months place.array place.small place.room month year l t mon lt on)
          (sure (refl, refl)))
        λ t1 v _ (same, found).
          unless-Sure c e t0 {Q = λ t'. Matches e t' × Moved c e t0 t'} mon v _ t1
            (λ q. rw same (InMonth-Matches e w t moved.0.0 (p, on), moved))
            λ other. absurd (other found)

  day-Near :
      (l : List (Option Field)) (t : Tm)
      → Below 3 l
      → At c e t0 (InHour e) ((has_field l minute ≡ true) × (has_field l hour_of_day ≡ true)) t
      → Sure (Stuck c e t0) (NearDay c e t) (
          find_next_day c e.days_of_month
            (to_unsigned t.tm_mday)
            e.days_of_week
            (to_unsigned t.tm_wday)
            l
            t)
  day-Near l t below (moved, p, inl m) =
      let both : is_day e t ≡ true = (Matches-InMonth e t m).0.1 in
      rw
        (find_next_day_here w.sized.days_of_month_size w.sized.days_of_week_size c l
          (to_unsigned t.tm_mday) (to_unsigned t.tm_wday) t (mday_range t moved.0.0).1
          (omega (arith, wday_at_most t moved.0.0)) both)
        (sure (inl (refl, refl, both)))
  day-Near l t below (moved, p, inr (minutes, hours)) =
      Sure-map
        (find_next_day-Near c steady exact s e lone w.sized l below minutes hours t moved.0
          (sec_low t moved.0.0 p.0.0) (λ u ru h. valid u ru (omega (arith, moved.1))))
        (Stuck-from c e t0 t moved) λ t' v near. near

  day-At :
      (l : List (Option Field)) (t t' : Tm) (v : ℕ) (R : Type 0)
      → Below 3 l
      → At c e t0 (InHour e) R t
      → find_next_day c e.days_of_month
          (to_unsigned t.tm_mday)
          e.days_of_week
          (to_unsigned t.tm_wday)
          l
          t
        ≡ some (t', some v)
      → NearDay c e t t' v
      → Sure
          (Stuck c e t0)
          (λ t1 _. At c e t0 (InDay e) Unit t1)
          (unless (to_unsigned t.tm_mday == v) again t')
  day-At l t t' v R below (moved, p, _) run (inl (same, found, both)) =
      unless-Sure c e t0 {Q = At c e t0 (InDay e) Unit} (to_unsigned t.tm_mday) v again t'
        (λ q. rw same (moved, (p, both), inr tt)) λ other. absurd (other found)
  day-At l t t' v R below (moved, p, _) run (inr (up, moved')) =
      unless-Sure c e t0 {Q = At c e t0 (InDay e) Unit} (to_unsigned t.tm_mday) v again t'
        (λ q.
          let same : t' ≡ t =
            tells l t t' below moved.0 (λ u ru h. valid u ru (omega (arith, moved.1)))
              (run ∙ ap (λ x. some (t', some x)) q) in
          let stays : rank_day t < rank_day t = subst (λ x. rank_day t < rank_day x) same up in
          absurd (omega arith))
        λ q.
          again-At c e t0 again forward (λ t1 m. (Matches-InMonth e t1 m).0) t t' moved moved'
            (rank_at-lt t t' moved.0.0 moved'.0.0 day_of_month up)

  search_day-At :
      (dot : ℕ) (l : List (Option Field)) (t : Tm)
      → Below 3 l
      → At c e t0 (InHour e) ((has_field l minute ≡ true) × (has_field l hour_of_day ≡ true)) t
      → Sure (Stuck c e t0) (λ t' _. Matches e t' × Moved c e t0 t') (search_day c again e dot l t)
  unfolding search_day
  search_day-At dot l t below at_t =
      let d = to_unsigned t.tm_mday in
      Sure-bind {Q = NearDay c e t}
        (find_next_day c e.days_of_month d e.days_of_week (to_unsigned t.tm_wday) l) _ t
        (day-Near l t below at_t)
        λ t' v run near.
          Sure-bind {Q = λ t1 done. At c e t0 (InDay e) Unit t1} (unless (d == v) again) _ t'
            (day-At l t t' v _ below at_t run near)
            λ t1 done _ at_t1. month-At dot (push_if (d == v) day_of_month l) t1 at_t1

  search_hour-At :
      (dot : ℕ) (l : List (Option Field)) (t : Tm)
      → Below 2 l
      → 1 ≤ room l
      → At c e t0 (InMinute e) (has_field l minute ≡ true) t
      → Sure (Stuck c e t0) (λ t' _. Matches e t' × Moved c e t0 t') (search_hour c again e dot l t)
  unfolding search_hour
  search_hour-At dot l t below free at_t =
      let h = to_unsigned t.tm_hour in
      Sure-bind {Q = Near c e hour_of_day e.hours h t}
        (find_next c e.hours 24 h hour_of_day day_of_week l) _ t
        (field-Near c steady exact s e lone t0 valid (hours-IsPlace e w) hour-IsDigit
          (λ u m. m.hour_in) l t below at_t.0 (λ above. sec_low t at_t.0.0.0 at_t.1.0) at_t.2)
        λ t' v _ near.
          Sure-bind {Q = λ t1 done. At c e t0 (InHour e) ((v ≡ h) × (has_field l minute ≡ true)) t1}
            (unless (h == v) again) _ t'
            (Near-unless c e t0 again forward (InMinute e) (InHour e) (has_field l minute ≡ true)
              hour_of_day e.hours h v t t' (λ p on. (p, on)) (λ t1 m. (Matches-InMonth e t1 m).0.0)
              at_t near)
            λ t1 done _ (moved, p, or).
              search_day-At dot (push_if (h == v) hour_of_day l) t1
                (push_if-Below 3 (h == v) hour_of_day l (omega arith)
                  (Below-weaken 2 3 l (omega arith) below))
                (
                  moved,
                  p,
                  elim or [
                    | inl m ↦ inl m
                    | inr (found, has) ↦ inr (
                      push_if-keeps (h == v) hour_of_day minute l free has,
                      push_if-found hour_of_day l h v free found,
                    )
                  ],
                )

  search_minute-At :
      (dot : ℕ) (l : List (Option Field)) (t : Tm)
      → Below 1 l
      → 2 ≤ room l
      → At c e t0 (InSecond e) Unit t
      → Sure
          (Stuck c e t0)
          (λ t' _. Matches e t' × Moved c e t0 t')
          (search_minute c again e dot l t)
  unfolding search_minute
  search_minute-At dot l t below free at_t =
      let m = to_unsigned t.tm_min in
      Sure-bind {Q = Near c e minute e.minutes m t}
        (find_next c e.minutes 60 m minute hour_of_day l) _ t
        (field-Near c steady exact s e lone t0 valid (minutes-IsPlace e w) minute-IsDigit
          (λ u mt. mt.minute_in) l t below at_t.0 (λ above. sec_low t at_t.0.0.0 at_t.1) at_t.2)
        λ t' v _ near.
          Sure-bind {Q = λ t1 done. At c e t0 (InMinute e) ((v ≡ m) × Unit) t1}
            (unless (m == v) again) _ t'
            (Near-unless c e t0 again forward (InSecond e) (InMinute e) Unit minute e.minutes m v t
              t' (λ p on. (p, on)) (λ t1 mt. (Matches-InMonth e t1 mt).0.0.0) at_t near)
            λ t1 done _ (moved, p, or).
              search_hour-At dot (push_if (m == v) minute l) t1
                (push_if-Below 2 (m == v) minute l (omega arith)
                  (Below-weaken 1 2 l (omega arith) below))
                (omega (arith, push_if-room (m == v) minute l))
                (
                  moved,
                  p,
                  elim or [
                    | inl mt ↦ inl mt
                    | inr (found, _) ↦ inr (push_if-found minute l m v (omega arith) found)
                  ],
                )

  Near-At :
      (t' : Tm) (v : ℕ)
      → IsReal c t0
      → Near c e second e.seconds (to_unsigned t0.tm_sec) t0 t' v
      → At c e t0 (InSecond e) Unit t'
  Near-At t' v real (inl (same, _, on)) = rw same (Moved-refl c e t0 real, on, inr tt)
  Near-At t' v real (inr (_, _, moved, on)) = (moved, on, inr tt)

  -- A round ends with an error, or on the first date of the expression from `t0` on.
  pub search_round-At :
      (dot : ℕ)
      → IsReal c t0
      → Sure (Stuck c e t0) (λ t' _. Matches e t' × Moved c e t0 t') (search_round c again e dot t0)
  unfolding search_round
  search_round-At dot real =
      let sec = to_unsigned t0.tm_sec in
      Sure-bind {Q = Near c e second e.seconds sec t0}
        (find_next c e.seconds 60 sec second minute empty_list) _ t0
        (Sure-map
          (find_next-Near c steady exact s e lone (seconds-IsPlace e w) second-IsDigit
            (λ u m. m.second_in) empty_list (empty_list-Below 0) tt t0 real
            (λ above. absurd (omega arith)) valid)
          (Refused-Stuck c e t0 real) λ t' v near. near)
        λ t' v _ near.
          search_minute-At dot (push_if (sec == v) second empty_list) t'
            (push_if-Below 1 (sec == v) second empty_list (omega arith) (empty_list-Below 1))
            (omega (arith, push_if-room (sec == v) second empty_list)) (Near-At t' v real near)
