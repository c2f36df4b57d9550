-- ===== src/Dates/Next/Round.antt =====
-- A round of `do_next` (ccronexpr.c) on a clock that only moves forward.
use smart_device_svr.Base.{
  ℕ, ◌≤◌, ◌<◌, ◌≡◌, ◌∙◌, ap, subst, inl, inr, Bool, true, Option, some, List, Bytes, arith, ◌==◌,
  ltb,
}
use smart_device_svr.Bitset.{member}
use smart_device_svr.Calendar.{
  Tm, Clock, Field, second, minute, hour_of_day, day_of_week, day_of_month, month, year, M,
  to_unsigned, cron_mktime, ◌>>◌,
}
use smart_device_svr.Calendar.Fields.{code_of, empty_list}
use smart_device_svr.Calendar.Keeps.{Post-Kept}
use smart_device_svr.Calendar.Outcome.{Post, Post-bind, Post-map}
use smart_device_svr.Dates.Exact.{IsReal}
use smart_device_svr.Dates.Next.Real.{IsFixed, find_next-Keeps, find_next_day-Keeps}
use smart_device_svr.Dates.Match.{Matches}
use smart_device_svr.Dates.Rank.{rank, rank_day, rank_at-lt, value_of}
use smart_device_svr.Dates.Steady.{IsSteady, Below, Below-weaken, empty_list-Below}
use smart_device_svr.Dates.Steps.{unless, push_if, fail_if, minus_unsigned}
use smart_device_svr.Dates.Next.{
  find_next, find_next_day, search_month, search_day, search_hour, search_minute, search_round,
}
use smart_device_svr.Dates.Next.Forward.{
  Went, IsPlace, find_next-Post, write_value-Post, write_second-Post,
}
use smart_device_svr.Dates.Next.Days.{Stepped, find_next_day-Post}
use smart_device_svr.Dates.Next.Places.{
  seconds-IsPlace, minutes-IsPlace, hours-IsPlace, months-IsPlace,
}
use smart_device_svr.Expr.{CronExpr}
use smart_device_svr.Expr.Parse.Total.{IsWellFormed}
use smart_device_svr.Dates.Next.Progress.{
  DayTells, Found, unless-Post, fail_if-Post, push_if-Below, member_written, InSecond, InMinute,
  InHour, InDay, InMonth, Matches-InMonth,
}

-- A round from `t0` on, where the search from every later calendar is known.
module _ (c : Clock) (steady : IsSteady c) (e : CronExpr) (w : IsWellFormed e)
    (tells : DayTells c e) (t0 : Tm) (again : M (Unit {0}))
    (forward : (t1 : Tm)
      → IsReal c t1
      → rank t0 < rank t1
      → Post (λ t' _. Found c e t1 t') (again t1)) where
  abbrev pub Reached : (Tm → Type 0) → Tm → Type 0
  Reached P t = IsReal c t × (rank t0 ≤ rank t) × P t

  -- What the search of later calendars gives holds after every part of a round.
  again-Post :
      {P : Tm → Type 0}
      → ((t : Tm) → Matches e t → P t)
      → (t1 : Tm) → IsReal c t1
      → rank t0 < rank t1
      → Post (λ t' _. Reached P t') (again t1)
  again-Post of t1 n up =
      Post-map (forward t1 n up) λ t' done (n', m, le). (n', omega arith, of t' m)

  -- The end of the search of a field, and the choice of another round.
  Went-Post :
      (P P' : Tm → Type 0) (bits : Bytes) (value v : ℕ) (again' : M (Unit {0})) (t t' : Tm)
      → ((t1 : Tm) → IsReal c t1 → rank t0 < rank t1 → Post (λ t' _. Reached P' t') (again' t1))
      → (P t → member bits value ≡ true → P' t)
      → Reached P t
      → Went (λ t1. Unit) bits value t t' v × ((cron_mktime c t').0 ≡ t')
      → Post (λ t1 _. Reached P' t1) (unless (value == v) again' t')
  Went-Post P P' bits value v again' t t' round step (n, le, p) ((n', inl (same, found, on)), _) =
      unless-Post {Q = Reached P'} value v again' t' (λ q. rw same (n, le, step p on))
        λ other. absurd (other found)
  Went-Post P P' bits value v again' t t' round step (n, le, p) ((n', inr (other, up, _)), fixed) =
      unless-Post {Q = Reached P'} value v again' t' (λ q. absurd (other q))
        λ q. round t' (n', fixed) (omega arith)

  -- The search of a field other than the second.
  field-Post :
      {f next : Field} {n max : ℕ} {bits : Bytes} (place : IsPlace f next n max bits)
      (resets : List (Option Field)) (t : Tm)
      → Below (code_of f) resets
      → IsReal c t
      → Post
          (λ t' v.
            Went (λ t1. Unit) bits (to_unsigned (value_of f t)) t t' v
            × ((cron_mktime c t').0 ≡ t'))
          (find_next c bits max (to_unsigned (value_of f t)) f next resets t)
  field-Post {f} {next} {max = max} {bits = bits} place resets t below (n, fixed) =
      Post-Kept (IsFixed c steady)
        (find_next-Post c steady {Extra = λ t1. Unit} place resets
          (λ i t1 lt on n1.
            Post-map (write_value-Post c steady f i resets t1 (place.fits i lt) below n1)
              λ t' v (same, later). (same, later, tt))
          t n)
        (find_next-Keeps c steady bits max (to_unsigned (value_of f t)) f next resets t fixed)

  search_month-Post :
      (dot : ℕ) (resets : List (Option Field)) (t : Tm)
      → Below 5 resets
      → Reached (InDay e) t
      → Post (λ t' _. Reached (InMonth e) t') (search_month c again e dot resets t)
  unfolding search_month
  search_month-Post dot resets t below (n, le, p) =
      let mon = to_unsigned t.tm_mon in
      Post-bind {Q = λ t' v. Went (λ t1. Unit) e.months mon t t' v × ((cron_mktime c t').0 ≡ t')}
        (find_next c e.months 12 mon month year resets) _ t
        (field-Post (months-IsPlace e w) resets t below n)
        λ t' v _ went.
          let far : Bool = ltb 4 (minus_unsigned (to_unsigned t'.tm_year) dot) in
          Went-Post (InDay e) (InMonth e) e.months mon v (fail_if far >> again) t t'
            (λ t1 n1 up.
              fail_if-Post {Q = Reached (InMonth e)} far again t1
                (again-Post (Matches-InMonth e) t1 n1 up))
            (λ q on. (q, on)) (n, le, p) went

  -- The choice that follows the search for a day.
  day-Post :
      (resets : List (Option Field)) (t t' : Tm) (v : ℕ)
      → Below 3 resets
      → Reached (InHour e) t
      → find_next_day c e.days_of_month
          (to_unsigned t.tm_mday)
          e.days_of_week
          (to_unsigned t.tm_wday)
          resets
          t
        ≡ some (t', some v)
      → Stepped e.days_of_month e.days_of_week
          (to_unsigned t.tm_mday)
          (to_unsigned t.tm_wday)
          t
          t'
          v
        × ((cron_mktime c t').0 ≡ t')
      → Post (λ t1 _. Reached (InDay e) t1) (unless (to_unsigned t.tm_mday == v) again t')
  day-Post resets t t' v below (n, le, p) run ((n', inl (same, found, both)), _) =
      unless-Post {Q = Reached (InDay e)} (to_unsigned t.tm_mday) v again t'
        (λ q. rw same (n, le, (p, both))) λ other. absurd (other found)
  day-Post resets t t' v below (n, le, p) run ((n', inr up), fixed) =
      unless-Post {Q = Reached (InDay e)} (to_unsigned t.tm_mday) v again t'
        (λ q.
          let same : t' ≡ t = tells resets t t' below n (run ∙ ap (λ x. some (t', some x)) q) in
          let stays : rank_day t < rank_day t = subst (λ x. rank_day t < rank_day x) same up in
          absurd (omega arith))
        λ other.
          again-Post (λ t1 m. (Matches-InMonth e t1 m).0) t' (n', fixed)
            (omega (arith, rank_at-lt t t' n.0 n' day_of_month up))

  search_day-Post :
      (dot : ℕ) (resets : List (Option Field)) (t : Tm)
      → Below 3 resets
      → Reached (InHour e) t
      → Post (λ t' _. Reached (InMonth e) t') (search_day c again e dot resets t)
  unfolding search_day
  search_day-Post dot resets t below reached =
      let d = to_unsigned t.tm_mday in
      Post-bind
        {Q = λ t' v.
          Stepped e.days_of_month e.days_of_week d (to_unsigned t.tm_wday) t t' v
          × ((cron_mktime c t').0 ≡ t')}
        (find_next_day c e.days_of_month d e.days_of_week (to_unsigned t.tm_wday) resets) _ t
        (Post-Kept (IsFixed c steady)
          (find_next_day-Post w.sized.days_of_month_size w.sized.days_of_week_size c steady resets
            (Below-weaken 3 4 resets (omega arith) below) t reached.0.0)
          (find_next_day-Keeps c steady e.days_of_month e.days_of_week d (to_unsigned t.tm_wday)
            resets t reached.0.1))
        λ t' v run stepped.
          Post-bind {Q = λ t1 done. Reached (InDay e) t1} (unless (d == v) again) _ t'
            (day-Post resets t t' v below reached run stepped)
            λ t1 done _ reached'.
              search_month-Post dot (push_if (d == v) day_of_month resets) t1
                (push_if-Below 5 (d == v) day_of_month resets (omega arith)
                  (Below-weaken 3 5 resets (omega arith) below))
                reached'

  search_hour-Post :
      (dot : ℕ) (resets : List (Option Field)) (t : Tm)
      → Below 2 resets
      → Reached (InMinute e) t
      → Post (λ t' _. Reached (InMonth e) t') (search_hour c again e dot resets t)
  unfolding search_hour
  search_hour-Post dot resets t below reached =
      let h = to_unsigned t.tm_hour in
      Post-bind {Q = λ t' v. Went (λ t1. Unit) e.hours h t t' v × ((cron_mktime c t').0 ≡ t')}
        (find_next c e.hours 24 h hour_of_day day_of_week resets) _ t
        (field-Post (hours-IsPlace e w) resets t below reached.0)
        λ t' v _ went.
          Post-bind {Q = λ t1 done. Reached (InHour e) t1} (unless (h == v) again) _ t'
            (Went-Post (InMinute e) (InHour e) e.hours h v again t t'
              (again-Post (λ t1 m. (Matches-InMonth e t1 m).0.0)) (λ q on. (q, on)) reached went)
            λ t1 done _ reached'.
              search_day-Post dot (push_if (h == v) hour_of_day resets) t1
                (push_if-Below 3 (h == v) hour_of_day resets (omega arith)
                  (Below-weaken 2 3 resets (omega arith) below))
                reached'

  search_minute-Post :
      (dot : ℕ) (resets : List (Option Field)) (t : Tm)
      → Below 1 resets
      → Reached (InSecond e) t
      → Post (λ t' _. Reached (InMonth e) t') (search_minute c again e dot resets t)
  unfolding search_minute
  search_minute-Post dot resets t below reached =
      let m = to_unsigned t.tm_min in
      Post-bind {Q = λ t' v. Went (λ t1. Unit) e.minutes m t t' v × ((cron_mktime c t').0 ≡ t')}
        (find_next c e.minutes 60 m minute hour_of_day resets) _ t
        (field-Post (minutes-IsPlace e w) resets t below reached.0)
        λ t' v _ went.
          Post-bind {Q = λ t1 done. Reached (InMinute e) t1} (unless (m == v) again) _ t'
            (Went-Post (InSecond e) (InMinute e) e.minutes m v again t t'
              (again-Post (λ t1 mt. (Matches-InMonth e t1 mt).0.0.0)) (λ q on. (q, on)) reached
              went)
            λ t1 done _ reached'.
              search_hour-Post dot (push_if (m == v) minute resets) t1
                (push_if-Below 2 (m == v) minute resets (omega arith)
                  (Below-weaken 1 2 resets (omega arith) below))
                reached'

  Went-Reached :
      (t' : Tm) (v : ℕ)
      → IsReal c t0
      → Went (InSecond e) e.seconds (to_unsigned t0.tm_sec) t0 t' v × ((cron_mktime c t').0 ≡ t')
      → Reached (InSecond e) t'
  Went-Reached t' v n ((n', inl (same, _, on)), _) = rw same (n, omega arith, on)
  Went-Reached t' v n ((n', inr (_, up, on)), fixed) = ((n', fixed), omega arith, on)

  -- The second is searched first, and its reset list is empty.
  pub search_round-Post :
      (dot : ℕ)
      → IsReal c t0
      → Post (λ t' _. Reached (InMonth e) t') (search_round c again e dot t0)
  unfolding search_round
  search_round-Post dot n =
      let s = to_unsigned t0.tm_sec in
      Post-bind {Q = λ t' v. Went (InSecond e) e.seconds s t0 t' v × ((cron_mktime c t').0 ≡ t')}
        (find_next c e.seconds 60 s second minute empty_list) _ t0
        (Post-Kept (IsFixed c steady)
          (find_next-Post c steady {Extra = InSecond e} (seconds-IsPlace e w) empty_list
            (λ i t1 lt on n1.
              Post-map (write_second-Post c steady i t1 lt n1) λ t' v (same, later, sec).
                (same, later, member_written e.seconds t'.tm_sec i sec (omega arith) on))
            t0 n.0)
          (find_next-Keeps c steady e.seconds 60 s second minute empty_list t0 n.1))
        λ t' v _ went.
          search_minute-Post dot (push_if (s == v) second empty_list) t'
            (push_if-Below 1 (s == v) second empty_list (omega arith) (empty_list-Below 1))
            (Went-Reached t' v n went)
