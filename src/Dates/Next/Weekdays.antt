-- ===== src/Dates/Next/Weekdays.antt =====
-- `find_next_day` of ccronexpr.c for an expression of weekdays: it ends within a week, and on the day
-- number where it began only if it did not move.
use smart_device_svr.Base.{
  ℕ, zero, suc, ◌+◌, ◌%◌, ◌≤◌, ◌<◌, ◌≡◌, refl, sym, ap, subst, ◌⊎◌, inl, inr, Bool-cases, true,
  false, Option, some, List, arith,
}
use smart_device_svr.Base.Int.{pos}
use smart_device_svr.Bitset.{member}
use smart_device_svr.Calendar.{
  Tm, Clock, Field, day_of_month, M, to_unsigned, added, get, attempt, add_to_field, reset_all_min,
  ◌>>=◌, ◌>>◌,
}
use smart_device_svr.Calendar.Monad.{then-some, attempt-some}
use smart_device_svr.Calendar.Outcome.{Post, ends, Post-bind, Post-map}
use smart_device_svr.Dates.Exact.{IsReal, IsExact, IsAfterEpoch}
use smart_device_svr.Dates.Exact.Weekly.{
  IsWeekly, After, After-suc, After-same, week_step, week_here, days_until,
}
use smart_device_svr.Dates.Exact.Resets.{reset_all_min-Ends}
use smart_device_svr.Dates.Rank.{IsNormal, rank, rank_day, rank_at-lt}
use smart_device_svr.Dates.Steady.{IsSteady, Below, settle-Post}
use smart_device_svr.Dates.Next.{find_next_day_from, find_next_day}
use smart_device_svr.Dates.Next.Days.{mday_range, wday_at_most, day_mismatch-member}
use smart_device_svr.Dates.Next.NearestDay.{is_day, same_mday, same_wday}
use smart_device_svr.Dates.Next.Progress.{TellsDays}
use smart_device_svr.Expr.{CronExpr}
use smart_device_svr.Expr.Parse.Laws.{IsSized}

abbrev mday_of : Tm → ℕ
mday_of t = to_unsigned t.tm_mday

abbrev wday_of : Tm → ℕ
wday_of t = to_unsigned t.tm_wday

Post-some :
    {A : Type 0} {Q : Tm → A → Type 0} {t' : Tm} {a : A} → Post Q (some (t', some a)) → Q t' a
Post-some (ends q) = q

-- The next day, with its number and its weekday.
record NextDay (c : Clock) (t t1 : Tm) : Type 0 where
  real : IsReal c t1
  up : rank_day t < rank_day t1
  wday : wday_of t1 ≡ (wday_of t + 1) % 7
  mday : (mday_of t1 ≡ mday_of t + 1) ⊎ ((28 ≤ mday_of t) × (mday_of t1 ≡ 1))

module _ (c : Clock) (steady : IsSteady c) (exact : IsExact c) (weekly : IsWeekly c) (e : CronExpr)
    (sized : IsSized e) (l : List (Option Field)) (below : Below 3 l) where
  abbrev from : ℕ → ℕ → ℕ → M ℕ
  from left mday wday = find_next_day_from c left e.days_of_month mday e.days_of_week wday l

  next_day :
      (t : Tm)
      → IsReal c t
      → Post (λ t1 done. NextDay c t t1) (add_to_field c Field.day_of_month (pos 1) t)
  unfolding add_to_field
  next_day t real = settle-Post c (added day_of_month (pos 1)) t λ valid.
      let (norm, up) = steady.carries day_of_month t real.0 valid in
      record {
        real = (norm, ap (λ r. r.0) (steady.settles (added day_of_month (pos 1) t)));
        up = up;
        wday = weekly.next_wday t real valid;
        mday = weekly.next_mday t real valid;
      }

  abbrev again : ℕ → M ℕ
  again left = do
    add_to_field c Field.day_of_month (pos 1)
    t ← get
    attempt (reset_all_min c l)
    from left (to_unsigned t.tm_mday) (to_unsigned t.tm_wday)

  -- At most `k` days later, and at 0 days nothing moved.
  abbrev Arrived : ℕ → Tm → Tm → ℕ → Type 0
  Arrived k t t' v = (j : ℕ) × (j ≤ k) × After j (mday_of t) v × (j ≡ 0 → t' ≡ t)

  test :
      (t : Tm)
      → IsNormal t
      → (left : ℕ) → is_day e t ≡ true
      → from left (mday_of t) (wday_of t) t ≡ some (t, some (mday_of t))
  unfolding find_next_day_from
  test t n zero on =
      let q =
        day_mismatch-member sized.days_of_month_size sized.days_of_week_size (to_unsigned t.tm_mday)
          (to_unsigned t.tm_wday) (mday_range t n).1 (omega (arith, wday_at_most t n)) in
      rw q refl
  test t n (suc left) on =
      let q =
        day_mismatch-member sized.days_of_month_size sized.days_of_week_size (to_unsigned t.tm_mday)
          (to_unsigned t.tm_wday) (mday_range t n).1 (omega (arith, wday_at_most t n)) in
      rw (q, on) refl

  moves :
      (t : Tm)
      → IsNormal t
      → (left : ℕ) → is_day e t ≡ false
      → from (suc left) (mday_of t) (wday_of t) t ≡ again left t
  unfolding find_next_day_from
  moves t n left off =
      let q =
        day_mismatch-member sized.days_of_month_size sized.days_of_week_size (to_unsigned t.tm_mday)
          (to_unsigned t.tm_wday) (mday_range t n).1 (omega (arith, wday_at_most t n)) in
      rw (q, off) refl

  -- The expression has every day of the month and one weekday at least.
  module _ (mdays : (d : ℕ) → 1 ≤ d → d < 32 → member e.days_of_month d ≡ true) where
    at_weekday :
        (t : Tm) → IsNormal t → member e.days_of_week (wday_of t) ≡ true → is_day e t ≡ true
    at_weekday t n on = let (lo, hi) = mday_range t n in rw (mdays (mday_of t) lo hi, on) refl

    stays :
        (k left : ℕ) (t : Tm)
        → IsNormal t
        → is_day e t ≡ true
        → Post (Arrived k t) (from left (mday_of t) (wday_of t) t)
    stays k left t n on =
        rw (test t n left on) (ends (0, omega arith, inl (omega arith), λ q. refl))

    abbrev Walks : ℕ → ℕ → Type 0
    Walks k left =
        (t : Tm)
        → IsReal c t
        → IsAfterEpoch c t
        → member e.days_of_week ((wday_of t + k) % 7) ≡ true
        → Post (Arrived k t) (from left (mday_of t) (wday_of t) t)

    again-Arrived :
        (k left : ℕ) (t : Tm)
        → k < 6
        → Walks k left
        → IsReal c t
        → IsAfterEpoch c t
        → member e.days_of_week ((wday_of t + suc k) % 7) ≡ true
        → Post (Arrived (suc k) t) (again left t)
    again-Arrived k left t lt walks real after on =
        Post-bind {Q = λ t1 done. NextDay c t t1} (add_to_field c Field.day_of_month (pos 1)) _ t
          (next_day t real)
          λ t1 done _ next.
            let up : rank t < rank t1 = rank_at-lt t t1 real.0 next.real.0 day_of_month next.up in
            let (t2, run, cleared) =
              reset_all_min-Ends c steady exact day_of_month 3 l t1 (omega arith) (omega arith)
                below next.real
                (λ u ru h. after u ru (
                  omega
                    (arith, rank_at-lt t u real.0 ru.0 day_of_month (omega (arith, next.up))))) in
            let top : rank_day t2 ≡ rank_day t1 = cleared.top in
            let mday_same = same_mday t1 t2 next.real.0 cleared.real.0 (sym top) in
            let wday_same = same_wday c exact t1 t2 next.real cleared.real (sym top) in
            let up2 : rank t < rank t2 =
              rank_at-lt t t2 real.0 cleared.real.0 day_of_month (omega (arith, next.up)) in
            let here : attempt (reset_all_min c l) t1 ≡ some (t2, some tt) =
              attempt-some (reset_all_min c l) t1 t2 (some tt) run in
            let joined =
              then-some (attempt (reset_all_min c l)) (λ done. from left (mday_of t1) (wday_of t1))
                t1 t2 tt here in
            let rest : Post (Arrived k t2) (from left (mday_of t1) (wday_of t1) t2) =
              rw (mday_same, wday_same)
                (walks t2 cleared.real (λ u ru h. after u ru (omega arith))
                  (week_step e.days_of_week (wday_of t) (wday_of t1) (wday_of t2) k next.wday
                    wday_same on)) in
            subst (λ r. Post (Arrived (suc k) t) r) (sym joined)
              (Post-map rest λ t' v (j, le, far, same). (
                suc j,
                omega arith,
                After-suc j (mday_of t) (mday_of t1) v (omega arith) next.mday
                    (subst (λ m. After j m v) (sym mday_same) far),
                λ q. absurd (omega arith),
              ))

    walk : (k left : ℕ) → k ≤ left → k ≤ 6 → Walks k left
    walk zero left le six t real after on = stays zero left t real.0 (
        at_weekday t real.0
          (week_here e.days_of_week (wday_of t) (omega (arith, wday_at_most t real.0)) on))
    walk (suc k) zero le six t real after on = absurd (omega arith)
    walk (suc k) (suc left) le six t real after on = elim (Bool-cases (is_day e t)) [
      | inl here ↦ stays (suc k) (suc left) t real.0 here
      | inr off ↦ rw (moves t real.0 left off) (
          again-Arrived k left t (omega arith) (walk k left (omega arith) (omega arith)) real after
            on)
    ]

-- On a clock that only moves forward and has no gaps, where the weekdays follow one another and a
-- month has 28 days at least, an expression of every day of the month and one weekday at least has
-- the property: for every date that exists and lies after the epoch, the search of a day ends on the
-- day number where it began only if it did not move.
pub find_next_day-TellsDays :
    (c : Clock) (e : CronExpr) (weekday : ℕ)
    → IsSteady c
    → IsExact c
    → IsWeekly c
    → IsSized e
    → ((d : ℕ) → 1 ≤ d → d < 32 → member e.days_of_month d ≡ true)
    → weekday < 7
    → member e.days_of_week weekday ≡ true
    → TellsDays c e
unfolding find_next_day
find_next_day-TellsDays c e weekday steady exact weekly sized mdays lt on resets t t' below real
      after run =
    let (k, six, at) = days_until (wday_of t) weekday (omega (arith, wday_at_most t real.0)) lt in
    let found : member e.days_of_week ((wday_of t + k) % 7) ≡ true = rw at on in
    let post =
      walk c steady exact weekly e sized resets below mdays k 366 (omega arith) six t real after
        found in
    let (j, le, far, same) : (j : ℕ) × (j ≤ k)
        × After j (mday_of t) (mday_of t)
        × (j ≡ 0 → t' ≡ t) =
      Post-some {t' = t'} {a = mday_of t} (
        subst (λ r. Post (λ u v. (j : ℕ) × (j ≤ k) × After j (mday_of t) v × (j ≡ 0 → u ≡ t)) r) run
          post) in
    same (After-same j (mday_of t) (omega arith) far)
