-- ===== src/Dates/Next/Least.antt =====
-- `do_next` and `cron_next` of ccronexpr.c on a clock without gaps.
use smart_device_svr.Base.{
  ℕ, zero, suc, ◌+◌, ◌≤◌, ◌<◌, ◌≡◌, ◌≢◌, ◌∙◌, refl, sym, ◌⊎◌, inl, inr, Bool, true, false, Option,
  none, some, arith, Returns,
}
use smart_device_svr.Base.Int.{ℤ, pos, negsuc}
use smart_device_svr.Bitset.{member}
use smart_device_svr.Calendar.{Tm, Clock, second, cron_mktime, to_unsigned, add_to_field}
use smart_device_svr.Dates.Exact.Sure.{Sure, stuck, sure, Sure-bind, Sure-map}
use smart_device_svr.Dates.Exact.{IsReal, IsExact, IsAfterEpoch, Moved, IsLone}
use smart_device_svr.Dates.Exact.Raise.{Raised, Refused, add_to_field-Raised}
use smart_device_svr.Dates.Match.{Matches}
use smart_device_svr.Dates.Rank.{rank, rank_bound, rank-lt-bound}
use smart_device_svr.Dates.Steady.{IsSteady}
use smart_device_svr.Dates.Steps.{time_of, equal_ℤ, answer_of}
use smart_device_svr.Dates.Next.{do_next, search_again, next_of, cron_next}
use smart_device_svr.Dates.Next.Answer.{equal_ℤ-false, equal_ℤ-true}
use smart_device_svr.Dates.Next.LeastRound.{search_round-At}
use smart_device_svr.Dates.Next.NearestDay.{Stuck}
use smart_device_svr.Dates.Next.Progress.{TellsDays}
use smart_device_svr.Expr.{CronExpr}
use smart_device_svr.Expr.Parse.Total.{IsWellFormed}

-- The expression allows every month.
abbrev pub IsEveryMonth : CronExpr → Type 0
IsEveryMonth e = (m : ℕ) → m < 12 → member e.months m ≡ true

-- For a clock that only moves forward, as `IsSteady` says, and has no gaps, as `IsExact` says, an
-- expression as the parser leaves it, of one second and every month, for which the search of a day
-- ends on the day number where it began only if it did not move, and a date that exists and lies
-- after the epoch: with fuel for every later calendar `do_next` ends, with no access outside an
-- array, and leaves the very first date of the expression that exists and is no earlier than the
-- given one; or it reports an error, where `mktime` does so when a field of a date is raised before
-- which no date of the expression lies.
pub do_next-Least :
    (c : Clock) (s : ℕ) (e : CronExpr) (fuel dot : ℕ) (t : Tm)
    → IsSteady c
    → IsExact c
    → IsWellFormed e
    → IsLone s e
    → IsEveryMonth e
    → TellsDays c e
    → IsReal c t
    → IsAfterEpoch c t
    → rank_bound ≤ fuel + rank t
    → Sure (Stuck c e t) (λ t' _. Matches e t' × Moved c e t t') (do_next c fuel e dot t)
unfolding do_next
do_next-Least c s e zero dot t steady exact w lone months tells real after enough =
    absurd (omega (arith, rank-lt-bound t real.0))
do_next-Least c s e (suc fuel) dot t steady exact w lone months tells real after enough =
    search_round-At c steady exact s e lone w tells months t after (do_next c fuel e dot)
      (λ t1 real1 up.
        do_next-Least c s e fuel dot t1 steady exact w lone months tells real1
          (λ u ru le. after u ru (omega arith)) (omega arith))
      dot real

-- A date with no date of the expression after the start and before it.
pub record Within (c : Clock) (e : CronExpr) (t t' : Tm) : Type 0 where
  pub real : IsReal c t'
  pub no_earlier : rank t ≤ rank t'
  pub first : (u : Tm) → IsReal c u → Matches e u → rank t < rank u → rank t' ≤ rank u

-- The time of the first date of the expression after a date.
pub record IsNext (c : Clock) (e : CronExpr) (t : Tm) (time : ℤ) : Type 0 where
  pub calendar : Tm
  pub within : Within c e t calendar
  pub matches : Matches e calendar
  pub later : rank t < rank calendar
  pub is_time : time ≡ (cron_mktime c calendar).1

-- `mktime` reports an error where a field of a date is raised that lies within that.
abbrev pub IsBlocked : Clock → CronExpr → Tm → Type 0
IsBlocked c e t = (u : Tm) × Within c e t u × Refused c u

answer_of-Returns :
    {Q : ℤ → Type 0} {R : Type 0} (r : Option (Tm × Option ℤ))
    → Sure R (λ t time. Q time) r
    → Returns (answer_of r) (λ time. ((time ≡ negsuc 0) × R) ⊎ Q time)
answer_of-Returns none p = elim p [ ]
answer_of-Returns (some (t, none)) (stuck why) = (negsuc 0, refl, inl (refl, why))
answer_of-Returns (some (t, some time)) (sure q) = (time, refl, inr q)

module _ (c : Clock) (s : ℕ) (e : CronExpr) (fuel : ℕ) (steady : IsSteady c) (exact : IsExact c)
    (w : IsWellFormed e) (lone : IsLone s e) (months : IsEveryMonth e) (tells : TellsDays c e)
    (t : Tm) (real : IsReal c t) (after : IsAfterEpoch c t)
    (enough : rank_bound ≤ fuel + rank t) where
  abbrev Timed : Tm → Tm → ℤ → Type 0
  Timed u u' time = (u' ≡ u) × (time ≡ (cron_mktime c u).1)

  -- A date from the start on has a time, and `mktime` leaves it.
  time_of-Sure :
      (u : Tm) → IsReal c u → rank t ≤ rank u → Sure (IsBlocked c e t) (Timed u) (time_of c u)
  unfolding time_of
  time_of-Sure u ru le = rw (after u ru le) (sure (ru.1, refl))

  -- The search from the start or a later date.
  search-Least :
      (dot : ℕ) (t1 : Tm)
      → IsReal c t1
      → rank t ≤ rank t1
      → Sure (Stuck c e t1) (λ t' _. Matches e t' × Moved c e t1 t') (do_next c fuel e dot t1)
  search-Least dot t1 real1 le =
      do_next-Least c s e fuel dot t1 steady exact w lone months tells real1
        (λ u ru h. after u ru (omega arith)) (omega arith)

  Moved-Within : (u : Tm) → Moved c e t u → Within c e t u
  Moved-Within u (ru, le, gap) = record {
    real = ru;
    no_earlier = le;
    first = λ v rv m lt. gap v rv m (omega arith);
  }

  Stuck-IsBlocked : Stuck c e t → IsBlocked c e t
  Stuck-IsBlocked why = (why.at, Moved-Within why.at why.moved, why.refused)

  -- The first date of the expression after the start.
  abbrev Ready : Tm → Type 0
  Ready u = Within c e t u × Matches e u × (rank t < rank u)

  -- From the second after a date of the rank of the start.
  second-Within :
      (t2 t4 t5 : Tm) → rank t2 ≡ rank t → Raised c second t2 t4 → Moved c e t4 t5 → Within c e t t5
  second-Within t2 t4 t5 same raised (real5, le, gap) =
      let up : rank t2 < rank t4 = raised.up in
      record {
        real = real5;
        no_earlier = omega arith;
        first = λ u ru m lt.
            let passed : rank t4 ≤ rank u = raised.next u ru (omega arith) in gap u ru m passed;
      }

  search_again-Ready :
      (t2 : Tm) (b : Bool)
      → Matches e t2 × Moved c e t t2
      → (b ≡ false → rank t2 ≢ rank t)
      → (b ≡ true → rank t2 ≡ rank t)
      → Sure (IsBlocked c e t) (λ t' _. Ready t') (search_again c fuel e b t2)
  unfolding search_again
  search_again-Ready t2 false (m, moved) other same =
      let differs = other refl in sure (Moved-Within t2 moved, m, omega (arith, moved.1))
  search_again-Ready t2 true (m, moved) other same =
      let here = same refl in
      Sure-bind {Q = λ t' done. Raised c second t2 t'} (add_to_field c second (pos 1)) _ t2
        (Sure-map (add_to_field-Raised c steady exact second t2 (omega arith) moved.0)
          (λ why. (t2, Moved-Within t2 moved, why)) λ t' done raised. raised)
        λ t4 done _ raised.
          let up : rank t2 < rank t4 = raised.up in
          Sure-map (search-Least (to_unsigned t4.tm_year) t4 raised.real (omega arith))
            (λ why. (why.at, second-Within t2 t4 why.at here raised why.moved, why.refused))
            λ t5 done (m5, moved5).
              (second-Within t2 t4 t5 here raised moved5, m5, omega (arith, moved5.1))

  next_of-IsNext : Sure (IsBlocked c e t) (λ t' time. IsNext c e t time) (next_of c fuel e t)
  unfolding next_of
  next_of-IsNext =
      Sure-bind {Q = Timed t} (time_of c) _ t (time_of-Sure t real (omega arith))
        λ t1 original _ (same1, is_original).
          Sure-bind {Q = λ t' done. Matches e t' × Moved c e t t'}
            (do_next c fuel e (to_unsigned t1.tm_year)) _ t1
            (rw same1 (
              Sure-map (search-Least (to_unsigned t.tm_year) t real (omega arith)) Stuck-IsBlocked
                λ t2 done found. found))
            λ t2 done _ (m, moved).
              let times = exact.times t2 t moved.0 real in
              Sure-bind {Q = Timed t2} (time_of c) _ t2 (time_of-Sure t2 moved.0 moved.1)
                λ t3 calculated _ (same3, is_calculated).
                  Sure-bind {Q = λ t' done. Ready t'}
                    (search_again c fuel e (equal_ℤ calculated original)) _ t3
                    (rw same3 (
                      search_again-Ready t2 (equal_ℤ calculated original) (m, moved)
                        (λ q same.
                          equal_ℤ-false calculated original q
                            (is_calculated ∙ times.1 same ∙ sym is_original))
                        λ q.
                          times.0
                            (sym is_calculated ∙ equal_ℤ-true calculated original q ∙ is_original)))
                    λ t4 done _ (within, m4, later).
                      Sure-map (time_of-Sure t4 within.real within.no_earlier) (λ why. why)
                        λ t5 time (_, q). record {
                          calendar = t4;
                          within = within;
                          matches = m4;
                          later = later;
                          is_time = q;
                        }

-- For a clock that only moves forward, as `IsSteady` says, and has no gaps, as `IsExact` says, an
-- expression as the parser leaves it, of one second and every month, for which the search of a day
-- ends on the day number where it began only if it did not move, a date for which `localtime_r`
-- gives a calendar that exists and lies after the epoch, and fuel for every later calendar:
-- `cron_next` ends, with no access outside an array, and answers the time of the very first date of
-- the expression that exists and is later than that calendar; or it answers -1, where `mktime`
-- reports an error when a field is raised of a date with no date of the expression after the start
-- and before it.
pub cron_next-Least :
    (c : Clock) (s : ℕ) (e : CronExpr) (fuel : ℕ) (date : ℤ) (t : Tm)
    → IsSteady c
    → IsExact c
    → IsWellFormed e
    → IsLone s e
    → IsEveryMonth e
    → TellsDays c e
    → c.localtime date ≡ some t
    → IsReal c t
    → IsAfterEpoch c t
    → rank_bound ≤ fuel + rank t
    → Returns
        (cron_next c fuel (some e) date)
        (λ time. ((time ≡ negsuc 0) × IsBlocked c e t) ⊎ IsNext c e t time)
unfolding cron_next
cron_next-Least c s e fuel date t steady exact w lone months tells start real after enough =
    rw (cron_next, start)
      (answer_of-Returns (next_of c fuel e t)
        (next_of-IsNext c s e fuel steady exact w lone months tells t real after enough))
