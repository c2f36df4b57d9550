-- ===== src/Dates/Next/Answer.antt =====
-- `cron_next` of ccronexpr.c on a clock that only moves forward.
use smart_device_svr.Base.{
  ℕ, ◌+◌, ◌≤◌, ◌<◌, ◌≡◌, ◌≢◌, ◌∙◌, refl, sym, ap, ◌⊎◌, inl, inr, Bool, Bool-cases, true, false,
  Option, none, some, arith, ==_refl, Returns,
}
use smart_device_svr.Base.Int.{ℤ, pos, negsuc}
use smart_device_svr.Calendar.{
  Tm, Clock, second, cron_mktime, is_invalid, to_unsigned, add_to_field,
}
use smart_device_svr.Calendar.Keeps.{Post-Kept}
use smart_device_svr.Dates.Exact.{IsReal}
use smart_device_svr.Dates.Next.Real.{IsFixed, add_to_field-Keeps}
use smart_device_svr.Calendar.Outcome.{Post, fails, ends, Post-bind, Post-map}
use smart_device_svr.Dates.Match.{Matches}
use smart_device_svr.Dates.Rank.{IsNormal, rank, rank_bound}
use smart_device_svr.Dates.Steady.{IsSteady, add_to_field-Post}
use smart_device_svr.Dates.Steps.{time_of, equal_ℤ, answer_of}
use smart_device_svr.Dates.Next.{do_next, search_again, next_of, cron_next}
use smart_device_svr.Dates.Next.Progress.{DayTells, Found}
use smart_device_svr.Dates.Next.Sound.{do_next-Sound}
use smart_device_svr.Expr.{CronExpr}
use smart_device_svr.Expr.Parse.Total.{IsWellFormed}

-- A time that `mktime` makes of a date of the expression that exists, no earlier than the calendar of
-- the start, and another one than that of the start, or of a later date.
pub record IsAnswer (c : Clock) (e : CronExpr) (t : Tm) (time : ℤ) : Type 0 where
  pub calendar : Tm
  pub real : IsReal c calendar
  pub matches : Matches e calendar
  pub no_earlier : rank t ≤ rank calendar
  pub is_time : time ≡ (cron_mktime c calendar).1
  pub moved : (rank t < rank calendar) ⊎ (time ≢ (cron_mktime c t).1)

equal_ℤ_refl : (a : ℤ) → equal_ℤ a a ≡ true
equal_ℤ_refl (pos a) = ==_refl a
equal_ℤ_refl (negsuc a) = ==_refl a

pub equal_ℤ-false : (a b : ℤ) → equal_ℤ a b ≡ false → a ≢ b
equal_ℤ-false a b h q = let same : equal_ℤ a b ≡ true = rw q (equal_ℤ_refl b) in absurd (cc)

pub equal_ℤ-true : (a b : ℤ) → equal_ℤ a b ≡ true → a ≡ b
equal_ℤ-true (pos a) (pos b) h = let same : a ≡ b = ground arith in ap pos same
equal_ℤ-true (negsuc a) (negsuc b) h = let same : a ≡ b = ground arith in ap negsuc same
equal_ℤ-true (pos a) (negsuc b) h = absurd (cc)
equal_ℤ-true (negsuc a) (pos b) h = absurd (cc)

module _ (c : Clock) where
  -- What `cron_mktime` leaves and the time that it gives.
  abbrev pub Timed : Tm → Tm → ℤ → Type 0
  Timed t t' time = (t' ≡ (cron_mktime c t).0) × (time ≡ (cron_mktime c t).1)

  pub time_of-Post : (t : Tm) → Post (Timed t) (time_of c t)
  unfolding time_of
  time_of-Post t = elim (Bool-cases (is_invalid (cron_mktime c t).1)) [
    | inl e ↦ rw e fails
    | inr e ↦ rw e (ends (refl, refl))
  ]

pub answer_of-Returns :
    {Q : ℤ → Type 0} (r : Option (Tm × Option ℤ))
    → Post (λ t time. Q time) r
    → Returns (answer_of r) (λ time. (time ≡ negsuc 0) ⊎ Q time)
answer_of-Returns none p = elim p [ ]
answer_of-Returns (some (t, none)) fails = (negsuc 0, refl, inl refl)
answer_of-Returns (some (t, some time)) (ends q) = (time, refl, inr q)

module _ (c : Clock) (e : CronExpr) (fuel : ℕ) (steady : IsSteady c) (w : IsWellFormed e)
    (tells : DayTells c e) (t : Tm) (n : IsNormal t) (enough : rank_bound ≤ fuel + rank t) where
  -- What the second part of the search leaves, before the time is taken.
  abbrev Ready : Tm → Type 0
  Ready t' = ((time : ℤ) → time ≡ (cron_mktime c t').1 → IsAnswer c e t time)

  search_again-Post :
      (t2 : Tm) (b : Bool)
      → Found c e t t2
      → (b ≡ false → (cron_mktime c t2).1 ≢ (cron_mktime c t).1)
      → Post (λ t' _. Ready t') (search_again c fuel e b (cron_mktime c t2).0)
  unfolding search_again
  search_again-Post t2 false (n2, m, le) other = ends λ time q.
      let is_time : time ≡ (cron_mktime c t2).1 = q ∙ ap (λ r. r.1) (steady.settles t2) in
      record {
        calendar = t2;
        real = n2;
        matches = m;
        no_earlier = le;
        is_time = is_time;
        moved = inr λ same. other refl (sym is_time ∙ same);
      }
  search_again-Post t2 true (n2, m, le) other =
      let t3 : Tm = (cron_mktime c t2).0 in
      let (n3, le3) = steady.keeps t2 n2.0 in
      Post-bind {Q = λ t' done. (IsNormal t' × (rank t3 < rank t')) × ((cron_mktime c t').0 ≡ t')}
        (add_to_field c second (pos 1)) _ t3
        (Post-Kept (IsFixed c steady) (add_to_field-Post c steady second t3 n3)
          (add_to_field-Keeps c steady second (pos 1) t3 (ap (λ r. r.0) (steady.settles t2))))
        λ t4 done _ ((n4, up), fixed).
          Post-map
            (do_next-Sound c e fuel (to_unsigned t4.tm_year) t4 steady w tells (n4, fixed)
              (omega arith))
            λ t5 done (n5, m5, le5) time q. record {
              calendar = t5;
              real = n5;
              matches = m5;
              no_earlier = omega arith;
              is_time = q;
              moved = inl (omega arith);
            }

  next_of-Post : Post (λ t' time. IsAnswer c e t time) (next_of c fuel e t)
  unfolding next_of
  next_of-Post =
      let (n1, le1) = steady.keeps t n in
      Post-bind {Q = Timed c t} (time_of c) _ t (time_of-Post c t)
        λ t1 original _ (same1, is_original).
          Post-bind {Q = λ t' done. Found c e t t'} (do_next c fuel e (to_unsigned t1.tm_year)) _ t1
            (rw same1 (
              Post-map
                (do_next-Sound c e fuel (to_unsigned (cron_mktime c t).0.tm_year)
                  (cron_mktime c t).0 steady w tells (n1, ap (λ r. r.0) (steady.settles t))
                  (omega arith))
                λ t2 done (n2, m, le). (n2, m, omega arith)))
            λ t2 done _ found.
              Post-bind {Q = Timed c t2} (time_of c) _ t2 (time_of-Post c t2)
                λ t3 calculated _ (same3, is_calculated).
                  Post-bind {Q = λ t' done. Ready t'}
                    (search_again c fuel e (equal_ℤ calculated original)) _ t3
                    (rw same3 (
                      search_again-Post t2 (equal_ℤ calculated original) found λ q same.
                        equal_ℤ-false calculated original q
                          (is_calculated ∙ same ∙ sym is_original)))
                    λ t4 done _ ready. Post-map (time_of-Post c t4) λ t5 time (_, q). ready time q

-- For a clock that only moves forward, as `IsSteady` says, an expression as the parser leaves it,
-- for which the search of a day from a date that exists ends on the day number where it began only if
-- it did not move, a start for which `localtime_r` gives a calendar within the ranges, and fuel for
-- every later calendar: `cron_next` ends, with no access outside an array, and answers -1 or a time
-- that `mktime` makes of a date that exists and matches the expression in every field. That date is
-- no earlier than the calendar of the start, and it is later, or the time is another than `mktime`
-- makes of the calendar of the start.
pub cron_next-Sound :
    (c : Clock) (e : CronExpr) (fuel : ℕ) (date : ℤ) (t : Tm)
    → IsSteady c
    → IsWellFormed e
    → DayTells c e
    → c.localtime date ≡ some t
    → IsNormal t
    → rank_bound ≤ fuel + rank t
    → Returns (cron_next c fuel (some e) date) (λ time. (time ≡ negsuc 0) ⊎ IsAnswer c e t time)
unfolding cron_next
cron_next-Sound c e fuel date t steady w tells start n enough =
    rw (cron_next, start)
      (answer_of-Returns (next_of c fuel e t) (next_of-Post c e fuel steady w tells t n enough))
