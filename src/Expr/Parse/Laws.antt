-- ===== src/Expr/Parse/Laws.antt =====
-- `cron_parse_expr` of ccronexpr.c as a whole.
use smart_device_svr.Base.{
  ℕ, ◌*◌, ◌≤◌, ◌<◌, ◌≡◌, refl, Bool, inl, inr, Option, none, some, List, [], ◌∷◌, Bytes, arith,
  Returns, length, replicate,
}
use smart_device_svr.Bitset.{member}
use smart_device_svr.Bitset.Laws.{IsArray}
use smart_device_svr.Text.Replace.Ordinals.{max_text}
use smart_device_svr.Expr.{CronExpr, zeroed, OrError}
use smart_device_svr.Expr.Hits.{Hits, set_number_hits}
use smart_device_svr.Expr.Fields.{set_months, set_days_of_week, set_days_of_month}
use smart_device_svr.Expr.Fields.Laws.{Reads, Filled, set_number_hits-Filled}
use smart_device_svr.Expr.Fields.Named.{
  ReadsMonths, starred, ReadsWeek, set_months-Filled, set_days_of_week-Filled,
  set_days_of_month-Filled,
}
use smart_device_svr.Expr.Parse.{
  Parsed, then_next, finish, parse_days_of_week, parse_months, parse_days_of_month, parse_hours,
  parse_minutes, parse_six,
}

-- The members of the structure are arrays of the sizes that its declaration gives.
pub record IsSized (e : CronExpr) : Type 0 where
  pub seconds_size : IsArray 8 e.seconds
  pub minutes_size : IsArray 8 e.minutes
  pub hours_size : IsArray 3 e.hours
  pub days_of_week_size : IsArray 1 e.days_of_week
  pub days_of_month_size : IsArray 4 e.days_of_month
  pub months_size : IsArray 2 e.months

-- The structure says what the six texts say.
pub record IsReading (f0 f1 f2 f3 f4 f5 : Bytes) (e : CronExpr) : Type 0 where
  pub seconds_read : Reads 0 60 f0 (member e.seconds)
  pub minutes_read : Reads 0 60 f1 (member e.minutes)
  pub hours_read : Reads 0 24 f2 (member e.hours)
  pub days_of_month_read : Reads 1 32 (starred f3) (member e.days_of_month)
  pub months_read : ReadsMonths f4 (member e.months)
  pub days_of_week_read : ReadsWeek f5 (member e.days_of_week)

-- What a parse that reports no error leaves behind.
pub record Accepted (texts : List Bytes) (r : Parsed) : Type 0 where
  pub expr : CronExpr
  pub stored : r.target ≡ some expr
  pub sized : IsSized expr
  pub f0 : Bytes
  pub f1 : Bytes
  pub f2 : Bytes
  pub f3 : Bytes
  pub f4 : Bytes
  pub f5 : Bytes
  pub six : texts ≡ f0 ∷ f1 ∷ f2 ∷ f3 ∷ f4 ∷ f5 ∷ []
  pub reading : IsReading f0 f1 f2 f3 f4 f5 expr

abbrev pub Sound : List Bytes → Parsed → Type 0
Sound texts r = OrError r.error (Accepted texts r)

-- The rule for one call: it ends, and what follows is sound if the call reported no error.
module _ (texts : List Bytes) (put : Bytes → CronExpr) (next : CronExpr → Option Parsed) where
  after_call :
      (n : ℕ) (P : (ℕ → Bool) → Type 0) (h : Hits)
      → Filled n P h
      → ((b : Bytes) → IsArray n b → P (member b) → Returns (next (put b)) (Sound texts))
      → Returns (then_next (some h) put next) (Sound texts)
  after_call n P h (v, inl (m, w)) k = rw w (_, refl, inl (m, refl))
  after_call n P h (v, inr (w, p)) k = rw w (k h.target v p)

  then_next-Sound :
      (hits : Option Hits) (n : ℕ) (P : (ℕ → Bool) → Type 0)
      → Returns hits (Filled n P)
      → ((b : Bytes) → IsArray n b → P (member b) → Returns (next (put b)) (Sound texts))
      → Returns (then_next hits put next) (Sound texts)
  then_next-Sound hits n P (h, run, f) k = rw run (after_call n P h f k)

number :
    (n min max : ℕ) (text : Bytes)
    → n ≤ 256
    → max ≤ 8 * n
    → Returns (set_number_hits text (replicate n 0) min max) (Filled n (Reads min max text))
number n min max text hn hm = let (h, run, f, _) = set_number_hits-Filled hn hm text in (h, run, f)

module _ (f0 f1 f2 f3 f4 f5 : Bytes) (h4 : length f4 < max_text) (h5 : length f5 < max_text) where
  abbrev pub texts : List Bytes
  texts = f0 ∷ f1 ∷ f2 ∷ f3 ∷ f4 ∷ f5 ∷ []

  -- The structure after the first calls, with its other members still zero.
  abbrev filled : Bytes → Bytes → Bytes → Bytes → Bytes → CronExpr
  filled b0 b1 b2 b3 b4 = record zeroed {
    seconds = b0;
    minutes = b1;
    hours = b2;
    days_of_month = b3;
    months = b4;
  }

  abbrev z : ℕ → Bytes
  z n = replicate n 0

  module _ (b0 : Bytes) (v0 : IsArray 8 b0) (r0 : Reads 0 60 f0 (member b0)) where
    module _ (b1 : Bytes) (v1 : IsArray 8 b1) (r1 : Reads 0 60 f1 (member b1)) where
      module _ (b2 : Bytes) (v2 : IsArray 3 b2) (r2 : Reads 0 24 f2 (member b2)) where
        module _ (b3 : Bytes) (v3 : IsArray 4 b3) (r3 : Reads 1 32 (starred f3) (member b3)) where
          module _ (b4 : Bytes) (v4 : IsArray 2 b4) (r4 : ReadsMonths f4 (member b4)) where
            stage_5 : Returns (parse_days_of_week f5 (filled b0 b1 b2 b3 b4)) (Sound texts)
            unfolding parse_days_of_week
            stage_5 =
                then_next-Sound texts (λ b. record (filled b0 b1 b2 b3 b4) { days_of_week = b })
                  finish (set_days_of_week f5 (z 1)) 1 (ReadsWeek f5)
                  (set_days_of_week-Filled f5 h5)
                  λ b5 v5 r5. (_, refl, inr (refl, accepted b5 v5 r5))
              where
                accepted :
                    (b5 : Bytes)
                    → IsArray 1 b5
                    → ReadsWeek f5 (member b5)
                    → Accepted texts (record {
                      target = some (record (filled b0 b1 b2 b3 b4) { days_of_week = b5 });
                      error = none;
                    })
                accepted b5 v5 r5 = record {
                  expr = record (filled b0 b1 b2 b3 b4) { days_of_week = b5 };
                  stored = refl;
                  sized = record {
                    seconds_size = v0;
                    minutes_size = v1;
                    hours_size = v2;
                    days_of_week_size = v5;
                    days_of_month_size = v3;
                    months_size = v4;
                  };
                  f0 = f0;
                  f1 = f1;
                  f2 = f2;
                  f3 = f3;
                  f4 = f4;
                  f5 = f5;
                  six = refl;
                  reading = record {
                    seconds_read = r0;
                    minutes_read = r1;
                    hours_read = r2;
                    days_of_month_read = r3;
                    months_read = r4;
                    days_of_week_read = r5;
                  };
                }

          stage_4 : Returns (parse_months f4 f5 (filled b0 b1 b2 b3 (z 2))) (Sound texts)
          unfolding parse_months
          stage_4 =
              then_next-Sound texts (λ b. filled b0 b1 b2 b3 b) (parse_days_of_week f5)
                (set_months f4 (z 2)) 2 (ReadsMonths f4) (set_months-Filled f4 h4) stage_5

        stage_3 : Returns (parse_days_of_month f3 f4 f5 (filled b0 b1 b2 (z 4) (z 2))) (Sound texts)
        unfolding parse_days_of_month
        stage_3 =
            then_next-Sound texts (λ b. filled b0 b1 b2 b (z 2)) (parse_months f4 f5)
              (set_days_of_month f3 (z 4)) 4 (Reads 1 32 (starred f3)) (set_days_of_month-Filled f3)
              stage_4

      stage_2 : Returns (parse_hours f2 f3 f4 f5 (filled b0 b1 (z 3) (z 4) (z 2))) (Sound texts)
      unfolding parse_hours
      stage_2 =
          then_next-Sound texts (λ b. filled b0 b1 b (z 4) (z 2)) (parse_days_of_month f3 f4 f5)
            (set_number_hits f2 (z 3) 0 24) 3 (Reads 0 24 f2)
            (number 3 0 24 f2 (omega arith) (omega arith)) stage_3

    stage_1 :
        Returns (parse_minutes f1 f2 f3 f4 f5 (filled b0 (z 8) (z 3) (z 4) (z 2))) (Sound texts)
    unfolding parse_minutes
    stage_1 =
        then_next-Sound texts (λ b. filled b0 b (z 3) (z 4) (z 2)) (parse_hours f2 f3 f4 f5)
          (set_number_hits f1 (z 8) 0 60) 8 (Reads 0 60 f1)
          (number 8 0 60 f1 (omega arith) (omega arith)) stage_2

  pub parse_six-Sound : Returns (parse_six f0 f1 f2 f3 f4 f5 zeroed) (Sound texts)
  unfolding parse_six
  parse_six-Sound =
      then_next-Sound texts (λ b. filled b (z 8) (z 3) (z 4) (z 2)) (parse_minutes f1 f2 f3 f4 f5)
        (set_number_hits f0 (z 8) 0 60) 8 (Reads 0 60 f0)
        (number 8 0 60 f0 (omega arith) (omega arith)) stage_1
