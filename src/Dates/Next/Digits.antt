-- ===== src/Dates/Next/Digits.antt =====
-- The fields of a time of day, and `write_value`, the writes of `find_next` of ccronexpr.c, on a
-- clock without gaps.
use smart_device_svr.Base.{ℕ, ◌≤◌, ◌<◌, ◌≡◌, ◌∙◌, refl, true, false, Option, some, List, arith}
use smart_device_svr.Base.Int.{pos, pos_part}
use smart_device_svr.Calendar.{
  Tm, Clock, Field, second, minute, hour_of_day, day_of_week, day_of_month, month, year, written,
  is_invalid, cron_mktime, set_field, reset_all_min,
}
use smart_device_svr.Calendar.Fields.{code_of, has_field}
use smart_device_svr.Calendar.Monad.{then-some}
use smart_device_svr.Dates.Exact.{IsReal, IsExact, Low}
use smart_device_svr.Dates.Exact.Resets.{
  Cleared, put, put-IsReal, put-rank, put-value, put-settle, reset_all_min-Ends,
}
use smart_device_svr.Dates.Rank.{rank_at, value_of, Fits}
use smart_device_svr.Dates.Steady.{IsSteady, Below}
use smart_device_svr.Dates.Next.{write_value}

-- A field of a time of day, as the last digit of the rank at it.
pub record IsDigit (f next : Field) : Type 0 where
  pub low : code_of f < 3
  pub next_low : code_of next < 5
  pub order :
      (t u : Tm)
      → rank_at next t ≡ rank_at next u
      → rank_at f t ≤ rank_at f u
      → pos_part (value_of f t) ≤ pos_part (value_of f u)
  pub order_back :
      (t u : Tm)
      → rank_at next t ≡ rank_at next u
      → pos_part (value_of f t) ≤ pos_part (value_of f u)
      → rank_at f t ≤ rank_at f u
  pub wrote : (i : ℕ) (t : Tm) → value_of f (written f (pos i) t) ≡ pos i

pub second-IsDigit : IsDigit second minute
second-IsDigit = record {
  low = omega arith;
  next_low = omega arith;
  order = λ t u e h. omega arith;
  order_back = λ t u e h. omega arith;
  wrote = λ i t. refl;
}

pub minute-IsDigit : IsDigit minute hour_of_day
minute-IsDigit = record {
  low = omega arith;
  next_low = omega arith;
  order = λ t u e h. omega arith;
  order_back = λ t u e h. omega arith;
  wrote = λ i t. refl;
}

pub hour-IsDigit : IsDigit hour_of_day day_of_week
hour-IsDigit = record {
  low = omega arith;
  next_low = omega arith;
  order = λ t u e h. omega arith;
  order_back = λ t u e h. omega arith;
  wrote = λ i t. refl;
}

-- The fields that the resets must set so that a calendar is low below the field.
abbrev pub Resets : Field → List (Option Field) → Type 0
Resets hour_of_day l = has_field l minute ≡ true
Resets _ l = Unit

-- The second is none past the one of the expression, where the field stands above it.
abbrev pub LowSecond : ℕ → Field → Tm → Type 0
LowSecond s f t = 0 < code_of f → pos_part t.tm_sec ≤ s

module _ (c : Clock) (steady : IsSteady c) (exact : IsExact c) (s : ℕ) where
  second_kept :
      (f : Field) (i : ℕ) (t : Tm) → 0 < code_of f → (written f (pos i) t).tm_sec ≡ t.tm_sec
  second_kept second i t h = absurd (omega arith)
  second_kept minute i t h = refl
  second_kept hour_of_day i t h = refl
  second_kept day_of_week i t h = refl
  second_kept day_of_month i t h = refl
  second_kept month i t h = refl
  second_kept year i t h = refl

  pub put-LowSecond :
      (f : Field) (i : ℕ) (t : Tm)
      → code_of f < 3
      → Fits f i
      → IsReal c t
      → LowSecond s f t
      → LowSecond s f (put c steady exact f i t)
  put-LowSecond f i t three fits real low above =
      let same = put-value c steady exact f i t three fits real second ∙ second_kept f i t above in
      rw same (low above)

  Cleared-Low :
      (f : Field) (l : List (Option Field)) (t t' : Tm)
      → code_of f < 3
      → Resets f l
      → LowSecond s f t
      → Cleared c f l t t'
      → Low s f t'
  Cleared-Low second l t t' three resets low cleared = tt
  Cleared-Low minute l t t' three resets low cleared =
      omega (arith, cleared.sec_le, low (omega arith))
  Cleared-Low hour_of_day l t t' three resets low cleared =
      (cleared.min_zero resets, omega (arith, cleared.sec_le, low (omega arith)))
  Cleared-Low day_of_week l t t' three resets low cleared = absurd (omega arith)
  Cleared-Low day_of_month l t t' three resets low cleared = absurd (omega arith)
  Cleared-Low month l t t' three resets low cleared = absurd (omega arith)
  Cleared-Low year l t t' three resets low cleared = absurd (omega arith)

  -- The write of a value and the resets below it: the calendar with the value, low below it.
  pub write_value-Low :
      (f : Field) (i : ℕ) (l : List (Option Field)) (t : Tm)
      → code_of f < 3
      → Fits f i
      → Below (code_of f) l
      → Resets f l
      → LowSecond s f t
      → IsReal c t
      → ((u : Tm)
          → IsReal c u
          → rank_at f (written f (pos i) t) ≤ rank_at f u
          → is_invalid (cron_mktime c u).1 ≡ false)
      → (t' : Tm) × (write_value c f i l t ≡ some (t', some i))
        × IsReal c t'
        × (rank_at f t' ≡ rank_at f (written f (pos i) t))
        × Low s f t'
  unfolding write_value set_field
  write_value-Low f i l t three fits below resets low real valid =
      let real1 = put-IsReal c steady exact f i t three fits real in
      let rank1 = put-rank c steady exact f i t three fits real f in
      let t1 : Tm = put c steady exact f i t in
      let run1 = put-settle c steady exact f i t three fits real (valid t1 real1 (omega arith)) in
      let (t2, run2, cleared) =
        reset_all_min-Ends c steady exact f (code_of f) l t1 (omega arith) (omega arith) below real1
          (λ u ru h. valid u ru (omega arith)) in
      (
        t2,
        then-some (set_field c f (pos i)) _ t t1 tt run1
            ∙ then-some (reset_all_min c l) _ t1 t2 tt run2,
        cleared.real,
        cleared.top ∙ rank1,
        Cleared-Low f l t1 t2 three resets (put-LowSecond f i t three fits real low) cleared,
      )
