-- ===== src/Dates/Exact/Resets.antt =====
-- The resets of ccronexpr.c on a clock without gaps.
use smart_device_svr.Base.{
  ℕ, ◌≤◌, ◌<◌, ◌≡◌, ◌∙◌, refl, ap, subst, true, false, Option, none, some, List, [], ◌∷◌, arith,
}
use smart_device_svr.Base.Int.{ℤ, pos, pos_part}
use smart_device_svr.Calendar.{
  Tm, Clock, Field, second, minute, hour_of_day, day_of_week, day_of_month, month, year, written,
  least, is_invalid, cron_mktime, settle, reset_min, reset_all_min,
}
use smart_device_svr.Calendar.Fields.{code_of, has_field, same_field}
use smart_device_svr.Calendar.Monad.{then-some}
use smart_device_svr.Dates.Exact.{IsReal, IsExact}
use smart_device_svr.Dates.Rank.{rank_at, value_of, Fits, written-IsNormal, rank_at-written}
use smart_device_svr.Dates.Steady.{IsSteady, Below, settled}

-- The routine ends without an error.
abbrev pub Ends : (Tm → Type 0) → Option (Tm × Option (Unit {0})) → Type 0
Ends Q r = (t' : Tm) × (r ≡ some (t', some tt)) × Q t'

isdst_rank : (f : Field) (t : Tm) (d : ℤ) → rank_at f (record t { tm_isdst = d }) ≡ rank_at f t
isdst_rank second t d = refl
isdst_rank minute t d = refl
isdst_rank hour_of_day t d = refl
isdst_rank day_of_week t d = refl
isdst_rank day_of_month t d = refl
isdst_rank month t d = refl
isdst_rank year t d = refl

isdst_value : (f : Field) (t : Tm) (d : ℤ) → value_of f (record t { tm_isdst = d }) ≡ value_of f t
isdst_value second t d = refl
isdst_value minute t d = refl
isdst_value hour_of_day t d = refl
isdst_value day_of_week t d = refl
isdst_value day_of_month t d = refl
isdst_value month t d = refl
isdst_value year t d = refl

-- Nothing above the field changed, the fields of a time of day are no greater, and those of the list
-- are 0.
pub record Cleared (c : Clock) (f : Field) (l : List (Option Field)) (t t' : Tm) : Type 0 where
  pub real : IsReal c t'
  pub top : rank_at f t' ≡ rank_at f t
  pub sec_le : pos_part t'.tm_sec ≤ pos_part t.tm_sec
  pub min_le : pos_part t'.tm_min ≤ pos_part t.tm_min
  pub hour_le : pos_part t'.tm_hour ≤ pos_part t.tm_hour
  pub min_zero : has_field l minute ≡ true → pos_part t'.tm_min ≡ 0
  pub hour_zero : has_field l hour_of_day ≡ true → pos_part t'.tm_hour ≡ 0

module _ (c : Clock) (steady : IsSteady c) (exact : IsExact c) where
  -- `mktime` after the write of a second, a minute or an hour.
  abbrev pub put : Field → ℕ → Tm → Tm
  put g v t = (cron_mktime c (written g (pos v) t)).0

  module _ (g : Field) (v : ℕ) (t : Tm) (three : code_of g < 3) (fits : Fits g v)
      (real : IsReal c t) where
    pub put-IsReal : IsReal c (put g v t)
    put-IsReal = (
      (steady.keeps (written g (pos v) t) (written-IsNormal g v t fits real.0)).0,
      ap (λ r. r.0) (steady.settles (written g (pos v) t)),
    )

    pub put-rank : (f : Field) → rank_at f (put g v t) ≡ rank_at f (written g (pos v) t)
    put-rank f =
        ap (λ u. rank_at f u) (exact.stays g v t three fits real)
        ∙ isdst_rank f (written g (pos v) t) (put g v t).tm_isdst

    pub put-value : (f : Field) → value_of f (put g v t) ≡ value_of f (written g (pos v) t)
    put-value f =
        ap (λ u. value_of f u) (exact.stays g v t three fits real)
        ∙ isdst_value f (written g (pos v) t) (put g v t).tm_isdst

    -- Without an error, where the calendar that is made has a time.
    pub put-settle :
        is_invalid (cron_mktime c (put g v t)).1 ≡ false
        → settle c (written g (pos v)) t ≡ some (put g v t, some tt)
    put-settle valid =
        settled c (written g (pos v)) t false
          (subst (λ r. is_invalid r.1 ≡ false) (steady.settles (written g (pos v) t)) valid)

  pub least_low : (g : Field) → code_of g < 3 → (least g ≡ pos 0) × Fits g 0
  least_low second h = (refl, omega arith)
  least_low minute h = (refl, omega arith)
  least_low hour_of_day h = (refl, omega arith)
  least_low day_of_week h = absurd (omega arith)
  least_low day_of_month h = absurd (omega arith)
  least_low month h = absurd (omega arith)
  least_low year h = absurd (omega arith)

  one-Cleared :
      (f g : Field) (t : Tm) (three : code_of g < 3)
      → code_of g < code_of f
      → IsReal c t
      → Cleared c f (some g ∷ []) t (put g 0 t)
  unfolding has_field same_field
  one-Cleared f g t three below real =
      let fits : Fits g 0 = (least_low g three).1 in
      let value = put-value g 0 t three fits real in
      record {
        real = put-IsReal g 0 t three fits real;
        top = put-rank g 0 t three fits real f ∙ rank_at-written f g (pos 0) t below;
        sec_le = ground (arith, value second);
        min_le = ground (arith, value minute);
        hour_le = ground (arith, value hour_of_day);
        min_zero = λ has. ground (arith, value minute);
        hour_zero = λ has. ground (arith, value hour_of_day);
      }

  Cleared-trans :
      (f g : Field) (l : List (Option Field)) (t t1 t2 : Tm)
      → Cleared c f (some g ∷ []) t t1
      → Cleared c f l t1 t2
      → Cleared c f (some g ∷ l) t t2
  unfolding has_field
  Cleared-trans f g l t t1 t2 a b = record {
    real = b.real;
    top = b.top ∙ a.top;
    sec_le = omega (arith, a.sec_le, b.sec_le);
    min_le = omega (arith, a.min_le, b.min_le);
    hour_le = omega (arith, a.hour_le, b.hour_le);
    min_zero = λ has. ground (arith, a.min_zero, b.min_zero, b.min_le);
    hour_zero = λ has. ground (arith, a.hour_zero, b.hour_zero, b.hour_le);
  }

  -- The loop of the resets below a field from the second to the day.
  pub reset_all_min-Ends :
      (f : Field) (k : ℕ) (l : List (Option Field)) (t : Tm)
      → k ≤ 3
      → k ≤ code_of f
      → Below k l
      → IsReal c t
      → ((u : Tm) → IsReal c u → rank_at f t ≤ rank_at f u → is_invalid (cron_mktime c u).1 ≡ false)
      → Ends (Cleared c f l t) (reset_all_min c l t)
  unfolding reset_all_min reset_min has_field
  reset_all_min-Ends f k [] t three le below real valid = (
    t,
    refl,
    record {
      real = real;
      top = refl;
      sec_le = omega arith;
      min_le = omega arith;
      hour_le = omega arith;
      min_zero = λ has. absurd (cc);
      hour_zero = λ has. absurd (cc);
    },
  )
  reset_all_min-Ends f k (none ∷ l) t three le (_, below) real valid =
      let (t', run, r) = reset_all_min-Ends f k l t three le below real valid in
      (
        t',
        run,
        record {
          real = r.real;
          top = r.top;
          sec_le = r.sec_le;
          min_le = r.min_le;
          hour_le = r.hour_le;
          min_zero = λ has. r.min_zero has;
          hour_zero = λ has. r.hour_zero has;
        },
      )
  reset_all_min-Ends f k (some g ∷ l) t three le (lt, below) real valid =
      let low : code_of g < 3 = omega arith in
      let first = one-Cleared f g t low (omega arith) real in
      let (zero_least, fits) = least_low g low in
      let run1 : settle c (written g (least g)) t ≡ some (put g 0 t, some tt) = rw zero_least (
        put-settle g 0 t low fits real (valid (put g 0 t) first.real (omega (arith, first.top)))) in
      let (t2, run2, rest) =
        reset_all_min-Ends f k l (put g 0 t) three le below first.real
          (λ u ru h. valid u ru (omega (arith, first.top))) in
      (
        t2,
        then-some (reset_min c g) (λ done. reset_all_min c l) t (put g 0 t) tt run1 ∙ run2,
        Cleared-trans f g l t (put g 0 t) t2 first rest,
      )
