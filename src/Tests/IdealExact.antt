-- ===== src/Tests/IdealExact.antt =====
-- The clock that carries has no gaps.
use native.Mathlib.Decide.{dec_lt}
use smart_device_svr.Base.{
  ◌⊎◌, inl, inr, ◌*◌, ℕ, ◌+◌, ◌*◌, ◌/◌, ◌%◌, ◌≤◌, ◌<◌, ◌≡◌, ◌∙◌, refl, sym, ap, subst, arith,
  lt→ltb, ◌↔◌,
}
use smart_device_svr.Base.Int.{pos, pos_part}
use smart_device_svr.Calendar.{
  to_unsigned, Tm, Field, second, minute, hour_of_day, day_of_week, day_of_month, month, year,
  added, written, cron_mktime,
}
use smart_device_svr.Calendar.Fields.{code_of}
use smart_device_svr.Dates.Exact.{IsReal, IsExact}
use smart_device_svr.Dates.Rank.{IsNormal, Fits, value_of, rank, rank_day, rank_at}
use smart_device_svr.Dates.Exact.Weekly.{IsWeekly, tomorrow}
use smart_device_svr.Tests.Ideal.{
  ideal, date_at, date_of, number, last_number, day_number_lem, date_of-at, number-lt, unit_of,
  rank_at-date_of_le, rank_at-date_of_lt, second_lt, raised_number, unit_step,
}

date_of-number_at :
    (d h m s : ℕ) → h < 24 → m < 60 → s < 60 → date_of (number (date_at d h m s)) ≡ date_at d h m s
date_of-number_at d h m s hh hm hs =
    let q : number (date_at d h m s) ≡ d * 86400 + h * 3600 + m * 60 + s =
      omega (arith, day_number_lem d h m s) in
    ap date_of q ∙ date_of-at d h m s hh hm hs

pub real_at : (t : Tm) → IsReal ideal t → date_of (number t) ≡ t
unfolding cron_mktime
real_at t (n, same) = same

abbrev Stays : Field → ℕ → Tm → Type 0
Stays g v t =
    date_of (number (written g (pos v) t)) ≡ record (written g (pos v) t) { tm_isdst = pos 0 }

put_again :
    (g : Field) (v d h m s : ℕ)
    → code_of g < 3
    → Fits g v
    → h < 24
    → m < 60
    → s < 60
    → Stays g v (date_at d h m s)
put_again second v d h m s three fits hh hm hs = date_of-number_at d h m v hh hm fits
put_again minute v d h m s three fits hh hm hs = date_of-number_at d h v s hh fits hs
put_again hour_of_day v d h m s three fits hh hm hs = date_of-number_at d v m s fits hm hs
put_again day_of_week v d h m s three fits hh hm hs = absurd (omega arith)
put_again day_of_month v d h m s three fits hh hm hs = absurd (omega arith)
put_again month v d h m s three fits hh hm hs = absurd (omega arith)
put_again year v d h m s three fits hh hm hs = absurd (omega arith)

put_real : (g : Field) (v : ℕ) (t : Tm) → code_of g < 3 → Fits g v → IsReal ideal t → Stays g v t
put_real g v t three fits real =
    let n = number t in
    subst (λ u. Stays g v u) (real_at t real)
      (put_again g v (n / 86400) (n / 3600 % 24) (n / 60 % 60) (n % 60) three fits (omega arith)
        (omega arith) (omega arith))

-- The rank of a real date in the terms of its number.
pub rank_of : (f : Field) (t : Tm) → IsReal ideal t → rank_at f (date_of (number t)) ≡ rank_at f t
rank_of f t real = ap (λ u. rank_at f u) (real_at t real)

raises :
    (f : Field) (t u : Tm)
    → code_of f < 5
    → IsReal ideal t
    → IsReal ideal u
    → rank_at f t < rank_at f u
    → rank_at f (date_of (number (added f (pos 1) t))) ≤ rank_at f u
raises f t u five rt ru up =
    let a = number t in
    let b = number u in
    let past : a / unit_of f < b / unit_of f = elim (dec_lt (a / unit_of f) (b / unit_of f)) [
      | yes lt ↦ lt
      | no ge ↦ absurd (
          omega
            (arith, rank_at-date_of_le f b a five (omega arith), rank_of f t rt, rank_of f u ru))
    ] in
    let near : rank_at f (date_of (a + unit_of f)) ≤ rank_at f (date_of b) =
      rank_at-date_of_le f (a + unit_of f) b five (omega (arith, unit_step f a)) in
    subst (λ k. rank_at f (date_of k) ≤ rank_at f u) (sym (raised_number f t five rt.0))
      (omega (arith, rank_of f u ru))

second_below : (f : Field) (a : ℕ) → 0 < code_of f → (a + unit_of f) % 60 ≡ a % 60
second_below second a h = absurd (omega arith)
second_below minute a h = omega arith
second_below hour_of_day a h = omega arith
second_below day_of_week a h = omega arith
second_below day_of_month a h = omega arith
second_below month a h = omega arith
second_below year a h = omega arith

minute_below : (f : Field) (a : ℕ) → 1 < code_of f → (a + unit_of f) / 60 % 60 ≡ a / 60 % 60
minute_below second a h = absurd (omega arith)
minute_below minute a h = absurd (omega arith)
minute_below hour_of_day a h = omega arith
minute_below day_of_week a h = omega arith
minute_below day_of_month a h = omega arith
minute_below month a h = omega arith
minute_below year a h = omega arith

hour_below : (f : Field) (a : ℕ) → 2 < code_of f → (a + unit_of f) / 3600 % 24 ≡ a / 3600 % 24
hour_below second a h = absurd (omega arith)
hour_below minute a h = absurd (omega arith)
hour_below hour_of_day a h = absurd (omega arith)
hour_below day_of_week a h = omega arith
hour_below day_of_month a h = omega arith
hour_below month a h = omega arith
hour_below year a h = omega arith

below_at :
    (f g : Field) (a : ℕ)
    → code_of g < 3
    → code_of g < code_of f
    → code_of f < 5
    → value_of g (date_of (a + unit_of f)) ≡ value_of g (date_of a)
below_at f second a three below five = ap pos (second_below f a below)
below_at f minute a three below five = ap pos (minute_below f a below)
below_at f hour_of_day a three below five = ap pos (hour_below f a below)
below_at f day_of_week a three below five = absurd (omega arith)
below_at f day_of_month a three below five = absurd (omega arith)
below_at f month a three below five = absurd (omega arith)
below_at f year a three below five = absurd (omega arith)

leaves_below :
    (f g : Field) (t : Tm)
    → code_of g < 3
    → code_of g < code_of f
    → code_of f < 5
    → IsReal ideal t
    → value_of g (date_of (number (added f (pos 1) t))) ≡ value_of g t
leaves_below f g t three below five real =
    ap (λ k. value_of g (date_of k)) (raised_number f t five real.0)
    ∙ below_at f g (number t) three below five
    ∙ ap (λ u. value_of g u) (real_at t real)

day_same : (a b : ℕ) → rank_day (date_of a) ≡ rank_day (date_of b) → a / 86400 ≡ b / 86400
day_same a b q = elim (dec_lt (a / 86400) (b / 86400)) [
  | yes lt ↦ absurd (omega (arith, rank_at-date_of_lt day_of_month a b (omega arith) lt))
  | no ge ↦ elim (dec_lt (b / 86400) (a / 86400)) [
    | yes lt ↦ absurd (omega (arith, rank_at-date_of_lt day_of_month b a (omega arith) lt))
    | no ge' ↦ omega arith
  ]
]

weekday :
    (t u : Tm) → IsReal ideal t → IsReal ideal u → rank_day t ≡ rank_day u → t.tm_wday ≡ u.tm_wday
weekday t u rt ru same =
    let q =
      day_same (number t) (number u)
        (rank_of day_of_month t rt ∙ same ∙ sym (rank_of day_of_month u ru)) in
    sym (ap (λ x. x.tm_wday) (real_at t rt))
    ∙ ap (λ d. pos ((d + 5) % 7)) q
    ∙ ap (λ x. x.tm_wday) (real_at u ru)

number_same : (t u : Tm) → IsReal ideal t → IsReal ideal u → rank t ≡ rank u → number t ≡ number u
number_same t u rt ru same = elim (dec_lt (number t) (number u)) [
  | yes lt ↦
      absurd (
        omega (arith, second_lt (number t) (number u) lt, rank_of second t rt, rank_of second u ru))
  | no ge ↦ elim (dec_lt (number u) (number t)) [
    | yes lt ↦ absurd (
        omega (arith, second_lt (number u) (number t) lt, rank_of second t rt, rank_of second u ru))
    | no ge' ↦ omega arith
  ]
]

pub time_at : (t : Tm) → IsNormal t → (cron_mktime ideal t).1 ≡ pos (number t)
unfolding cron_mktime
time_at t n = let on = lt→ltb (number t) last_number (number-lt t n) in rw on refl

times :
    (t u : Tm)
    → IsReal ideal t
    → IsReal ideal u
    → ((cron_mktime ideal t).1 ≡ (cron_mktime ideal u).1) ↔ (rank t ≡ rank u)
times t u rt ru = (
  (λ q.
      let same : number t ≡ number u = ap pos_part (sym (time_at t rt.0) ∙ q ∙ time_at u ru.0) in
      sym (rank_of second t rt) ∙ ap (λ k. rank (date_of k)) same ∙ rank_of second u ru),
  (λ q. time_at t rt.0 ∙ ap pos (number_same t u rt ru q) ∙ sym (time_at u ru.0)),
)

pub ideal-IsExact : IsExact ideal
unfolding cron_mktime
ideal-IsExact = record {
  stays = λ g v t three fits real. put_real g v t three fits real;
  raises = λ f t u five rt ru valid up. raises f t u five rt ru up;
  leaves_below = λ f g t three below five real valid. leaves_below f g t three below five real;
  weekday = weekday;
  times = times;
}

tomorrow-number : (t : Tm) → IsReal ideal t → tomorrow ideal t ≡ date_of (number t + 86400)
unfolding cron_mktime
tomorrow-number t real = ap date_of (raised_number day_of_month t (omega arith) real.0)

wday_next :
    (n : ℕ) → to_unsigned (date_of (n + 86400)).tm_wday ≡ (to_unsigned (date_of n).tm_wday + 1) % 7
wday_next n = omega arith

mday_next :
    (n : ℕ)
    → (to_unsigned (date_of (n + 86400)).tm_mday ≡ to_unsigned (date_of n).tm_mday + 1)
      ⊎ ((28 ≤ to_unsigned (date_of n).tm_mday) × (to_unsigned (date_of (n + 86400)).tm_mday ≡ 1))
mday_next n = elim (dec_lt (n / 86400 % 31) 30) [
  | yes lt ↦ inl (omega arith)
  | no last ↦ inr (omega arith, omega arith)
]

pub ideal-IsWeekly : IsWeekly ideal
ideal-IsWeekly = record {
  next_wday = λ t real valid. rw (tomorrow-number t real) (
      subst
        (λ u. to_unsigned (date_of (number t + 86400)).tm_wday ≡ (to_unsigned u.tm_wday + 1) % 7)
        (real_at t real) (wday_next (number t)));
  next_mday = λ t real valid. rw (tomorrow-number t real) (
      subst
        (λ u.
          (to_unsigned (date_of (number t + 86400)).tm_mday ≡ to_unsigned u.tm_mday + 1)
          ⊎ ((28 ≤ to_unsigned u.tm_mday) × (to_unsigned (date_of (number t + 86400)).tm_mday ≡ 1)))
        (real_at t real) (mday_next (number t)));
}
