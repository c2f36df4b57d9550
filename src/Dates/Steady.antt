-- ===== src/Dates/Steady.antt =====
-- What the searches of ccronexpr.c need of the clock, and what its resets leave.
use smart_device_svr.Base.{
  ℕ, ◌≤◌, ◌<◌, ◌≡◌, ◌≢◌, refl, subst, inl, inr, Bool, true, false, Bool-cases, Option, none, some,
  List, [], ◌∷◌, All, arith, if◌then◌else◌,
}
use smart_device_svr.Base.Int.{pos}
use smart_device_svr.Calendar.{
  Tm, Clock, Field, second, minute, hour_of_day, day_of_week, day_of_month, month, year, added,
  written, least, is_invalid, cron_mktime, settle, add_to_field, reset_min, reset_all_min,
}
use smart_device_svr.Calendar.Fields.{
  code_of, has_field, fill_first, push_to_fields_arr, empty_list,
}
use smart_device_svr.Calendar.Outcome.{Post, fails, ends, Lands, lands, Lands-then, Lands-map}
use smart_device_svr.Dates.Rank.{
  IsNormal, rank_at, rank, rank_at-le, rank_at-written, Fits, written-IsNormal,
}

-- A clock that only moves forward: `mktime` never makes a calendar within the ranges earlier or leaves
-- the ranges, it carries a field that was raised by one, where it reports no error, it keeps the
-- second, and it leaves a calendar that it made. The calendar of UTC has these properties. A time zone
-- lacks them where the clock is set back.
pub record IsSteady (c : Clock) : Type 0 where
  pub keeps :
      (t : Tm) → IsNormal t → IsNormal (cron_mktime c t).0 × (rank t ≤ rank (cron_mktime c t).0)
  pub carries :
      (f : Field) (t : Tm)
      → IsNormal t
      → is_invalid (cron_mktime c (added f (pos 1) t)).1 ≡ false
      → IsNormal (cron_mktime c (added f (pos 1) t)).0
        × (rank_at f t < rank_at f (cron_mktime c (added f (pos 1) t)).0)
  pub keeps_second :
      (v : ℕ) (t : Tm)
      → v < 60
      → IsNormal t
      → (cron_mktime c (written second (pos v) t)).0.tm_sec ≡ pos v
  pub settles : (t : Tm) → cron_mktime c (cron_mktime c t).0 ≡ cron_mktime c t

-- Within the ranges, and no earlier down to a field.
abbrev pub Later : Field → Tm → Tm → Type 0
Later f t t' = IsNormal t' × (rank_at f t ≤ rank_at f t')

-- Every field of the list stands below the field with the code.
abbrev pub PlaceBelow : ℕ → Option Field → Type 0
PlaceBelow k none = Unit
PlaceBelow k (some g) = code_of g < k

abbrev pub Below : ℕ → List (Option Field) → Type 0
Below k = All (PlaceBelow k)

fill_first-Below :
    (k : ℕ) (l : List (Option Field)) (g : Field)
    → code_of g < k
    → Below k l
    → Below k (fill_first l g)
unfolding fill_first
fill_first-Below k [] g h all = tt
fill_first-Below k (none ∷ l) g h (p, all) = (h, all)
fill_first-Below k (some f ∷ l) g h (p, all) = (p, fill_first-Below k l g h all)

pub push_to_fields_arr-Below :
    (k : ℕ) (l : List (Option Field)) (g : Field)
    → code_of g < k
    → Below k l
    → Below k (push_to_fields_arr l g)
unfolding push_to_fields_arr
push_to_fields_arr-Below k l g h all = elim (Bool-cases (has_field l g)) [
  | inl e ↦ rw e all
  | inr e ↦ rw e (fill_first-Below k l g h all)
]

pub Below-weaken : (k k' : ℕ) (l : List (Option Field)) → k ≤ k' → Below k l → Below k' l
Below-weaken k k' [] h all = tt
Below-weaken k k' (none ∷ l) h (p, all) = (tt, Below-weaken k k' l h all)
Below-weaken k k' (some g ∷ l) h (p, all) = (omega arith, Below-weaken k k' l h all)

pub empty_list-Below : (k : ℕ) → Below k empty_list
empty_list-Below k = (tt, (tt, (tt, (tt, (tt, (tt, (tt, tt)))))))

least-Fits : (g : Field) → g ≢ year → (v : ℕ) × (least g ≡ pos v) × Fits g v
least-Fits second h = (0, refl, omega arith)
least-Fits minute h = (0, refl, omega arith)
least-Fits hour_of_day h = (0, refl, omega arith)
least-Fits day_of_week h = (0, refl, omega arith)
least-Fits day_of_month h = (1, refl, omega arith)
least-Fits month h = (0, refl, omega arith)
least-Fits year h = absurd (h refl)

module _ (c : Clock) where
  pub settled :
      (change : Tm → Tm) (t : Tm) (b : Bool)
      → is_invalid (cron_mktime c (change t)).1 ≡ b
      → settle c change t ≡ some ((cron_mktime c (change t)).0, if b then none else some tt)
  unfolding settle
  settled change t true e = rw e refl
  settled change t false e = rw e refl

  -- An error, or the calendar that `mktime` made.
  pub settle-Post :
      {Q : Tm → Type 0} (change : Tm → Tm) (t : Tm)
      → (is_invalid (cron_mktime c (change t)).1 ≡ false → Q (cron_mktime c (change t)).0)
      → Post (λ t' _. Q t') (settle c change t)
  settle-Post change t k = elim (Bool-cases (is_invalid (cron_mktime c (change t)).1)) [
    | inl e ↦ rw (settled change t true e) fails
    | inr e ↦ rw (settled change t false e) (ends (k e))
  ]

  settle-Lands :
      {Q : Tm → Type 0} (change : Tm → Tm) (t : Tm)
      → Q (cron_mktime c (change t)).0
      → Lands Q (settle c change t)
  settle-Lands change t q =
      rw (settled change t (is_invalid (cron_mktime c (change t)).1) refl) (lands q)

Later-refl : (f : Field) (t : Tm) → IsNormal t → Later f t t
Later-refl f t n = (n, omega arith)

pub Later-trans : (f : Field) (t t1 t2 : Tm) → Later f t t1 → Later f t1 t2 → Later f t t2
Later-trans f t t1 t2 (n1, a) (n2, b) = (n2, omega arith)

code_at_most : (f : Field) → code_of f ≤ 6
code_at_most second = omega arith
code_at_most minute = omega arith
code_at_most hour_of_day = omega arith
code_at_most day_of_week = omega arith
code_at_most day_of_month = omega arith
code_at_most month = omega arith
code_at_most year = omega arith

not_year : (f g : Field) → code_of g < code_of f → g ≢ year
not_year f g below e =
    let past : code_of year < code_of f = subst (λ x. code_of x < code_of f) e below in
    omega (arith, code_at_most f)

module _ (c : Clock) (steady : IsSteady c) where
  -- A field written below another one.
  written-Later :
      (f g : Field) (v : ℕ) (t : Tm)
      → code_of g < code_of f
      → Fits g v
      → IsNormal t
      → Later f t (cron_mktime c (written g (pos v) t)).0
  written-Later f g v t below fits n =
      let n1 : IsNormal (written g (pos v) t) = written-IsNormal g v t fits n in
      let (n2, le) = steady.keeps (written g (pos v) t) n1 in
      (
        n2,
        rw (← rank_at-written f g (pos v) t below) (rank_at-le (written g (pos v) t) _ n1 n2 f le),
      )

  pub reset_min-Lands :
      (f g : Field) (t : Tm)
      → code_of g < code_of f
      → IsNormal t
      → Lands (Later f t) (reset_min c g t)
  unfolding reset_min
  reset_min-Lands f g t below n =
      let (v, e, fits) = least-Fits g (not_year f g below) in
      settle-Lands c (written g (least g)) t (rw e (written-Later f g v t below fits n))

  -- Resets below a field leave the calendar as late, also where one of them fails.
  pub reset_all_min-Lands :
      (f : Field) (l : List (Option Field)) (t t1 : Tm)
      → Below (code_of f) l
      → Later f t t1
      → Lands (Later f t) (reset_all_min c l t1)
  unfolding reset_all_min
  reset_all_min-Lands f [] t t1 all h = lands h
  reset_all_min-Lands f (none ∷ l) t t1 (p, all) h = reset_all_min-Lands f l t t1 all h
  reset_all_min-Lands f (some g ∷ l) t t1 (below, all) h =
      Lands-then (reset_min c g) (reset_all_min c l) t1
        (Lands-map (λ t2. Later-trans f t t1 t2 h) (reset_min-Lands f g t1 below h.0))
        λ t2 h2. reset_all_min-Lands f l t t2 all h2

  pub add_to_field-Post :
      (f : Field) (t : Tm)
      → IsNormal t
      → Post (λ t' _. IsNormal t' × (rank_at f t < rank_at f t')) (add_to_field c f (pos 1) t)
  unfolding add_to_field
  add_to_field-Post f t n = settle-Post c (added f (pos 1)) t (steady.carries f t n)
