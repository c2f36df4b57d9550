-- ===== src/Dates/Next/LeastSteps.antt =====
-- The steps that a round of `do_next` (ccronexpr.c) is made of, on a clock without gaps.
use smart_device_svr.Base.{
  ℕ, ◌≤◌, ◌<◌, ◌≡◌, ◌≢◌, refl, ◌⊎◌, inl, inr, Bool-cases, true, false, Option, List, Bytes, arith,
  ◌==◌,
}
use smart_device_svr.Bitset.{member}
use smart_device_svr.Calendar.{Tm, Clock, Field, M, to_unsigned, is_invalid, cron_mktime}
use smart_device_svr.Calendar.Fields.{code_of}
use smart_device_svr.Dates.Exact.{IsReal, IsExact, Moved, Moved-trans, IsLone}
use smart_device_svr.Dates.Exact.Sure.{Sure, sure, Sure-map}
use smart_device_svr.Dates.Match.{Matches}
use smart_device_svr.Dates.Rank.{rank, value_of}
use smart_device_svr.Dates.Steady.{IsSteady, Below}
use smart_device_svr.Dates.Steps.{unless}
use smart_device_svr.Dates.Next.{find_next}
use smart_device_svr.Dates.Next.Find.{find_next_here}
use smart_device_svr.Dates.Next.Forward.{IsPlace}
use smart_device_svr.Dates.Next.Digits.{IsDigit, Resets, LowSecond}
use smart_device_svr.Dates.Next.Nearest.{Near, find_next-Near}
use smart_device_svr.Dates.Next.NearestDay.{Stuck, Stuck-from, Refused-Stuck}
use smart_device_svr.Expr.{CronExpr}

-- A date that was reached over none of the expression; it is one itself, or the resets are known.
abbrev pub At : Clock → CronExpr → Tm → (Tm → Type 0) → Type 0 → Tm → Type 0
At c e t0 P R t = Moved c e t0 t × P t × (Matches e t ⊎ R)

module _ (c : Clock) (e : CronExpr) (t0 : Tm) where
  pub unless-Sure :
      {Q : Tm → Type 0} (value v : ℕ) (next : M (Unit {0})) (t : Tm)
      → (v ≡ value → Q t)
      → (v ≢ value → Sure (Stuck c e t0) (λ t' _. Q t') (next t))
      → Sure (Stuck c e t0) (λ t' _. Q t') (unless (value == v) next t)
  unless-Sure value v next t same other = elim (Bool-cases (value == v)) [
    | inl q ↦ rw q (sure (same (ground arith)))
    | inr q ↦ rw q (other (ground arith))
  ]

  -- A round after this one, where the search from every later date is known.
  module _ (again : M (Unit {0}))
      (forward : (t1 : Tm)
        → IsReal c t1
        → rank t0 < rank t1
        → Sure (Stuck c e t1) (λ t' _. Matches e t' × Moved c e t1 t') (again t1)) where
    pub again-At :
        {P : Tm → Type 0} {R : Type 0}
        → ((t : Tm) → Matches e t → P t)
        → (t t1 : Tm) → Moved c e t0 t
        → Moved c e t t1
        → rank t < rank t1
        → Sure (Stuck c e t0) (λ t' _. At c e t0 P R t') (again t1)
    again-At of t t1 moved moved1 up =
        Sure-map (forward t1 moved1.0 (omega arith))
          (λ why. Stuck-from c e t0 t1 (Moved-trans c e t0 t t1 moved moved1) why)
          λ t' done (m, moved2).
            (Moved-trans c e t0 t1 t' (Moved-trans c e t0 t t1 moved moved1) moved2, of t' m, inl m)

    -- The choice of another round after it.
    pub Near-unless :
        (P P' : Tm → Type 0) (R : Type 0) (f : Field) (bits : Bytes) (value v : ℕ) (t t' : Tm)
        → (P t → member bits value ≡ true → P' t)
        → ((t : Tm) → Matches e t → P' t)
        → At c e t0 P R t
        → Near c e f bits value t t' v
        → Sure
            (Stuck c e t0)
            (λ t1 _. At c e t0 P' ((v ≡ value) × R) t1)
            (unless (value == v) again t')
    Near-unless P P' R f bits value v t t' step of (moved, p, or) (inl (same, found, on)) =
        unless-Sure {Q = At c e t0 P' ((v ≡ value) × R)} value v again t'
          (λ q. rw same (moved, step p on, elim or [ inl m ↦ inl m | inr r ↦ inr (found, r) ]))
          λ other. absurd (other found)
    Near-unless P P' R f bits value v t t' step of (moved, p, or) (inr (other, up, moved', _)) =
        unless-Sure {Q = At c e t0 P' ((v ≡ value) × R)} value v again t' (λ q. absurd (other q))
          λ q. again-At of t t' moved moved' up

module _ (c : Clock) (steady : IsSteady c) (exact : IsExact c) (s : ℕ) (e : CronExpr)
    (lone : IsLone s e) (t0 : Tm)
    (valid : (u : Tm)
      → IsReal c u
      → rank t0 ≤ rank u
      → is_invalid (cron_mktime c u).1 ≡ false) where
  -- The search of a minute or an hour.
  pub field-Near :
      {f next : Field} {n max : ℕ} {bits : Bytes} (place : IsPlace f next n max bits)
      (digit : IsDigit f next)
      (inside : (u : Tm) → Matches e u → member bits (to_unsigned (value_of f u)) ≡ true)
      (l : List (Option Field)) (t : Tm)
      → Below (code_of f) l
      → Moved c e t0 t
      → LowSecond s f t
      → Matches e t ⊎ Resets f l
      → Sure
          (Stuck c e t0)
          (Near c e f bits (to_unsigned (value_of f t)) t)
          (find_next c bits max (to_unsigned (value_of f t)) f next l t)
  field-Near {f} {next} {bits = bits} place digit inside l t below moved low (inl m) =
      rw
        (find_next_here c bits place.array place.small place.room f next l t
          (to_unsigned (value_of f t)) (place.reads t moved.0.0).1 (inside t m))
        (sure (inl (refl, refl, inside t m)))
  field-Near place digit inside l t below moved low (inr resets) =
      Sure-map
        (find_next-Near c steady exact s e lone place digit inside l below resets t moved.0 low
          (λ u ru h. valid u ru (omega (arith, moved.1))))
        (λ why. Stuck-from c e t0 t moved (Refused-Stuck c e t moved.0 why)) λ t' v near. near
