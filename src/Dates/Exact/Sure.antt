-- ===== src/Dates/Exact/Sure.antt =====
-- What a calendar routine of ccronexpr.c leaves behind, where the reason of every error is known.
use smart_device_svr.Base.{◌≡◌, refl, inl, inr, Bool-cases, true, false, Option, none, some}
use smart_device_svr.Calendar.{Tm, M, Clock, ◌>>=◌, is_invalid, cron_mktime, settle}
use smart_device_svr.Dates.Steady.{settled}

-- The routine reports an error for which there is a reason, or ends with a calendar and a result for
-- which `Q` holds.
pub data Sure {A : Type 0} (Reason : Type 0) (Q : Tm → A → Type 0)
    : Option (Tm × Option A) → Type 0 where
  stuck : {t : Tm} → Reason → Sure Reason Q (some (t, none))
  sure : {t : Tm} {a : A} → Q t a → Sure Reason Q (some (t, some a))

module _ {A B : Type 0} {Reason : Type 0} {Q : Tm → A → Type 0} {R : Tm → B → Type 0} where
  bind_at :
      (f : A → M B) (start : Option (Tm × Option A)) (r : Option (Tm × Option A))
      → start ≡ r
      → Sure Reason Q r
      → ((t : Tm) (a : A) → start ≡ some (t, some a) → Q t a → Sure Reason R (f a t))
      → Sure Reason R
          (elim r [ none ↦ none | some (t, o) ↦ elim o [ none ↦ some (t, none) | some a ↦ f a t ] ])
  bind_at f start r e (stuck why) k = stuck why
  bind_at f start r e (sure q) k = k _ _ e q

  -- The rule for a chain; what follows knows what came first.
  pub Sure-bind :
      (m : M A) (f : A → M B) (t : Tm)
      → Sure Reason Q (m t)
      → ((t' : Tm) (a : A) → m t ≡ some (t', some a) → Q t' a → Sure Reason R (f a t'))
      → Sure Reason R ((m >>= f) t)
  Sure-bind m f t p k = bind_at f (m t) (m t) refl p k

module _ {A : Type 0} {Reason Reason' : Type 0} {Q R : Tm → A → Type 0} where
  pub Sure-map :
      {r : Option (Tm × Option A)}
      → Sure Reason Q r
      → (Reason → Reason')
      → ((t : Tm) (a : A) → Q t a → R t a)
      → Sure Reason' R r
  Sure-map (stuck why) w k = stuck (w why)
  Sure-map (sure q) w k = sure (k _ _ q)

-- The step of all calendar operations has an error only where `mktime` reports one.
pub settle-Sure :
    {Q : Tm → Type 0} (c : Clock) (change : Tm → Tm) (t : Tm)
    → (is_invalid (cron_mktime c (change t)).1 ≡ false → Q (cron_mktime c (change t)).0)
    → Sure (is_invalid (cron_mktime c (change t)).1 ≡ true) (λ t' _. Q t') (settle c change t)
settle-Sure c change t k = elim (Bool-cases (is_invalid (cron_mktime c (change t)).1)) [
  | inl e ↦ rw (settled c change t true e) (stuck e)
  | inr e ↦ rw (settled c change t false e) (sure (k e))
]
