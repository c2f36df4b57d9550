-- ===== src/Calendar/Keeps.antt =====
-- What the calendar routines of ccronexpr.c keep, whether they report an error or not.
use smart_device_svr.Base.{Bool, true, false, Option, none, some, if◌then◌else◌}
use smart_device_svr.Calendar.{Tm, M, lift, attempt, ◌>>=◌}
use smart_device_svr.Calendar.Outcome.{Post, fails, ends}

-- Where the routine ends at all, `Q` holds of the calendar.
abbrev pub Kept : {A : Type 0} → (Tm → Type 0) → Option (Tm × Option A) → Type 0
Kept Q none = Unit
Kept Q (some (t, o)) = Q t

-- The routine takes a calendar for which `Q` holds to another one.
abbrev pub Keeps : {A : Type 0} → (Tm → Type 0) → M A → Type 0
Keeps Q m = (t : Tm) → Q t → Kept Q (m t)

module _ {A B : Type 0} (Q : Tm → Type 0) where
  bind_at :
      (f : A → M B) (r : Option (Tm × Option A))
      → Kept Q r
      → ((a : A) → Keeps Q (f a))
      → Kept Q
          (elim r [ none ↦ none | some (t, o) ↦ elim o [ none ↦ some (t, none) | some a ↦ f a t ] ])
  bind_at f none h k = tt
  bind_at f (some (t, none)) h k = h
  bind_at f (some (t, some a)) h k = k a t h

  pub Keeps-bind :
      (m : M A) (f : A → M B) → Keeps Q m → ((a : A) → Keeps Q (f a)) → Keeps Q (m >>= f)
  Keeps-bind m f h k t q = bind_at f (m t) (h t q) k

module _ {A : Type 0} (Q : Tm → Type 0) where
  lift_at : (t : Tm) (r : Option A) → Q t → Kept Q (lift r t)
  lift_at t none q = tt
  lift_at t (some a) q = q

  pub Keeps-lift : (r : Option A) → Keeps Q (lift r)
  Keeps-lift r t q = lift_at t r q

  pub Keeps-if : (b : Bool) (m n : M A) → Keeps Q m → Keeps Q n → Keeps Q (if b then m else n)
  Keeps-if true m n h k = h
  Keeps-if false m n h k = k

  pub Post-Kept :
      {P : Tm → A → Type 0} {r : Option (Tm × Option A)}
      → Post P r
      → Kept Q r
      → Post (λ t a. P t a × Q t) r
  Post-Kept fails q = fails
  Post-Kept (ends p) q = ends (p, q)

module _ (Q : Tm → Type 0) where
  attempt_at :
      (r : Option (Tm × Option (Unit {0})))
      → Kept Q r
      → Kept {A = Unit {0}} Q (elim r [ none ↦ none | some (t, o) ↦ some (t, some tt) ])
  attempt_at none q = tt
  attempt_at (some (t, o)) q = q

  pub Keeps-attempt : (m : M (Unit {0})) → Keeps Q m → Keeps Q (attempt m)
  Keeps-attempt m h t q = attempt_at (m t) (h t q)
