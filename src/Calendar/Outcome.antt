-- ===== src/Calendar/Outcome.antt =====
-- What a calendar routine of ccronexpr.c leaves behind, where it does not fault.
use smart_device_svr.Base.{◌≡◌, refl, Option, none, some}
use smart_device_svr.Calendar.{Tm, M, ◌>>=◌, ◌>>◌, attempt}

-- The routine reports an error, or ends with a calendar and a result for which `Q` holds.
pub data Post {A : Type 0} (Q : Tm → A → Type 0) : Option (Tm × Option A) → Type 0 where
  fails : {t : Tm} → Post Q (some (t, none))
  ends : {t : Tm} {a : A} → Q t a → Post Q (some (t, some a))

module _ {A B : Type 0} {Q : Tm → A → Type 0} {R : Tm → B → Type 0} where
  bind_at :
      (f : A → M B) (start : Option (Tm × Option A)) (r : Option (Tm × Option A))
      → start ≡ r
      → Post Q r
      → ((t : Tm) (a : A) → start ≡ some (t, some a) → Q t a → Post R (f a t))
      → Post R
          (elim r [ none ↦ none | some (t, o) ↦ elim o [ none ↦ some (t, none) | some a ↦ f a t ] ])
  bind_at f start r e fails k = fails
  bind_at f start r e (ends q) k = k _ _ e q

  -- The rule for a chain; what follows knows what came first.
  pub Post-bind :
      (m : M A) (f : A → M B) (t : Tm)
      → Post Q (m t)
      → ((t' : Tm) (a : A) → m t ≡ some (t', some a) → Q t' a → Post R (f a t'))
      → Post R ((m >>= f) t)
  Post-bind m f t p k = bind_at f (m t) (m t) refl p k

module _ {A : Type 0} {Q R : Tm → A → Type 0} where
  pub Post-map :
      {r : Option (Tm × Option A)} → Post Q r → ((t : Tm) (a : A) → Q t a → R t a) → Post R r
  Post-map fails k = fails
  Post-map (ends q) k = ends (k _ _ q)

-- The routine ends, with an error or without one, with a calendar for which `Q` holds.
pub data Lands {A : Type 0} (Q : Tm → Type 0) : Option (Tm × Option A) → Type 0 where
  lands : {t : Tm} {o : Option A} → Q t → Lands Q (some (t, o))

pub Lands-Post :
    {A : Type 0} {Q : Tm → Type 0} {r : Option (Tm × Option A)} → Lands Q r → Post (λ t _. Q t) r
Lands-Post (lands {o = none} q) = fails
Lands-Post (lands {o = some a} q) = ends q

module _ {Q : Tm → Type 0} where
  then_at :
      (rest : M (Unit {0})) (r : Option (Tm × Option (Unit {0})))
      → Lands Q r
      → ((t : Tm) → Q t → Lands Q (rest t))
      → Lands Q (elim r [
        | none ↦ none
        | some (t, o) ↦ elim o [ none ↦ some (t, none) | some a ↦ rest t ]
      ])
  then_at rest r (lands {o = none} q) k = lands q
  then_at rest r (lands {o = some a} q) k = k _ q

  pub Lands-then :
      (m rest : M (Unit {0})) (t : Tm)
      → Lands Q (m t)
      → ((t' : Tm) → Q t' → Lands Q (rest t'))
      → Lands Q ((m >> rest) t)
  Lands-then m rest t p k = then_at rest (m t) p k

  attempt_at :
      (r : Option (Tm × Option (Unit {0})))
      → Lands Q r
      → Post {A = Unit {0}} (λ t _. Q t) (elim r [ none ↦ none | some (t, o) ↦ some (t, some tt) ])
  attempt_at r (lands q) = ends q

  pub attempt-Post : (m : M (Unit {0})) (t : Tm) → Lands Q (m t) → Post (λ t' _. Q t') (attempt m t)
  attempt-Post m t p = attempt_at (m t) p

pub Lands-map :
    {A : Type 0} {Q R : Tm → Type 0} {r : Option (Tm × Option A)}
    → ((t : Tm) → Q t → R t)
    → Lands Q r
    → Lands R r
Lands-map k (lands q) = lands (k _ q)
