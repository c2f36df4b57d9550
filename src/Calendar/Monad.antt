-- ===== src/Calendar/Monad.antt =====
-- A law of the computations that the calendar routines of ccronexpr.c are made of.
use smart_device_svr.Base.{◌≡◌, refl, Option, none, some, arith}
use smart_device_svr.Calendar.{Tm, M, pure, attempt, ◌>>=◌, ◌>>◌}

-- Two steps that give a value, and what is done with it.
pub then-then-pure :
    {A B : Type 0} (m m' : M (Unit {0})) (a : A) (g : A → M B) (t : Tm)
    → ((m >> (m' >> pure a)) >>= g) t ≡ (m >> (m' >> g a)) t
then-then-pure m m' a g t = ground arith

-- A step whose outcome is known, and what is done with it.
pub then-some :
    {A B : Type 0} (m : M A) (f : A → M B) (t t' : Tm) (a : A)
    → m t ≡ some (t', some a)
    → (m >>= f) t ≡ f a t'
then-some m f t t' a h = rw (◌>>=◌, h) refl

-- A step that does not end, and what is done with it.
pub then-none : {A B : Type 0} (m : M A) (f : A → M B) (t : Tm) → m t ≡ none → (m >>= f) t ≡ none
then-none m f t h = rw (◌>>=◌, h) refl

-- A call whose result is ignored.
pub attempt-some :
    (m : M (Unit {0})) (t t' : Tm) (r : Option (Unit {0}))
    → m t ≡ some (t', r)
    → attempt m t ≡ some (t', some tt)
attempt-some m t t' r h = rw (attempt, h) refl
