-- ===== src/Dates/Steps.antt =====
-- What the two searches of ccronexpr.c share.
use smart_device_svr.Base.{
  ℕ, ◌-◌, ◌+◌, ◌^◌, ◌%◌, Bool, true, false, not, Option, none, some, List, Bytes, ◌==◌, ==_refl,
  ◌≡◌, refl, if◌then◌else◌,
}
use smart_device_svr.Base.Int.{ℤ, pos, negsuc}
use smart_device_svr.Bitset.{cron_get_bit}
use smart_device_svr.Calendar.{Tm, Clock, Field, M, pure, is_invalid, cron_mktime}
use smart_device_svr.Calendar.Fields.{push_to_fields_arr}

-- `!cron_get_bit(days_of_month, …) || !cron_get_bit(days_of_week, …)`, from the left.
unfoldable pub day_mismatch : Bytes → ℕ → Bytes → ℕ → Option Bool
unfolding cron_get_bit
day_mismatch days_of_month mday days_of_week wday = elim (cron_get_bit days_of_month mday) [
  | none ↦ none
  | some false ↦ some true
  | some true ↦ elim (cron_get_bit days_of_week wday) [ none ↦ none | some b ↦ some (not b) ]
]

-- A field is pushed where its value did not change.
abbrev pub push_if : Bool → Field → List (Option Field) → List (Option Field)
push_if unchanged field resets = if unchanged then push_to_fields_arr resets field else resets

-- Another round of the whole search where a value changed.
abbrev pub unless : Bool → M (Unit {0}) → M (Unit {0})
unless unchanged again = if unchanged then pure tt else again

pub unless_same :
    (n : ℕ) (again : M (Unit {0})) (t : Tm) → unless (n == n) again t ≡ some (t, some tt)
unless_same n again t = rw (==_refl n) refl

-- `-` of two numbers of type `unsigned int`.
abbrev pub minus_unsigned : ℕ → ℕ → ℕ
minus_unsigned a b = (a + 2 ^ 32 - b) % 2 ^ 32

-- `res = -1` is an error as any other.
abbrev pub fail_if : Bool → M (Unit {0})
fail_if true t = some (t, none)
fail_if false t = some (t, some tt)

abbrev pub equal_ℤ : ℤ → ℤ → Bool
equal_ℤ (pos a) (pos b) = a == b
equal_ℤ (negsuc a) (negsuc b) = a == b
equal_ℤ _ _ = false

-- An error of any routine becomes CRON_INVALID_INSTANT.
abbrev pub answer_of : Option (Tm × Option ℤ) → Option ℤ
answer_of none = none
answer_of (some (t, none)) = some (negsuc 0)
answer_of (some (t, some time)) = some time

module _ (c : Clock) where
  -- `cron_mktime(calendar)`, where -1 is an error.
  unfoldable pub time_of : M ℤ
  unfolding cron_mktime
  time_of t =
      let (t', time) = cron_mktime c t in
      if is_invalid time then some (t', none) else some (t', some time)
