-- ===== src/Calendar.antt =====
-- The calendar operations of ccronexpr.c, as it is compiled here, with CRON_USE_LOCAL_TIME (Makefile).
-- `mktime` and `localtime_r` depend on the time zone: they are a parameter, the record `Clock`. The
-- routines write to one `struct tm`; a computation takes it and returns it, with its result, or with
-- `none` where the routine reports an error. The outer `none` is a fault, as in the other modules.
pub mod Fields
pub mod Monad
pub mod Outcome
pub mod Keeps
pub mod Platform
use smart_device_svr.Base.{
  ℕ, ◌+◌, ◌-◌, ◌%◌, ◌^◌, Bool, true, false, Option, none, some, List, [], ◌∷◌, if◌then◌else◌, ◌==◌,
}
use smart_device_svr.Base.Int.{ℤ, pos, negsuc, ◌+ℤ◌}

-- The members of `struct tm` that the code names.
pub record Tm : Type 0 where
  pub tm_sec : ℤ
  pub tm_min : ℤ
  pub tm_hour : ℤ
  pub tm_mday : ℤ
  pub tm_mon : ℤ
  pub tm_year : ℤ
  pub tm_wday : ℤ
  pub tm_isdst : ℤ

-- The time functions of the C library: `mktime` writes the normalised calendar back and returns the
-- time, or -1; `localtime_r` and `gmtime` return NULL or a calendar.
pub record Clock : Type 0 where
  pub mktime : Tm → Tm × ℤ
  pub localtime : ℤ → Option Tm
  pub gmtime : ℤ → Option Tm

-- The macros CRON_CF_SECOND to CRON_CF_YEAR. The empty field -1 is an `Option`; no other value
-- occurs.
pub data Field : Type 0 where
  second minute hour_of_day day_of_week day_of_month month year : Field

abbrev pub M : Type 0 → Type 0
M A = Tm → Option (Tm × Option A)

abbrev pub pure : {Result : Type 0} → Result → M Result
pure result calendar = some (calendar, some result)

infixl 5 ◌>>=◌ ◌>>◌
abbrev pub ◌>>=◌ : {First Second : Type 0} → M First → (First → M Second) → M Second
◌>>=◌ first rest calendar = elim (first calendar) [
  | none ↦ none
  | some (calendar', r) ↦ elim r [ none ↦ some (calendar', none) | some a ↦ rest a calendar' ]
]

abbrev pub ◌>>◌ : {Second : Type 0} → M (Unit {0}) → M Second → M Second
first >> rest = first >>= λ done. rest

-- The calendar as it stands.
abbrev pub get : M Tm
get t = some (t, some t)

abbrev pub lift : {A : Type 0} → Option A → M A
lift none t = none
lift (some a) t = some (t, some a)

-- A call whose result is ignored.
abbrev pub attempt : M (Unit {0}) → M (Unit {0})
attempt m t = elim (m t) [ none ↦ none | some (t', r) ↦ some (t', some tt) ]

-- CRON_INVALID_INSTANT.
abbrev pub is_invalid : ℤ → Bool
is_invalid (pos n) = false
is_invalid (negsuc n) = n == 0

-- An `int` as an `unsigned int`.
abbrev pub to_unsigned : ℤ → ℕ
to_unsigned (pos n) = n % 2 ^ 32
to_unsigned (negsuc n) = 2 ^ 32 - 1 - n % 2 ^ 32

abbrev pub added : Field → ℤ → Tm → Tm
added second v t = record t { tm_sec = t.tm_sec +ℤ v }
added minute v t = record t { tm_min = t.tm_min +ℤ v }
added hour_of_day v t = record t { tm_hour = t.tm_hour +ℤ v }
added day_of_week v t = record t { tm_mday = t.tm_mday +ℤ v }
added day_of_month v t = record t { tm_mday = t.tm_mday +ℤ v }
added month v t = record t { tm_mon = t.tm_mon +ℤ v }
added year v t = record t { tm_year = t.tm_year +ℤ v }

abbrev pub written : Field → ℤ → Tm → Tm
written second v t = record t { tm_sec = v }
written minute v t = record t { tm_min = v }
written hour_of_day v t = record t { tm_hour = v }
written day_of_week v t = record t { tm_wday = v }
written day_of_month v t = record t { tm_mday = v }
written month v t = record t { tm_mon = v }
written year v t = record t { tm_year = v }

abbrev pub least : Field → ℤ
least day_of_month = pos 1
least _ = pos 0

-- `memset(&cal, 0, sizeof(cal))` and the two lines that follow in `last_day_of_month`.
abbrev pub day_zero : ℤ → ℤ → Tm
day_zero mon yr = record {
  tm_sec = pos 0;
  tm_min = pos 0;
  tm_hour = pos 0;
  tm_mday = pos 0;
  tm_mon = mon +ℤ pos 1;
  tm_year = yr;
  tm_wday = pos 0;
  tm_isdst = pos 0;
}

-- What `reset_max` writes, with the last day of the month in hand; the year is left alone.
abbrev pub greatest : Field → ℤ → Tm → Tm
greatest second last t = record t { tm_sec = pos 59 }
greatest minute last t = record t { tm_min = pos 59 }
greatest hour_of_day last t = record t { tm_hour = pos 23 }
greatest day_of_week last t = record t { tm_wday = pos 6 }
greatest day_of_month last t = record t { tm_mday = last }
greatest month last t = record t { tm_mon = pos 11 }
greatest year last t = t

abbrev pub is_day_of_month : Field → Bool
is_day_of_month day_of_month = true
is_day_of_month _ = false

module _ (c : Clock) where
  -- `cron_mktime_local`.
  unfoldable pub cron_mktime : Tm → Tm × ℤ
  cron_mktime tm = c.mktime (record tm { tm_isdst = negsuc 0 })

  -- The tail that the routines below share: a change, `cron_mktime`, and the test of its result.
  unfoldable pub settle : (Tm → Tm) → M (Unit {0})
  unfolding cron_mktime
  settle change t =
      let (t', res) = cron_mktime (change t) in
      if is_invalid res then some (t', none) else some (t', some tt)

  unfoldable pub add_to_field : Field → ℤ → M (Unit {0})
  unfolding settle
  add_to_field field val = settle (added field val)

  unfoldable pub reset_min : Field → M (Unit {0})
  unfolding settle
  reset_min field = settle (written field (least field))

  unfoldable pub set_field : Field → ℤ → M (Unit {0})
  unfolding settle
  set_field field val = settle (written field val)

  -- The loop goes over the seven places, and skips the empty ones.
  unfoldable pub reset_all_min : List (Option Field) → M (Unit {0})
  unfolding reset_min
  reset_all_min [] = pure tt
  reset_all_min (none ∷ fields) = reset_all_min fields
  reset_all_min (some field ∷ fields) = reset_min field >> reset_all_min fields

  -- `t` is a local time, and its day is read off the calendar in UTC. A NULL from `gmtime` is a
  -- fault.
  unfoldable pub last_day_of_month : ℤ → ℤ → Option ℤ
  last_day_of_month mon yr = elim (c.gmtime (c.mktime (day_zero mon yr)).1) [
    | none ↦ none
    | some t ↦ some t.tm_mday
  ]

  -- The last day is computed where the field is the day of the month.
  unfoldable pub reset_max : Field → M (Unit {0})
  unfolding settle last_day_of_month
  reset_max field t =
      if is_day_of_month field
      then (lift (last_day_of_month t.tm_mon t.tm_year) >>= λ last. settle (greatest field last)) t
      else settle (greatest field (pos 0)) t

  unfoldable pub reset_all_max : List (Option Field) → M (Unit {0})
  unfolding reset_max
  reset_all_max [] = pure tt
  reset_all_max (none ∷ fields) = reset_all_max fields
  reset_all_max (some field ∷ fields) = reset_max field >> reset_all_max fields
