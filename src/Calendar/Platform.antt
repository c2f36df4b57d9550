-- ===== src/Calendar/Platform.antt =====
-- The time functions of ccronexpr.c on each platform: `cron_mktime_gm`, `cron_time_gm`,
-- `cron_mktime_local`, `cron_time_local`, and `cron_mktime` and `cron_time` by the macro
-- CRON_USE_LOCAL_TIME. The branches of the preprocessor are those of a data type. What they call is a
-- parameter; the environment variable TZ is a state, on which `mktime` depends. `tzset` makes `mktime`
-- see the variable at once, and a time is a number of as many bits as `time_t` has.
use smart_device_svr.Base.{
  ℕ, ◌-◌, ◌^◌, ◌≡◌, refl, Bool, true, false, ◌||◌, Option, none, some, Bytes, codes, ltb, ◌==◌,
  if◌then◌else◌,
}
use smart_device_svr.Base.Int.{ℤ, negsuc, pos_part, neg_part}
use smart_device_svr.Calendar.{Tm}

-- The macros __MINGW32__, _WIN32, __AVR__, ESP8266 and ANDROID; none of them on a POSIX system.
pub data Platform : Type 0 where
  mingw windows avr esp8266 android posix : Platform

-- The functions of the libraries. `gmtime_s` and `localtime_s` give an error number with the calendar.
pub record Library : Type 0 where
  pub mktime : Option Bytes → Tm → Tm × ℤ
  pub mkgmtime_windows : Tm → Tm × ℤ
  pub mk_gmtime : Tm → Tm × ℤ
  pub timegm64 : Tm → Tm × ℤ
  pub timegm : Tm → Tm × ℤ
  pub gmtime : ℤ → Option Tm
  pub gmtime_s : ℤ → Tm × ℕ
  pub gmtime_r : ℤ → Option Tm
  -- That of avr-libc has no answer, and always writes the calendar.
  pub gmtime_r_avr : ℤ → Tm
  pub localtime_s : ℤ → Tm × ℕ
  pub localtime_r : ℤ → Option Tm
  pub localtime_r_avr : ℤ → Tm
  -- The bits of `time_t`.
  pub width : ℕ

-- The calendar as it is left, the time, and the variable TZ afterwards.
pub record Timed : Type 0 where
  pub calendar : Tm
  pub time : ℤ
  pub tz : Option Bytes

abbrev pub timed : Option Bytes → Tm × ℤ → Timed
timed tz (calendar, time) = record { calendar = calendar; time = time; tz = tz }

abbrev pub utc_zone : Bytes
utc_zone = codes "UTC+0"

-- `setenv` with what was saved, or `unsetenv`.
abbrev pub restore : Option Bytes → Timed → Timed
restore (some tz) r = record r { tz = some tz }
restore none r = record r { tz = none }

-- `result < kTimeMin || result > kTimeMax`.
abbrev pub exceeds : ℕ → ℤ → Bool
exceeds width time =
    ltb (2 ^ (width - 1)) (neg_part time) || ltb (2 ^ (width - 1) - 1) (pos_part time)

abbrev pub check_time : ℕ → Tm × ℤ → Tm × ℤ
check_time width (calendar, time) =
    if exceeds width time then (calendar, negsuc 0) else (calendar, time)

-- `err == 0 ? out : NULL`.
abbrev pub unless_error : Tm × ℕ → Option Tm
unless_error (out, err) = if 0 == err then some out else none

module _ (lib : Library) where
  unfoldable pub cron_mktime_gm : Platform → Tm → Option Bytes → Timed
  cron_mktime_gm mingw tm tz = timed tz (lib.mkgmtime_windows tm)
  cron_mktime_gm windows tm tz = timed tz (lib.mkgmtime_windows tm)
  cron_mktime_gm avr tm tz = timed tz (lib.mk_gmtime tm)
  cron_mktime_gm esp8266 tm tz = restore tz (timed (some utc_zone) (lib.mktime (some utc_zone) tm))
  cron_mktime_gm android tm tz = timed tz (check_time lib.width (lib.timegm64 tm))
  cron_mktime_gm posix tm tz = timed tz (lib.timegm tm)

  unfoldable pub cron_time_gm : Platform → ℤ → Option Tm
  cron_time_gm mingw date = lib.gmtime date
  cron_time_gm windows date = unless_error (lib.gmtime_s date)
  cron_time_gm avr date = some (lib.gmtime_r_avr date)
  cron_time_gm _ date = lib.gmtime_r date

  -- The global variable TZ is only read.
  unfoldable pub cron_mktime_local : Tm → Option Bytes → Timed
  cron_mktime_local tm tz = timed tz (lib.mktime tz (record tm { tm_isdst = negsuc 0 }))

  unfoldable pub cron_time_local : Platform → ℤ → Option Tm
  cron_time_local mingw date = unless_error (lib.localtime_s date)
  cron_time_local windows date = unless_error (lib.localtime_s date)
  cron_time_local avr date = some (lib.localtime_r_avr date)
  cron_time_local _ date = lib.localtime_r date

  -- The flag is the macro CRON_USE_LOCAL_TIME.
  unfoldable pub cron_mktime_by : Bool → Platform → Tm → Option Bytes → Timed
  unfolding cron_mktime_gm cron_mktime_local
  cron_mktime_by false platform = cron_mktime_gm platform
  cron_mktime_by true platform = cron_mktime_local

  unfoldable pub cron_time_by : Bool → Platform → ℤ → Option Tm
  unfolding cron_time_gm cron_time_local
  cron_time_by false = cron_time_gm
  cron_time_by true = cron_time_local

  -- On every platform and with both settings of the macro, `cron_mktime` leaves the variable TZ as it
  -- was, also where it is changed for the call of `mktime`.
  pub cron_mktime_by-tz :
      (local : Bool) (platform : Platform) (tm : Tm) (tz : Option Bytes)
      → (cron_mktime_by local platform tm tz).tz ≡ tz
  unfolding cron_mktime_by
  cron_mktime_by-tz true platform tm tz = refl
  cron_mktime_by-tz false mingw tm tz = refl
  cron_mktime_by-tz false windows tm tz = refl
  cron_mktime_by-tz false avr tm tz = refl
  cron_mktime_by-tz false esp8266 tm none = refl
  cron_mktime_by-tz false esp8266 tm (some tz) = refl
  cron_mktime_by-tz false android tm tz = refl
  cron_mktime_by-tz false posix tm tz = refl
