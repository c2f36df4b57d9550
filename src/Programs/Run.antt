-- ===== src/Programs/Run.antt =====
-- The `main` that the two programs around ccronexpr.c share. The end of the program is its exit
-- status and the text on its standard output.
use smart_device_svr.Base.{
  ℕ, Bool, true, false, ◌||◌, Option, none, some, List, [], ◌∷◌, ◌++◌, Bytes, codes, ◌==◌,
  if◌then◌else◌, ◌>>=◌, suc,
}
use smart_device_svr.Base.Int.{ℤ, pos, negsuc}
use smart_device_svr.Text.Decimal.{sprintf_d}
use smart_device_svr.Expr.{CronExpr, zeroed}
use smart_device_svr.Expr.Parse.{cron_parse_expr}
use smart_device_svr.Calendar.{Tm, Clock}
use smart_device_svr.Programs.{CronLine, split_line}
use smart_device_svr.Programs.Datetime.{Iso8601, neither, malformed, valid, parse_datetime}

-- What the program finds outside: the answer of each call of `time`, the time functions, and two
-- functions on floating-point numbers and dates of the C library.
pub record World : Type 0 where
  pub time : ℕ → ℤ
  pub clock : Clock
  -- `(time_t) atof(string)`.
  pub atof : Bytes → ℤ
  -- `strftime` with the format `%FT%H:%M:00`.
  pub strftime : Tm → Bytes
  -- The local variable `ts` before it is written.
  pub uninitialised : Tm

pub record Finished : Type 0 where
  pub status : ℕ
  pub output : Bytes

-- `printf` with `%lld`.
unfoldable pub print_lld : ℤ → Bytes
unfolding sprintf_d
print_lld (pos n) = sprintf_d n
print_lld (negsuc n) = b'-' ∷ sprintf_d (suc n)

-- `use_iso8601_datetime_format` and `cur`.
pub record Start : Type 0 where
  pub use_iso8601_datetime_format : Bool
  pub cur : ℤ

abbrev pub suffix : Option Bytes → Bytes
suffix none = b'\n' ∷ []
suffix (some disposition) = b' ' ∷ disposition ++ b'\n' ∷ []

abbrev pub asks_for_help : Bytes → Bool
asks_for_help [] = false
asks_for_help (c ∷ argument) = c == b'-' || c == b'h'

abbrev pub usage : Bytes
usage =
    codes
      "A single cron expression is required: one line from a user crontab delimited by double quotes.  Optionally, a second argument may be supplied specifying the epoch time from which to start."
    ++ b'\n' ∷ codes "For help see the -h option."
    ++ b'\n' ∷ []

-- The parts that the two programs have in common: `calendar_of` is `localtime` or `gmtime`, `search`
-- is `cron_next` or `cron_prev`.
module _ (world : World) (calendar_of : ℤ → Option Tm) where
  -- The present, without its seconds.
  unfoldable pub present : ℤ → Option ℤ
  present daylight_savings = calendar_of (world.time 1) >>= λ ts.
      some (world.clock.mktime (record ts { tm_sec = pos 0; tm_isdst = daylight_savings })).1

  -- The `switch` over the answer of `try_to_parse_string_by_iso8601`.
  unfoldable pub start_at : ℤ → Bytes → Iso8601 → Option Start
  unfolding present
  start_at daylight_savings string neither =
      some (record { use_iso8601_datetime_format = false; cur = world.atof string })
  start_at daylight_savings string malformed = present daylight_savings >>= λ cur.
      some (record { use_iso8601_datetime_format = true; cur = cur })
  start_at daylight_savings string (valid ts) =
      some (record { use_iso8601_datetime_format = true; cur = (world.clock.mktime ts).1 })

  unfoldable pub start_of : ℤ → Option Bytes → Option Start
  unfolding start_at
  start_of daylight_savings none = present daylight_savings >>= λ cur.
      some (record { use_iso8601_datetime_format = false; cur = cur })
  start_of daylight_savings (some string) =
      parse_datetime (calendar_of (world.time 1)) string world.uninitialised
      >>= start_at daylight_savings string

  -- From the parse of the expression on; the error message is not read.
  unfoldable pub answer : (Option CronExpr → ℤ → Option ℤ) → CronLine → Start → Option Finished
  unfolding cron_parse_expr print_lld
  answer search line start = do
    parsed ← cron_parse_expr (some line.schedule) (some zeroed)
    prev ← search parsed.target start.cur
    ts ← calendar_of prev
    some (record {
      status = 0;
      output =
          (if start.use_iso8601_datetime_format then world.strftime ts else print_lld prev)
          ++ suffix line.disposition;
    })

  -- One or two arguments.
  unfoldable pub with_line :
      (Option CronExpr → ℤ → Option ℤ) → ℤ → Bytes → Option Bytes → Option Finished
  unfolding split_line start_of answer
  with_line search daylight_savings argument starting = split_line argument >>= elim [
    | none ↦ some (record { status = 1; output = [] })
    | some line ↦ start_of daylight_savings starting >>= answer search line
  ]

  -- `argv` without the name of the program.
  unfoldable pub dispatch :
      (Option CronExpr → ℤ → Option ℤ) → Bytes → ℤ → List Bytes → Option Finished
  unfolding with_line
  dispatch search help daylight_savings (argument ∷ []) =
      if asks_for_help argument
      then some (record { status = 0; output = help })
      else with_line search daylight_savings argument none
  dispatch search help daylight_savings (argument ∷ starting ∷ []) =
      with_line search daylight_savings argument (some starting)
  dispatch search help daylight_savings _ = some (record { status = 1; output = usage })

  unfoldable pub run : (Option CronExpr → ℤ → Option ℤ) → Bytes → List Bytes → Option Finished
  unfolding dispatch
  run search help argv =
      calendar_of (world.time 0) >>= λ current. dispatch search help current.tm_isdst argv

-- Lines of `printf`, each with its line feed.
unfoldable pub print_lines : List Bytes → Bytes
print_lines [] = []
print_lines (line ∷ lines) = line ++ b'\n' ∷ print_lines lines
