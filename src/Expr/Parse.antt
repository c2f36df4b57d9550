-- ===== src/Expr/Parse.antt =====
-- `cron_parse_expr` of ccronexpr.c. A pointer that may be NULL is an `Option`; the caller's `error`
-- pointer is not NULL, or the message is dropped.
pub mod Laws
pub mod Total
use smart_device_svr.Base.{Option, none, some, List, [], ◌∷◌, Bytes, ◌>>=◌}
use smart_device_svr.Text.{split_str}
use smart_device_svr.Expr.{
  Message, CronExpr, cron_max_seconds, cron_max_minutes, cron_max_hours, zeroed, null_expression,
  null_target, invalid_number_of_fields,
}
use smart_device_svr.Expr.Hits.{Hits, set_number_hits}
use smart_device_svr.Expr.Fields.{set_months, set_days_of_week, set_days_of_month}

-- What the call leaves behind: the structure, as far as it was filled, and `*error`.
pub record Parsed : Type 0 where
  pub target : Option CronExpr
  pub error : Option Message

-- One call that sets a member of the structure, and `if (*error) goto return_res`.
abbrev pub then_next : Option Hits → (Bytes → CronExpr) → (CronExpr → Option Parsed) → Option Parsed
then_next hits put next = hits >>= λ h. elim h.error [
  | none ↦ next (put h.target)
  | some m ↦ some (record { target = some (put h.target); error = some m })
]

abbrev pub finish : CronExpr → Option Parsed
finish t = some (record { target = some t; error = none })

-- The six calls, the last one first.
unfoldable pub parse_days_of_week : Bytes → CronExpr → Option Parsed
unfolding set_days_of_week
parse_days_of_week f5 t =
    then_next (set_days_of_week f5 t.days_of_week) (λ b. record t { days_of_week = b }) finish

unfoldable pub parse_months : Bytes → Bytes → CronExpr → Option Parsed
unfolding set_months parse_days_of_week
parse_months f4 f5 t =
    then_next (set_months f4 t.months) (λ b. record t { months = b }) (parse_days_of_week f5)

unfoldable pub parse_days_of_month : Bytes → Bytes → Bytes → CronExpr → Option Parsed
unfolding set_days_of_month parse_months
parse_days_of_month f3 f4 f5 t =
    then_next (set_days_of_month f3 t.days_of_month) (λ b. record t { days_of_month = b })
      (parse_months f4 f5)

unfoldable pub parse_hours : Bytes → Bytes → Bytes → Bytes → CronExpr → Option Parsed
unfolding set_number_hits parse_days_of_month
parse_hours f2 f3 f4 f5 t =
    then_next (set_number_hits f2 t.hours 0 cron_max_hours) (λ b. record t { hours = b })
      (parse_days_of_month f3 f4 f5)

unfoldable pub parse_minutes : Bytes → Bytes → Bytes → Bytes → Bytes → CronExpr → Option Parsed
unfolding set_number_hits parse_hours
parse_minutes f1 f2 f3 f4 f5 t =
    then_next (set_number_hits f1 t.minutes 0 cron_max_minutes) (λ b. record t { minutes = b })
      (parse_hours f2 f3 f4 f5)

unfoldable pub parse_six : Bytes → Bytes → Bytes → Bytes → Bytes → Bytes → CronExpr → Option Parsed
unfolding set_number_hits parse_minutes
parse_six f0 f1 f2 f3 f4 f5 t =
    then_next (set_number_hits f0 t.seconds 0 cron_max_seconds) (λ b. record t { seconds = b })
      (parse_minutes f1 f2 f3 f4 f5)

unfoldable pub parse_fields : Option (List Bytes) → CronExpr → Option Parsed
unfolding parse_six
parse_fields (some (f0 ∷ f1 ∷ f2 ∷ f3 ∷ f4 ∷ f5 ∷ [])) target = parse_six f0 f1 f2 f3 f4 f5 zeroed
parse_fields _ target =
    some (record { target = some target; error = some invalid_number_of_fields })

unfoldable pub cron_parse_expr : Option Bytes → Option CronExpr → Option Parsed
unfolding parse_fields
cron_parse_expr none target = some (record { target = target; error = some null_expression })
cron_parse_expr (some expression) none = some (record { target = none; error = some null_target })
cron_parse_expr (some expression) (some target) =
    split_str expression b' ' >>= λ fields. parse_fields fields target
