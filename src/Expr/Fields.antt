-- ===== src/Expr/Fields.antt =====
-- `set_months`, `set_days_of_week` and `set_days_of_month` of ccronexpr.c.
pub mod Rotate
pub mod Laws
pub mod Named
use smart_device_svr.Base.{
  ℕ, zero, suc, ◌+◌, ◌-◌, Bool, Option, none, some, [], ◌∷◌, Bytes, if◌then◌else◌, set, ◌>>=◌,
}
use smart_device_svr.Bitset.{cron_set_bit, cron_del_bit, cron_get_bit}
use smart_device_svr.Text.{to_upper}
use smart_device_svr.Text.Replace.{replace_ordinals, months_arr, days_arr}
use smart_device_svr.Expr.{invalid_month_format, invalid_day_format, cron_max_days_of_month}
use smart_device_svr.Expr.Range.{is_char}
use smart_device_svr.Expr.Hits.{Hits, set_number_hits}

-- Moves bit `from` to `to`, if it is set.
unfoldable pub move_bit : ℕ → ℕ → Bytes → Option Bytes
unfolding cron_set_bit cron_del_bit cron_get_bit
move_bit from to targ = cron_get_bit targ from >>= λ b.
    if b then cron_set_bit targ to >>= (λ t. cron_del_bit t from) else some targ

-- The loop of `set_months` at `i`, with `left` rounds to go.
unfoldable pub rotate : ℕ → ℕ → Bytes → Option Bytes
unfolding move_bit
rotate zero i targ = some targ
rotate (suc left) i targ = move_bit i (i - 1) targ >>= rotate left (i + 1)

abbrev pub then_fix : Option Hits → (Bytes → Option Bytes) → Option Hits
then_fix hits fix = hits >>= λ h. fix h.target >>= λ t. some (record h { target = t })

abbrev pub months_of : Option Bytes → Bytes → Option Hits
months_of none targ = some (record { target = targ; error = some invalid_month_format })
months_of (some replaced) targ = then_fix (set_number_hits replaced targ 1 13) (rotate 12 1)

unfoldable pub set_months : Bytes → Bytes → Option Hits
unfolding to_upper replace_ordinals set_number_hits rotate
set_months value targ = replace_ordinals (to_upper value) months_arr >>= λ r. months_of r targ

-- `field[0] = '*'` where the field is a question mark.
abbrev pub star_of : Bytes → Bytes
star_of field = if is_char field b'?' then set field 0 b'*' else field

abbrev pub days_of : Option Bytes → Bytes → Option Hits
days_of none targ = some (record { target = targ; error = some invalid_day_format })
days_of (some replaced) targ = then_fix (set_number_hits replaced targ 0 8) (move_bit 7 0)

unfoldable pub set_days_of_week : Bytes → Bytes → Option Hits
unfolding to_upper replace_ordinals set_number_hits move_bit
set_days_of_week field targ =
    replace_ordinals (to_upper (star_of field)) days_arr >>= λ r. days_of r targ

unfoldable pub set_days_of_month : Bytes → Bytes → Option Hits
unfolding set_number_hits
set_days_of_month field targ = set_number_hits (star_of field) targ 1 cron_max_days_of_month
