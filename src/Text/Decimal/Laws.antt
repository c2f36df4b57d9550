-- ===== src/Text/Decimal/Laws.antt =====
-- The digits that `to_string` of ccronexpr.c writes, and that they fit its buffer.
use smart_device_svr.Base.{
  ℕ, zero, suc, ◌+◌, ◌/◌, ◌%◌, ◌≤◌, ◌<◌, ◌≡◌, ◌∙◌, none, some, [], ◌∷◌, Bytes, ltb, if◌then◌else◌,
  length, arith,
}
use smart_device_svr.Text.Decimal.{
  cron_num_of_digits, print_digits, sprintf_d, to_string, cron_max_num_to_string,
}

cron_num_of_digits_step :
    (n : ℕ)
    → 10 ≤ n
    → n < cron_max_num_to_string
    → cron_num_of_digits n ≡ cron_num_of_digits (n / 10) + 1
unfolding cron_num_of_digits
cron_num_of_digits_step n lo hi = ground arith

cron_num_of_digits_one : (n : ℕ) → n < 10 → cron_num_of_digits n ≡ 1
unfolding cron_num_of_digits
cron_num_of_digits_one n h = ground arith

length-print_digits :
    (fuel n : ℕ) (out : Bytes)
    → n < fuel
    → n < cron_max_num_to_string
    → length (print_digits fuel n out) ≡ length out + cron_num_of_digits n
unfolding print_digits
length-print_digits zero n out h b = absurd (omega arith)
length-print_digits (suc fuel) n out h b = ground (
  arith,
  cron_num_of_digits_one n,
  cron_num_of_digits_step n,
  length-print_digits fuel (n / 10) ((b'0' + n % 10) ∷ out),
)

-- The number of digits is that of the macro.
pub length-sprintf_d :
    (n : ℕ) → n < cron_max_num_to_string → length (sprintf_d n) ≡ cron_num_of_digits n
unfolding sprintf_d
length-sprintf_d n h = length-print_digits (n + 1) n [] (omega arith) h ∙ omega arith

-- For every natural number, `to_string` returns with no byte written past its buffer: the
-- decimal digits of a number below a thousand million, and NULL from there on.
pub to_string-sprintf_d :
    (n : ℕ) → to_string n ≡ some (if ltb n cron_max_num_to_string then some (sprintf_d n) else none)
unfolding to_string
to_string-sprintf_d n = ground (arith, length-sprintf_d n)
