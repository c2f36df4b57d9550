-- ===== src/Text/Decimal.antt =====
-- `to_string` of ccronexpr.c. It is called on indexes alone, so its argument is a natural number, and
-- `abs(num)` is `num`. `sprintf(str, "%d", num)` writes the decimal digits of `num` and a byte 0.
pub mod Laws
use smart_device_svr.Base.{
  ℕ, zero, suc, ◌+◌, ◌/◌, ◌%◌, Option, none, some, [], ◌∷◌, Bytes, ltb, leb, if◌then◌else◌, length,
}

abbrev pub cron_max_num_to_string : ℕ
cron_max_num_to_string = 1_000_000_000

-- The macro `CRON_NUM_OF_DIGITS`.
unfoldable pub cron_num_of_digits : ℕ → ℕ
cron_num_of_digits num =
    if ltb num 10
    then 1
    else if ltb num 100
    then 2
    else if ltb num 1000
    then 3
    else if ltb num 10_000
    then 4
    else if ltb num 100_000
    then 5
    else if ltb num 1_000_000
    then 6
    else if ltb num 10_000_000
    then 7
    else if ltb num 100_000_000
    then 8
    else if ltb num 1_000_000_000
    then 9
    else 10

-- The digits of `n` in front of `out`, with fuel.
unfoldable pub print_digits : ℕ → ℕ → Bytes → Bytes
print_digits zero n out = out
print_digits (suc fuel) n out =
    let more = print_digits fuel (n / 10) ((b'0' + n % 10) ∷ out) in
    if ltb n 10 then (b'0' + n) ∷ out else more

unfoldable pub sprintf_d : ℕ → Bytes
unfolding print_digits
sprintf_d n = print_digits (n + 1) n []

-- `some none` is NULL. The buffer has `CRON_NUM_OF_DIGITS(num) + 1` bytes, and it is a fault to write
-- more.
unfoldable pub to_string : ℕ → Option (Option Bytes)
unfolding sprintf_d cron_num_of_digits
to_string num =
    if leb cron_max_num_to_string num
    then some none
    else if leb (length (sprintf_d num) + 1) (cron_num_of_digits num + 1)
    then some (some (sprintf_d num))
    else none
