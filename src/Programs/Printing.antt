-- ===== src/Programs/Printing.antt =====
-- The two routines of ccronexpr_misc_utils.c. `print_time` has no `return`, and its callers read no
-- answer: it is the text that it prints.
use smart_device_svr.Base.{
  ℕ, zero, suc, ◌+◌, ◌*◌, ◌/◌, ◌%◌, ◌^◌, ◌≤◌, ◌<◌, true, ◌≡◌, refl, Option, none, some, [], ◌∷◌,
  ◌++◌, Bytes, arith, leb, if◌then◌else◌, length, length-append,
}
use smart_device_svr.Base.Int.{ℤ, pos, negsuc, pos_part, neg_part}
use smart_device_svr.Text.Decimal.{print_digits, sprintf_d}
use smart_device_svr.Programs.Run.{print_lld}

unfoldable pub print_time : ℤ → Bytes
unfolding print_lld
print_time ticks = print_lld ticks ++ b'\n' ∷ []

-- The buffer has `size` bytes, the last byte written is a 0, and a byte past the buffer is a fault.
unfoldable pub double_long_to_string : ℕ → ℤ → Option Bytes
unfolding print_lld
double_long_to_string size ticks =
    let text = print_lld ticks ++ b'\n' ∷ [] in
    if leb (length text + 1) size then some text else none

abbrev ten_to : ℕ → ℕ
ten_to zero = 1
ten_to (suc k) = 10 * ten_to k

length-print_digits-le :
    (k fuel n : ℕ) (out : Bytes)
    → n < ten_to (suc k)
    → length (print_digits fuel n out) ≤ length out + suc k
unfolding print_digits
length-print_digits-le k zero n out h = omega arith
length-print_digits-le zero (suc fuel) n out h = ground arith
length-print_digits-le (suc k) (suc fuel) n out h =
    ground (arith, length-print_digits-le k fuel (n / 10) ((b'0' + n % 10) ∷ out))

-- The numbers of type `long long`.
abbrev pub IsLongLong : ℤ → Type 0
IsLongLong n = (pos_part n < 2 ^ 63) × (neg_part n ≤ 2 ^ 63)

length-print_lld-le : (n : ℤ) → IsLongLong n → length (print_lld n) ≤ 20
unfolding print_lld sprintf_d
length-print_lld-le (pos n) h = omega (arith, length-print_digits-le 18 (n + 1) n [])
length-print_lld-le (negsuc n) h = omega (arith, length-print_digits-le 18 (suc n + 1) (suc n) [])

-- For every `long long` and a buffer of 22 bytes or more, `double_long_to_string` writes past no
-- buffer, and the text is what `print_time` prints: the digits, a sign in front of them where the
-- number is negative, and a line feed.
pub double_long_to_string-print_time :
    (size : ℕ) (ticks : ℤ)
    → 22 ≤ size
    → IsLongLong ticks
    → double_long_to_string size ticks ≡ some (print_time ticks)
unfolding double_long_to_string print_time
double_long_to_string-print_time size ticks room h =
    let fits : leb (length (print_lld ticks ++ b'\n' ∷ []) + 1) size ≡ true =
      ground (arith, length-append (print_lld ticks) (b'\n' ∷ []), length-print_lld-le ticks h) in
    rw fits refl
