-- ===== src/Text/Number/Laws.antt =====
-- What `parse_uint` of ccronexpr.c accepts.
use smart_device_svr.Base.{
  ℕ, zero, suc, ◌+◌, ◌*◌, ◌/◌, ◌%◌, ◌≤◌, ◌<◌, ◌≡◌, ◌⊎◌, inl, inr, refl, ap, ◌∙◌, false, none, some,
  [], ◌∷◌, Bytes, Bool-cases, ltb, ltb→lt, arith,
}
use smart_device_svr.Text.Decimal.{print_digits, sprintf_d}
use smart_device_svr.Text.Number.{
  digit_in, read_digits, read_after_zero, read_unsigned, skip_space, strtol_of, strtol, int_max,
  parse_uint,
}

-- The answer is always an `int`.
pub parse_uint-le : (s : Bytes) (n : ℕ) → parse_uint s ≡ some n → n ≤ int_max
unfolding parse_uint
parse_uint-le s n h = ground arith

pub digit_in_decimal : (d : ℕ) → d < 10 → digit_in 10 (b'0' + d) ≡ some d
unfolding digit_in
digit_in_decimal d h = ground arith

pub read_digits-digit :
    (acc d : ℕ) (s : Bytes)
    → d < 10
    → read_digits 10 acc ((b'0' + d) ∷ s) ≡ read_digits 10 (acc * 10 + d) s
unfolding read_digits
read_digits-digit acc d s h = rw (read_digits, digit_in_decimal d h) refl

-- Reading back what `%d` prints.
read_digits-print_digits :
    (fuel n : ℕ) (out : Bytes)
    → n < fuel
    → read_digits 10 0 (print_digits fuel n out) ≡ read_digits 10 n out
unfolding print_digits
read_digits-print_digits zero n out h = absurd (omega arith)
read_digits-print_digits (suc fuel) n out h = elim (Bool-cases (ltb n 10)) [
  | inl small ↦
      rw small (
        read_digits-digit 0 n out (ltb→lt n 10 small)
        ∙ ap (λ k. read_digits 10 k out) (omega arith))
  | inr large ↦
      rw (large, read_digits-print_digits fuel (n / 10) ((b'0' + n % 10) ∷ out) (ground arith))
        (read_digits-digit (n / 10) (n % 10) out (omega arith)
          ∙ ap (λ k. read_digits 10 k out) (omega arith))
]

-- The first digit is not 0, and more digits may follow.
record Leads (s : Bytes) : Type 0 where
  head : ℕ
  tail : Bytes
  spelled : s ≡ head ∷ tail
  lo : b'1' ≤ head
  hi : head ≤ b'9'

print_digits-Leads : (fuel n : ℕ) (out : Bytes) → n < fuel → 0 < n → Leads (print_digits fuel n out)
unfolding print_digits
print_digits-Leads zero n out h pos = absurd (omega arith)
print_digits-Leads (suc fuel) n out h pos = elim (Bool-cases (ltb n 10)) [
  | inl small ↦
      rw small (record {
        head = b'0' + n;
        tail = out;
        spelled = refl;
        lo = omega arith;
        hi = ground arith;
      })
  | inr large ↦
      rw large
        (print_digits-Leads fuel (n / 10) ((b'0' + n % 10) ∷ out) (ground arith) (ground arith))
]

-- A text that begins with a digit other than 0 is read in base 10.
strtol_decimal :
    (c : ℕ) (s : Bytes)
    → b'1' ≤ c
    → c ≤ b'9'
    → strtol (c ∷ s) ≡ strtol_of (c ∷ s) false (some (read_digits 10 0 (c ∷ s)))
unfolding strtol skip_space read_unsigned
strtol_decimal c s lo hi = ground arith

-- `parse_uint` refuses every text that begins with 08 or 09, as a leading 0 is the mark of base
-- 8.
pub parse_uint_leading_zero :
    (d : ℕ) (s : Bytes) → (d ≡ b'8') ⊎ (d ≡ b'9') → parse_uint (b'0' ∷ d ∷ s) ≡ none
unfolding parse_uint strtol skip_space read_unsigned read_after_zero read_digits digit_in
parse_uint_leading_zero d s (inl e) = rw e refl
parse_uint_leading_zero d s (inr e) = rw e refl

strtol-Leads :
    (s : Bytes) (n : ℕ)
    → Leads s
    → read_digits 10 0 s ≡ (n, [])
    → strtol s ≡ record { negative = false; magnitude = n; endptr = [] }
strtol-Leads s n l e =
    rw l.spelled (strtol_decimal l.head l.tail l.lo l.hi ∙ rw (← l.spelled, e) refl)

strtol-sprintf_d :
    (n : ℕ) → strtol (sprintf_d n) ≡ record { negative = false; magnitude = n; endptr = [] }
unfolding sprintf_d strtol read_digits
strtol-sprintf_d zero = refl
strtol-sprintf_d (suc n) =
    strtol-Leads (sprintf_d (suc n)) (suc n)
      (print_digits-Leads (suc n + 1) (suc n) [] (omega arith) (omega arith))
      (read_digits-print_digits (suc n + 1) (suc n) [] (omega arith))

-- The decimal digits of a number up to INT_MAX are read back by `parse_uint` as that number.
pub parse_uint-sprintf_d : (n : ℕ) → n ≤ int_max → parse_uint (sprintf_d n) ≡ some n
unfolding parse_uint
parse_uint-sprintf_d n h = rw (strtol-sprintf_d n) (ground arith)
