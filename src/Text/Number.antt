-- ===== src/Text/Number.antt =====
-- `parse_uint` of ccronexpr.c, on top of the `strtol` of the C library at base 0 (with 64-bit `long`).
pub mod Laws
use smart_device_svr.Base.{
  ℕ, ◌+◌, ◌-◌, ◌*◌, ◌^◌, Bool, true, false, not, ◌&&◌, ◌||◌, Option, none, some, [], ◌∷◌, Bytes,
  ltb, leb, ◌==◌, if◌then◌else◌,
}
use smart_device_svr.Text.{isspace}

abbrev pub between : ℕ → ℕ → ℕ → Bool
between lo hi c = leb lo c && leb c hi

-- The value of a digit or letter in the given base.
unfoldable pub digit_in : ℕ → ℕ → Option ℕ
digit_in base c =
    let v =
      if between b'0' b'9' c
      then c - b'0'
      else if between b'a' b'z' c
      then c - b'a' + 10
      else if between b'A' b'Z' c
      then c - b'A' + 10
      else 36 in
    if ltb v base then some v else none

-- Digits are read as long as there are any: the value, and what is left.
unfoldable pub read_digits : ℕ → ℕ → Bytes → ℕ × Bytes
unfolding digit_in
read_digits base acc [] = (acc, [])
read_digits base acc (c ∷ s) = elim (digit_in base c) [
  | none ↦ (acc, c ∷ s)
  | some d ↦ read_digits base (acc * base + d) s
]

abbrev pub is_hex_after : Bytes → Bool
is_hex_after [] = false
is_hex_after (h ∷ s) = elim (digit_in 16 h) [ none ↦ false | some d ↦ true ]

-- After a leading 0: base 16 behind an x and a digit, else base 8.
unfoldable pub read_after_zero : Bytes → ℕ × Bytes
unfolding read_digits
read_after_zero [] = (0, [])
read_after_zero (x ∷ s) =
    if (x == b'x' || x == b'X') && is_hex_after s
    then read_digits 16 0 s
    else read_digits 8 0 (x ∷ s)

-- The digits behind the sign; `none` if there are none.
unfoldable pub read_unsigned : Bytes → Option (ℕ × Bytes)
unfolding read_after_zero
read_unsigned [] = none
read_unsigned (c ∷ s) =
    if c == b'0'
    then some (read_after_zero s)
    else if between b'1' b'9' c
    then some (read_digits 10 0 (c ∷ s))
    else none

unfoldable pub skip_space : Bytes → Bytes
skip_space [] = []
skip_space (c ∷ s) = if isspace c then skip_space s else c ∷ s

abbrev pub split_sign : Bytes → Bool × Bytes
split_sign [] = (false, [])
split_sign (c ∷ s) =
    if c == b'-' then (true, s) else if c == b'+' then (false, s) else (false, c ∷ s)

-- The sign, the unbounded magnitude, and `*endptr`.
pub record Strtol : Type 0 where
  pub negative : Bool
  pub magnitude : ℕ
  pub endptr : Bytes

abbrev pub strtol_of : Bytes → Bool → Option (ℕ × Bytes) → Strtol
strtol_of str neg none = record { negative = false; magnitude = 0; endptr = str }
strtol_of str neg (some (v, s)) = record { negative = neg; magnitude = v; endptr = s }

unfoldable pub strtol : Bytes → Strtol
unfolding read_unsigned skip_space
strtol str = let (neg, s) = split_sign (skip_space str) in strtol_of str neg (read_unsigned s)

abbrev pub int_max : ℕ
int_max = 2 ^ 31 - 1

abbrev pub long_max : ℕ
long_max = 2 ^ 63 - 1

-- errno is ERANGE.
abbrev pub is_out_of_range : Strtol → Bool
is_out_of_range l = if l.negative then ltb (long_max + 1) l.magnitude else ltb long_max l.magnitude

abbrev pub is_empty : Bytes → Bool
is_empty [] = true
is_empty (c ∷ s) = false

-- `none` is the error code 1.
unfoldable pub parse_uint : Bytes → Option ℕ
unfolding strtol
parse_uint str =
    let l = strtol str in
    if is_out_of_range l
      || not (is_empty l.endptr)
      || (l.negative && ltb 0 l.magnitude)
      || (not l.negative && ltb int_max l.magnitude)
    then none
    else some l.magnitude
