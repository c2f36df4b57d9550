-- ===== src/Expr/Range.antt =====
-- `get_range` of ccronexpr.c.
pub mod Laws
use smart_device_svr.Base.{
  ℕ, ◌-◌, ◌*◌, Bool, not, ◌&&◌, ◌||◌, Option, none, some, Bytes, ltb, leb, ◌==◌, if◌then◌else◌,
  length, get_or, ◌>>=◌,
}
use smart_device_svr.Text.{has_char, split_str}
use smart_device_svr.Text.Number.{parse_uint}
use smart_device_svr.Expr.{
  Result, ok, err, uint_parse_error_1, uint_parse_error_2, uint_parse_error_3,
  range_requires_two_fields, range_exceeds_maximum, range_less_than_minimum,
  range_start_exceeds_end, two_fields,
}

-- `1 == strlen(field) && ch == field[0]`.
abbrev pub is_char : Bytes → ℕ → Bool
is_char field ch = (length field == 1) && (get_or field 0 0 == ch)

abbrev pub single : Option ℕ → Result (ℕ × ℕ)
single none = err uint_parse_error_1
single (some val) = ok (val, val)

abbrev pub ends : Option ℕ → Option ℕ → Result (ℕ × ℕ)
ends none _ = err uint_parse_error_2
ends (some first) none = err uint_parse_error_3
ends (some first) (some last) = ok (first, last)

abbrev pub both_ends : Option (Bytes × Bytes) → Result (ℕ × ℕ)
both_ends none = err range_requires_two_fields
both_ends (some (a, b)) = ends (parse_uint a) (parse_uint b)

-- `res[0]` and `res[1]` before they are checked.
unfoldable pub read_range : Bytes → ℕ → ℕ → Option (Result (ℕ × ℕ))
read_range field min max =
    if is_char field b'*'
    then some (ok (min, max - 1))
    else if not (has_char field b'-')
    then some (single (parse_uint field))
    else split_str field b'-' >>= λ parts. some (both_ends (two_fields parts))

abbrev pub check_range : ℕ → ℕ → Result (ℕ × ℕ) → Result (ℕ × ℕ)
check_range min max (err m) = err m
check_range min max (ok (first, last)) =
    if leb max first || leb max last
    then err range_exceeds_maximum
    else if ltb first min || ltb last min
    then err range_less_than_minimum
    else if ltb last first
    then err range_start_exceeds_end
    else ok (first, last)

unfoldable pub get_range : Bytes → ℕ → ℕ → Option (Result (ℕ × ℕ))
unfolding read_range
get_range field min max = read_range field min max >>= λ r. some (check_range min max r)
