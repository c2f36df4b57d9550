-- ===== src/Expr/Range/Laws.antt =====
-- What `get_range` of ccronexpr.c answers.
use smart_device_svr.Base.{
  ℕ, ◌≤◌, ◌<◌, refl, inl, inr, Bool-cases, not, Option, List, Bytes, arith, Returns,
}
use smart_device_svr.Text.{has_char, split_str}
use smart_device_svr.Text.Split.{split_str-fields}
use smart_device_svr.Expr.{Result, ok, err}
use smart_device_svr.Expr.Range.{is_char, read_range, check_range, get_range}

-- `split_str` always returns.
pub split_str-Returns :
    (s : Bytes) (del : ℕ) → Returns (split_str s del) (λ (r : Option (List Bytes)). Unit {0})
split_str-Returns s del = (_, split_str-fields s del, tt)

-- An accepted range lies within the bounds, and does not end before it begins.
abbrev pub IsRange : ℕ → ℕ → Result (ℕ × ℕ) → Type 0
IsRange min max (err m) = Unit
IsRange min max (ok (first, last)) = (min ≤ first) × (first ≤ last) × (last < max)

check_range-IsRange : (min max : ℕ) (r : Result (ℕ × ℕ)) → IsRange min max (check_range min max r)
check_range-IsRange min max (err m) = tt
check_range-IsRange min max (ok (first, last)) = ground arith

read_range-Returns :
    (field : Bytes) (min max : ℕ)
    → Returns (read_range field min max) (λ (r : Result (ℕ × ℕ)). Unit {0})
unfolding read_range
read_range-Returns field min max = elim (Bool-cases (is_char field b'*')) [
  | inl star ↦ rw star (_, refl, tt)
  | inr other ↦ elim (Bool-cases (not (has_char field b'-'))) [
    | inl one ↦ rw (other, one) (_, refl, tt)
    | inr two ↦ rw (other, two, split_str-fields field b'-') (_, refl, tt)
  ]
]

-- For every field and bounds, `get_range` returns, and a range that it accepts begins at `min`
-- or later, does not end before it begins, and ends below `max`.
pub get_range-IsRange :
    (field : Bytes) (min max : ℕ) → Returns (get_range field min max) (IsRange min max)
unfolding get_range
get_range-IsRange field min max =
    let (r, e, _) = read_range-Returns field min max in
    rw e (check_range min max r, refl, check_range-IsRange min max r)
