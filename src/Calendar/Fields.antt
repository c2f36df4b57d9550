-- ===== src/Calendar/Fields.antt =====
-- The list of fields to reset, `push_to_fields_arr` of ccronexpr.c.
use smart_device_svr.Base.{
  ℕ, suc, ◌≤◌, ◌≡◌, refl, Bool, true, false, Option, none, some, List, [], ◌∷◌, ◌==◌, if◌then◌else◌,
  arith, replicate, Bool-cases, inl, inr,
}
use smart_device_svr.Calendar.{
  Field, second, minute, hour_of_day, day_of_week, day_of_month, month, year,
}

-- The values of the macros.
abbrev pub code_of : Field → ℕ
code_of second = 0
code_of minute = 1
code_of hour_of_day = 2
code_of day_of_week = 3
code_of day_of_month = 4
code_of month = 5
code_of year = 6

unfoldable pub same_field : Field → Field → Bool
same_field f g = code_of f == code_of g

-- `arr[i] == fi`.
abbrev pub holds : Option Field → Field → Bool
holds none fi = false
holds (some f) fi = same_field f fi

-- The first loop: whether a place holds `fi`.
unfoldable pub has_field : List (Option Field) → Field → Bool
unfolding same_field
has_field [] fi = false
has_field (place ∷ arr) fi = if holds place fi then true else has_field arr fi

-- The second loop: `fi` goes into the first empty place.
unfoldable pub fill_first : List (Option Field) → Field → List (Option Field)
fill_first [] fi = []
fill_first (none ∷ arr) fi = some fi ∷ arr
fill_first (some f ∷ arr) fi = some f ∷ fill_first arr fi

-- Neither the array nor the field is empty.
unfoldable pub push_to_fields_arr : List (Option Field) → Field → List (Option Field)
unfolding has_field fill_first
push_to_fields_arr arr fi = if has_field arr fi then arr else fill_first arr fi

-- The arrays `resets` and `empty_list` at first.
abbrev pub empty_list : List (Option Field)
empty_list = replicate 7 none

-- The number of empty places.
abbrev pub room : List (Option Field) → ℕ
room [] = 0
room (none ∷ arr) = suc (room arr)
room (some f ∷ arr) = room arr

same_field-eq : (f g : Field) → same_field f g ≡ true → f ≡ g
unfolding same_field
same_field-eq f g h = ground arith

if_same : (b : Bool) → true ≡ (if b then true else true)
if_same b = ground arith

fill_first-has :
    (arr : List (Option Field)) (fi g : Field)
    → 1 ≤ room arr
    → has_field (fill_first arr fi) g ≡ (if same_field fi g then true else has_field arr g)
unfolding has_field fill_first
fill_first-has [] fi g h = absurd (omega arith)
fill_first-has (none ∷ arr) fi g h = refl
fill_first-has (some f ∷ arr) fi g h = elim (Bool-cases (same_field f g)) [
  | inl e ↦ rw e (if_same (same_field fi g))
  | inr e ↦ rw e (fill_first-has arr fi g h)
]

-- Where the array has an empty place, `push_to_fields_arr` leaves one that holds the field
-- pushed and the fields that it held before, and no other.
pub push_to_fields_arr-has :
    (arr : List (Option Field)) (fi g : Field)
    → 1 ≤ room arr
    → has_field (push_to_fields_arr arr fi) g ≡ (if same_field fi g then true else has_field arr g)
unfolding push_to_fields_arr
push_to_fields_arr-has arr fi g h = elim (Bool-cases (has_field arr fi)) [
  | inl old ↦ rw old (elim (Bool-cases (same_field fi g)) [
    | inl e ↦ rw (e, ← same_field-eq fi g e) old
    | inr e ↦ rw e refl
  ])
  | inr new ↦ rw new (fill_first-has arr fi g h)
]
