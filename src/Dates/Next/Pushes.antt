-- ===== src/Dates/Next/Pushes.antt =====
-- The resets that `do_next` of ccronexpr.c pushes: which fields they have and how much room they leave.
use smart_device_svr.Base.{
  ℕ, suc, ◌≤◌, ◌≡◌, ◌∙◌, refl, inl, inr, Bool, Bool-cases, true, false, Option, none, some, List,
  [], ◌∷◌, arith, ◌==◌, ==_refl,
}
use smart_device_svr.Calendar.{Field}
use smart_device_svr.Calendar.Fields.{
  code_of, has_field, fill_first, same_field, push_to_fields_arr, push_to_fields_arr-has, room,
}
use smart_device_svr.Dates.Steps.{push_if}

same_field_refl : (f : Field) → same_field f f ≡ true
unfolding same_field
same_field_refl f = ==_refl (code_of f)

push_if-has :
    (f : Field) (l : List (Option Field)) → 1 ≤ room l → has_field (push_if true f l) f ≡ true
push_if-has f l h = push_to_fields_arr-has l f f h ∙ rw (same_field_refl f) refl

pub push_if-found :
    (f : Field) (l : List (Option Field)) (value v : ℕ)
    → 1 ≤ room l
    → v ≡ value
    → has_field (push_if (value == v) f l) f ≡ true
push_if-found f l value v h same =
    let here : (value == v) ≡ true = rw same (==_refl value) in rw here (push_if-has f l h)

pub push_if-keeps :
    (b : Bool) (f g : Field) (l : List (Option Field))
    → 1 ≤ room l
    → has_field l g ≡ true
    → has_field (push_if b f l) g ≡ true
push_if-keeps true f g l h has = push_to_fields_arr-has l f g h ∙ rw has (ground arith)
push_if-keeps false f g l h has = has

fill_first-room : (l : List (Option Field)) (f : Field) → room l ≤ suc (room (fill_first l f))
unfolding fill_first
fill_first-room [] f = omega arith
fill_first-room (none ∷ l) f = omega arith
fill_first-room (some g ∷ l) f = omega (arith, fill_first-room l f)

pub push_if-room :
    (b : Bool) (f : Field) (l : List (Option Field)) → room l ≤ suc (room (push_if b f l))
unfolding push_to_fields_arr
push_if-room true f l = elim (Bool-cases (has_field l f)) [
  | inl e ↦ rw e (omega arith)
  | inr e ↦ rw e (fill_first-room l f)
]
push_if-room false f l = omega arith
