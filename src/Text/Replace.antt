-- ===== src/Text/Replace.antt =====
-- `str_replace` and `replace_ordinals` of ccronexpr.c, on top of the `strstr` of the C library. The
-- result is written into a buffer whose size is computed first, in `size_t`; a byte written past it
-- is a fault. `orig`, `rep` and `with` are never NULL.
pub mod Laws
pub mod Ordinals
mod Size
use smart_device_svr.Base.{
  ℕ, zero, suc, ◌+◌, ◌-◌, ◌*◌, ◌^◌, ◌%◌, Bool, true, false, ◌&&◌, Option, none, some, List, [], ◌∷◌,
  ◌++◌, Bytes, codes, leb, ltb, ◌==◌, if◌then◌else◌, length, take, drop, ◌>>=◌,
}
use smart_device_svr.Text.Decimal.{to_string}

unfoldable pub starts_with : Bytes → Bytes → Bool
starts_with [] s = true
starts_with (r ∷ rep) [] = false
starts_with (r ∷ rep) (c ∷ s) = r == c && starts_with rep s

abbrev pub later : Option ℕ → Option ℕ
later none = none
later (some i) = some (suc i)

-- `strstr` as the offset of the first occurrence.
unfoldable pub strstr : Bytes → Bytes → Option ℕ
unfolding starts_with
strstr [] rep = if starts_with rep [] then some 0 else none
strstr (c ∷ s) rep = if starts_with rep (c ∷ s) then some 0 else later (strstr s rep)

-- `++count` of an `int`, which must not overflow: that is undefined, and a fault.
abbrev pub increment : ℕ → Option ℕ
increment count = if ltb (count + 1) (2 ^ 31) then some (count + 1) else none

-- The counting loop, with fuel: `none` if it runs out, or if the `int` overflows.
unfoldable pub count_occurrences : ℕ → Bytes → Bytes → ℕ → Option ℕ
unfolding strstr
count_occurrences zero rep ins count = none
count_occurrences (suc fuel) rep ins count = elim (strstr ins rep) [
  | none ↦ some count
  | some tmp ↦ increment count >>= count_occurrences fuel rep (drop (tmp + length rep) ins)
]

-- Writes `piece` behind `out`, and a byte 0 behind that.
abbrev pub emit : ℕ → Bytes → Bytes → Option Bytes
emit size out piece = if leb (length out + length piece + 1) size then some (out ++ piece) else none

-- The copying loop, with `count` rounds to go, and the last `strcpy`.
unfoldable pub copy_pieces : ℕ → Bytes → Bytes → ℕ → Bytes → Bytes → Option Bytes
unfolding strstr
copy_pieces size rep with zero orig out = emit size out orig
copy_pieces size rep with (suc count) orig out = strstr orig rep >>= λ len_front.
    emit size out (take len_front orig ++ with)
    >>= copy_pieces size rep with count (drop (len_front + length rep) orig)

abbrev pub size_mod : ℕ
size_mod = 2 ^ 64

abbrev pub result_size : Bytes → Bytes → Bytes → ℕ → ℕ
result_size orig rep with count =
    (length orig + (length with + size_mod - length rep) % size_mod * count + 1) % size_mod

unfoldable pub str_replace : Bytes → Bytes → Bytes → Option Bytes
unfolding count_occurrences copy_pieces
str_replace orig rep with = count_occurrences (length orig + 1) rep orig 0 >>= λ count.
    copy_pieces (result_size orig rep with count) rep with count orig []

-- The loop of `replace_ordinals` at `i`; `some none` is NULL.
unfoldable pub replace_ordinals_from : ℕ → List Bytes → Bytes → Option (Option Bytes)
unfolding str_replace
replace_ordinals_from i [] cur = some (some cur)
replace_ordinals_from i (name ∷ arr) cur = to_string i >>= elim [
  | none ↦ some none
  | some strnum ↦ str_replace cur name strnum >>= replace_ordinals_from (i + 1) arr
]

-- The arrays have an entry at least.
unfoldable pub replace_ordinals : Bytes → List Bytes → Option (Option Bytes)
unfolding replace_ordinals_from
replace_ordinals value arr = replace_ordinals_from 0 arr value

abbrev pub days_arr : List Bytes
days_arr =
    codes "SUN"
    ∷ codes "MON"
    ∷ codes "TUE"
    ∷ codes "WED"
    ∷ codes "THU"
    ∷ codes "FRI"
    ∷ codes "SAT"
    ∷ []

abbrev pub months_arr : List Bytes
months_arr =
    codes "FOO"
    ∷ codes "JAN"
    ∷ codes "FEB"
    ∷ codes "MAR"
    ∷ codes "APR"
    ∷ codes "MAY"
    ∷ codes "JUN"
    ∷ codes "JUL"
    ∷ codes "AUG"
    ∷ codes "SEP"
    ∷ codes "OCT"
    ∷ codes "NOV"
    ∷ codes "DEC"
    ∷ []
