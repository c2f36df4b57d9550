-- ===== src/Text.antt =====
-- The text routines of ccronexpr.c. A C string is the list of its bytes, with no byte 0; an
-- allocation never fails. `isspace` and `toupper` are those of the "C" locale, in which no byte from
-- 128 on is a space or a letter.
pub mod Decimal
pub mod Number
pub mod Replace
pub mod Split
use smart_device_svr.Base.{
  ℕ, zero, suc, ◌+◌, ◌-◌, ◌*◌, ◌^◌, ◌%◌, Bool, true, false, not, ◌&&◌, ◌||◌, Option, none, some,
  List, [], ◌∷◌, ◌++◌, map, Bytes, codes, ltb, leb, ◌==◌, if◌then◌else◌, length, ◌>>=◌,
}

abbrev pub isspace : ℕ → Bool
isspace c = (c == b' ') || (leb 9 c && leb c 13)

abbrev pub toupper : ℕ → ℕ
toupper c = if leb b'a' c && leb c b'z' then c - 32 else c

-- The loop of `to_upper` writes over each byte of the text.
unfoldable pub to_upper : Bytes → Bytes
to_upper [] = []
to_upper (c ∷ str) = toupper c ∷ to_upper str

unfoldable pub has_char : Bytes → ℕ → Bool
has_char [] ch = false
has_char (c ∷ str) ch = if c == ch then true else has_char str ch

abbrev pub cron_max_str_len_to_split : ℕ
cron_max_str_len_to_split = 256

-- The first loop of `split_str`: the length of the text, or `none` for the error exit.
unfoldable pub measure : Bytes → ℕ → Option ℕ
measure [] stlen = some stlen
measure (c ∷ str) stlen =
    if leb cron_max_str_len_to_split (stlen + 1) then none else measure str (stlen + 1)

-- The second loop: `accum` and `len`. A round is `count_step`, and the count ends with the tail.
abbrev pub count_step : ℕ → ℕ → ℕ × ℕ → ℕ × ℕ
count_step del c (accum, len) =
    if del == c
    then (if ltb 0 accum then (0, len + 1) else (accum, len))
    else if not (isspace c)
    then (accum + 1, len)
    else (accum, len)

abbrev pub count_tail : ℕ × ℕ → ℕ
count_tail (accum, len) = if ltb 0 accum then len + 1 else len

unfoldable pub count_fields : ℕ → Bytes → ℕ × ℕ → ℕ
count_fields del [] st = count_tail st
count_fields del (c ∷ str) st = count_fields del str (count_step del c st)

-- `res[ri++] = tmp`: `res` has `cap` places, and a write past them is a fault.
abbrev pub push : ℕ → List Bytes → Bytes → Option (List Bytes)
push cap res tmp = if ltb (length res) cap then some (res ++ tmp ∷ []) else none

-- The third loop: the first `bi` bytes of `buf`, and the first `ri` places of `res`. `buf` has a
-- place for each byte of the text.
abbrev pub fill_step : ℕ → ℕ → ℕ → Bytes × List Bytes → Option (Bytes × List Bytes)
fill_step cap del c (buf, res) =
    if del == c
    then (if ltb 0 (length buf) then push cap res buf >>= (λ r. some ([], r)) else some (buf, res))
    else if not (isspace c)
    then some (buf ++ c ∷ [], res)
    else some (buf, res)

abbrev pub fill_tail : ℕ → Bytes × List Bytes → Option (List Bytes)
fill_tail cap (buf, res) = if ltb 0 (length buf) then push cap res buf else some res

unfoldable pub fill : ℕ → ℕ → Bytes → Bytes × List Bytes → Option (List Bytes)
fill cap del [] st = fill_tail cap st
fill cap del (c ∷ str) st = fill_step cap del c st >>= fill cap del str

-- `some none` is the answer NULL; the length of the list is `*len_out`.
unfoldable pub collect : ℕ → ℕ → Bytes → Option (Option (List Bytes))
unfolding fill
collect len del str =
    if len == 0 then some none else fill len del str ([], []) >>= λ res. some (some res)

unfoldable pub split_str : Bytes → ℕ → Option (Option (List Bytes))
unfolding measure count_fields collect
split_str str del = elim (measure str 0) [
  | none ↦ some none
  | some stlen ↦ collect (count_fields del str (0, 0)) del str
]
