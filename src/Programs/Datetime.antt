-- ===== src/Programs/Datetime.antt =====
-- `try_to_parse_string_by_iso8601` of the two programs around ccronexpr.c, from the reading of the
-- elements on. A read past the byte 0 of the text is a fault. The elements are cut out into a buffer of
-- 12 bytes, of which `atoi` reads up to the first byte 0.
pub mod Written
pub mod Delimiter
pub mod Laws
pub mod Errors
use smart_device_svr.Base.{
  ℕ, zero, suc, ◌+◌, ◌*◌, Bool, true, false, ◌&&◌, ◌||◌, Option, none, some, [], ◌∷◌, Bytes, leb,
  ◌==◌, if◌then◌else◌, length, ◌>>=◌,
}
use smart_device_svr.Base.Int.{ℤ, pos, negsuc, ◌+ℤ◌, sub_ℕ}
use smart_device_svr.Text.Number.{skip_space, split_sign, read_digits}
use smart_device_svr.Text.Replace.{later}
use smart_device_svr.Calendar.{Tm}

-- `string[i]`, where the byte 0 stands behind the last one.
unfoldable pub char_at : Bytes → ℕ → Option ℕ
char_at [] zero = some 0
char_at [] (suc i) = none
char_at (c ∷ string) zero = some c
char_at (c ∷ string) (suc i) = char_at string i

-- `strchr` as the offset of the first occurrence.
unfoldable pub strchr : Bytes → ℕ → Option ℕ
strchr [] ch = none
strchr (c ∷ string) ch = if c == ch then some 0 else later (strchr string ch)

-- The text that a buffer holds.
unfoldable pub until_nul : Bytes → Bytes
until_nul [] = []
until_nul (c ∷ buffer) = if c == 0 then [] else c ∷ until_nul buffer

abbrev pub signed : Bool → ℕ → ℤ
signed true n = sub_ℕ 0 n
signed false n = pos n

-- `atoi`, for texts of at most four digits, which an `int` holds.
unfoldable pub atoi : Bytes → ℤ
unfolding skip_space read_digits
atoi s =
    let (negative, digits) = split_sign (skip_space s) in
    signed negative (read_digits 10 0 digits).0

-- The loop that copies four bytes, and `atoi` of them.
unfoldable pub year_at : Bytes → Option ℤ
unfolding char_at until_nul atoi
year_at string = do
  a ← char_at string 0
  b ← char_at string 1
  c ← char_at string 2
  d ← char_at string 3
  some (atoi (until_nul (a ∷ b ∷ c ∷ d ∷ [])))

-- Two bytes are copied, and `atoi` reads them.
unfoldable pub element_at : Bytes → ℕ → Option ℤ
unfolding char_at until_nul atoi
element_at string i = do
  a ← char_at string i
  b ← char_at string (i + 1)
  some (atoi (until_nul (a ∷ b ∷ [])))

-- The minute, behind a colon or at once.
unfoldable pub minute_at : Bytes → ℕ → Option ℤ
unfolding char_at element_at
minute_at string i = do
  c ← char_at string i
  if c == b':' then element_at string (i + 1) else element_at string i

pub record Elements : Type 0 where
  pub year : ℤ
  pub month : ℤ
  pub day : ℤ
  pub hour : ℤ
  pub minute : ℤ

unfoldable pub read_elements : Bytes → ℕ → Option Elements
unfolding year_at element_at minute_at
read_elements string index_offset = do
  year ← year_at string
  month ← element_at string (4 + index_offset)
  day ← element_at string (6 + index_offset * 2)
  hour ← element_at string (9 + index_offset * 2)
  minute ← minute_at string (11 + index_offset * 2)
  some (record { year = year; month = month; day = day; hour = hour; minute = minute })

abbrev pub within : ℕ → ℕ → ℤ → Bool
within lo hi (pos n) = leb lo n && leb n hi
within lo hi (negsuc n) = false

unfoldable pub is_valid_date : Elements → Bool
is_valid_date e =
    within 1900 2038 e.year && within 1 12 e.month && within 1 31 e.day && within 0 23 e.hour

-- What is written to `ts`; the offset and the name of the time zone, which `mktime` does not read, are
-- left out.
unfoldable pub fill_calendar : ℤ → Elements → Tm → Tm
unfolding ◌+ℤ◌
fill_calendar isdst e ts = record ts {
  tm_isdst = isdst;
  tm_year = e.year +ℤ negsuc 1899;
  tm_mon = e.month +ℤ negsuc 0;
  tm_mday = e.day;
  tm_hour = e.hour;
  tm_min = e.minute;
  tm_sec = pos 0;
}

-- The answers -1, 0 and 1, the last one with `ts`.
pub data Iso8601 : Type 0 where
  neither malformed : Iso8601
  valid : Tm → Iso8601

-- The tail: `current` is the calendar of the present, and NULL there is a fault.
unfoldable pub judge : Option Tm → Tm → Elements → Option Iso8601
unfolding is_valid_date fill_calendar
judge current ts e =
    if is_valid_date e
    then current >>= (λ now. some (valid (fill_calendar now.tm_isdst e ts)))
    else some malformed

abbrev pub time_delimiter : Bytes → Option ℕ
time_delimiter string = elim (strchr string b' ') [ some i ↦ some i | none ↦ strchr string b'T' ]

-- Where the delimiter stands elsewhere, the function ends without a `return`: a fault, as the caller
-- reads the answer.
unfoldable pub parse_behind : Option Tm → Bytes → Tm → ℕ → Option Iso8601
unfolding read_elements judge
parse_behind current string ts index =
    if (index == 8 || index == 10) && leb (index + 4) (length string)
    then read_elements string (if index == 10 then 1 else 0) >>= judge current ts
    else none

unfoldable pub parse_datetime : Option Tm → Bytes → Tm → Option Iso8601
unfolding strchr parse_behind
parse_datetime current string ts = elim (time_delimiter string) [
  | none ↦ some neither
  | some index ↦ parse_behind current string ts index
]
