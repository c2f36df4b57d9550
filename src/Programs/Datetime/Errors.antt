-- ===== src/Programs/Datetime/Errors.antt =====
-- What `try_to_parse_string_by_iso8601` of the two programs around ccronexpr.c does with other texts.
use smart_device_svr.Base.{
  ℕ, zero, suc, ◌+◌, ◌-◌, ◌*◌, ◌≤◌, ◌<◌, ◌≡◌, ◌∙◌, refl, ap, Bool, true, false, ◌&&◌, ◌||◌, Option,
  none, some, [], ◌∷◌, Bytes, arith, leb, ◌==◌, if◌then◌else◌, length, ◌>>=◌, bind-some, bind-none,
}
use smart_device_svr.Base.Int.{ℤ, pos, negsuc, ◌+ℤ◌}
use smart_device_svr.Calendar.{Tm}
use smart_device_svr.Programs.Datetime.{
  atoi, until_nul, char_at, year_at, element_at, minute_at, Elements, read_elements, is_valid_date,
  fill_calendar, neither, malformed, valid, judge, within, time_delimiter, parse_behind,
  parse_datetime,
}

-- The ranges of the fields that are checked; the minute is not.
pub record IsChecked (t : Tm) : Type 0 where
  pub year : ℕ
  pub is_year : t.tm_year ≡ pos year
  pub year_to : year ≤ 138
  pub month : ℕ
  pub is_month : t.tm_mon ≡ pos month
  pub month_to : month ≤ 11
  pub day : ℕ
  pub is_day : t.tm_mday ≡ pos day
  pub day_from : 1 ≤ day
  pub day_to : day ≤ 31
  pub hour : ℕ
  pub is_hour : t.tm_hour ≡ pos hour
  pub hour_to : hour ≤ 23

within_at :
    (lo hi : ℕ) (n : ℤ) → within lo hi n ≡ true → (k : ℕ) × (n ≡ pos k) × (lo ≤ k) × (k ≤ hi)
within_at lo hi (pos n) h = (n, refl, ground arith, ground arith)
within_at lo hi (negsuc n) h = absurd (cc)

and_parts : (a b : Bool) → (a && b) ≡ true → (a ≡ true) × (b ≡ true)
and_parts a b h = ground arith

fill_calendar-IsChecked :
    (isdst : ℤ) (e : Elements) (ts : Tm)
    → is_valid_date e ≡ true
    → IsChecked (fill_calendar isdst e ts)
unfolding is_valid_date fill_calendar ◌+ℤ◌
fill_calendar-IsChecked isdst e ts h =
    let (h3, h_hour) = and_parts _ (within 0 23 e.hour) h in
    let (h2, h_day) = and_parts _ (within 1 31 e.day) h3 in
    let (h_year, h_month) = and_parts (within 1900 2038 e.year) (within 1 12 e.month) h2 in
    let (year, is_year, year_lo, year_hi) = within_at 1900 2038 e.year h_year in
    let (month, is_month, month_lo, month_hi) = within_at 1 12 e.month h_month in
    let (day, is_day, day_lo, day_hi) = within_at 1 31 e.day h_day in
    let (hour, is_hour, hour_lo, hour_hi) = within_at 0 23 e.hour h_hour in
    record {
      year = year - 1900;
      is_year = rw is_year (ground arith);
      year_to = omega arith;
      month = month - 1;
      is_month = rw is_month (ground arith);
      month_to = omega arith;
      day = day;
      is_day = is_day;
      day_from = day_lo;
      day_to = day_hi;
      hour = hour;
      is_hour = is_hour;
      hour_to = hour_hi;
    }

-- What a valid answer says of `ts`.
abbrev pub Checked : Tm → Type 0
Checked t = IsChecked t × (t.tm_sec ≡ pos 0)

judged-Checked :
    (current : Option Tm) (ts : Tm) (e : Elements) (t : Tm) (b : Bool)
    → is_valid_date e ≡ b
    → (if b
        then current >>= (λ now. some (valid (fill_calendar now.tm_isdst e ts)))
        else some malformed)
      ≡ some (valid t)
    → Checked t
unfolding fill_calendar
judged-Checked current ts e t false q run = absurd (cc)
judged-Checked none ts e t true q run = absurd (cc)
judged-Checked (some now) ts e t true q run =
    let same : fill_calendar now.tm_isdst e ts ≡ t = cc in
    rw (← same) (fill_calendar-IsChecked now.tm_isdst e ts q, refl)

judge-Checked :
    (current : Option Tm) (ts : Tm) (e : Elements) (t : Tm)
    → judge current ts e ≡ some (valid t)
    → Checked t
unfolding judge
judge-Checked current ts e t run = judged-Checked current ts e t (is_valid_date e) refl run

parse_behind-Checked :
    (current : Option Tm) (string : Bytes) (ts : Tm) (index : ℕ) (t : Tm) (b : Bool)
    → (if b then read_elements string (if index == 10 then 1 else 0) >>= judge current ts else none)
      ≡ some (valid t)
    → Checked t
parse_behind-Checked current string ts index t false run = absurd (cc)
parse_behind-Checked current string ts index t true run =
    let (e, _, judged) = bind-some (read_elements string _) (judge current ts) (valid t) run in
    judge-Checked current ts e t judged

delimited-Checked :
    (current : Option Tm) (string : Bytes) (ts t : Tm) (found : Option ℕ)
    → (elim found [ none ↦ some neither | some index ↦ parse_behind current string ts index ])
      ≡ some (valid t)
    → Checked t
unfolding parse_behind
delimited-Checked current string ts t none run = absurd (cc)
delimited-Checked current string ts t (some index) run =
    parse_behind-Checked current string ts index t _ run

-- Where `try_to_parse_string_by_iso8601` answers 1, `ts` holds a year from 1900 to 2038, a month, a
-- day from 1 to 31, an hour, and second 0. Nothing is said of the minute, which is not checked.
pub parse_datetime-Checked :
    (current : Option Tm) (string : Bytes) (ts t : Tm)
    → parse_datetime current string ts ≡ some (valid t)
    → Checked t
unfolding parse_datetime
parse_datetime-Checked current string ts t run =
    delimited-Checked current string ts t (time_delimiter string) run

char_at_past : (s : Bytes) (i : ℕ) → length s < i → char_at s i ≡ none
unfolding char_at
char_at_past s zero h = absurd (omega arith)
char_at_past [] (suc i) h = refl
char_at_past (c ∷ s) (suc i) h = char_at_past s i (omega arith)

element_at_past : (s : Bytes) (i : ℕ) → length s < i + 1 → element_at s i ≡ none
unfolding element_at
element_at_past s i h =
    bind-none (char_at s i) _
      (λ a. ap (λ r. r >>= (λ b. some (atoi (until_nul (a ∷ b ∷ []))))) (char_at_past s (i + 1) h))

minute_at_past :
    (s : Bytes) (i : ℕ) → char_at s i ≡ some b':' → length s ≡ i + 1 → minute_at s i ≡ none
unfolding minute_at
minute_at_past s i colon h =
    ap (λ r. r >>= (λ c. if c == b':' then element_at s (i + 1) else element_at s i)) colon
    ∙ element_at_past s (i + 1) (omega arith)

read_elements_past :
    (s : Bytes) (index_offset : ℕ)
    → minute_at s (11 + index_offset * 2) ≡ none
    → read_elements s index_offset ≡ none
unfolding read_elements
read_elements_past s offset h = bind-none (year_at s) _ λ y.
    bind-none (element_at s (4 + offset)) _ λ mo. bind-none (element_at s (6 + offset * 2)) _ λ d.
      bind-none (element_at s (9 + offset * 2)) _ λ hr.
        ap
          (λ r.
            r >>= (λ mi. some (record { year = y; month = mo; day = d; hour = hr; minute = mi })))
          h

offset_of : (o : ℕ) → o ≤ 1 → (if (8 + o * 2) == 10 then 1 else 0) ≡ o
offset_of o le = ground arith

parse_behind_lem :
    (current : Option Tm) (string : Bytes) (ts : Tm) (o : ℕ)
    → o ≤ 1
    → 12 + o * 2 ≤ length string
    → parse_behind current string ts (8 + o * 2) ≡ (read_elements string o >>= judge current ts)
unfolding parse_behind
parse_behind_lem current string ts o le long =
    let guard : (((8 + o * 2) == 8 || (8 + o * 2) == 10) && leb (8 + o * 2 + 4) (length string))
        ≡ true =
      ground arith in
    rw (parse_behind, guard, offset_of o le) refl

-- A text of 14 bytes with its delimiter at byte 10, or of 12 bytes with it at byte 8, that ends in a
-- colon, is read past its end.
pub parse_datetime_overreads :
    (current : Option Tm) (string : Bytes) (ts : Tm) (index_offset : ℕ)
    → index_offset ≤ 1
    → time_delimiter string ≡ some (8 + index_offset * 2)
    → length string ≡ 12 + index_offset * 2
    → char_at string (11 + index_offset * 2) ≡ some b':'
    → parse_datetime current string ts ≡ none
unfolding parse_datetime
parse_datetime_overreads current string ts o le found len colon =
    rw (parse_datetime, found)
      (parse_behind_lem current string ts o le (omega arith)
        ∙ ap (λ r. r >>= judge current ts)
            (read_elements_past string o (minute_at_past string (11 + o * 2) colon (omega arith))))
