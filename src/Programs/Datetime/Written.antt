-- ===== src/Programs/Datetime/Written.antt =====
-- Dates and times as texts, and what `try_to_parse_string_by_iso8601` of the two programs around
-- ccronexpr.c reads of them.
use smart_device_svr.Base.{
  ℕ, ◌+◌, ◌-◌, ◌/◌, ◌%◌, ◌≤◌, ◌<◌, ◌≡◌, ◌∙◌, refl, ap, false, some, [], ◌∷◌, Bytes, arith, ◌==◌,
}
use smart_device_svr.Base.Int.{pos, ◌+ℤ◌}
use smart_device_svr.Text.Number.{skip_space, read_digits}
use smart_device_svr.Text.Number.Laws.{read_digits-digit}
use smart_device_svr.Calendar.{Tm}
use smart_device_svr.Programs.Datetime.{
  char_at, until_nul, atoi, year_at, element_at, minute_at, Elements, read_elements, is_valid_date,
  fill_calendar, valid, judge,
}

-- The two-digit and the four-digit decimal of a number, in front of a text.
abbrev pub two : ℕ → Bytes → Bytes
two n s = (b'0' + n / 10) ∷ (b'0' + n % 10) ∷ s

abbrev pub four : ℕ → Bytes → Bytes
four n s = (b'0' + n / 1000) ∷ (b'0' + n / 100 % 10) ∷ two (n % 100) s

first_digit :
    (a : ℕ) (s : Bytes) → a < 10 → atoi ((b'0' + a) ∷ s) ≡ pos (read_digits 10 0 ((b'0' + a) ∷ s)).0
unfolding atoi skip_space
first_digit a s h = ground arith

atoi-two : (n : ℕ) → n < 100 → atoi (until_nul (two n [])) ≡ pos n
unfolding until_nul
atoi-two n h =
    let e : until_nul (two n []) ≡ two n [] = ground arith in
    rw e (
      first_digit (n / 10) _ (omega arith)
      ∙ ap (λ r. pos r.0)
          (read_digits-digit 0 (n / 10) _ (omega arith)
            ∙ read_digits-digit _ (n % 10) [] (omega arith))
      ∙ unfold read_digits in ap pos (omega arith))

atoi-four : (n : ℕ) → n < 10000 → atoi (until_nul (four n [])) ≡ pos n
unfolding until_nul
atoi-four n h =
    let e : until_nul (four n []) ≡ four n [] = ground arith in
    rw e (
      first_digit (n / 1000) _ (omega arith)
      ∙ ap (λ r. pos r.0)
          (read_digits-digit 0 (n / 1000) _ (omega arith)
            ∙ read_digits-digit _ (n / 100 % 10) _ (omega arith)
            ∙ read_digits-digit _ (n % 100 / 10) _ (omega arith)
            ∙ read_digits-digit _ (n % 100 % 10) [] (omega arith))
      ∙ unfold read_digits in ap pos (omega arith))

-- A date and a time of day, to the minute, as numbers.
pub record Moment : Type 0 where
  pub year : ℕ
  pub month : ℕ
  pub day : ℕ
  pub hour : ℕ
  pub minute : ℕ

-- The ranges that the code checks, and that of the minute.
pub record IsMoment (m : Moment) : Type 0 where
  pub year_from : 1900 ≤ m.year
  pub year_to : m.year ≤ 2038
  pub month_from : 1 ≤ m.month
  pub month_to : m.month ≤ 12
  pub day_from : 1 ≤ m.day
  pub day_to : m.day ≤ 31
  pub hour_to : m.hour ≤ 23
  pub minute_to : m.minute ≤ 59

-- `YYYY-MM-DDTHH:MM`, with the delimiter given, and with what follows.
abbrev pub extended : ℕ → Moment → Bytes → Bytes
extended delimiter m s =
    four m.year
      (b'-' ∷ two m.month (b'-' ∷ two m.day (delimiter ∷ two m.hour (b':' ∷ two m.minute s))))

-- `YYYYMMDDTHHMM`.
abbrev pub basic : ℕ → Moment → Bytes → Bytes
basic delimiter m s =
    four m.year (two m.month (two m.day (delimiter ∷ two m.hour (two m.minute s))))

abbrev pub elements : Moment → Elements
elements m = record {
  year = pos m.year;
  month = pos m.month;
  day = pos m.day;
  hour = pos m.hour;
  minute = pos m.minute;
}

-- What is left in `ts` of a moment.
abbrev pub calendar_at : Moment → Tm → Tm → Tm
calendar_at m now ts = record ts {
  tm_isdst = now.tm_isdst;
  tm_year = pos (m.year - 1900);
  tm_mon = pos (m.month - 1);
  tm_mday = pos m.day;
  tm_hour = pos m.hour;
  tm_min = pos m.minute;
  tm_sec = pos 0;
}

module _ (m : Moment) (h : IsMoment m) (s : Bytes) where
  pub read_elements-extended :
      (delimiter : ℕ) → read_elements (extended delimiter m s) 1 ≡ some (elements m)
  unfolding read_elements year_at element_at minute_at char_at
  read_elements-extended delimiter =
      rw
        (
          atoi-four m.year (omega (arith, h.year_to)),
          atoi-two m.month (omega (arith, h.month_to)),
          atoi-two m.day (omega (arith, h.day_to)),
          atoi-two m.hour (omega (arith, h.hour_to)),
          atoi-two m.minute (omega (arith, h.minute_to)),
        )
        refl

  -- The first digit of the minute is no colon.
  pub read_elements-basic :
      (delimiter : ℕ) → read_elements (basic delimiter m s) 0 ≡ some (elements m)
  unfolding read_elements year_at element_at minute_at char_at
  read_elements-basic delimiter =
      let digit : (b'0' + m.minute / 10 == b':') ≡ false = ground (arith, h.minute_to) in
      rw
        (
          digit,
          atoi-four m.year (omega (arith, h.year_to)),
          atoi-two m.month (omega (arith, h.month_to)),
          atoi-two m.day (omega (arith, h.day_to)),
          atoi-two m.hour (omega (arith, h.hour_to)),
          atoi-two m.minute (omega (arith, h.minute_to)),
        )
        refl

  pub judge-elements :
      (now ts : Tm) → judge (some now) ts (elements m) ≡ some (valid (calendar_at m now ts))
  unfolding judge is_valid_date fill_calendar ◌+ℤ◌
  judge-elements now ts = ground arith
