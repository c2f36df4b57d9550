-- ===== src/Programs/Datetime/Delimiter.antt =====
-- Where `try_to_parse_string_by_iso8601` of the two programs around ccronexpr.c finds its delimiter.
use smart_device_svr.Base.{
  ℕ, ◌+◌, ◌/◌, ◌%◌, ◌<◌, ◌≡◌, refl, false, ◌⊎◌, Option, none, some, ◌∷◌, Bytes, arith, ◌==◌,
  ==_refl,
}
use smart_device_svr.Text.Replace.{later}
use smart_device_svr.Programs.Datetime.{strchr}
use smart_device_svr.Programs.Datetime.Written.{two, four, Moment, IsMoment}

-- A space stands between the date and the time, or a `T`, with no space behind.
abbrev pub Separates : ℕ → Bytes → Type 0
Separates delimiter s = (delimiter ≡ b' ') ⊎ ((delimiter ≡ b'T') × (strchr s b' ' ≡ none))

-- A byte that is no decimal digit is not found among the digits.
strchr-two :
    (n ch : ℕ) (s : Bytes)
    → n < 100
    → (ch < b'0') ⊎ (b'9' < ch)
    → strchr (two n s) ch ≡ later (later (strchr s ch))
unfolding strchr
strchr-two n ch s h out = ground arith

strchr-four :
    (n ch : ℕ) (s : Bytes)
    → n < 10000
    → (ch < b'0') ⊎ (b'9' < ch)
    → strchr (four n s) ch ≡ later (later (later (later (strchr s ch))))
unfolding strchr
strchr-four n ch s h out =
    let first : (b'0' + n / 1000 == ch) ≡ false = ground arith in
    let second : (b'0' + n / 100 % 10 == ch) ≡ false = ground arith in
    rw (first, second, strchr-two (n % 100) ch s (omega arith) out) refl

pub strchr_skip :
    (c ch : ℕ) (s : Bytes) → (c == ch) ≡ false → strchr (c ∷ s) ch ≡ later (strchr s ch)
unfolding strchr
strchr_skip c ch s e = rw e refl

pub strchr_found : (ch : ℕ) (s : Bytes) → strchr (ch ∷ s) ch ≡ some 0
unfolding strchr
strchr_found ch s = rw (==_refl ch) refl

abbrev pub later_4 : Option ℕ → Option ℕ
later_4 r = later (later (later (later r)))

module _ (m : Moment) (h : IsMoment m) (ch : ℕ) (out : (ch < b'0') ⊎ (b'9' < ch)) where
  -- The date, in the two forms, and the time in the two forms, are passed over.
  pub strchr-date :
      (t : Bytes)
      → strchr (four m.year (two m.month (two m.day t))) ch ≡ later_4 (later_4 (strchr t ch))
  strchr-date t =
      rw
        (
          strchr-four m.year ch (two m.month (two m.day t)) (omega (arith, h.year_to)) out,
          strchr-two m.month ch (two m.day t) (omega (arith, h.month_to)) out,
          strchr-two m.day ch t (omega (arith, h.day_to)) out,
        )
        refl

  pub strchr-dashed_date :
      (t : Bytes)
      → (b'-' == ch) ≡ false
      → strchr (four m.year (b'-' ∷ two m.month (b'-' ∷ two m.day t))) ch
        ≡ later_4 (later_4 (later (later (strchr t ch))))
  strchr-dashed_date t dash =
      rw
        (
          strchr-four m.year ch (b'-' ∷ two m.month (b'-' ∷ two m.day t)) (omega (arith, h.year_to))
              out,
          strchr_skip b'-' ch (two m.month (b'-' ∷ two m.day t)) dash,
          strchr-two m.month ch (b'-' ∷ two m.day t) (omega (arith, h.month_to)) out,
          strchr_skip b'-' ch (two m.day t) dash,
          strchr-two m.day ch t (omega (arith, h.day_to)) out,
        )
        refl

  pub strchr-time :
      (s : Bytes) → strchr s ch ≡ none → strchr (two m.hour (two m.minute s)) ch ≡ none
  strchr-time s clean =
      rw
        (
          strchr-two m.hour ch (two m.minute s) (omega (arith, h.hour_to)) out,
          strchr-two m.minute ch s (omega (arith, h.minute_to)) out,
          clean,
        )
        refl

  pub strchr-colon_time :
      (s : Bytes)
      → (b':' == ch) ≡ false
      → strchr s ch ≡ none
      → strchr (two m.hour (b':' ∷ two m.minute s)) ch ≡ none
  strchr-colon_time s colon clean =
      rw
        (
          strchr-two m.hour ch (b':' ∷ two m.minute s) (omega (arith, h.hour_to)) out,
          strchr_skip b':' ch (two m.minute s) colon,
          strchr-two m.minute ch s (omega (arith, h.minute_to)) out,
          clean,
        )
        refl
