-- ===== src/Dates/Exact/Weekly.antt =====
-- The days of a week and the days of a month, in the order in which `find_next_day` of ccronexpr.c goes
-- through them.
use smart_device_svr.Base.{
  ℕ, suc, ◌+◌, ◌-◌, ◌%◌, ◌≤◌, ◌<◌, ◌≡◌, sym, subst, ◌⊎◌, inl, inr, true, false, Bytes, arith,
}
use smart_device_svr.Base.Int.{pos}
use smart_device_svr.Bitset.{member}
use smart_device_svr.Calendar.{Tm, Clock, day_of_month, to_unsigned, added, is_invalid, cron_mktime}
use smart_device_svr.Dates.Exact.{IsReal}

-- The calendar of the next day.
abbrev pub tomorrow : Clock → Tm → Tm
tomorrow c t = (cron_mktime c (added day_of_month (pos 1) t)).0

-- The weekdays follow one another, and a month has 28 days at least.
pub record IsWeekly (c : Clock) : Type 0 where
  pub next_wday :
      (t : Tm)
      → IsReal c t
      → is_invalid (cron_mktime c (added day_of_month (pos 1) t)).1 ≡ false
      → to_unsigned (tomorrow c t).tm_wday ≡ (to_unsigned t.tm_wday + 1) % 7
  pub next_mday :
      (t : Tm)
      → IsReal c t
      → is_invalid (cron_mktime c (added day_of_month (pos 1) t)).1 ≡ false
      → (to_unsigned (tomorrow c t).tm_mday ≡ to_unsigned t.tm_mday + 1)
        ⊎ ((28 ≤ to_unsigned t.tm_mday) × (to_unsigned (tomorrow c t).tm_mday ≡ 1))

-- The day number `j` days after the day number `m`, for the days of a week.
abbrev pub After : ℕ → ℕ → ℕ → Type 0
After j m m' = (m' ≡ m + j) ⊎ ((m' ≤ j) × (28 ≤ m + j))

pub After-suc :
    (j m m1 m' : ℕ)
    → j < 6
    → (m1 ≡ m + 1) ⊎ ((28 ≤ m) × (m1 ≡ 1))
    → After j m1 m'
    → After (suc j) m m'
After-suc j m m1 m' lt (inl up) (inl at) = inl (omega arith)
After-suc j m m1 m' lt (inl up) (inr (low, far)) = inr (omega arith, omega arith)
After-suc j m m1 m' lt (inr (late, one)) (inl at) = inr (omega arith, omega arith)
After-suc j m m1 m' lt (inr (late, one)) (inr (low, far)) = absurd (omega arith)

pub After-same : (j m : ℕ) → j < 7 → After j m m → j ≡ 0
After-same j m lt (inl same) = omega arith
After-same j m lt (inr (low, far)) = absurd (omega arith)

pub week_step :
    (bits : Bytes) (w w1 w2 k : ℕ)
    → w1 ≡ (w + 1) % 7
    → w1 ≡ w2
    → member bits ((w + suc k) % 7) ≡ true
    → member bits ((w2 + k) % 7) ≡ true
week_step bits w w1 w2 k next same on =
    let q : (w2 + k) % 7 ≡ (w + suc k) % 7 = omega arith in rw q on

pub week_here :
    (bits : Bytes) (w : ℕ) → w < 7 → member bits ((w + 0) % 7) ≡ true → member bits w ≡ true
week_here bits w lt on =
    let q : w ≡ (w + 0) % 7 = omega arith in subst (λ k. member bits k ≡ true) (sym q) on

-- How many days lie before the next weekday `v`, from `w` on.
pub days_until : (w v : ℕ) → w < 7 → v < 7 → (k : ℕ) × (k ≤ 6) × ((w + k) % 7 ≡ v)
days_until w v lw lv = ((v + 7 - w) % 7, omega arith, omega arith)
