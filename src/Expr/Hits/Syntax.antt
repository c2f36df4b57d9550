-- ===== src/Expr/Hits/Syntax.antt =====
-- What a field between the commas means, apart from the code of `get_range` and `set_number_hits` in
-- ccronexpr.c: numbers, ranges, and steps.
pub mod Ranges
pub mod Laws
use smart_device_svr.Base.{
  ℕ, ◌-◌, ◌≤◌, ◌<◌, ◌≡◌, ◌⊎◌, true, false, List, [], ◌∷◌, Bytes, codes, length,
}
use smart_device_svr.Text.{cron_max_str_len_to_split}
use smart_device_svr.Text.Number.{Strtol, strtol, int_max}
use smart_device_svr.Text.Split.{fields}
use smart_device_svr.Expr.Hits.{Span}

-- The byte stands somewhere in the text.
pub data Contains (ch : ℕ) : Bytes → Type 0 where
  at_front : (s : Bytes) → Contains ch (ch ∷ s)
  behind : (c : ℕ) (s : Bytes) → Contains ch s → Contains ch (c ∷ s)

abbrev pub Lacks : ℕ → Bytes → Type 0
Lacks ch s = Contains ch s → ⊥

-- The text is a number that `strtol` reads to its end, not negative, and an `int` holds it.
pub record IsNumber (text : Bytes) (n : ℕ) : Type 0 where
  pub value : (strtol text).magnitude ≡ n
  pub to_end : (strtol text).endptr ≡ []
  pub sign : ((strtol text).negative ≡ false) ⊎ (n ≡ 0)
  pub fits : n ≤ int_max

-- The text is cut into two parts by a separator.
pub record Halves (ch : ℕ) (text left right : Bytes) : Type 0 where
  pub separator : Contains ch text
  pub short : length text < cron_max_str_len_to_split
  pub parts : fields ch text ≡ left ∷ right ∷ []

-- `*`, a number, or two numbers with a dash between them.
pub data RangeText (min max : ℕ) : Bytes → ℕ → ℕ → Type 0 where
  star : RangeText min max (codes "*") min (max - 1)
  number : {text : Bytes} {n : ℕ} → Lacks b'-' text → IsNumber text n → RangeText min max text n n
  dash :
      {text left right : Bytes} {first last : ℕ}
      → Halves b'-' text left right
      → IsNumber left first
      → IsNumber right last
      → RangeText min max text first last

-- A range within the bounds.
pub record IsRangeOf (min max : ℕ) (text : Bytes) (first last : ℕ) : Type 0 where
  pub written : RangeText min max text first last
  pub from_min : min ≤ first
  pub ordered : first ≤ last
  pub below_max : last < max

-- A range is every number from its first to its last one. With a slash and a step behind it, it is
-- every such number at the step; where it has no dash, it then goes up to the end of the bounds.
pub data SpanText (min max : ℕ) : Bytes → Span → Type 0 where
  range :
      {text : Bytes} {first last : ℕ}
      → Lacks b'/' text
      → IsRangeOf min max text first last
      → SpanText min max text (record { first = first; last = last; step = 1 })
  steps :
      {text left right : Bytes} {first last delta : ℕ}
      → Halves b'/' text left right
      → Contains b'-' left
      → IsRangeOf min max left first last
      → IsNumber right delta
      → 0 < delta
      → SpanText min max text (record { first = first; last = last; step = delta })
  open_steps :
      {text left right : Bytes} {first last delta : ℕ}
      → Halves b'/' text left right
      → Lacks b'-' left
      → IsRangeOf min max left first last
      → IsNumber right delta
      → 0 < delta
      → SpanText min max text (record { first = first; last = max - 1; step = delta })
