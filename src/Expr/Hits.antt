-- ===== src/Expr/Hits.antt =====
-- `set_number_hits` of ccronexpr.c. A field is read as a span, and the span is marked in the array:
-- the two steps of each round of the loop.
pub mod Marks
pub mod Laws
pub mod Syntax
pub mod Outcome
use smart_device_svr.Base.{
  ℕ, zero, suc, ◌+◌, ◌-◌, ◌*◌, ◌%◌, ◌^◌, Bool, true, false, not, ◌&&◌, ◌||◌, Option, none, some,
  List, [], ◌∷◌, Bytes, ltb, leb, ◌==◌, if◌then◌else◌, length, get_or, ◌>>=◌,
}
use smart_device_svr.Bitset.{cron_set_bit}
use smart_device_svr.Text.{has_char, split_str}
use smart_device_svr.Text.Number.{parse_uint}
use smart_device_svr.Expr.{
  Message, Result, ok, err, uint_parse_error_4, comma_split_error, incrementer_must_have_two_fields,
  incrementer_may_not_be_zero, two_fields,
}
use smart_device_svr.Expr.Range.{get_range}

-- `range[0]`, `range[1]` and the increment of the loop that sets the bits.
pub record Span : Type 0 where
  pub first : ℕ
  pub last : ℕ
  pub step : ℕ

abbrev pub plain : Result (ℕ × ℕ) → Result Span
plain (err m) = err m
plain (ok (first, last)) = ok (record { first = first; last = last; step = 1 })

-- The increment behind the slash.
abbrev pub with_delta : ℕ → ℕ → Option ℕ → Result Span
with_delta first last none = err uint_parse_error_4
with_delta first last (some delta) =
    if 0 == delta
    then err incrementer_may_not_be_zero
    else ok (record { first = first; last = last; step = delta })

abbrev pub stepped : Bytes → Bytes → ℕ → Result (ℕ × ℕ) → Result Span
stepped left right max (err m) = err m
stepped left right max (ok (first, last)) =
    with_delta first (if not (has_char left b'-') then max - 1 else last) (parse_uint right)

abbrev pub incrementer : ℕ → ℕ → Option (Bytes × Bytes) → Option (Result Span)
incrementer min max none = some (err incrementer_must_have_two_fields)
incrementer min max (some (left, right)) =
    get_range left min max >>= λ r. some (stepped left right max r)

unfoldable pub read_span : Bytes → ℕ → ℕ → Option (Result Span)
read_span field min max =
    if not (has_char field b'/')
    then get_range field min max >>= (λ r. some (plain r))
    else split_str field b'/' >>= λ split. incrementer min max (two_fields split)

-- `for (i1 = first; i1 <= last; i1 += step)`, with fuel; `i1` is an `unsigned int`.
unfoldable pub mark : ℕ → ℕ → ℕ → ℕ → Bytes → Option Bytes
unfolding cron_set_bit
mark zero i1 last step target = none
mark (suc fuel) i1 last step target = elim (leb i1 last) [
  | true ↦ cron_set_bit target i1 >>= mark fuel ((i1 + step) % 2 ^ 32) last step
  | false ↦ some target
]

unfoldable pub mark_span : Span → Bytes → Option Bytes
unfolding mark
mark_span s target = mark (s.last + 2) s.first s.last s.step target

-- The array and `*error` afterwards.
pub record Hits : Type 0 where
  pub target : Bytes
  pub error : Option Message

-- The loop over the fields; it is left at the first error.
unfoldable pub set_fields : List Bytes → Bytes → ℕ → ℕ → Option Hits
unfolding read_span mark_span
set_fields [] target min max = some (record { target = target; error = none })
set_fields (field ∷ fields) target min max = read_span field min max >>= elim [
  | err m ↦ some (record { target = target; error = some m })
  | ok span ↦ mark_span span target >>= λ t. set_fields fields t min max
]

abbrev pub hits_of : Option (List Bytes) → Bytes → ℕ → ℕ → Option Hits
hits_of none target min max = some (record { target = target; error = some comma_split_error })
hits_of (some fields) target min max = set_fields fields target min max

unfoldable pub set_number_hits : Bytes → Bytes → ℕ → ℕ → Option Hits
unfolding set_fields
set_number_hits value target min max =
    split_str value b',' >>= λ fields. hits_of fields target min max
