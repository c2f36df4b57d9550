-- ===== src/Expr/Hits/Laws.antt =====
-- `set_number_hits` of ccronexpr.c: what it marks, and that it stays within the array.
use smart_device_svr.Base.{
  ℕ, ◌≤◌, ◌<◌, ◌≡◌, refl, not, inl, inr, Bool-cases, Option, none, some, Bytes, arith, Returns,
}
use smart_device_svr.Text.{has_char}
use smart_device_svr.Text.Number.{parse_uint, int_max}
use smart_device_svr.Text.Number.Laws.{parse_uint-le}
use smart_device_svr.Text.Split.{split_str-fields}
use smart_device_svr.Expr.{Result, ok, err}
use smart_device_svr.Expr.Range.Laws.{IsRange, get_range-IsRange}
use smart_device_svr.Expr.Hits.{Span, plain, with_delta, stepped, incrementer, read_span}

-- A span that may be marked: it begins within the bounds, ends within them and not before it begins,
-- and its step is positive.
pub record IsSpan (min max : ℕ) (s : Span) : Type 0 where
  pub starts : min ≤ s.first
  pub ordered : s.first ≤ s.last
  pub ends : s.last < max
  pub moves : 1 ≤ s.step
  pub step_fits : s.step ≤ int_max

abbrev pub SpanOrError : ℕ → ℕ → Result Span → Type 0
SpanOrError min max (err m) = Unit
SpanOrError min max (ok s) = IsSpan min max s

plain-SpanOrError :
    (min max : ℕ) (r : Result (ℕ × ℕ)) → IsRange min max r → SpanOrError min max (plain r)
plain-SpanOrError min max (err m) h = tt
plain-SpanOrError min max (ok (first, last)) h = omega arith

with_delta-SpanOrError :
    (min max first last : ℕ) (d : Option ℕ)
    → min ≤ first
    → first ≤ last
    → last < max
    → ((delta : ℕ) → d ≡ some delta → delta ≤ int_max)
    → SpanOrError min max (with_delta first last d)
with_delta-SpanOrError min max first last none a b c h = tt
with_delta-SpanOrError min max first last (some delta) a b c h = ground (arith, h delta refl)

stepped-SpanOrError :
    (min max : ℕ) (left right : Bytes) (r : Result (ℕ × ℕ))
    → IsRange min max r
    → SpanOrError min max (stepped left right max r)
stepped-SpanOrError min max left right (err m) h = tt
stepped-SpanOrError min max left right (ok (first, last)) h =
    with_delta-SpanOrError min max first _ (parse_uint right) h.0 (ground arith) (ground arith)
      (parse_uint-le right)

incrementer-SpanOrError :
    (min max : ℕ) (parts : Option (Bytes × Bytes))
    → Returns (incrementer min max parts) (SpanOrError min max)
incrementer-SpanOrError min max none = (_, refl, tt)
incrementer-SpanOrError min max (some (left, right)) =
    let (r, e, h) = get_range-IsRange left min max in
    rw e (_, refl, stepped-SpanOrError min max left right r h)

-- A field is read as a span within the bounds, or refused with a message.
pub read_span-SpanOrError :
    (field : Bytes) (min max : ℕ) → Returns (read_span field min max) (SpanOrError min max)
unfolding read_span
read_span-SpanOrError field min max = elim (Bool-cases (not (has_char field b'/'))) [
  | inl one ↦
      let (r, e, h) = get_range-IsRange field min max in
      rw (one, e) (_, refl, plain-SpanOrError min max r h)
  | inr two ↦ rw (two, split_str-fields field b'/') (incrementer-SpanOrError min max _)
]
