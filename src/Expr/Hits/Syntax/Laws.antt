-- ===== src/Expr/Hits/Syntax/Laws.antt =====
-- The reading of a field in `set_number_hits` of ccronexpr.c accepts what the syntax says, and nothing
-- else.
use smart_device_svr.Base.{
  ℕ, ◌-◌, ◌<◌, ◌≡◌, refl, inl, inr, Bool, Bool-cases, true, false, not, Option, none, some, Bytes,
  arith, ◌==◌, if◌then◌else◌, Returns,
}
use smart_device_svr.Text.{has_char}
use smart_device_svr.Text.Number.{parse_uint}
use smart_device_svr.Text.Split.{split_str-fields}
use smart_device_svr.Expr.{Result, ok, err}
use smart_device_svr.Expr.Hits.{Span, plain, with_delta, stepped, incrementer, read_span}
use smart_device_svr.Expr.Hits.Syntax.{Halves, IsRangeOf, SpanText, range, steps, open_steps}
use smart_device_svr.Expr.Hits.Syntax.Ranges.{
  has_char-Contains, Contains-has_char, Lacks-has_char, has_char-Lacks, parse_uint-IsNumber,
  IsNumber-parse_uint, halves, HalvesOf, halves-HalvesOf, Halves-halves, Within, get_range-Within,
  IsRangeOf-get_range,
}

module _ (min max : ℕ) (text : Bytes) where
  abbrev pub SpanOf : Result Span → Type 0
  SpanOf (err m) = Unit
  SpanOf (ok s) = SpanText min max text s

  plain-SpanOf :
      (r : Result (ℕ × ℕ)) → has_char text b'/' ≡ false → Within min max text r → SpanOf (plain r)
  plain-SpanOf (err m) lacks h = tt
  plain-SpanOf (ok (first, last)) lacks h = range (has_char-Lacks text b'/' lacks) h

  delta-SpanOf :
      (a b : Bytes) (first last : ℕ) (dashed : Bool) (o : Option ℕ)
      → Halves b'/' text a b
      → has_char a b'-' ≡ dashed
      → IsRangeOf min max a first last
      → parse_uint b ≡ o
      → SpanOf (with_delta first (if not dashed then max - 1 else last) o)
  delta-SpanOf a b first last dashed none h q r p = tt
  delta-SpanOf a b first last true (some d) h q r p = elim (Bool-cases (0 == d)) [
    | inl e ↦ rw e tt
    | inr e ↦
        let up : 0 < d = ground arith in
        rw e (steps h (has_char-Contains a b'-' q) r (parse_uint-IsNumber b d p) up)
  ]
  delta-SpanOf a b first last false (some d) h q r p = elim (Bool-cases (0 == d)) [
    | inl e ↦ rw e tt
    | inr e ↦
        let up : 0 < d = ground arith in
        rw e (open_steps h (has_char-Lacks a b'-' q) r (parse_uint-IsNumber b d p) up)
  ]

  stepped-SpanOf :
      (a b : Bytes) (r : Result (ℕ × ℕ))
      → Halves b'/' text a b
      → Within min max a r
      → SpanOf (stepped a b max r)
  stepped-SpanOf a b (err m) h w = tt
  stepped-SpanOf a b (ok (first, last)) h w =
      delta-SpanOf a b first last (has_char a b'-') (parse_uint b) h refl w refl

  incrementer-SpanOf :
      (r : Option (Bytes × Bytes)) → HalvesOf text b'/' r → Returns (incrementer min max r) SpanOf
  incrementer-SpanOf none h = (_, refl, tt)
  incrementer-SpanOf (some (a, b)) h =
      let (r, e, w) = get_range-Within min max a in rw e (_, refl, stepped-SpanOf a b r h w)

  -- What is read is what the syntax says.
  pub read_span-SpanOf : Returns (read_span text min max) SpanOf
  unfolding read_span
  read_span-SpanOf = elim (Bool-cases (has_char text b'/')) [
    | inl has ↦
        rw (has, split_str-fields text b'/')
          (incrementer-SpanOf (halves text b'/') (halves-HalvesOf text b'/' has))
    | inr lacks ↦
        let (r, e, w) = get_range-Within min max text in
        rw (lacks, e) (_, refl, plain-SpanOf r lacks w)
  ]

-- What the syntax says is read.
pub SpanText-read_span :
    (min max : ℕ) (text : Bytes) (s : Span)
    → SpanText min max text s
    → read_span text min max ≡ some (ok s)
unfolding read_span
SpanText-read_span min max text s (range {first = first} {last = last} lacks r) =
    rw (Lacks-has_char text b'/' lacks, IsRangeOf-get_range min max text first last r) refl
SpanText-read_span min max text s
      (steps {left = a} {right = b} {first = first} {last = last} {delta = d} h dashed r n up) =
    let moves : (0 == d) ≡ false = ground (arith, up) in
    rw
      (
        Contains-has_char text b'/' h.separator,
        split_str-fields text b'/',
        Halves-halves text b'/' a b h,
        IsRangeOf-get_range min max a first last r,
        Contains-has_char a b'-' dashed,
        IsNumber-parse_uint b d n,
        moves,
      )
      refl
SpanText-read_span min max text s
      (open_steps {left = a} {right = b} {first = first} {last = last} {delta = d} h lacks r n up) =
    let moves : (0 == d) ≡ false = ground (arith, up) in
    rw
      (
        Contains-has_char text b'/' h.separator,
        split_str-fields text b'/',
        Halves-halves text b'/' a b h,
        IsRangeOf-get_range min max a first last r,
        Lacks-has_char a b'-' lacks,
        IsNumber-parse_uint b d n,
        moves,
      )
      refl

-- A span that the field means, or a message, where it means none.
abbrev pub Meaning : ℕ → ℕ → Bytes → Result Span → Type 0
Meaning min max text (ok s) = SpanText min max text s
Meaning min max text (err m) = (s : Span) → SpanText min max text s → ⊥

SpanOf-Meaning :
    (min max : ℕ) (text : Bytes) (r : Result Span)
    → read_span text min max ≡ some r
    → SpanOf min max text r
    → Meaning min max text r
SpanOf-Meaning min max text (ok s) e h = h
SpanOf-Meaning min max text (err m) e h =
    λ s means. let read = SpanText-read_span min max text s means in cc

-- For every field and bounds, the reading of the field ends with no access outside an array. It gives
-- a span that the field means by the syntax of numbers, ranges and steps, or a message, where the
-- field means no span.
pub read_span-Meaning :
    (text : Bytes) (min max : ℕ) → Returns (read_span text min max) (Meaning min max text)
read_span-Meaning text min max =
    let (r, e, h) = read_span-SpanOf min max text in (r, e, SpanOf-Meaning min max text r e h)
