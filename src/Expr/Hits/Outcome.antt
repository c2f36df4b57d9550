-- ===== src/Expr/Hits/Outcome.antt =====
-- `set_number_hits` of ccronexpr.c as a whole: it marks the union of the spans that its fields are.
use smart_device_svr.Base.{
  ℕ, ◌*◌, ◌≤◌, ◌<◌, ◌≡◌, ◌∙◌, refl, Bool, true, false, ◌||◌, ◌⊎◌, inl, inr, Bool-cases, Option,
  none, some, List, [], ◌∷◌, Bytes, arith, ltb, if◌then◌else◌, Returns, Returns-at, length, All,
}
use smart_device_svr.Bitset.{member}
use smart_device_svr.Bitset.Laws.{IsArray}
use smart_device_svr.Text.{cron_max_str_len_to_split}
use smart_device_svr.Text.Split.{fields, answer, split_str-fields}
use smart_device_svr.Expr.{Message, Result, ok, err, comma_split_error}
use smart_device_svr.Expr.Hits.{Span, read_span, Hits, set_fields, hits_of, set_number_hits}
use smart_device_svr.Expr.Hits.Marks.{in_span, mark_span-Marked}
use smart_device_svr.Expr.Hits.Syntax.{SpanText}
use smart_device_svr.Expr.Hits.Syntax.Laws.{Meaning, read_span-Meaning}
use smart_device_svr.Expr.Hits.Laws.{IsSpan, SpanOrError, read_span-SpanOrError}

-- The texts before the first faulty one mean the spans; there is a message if there is a faulty one,
-- which means no span.
abbrev pub ReadUpTo : ℕ → ℕ → List Bytes → List Span → Option Message → Type 0
ReadUpTo min max [] [] e = e ≡ none
ReadUpTo min max (f ∷ fs) (s ∷ ss) e = SpanText min max f s × ReadUpTo min max fs ss e
ReadUpTo min max (f ∷ fs) [] (some m) = (s : Span) → SpanText min max f s → ⊥
ReadUpTo min max _ _ _ = ⊥

-- The same, where no text at all is an error.
abbrev pub ReadList : ℕ → ℕ → List Bytes → List Span → Option Message → Type 0
ReadList min max [] ss e = (ss ≡ []) × (e ≡ some comma_split_error)
ReadList min max (f ∷ fs) ss e = ReadUpTo min max (f ∷ fs) ss e

-- The fields between the commas; none where the text is too long for `split_str`.
abbrev pub pieces : Bytes → List Bytes
pieces value = if ltb (length value) cron_max_str_len_to_split then fields b',' value else []

abbrev pub any_span : List Span → ℕ → Bool
any_span [] j = false
any_span (s ∷ ss) j = in_span s j || any_span ss j

-- The array after a call: it has its size, the spans read lie within the bounds, and the marks are
-- the old ones and those of the spans.
pub record Outcome (n min max : ℕ) (spans : List Span) (a a' : Bytes) : Type 0 where
  pub array : IsArray n a'
  pub valid : All (IsSpan min max) spans
  pub marks : (j : ℕ) → member a' j ≡ (member a j || any_span spans j)

pub in_span-bounds :
    (min max : ℕ) (s : Span) (j : ℕ) → IsSpan min max s → in_span s j ≡ true → (min ≤ j) × (j < max)
unfolding in_span
in_span-bounds min max s j v h = ground arith

pub or_cases : (a b : Bool) → (a || b) ≡ true → (a ≡ true) ⊎ (b ≡ true)
or_cases true b h = inl refl
or_cases false b h = inr h

or_assoc : (a b c : Bool) → ((a || b) || c) ≡ (a || (b || c))
or_assoc a b c = ground arith

or_false : (a : Bool) → a ≡ (a || false)
or_false a = ground arith

pub in_span_first : (min max : ℕ) (s : Span) → IsSpan min max s → in_span s s.first ≡ true
unfolding in_span
in_span_first min max s v = ground arith

-- An array in which no span is marked.
untouched : (n min max : ℕ) (a : Bytes) → IsArray n a → Outcome n min max [] a a
untouched n min max a v = record { array = v; valid = tt; marks = λ j. or_false (member a j) }

Outcome-cons :
    (n min max : ℕ) (s : Span) (ss : List Span) (a b c : Bytes)
    → IsSpan min max s
    → ((j : ℕ) → member b j ≡ (member a j || in_span s j))
    → Outcome n min max ss b c
    → Outcome n min max (s ∷ ss) a c
Outcome-cons n min max s ss a b c v m o = record {
  array = o.array;
  valid = (v, o.valid);
  marks = λ j. o.marks j ∙ rw (m j) (or_assoc (member a j) _ _);
}

-- What a call makes of the texts that it is given.
abbrev Marks : ℕ → ℕ → ℕ → (List Span → Option Message → Type 0) → Bytes → Hits → Type 0
Marks n min max Read a h =
    (spans : List Span) × Read spans h.error × Outcome n min max spans a h.target

module _ {n min max : ℕ} (hn : n ≤ 256) (hm : max ≤ 8 * n) where
  first_field :
      (f : Bytes) (fs : List Bytes) (a : Bytes) (r : Result Span)
      → IsArray n a
      → read_span f min max ≡ some r
      → Meaning min max f r
      → SpanOrError min max r
      → ((b : Bytes)
          → IsArray n b
          → Returns (set_fields fs b min max) (Marks n min max (ReadUpTo min max fs) b))
      → Returns (set_fields (f ∷ fs) a min max) (Marks n min max (ReadUpTo min max (f ∷ fs)) a)
  unfolding set_fields
  first_field f fs a (err m) v e means h rest = rw e (_, refl, ([], means, untouched n min max a v))
  first_field f fs a (ok s) v e means h rest =
      let (b, marked, (vb, m)) =
        mark_span-Marked hn s a v (omega (arith, h.ends)) h.moves (omega (arith, h.step_fits)) in
      let (o, run, (ss, reads, outcome)) = rest b vb in
      rw (set_fields, e, marked)
        (o, run, (s ∷ ss, (means, reads), Outcome-cons n min max s ss a b o.target h m outcome))

  set_fields-Outcome :
      (fs : List Bytes) (a : Bytes)
      → IsArray n a
      → Returns (set_fields fs a min max) (Marks n min max (ReadUpTo min max fs) a)
  set_fields-Outcome [] a v = unfold set_fields in (_, refl, ([], refl, untouched n min max a v))
  set_fields-Outcome (f ∷ fs) a v =
      let (r, e, h) = read_span-SpanOrError f min max in
      let means =
        Returns-at (Meaning min max f) (read_span f min max) r (read_span-Meaning f min max) e in
      first_field f fs a r v e means h (set_fields-Outcome fs)

  hits_of-Outcome :
      (texts : List Bytes) (a : Bytes)
      → IsArray n a
      → Returns (hits_of (answer texts) a min max) (Marks n min max (ReadList min max texts) a)
  hits_of-Outcome [] a v = (_, refl, ([], (refl, refl), untouched n min max a v))
  hits_of-Outcome (f ∷ fs) a v = set_fields-Outcome (f ∷ fs) a v

  -- On an array of `n` bytes, `n` at most 256, with room for the numbers below `max`,
  -- `set_number_hits` ends without a fault. It marks the union of the spans that the fields between
  -- the commas mean by the syntax of numbers, ranges and steps, up to the first field that means none,
  -- at which it reports a message. These spans lie within the bounds, and no other bit changes. It
  -- reports no error only where there is a field and all of them mean spans.
  pub set_number_hits-Outcome :
      (value a : Bytes)
      → IsArray n a
      → Returns (set_number_hits value a min max) (λ h.
        (spans : List Span) × ReadList min max (pieces value) spans h.error
        × Outcome n min max spans a h.target)
  unfolding set_number_hits
  set_number_hits-Outcome value a v =
      elim (Bool-cases (ltb (length value) cron_max_str_len_to_split)) [
        | inl short ↦
            rw (split_str-fields value b',', short) (hits_of-Outcome (fields b',' value) a v)
        | inr long ↦ rw (split_str-fields value b',', long) (hits_of-Outcome [] a v)
      ]
