-- ===== src/Expr/Fields/Laws.antt =====
-- What the six calls of `cron_parse_expr` in ccronexpr.c make of their members of the structure.
use smart_device_svr.Base.{
  ℕ, ◌*◌, ◌/◌, ◌%◌, ◌≤◌, ◌<◌, ◌≡◌, ◌≢◌, ◌∙◌, refl, Bool, true, false, not, ◌⊎◌, inl, inr,
  Bool-cases, Option, none, some, List, [], ◌∷◌, Bytes, arith, All, replicate, get_or-replicate,
  length-replicate, All-replicate, every_below, every_below-at,
}
use smart_device_svr.Bitset.{member, test_bit}
use smart_device_svr.Bitset.Laws.{IsArray}
use smart_device_svr.Expr.{Message, OrError, or_error}
use smart_device_svr.Expr.Hits.{Span, Hits, set_number_hits}
use smart_device_svr.Expr.Hits.Marks.{in_span}
use smart_device_svr.Expr.Hits.Laws.{IsSpan}
use smart_device_svr.Expr.Hits.Outcome.{
  ReadList, pieces, any_span, in_span-bounds, in_span_first, or_cases, Outcome,
  set_number_hits-Outcome,
}

test_bit_table : every_below 8 (λ k. not (test_bit 0 k)) ≡ true
unfolding every_below
test_bit_table = refl

not-true : (b : Bool) → not b ≡ true → b ≡ false
not-true b h = ground arith

zero-test_bit : (k : ℕ) → k < 8 → test_bit 0 k ≡ false
zero-test_bit k h =
    not-true (test_bit 0 k) (every_below-at 8 (λ l. not (test_bit 0 l)) k test_bit_table h)

-- `memset` leaves the empty set.
replicate-member : (n j : ℕ) → member (replicate n 0) j ≡ false
unfolding member
replicate-member n j =
    rw (get_or-replicate {A = ℕ} n (j / 8) 0) (zero-test_bit (j % 8) (omega arith))

replicate-IsArray : (n : ℕ) → IsArray n (replicate n 0)
replicate-IsArray n = record {
  size = length-replicate n 0;
  bytes = All-replicate (λ b. b < 256) n 0 (omega arith);
}

-- The set `p` is what the text says: the union of the spans between its commas, one at least, all
-- within the bounds.
pub record Reads (min max : ℕ) (text : Bytes) (p : ℕ → Bool) : Type 0 where
  pub spans : List Span
  pub read : ReadList min max (pieces text) spans none
  pub valid : All (IsSpan min max) spans
  pub marks : (j : ℕ) → p j ≡ any_span spans j

ReadList-ne-nil :
    (min max : ℕ) (fs : List Bytes) (ss : List Span) → ReadList min max fs ss none → ss ≢ []
ReadList-ne-nil min max [] ss h = absurd (cc)
ReadList-ne-nil min max (f ∷ fs) [] h = absurd h
ReadList-ne-nil min max (f ∷ fs) (s ∷ ss) h = λ e. cc

Outcome-Reads :
    (n min max : ℕ) (text b : Bytes) (spans : List Span) (e : Option Message)
    → ReadList min max (pieces text) spans e
    → Outcome n min max spans (replicate n 0) b
    → e ≡ none
    → Reads min max text (member b)
Outcome-Reads n min max text b spans e reads o q = record {
  spans = spans;
  read = rw q at reads;
  valid = o.valid;
  marks = λ j. o.marks j ∙ rw (replicate-member n j) refl;
}

any_span-bounds :
    (min max : ℕ) (ss : List Span) (j : ℕ)
    → All (IsSpan min max) ss
    → any_span ss j ≡ true
    → (min ≤ j) × (j < max)
any_span-bounds min max [] j v h = absurd (cc)
any_span-bounds min max (s ∷ ss) j (vs, v) h = elim (or_cases (in_span s j) (any_span ss j) h) [
  | inl e ↦ in_span-bounds min max s j vs e
  | inr e ↦ any_span-bounds min max ss j v e
]

any_span_first :
    (min max : ℕ) (ss : List Span)
    → ss ≢ []
    → All (IsSpan min max) ss
    → (j : ℕ) × (any_span ss j ≡ true)
any_span_first min max [] ne v = absurd (ne refl)
any_span_first min max (s ∷ ss) ne (vs, v) = (s.first, rw (in_span_first min max s vs) refl)

module _ {min max : ℕ} {text : Bytes} {p : ℕ → Bool} (r : Reads min max text p) where
  -- What is read lies within the bounds.
  pub Reads-bounds : (j : ℕ) → p j ≡ true → (min ≤ j) × (j < max)
  Reads-bounds j h = any_span-bounds min max r.spans j r.valid (rw (r.marks j) at h)

  pub Reads_outside : (j : ℕ) → (j < min) ⊎ (max ≤ j) → p j ≡ false
  Reads_outside j out = elim (Bool-cases (p j)) [
    | inl on ↦ absurd (omega (arith, Reads-bounds j on))
    | inr off ↦ off
  ]

  -- Something is read.
  pub Reads_member : (j : ℕ) × (p j ≡ true)
  Reads_member =
      let (j, on) =
        any_span_first min max r.spans (ReadList-ne-nil min max (pieces text) r.spans r.read)
          r.valid in
      (j, r.marks j ∙ on)

-- A member after its call: an array of its size, and what the text says unless an error is reported.
abbrev pub Filled : ℕ → ((ℕ → Bool) → Type 0) → Hits → Type 0
Filled n P h = IsArray n h.target × OrError h.error (P (member h.target))

clear_outside :
    (n min max : ℕ) (spans : List Span) (b : Bytes)
    → Outcome n min max spans (replicate n 0) b
    → (j : ℕ) → (j < min) ⊎ (max ≤ j)
    → member b j ≡ false
clear_outside n min max spans b o j out =
    o.marks j
    ∙ rw (replicate-member n j) (elim (Bool-cases (any_span spans j)) [
      | inr off ↦ off
      | inl on ↦ absurd (omega (arith, any_span-bounds min max spans j o.valid on))
    ])

module _ {n min max : ℕ} (hn : n ≤ 256) (hm : max ≤ 8 * n) where
  -- The calls for seconds, minutes and hours, and the first half of the others. Nothing is marked
  -- outside the bounds, also where there is an error.
  pub set_number_hits-Filled :
      (text : Bytes)
      → (h : Hits) × (set_number_hits text (replicate n 0) min max ≡ some h)
        × Filled n (Reads min max text) h
        × ((j : ℕ) → (j < min) ⊎ (max ≤ j) → member h.target j ≡ false)
  set_number_hits-Filled text =
      let (h, e, (spans, reads, o)) =
        set_number_hits-Outcome hn hm text (replicate n 0) (replicate-IsArray n) in
      (
        h,
        e,
        (o.array, or_error h.error (Outcome-Reads n min max text h.target spans h.error reads o)),
        clear_outside n min max spans h.target o,
      )
