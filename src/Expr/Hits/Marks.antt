-- ===== src/Expr/Hits/Marks.antt =====
-- The loops of `set_number_hits` in ccronexpr.c that set the bits of a span.
use native.Mathlib.Nat.{mod-eq_of_lt, mod-eq-sub-mod}
use smart_device_svr.Base.{
  ℕ, zero, suc, ◌+◌, ◌-◌, ◌*◌, ◌%◌, ◌^◌, ◌≤◌, ◌<◌, ◌≡◌, ◌∙◌, refl, ap, Bool, false, ◌&&◌, ◌||◌, inl,
  inr, Bool-cases, Bytes, arith, leb, leb→le, leb→gt, ◌==◌, Returns,
}
use smart_device_svr.Bitset.{member}
use smart_device_svr.Bitset.Laws.{IsArray, cron_set_bit-member}
use smart_device_svr.Expr.Hits.{Span, mark, mark_span}

-- The values of the arithmetic progression `first, first + step, …` up to `last`.
unfoldable pub in_span : Span → ℕ → Bool
in_span s j = leb s.first j && leb j s.last && ((j - s.first) % s.step == 0)

abbrev from : Span → ℕ → Span
from s i = record s { first = i }

mod_far : (i d j : ℕ) → i + d ≤ j → (j - i) % d ≡ (j - (i + d)) % d
mod_far i d j h = mod-eq-sub-mod {n = j - i} {m = d} (omega arith) ∙ ap (λ k. k % d) (omega arith)

mod_near : (i d j : ℕ) → i ≤ j → j < i + d → (j - i) % d ≡ j - i
mod_near i d j h lt = mod-eq_of_lt (omega arith)

-- A span is its first value and the span that begins a step later.
in_span_step :
    (s : Span) (j : ℕ)
    → 1 ≤ s.step
    → s.first ≤ s.last
    → in_span s j ≡ ((s.first == j) || in_span (from s (s.first + s.step)) j)
unfolding in_span
in_span_step s j pos le = ground (arith, mod_far s.first s.step j, mod_near s.first s.step j)

in_span_empty : (s : Span) (j : ℕ) → s.last < s.first → in_span s j ≡ false
unfolding in_span
in_span_empty s j lt = ground arith

-- The marks of a span: the bits that were set, and those of its values.
abbrev pub Marked : ℕ → Bytes → Span → Bytes → Type 0
Marked n a s a' = IsArray n a' × ((j : ℕ) → member a' j ≡ (member a j || in_span s j))

or_regroup : (a b c : Bool) → ((a || b) || c) ≡ (b || (a || c))
or_regroup a b c = ground arith

no_wrap : (i step : ℕ) → i + step < 2 ^ 32 → (i + step) % 2 ^ 32 ≡ i + step
no_wrap i step h = mod-eq_of_lt h

or_none : (b : Bool) → b ≡ (b || false)
or_none b = ground arith

module _ {n : ℕ} (hn : n ≤ 256) where
  mark-Marked :
      (fuel i last step : ℕ) (a : Bytes)
      → IsArray n a
      → last < 8 * n
      → 1 ≤ step
      → step < 2 ^ 31
      → last + 1 - i < fuel
      → Returns
          (mark fuel i last step a)
          (Marked n a (record { first = i; last = last; step = step }))
  unfolding mark
  mark-Marked zero i last step a v hl pos hs hf = absurd (omega arith)
  mark-Marked (suc fuel) i last step a v hl pos hs hf = elim (Bool-cases (leb i last)) [
    | inl go ↦
        let le : i ≤ last = leb→le i last go in
        let s : Span = record { first = i; last = last; step = step } in
        let (b, set, (vb, one)) = cron_set_bit-member a i v hn (omega arith) in
        let (c, marks, (vc, others)) =
          mark-Marked fuel (i + step) last step b vb hl pos hs (omega arith) in
        rw (mark, go, set, no_wrap i step (omega arith))
          (
            c,
            marks,
            (vc, λ j. others j ∙ rw (one j, in_span_step s j pos le) (or_regroup (i == j) _ _)),
          )
    | inr end ↦
        let s : Span = record { first = i; last = last; step = step } in
        rw (mark, end)
          (a, refl, (v, λ j. rw (in_span_empty s j (leb→gt i last end)) (or_none (member a j))))
  ]

  -- On an array of `n` bytes, `n` at most 256, and for a span that ends below `8 * n` with a
  -- step from 1 to below 2^31, the loop that marks the span ends with no write outside the
  -- array. It adds the values of the span to the set, and changes no other bit.
  pub mark_span-Marked :
      (s : Span) (a : Bytes)
      → IsArray n a
      → s.last < 8 * n
      → 1 ≤ s.step
      → s.step < 2 ^ 31
      → Returns (mark_span s a) (Marked n a s)
  unfolding mark_span
  mark_span-Marked s a v hl pos hs =
      mark-Marked (s.last + 2) s.first s.last s.step a v hl pos hs (omega arith)
