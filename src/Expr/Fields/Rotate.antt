-- ===== src/Expr/Fields/Rotate.antt =====
-- The moves of single bits in `set_months` and `set_days_of_week` of ccronexpr.c.
use native.Mathlib.Decide.{ℕ_discrete}
use smart_device_svr.Base.{
  ℕ, zero, suc, ◌+◌, ◌-◌, ◌*◌, ◌≤◌, ◌<◌, ◌≡◌, ◌∙◌, refl, Bool, false, not, ◌&&◌, ◌||◌, inl, inr,
  Bool-cases, Bytes, arith, ltb, ◌==◌, if◌then◌else◌, Returns,
}
use smart_device_svr.Bitset.{member}
use smart_device_svr.Bitset.Laws.{
  IsArray, cron_get_bit-member, cron_set_bit-member, cron_del_bit-member,
}
use smart_device_svr.Expr.Fields.{move_bit, rotate}

-- The set `p` once its member `from`, if it is one, has become `to`.
abbrev pub moved : ℕ → ℕ → (ℕ → Bool) → ℕ → Bool
moved from to p j = not (from == j) && ((p from && (to == j)) || p j)

moved_none : (from to : ℕ) (p : ℕ → Bool) (j : ℕ) → p from ≡ false → p j ≡ moved from to p j
moved_none from to p j off = elim (ℕ_discrete from j) [
  | yes e ↦ rw (← e, off) (ground arith)
  | no e ↦ rw off (ground arith)
]

-- The set after the loop of `set_months` has reached `i`: all below have moved down by one.
abbrev pub shifted : ℕ → (ℕ → Bool) → ℕ → Bool
shifted i p j = if ltb (j + 1) i then p (j + 1) else if j + 1 == i then false else p j

module _ {n : ℕ} (hn : n ≤ 256) where
  pub move_bit-moved :
      (from to : ℕ) (a : Bytes)
      → IsArray n a
      → from < 8 * n
      → to < 8 * n
      → Returns
          (move_bit from to a)
          (λ b. IsArray n b × ((j : ℕ) → member b j ≡ moved from to (member a) j))
  unfolding move_bit
  move_bit-moved from to a v hf ht = elim (Bool-cases (member a from)) [
    | inl on ↦
        let (b, set, (vb, mb)) = cron_set_bit-member a to v hn ht in
        let (c, del, (vc, mc)) = cron_del_bit-member b from vb hn hf in
        rw (cron_get_bit-member a from v hn hf, on, set, del)
          (c, refl, (vc, λ j. mc j ∙ rw (mb j) refl))
    | inr off ↦
        rw (cron_get_bit-member a from v hn hf, off)
          (a, refl, (v, λ j. rw off at (moved_none from to (member a) j off)))
  ]

-- One round of the loop.
shifted_step :
    (i : ℕ) (p q : ℕ → Bool) (j : ℕ)
    → 1 ≤ i
    → ((k : ℕ) → q k ≡ shifted i p k)
    → moved i (i - 1) q j ≡ shifted (i + 1) p j
shifted_step i p q j pos h = rw (h i, h j) (ground arith)

module _ {n : ℕ} (hn : n ≤ 256) where
  -- The loop from round `i` on.
  pub rotate-shifted :
      (left i end : ℕ) (p : ℕ → Bool) (a : Bytes)
      → 1 ≤ i
      → i + left ≡ end
      → end ≤ 8 * n
      → IsArray n a
      → ((k : ℕ) → member a k ≡ shifted i p k)
      → Returns (rotate left i a) (λ b. IsArray n b × ((k : ℕ) → member b k ≡ shifted end p k))
  unfolding rotate
  rotate-shifted zero i end p a pos e le v h =
      let q : i ≡ end = omega arith in (a, refl, (v, λ k. rw q at (h k)))
  rotate-shifted (suc left) i end p a pos e le v h =
      let (b, run, (vb, mb)) = move_bit-moved hn i (i - 1) a v (omega arith) (omega arith) in
      rw run (
        rotate-shifted left (i + 1) end p b (omega arith) (omega arith) le vb
          (λ k. mb k ∙ shifted_step i p (member a) k pos h))

-- Before the first round nothing has moved, as bit 0 is clear.
pub shifted_start : (p : ℕ → Bool) (k : ℕ) → p 0 ≡ false → p k ≡ shifted 1 p k
shifted_start p k h = ground arith
