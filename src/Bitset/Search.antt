-- ===== src/Bitset/Search.antt =====
-- `next_set_bit` and `prev_set_bit` of ccronexpr.c against the set that the array stands for.
use native.Mathlib.Decide.{ℕ_discrete, dec_le}
use smart_device_svr.Base.{
  ℕ, zero, suc, ◌+◌, ◌-◌, ◌*◌, ◌≤◌, ◌<◌, ◌≡◌, refl, Bool, true, false, Bytes, arith, Returns,
  Bool-cases, inl, inr,
}
use smart_device_svr.Bitset.{member, next_set_from, next_set_bit, prev_set_from, prev_set_bit}
use smart_device_svr.Bitset.Laws.{IsArray, cron_get_bit-member}

-- `p` fails everywhere from `lo` to below `hi`.
abbrev pub NoneIn : (ℕ → Bool) → ℕ → ℕ → Type 0
NoneIn p lo hi = (j : ℕ) → lo ≤ j → j < hi → p j ≡ false

-- The answer of a search upwards for the first member from `lo` to below `hi`.
abbrev pub IsFirst : (ℕ → Bool) → ℕ → ℕ → ℕ × Bool → Type 0
IsFirst p lo hi (i, false) = (lo ≤ i) × (i < hi) × (p i ≡ true) × NoneIn p lo i
IsFirst p lo hi (i, true) = (i ≡ 0) × NoneIn p lo hi

-- The answer of a search downwards for the last one.
abbrev pub IsLast : (ℕ → Bool) → ℕ → ℕ → ℕ × Bool → Type 0
IsLast p lo hi (i, false) = (lo ≤ i) × (i < hi) × (p i ≡ true) × NoneIn p (i + 1) hi
IsLast p lo hi (i, true) = (i ≡ 0) × NoneIn p lo hi

NoneIn-cons : (p : ℕ → Bool) (lo hi : ℕ) → p lo ≡ false → NoneIn p (lo + 1) hi → NoneIn p lo hi
NoneIn-cons p lo hi e h j le lt = elim (ℕ_discrete lo j) [
  | yes q ↦ rw (← q) e
  | no q ↦ h j (omega arith) lt
]

NoneIn-snoc : (p : ℕ → Bool) (lo hi : ℕ) → p hi ≡ false → NoneIn p lo hi → NoneIn p lo (hi + 1)
NoneIn-snoc p lo hi e h j le lt = elim (ℕ_discrete hi j) [
  | yes q ↦ rw (← q) e
  | no q ↦ h j le (omega arith)
]

IsFirst-cons :
    (p : ℕ → Bool) (lo hi : ℕ) (r : ℕ × Bool)
    → p lo ≡ false
    → IsFirst p (lo + 1) hi r
    → IsFirst p lo hi r
IsFirst-cons p lo hi (i, false) e (a, b, c, d) = (omega arith, b, c, NoneIn-cons p lo i e d)
IsFirst-cons p lo hi (i, true) e (a, b) = (a, NoneIn-cons p lo hi e b)

IsLast-snoc :
    (p : ℕ → Bool) (lo hi : ℕ) (r : ℕ × Bool)
    → p hi ≡ false
    → IsLast p lo hi r
    → IsLast p lo (hi + 1) r
IsLast-snoc p lo hi (i, false) e (a, b, c, d) = (a, omega arith, c, NoneIn-snoc p (i + 1) hi e d)
IsLast-snoc p lo hi (i, true) e (a, b) = (a, NoneIn-snoc p lo hi e b)

module _ {n : ℕ} (a : Bytes) (v : IsArray n a) (hn : n ≤ 256) where
  next_set_from-IsFirst :
      (left i hi : ℕ)
      → i + left ≡ hi
      → hi ≤ 8 * n
      → Returns (next_set_from a left i) (IsFirst (member a) i hi)
  unfolding next_set_from
  next_set_from-IsFirst zero i hi e h = ((0, true), refl, (refl, λ j le lt. absurd (omega arith)))
  next_set_from-IsFirst (suc left) i hi e h =
      rw (cron_get_bit-member a i v hn (omega arith)) elim (Bool-cases (member a i)) [
        | inl on ↦
            rw on
              ((i, false), refl, (omega arith, omega arith, on, λ j le lt. absurd (omega arith)))
        | inr off ↦
            let (r, returns, first) = next_set_from-IsFirst left (i + 1) hi (omega arith) h in
            rw off (r, returns, IsFirst-cons (member a) i hi r off first)
      ]

  prev_set_from-IsLast :
      (left lo : ℕ)
      → lo + left ≤ 8 * n
      → Returns (prev_set_from a left lo) (IsLast (member a) lo (lo + left))
  unfolding prev_set_from
  prev_set_from-IsLast zero lo h = ((0, true), refl, (refl, λ j le lt. absurd (omega arith)))
  prev_set_from-IsLast (suc left) lo h =
      let up : lo + suc left ≡ lo + left + 1 = omega arith in
      rw (up, cron_get_bit-member a (lo + left) v hn (omega arith))
        elim (Bool-cases (member a (lo + left))) [
          | inl on ↦ rw on (
            (lo + left, false),
            refl,
            (omega arith, omega arith, on, λ j le lt. absurd (omega arith)),
          )
          | inr off ↦
              let (r, returns, last) = prev_set_from-IsLast left lo (omega arith) in
              rw off (r, returns, IsLast-snoc (member a) lo (lo + left) r off last)
        ]

  -- On an array of at most 256 bytes with room for the numbers below `max`, the search upwards
  -- ends with no access outside the array, and finds the first member from `from` to below
  -- `max`, or reports that there is none.
  pub next_set_bit-IsFirst :
      (max from : ℕ) → max ≤ 8 * n → Returns (next_set_bit a max from) (IsFirst (member a) from max)
  unfolding next_set_bit
  next_set_bit-IsFirst max from h = elim (dec_le from max) [
    | yes le ↦ next_set_from-IsFirst (max - from) from max (omega arith) h
    | no gt ↦
        let z : max - from ≡ 0 = omega arith in
        rw z ((0, true), refl, (refl, λ j le lt. absurd (omega arith)))
  ]

  -- On an array of at most 256 bytes with room for `from`, and for `to` at most `from + 1`, the
  -- search downwards ends with no access outside the array, and finds the last member from `to`
  -- to `from`, both included, or reports that there is none.
  pub prev_set_bit-IsLast :
      (from to : ℕ)
      → from < 8 * n
      → to ≤ from + 1
      → Returns (prev_set_bit a from to) (IsLast (member a) to (from + 1))
  unfolding prev_set_bit
  prev_set_bit-IsLast from to h le =
      let e : to + (from + 1 - to) ≡ from + 1 = omega arith in
      rw e at (prev_set_from-IsLast (from + 1 - to) to (omega arith))
