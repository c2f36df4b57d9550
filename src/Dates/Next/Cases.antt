-- ===== src/Dates/Next/Cases.antt =====
-- The three ways that `find_next` of ccronexpr.c goes, where the set has a member.
use native.Mathlib.Decide.{ℕ_discrete}
use smart_device_svr.Base.{ℕ, ◌*◌, ◌≤◌, ◌<◌, ◌≡◌, Bool, true, false, Bytes, arith}
use smart_device_svr.Bitset.{member}
use smart_device_svr.Bitset.Laws.{IsArray}
use smart_device_svr.Bitset.Search.{NoneIn, IsFirst, next_set_bit-IsFirst}

module _ {P : Type 0} {n max : ℕ} (bits : Bytes) (array : IsArray n bits) (small : n ≤ 256)
    (room : max ≤ 8 * n) (value : ℕ) (here : value < max → member bits value ≡ true → P)
    (later : (i : ℕ)
      → value < i
      → i < max
      → member bits i ≡ true
      → NoneIn (member bits) value i
      → P)
    (rolls : (i : ℕ)
      → NoneIn (member bits) value max
      → i < max
      → member bits i ≡ true
      → NoneIn (member bits) 0 i
      → i < value
      → P)
    (some_value : ℕ) (below : some_value < max) (on : member bits some_value ≡ true) where
  wrapped : NoneIn (member bits) value max → (r : ℕ × Bool) → IsFirst (member bits) 0 max r → P
  wrapped off (i, false) (_, lt, is_member, before) =
      rolls i off lt is_member before (grind (arith, off i))
  wrapped off (i, true) (_, none_at) = absurd (grind (arith, none_at some_value, on, below))

  found : (r : ℕ × Bool) → IsFirst (member bits) value max r → P
  found (i, false) (le, lt, is_member, before) = elim (ℕ_discrete value i) [
    | yes same ↦ here (omega arith) (rw same is_member)
    | no other ↦ later i (omega arith) lt is_member before
  ]
  found (i, true) (_, off) =
      let (r, _, first) = next_set_bit-IsFirst bits array small max 0 room in wrapped off r first

  pub find_next_cases : P
  find_next_cases =
      let (r, _, first) = next_set_bit-IsFirst bits array small max value room in found r first
