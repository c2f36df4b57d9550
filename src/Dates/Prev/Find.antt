-- ===== src/Dates/Prev/Find.antt =====
-- `find_prev` of ccronexpr.c where the set has a number that is not above the value.
use smart_device_svr.Base.{
  ℕ, ◌+◌, ◌*◌, ◌≤◌, ◌<◌, ◌≡◌, refl, true, false, Option, some, List, Bytes, arith, ◌==◌, ==_refl,
}
use smart_device_svr.Bitset.{member}
use smart_device_svr.Bitset.Laws.{IsArray}
use smart_device_svr.Bitset.Search.{NoneIn}
use smart_device_svr.Bitset.Exact.{prev_set_bit_found}
use smart_device_svr.Calendar.{Tm, Clock, Field}
use smart_device_svr.Dates.Prev.{write_value, find_prev}

lt_test : (a b : ℕ) → a < b → (a == b) ≡ false
lt_test a b h = ground arith

module _ (c : Clock) {n max : ℕ} (bits : Bytes) (v : IsArray n bits) (hn : n ≤ 256)
    (hm : max ≤ 8 * n) (field next_field : Field) (lower : List (Option Field)) (t : Tm) where
  -- Where the value is in the set, `find_prev` changes nothing and answers the value.
  pub find_prev_here :
      (value : ℕ)
      → value < max
      → member bits value ≡ true
      → find_prev c bits max value field next_field lower t ≡ some (t, some value)
  unfolding find_prev
  find_prev_here value lt on =
      rw
        (
          prev_set_bit_found bits v hn value 0 value (omega arith) (omega arith) (omega arith) on
              (λ j a b. absurd (omega arith)),
          ==_refl value,
        )
        refl

  -- For an array of at most 256 bytes with room for the numbers below `max`, and a value below
  -- `max`, where the greatest member `i` up to the value is less than it: `find_prev` writes `i`
  -- and carries the lower fields to their ends.
  pub find_prev_earlier :
      (value i : ℕ)
      → value < max
      → i < value
      → member bits i ≡ true
      → NoneIn (member bits) (i + 1) (value + 1)
      → find_prev c bits max value field next_field lower t ≡ write_value c field i lower t
  unfolding find_prev
  find_prev_earlier value i lt less on after =
      rw
        (
          prev_set_bit_found bits v hn value 0 i (omega arith) (omega arith) (omega arith) on after,
          lt_test i value less,
        )
        refl
