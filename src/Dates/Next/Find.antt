-- ===== src/Dates/Next/Find.antt =====
-- `find_next` of ccronexpr.c, on every branch, in terms of the set that the array stands for.
use smart_device_svr.Base.{
  ℕ, ◌*◌, ◌≤◌, ◌<◌, ◌≡◌, ◌∙◌, refl, Bool, true, false, not, ◌||◌, Option, some, List, Bytes, arith,
  ◌==◌, ==_refl, if◌then◌else◌,
}
use smart_device_svr.Base.Int.{pos}
use smart_device_svr.Bitset.{member, next_set_bit}
use smart_device_svr.Bitset.Laws.{IsArray}
use smart_device_svr.Bitset.Search.{NoneIn}
use smart_device_svr.Bitset.Exact.{next_set_bit_found, next_set_bit_missing}
use smart_device_svr.Calendar.{Tm, Clock, Field, M, pure, ◌>>◌, add_to_field, reset_min}
use smart_device_svr.Calendar.Monad.{then-then-pure}
use smart_device_svr.Dates.Next.{roll_over, write_value, find_next}

ne_test : (a b : ℕ) → b < a → (a == b) ≡ false
ne_test a b h = ground arith

lt_test : (a b : ℕ) → a < b → (a == b) ≡ false
lt_test a b h = ground arith

module _ (c : Clock) {n max : ℕ} (bits : Bytes) (v : IsArray n bits) (hn : n ≤ 256)
    (hm : max ≤ 8 * n) (field next_field : Field) (lower : List (Option Field)) (t : Tm) where
  -- Where the value is in the set, `find_next` changes nothing and answers the value.
  pub find_next_here :
      (value : ℕ)
      → value < max
      → member bits value ≡ true
      → find_next c bits max value field next_field lower t ≡ some (t, some value)
  unfolding find_next
  find_next_here value lt on =
      rw
        (
          next_set_bit_found bits v hn max value value hm (omega arith) lt on
              (λ j a b. absurd (omega arith)),
          ==_refl value,
        )
        refl

  -- For an array of at most 256 bytes with room for the numbers below `max`, where the least
  -- member `i` from the value on is greater than the value and below `max`: `find_next` writes
  -- `i` and resets the lower fields.
  pub find_next_later :
      (value i : ℕ)
      → value < i
      → i < max
      → member bits i ≡ true
      → NoneIn (member bits) value i
      → find_next c bits max value field next_field lower t ≡ write_value c field i lower t
  unfolding find_next
  find_next_later value i gt lt on before =
      rw
        (next_set_bit_found bits v hn max value i hm (omega arith) lt on before, ne_test i value gt)
        refl

  roll_over_lem :
      (i : ℕ)
      → next_set_bit bits max 0 ≡ some (i, false)
      → roll_over c bits max field next_field
        ≡ (do add_to_field c next_field (pos 1); reset_min c field; pure (i, false))
  unfolding roll_over
  roll_over_lem i e = rw e refl

  -- For an array of at most 256 bytes with room for the numbers below `max`, where no member is
  -- from the value to below `max`, and `i` is the least member below `max`: `find_next` adds one
  -- to the next higher field, resets its own field, writes `i`, and resets the lower fields, and
  -- an error of a step ends it there.
  pub find_next_rolls :
      (value i : ℕ)
      → NoneIn (member bits) value max
      → i < max
      → member bits i ≡ true
      → NoneIn (member bits) 0 i
      → find_next c bits max value field next_field lower t
        ≡ (do add_to_field c next_field (pos 1); reset_min c field; write_value c field i lower) t
  unfolding find_next
  find_next_rolls value i off lt on before = rw (next_set_bit_missing bits v hn max value hm off) (
      rw (roll_over_lem i (next_set_bit_found bits v hn max 0 i hm (omega arith) lt on before)) (
        then-then-pure (add_to_field c next_field (pos 1)) (reset_min c field) (i, false)
          (choose value) t
        ∙ rw (lt_test i value below) refl))
    where
      choose : ℕ → ℕ × Bool → M ℕ
      choose value last =
          if last.1 || not (last.0 == value) then write_value c field last.0 lower else pure last.0

      below : i < value
      below = grind (arith, off i)
