-- ===== src/Bitset.antt =====
-- The bit arrays of `cron_expr` (ccronexpr.c): an array of bytes is the list of its values. A read
-- or a write outside the array is the fault `none`. The arrays are never NULL, as they are members
-- of one structure, so the NULL tests of the two searches are left out.
pub mod Exact
pub mod Laws
pub mod Search
use Prim.Native.Nat.{bit_and, bit_or}
use smart_device_svr.Base.{
  ℕ, zero, suc, ◌+◌, ◌-◌, ◌/◌, ◌%◌, ◌^◌, Bool, true, false, not, Option, none, some, Bytes, ltb,
  ◌==◌, if◌then◌else◌, length, get_elem?, get_or, set, ◌>>=◌,
}

-- `rbyte[j]`, as a read and as a write.
abbrev pub load : Bytes → ℕ → Option ℕ
load = get_elem?

abbrev pub store : Bytes → ℕ → ℕ → Option Bytes
store rbyte j v = if ltb j (length rbyte) then some (set rbyte j v) else none

-- The byte operations: `b | (1 << k)`, `b & ~(1 << k)` and `b & (1 << k)` at k below 8.
abbrev pub or_bit : ℕ → ℕ → ℕ
or_bit b k = bit_or b (2 ^ k)

abbrev pub and_not_bit : ℕ → ℕ → ℕ
and_not_bit b k = bit_and b (255 - 2 ^ k)

abbrev pub test_bit : ℕ → ℕ → Bool
test_bit b k = not (bit_and b (2 ^ k) == 0)

unfoldable pub cron_set_bit : Bytes → ℕ → Option Bytes
cron_set_bit rbyte idx =
    let j = idx / 8 % 256 in
    let k = idx % 8 % 256 in load rbyte j >>= λ b. store rbyte j (or_bit b k)

unfoldable pub cron_del_bit : Bytes → ℕ → Option Bytes
cron_del_bit rbyte idx =
    let j = idx / 8 % 256 in
    let k = idx % 8 % 256 in load rbyte j >>= λ b. store rbyte j (and_not_bit b k)

unfoldable pub cron_get_bit : Bytes → ℕ → Option Bool
cron_get_bit rbyte idx =
    let j = idx / 8 % 256 in
    let k = idx % 8 % 256 in load rbyte j >>= λ b. some (if test_bit b k then true else false)

-- The loop of `next_set_bit` at `i`, with `left` rounds to go. The answer is the value returned and
-- the flag `*notfound`.
unfoldable pub next_set_from : Bytes → ℕ → ℕ → Option (ℕ × Bool)
unfolding cron_get_bit
next_set_from bits zero i = some (0, true)
next_set_from bits (suc left) i =
    let rest = next_set_from bits left (i + 1) in
    cron_get_bit bits i >>= λ b. if b then some (i, false) else rest

unfoldable pub next_set_bit : Bytes → ℕ → ℕ → Option (ℕ × Bool)
unfolding next_set_from
next_set_bit bits max from_index = next_set_from bits (max - from_index) from_index

-- The loop of `prev_set_bit` goes down from `to + left - 1` to `to`.
unfoldable pub prev_set_from : Bytes → ℕ → ℕ → Option (ℕ × Bool)
unfolding cron_get_bit
prev_set_from bits zero to = some (0, true)
prev_set_from bits (suc left) to =
    let rest = prev_set_from bits left to in
    cron_get_bit bits (to + left) >>= λ b. if b then some (to + left, false) else rest

unfoldable pub prev_set_bit : Bytes → ℕ → ℕ → Option (ℕ × Bool)
unfolding prev_set_from
prev_set_bit bits from_index to_index = prev_set_from bits (from_index + 1 - to_index) to_index

-- The array as a set: bit `idx` of it, and false outside.
unfoldable pub member : Bytes → ℕ → Bool
member rbyte idx = test_bit (get_or rbyte (idx / 8) 0) (idx % 8)
