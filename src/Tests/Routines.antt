-- ===== src/Tests/Routines.antt =====
-- The bit arrays and the list of resets of ccronexpr.c at concrete inputs.
use smart_device_svr.Base.{ℕ, ◌≡◌, not, ◌&&◌, ◌||◌, arith, Returns, ◌==◌}
use smart_device_svr.Bitset.{member, cron_set_bit, cron_del_bit, next_set_bit, prev_set_bit}
use smart_device_svr.Bitset.Laws.{IsArray, cron_set_bit-member, cron_del_bit-member}
use smart_device_svr.Bitset.Search.{IsFirst, IsLast, next_set_bit-IsFirst, prev_set_bit-IsLast}
use smart_device_svr.Tests.Samples.{hours, hours-IsArray}

next_set_bit-IsFirst_example : Returns (next_set_bit hours 24 10) (IsFirst (member hours) 10 24)
next_set_bit-IsFirst_example =
    next_set_bit-IsFirst {n = 3} hours hours-IsArray (omega arith) 24 10 (omega arith)

prev_set_bit-IsLast_example : Returns (prev_set_bit hours 12 0) (IsLast (member hours) 0 13)
prev_set_bit-IsLast_example =
    prev_set_bit-IsLast {n = 3} hours hours-IsArray (omega arith) 12 0 (omega arith) (omega arith)

cron_set_bit-member_example :
    Returns
      (cron_set_bit hours 22)
      (λ a'. IsArray 3 a' × ((j : ℕ) → member a' j ≡ ((22 == j) || member hours j)))
cron_set_bit-member_example =
    cron_set_bit-member {n = 3} hours 22 hours-IsArray (omega arith) (omega arith)

cron_del_bit-member_example :
    Returns
      (cron_del_bit hours 9)
      (λ a'. IsArray 3 a' × ((j : ℕ) → member a' j ≡ (not (9 == j) && member hours j)))
cron_del_bit-member_example =
    cron_del_bit-member {n = 3} hours 9 hours-IsArray (omega arith) (omega arith)
