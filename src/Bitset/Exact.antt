-- ===== src/Bitset/Exact.antt =====
-- The answers of `next_set_bit` and `prev_set_bit` (ccronexpr.c) where the first or last member is
-- known.
use smart_device_svr.Base.{
  ℕ, ◌+◌, ◌*◌, ◌≤◌, ◌<◌, ◌≡◌, ◌∙◌, refl, ap, Bool, true, false, some, Bytes, arith,
}
use smart_device_svr.Bitset.{member, next_set_bit, prev_set_bit}
use smart_device_svr.Bitset.Laws.{IsArray}
use smart_device_svr.Bitset.Search.{
  NoneIn, IsFirst, IsLast, next_set_bit-IsFirst, prev_set_bit-IsLast,
}

module _ (p : ℕ → Bool) (lo hi : ℕ) where
  IsFirst-found :
      (r : ℕ × Bool) (v : ℕ)
      → IsFirst p lo hi r
      → lo ≤ v
      → v < hi
      → p v ≡ true
      → NoneIn p lo v
      → r ≡ (v, false)
  IsFirst-found (i, false) v (a, b, on, none_before) le lt pv before =
      grind (arith, none_before v, before i)
  IsFirst-found (i, true) v (a, none_at) le lt pv before = absurd (grind (arith, none_at v))

  IsFirst-missing : (r : ℕ × Bool) → IsFirst p lo hi r → NoneIn p lo hi → r ≡ (0, true)
  IsFirst-missing (i, false) (a, b, on, _) h = absurd (grind (arith, h i))
  IsFirst-missing (i, true) (e, _) h = rw e refl

  IsLast-found :
      (r : ℕ × Bool) (v : ℕ)
      → IsLast p lo hi r
      → lo ≤ v
      → v < hi
      → p v ≡ true
      → NoneIn p (v + 1) hi
      → r ≡ (v, false)
  IsLast-found (i, false) v (a, b, on, none_after) le lt pv after =
      grind (arith, none_after v, after i)
  IsLast-found (i, true) v (a, none_at) le lt pv after = absurd (grind (arith, none_at v))

  IsLast-missing : (r : ℕ × Bool) → IsLast p lo hi r → NoneIn p lo hi → r ≡ (0, true)
  IsLast-missing (i, false) (a, b, on, _) h = absurd (grind (arith, h i))
  IsLast-missing (i, true) (e, _) h = rw e refl

module _ {n : ℕ} (a : Bytes) (v : IsArray n a) (hn : n ≤ 256) where
  pub next_set_bit_found :
      (max from i : ℕ)
      → max ≤ 8 * n
      → from ≤ i
      → i < max
      → member a i ≡ true
      → NoneIn (member a) from i
      → next_set_bit a max from ≡ some (i, false)
  next_set_bit_found max from i h le lt on before =
      let (r, run, first) = next_set_bit-IsFirst a v hn max from h in
      run ∙ ap some (IsFirst-found (member a) from max r i first le lt on before)

  pub next_set_bit_missing :
      (max from : ℕ)
      → max ≤ 8 * n
      → NoneIn (member a) from max
      → next_set_bit a max from ≡ some (0, true)
  next_set_bit_missing max from h off =
      let (r, run, first) = next_set_bit-IsFirst a v hn max from h in
      run ∙ ap some (IsFirst-missing (member a) from max r first off)

  pub prev_set_bit_found :
      (from to i : ℕ)
      → from < 8 * n
      → to ≤ i
      → i < from + 1
      → member a i ≡ true
      → NoneIn (member a) (i + 1) (from + 1)
      → prev_set_bit a from to ≡ some (i, false)
  prev_set_bit_found from to i h le lt on after =
      let (r, run, last) = prev_set_bit-IsLast a v hn from to h (omega arith) in
      run ∙ ap some (IsLast-found (member a) to (from + 1) r i last le lt on after)
