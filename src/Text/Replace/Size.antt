-- ===== src/Text/Replace/Size.antt =====
-- The arithmetic of the buffer size in `str_replace` of ccronexpr.c, modulo `2 ^ 64`.
use native.Mathlib.Nat.{mod-eq_of_lt, add-mul-mod_self_left, add-mod_right}
use native.Mathlib.Decide.{dec_le}
use smart_device_svr.Base.{ℕ, zero, suc, ◌+◌, ◌-◌, ◌*◌, ◌%◌, ◌<◌, ◌≡◌, ◌∙◌, ap, arith}

module _ (M L W R T : ℕ) where
  -- `with` is at least as long as `rep`.
  size_growing :
      (n d : ℕ) → W ≡ R + d → T + n * R ≡ L + n * W → T + 1 < M → (L + d * n + 1) % M ≡ T + 1
  size_growing n d w t fits =
      let e : L + d * n + 1 ≡ T + 1 = grind arith in ap (λ k. k % M) e ∙ mod-eq_of_lt fits

  -- `rep` is the longer one, by `d`.
  size_shrinking :
      (n d c : ℕ)
      → R ≡ W + d
      → M ≡ c + d
      → T + n * R ≡ L + n * W
      → T + 1 < M
      → (L + c * n + 1) % M ≡ T + 1
  size_shrinking n d c w m t fits =
      let r : n * R ≡ n * W + n * d = omega (arith, ap (λ (k : ℕ). n * k) w) in
      let e : L + c * n + 1 ≡ T + 1 + M * n = omega (arith, ap (λ (k : ℕ). k * n) m) in
      ap (λ k. k % M) e ∙ add-mul-mod_self_left (T + 1) M n ∙ mod-eq_of_lt fits

pub size_wrap :
    (M L W R T n : ℕ)
    → R < M
    → T + n * R ≡ L + n * W
    → L + n * W + 1 < M
    → (L + (W + M - R) % M * n + 1) % M ≡ T + 1
size_wrap M L W R T zero hr t fits =
    let e : L + (W + M - R) % M * 0 + 1 ≡ T + 1 = omega arith in
    ap (λ k. k % M) e ∙ mod-eq_of_lt (omega arith)
size_wrap M L W R T (suc n) hr t fits = elim (dec_le R W) [
  | yes le ↦
      let d : (W + M - R) % M ≡ W - R =
        ap (λ k. k % M) (let q : W + M - R ≡ W - R + M = omega arith in q)
        ∙ add-mod_right (W - R) M
        ∙ mod-eq_of_lt (grind arith) in
      rw d (size_growing M L W R T (suc n) (W - R) (omega arith) t (omega arith))
  | no gt ↦
      let d : (W + M - R) % M ≡ M - (R - W) =
        ap (λ k. k % M) (let q : W + M - R ≡ M - (R - W) = omega arith in q)
        ∙ mod-eq_of_lt (omega arith) in
      rw d (
        size_shrinking M L W R T (suc n) (R - W) (M - (R - W)) (omega arith) (omega arith) t
          (grind arith))
]
