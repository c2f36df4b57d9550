-- ===== src/Expr/Fields/Named.antt =====
-- `set_months`, `set_days_of_week` and `set_days_of_month` of ccronexpr.c: names, question marks,
-- and the moves of bits that follow.
use smart_device_svr.Base.{
  ℕ, suc, ◌+◌, ◌≤◌, ◌<◌, ◌≡◌, ◌∙◌, refl, ap, Bool, false, ◌&&◌, ◌||◌, ◌⊎◌, inl, inr, subst,
  Bool-cases, some, [], ◌∷◌, Bytes, codes, arith, ltb, ◌==◌, if◌then◌else◌, Returns, length,
  replicate, length-set,
}
use smart_device_svr.Bitset.{member}
use smart_device_svr.Text.{to_upper}
use smart_device_svr.Text.Replace.{replace_ordinals, months_arr, days_arr}
use smart_device_svr.Text.Replace.Ordinals.{numbered, max_text, replace_ordinals-numbered}
use smart_device_svr.Expr.{map_or_error}
use smart_device_svr.Expr.Range.{is_char}
use smart_device_svr.Expr.Fields.{set_months, star_of, set_days_of_week, set_days_of_month}
use smart_device_svr.Expr.Fields.Rotate.{
  moved, move_bit-moved, shifted, rotate-shifted, shifted_start,
}
use smart_device_svr.Expr.Fields.Laws.{Reads, Filled, set_number_hits-Filled}

length-to_upper : (s : Bytes) → length (to_upper s) ≡ length s
unfolding to_upper
length-to_upper [] = refl
length-to_upper (c ∷ s) = ap suc (length-to_upper s)

length-star_of : (s : Bytes) → length (star_of s) ≡ length s
length-star_of s = ground (arith, length-set s 0 b'*')

-- Months count from 0 in the structure: bit `j` is month `j + 1` of the text.
pub record ReadsMonths (text : Bytes) (p : ℕ → Bool) : Type 0 where
  pub written : ℕ → Bool
  pub reads : Reads 1 13 (numbered 0 months_arr (to_upper text)) written
  pub moves : (j : ℕ) → p j ≡ written (j + 1)

-- A question mark alone means what a star means.
abbrev pub starred : Bytes → Bytes
starred (c ∷ []) = if c == b'?' then codes "*" else c ∷ []
starred text = text

star_of-starred : (text : Bytes) → star_of text ≡ starred text
star_of-starred [] = refl
star_of-starred (c ∷ []) = elim (Bool-cases (c == b'?')) [ inl e ↦ rw e refl | inr e ↦ rw e refl ]
star_of-starred (c ∷ d ∷ text) =
    let long : is_char (c ∷ d ∷ text) b'?' ≡ false = ground arith in rw long refl

-- Day 7 is day 0.
pub record ReadsWeek (text : Bytes) (p : ℕ → Bool) : Type 0 where
  pub written : ℕ → Bool
  pub reads : Reads 0 8 (numbered 0 days_arr (to_upper (starred text))) written
  pub moves : (j : ℕ) → p j ≡ (if j == 0 then written 0 || written 7 else ltb j 7 && written j)

-- The last state of the rotation, for a set that lies within the bounds of the text.
shifted_all :
    (p : ℕ → Bool) (j : ℕ)
    → ((k : ℕ) → (k < 1) ⊎ (13 ≤ k) → p k ≡ false)
    → shifted 13 p j ≡ p (j + 1)
shifted_all p j out = ground (arith, out j, out (j + 1))

moved_week :
    (p : ℕ → Bool) (j : ℕ)
    → ((k : ℕ) → (k < 0) ⊎ (8 ≤ k) → p k ≡ false)
    → moved 7 0 p j ≡ (if j == 0 then p 0 || p 7 else ltb j 7 && p j)
moved_week p j out = ground (arith, out j)

-- Day and month names, as the code has them, are short.
months_arr-numbered :
    (s : Bytes)
    → length s < max_text
    → (replace_ordinals s months_arr ≡ some (some (numbered 0 months_arr s)))
      × (length (numbered 0 months_arr s) ≤ length s)
months_arr-numbered s h = replace_ordinals-numbered s months_arr (omega arith) (omega arith) h

days_arr-numbered :
    (s : Bytes)
    → length s < max_text
    → (replace_ordinals s days_arr ≡ some (some (numbered 0 days_arr s)))
      × (length (numbered 0 days_arr s) ≤ length s)
days_arr-numbered s h = replace_ordinals-numbered s days_arr (omega arith) (omega arith) h

-- The call for the days of the month.
pub set_days_of_month-Filled :
    (text : Bytes)
    → Returns (set_days_of_month text (replicate 4 0)) (Filled 4 (Reads 1 32 (starred text)))
unfolding set_days_of_month
set_days_of_month-Filled text =
    let (h, run, filled, _) =
      set_number_hits-Filled {n = 4} {min = 1} {max = 32} (omega arith) (omega arith)
        (star_of text) in
    let means : Filled 4 (Reads 1 32 (starred text)) h =
      subst (λ t. Filled 4 (Reads 1 32 t) h) (star_of-starred text) filled in
    (h, run, means)

-- On a zeroed member and a text shorter than 2^31 bytes, `set_months` ends without a fault and
-- leaves an array of two bytes. It either reports an error, or bit `j` is set exactly if month
-- `j + 1` lies in one of the spans that the text says once names are numbers; all of these lie
-- from 1 to 12, and there is one at least.
pub set_months-Filled :
    (text : Bytes)
    → length text < max_text
    → Returns (set_months text (replicate 2 0)) (Filled 2 (ReadsMonths text))
unfolding set_months
set_months-Filled text h =
    let digits : Bytes = numbered 0 months_arr (to_upper text) in
    let (named, _) = months_arr-numbered (to_upper text) (omega (arith, length-to_upper text)) in
    let (hits, run, (v, reads), clear) =
      set_number_hits-Filled {n = 2} {min = 1} {max = 13} (omega arith) (omega arith) digits in
    let p : ℕ → Bool = member hits.target in
    let (b, rotated, (vb, mb)) =
      rotate-shifted {n = 2} (omega arith) 12 1 13 p hits.target (omega arith) (omega arith)
        (omega arith) v (λ k. shifted_start p k (clear 0 (inl (omega arith)))) in
    rw (named, run, rotated)
      (
        _,
        refl,
        (
          vb,
          map_or_error
              (λ r. record { written = p; reads = r; moves = λ j. mb j ∙ shifted_all p j clear })
              reads,
        ),
      )

-- On a zeroed member and a text shorter than 2^31 bytes, `set_days_of_week` ends without a fault
-- and leaves an array of one byte. It either reports an error, or the bits 0 to 6 are the days
-- that the spans of the text say once a lone question mark is a star and names are numbers, with
-- day 7 counted as day 0.
pub set_days_of_week-Filled :
    (text : Bytes)
    → length text < max_text
    → Returns (set_days_of_week text (replicate 1 0)) (Filled 1 (ReadsWeek text))
unfolding set_days_of_week
set_days_of_week-Filled text h =
    let upper : Bytes = to_upper (star_of text) in
    let (named, _) =
      days_arr-numbered upper
        (omega (arith, length-to_upper (star_of text), length-star_of text)) in
    let (hits, run, (v, reads), clear) =
      set_number_hits-Filled {n = 1} {min = 0} {max = 8} (omega arith) (omega arith)
        (numbered 0 days_arr upper) in
    let p : ℕ → Bool = member hits.target in
    let (b, moves, (vb, mb)) =
      move_bit-moved {n = 1} (omega arith) 7 0 hits.target v (omega arith) (omega arith) in
    rw (named, run, moves)
      (
        _,
        refl,
        (
          vb,
          map_or_error
              (λ r. record {
                written = p;
                reads =
                    subst (λ t. Reads 0 8 (numbered 0 days_arr (to_upper t)) p)
                      (star_of-starred text) r;
                moves = λ j. mb j ∙ moved_week p j clear;
              })
              reads,
        ),
      )
