-- ===== src/Text/Replace/Ordinals.antt =====
-- `replace_ordinals` of ccronexpr.c: each name of an array gives way to its index.
use smart_device_svr.Base.{
  ℕ, ◌+◌, ◌*◌, ◌^◌, ◌≤◌, ◌<◌, ◌≡◌, ◌∙◌, refl, some, List, [], ◌∷◌, Bytes, arith, length, All,
  lt→ltb,
}
use smart_device_svr.Text.Decimal.{to_string, sprintf_d, cron_num_of_digits, cron_max_num_to_string}
use smart_device_svr.Text.Decimal.Laws.{to_string-sprintf_d, length-sprintf_d}
use smart_device_svr.Text.Replace.{str_replace, replace_ordinals_from, replace_ordinals, size_mod}
use smart_device_svr.Text.Replace.Laws.{int_mod, replaced, str_replace-replaced, length-replaced-le}

-- The names in turn, each replaced by the decimal digits of its index.
unfoldable pub numbered : ℕ → List Bytes → Bytes → Bytes
numbered i [] s = s
numbered i (name ∷ names) s = numbered (i + 1) names (replaced name (sprintf_d i) 0 s)

-- The texts that the code has to do with are far shorter than the memory.
abbrev pub max_text : ℕ
max_text = 2 ^ 31

-- A name has two bytes at least, so that no index below 100 is longer.
abbrev pub IsName : Bytes → Type 0
IsName name = (2 ≤ length name) × (length name < max_text)

length-sprintf_d-le : (i : ℕ) → i < 100 → length (sprintf_d i) ≤ 2
unfolding cron_num_of_digits
length-sprintf_d-le i h = ground (arith, length-sprintf_d i)

made : (i : ℕ) → i < 100 → to_string i ≡ some (some (sprintf_d i))
made i h = to_string-sprintf_d i ∙ rw (lt→ltb i cron_max_num_to_string (omega arith)) refl

short_product : (l w : ℕ) → l < max_text → w ≤ 2 → (l + 1) * (w + 1) < size_mod
short_product l w hl hw = let le : (l + 1) * (w + 1) ≤ (l + 1) * 3 = grind arith in omega arith

replace_ordinals_from-numbered :
    (i : ℕ) (names : List Bytes) (s : Bytes)
    → i + length names ≤ 100
    → All IsName names
    → length s < max_text
    → (replace_ordinals_from i names s ≡ some (some (numbered i names s)))
      × (length (numbered i names s) ≤ length s)
unfolding replace_ordinals_from numbered
replace_ordinals_from-numbered i [] s h names hs = (refl, omega arith)
replace_ordinals_from-numbered i (name ∷ names) s h ((lo, hi), more) hs =
    let digits : Bytes = sprintf_d i in
    let small : length digits ≤ 2 = length-sprintf_d-le i (omega arith) in
    let few : length s < int_mod * length name = omega arith in
    let next : Bytes = replaced name digits 0 s in
    let step : str_replace s name digits ≡ some next =
      str_replace-replaced s name digits (omega arith) few (omega arith)
        (short_product (length s) (length digits) hs small) in
    let shorter : length next ≤ length s =
      length-replaced-le s name digits (omega arith) few (omega arith) in
    let (run, le) =
      replace_ordinals_from-numbered (i + 1) names next (omega arith) more (omega arith) in
    (rw (made i (omega arith), step) run, omega arith)

-- For at most 100 names of at least two bytes, each shorter than 2^31 bytes, and a text shorter
-- than 2^31 bytes, `replace_ordinals` ends with no fault and no NULL. It puts the index of each
-- name for the name, and its result is no longer than the text.
pub replace_ordinals-numbered :
    (s : Bytes) (names : List Bytes)
    → length names ≤ 100
    → All IsName names
    → length s < max_text
    → (replace_ordinals s names ≡ some (some (numbered 0 names s)))
      × (length (numbered 0 names s) ≤ length s)
unfolding replace_ordinals
replace_ordinals-numbered s names h all hs =
    replace_ordinals_from-numbered 0 names s (omega arith) all hs
