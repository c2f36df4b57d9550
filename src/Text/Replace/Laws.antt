-- ===== src/Text/Replace/Laws.antt =====
-- `str_replace` of ccronexpr.c: the loops end, no byte is written past the buffer, and the text that
-- they build is the one that a single pass over `orig` describes.
use native.Mathlib.Decide.{dec_le}
use smart_device_svr.Base.{
  ℕ, zero, suc, ◌+◌, ◌-◌, ◌*◌, ◌≤◌, ◌<◌, ◌≡◌, refl, sym, ap, ◌∙◌, true, false, none, some, [], ◌∷◌,
  ◌++◌, ◌^◌, lt→ltb, Bytes, Bool-cases, inl, inr, if◌then◌else◌, length, take, drop, length-drop,
  arith, append_assoc, length-append,
}
use smart_device_svr.Text.Replace.Size.{size_wrap}
use smart_device_svr.Text.Replace.{
  starts_with, strstr, count_occurrences, emit, copy_pieces, size_mod, result_size, str_replace,
}

-- The text with `with` for each occurrence of `rep`, found from the left; the first `skip` bytes
-- belong to an occurrence and are left out.
unfoldable pub replaced : Bytes → Bytes → ℕ → Bytes → Bytes
replaced rep with skip [] = []
replaced rep with (suc skip) (c ∷ s) = replaced rep with skip s
replaced rep with zero (c ∷ s) =
    let there = with ++ replaced rep with (length rep - 1) s in
    let plain = c ∷ replaced rep with zero s in if starts_with rep (c ∷ s) then there else plain

starts_with-length : (rep s : Bytes) → starts_with rep s ≡ true → length rep ≤ length s
unfolding starts_with
starts_with-length [] s h = omega arith
starts_with-length (r ∷ rep) [] h = absurd (cc)
starts_with-length (r ∷ rep) (c ∷ s) h = ground (arith, starts_with-length rep s)

replaced-drop :
    (rep with : Bytes) (k : ℕ) (s : Bytes) → replaced rep with k s ≡ replaced rep with 0 (drop k s)
unfolding replaced
replaced-drop rep with zero s = refl
replaced-drop rep with (suc k) [] = refl
replaced-drop rep with (suc k) (c ∷ s) = replaced-drop rep with k s

-- What `strstr` says of the single pass.
data Search (rep with s : Bytes) : Type 0 where
  never : strstr s rep ≡ none → replaced rep with 0 s ≡ s → Search rep with s
  first :
      (tmp : ℕ)
      → strstr s rep ≡ some tmp
      → tmp + length rep ≤ length s
      → length (take tmp s) ≡ tmp
      → replaced rep with 0 s
        ≡ (take tmp s ++ with) ++ replaced rep with 0 (drop (tmp + length rep) s)
      → Search rep with s

suc_add : (n m : ℕ) → suc n + m ≡ suc (n + m)
suc_add n m = omega arith

product_fits : (n l w : ℕ) → n ≤ l → (l + 1) * (w + 1) < size_mod → l + n * w + 1 < size_mod
product_fits n l w h fits = let le : n * w ≤ l * w = grind arith in omega arith

suc_product : (n r : ℕ) → (n + 1) * r ≡ n * r + r
suc_product n r = grind arith

product_lt : (n m r : ℕ) → n * r < m * r → n < m
product_lt n m r h = elim (dec_le m n) [
  | yes le ↦ let over : m * r ≤ n * r = grind arith in absurd (omega arith)
  | no gt ↦ omega arith
]

-- Enough for the test of the counting loop at its start.
no_count : (l r m : ℕ) → l < m * r → 0 * r + l < m * r
no_count l r m h = grind arith

-- An `int` is less than this.
abbrev pub int_mod : ℕ
int_mod = 2 ^ 31

shrinks : (n w r t l : ℕ) → w ≤ r → t + n * r ≡ l + n * w → t ≤ l
shrinks n w r t l h e = let le : n * w ≤ n * r = grind arith in omega arith

module _ (r : ℕ) (tail with : Bytes) where
  abbrev rep : Bytes
  rep = r ∷ tail

  Search-here : (c : ℕ) (s : Bytes) → starts_with rep (c ∷ s) ≡ true → Search rep with (c ∷ s)
  Search-here c s e =
      first 0 (unfold strstr in rw e refl) (omega (arith, starts_with-length rep (c ∷ s) e)) refl (
        let z : 0 + suc (length tail) ≡ suc (length tail) = omega arith in
        let p : suc (length tail) - 1 ≡ length tail = omega arith in
        unfold replaced in rw (e, z, p, replaced-drop rep with (length tail) s) refl)

  Search-later :
      (c : ℕ) (s : Bytes)
      → starts_with rep (c ∷ s) ≡ false
      → Search rep with s
      → Search rep with (c ∷ s)
  Search-later c s e (never h p) =
      never (unfold strstr in rw (e, h) refl) (unfold replaced in rw e (ap (λ t. c ∷ t) p))
  Search-later c s e (first tmp h fits len p) =
      first (suc tmp) (unfold strstr in rw (e, h) refl) (omega arith) (ap suc len)
        (rw (suc_add tmp (length rep)) (unfold replaced in rw e (ap (λ t. c ∷ t) p)))

  Search-all : (s : Bytes) → Search rep with s
  Search-all [] = never (unfold strstr starts_with in refl) (unfold replaced in refl)
  Search-all (c ∷ s) = elim (Bool-cases (starts_with rep (c ∷ s))) [
    | inl e ↦ Search-here c s e
    | inr e ↦ Search-later c s e (Search-all s)
  ]

  -- `rep` occurs `n` times in `s`, found from the left and without overlap.
  abbrev Occurs : ℕ → Bytes → Type 0
  Occurs zero s = (strstr s rep ≡ none) × (replaced rep with 0 s ≡ s)
  Occurs (suc n) s =
      (tmp : ℕ) × (strstr s rep ≡ some tmp)
      × (tmp + length rep ≤ length s)
      × (length (take tmp s) ≡ tmp)
      × (replaced rep with 0 s
          ≡ (take tmp s ++ with) ++ replaced rep with 0 (drop (tmp + length rep) s))
      × Occurs n (drop (tmp + length rep) s)

  -- The counting loop ends, and counts the occurrences, of which an `int` holds the number.
  count_occurrences-Occurs :
      (fuel : ℕ) (s : Bytes) (count : ℕ)
      → length s < fuel
      → count * length rep + length s < int_mod * length rep
      → (n : ℕ) × (count_occurrences fuel rep s count ≡ some (count + n)) × Occurs n s
  unfolding count_occurrences
  count_occurrences-Occurs zero s count h few = absurd (omega arith)
  count_occurrences-Occurs (suc fuel) s count h few = elim (Search-all s) [
    | never e p ↦ (0, rw (count_occurrences, e) (ap some (omega arith)), (e, p))
    | first tmp e fits len p ↦
        let after : Bytes = drop (tmp + length rep) s in
        let more = suc_product count (length rep) in
        let holds : count + 1 < int_mod =
          product_lt (count + 1) int_mod (length rep) (omega arith) in
        let (n, counted, occurs) =
          count_occurrences-Occurs fuel after (count + 1)
            (omega (arith, length-drop (tmp + length rep) s))
            (omega (arith, length-drop (tmp + length rep) s)) in
        (
          suc n,
          rw (count_occurrences, e, lt→ltb (count + 1) int_mod holds)
              (counted ∙ ap some (omega arith)),
          (tmp, e, fits, len, p, occurs),
        )
  ]

  length-replaced :
      (n : ℕ) (s : Bytes)
      → Occurs n s
      → length (replaced rep with 0 s) + n * length rep ≡ length s + n * length with
  length-replaced zero s (e, p) = rw p (omega arith)
  length-replaced (suc n) s (tmp, e, fits, len, p, occurs) =
      let after : Bytes = drop (tmp + length rep) s in
      rw p (
        omega (
          arith,
          length-replaced n after occurs,
          length-drop (tmp + length rep) s,
          length-append (take tmp s ++ with) (replaced rep with 0 after),
          length-append (take tmp s) with,
        ))

  emit_lem :
      (size : ℕ) (out piece : Bytes)
      → length out + length piece + 1 ≤ size
      → emit size out piece ≡ some (out ++ piece)
  emit_lem size out piece h = ground arith

  -- The copying loop writes the text of the single pass, if there is room for it.
  copy_pieces-replaced :
      (size n : ℕ) (s out : Bytes)
      → Occurs n s
      → length out + length (replaced rep with 0 s) + 1 ≤ size
      → copy_pieces size rep with n s out ≡ some (out ++ replaced rep with 0 s)
  unfolding copy_pieces
  copy_pieces-replaced size zero s out (e, p) room = rw p (emit_lem size out s (rw p at room))
  copy_pieces-replaced size (suc n) s out (tmp, e, fits, len, p, occurs) room =
      let head : Bytes = take tmp s ++ with in
      let after : Bytes = drop (tmp + length rep) s in
      let total = rw p at room in
      let room' : length out + (length head + length (replaced rep with 0 after)) + 1 ≤ size =
        rw (← length-append head (replaced rep with 0 after)) total in
      rw (e, emit_lem size out head (omega arith))
        (copy_pieces-replaced size n after (out ++ head) occurs
            (omega (arith, length-append out head))
          ∙ ap some (append_assoc out head _ ∙ ap (λ t. out ++ t) (sym p)))

  -- The size computed in `size_t` is that of the result and its byte 0, also where `with` is the
  -- shorter text and the difference of the lengths wraps around.
  result_size-replaced :
      (n : ℕ) (s : Bytes)
      → Occurs n s
      → length rep < size_mod
      → length s + n * length with + 1 < size_mod
      → result_size s rep with n ≡ length (replaced rep with 0 s) + 1
  result_size-replaced n s occurs hr hs =
      size_wrap size_mod (length s) (length with) (length rep) (length (replaced rep with 0 s)) n hr
        (length-replaced n s occurs) hs

  Occurs-le : (n : ℕ) (s : Bytes) → Occurs n s → n ≤ length s
  Occurs-le zero s o = omega arith
  Occurs-le (suc n) s (tmp, e, fits, len, p, occurs) =
      omega
        (arith, Occurs-le n (drop (tmp + length rep) s) occurs, length-drop (tmp + length rep) s)

  str_replace_cons :
      (s : Bytes)
      → length s < int_mod * length rep
      → length rep < size_mod
      → (length s + 1) * (length with + 1) < size_mod
      → str_replace s rep with ≡ some (replaced rep with 0 s)
  unfolding str_replace
  str_replace_cons s few hr hs =
      let (n, counted, occurs) =
        count_occurrences-Occurs (length s + 1) s 0 (omega arith)
          (no_count (length s) (length rep) int_mod few) in
      let counted' : count_occurrences (length s + 1) rep s 0 ≡ some n =
        counted ∙ ap some (omega arith) in
      let size : result_size s rep with n ≡ length (replaced rep with 0 s) + 1 =
        result_size-replaced n s occurs hr
          (product_fits n (length s) (length with) (Occurs-le n s occurs) hs) in
      rw (counted', size) (copy_pieces-replaced _ n s [] occurs (omega arith))

-- If `rep` is not empty and shorter than 2^64 bytes, `orig` is less than 2^31 times as long as `rep`,
-- so that an `int` counts the occurrences, and the product of the lengths of `orig` and `with`, each
-- plus one, is less than 2^64, then both loops of `str_replace` end, no byte is written past the
-- buffer, and the result is the text that a single pass over `orig` describes.
pub str_replace-replaced :
    (orig rep with : Bytes)
    → 0 < length rep
    → length orig < int_mod * length rep
    → length rep < size_mod
    → (length orig + 1) * (length with + 1) < size_mod
    → str_replace orig rep with ≡ some (replaced rep with 0 orig)
str_replace-replaced orig [] with h few hr hs = absurd (omega arith)
str_replace-replaced orig (r ∷ tail) with h few hr hs = str_replace_cons r tail with orig few hr hs

-- Replacing by a text that is no longer does not lengthen a text.
pub length-replaced-le :
    (orig rep with : Bytes)
    → 0 < length rep
    → length orig < int_mod * length rep
    → length with ≤ length rep
    → length (replaced rep with 0 orig) ≤ length orig
length-replaced-le orig [] with h few le = absurd (omega arith)
length-replaced-le orig (r ∷ tail) with h few le =
    let (n, _, occurs) =
      count_occurrences-Occurs r tail with (length orig + 1) orig 0 (omega arith)
        (no_count (length orig) (length (r ∷ tail)) int_mod few) in
    shrinks n (length with) (length (r ∷ tail)) _ _ le (length-replaced r tail with n orig occurs)
