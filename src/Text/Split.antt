-- ===== src/Text/Split.antt =====
-- `split_str` of ccronexpr.c against a description that does not follow its loops.
use smart_device_svr.Base.{
  ℕ, suc, ◌+◌, ◌≤◌, ◌<◌, ◌≡◌, refl, sym, ap, ◌∙◌, true, false, Option, none, some, List, [], ◌∷◌,
  ◌++◌, map, Bytes, ltb, lt→ltb, ltb-zero-suc, ◌==◌, if◌then◌else◌, length, ◌>>=◌, arith,
  append_assoc, append-nil, length-append, All, Bool-cases, inl, inr,
}
use smart_device_svr.Text.{
  isspace, measure, count_fields, push, fill, collect, split_str, cron_max_str_len_to_split,
}

-- The text cut at every `del`.
abbrev onto_first : ℕ → List Bytes → List Bytes
onto_first c [] = (c ∷ []) ∷ []
onto_first c (w ∷ ws) = (c ∷ w) ∷ ws

abbrev cut : ℕ → Bytes → List Bytes
cut del [] = [] ∷ []
cut del (c ∷ s) = if del == c then [] ∷ cut del s else onto_first c (cut del s)

-- A text without its white space.
abbrev squeeze : Bytes → Bytes
squeeze [] = []
squeeze (c ∷ s) = if isspace c then squeeze s else c ∷ squeeze s

abbrev nonempty : List Bytes → List Bytes
nonempty [] = []
nonempty ([] ∷ ws) = nonempty ws
nonempty ((c ∷ w) ∷ ws) = (c ∷ w) ∷ nonempty ws

-- The fields of a text: what stands between the separators, with no white space, if anything does.
abbrev pub fields : ℕ → Bytes → List Bytes
fields del s = nonempty (map squeeze (cut del s))

-- `buf` stands in front of the first piece.
abbrev pending : Bytes → List Bytes → List Bytes
pending buf [] = buf ∷ []
pending buf (w ∷ ws) = (buf ++ w) ∷ ws

-- What the loops still have to deliver, with `buf` in hand and `s` to read.
rest : ℕ → Bytes → Bytes → List Bytes
rest del buf s = nonempty (pending buf (map squeeze (cut del s)))

data Cons {ℓ} {A : Type ℓ} (l : List A) : Type ℓ where
  cons : (x : A) (xs : List A) → l ≡ x ∷ xs → Cons l

cut-Cons : (del : ℕ) (s : Bytes) → Cons (cut del s)
cut-Cons del [] = cons [] [] refl
cut-Cons del (c ∷ s) = elim (Bool-cases (del == c)) [
  | inl e ↦ rw e (cons [] (cut del s) refl)
  | inr e ↦ elim (cut-Cons del s) [ cons w ws q ↦ rw (e, q) (cons (c ∷ w) ws refl) ]
]

module _ (del : ℕ) where
  fields-rest : (s : Bytes) → rest del [] s ≡ fields del s
  unfolding rest
  fields-rest s = elim (cut-Cons del s) [ cons w ws q ↦ rw q refl ]

  rest-cut : (c : ℕ) (s : Bytes) → (del == c) ≡ true → rest del [] (c ∷ s) ≡ rest del [] s
  unfolding rest
  rest-cut c s e = rw e (sym (fields-rest s))

  rest-cut_full :
      (b : ℕ) (buf : Bytes) (c : ℕ) (s : Bytes)
      → (del == c) ≡ true
      → rest del (b ∷ buf) (c ∷ s) ≡ (b ∷ buf) ∷ rest del [] s
  unfolding rest
  rest-cut_full b buf c s e = rw (e, append-nil) (ap (λ r. (b ∷ buf) ∷ r) (sym (fields-rest s)))

  rest-space :
      (buf : Bytes) (c : ℕ) (s : Bytes)
      → (del == c) ≡ false
      → isspace c ≡ true
      → rest del buf (c ∷ s) ≡ rest del buf s
  unfolding rest
  rest-space buf c s e sp = elim (cut-Cons del s) [ cons w ws q ↦ rw (e, q, sp) refl ]

  rest-char :
      (buf : Bytes) (c : ℕ) (s : Bytes)
      → (del == c) ≡ false
      → isspace c ≡ false
      → rest del buf (c ∷ s) ≡ rest del (buf ++ c ∷ []) s
  unfolding rest
  rest-char buf c s e sp = elim (cut-Cons del s) [ cons w ws q ↦ rw (e, q, sp, append_assoc) refl ]

  rest_end : (b : ℕ) (buf : Bytes) → rest del (b ∷ buf) [] ≡ (b ∷ buf) ∷ []
  unfolding rest
  rest_end b buf = rw append-nil refl

-- What one round of a loop does to `rest`, by the character read and the state of `buf`.
data Round (del : ℕ) (buf : Bytes) (c : ℕ) (s : Bytes) : Type 0 where
  flush :
      (b : ℕ) (bs : Bytes)
      → buf ≡ b ∷ bs
      → (del == c) ≡ true
      → rest del buf (c ∷ s) ≡ buf ∷ rest del [] s
      → Round del buf c s
  skip : buf ≡ [] → (del == c) ≡ true → rest del buf (c ∷ s) ≡ rest del [] s → Round del buf c s
  space :
      (del == c) ≡ false
      → isspace c ≡ true
      → rest del buf (c ∷ s) ≡ rest del buf s
      → Round del buf c s
  char :
      (del == c) ≡ false
      → isspace c ≡ false
      → rest del buf (c ∷ s) ≡ rest del (buf ++ c ∷ []) s
      → Round del buf c s

Round-at_del : (del : ℕ) (buf : Bytes) (c : ℕ) (s : Bytes) → (del == c) ≡ true → Round del buf c s
Round-at_del del [] c s e = skip refl e (rest-cut del c s e)
Round-at_del del (b ∷ bs) c s e = flush b bs refl e (rest-cut_full del b bs c s e)

round : (del : ℕ) (buf : Bytes) (c : ℕ) (s : Bytes) → Round del buf c s
round del buf c s = elim (Bool-cases (del == c)) [
  | inl e ↦ Round-at_del del buf c s e
  | inr e ↦ elim (Bool-cases (isspace c)) [
    | inl sp ↦ space e sp (rest-space del buf c s e sp)
    | inr sp ↦ char e sp (rest-char del buf c s e sp)
  ]
]

-- The second loop counts the fields.
module _ (del : ℕ) where
  count_fields-rest :
      (s : Bytes) (buf : Bytes) (len : ℕ)
      → count_fields del s (length buf, len) ≡ len + length (rest del buf s)
  unfolding count_fields
  count_fields-rest [] [] len = unfold rest in omega arith
  count_fields-rest [] (b ∷ buf) len = rw (rest_end del b buf, ltb-zero-suc) refl
  count_fields-rest (c ∷ s) buf len = elim (round del buf c s) [
    | flush b bs q e r ↦
        rw (e, r, q, ltb-zero-suc) (omega (arith, count_fields-rest s [] (len + 1)))
    | skip q e r ↦ rw (e, r, q) (count_fields-rest s [] len)
    | space e sp r ↦ rw (e, sp, r) (count_fields-rest s buf len)
    | char e sp r ↦
        rw (e, sp, r, ← length-append buf (c ∷ [])) (count_fields-rest s (buf ++ c ∷ []) len)
  ]

push_lem :
    (cap : ℕ) (res : List Bytes) (tmp : Bytes)
    → length res < cap
    → push cap res tmp ≡ some (res ++ tmp ∷ [])
push_lem cap res tmp h = rw (lt→ltb _ _ h) refl

-- The third loop writes as many, in order, and none past the end of `res`.
module _ (cap del : ℕ) where
  fill-rest :
      (s : Bytes) (buf : Bytes) (res : List Bytes)
      → length res + length (rest del buf s) ≤ cap
      → fill cap del s (buf, res) ≡ some (res ++ rest del buf s)
  unfolding fill
  fill-rest [] [] res h = unfold rest in rw append-nil refl
  fill-rest [] (b ∷ buf) res h =
      rw (rest_end del b buf, ltb-zero-suc)
        (push_lem cap res (b ∷ buf) (omega (arith, ap length (rest_end del b buf))))
  fill-rest (c ∷ s) buf res h = elim (round del buf c s) [
    | flush b bs q e r ↦
        let fits : length res + suc (length (rest del [] s)) ≤ cap = rw r at h in
        rw (e, r, q, ltb-zero-suc, push_lem cap res (b ∷ bs) (omega arith))
          (fill-rest s [] (res ++ (b ∷ bs) ∷ []) (omega (arith, length-append res ((b ∷ bs) ∷ [])))
            ∙ ap some (append_assoc res ((b ∷ bs) ∷ []) _))
    | skip q e r ↦ rw (e, r, q) (fill-rest s [] res (rw r at h))
    | space e sp r ↦ rw (e, sp, r) (fill-rest s buf res (rw r at h))
    | char e sp r ↦ rw (e, sp, r) (fill-rest s (buf ++ c ∷ []) res (rw r at h))
  ]

measure_lem :
    (s : Bytes) (n : ℕ)
    → n < cron_max_str_len_to_split
    → measure s n
      ≡ (if ltb (n + length s) cron_max_str_len_to_split then some (n + length s) else none)
unfolding measure
measure_lem [] n h = ground arith
measure_lem (c ∷ s) n h = ground (arith, measure_lem s (n + 1))

-- NULL stands for no field at all.
abbrev pub answer : List Bytes → Option (List Bytes)
answer [] = none
answer (w ∷ ws) = some (w ∷ ws)

count_fields-fields : (del : ℕ) (s : Bytes) → count_fields del s (0, 0) ≡ length (fields del s)
count_fields-fields del s = rw (← fields-rest del s) (count_fields-rest del s [] 0 ∙ omega arith)

fill-fields :
    (del : ℕ) (s : Bytes) → fill (length (fields del s)) del s ([], []) ≡ some (fields del s)
fill-fields del s =
    rw (← fields-rest del s) (fill-rest (length (rest del [] s)) del s [] [] (omega arith))

answer_lem :
    (ws : List Bytes) (r : Option (List Bytes))
    → r ≡ some ws
    → (if length ws == 0 then some none else r >>= λ res. some (some res)) ≡ some (answer ws)
answer_lem [] r e = refl
answer_lem (w ∷ ws) r e = rw e (ground arith)

collect-fields :
    (del : ℕ) (s : Bytes) → collect (count_fields del s (0, 0)) del s ≡ some (answer (fields del s))
unfolding collect
collect-fields del s =
    rw (count_fields-fields del s) (answer_lem (fields del s) _ (fill-fields del s))

-- For every text and delimiter, `split_str` returns with no write outside its arrays. The answer
-- is NULL if the text has 256 bytes or more, or no field; otherwise it is the list of the fields
-- between delimiters, without white space and without the empty ones.
pub split_str-fields :
    (s : Bytes) (del : ℕ)
    → split_str s del
      ≡ some (if ltb (length s) cron_max_str_len_to_split then answer (fields del s) else none)
unfolding split_str
split_str-fields s del = ground (arith, measure_lem s 0, collect-fields del s)

-- No field is longer than the text.
length-squeeze : (s : Bytes) → length (squeeze s) ≤ length s
length-squeeze [] = omega arith
length-squeeze (c ∷ s) = ground (arith, length-squeeze s)

abbrev Within : ℕ → List Bytes → Type 0
Within k = All (λ w. length w ≤ k)

Within-mono : (k l : ℕ) (ws : List Bytes) → k ≤ l → Within k ws → Within l ws
Within-mono k l [] h all = tt
Within-mono k l (w ∷ ws) h (p, all) = (omega arith, Within-mono k l ws h all)

onto_first-Within : (c k : ℕ) (ws : List Bytes) → Within k ws → Within (suc k) (onto_first c ws)
onto_first-Within c k [] all = omega arith
onto_first-Within c k (w ∷ ws) (p, all) = (omega arith, Within-mono k (suc k) ws (omega arith) all)

cut-Within : (del : ℕ) (s : Bytes) → Within (length s) (cut del s)
cut-Within del [] = omega arith
cut-Within del (c ∷ s) = elim (Bool-cases (del == c)) [
  | inl e ↦
      rw e (omega arith, Within-mono (length s) (suc (length s)) _ (omega arith) (cut-Within del s))
  | inr e ↦ rw e (onto_first-Within c (length s) _ (cut-Within del s))
]

nonempty_cons :
    (k : ℕ) (w : Bytes) (ws : List Bytes)
    → length w ≤ k
    → Within k (nonempty ws)
    → Within k (nonempty (w ∷ ws))
nonempty_cons k [] ws p all = all
nonempty_cons k (c ∷ w) ws p all = (p, all)

nonempty-Within : (k : ℕ) (ws : List Bytes) → Within k ws → Within k (nonempty (map squeeze ws))
nonempty-Within k [] all = tt
nonempty-Within k (w ∷ ws) (p, all) =
    nonempty_cons k (squeeze w) (map squeeze ws) (omega (arith, length-squeeze w))
      (nonempty-Within k ws all)

pub fields-Within : (del : ℕ) (s : Bytes) → All (λ w. length w ≤ length s) (fields del s)
fields-Within del s = nonempty-Within (length s) (cut del s) (cut-Within del s)
