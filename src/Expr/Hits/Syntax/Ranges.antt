-- ===== src/Expr/Hits/Syntax/Ranges.antt =====
-- `get_range` of ccronexpr.c accepts the ranges of the syntax, and nothing else.
use smart_device_svr.Base.{
  ℕ, ◌-◌, ◌≤◌, ◌<◌, ◌≡◌, ◌∙◌, refl, sym, ap, subst, ◌⊎◌, inl, inr, Bool, Bool-cases, true, false,
  not, ◌&&◌, ◌||◌, Option, none, some, List, [], ◌∷◌, Bytes, codes, arith, leb, ltb, ltb→lt, lt→ltb,
  ◌==◌, ==_refl, if◌then◌else◌, Returns, length,
}
use smart_device_svr.Text.{has_char, cron_max_str_len_to_split}
use smart_device_svr.Text.Number.{Strtol, strtol, int_max, is_out_of_range, is_empty, parse_uint}
use smart_device_svr.Text.Split.{fields, answer, split_str-fields}
use smart_device_svr.Expr.{Result, ok, err, two_fields}
use smart_device_svr.Expr.Range.{
  is_char, single, ends, both_ends, read_range, check_range, get_range,
}
use smart_device_svr.Expr.Hits.Syntax.{
  Contains, at_front, behind, Lacks, IsNumber, Halves, RangeText, star, number, dash, IsRangeOf,
}

pub has_char-Contains : (s : Bytes) (ch : ℕ) → has_char s ch ≡ true → Contains ch s
unfolding has_char
has_char-Contains [] ch h = absurd (cc)
has_char-Contains (c ∷ s) ch h = elim (Bool-cases (c == ch)) [
  | inl e ↦ let same : ch ≡ c = ground arith in subst (λ d. Contains ch (d ∷ s)) same (at_front s)
  | inr e ↦ behind c s (has_char-Contains s ch (rw e at h))
]

pub Contains-has_char : (s : Bytes) (ch : ℕ) → Contains ch s → has_char s ch ≡ true
unfolding has_char
Contains-has_char [] ch c = elim c [ ]
Contains-has_char (c ∷ s) ch (at_front _) = rw (==_refl ch) refl
Contains-has_char (c ∷ s) ch (behind _ _ h) = elim (Bool-cases (c == ch)) [
  | inl e ↦ rw e refl
  | inr e ↦ rw e (Contains-has_char s ch h)
]

pub Lacks-has_char : (s : Bytes) (ch : ℕ) → Lacks ch s → has_char s ch ≡ false
Lacks-has_char s ch lacks = elim (Bool-cases (has_char s ch)) [
  | inl e ↦ absurd (lacks (has_char-Contains s ch e))
  | inr e ↦ e
]

pub has_char-Lacks : (s : Bytes) (ch : ℕ) → has_char s ch ≡ false → Lacks ch s
has_char-Lacks s ch h c = let on = Contains-has_char s ch c in cc

is_empty-nil : (s : Bytes) → is_empty s ≡ true → s ≡ []
is_empty-nil [] h = refl
is_empty-nil (c ∷ s) h = absurd (cc)

-- What the guard of `parse_uint` lets through.
parsed_at :
    (neg : Bool) (m : ℕ) (rest : Bytes) (n : ℕ)
    → (if is_out_of_range (record { negative = neg; magnitude = m; endptr = rest })
          || not (is_empty rest)
          || (neg && ltb 0 m)
          || (not neg && ltb int_max m)
        then none
        else some m)
      ≡ some n
    → (m ≡ n) × (rest ≡ []) × ((neg ≡ false) ⊎ (n ≡ 0)) × (n ≤ int_max)
parsed_at neg m (c ∷ rest) n h = absurd (ground arith)
parsed_at true m [] n h = ground arith
parsed_at false m [] n h = ground arith

accepted_at :
    (l : Strtol)
    → l.endptr ≡ []
    → (l.negative ≡ false) ⊎ (l.magnitude ≡ 0)
    → l.magnitude ≤ int_max
    → (if is_out_of_range l
          || not (is_empty l.endptr)
          || (l.negative && ltb 0 l.magnitude)
          || (not l.negative && ltb int_max l.magnitude)
        then none
        else some l.magnitude)
      ≡ some l.magnitude
accepted_at l to_end sign fits = rw to_end (ground arith)

pub parse_uint-IsNumber : (s : Bytes) (n : ℕ) → parse_uint s ≡ some n → IsNumber s n
unfolding parse_uint
parse_uint-IsNumber s n h =
    let l = strtol s in
    let (value, to_end, sign, fits) = parsed_at l.negative l.magnitude l.endptr n h in
    record { value = value; to_end = to_end; sign = sign; fits = fits }

pub IsNumber-parse_uint : (s : Bytes) (n : ℕ) → IsNumber s n → parse_uint s ≡ some n
unfolding parse_uint
IsNumber-parse_uint s n h =
    let sign : ((strtol s).negative ≡ false) ⊎ ((strtol s).magnitude ≡ 0) = elim h.sign [
      | inl a ↦ inl a
      | inr z ↦ inr (h.value ∙ z)
    ] in
    accepted_at (strtol s) h.to_end sign (omega (arith, h.value, h.fits)) ∙ ap some h.value

is_char-star : (s : Bytes) → is_char s b'*' ≡ true → s ≡ codes "*"
is_char-star [] h = absurd (ground arith)
is_char-star (c ∷ []) h = let same : c ≡ b'*' = ground arith in ap (λ d. d ∷ []) same
is_char-star (c ∷ d ∷ s) h = absurd (ground arith)

-- The two parts that `split_str` leaves.
abbrev pub halves : Bytes → ℕ → Option (Bytes × Bytes)
halves s ch =
    two_fields (if ltb (length s) cron_max_str_len_to_split then answer (fields ch s) else none)

abbrev pub HalvesOf : Bytes → ℕ → Option (Bytes × Bytes) → Type 0
HalvesOf s ch none = Unit
HalvesOf s ch (some (left, right)) = Halves ch s left right

parts-HalvesOf :
    (s : Bytes) (ch : ℕ) (ws : List Bytes)
    → Contains ch s
    → length s < cron_max_str_len_to_split
    → fields ch s ≡ ws
    → HalvesOf s ch (two_fields (answer ws))
parts-HalvesOf s ch [] at short q = tt
parts-HalvesOf s ch (a ∷ []) at short q = tt
parts-HalvesOf s ch (a ∷ b ∷ []) at short q = record { separator = at; short = short; parts = q }
parts-HalvesOf s ch (a ∷ b ∷ c ∷ ws) at short q = tt

pub halves-HalvesOf : (s : Bytes) (ch : ℕ) → has_char s ch ≡ true → HalvesOf s ch (halves s ch)
halves-HalvesOf s ch has = elim (Bool-cases (ltb (length s) cron_max_str_len_to_split)) [
  | inl short ↦ rw short (
      parts-HalvesOf s ch (fields ch s) (has_char-Contains s ch has)
        (ltb→lt (length s) cron_max_str_len_to_split short) refl)
  | inr long ↦ rw long tt
]

pub Halves-halves : (s : Bytes) (ch : ℕ) (a b : Bytes) → Halves ch s a b → halves s ch ≡ some (a, b)
Halves-halves s ch a b h = rw (lt→ltb (length s) cron_max_str_len_to_split h.short, h.parts) refl

module _ (min max : ℕ) (text : Bytes) where
  abbrev RangeOf : Result (ℕ × ℕ) → Type 0
  RangeOf (err m) = Unit
  RangeOf (ok (first, last)) = RangeText min max text first last

  abbrev pub Within : Result (ℕ × ℕ) → Type 0
  Within (err m) = Unit
  Within (ok (first, last)) = IsRangeOf min max text first last

  single-RangeOf :
      (o : Option ℕ) → has_char text b'-' ≡ false → parse_uint text ≡ o → RangeOf (single o)
  single-RangeOf none lacks q = tt
  single-RangeOf (some n) lacks q =
      number (has_char-Lacks text b'-' lacks) (parse_uint-IsNumber text n q)

  ends-RangeOf :
      (a b : Bytes) (o o' : Option ℕ)
      → Halves b'-' text a b
      → parse_uint a ≡ o
      → parse_uint b ≡ o'
      → RangeOf (ends o o')
  ends-RangeOf a b none o' h q q' = tt
  ends-RangeOf a b (some n) none h q q' = tt
  ends-RangeOf a b (some n) (some n') h q q' =
      dash h (parse_uint-IsNumber a n q) (parse_uint-IsNumber b n' q')

  both_ends-RangeOf : (r : Option (Bytes × Bytes)) → HalvesOf text b'-' r → RangeOf (both_ends r)
  both_ends-RangeOf none h = tt
  both_ends-RangeOf (some (a, b)) h = ends-RangeOf a b (parse_uint a) (parse_uint b) h refl refl

  read_range-RangeOf : Returns (read_range text min max) RangeOf
  unfolding read_range
  read_range-RangeOf = elim (Bool-cases (is_char text b'*')) [
    | inl one ↦
        rw one (
          _,
          refl,
          subst (λ x. RangeText min max x min (max - 1)) (sym (is_char-star text one)) star,
        )
    | inr other ↦ elim (Bool-cases (has_char text b'-')) [
      | inl has ↦
          rw (other, has, split_str-fields text b'-')
            (_, refl, both_ends-RangeOf (halves text b'-') (halves-HalvesOf text b'-' has))
      | inr lacks ↦ rw (other, lacks) (_, refl, single-RangeOf (parse_uint text) lacks refl)
    ]
  ]

  check_range-Within : (r : Result (ℕ × ℕ)) → RangeOf r → Within (check_range min max r)
  check_range-Within (err m) h = tt
  check_range-Within (ok (first, last)) h = elim (Bool-cases (leb max first || leb max last)) [
    | inl above ↦ rw above tt
    | inr in_max ↦ elim (Bool-cases (ltb first min || ltb last min)) [
      | inl under ↦ rw (in_max, under) tt
      | inr in_min ↦ elim (Bool-cases (ltb last first)) [
        | inl crossed ↦ rw (in_max, in_min, crossed) tt
        | inr ordered ↦
            rw (in_max, in_min, ordered)
              (record {
                written = h;
                from_min = ground arith;
                ordered = ground arith;
                below_max = ground arith;
              })
      ]
    ]
  ]

  pub get_range-Within : Returns (get_range text min max) Within
  unfolding get_range
  get_range-Within =
      let (r, e, h) = read_range-RangeOf in
      rw e (check_range min max r, refl, check_range-Within r h)

star_no_number : parse_uint (codes "*") ≡ none
unfolding parse_uint
star_no_number = refl

no_star : (text : Bytes) → (text ≡ codes "*" → ⊥) → is_char text b'*' ≡ false
no_star text other = elim (Bool-cases (is_char text b'*')) [
  | inl e ↦ absurd (other (is_char-star text e))
  | inr e ↦ e
]

number_no_star : (text : Bytes) (n : ℕ) → IsNumber text n → is_char text b'*' ≡ false
number_no_star text n h = no_star text λ q.
    let reads : some n ≡ none =
      sym (IsNumber-parse_uint text n h) ∙ ap parse_uint q ∙ star_no_number in
    absurd (cc)

dash_no_star : (text : Bytes) → Contains b'-' text → is_char text b'*' ≡ false
unfolding has_char
dash_no_star text h = no_star text λ q.
    let has : true ≡ false = sym (Contains-has_char text b'-' h) ∙ ap (λ s. has_char s b'-') q in
    absurd (cc)

RangeText-read_range :
    (min max : ℕ) (text : Bytes) (first last : ℕ)
    → RangeText min max text first last
    → read_range text min max ≡ some (ok (first, last))
unfolding read_range
RangeText-read_range min max _ first last star = refl
RangeText-read_range min max text first last (number lacks n) =
    rw
      (
        number_no_star text first n,
        Lacks-has_char text b'-' lacks,
        IsNumber-parse_uint text first n,
      )
      refl
RangeText-read_range min max text first last (dash {left = a} {right = b} h m n) =
    rw
      (
        dash_no_star text h.separator,
        Contains-has_char text b'-' h.separator,
        split_str-fields text b'-',
        Halves-halves text b'-' a b h,
        IsNumber-parse_uint a first m,
        IsNumber-parse_uint b last n,
      )
      refl

pub IsRangeOf-get_range :
    (min max : ℕ) (text : Bytes) (first last : ℕ)
    → IsRangeOf min max text first last
    → get_range text min max ≡ some (ok (first, last))
unfolding get_range
IsRangeOf-get_range min max text first last h =
    let in_max : (leb max first || leb max last) ≡ false =
      ground (arith, h.from_min, h.ordered, h.below_max) in
    let in_min : (ltb first min || ltb last min) ≡ false =
      ground (arith, h.from_min, h.ordered, h.below_max) in
    let ordered : ltb last first ≡ false = ground (arith, h.ordered) in
    rw (RangeText-read_range min max text first last h.written, in_max, in_min, ordered) refl
