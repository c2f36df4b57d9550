-- ===== src/Expr/Parse/Total.antt =====
-- The contract of `cron_parse_expr` in ccronexpr.c.
use smart_device_svr.Base.{
  ℕ, ◌+◌, ◌-◌, ◌≤◌, ◌<◌, ◌≡◌, ◌≢◌, ◌∙◌, refl, ap, Bool, true, false, ◌⊎◌, inl, inr, Bool-cases,
  none, some, List, [], ◌∷◌, Bytes, arith, ltb, ltb→lt, ◌==◌, if◌then◌else◌, Returns, Returns-at,
  All, length,
}
use smart_device_svr.Bitset.{member}
use smart_device_svr.Text.{cron_max_str_len_to_split}
use smart_device_svr.Text.Split.{fields, fields-Within, answer, split_str-fields}
use smart_device_svr.Text.Replace.Ordinals.{max_text}
use smart_device_svr.Expr.{CronExpr, invalid_number_of_fields}
use smart_device_svr.Expr.Fields.Laws.{Reads, Reads-bounds, Reads_member}
use smart_device_svr.Expr.Fields.Named.{ReadsMonths, ReadsWeek}
use smart_device_svr.Expr.Parse.{Parsed, parse_fields, cron_parse_expr}
use smart_device_svr.Expr.Parse.Laws.{IsSized, Accepted, Sound, parse_six-Sound}

le→ltb-false : (a b : ℕ) → b ≤ a → ltb a b ≡ false
le→ltb-false a b h = ground arith

parse_fields-Sound :
    (ws : List Bytes) (target : CronExpr)
    → All (λ w. length w < max_text) ws
    → Returns (parse_fields (answer ws) target) (Sound ws)
unfolding parse_fields
parse_fields-Sound (f0 ∷ f1 ∷ f2 ∷ f3 ∷ f4 ∷ f5 ∷ []) target (_, (_, (_, (_, (h4, (h5, _)))))) =
    parse_six-Sound f0 f1 f2 f3 f4 f5 h4 h5
parse_fields-Sound _ target h = (_, refl, inl (_, refl))

All-short :
    (k : ℕ) (ws : List Bytes)
    → k < max_text
    → All (λ w. length w ≤ k) ws
    → All (λ w. length w < max_text) ws
All-short k [] h all = tt
All-short k (w ∷ ws) h (p, all) = (omega arith, All-short k ws h all)

-- For every text and structure, `cron_parse_expr` ends with no access outside an array. It either
-- reports an error, or the text has six fields and the structure holds arrays of the declared sizes
-- with the numbers that the fields mean: those of the numbers, ranges and steps between the commas
-- (SpanText), after names are replaced by numbers and, for a day, a lone question mark by a star, with
-- month m as bit m - 1 and day 7 of the week as day 0.
pub cron_parse_expr-Sound :
    (s : Bytes) (t : CronExpr) → Returns (cron_parse_expr (some s) (some t)) (Sound (fields b' ' s))
unfolding cron_parse_expr
cron_parse_expr-Sound s t = elim (Bool-cases (ltb (length s) cron_max_str_len_to_split)) [
  | inl short ↦
      let lt : length s < 256 = ltb→lt (length s) 256 short in
      rw (split_str-fields s b' ', short)
        (parse_fields-Sound (fields b' ' s) t
          (All-short (length s) _ (omega arith) (fields-Within b' ' s)))
  | inr long ↦ rw (split_str-fields s b' ', long) (unfold parse_fields in (_, refl, inl (_, refl)))
]

parse_fields_refuses :
    (ws : List Bytes) (target : CronExpr)
    → length ws ≢ 6
    → parse_fields (answer ws) target
      ≡ some (record { target = some target; error = some invalid_number_of_fields })
unfolding parse_fields
parse_fields_refuses (f0 ∷ f1 ∷ f2 ∷ f3 ∷ f4 ∷ f5 ∷ []) target ne = absurd (ne refl)
parse_fields_refuses _ target ne = refl

-- A text of 256 bytes or more, or one whose number of fields is not six, is refused, and the
-- structure is left as it was.
pub cron_parse_expr_refuses :
    (s : Bytes) (t : CronExpr)
    → (256 ≤ length s) ⊎ (length (fields b' ' s) ≢ 6)
    → cron_parse_expr (some s) (some t)
      ≡ some (record { target = some t; error = some invalid_number_of_fields })
unfolding cron_parse_expr
cron_parse_expr_refuses s t (inl long) =
    rw (split_str-fields s b' ', le→ltb-false (length s) 256 long) (unfold parse_fields in refl)
cron_parse_expr_refuses s t (inr ne) =
    elim (Bool-cases (ltb (length s) cron_max_str_len_to_split)) [
      | inl short ↦ rw (split_str-fields s b' ', short) (parse_fields_refuses (fields b' ' s) t ne)
      | inr long ↦ rw (split_str-fields s b' ', long) (unfold parse_fields in refl)
    ]

-- A set of numbers from `min` to below `max`, not empty.
pub record IsSetIn (min max : ℕ) (p : ℕ → Bool) : Type 0 where
  pub bounds : (j : ℕ) → p j ≡ true → (min ≤ j) × (j < max)
  pub value : ℕ
  pub holds : p value ≡ true

-- The invariant on which the searches for a date rest: each member is an array of its size, its
-- bits lie within the range of the calendar's field, and one of them is set.
pub record IsWellFormed (e : CronExpr) : Type 0 where
  pub sized : IsSized e
  pub seconds_in : IsSetIn 0 60 (member e.seconds)
  pub minutes_in : IsSetIn 0 60 (member e.minutes)
  pub hours_in : IsSetIn 0 24 (member e.hours)
  pub days_of_month_in : IsSetIn 1 32 (member e.days_of_month)
  pub months_in : IsSetIn 0 12 (member e.months)
  pub days_of_week_in : IsSetIn 0 7 (member e.days_of_week)

Reads-IsSetIn :
    {min max : ℕ} {text : Bytes} {p : ℕ → Bool} → Reads min max text p → IsSetIn min max p
Reads-IsSetIn r =
    let (j, on) = Reads_member r in record { bounds = Reads-bounds r; value = j; holds = on }

ReadsMonths-IsSetIn : {text : Bytes} {p : ℕ → Bool} → ReadsMonths text p → IsSetIn 0 12 p
ReadsMonths-IsSetIn m =
    let (j, on) = Reads_member m.reads in
    let within = Reads-bounds m.reads j on in
    record {
      bounds = λ k on'. omega (arith, Reads-bounds m.reads (k + 1) (rw (m.moves k) at on'));
      value = j - 1;
      holds = m.moves (j - 1) ∙ ap m.written (omega arith) ∙ on;
    }

ReadsWeek-IsSetIn : {text : Bytes} {p : ℕ → Bool} → ReadsWeek text p → IsSetIn 0 7 p
ReadsWeek-IsSetIn w =
    let (j, on) = Reads_member w.reads in
    let within = Reads-bounds w.reads j on in
    record {
      bounds = λ k on'. ground (arith, w.moves k);
      value = if j == 7 then 0 else j;
      holds = ground (arith, w.moves 0, w.moves j);
    }

Accepted-IsWellFormed :
    (texts : List Bytes) (r : Parsed) (done : Accepted texts r) → IsWellFormed done.expr
Accepted-IsWellFormed texts r done = record {
  sized = done.sized;
  seconds_in = Reads-IsSetIn done.reading.seconds_read;
  minutes_in = Reads-IsSetIn done.reading.minutes_read;
  hours_in = Reads-IsSetIn done.reading.hours_read;
  days_of_month_in = Reads-IsSetIn done.reading.days_of_month_read;
  months_in = ReadsMonths-IsSetIn done.reading.months_read;
  days_of_week_in = ReadsWeek-IsSetIn done.reading.days_of_week_read;
}

-- If `cron_parse_expr` returns on a text and a structure, and reports no error, then the
-- structure it leaves is well-formed: arrays of the declared sizes, every bit within the range
-- of its field, and at least one bit set in each.
pub cron_parse_expr-IsWellFormed :
    (s : Bytes) (t : CronExpr) (r : Parsed)
    → cron_parse_expr (some s) (some t) ≡ some r
    → r.error ≡ none
    → (e : CronExpr) × (r.target ≡ some e) × IsWellFormed e
cron_parse_expr-IsWellFormed s t r run no_error =
    elim (Returns-at (Sound (fields b' ' s)) (cron_parse_expr (some s) (some t)) r
      (cron_parse_expr-Sound s t) run) [
        | inl (m, e) ↦ absurd (cc)
        | inr (_, done) ↦ (done.expr, done.stored, Accepted-IsWellFormed (fields b' ' s) r done)
      ]
