-- ===== src/Programs/Seconds.antt =====
-- The field 0 that main of the two programs puts in front of a schedule, as cron_parse_expr of
-- ccronexpr.c reads it.
use mathlib.Core.Option.{some-injective}
use smart_device_svr.Base.{
  ℕ, ◌≡◌, ◌∙◌, refl, sym, ap, subst, inl, inr, true, Option, none, some, List, [], ◌∷◌, ◌++◌, Bytes,
  codes, arith, Returns-at,
}
use smart_device_svr.Bitset.{member}
use smart_device_svr.Text.{has_char, split_str}
use smart_device_svr.Text.Number.{parse_uint}
use smart_device_svr.Text.Split.{fields}
use smart_device_svr.Expr.{CronExpr, zeroed, invalid_number_of_fields, Result, ok}
use smart_device_svr.Expr.Range.{get_range}
use smart_device_svr.Expr.Hits.{Span, read_span}
use smart_device_svr.Expr.Hits.Marks.{in_span}
use smart_device_svr.Expr.Hits.Syntax.Laws.{SpanText-read_span}
use smart_device_svr.Expr.Hits.Outcome.{ReadUpTo, any_span}
use smart_device_svr.Expr.Fields.Laws.{Reads}
use smart_device_svr.Expr.Parse.{cron_parse_expr}
use smart_device_svr.Expr.Parse.Laws.{Sound}
use smart_device_svr.Expr.Parse.Total.{cron_parse_expr-Sound, cron_parse_expr_refuses}
use smart_device_svr.Dates.Exact.{IsLone}

abbrev zero_span : Span
zero_span = record { first = 0; last = 0; step = 1 }

read_zero : read_span (codes "0") 0 60 ≡ some (ok zero_span)
unfolding read_span has_char get_range parse_uint split_str
read_zero = refl

abbrev span_or_zero : Option (Result Span) → Span
span_or_zero (some (ok s)) = s
span_or_zero _ = zero_span

ok-injective : (s s' : Span) → some (ok s) ≡ some (ok s') → s ≡ s'
ok-injective s s' q = ap span_or_zero q

zero_only :
    (ss : List Span) (j : ℕ) → ReadUpTo 0 60 (codes "0" ∷ []) ss none → any_span ss j ≡ true → j ≡ 0
unfolding in_span
zero_only [] j read on = absurd read
zero_only (s ∷ s' ∷ ss) j (_, read) on = absurd read
zero_only (s ∷ []) j (read, _) on =
    let same : s ≡ zero_span =
      ok-injective s zero_span (sym (SpanText-read_span 0 60 (codes "0") s read) ∙ read_zero) in
    let here : (any_span (zero_span ∷ []) j) ≡ true =
      subst (λ x. any_span (x ∷ []) j ≡ true) same on in
    ground arith

only_zero :
    (text : Bytes) (e : CronExpr)
    → text ≡ codes "0"
    → Reads 0 60 text (member e.seconds)
    → IsLone 0 e
only_zero text e same r j lt on =
    let r' : Reads 0 60 (codes "0") (member e.seconds) =
      subst (λ x. Reads 0 60 x (member e.seconds)) same r in
    zero_only r'.spans j r'.read (sym (r'.marks j) ∙ on)

head_or_nil : List Bytes → Bytes
head_or_nil [] = []
head_or_nil (w ∷ ws) = w

-- A parse of a schedule that begins with a field 0 leaves an expression of the second 0.
pub zero_schedule-IsLone :
    (rest : Bytes) (e : CronExpr)
    → cron_parse_expr (some (codes "0 " ++ rest)) (some zeroed)
      ≡ some (record { target = some e; error = none })
    → IsLone 0 e
unfolding head_or_nil
zero_schedule-IsLone rest e parse =
    let s : Bytes = codes "0 " ++ rest in
    elim (Returns-at (Sound (fields b' ' s)) (cron_parse_expr (some s) (some zeroed))
      (record { target = some e; error = none }) (cron_parse_expr-Sound s zeroed) parse) [
        | inl (m, q) ↦ absurd (cc)
        | inr (_, done) ↦
            let first : done.f0 ≡ codes "0" = sym (ap head_or_nil done.six) in
            let same : done.expr ≡ e = some-injective done.expr e (sym done.stored) in
            subst (λ x. IsLone 0 x) same
              (only_zero done.f0 done.expr first done.reading.seconds_read)
      ]

abbrev first_or_zero : Bytes → ℕ
first_or_zero [] = 0
first_or_zero (a ∷ s) = a

abbrev behind : Bytes → Bytes
behind [] = []
behind (a ∷ s) = s

digit_not_blank : ◌≡◌ {A = ℕ} b' ' b'0' → ⊥
digit_not_blank q = omega arith

one_field-refused :
    (e : CronExpr)
    → cron_parse_expr (some (codes "0")) (some zeroed)
      ≡ some (record { target = some e; error = none })
    → ⊥
one_field-refused e parse =
    let refused = cron_parse_expr_refuses (codes "0") zeroed (inr λ q. absurd (omega arith)) in
    let q : some invalid_number_of_fields ≡ none =
      ap (λ r. elim r [ none ↦ none | some x ↦ x.error ]) (sym refused ∙ parse) in
    cc

-- What `split_line` cuts off a line in front of the command.
pub cut_schedule-IsLone :
    (schedule cmd line : Bytes) (e : CronExpr)
    → schedule ++ b' ' ∷ cmd ≡ codes "0 " ++ line
    → cron_parse_expr (some schedule) (some zeroed)
      ≡ some (record { target = some e; error = none })
    → IsLone 0 e
cut_schedule-IsLone [] cmd line e cut parse = absurd (digit_not_blank (ap first_or_zero cut))
cut_schedule-IsLone (a ∷ []) cmd line e cut parse =
    let q : a ≡ b'0' = ap first_or_zero cut in
    absurd (
      one_field-refused e (
        subst
          (λ x.
            cron_parse_expr (some (x ∷ [])) (some zeroed)
            ≡ some (record { target = some e; error = none }))
          q parse))
cut_schedule-IsLone (a ∷ b ∷ r) cmd line e cut parse =
    let q : a ≡ b'0' = ap first_or_zero cut in
    let q' : b ≡ b' ' = ap (λ s. first_or_zero (behind s)) cut in
    zero_schedule-IsLone r e (
      subst
        (λ x.
          cron_parse_expr (some x) (some zeroed) ≡ some (record { target = some e; error = none }))
        (ap (λ x. x ∷ b ∷ r) q ∙ ap (λ x. b'0' ∷ x ∷ r) q') parse)
