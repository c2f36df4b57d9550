-- ===== src/Tests/Parsing.antt =====
-- The parser of ccronexpr.c at concrete inputs.
use smart_device_svr.Base.{
  ◌≤◌, ◌≡◌, refl, inl, inr, none, some, List, [], ◌∷◌, codes, arith, Returns, length, replicate,
}
use smart_device_svr.Text.Replace.{starts_with, str_replace, replace_ordinals, days_arr}
use smart_device_svr.Text.Replace.Laws.{str_replace-replaced, replaced}
use smart_device_svr.Text.Replace.Ordinals.{replace_ordinals-numbered, numbered}
use smart_device_svr.Text.Split.{fields, split_str-fields}
use smart_device_svr.Text.{split_str, has_char}
use smart_device_svr.Text.Decimal.{sprintf_d, to_string}
use smart_device_svr.Text.Decimal.Laws.{to_string-sprintf_d}
use smart_device_svr.Text.Number.{parse_uint}
use smart_device_svr.Text.Number.Laws.{parse_uint-sprintf_d, parse_uint_leading_zero}
use smart_device_svr.Expr.{CronExpr, zeroed, invalid_number_of_fields}
use smart_device_svr.Expr.Range.{get_range}
use smart_device_svr.Expr.Range.Laws.{IsRange, get_range-IsRange}
use smart_device_svr.Expr.Hits.{Span, set_number_hits, mark_span}
use smart_device_svr.Expr.Hits.Marks.{Marked, mark_span-Marked}
use smart_device_svr.Expr.Hits.{read_span}
use smart_device_svr.Expr.Hits.Syntax.Laws.{Meaning, read_span-Meaning}
use smart_device_svr.Expr.Hits.Outcome.{ReadList, pieces, Outcome, set_number_hits-Outcome}
use smart_device_svr.Expr.Fields.{set_months, set_days_of_week}
use smart_device_svr.Expr.Fields.Laws.{Filled}
use smart_device_svr.Expr.Fields.Named.{
  ReadsMonths, ReadsWeek, set_months-Filled, set_days_of_week-Filled,
}
use smart_device_svr.Expr.Parse.{cron_parse_expr}
use smart_device_svr.Expr.Parse.Laws.{Sound}
use smart_device_svr.Expr.Parse.Total.{
  cron_parse_expr-Sound, cron_parse_expr_refuses, cron_parse_expr-IsWellFormed, IsWellFormed,
}
use smart_device_svr.Tests.Samples.{line, line_expr, hours, hours-IsArray}

cron_parse_expr-Sound_example :
    Returns (cron_parse_expr (some line) (some zeroed)) (Sound (fields b' ' line))
cron_parse_expr-Sound_example = cron_parse_expr-Sound line zeroed

cron_parse_expr-IsWellFormed_example : (e : CronExpr) × (some line_expr ≡ some e) × IsWellFormed e
unfolding cron_parse_expr split_str has_char get_range parse_uint to_string
cron_parse_expr-IsWellFormed_example =
    cron_parse_expr-IsWellFormed line zeroed (record { target = some line_expr; error = none }) refl
      refl

cron_parse_expr_refuses_example :
    cron_parse_expr (some (codes "* * *")) (some line_expr)
    ≡ some (record { target = some line_expr; error = some invalid_number_of_fields })
cron_parse_expr_refuses_example =
    cron_parse_expr_refuses (codes "* * *") line_expr (inr (omega arith))

set_number_hits-Outcome_example : Returns (set_number_hits (codes "8-18/5,23,24") hours 0 24) (λ h.
    (spans : List Span) × ReadList 0 24 (pieces (codes "8-18/5,23,24")) spans h.error
    × Outcome 3 0 24 spans hours h.target)
set_number_hits-Outcome_example =
    set_number_hits-Outcome {n = 3} {min = 0} {max = 24} (omega arith) (omega arith)
      (codes "8-18/5,23,24") hours hours-IsArray

split_str-fields_example :
    split_str (codes " a b, ,c,") b',' ≡ some (some (codes "ab" ∷ codes "c" ∷ []))
split_str-fields_example = split_str-fields (codes " a b, ,c,") b','

str_replace-replaced_example :
    str_replace (codes "TUE-TUE") (codes "TUE") (codes "2") ≡ some (codes "2-2")
unfolding replaced starts_with
str_replace-replaced_example =
    str_replace-replaced (codes "TUE-TUE") (codes "TUE") (codes "2") (omega arith) (omega arith)
      (omega arith) (omega arith)

replace_ordinals-numbered_example :
    (replace_ordinals (codes "MON-FRI") days_arr
      ≡ some (some (numbered 0 days_arr (codes "MON-FRI"))))
    × (length (numbered 0 days_arr (codes "MON-FRI")) ≤ length (codes "MON-FRI"))
replace_ordinals-numbered_example =
    replace_ordinals-numbered (codes "MON-FRI") days_arr (omega arith) (omega arith) (omega arith)

set_months-Filled_example :
    Returns
      (set_months (codes "jan,Mar") (replicate 2 0))
      (Filled 2 (ReadsMonths (codes "jan,Mar")))
set_months-Filled_example = set_months-Filled (codes "jan,Mar") (omega arith)

set_days_of_week-Filled_example :
    Returns (set_days_of_week (codes "5-7") (replicate 1 0)) (Filled 1 (ReadsWeek (codes "5-7")))
set_days_of_week-Filled_example = set_days_of_week-Filled (codes "5-7") (omega arith)

get_range-IsRange_example : Returns (get_range (codes "8-18") 0 24) (IsRange 0 24)
get_range-IsRange_example = get_range-IsRange (codes "8-18") 0 24

mark_span-Marked_example :
    Returns
      (mark_span (record { first = 8; last = 18; step = 5 }) hours)
      (Marked 3 hours (record { first = 8; last = 18; step = 5 }))
mark_span-Marked_example =
    mark_span-Marked {n = 3} (omega arith) (record { first = 8; last = 18; step = 5 }) hours
      hours-IsArray (omega arith) (omega arith) (omega arith)

parse_uint-sprintf_d_example : parse_uint (sprintf_d 59) ≡ some 59
parse_uint-sprintf_d_example = parse_uint-sprintf_d 59 (omega arith)

parse_uint_leading_zero_example : parse_uint (codes "08") ≡ none
parse_uint_leading_zero_example = parse_uint_leading_zero b'8' [] (inl refl)

to_string-sprintf_d_example : to_string 12 ≡ some (some (sprintf_d 12))
to_string-sprintf_d_example = to_string-sprintf_d 12

read_span-Meaning_example :
    Returns (read_span (codes "8-18/5") 0 24) (Meaning 0 24 (codes "8-18/5"))
read_span-Meaning_example = read_span-Meaning (codes "8-18/5") 0 24
