-- ===== src/Dates/Next/Sound.antt =====
-- `do_next` of ccronexpr.c on a clock that only moves forward.
use smart_device_svr.Base.{ℕ, zero, suc, ◌+◌, ◌≤◌, arith}
use smart_device_svr.Calendar.{Tm, Clock}
use smart_device_svr.Calendar.Outcome.{Post, Post-map}
use smart_device_svr.Dates.Exact.{IsReal}
use smart_device_svr.Dates.Rank.{rank, rank_bound, rank-lt-bound}
use smart_device_svr.Dates.Steady.{IsSteady}
use smart_device_svr.Dates.Next.{do_next}
use smart_device_svr.Expr.{CronExpr}
use smart_device_svr.Expr.Parse.Total.{IsWellFormed}
use smart_device_svr.Dates.Next.Progress.{DayTells, Found, InMonth-Matches}
use smart_device_svr.Dates.Next.Round.{search_round-Post}

-- For a clock that only moves forward, as `IsSteady` says, an expression as the parser leaves it,
-- for which the search of a day from a date that exists ends on the day number where it began only if
-- it did not move, and a date that exists: with fuel for every later calendar `do_next` ends, with no
-- access outside an array, and reports an error or leaves a date that exists, matches the expression
-- in every field and is no earlier than the first.
pub do_next-Sound :
    (c : Clock) (e : CronExpr) (fuel dot : ℕ) (t : Tm)
    → IsSteady c
    → IsWellFormed e
    → DayTells c e
    → IsReal c t
    → rank_bound ≤ fuel + rank t
    → Post (λ t' _. Found c e t t') (do_next c fuel e dot t)
unfolding do_next
do_next-Sound c e zero dot t steady w tells n enough = absurd (omega (arith, rank-lt-bound t n.0))
do_next-Sound c e (suc fuel) dot t steady w tells n enough =
    Post-map
      (search_round-Post c steady e w tells t (do_next c fuel e dot)
        (λ t1 n1 up. do_next-Sound c e fuel dot t1 steady w tells n1 (omega arith)) dot n)
      λ t' done (n', le, all). (n', InMonth-Matches e w t' n'.0 all, le)
