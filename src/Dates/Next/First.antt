-- ===== src/Dates/Next/First.antt =====
-- The first date of an expression at a field of a time of day, for `find_next` of ccronexpr.c.
use native.Mathlib.Decide.{dec_le}
use smart_device_svr.Base.{ℕ, ◌≤◌, ◌<◌, ◌≡◌, sym, ap, true, Bytes, arith}
use smart_device_svr.Base.Int.{pos, pos_part}
use smart_device_svr.Bitset.{member}
use smart_device_svr.Calendar.{Tm, Clock, Field, to_unsigned, written}
use smart_device_svr.Calendar.Fields.{code_of}
use smart_device_svr.Dates.Exact.{IsReal, IsExact, IsLone, Low, Low-first, lone_second}
use smart_device_svr.Dates.Match.{Matches}
use smart_device_svr.Dates.Rank.{
  IsNormal, rank, rank_at, rank_at-written, value_of, written-IsNormal,
}
use smart_device_svr.Dates.Steady.{IsSteady}
use smart_device_svr.Dates.Next.Digits.{IsDigit}
use smart_device_svr.Dates.Next.Forward.{IsPlace}
use smart_device_svr.Expr.{CronExpr}

module _ (c : Clock) (steady : IsSteady c) (exact : IsExact c) (s : ℕ) (e : CronExpr)
    (lone : IsLone s e) {f next : Field} {n max : ℕ} {bits : Bytes}
    (place : IsPlace f next n max bits) (digit : IsDigit f next)
    (inside : (u : Tm) → Matches e u → member bits (to_unsigned (value_of f u)) ≡ true) where
  pub reads_value : (u : Tm) → IsNormal u → to_unsigned (value_of f u) ≡ pos_part (value_of f u)
  reads_value u normal = (place.reads u normal).0

  five : code_of f < 5
  five = omega (arith, digit.low)

  -- Where every value under the one of `t'` is none of the expression, `t'` is the first date.
  pub digit-first :
      (t' u : Tm)
      → IsReal c t'
      → Low s f t'
      → IsReal c u
      → Matches e u
      → rank_at next t' ≤ rank_at next u
      → (rank_at next t' ≡ rank_at next u → pos_part (value_of f u) < pos_part (value_of f t') → ⊥)
      → rank t' ≤ rank u
  digit-first t' u real' low real m le none_under = elim (dec_le (rank_at f t') (rank_at f u)) [
    | yes up ↦ Low-first s f t' u five low (lone_second s e u lone real.0 m.second_in) up
    | no under ↦
        let same : rank_at next t' ≡ rank_at next u =
          omega (arith, le, place.carry u t' real.0 real'.0 (omega arith)) in
        elim (dec_le (pos_part (value_of f t')) (pos_part (value_of f u))) [
          | yes more ↦ absurd (omega (arith, digit.order_back t' u same more))
          | no less ↦ absurd (none_under same (omega arith))
        ]
  ]

  -- The value that was written.
  pub written-value :
      (i : ℕ) (t t' : Tm)
      → i < max
      → IsNormal t
      → IsNormal t'
      → rank_at f t' ≡ rank_at f (written f (pos i) t)
      → (pos_part (value_of f t') ≡ i) × (rank_at next t' ≡ rank_at next t)
  written-value i t t' lt norm norm' same =
      let w : Tm = written f (pos i) t in
      let norm_w : IsNormal w = written-IsNormal f i t (place.fits i lt) norm in
      let kept : rank_at next w ≡ rank_at next t = rank_at-written next f (pos i) t place.above in
      let next_same : rank_at next t' ≡ rank_at next w = omega (
        arith,
        place.carry t' w norm' norm_w (omega arith),
        place.carry w t' norm_w norm' (omega arith),
      ) in
      let is_i : pos_part (value_of f w) ≡ i = ap pos_part (digit.wrote i t) in
      (
        omega (
          arith,
          digit.order t' w next_same (omega arith),
          digit.order w t' (sym next_same) (omega arith),
        ),
        omega arith,
      )
