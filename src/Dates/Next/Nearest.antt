-- ===== src/Dates/Next/Nearest.antt =====
-- `find_next` of ccronexpr.c on a clock without gaps: it passes over no date of the expression.
use native.Mathlib.Decide.{dec_le}
use smart_device_svr.Base.{
  ℕ, ◌≤◌, ◌<◌, ◌≡◌, ◌≢◌, ◌∙◌, refl, sym, ◌⊎◌, inl, inr, true, false, Option, some, List, Bytes,
  arith,
}
use smart_device_svr.Base.Int.{pos, pos_part}
use smart_device_svr.Bitset.{member}
use smart_device_svr.Bitset.Search.{NoneIn}
use smart_device_svr.Calendar.{
  Tm, Clock, Field, second, to_unsigned, written, is_invalid, cron_mktime, least, add_to_field,
  reset_min, settle, ◌>>◌,
}
use smart_device_svr.Calendar.Fields.{code_of}
use smart_device_svr.Calendar.Monad.{then-some}
use smart_device_svr.Dates.Exact.{IsReal, IsExact, Moved, IsLone, Low}
use smart_device_svr.Dates.Exact.Sure.{Sure, sure, Sure-bind}
use smart_device_svr.Dates.Exact.Raise.{Raised, Refused, add_to_field-Raised}
use smart_device_svr.Dates.Exact.Resets.{put, put-IsReal, put-rank, put-settle, least_low}
use smart_device_svr.Dates.Match.{Matches}
use smart_device_svr.Dates.Rank.{
  IsNormal, rank, rank_at, rank_at-le, rank_at-lt, rank_at-written, value_of, written-IsNormal,
  rank_at-write_lt,
}
use smart_device_svr.Dates.Steady.{IsSteady, Below}
use smart_device_svr.Dates.Next.{write_value, find_next}
use smart_device_svr.Dates.Next.Digits.{IsDigit, Resets, LowSecond, put-LowSecond, write_value-Low}
use smart_device_svr.Dates.Next.Cases.{find_next_cases}
use smart_device_svr.Dates.Next.Find.{find_next_here, find_next_later, find_next_rolls}
use smart_device_svr.Dates.Next.Forward.{IsPlace}
use smart_device_svr.Expr.{CronExpr}
use smart_device_svr.Dates.Next.First.{reads_value, digit-first, written-value}

-- The search of a field ended where it began, on a member of the set; or it went forward to another
-- value, over no date of the expression.
abbrev pub Near : Clock → CronExpr → Field → Bytes → ℕ → Tm → Tm → ℕ → Type 0
Near c e f bits value t t' v =
    ((t' ≡ t) × (v ≡ value) × (member bits value ≡ true))
    ⊎ ((v ≢ value)
        × (rank t < rank t')
        × Moved c e t t'
        × (member bits (to_unsigned (value_of f t')) ≡ true))

module _ (c : Clock) (steady : IsSteady c) (exact : IsExact c) (s : ℕ) (e : CronExpr)
    (lone : IsLone s e) {f next : Field} {n max : ℕ} {bits : Bytes}
    (place : IsPlace f next n max bits) (digit : IsDigit f next)
    (inside : (u : Tm) → Matches e u → member bits (to_unsigned (value_of f u)) ≡ true) where
  module _ (lower : List (Option Field)) (below : Below (code_of f) lower) (resets : Resets f lower)
      (t : Tm) (real : IsReal c t) (low : LowSecond s f t)
      (valid : (u : Tm)
        → IsReal c u
        → rank t ≤ rank u
        → is_invalid (cron_mktime c u).1 ≡ false) where
    abbrev value : ℕ
    value = to_unsigned (value_of f t)

    abbrev Goal : Tm → ℕ → Type 0
    Goal = Near c e f bits value t

    -- A calendar that is later at a field has a time.
    valid_at :
        (g : Field) (u : Tm)
        → IsReal c u
        → rank_at g t < rank_at g u
        → is_invalid (cron_mktime c u).1 ≡ false
    valid_at g u ru up = valid u ru (omega (arith, rank_at-lt t u real.0 ru.0 g up))

    is_member :
        (i : ℕ) (t' : Tm)
        → IsNormal t'
        → pos_part (value_of f t') ≡ i
        → member bits i ≡ true
        → member bits (to_unsigned (value_of f t')) ≡ true
    is_member i t' norm' same on =
        let e : to_unsigned (value_of f t') ≡ i =
          reads_value c steady exact s e lone place digit inside t' norm' ∙ same in
        rw e on

    off_at :
        (lo hi : ℕ) (u : Tm)
        → IsNormal u
        → Matches e u
        → NoneIn (member bits) lo hi
        → lo ≤ pos_part (value_of f u)
        → pos_part (value_of f u) < hi
        → ⊥
    off_at lo hi u norm m none_in le lt =
        let on : member bits (pos_part (value_of f u)) ≡ true =
          rw (← reads_value c steady exact s e lone place digit inside u norm) (inside u m) in
        let off = none_in (pos_part (value_of f u)) le lt in cc

    later-Near :
        (i : ℕ)
        → value < i
        → i < max
        → member bits i ≡ true
        → NoneIn (member bits) value i
        → Sure (Refused c t) Goal (find_next c bits max value f next lower t)
    later-Near i gt lt on before =
        let reads = reads_value c steady exact s e lone place digit inside t real.0 in
        let w : Tm = written f (pos i) t in
        let up : rank_at f t < rank_at f w =
          rank_at-write_lt f i t (place.fits i lt) place.no_week (omega arith) in
        let (t', run, real', same, low') =
          write_value-Low c steady exact s f i lower t digit.low (place.fits i lt) below resets low
            real (λ u ru h. valid_at f u ru (omega arith)) in
        let (at_i, at_next) =
          written-value c steady exact s e lone place digit inside i t t' lt real.0 real'.0 same in
        let rank_up : rank t < rank t' = rank_at-lt t t' real.0 real'.0 f (omega arith) in
        rw
          (find_next_later c bits place.array place.small place.room f next lower t value i gt lt on
            before)
          (rw run (
            sure (
              inr (
                λ q. absurd (omega arith),
                rank_up,
                (
                  real',
                  omega arith,
                  λ u ru m le.
                      let next_le = rank_at-le t u real.0 ru.0 next le in
                      digit-first c steady exact s e lone place digit inside t' u real' low' ru m
                        (omega arith)
                        (λ q less.
                          off_at value i u ru.0 m before
                            (omega (
                              arith,
                              digit.order t u (sym at_next ∙ q) (rank_at-le t u real.0 ru.0 f le),
                            ))
                            (omega arith)),
                ),
                is_member i t' real'.0 at_i on,
              ))))

    -- A date after the roll-over.
    wrapped-first :
        (t1 t' u : Tm) (i : ℕ)
        → Raised c next t t1
        → NoneIn (member bits) value max
        → NoneIn (member bits) 0 i
        → IsReal c t'
        → Low s f t'
        → rank_at next t' ≡ rank_at next t1
        → pos_part (value_of f t') ≡ i
        → IsReal c u
        → Matches e u
        → rank t ≤ rank u
        → rank t' ≤ rank u
    wrapped-first t1 t' u i raised off before real' low' at_next at_i ru m le =
        elim (dec_le (rank_at next u) (rank_at next t)) [
          | yes here ↦
              let same : rank_at next t ≡ rank_at next u =
                omega (arith, rank_at-le t u real.0 ru.0 next le) in
              let up = digit.order t u same (rank_at-le t u real.0 ru.0 f le) in
              let (_, lt) = place.reads u ru.0 in
              absurd (
                off_at value max u ru.0 m off
                  (omega (arith, reads_value c steady exact s e lone place digit inside t real.0))
                  (omega (arith, reads_value c steady exact s e lone place digit inside u ru.0)))
          | no past ↦
              digit-first c steady exact s e lone place digit inside t' u real' low' ru m
                (omega (arith, raised.next u ru (omega arith)))
                (λ q less. off_at 0 i u ru.0 m before (omega arith) (omega arith))
        ]

    wrapped-Near :
        (t1 : Tm) (i : ℕ)
        → Raised c next t t1
        → NoneIn (member bits) value max
        → i < max
        → member bits i ≡ true
        → NoneIn (member bits) 0 i
        → i < value
        → Sure (Refused c t) Goal ((reset_min c f >> write_value c f i lower) t1)
    unfolding reset_min
    wrapped-Near t1 i raised off lt on before lower_value =
        let (zero_least, fits) = least_low c steady exact f digit.low in
        let t2 : Tm = put c steady exact f 0 t1 in
        let real2 = put-IsReal c steady exact f 0 t1 digit.low fits raised.real in
        let next2 : rank_at next t2 ≡ rank_at next t1 =
          put-rank c steady exact f 0 t1 digit.low fits raised.real next
          ∙ rank_at-written next f (pos 0) t1 place.above in
        let run2 : settle c (written f (least f)) t1 ≡ some (t2, some tt) = rw zero_least (
          put-settle c steady exact f 0 t1 digit.low fits raised.real
            (valid_at next t2 real2 (omega (arith, raised.up)))) in
        let low1 : LowSecond s f t1 =
          λ above. rw (raised.kept second (omega arith) (omega (arith, place.above))) (low above) in
        let low2 = put-LowSecond c steady exact s f 0 t1 digit.low fits raised.real low1 in
        let kept : rank_at next (written f (pos i) t2) ≡ rank_at next t2 =
          rank_at-written next f (pos i) t2 place.above in
        let (t', run, real', same, low') =
          write_value-Low c steady exact s f i lower t2 digit.low (place.fits i lt) below resets
            low2 real2
            (λ u ru h. valid_at next u ru (
              omega (
                arith,
                raised.up,
                place.carry (written f (pos i) t2) u
                    (written-IsNormal f i t2 (place.fits i lt) real2.0) ru.0 h,
              ))) in
        let (at_i, at_next) =
          written-value c steady exact s e lone place digit inside i t2 t' lt real2.0 real'.0
            same in
        let rank_up : rank t < rank t' =
          rank_at-lt t t' real.0 real'.0 next (omega (arith, raised.up)) in
        rw (then-some (reset_min c f) (λ done. write_value c f i lower) t1 t2 tt run2 ∙ run) (
          sure (
            inr (
              λ q. absurd (omega arith),
              rank_up,
              (
                real',
                omega arith,
                λ u ru m le.
                    wrapped-first t1 t' u i raised off before real' low' (at_next ∙ next2) at_i ru m
                      le,
              ),
              is_member i t' real'.0 at_i on,
            )))

    rolls-Near :
        (i : ℕ)
        → NoneIn (member bits) value max
        → i < max
        → member bits i ≡ true
        → NoneIn (member bits) 0 i
        → i < value
        → Sure (Refused c t) Goal (find_next c bits max value f next lower t)
    rolls-Near i off lt on before lower_value =
        rw
          (find_next_rolls c bits place.array place.small place.room f next lower t value i off lt
            on before)
          (Sure-bind {Q = λ t1 done. Raised c next t t1} (add_to_field c next (pos 1)) _ t
            (add_to_field-Raised c steady exact next t digit.next_low real)
            λ t1 done _ raised. wrapped-Near t1 i raised off lt on before lower_value)

    -- `find_next` on a date that exists, where the set has a member: an error, or it ends as `Near`
    -- says.
    pub find_next-Near : Sure (Refused c t) Goal (find_next c bits max value f next lower t)
    find_next-Near =
        find_next_cases {max = max} bits place.array place.small place.room value
          (λ lt on.
            rw (find_next_here c bits place.array place.small place.room f next lower t value lt on)
              (sure (inl (refl, refl, on))))
          later-Near rolls-Near place.some_value place.value_below place.value_in
