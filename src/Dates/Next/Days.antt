-- ===== src/Dates/Next/Days.antt =====
-- `find_next_day` of ccronexpr.c on a clock that only moves forward.
use smart_device_svr.Base.{
  ℕ, zero, suc, ◌≤◌, ◌<◌, ◌≡◌, refl, ◌⊎◌, inl, inr, Bool-cases, true, not, ◌&&◌, Option, some, List,
  Bytes, arith,
}
use smart_device_svr.Base.Int.{pos, pos_part}
use smart_device_svr.Bitset.{member}
use smart_device_svr.Bitset.Laws.{IsArray, cron_get_bit-member}
use smart_device_svr.Calendar.{
  Tm, Clock, Field, day_of_month, M, to_unsigned, get, attempt, add_to_field, reset_all_min, ◌>>=◌,
  ◌>>◌,
}
use smart_device_svr.Calendar.Fields.{code_of}
use smart_device_svr.Calendar.Outcome.{Post, ends, Post-bind, Post-map, attempt-Post}
use smart_device_svr.Dates.Rank.{IsNormal, rank_day, to_unsigned_value}
use smart_device_svr.Dates.Steady.{IsSteady, Later, Below, reset_all_min-Lands, add_to_field-Post}
use smart_device_svr.Dates.Steps.{day_mismatch}
use smart_device_svr.Dates.Next.{find_next_day_from, find_next_day}

pub mday_range : (t : Tm) → IsNormal t → (1 ≤ to_unsigned t.tm_mday) × (to_unsigned t.tm_mday < 32)
mday_range t n =
    let e : to_unsigned t.tm_mday ≡ pos_part t.tm_mday =
      to_unsigned_value t.tm_mday n.mday_range.0 (omega (arith, n.mday_range)) in
    (omega (arith, n.mday_range), omega (arith, n.mday_range))

pub wday_at_most : (t : Tm) → IsNormal t → to_unsigned t.tm_wday < 7
wday_at_most t n =
    let e : to_unsigned t.tm_wday ≡ pos_part t.tm_wday =
      to_unsigned_value t.tm_wday n.wday_range.0 (omega (arith, n.wday_range)) in
    omega (arith, n.wday_range)

-- The loop ended at once, on a day of both sets, or on a later day.
abbrev pub Stepped : Bytes → Bytes → ℕ → ℕ → Tm → Tm → ℕ → Type 0
Stepped doms dows mday wday t t' v =
    IsNormal t'
    × (((t' ≡ t) × (v ≡ mday) × ((member doms mday && member dows wday) ≡ true))
        ⊎ (rank_day t < rank_day t'))

module _ {doms dows : Bytes} (days : IsArray 4 doms) (weekdays : IsArray 1 dows) where
  -- The test of a day reads inside the two arrays.
  pub day_mismatch-member :
      (mday wday : ℕ)
      → mday < 32
      → wday < 8
      → day_mismatch doms mday dows wday ≡ some (not (member doms mday && member dows wday))
  unfolding day_mismatch
  day_mismatch-member mday wday dlt wlt =
      let by_month = cron_get_bit-member {n = 4} doms mday days (omega arith) (omega arith) in
      let by_week = cron_get_bit-member {n = 1} dows wday weekdays (omega arith) (omega arith) in
      elim (Bool-cases (member doms mday)) [
        | inl on ↦ rw (day_mismatch, by_month, on, by_week) refl
        | inr off ↦ rw (day_mismatch, by_month, off) refl
      ]

  -- On a day of both sets `find_next_day` stays, whatever the clock.
  pub find_next_day_here :
      (c : Clock) (resets : List (Option Field)) (mday wday : ℕ) (t : Tm)
      → mday < 32
      → wday < 8
      → (member doms mday && member dows wday) ≡ true
      → find_next_day c doms mday dows wday resets t ≡ some (t, some mday)
  unfolding find_next_day find_next_day_from
  find_next_day_here c resets mday wday t dlt wlt both =
      rw (find_next_day, find_next_day_from, day_mismatch-member mday wday dlt wlt, both) refl

  module _ (c : Clock) (steady : IsSteady c) (resets : List (Option Field))
      (below : Below (code_of day_of_month) resets) where
    abbrev from : ℕ → ℕ → ℕ → M ℕ
    from left mday wday = find_next_day_from c left doms mday dows wday resets

    -- The days that are left, where the day stands on a later one already.
    abbrev Rest : ℕ → Type 0
    Rest left =
        (t : Tm) (mday wday : ℕ)
        → mday < 32
        → wday < 8
        → IsNormal t
        → Post (λ t' v. Later day_of_month t t') (from left mday wday t)

    abbrev again : ℕ → M ℕ
    again left = do
      add_to_field c Field.day_of_month (pos 1)
      t ← get
      attempt (reset_all_min c resets)
      from left (to_unsigned t.tm_mday) (to_unsigned t.tm_wday)

    again-Post :
        (left : ℕ) (t : Tm)
        → Rest left
        → IsNormal t
        → Post (λ t' v. IsNormal t' × (rank_day t < rank_day t')) (again left t)
    again-Post left t rest n =
        Post-bind {Q = λ t' done. IsNormal t' × (rank_day t < rank_day t')}
          (add_to_field c Field.day_of_month (pos 1)) _ t
          (add_to_field-Post c steady day_of_month t n)
          λ t1 done _ (n1, up).
            Post-bind {Q = λ t' done. Later day_of_month t1 t'} (attempt (reset_all_min c resets)) _
              t1
              (attempt-Post (reset_all_min c resets) t1
                (reset_all_min-Lands c steady day_of_month resets t1 t1 below (n1, omega arith)))
              λ t2 done _ (n2, le2).
                Post-map
                  (rest t2 (to_unsigned t1.tm_mday) (to_unsigned t1.tm_wday) (mday_range t1 n1).1
                    (omega (arith, wday_at_most t1 n1)) n2)
                  λ t' v (n', le). (n', omega arith)

    step-Post :
        (left mday wday : ℕ) (t : Tm)
        → Rest left
        → mday < 32
        → wday < 8
        → IsNormal t
        → Post (Stepped doms dows mday wday t) (from (suc left) mday wday t)
    unfolding find_next_day_from
    step-Post left mday wday t rest dlt wlt n =
        elim (Bool-cases (member doms mday && member dows wday)) [
          | inl both ↦
              rw (day_mismatch-member mday wday dlt wlt, both) (ends (n, inl (refl, refl, both)))
          | inr mismatch ↦
              rw (day_mismatch-member mday wday dlt wlt, mismatch)
                (Post-map (again-Post left t rest n) λ t' v (n', up). (n', inr up))
        ]

    Stepped-Later :
        (mday wday : ℕ) (t t' : Tm) (v : ℕ)
        → Stepped doms dows mday wday t t' v
        → Later day_of_month t t'
    Stepped-Later mday wday t t' v (n, inl (same, _, _)) = (n, rw same (omega arith))
    Stepped-Later mday wday t t' v (n, inr up) = (n, omega arith)

    every-Rest : (left : ℕ) → Rest left
    unfolding find_next_day_from
    every-Rest zero t mday wday dlt wlt n =
        rw (day_mismatch-member mday wday dlt wlt) (ends (n, omega arith))
    every-Rest (suc left) t mday wday dlt wlt n =
        Post-map (step-Post left mday wday t (every-Rest left) dlt wlt n)
          (Stepped-Later mday wday t)

    -- For a clock that only moves forward, arrays of the sizes of the two day fields, resets of lower
    -- fields, and a calendar within the ranges: `find_next_day` ends, with no access outside an array,
    -- and reports an error, or stays on a day of both sets, or leaves a calendar within the ranges on a
    -- later day.
    pub find_next_day-Post :
        (t : Tm)
        → IsNormal t
        → Post
            (Stepped doms dows (to_unsigned t.tm_mday) (to_unsigned t.tm_wday) t)
            (find_next_day c doms (to_unsigned t.tm_mday) dows (to_unsigned t.tm_wday) resets t)
    unfolding find_next_day
    find_next_day-Post t n =
        step-Post 365 (to_unsigned t.tm_mday) (to_unsigned t.tm_wday) t (every-Rest 365)
          (mday_range t n).1 (omega (arith, wday_at_most t n)) n
