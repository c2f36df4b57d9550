-- ===== src/Dates/Next/Forward.antt =====
-- `find_next` of ccronexpr.c on a clock that only moves forward.
use smart_device_svr.Base.{
  ℕ, ◌*◌, ◌≤◌, ◌<◌, ◌≡◌, ◌≢◌, refl, ◌⊎◌, inl, inr, true, Option, List, Bytes, arith,
}
use smart_device_svr.Base.Int.{pos, pos_part}
use smart_device_svr.Bitset.{member}
use smart_device_svr.Bitset.Laws.{IsArray}
use smart_device_svr.Bitset.Search.{NoneIn}
use smart_device_svr.Calendar.{
  Tm, Clock, Field, second, day_of_week, to_unsigned, written, add_to_field, reset_min, set_field,
  reset_all_min,
}
use smart_device_svr.Calendar.Fields.{code_of, empty_list}
use smart_device_svr.Calendar.Outcome.{Post, ends, Post-bind, Post-map, Lands-Post}
use smart_device_svr.Dates.Rank.{
  IsNormal, rank_at, rank, rank_at-lt, rank_at-le, rank_at-written, value_of, Fits,
  written-IsNormal, rank_at-write_lt,
}
use smart_device_svr.Dates.Steady.{
  IsSteady, Later, Below, settle-Post, reset_min-Lands, reset_all_min-Lands, add_to_field-Post,
}
use smart_device_svr.Dates.Next.{write_value, find_next}
use smart_device_svr.Dates.Next.Cases.{find_next_cases}
use smart_device_svr.Dates.Next.Find.{find_next_here, find_next_later, find_next_rolls}

module _ (c : Clock) (steady : IsSteady c) where
  -- The write of a value, and the resets below: no earlier than the calendar with the value.
  pub write_value-Post :
      (f : Field) (i : ℕ) (l : List (Option Field)) (t : Tm)
      → Fits f i
      → Below (code_of f) l
      → IsNormal t
      → Post (λ t' v. (v ≡ i) × Later f (written f (pos i) t) t') (write_value c f i l t)
  unfolding write_value set_field
  write_value-Post f i l t fits below n =
      let w : Tm = written f (pos i) t in
      let n1 : IsNormal w = written-IsNormal f i t fits n in
      let (n2, le) = steady.keeps w n1 in
      Post-bind {Q = λ t' done. Later f w t'} (set_field c f (pos i)) _ t
        (settle-Post c (written f (pos i)) t λ valid. (n2, rank_at-le w _ n1 n2 f le))
        λ t1 done _ later.
          Post-bind {Q = λ t' done. Later f w t'} (reset_all_min c l) _ t1
            (Lands-Post (reset_all_min-Lands c steady f l w t1 below later))
            λ t2 done _ later. ends (refl, later)

  -- The same of the second, which has nothing below it, and stays as it is written.
  pub write_second-Post :
      (i : ℕ) (t : Tm)
      → i < 60
      → IsNormal t
      → Post
          (λ t' v. (v ≡ i) × Later second (written second (pos i) t) t' × (t'.tm_sec ≡ pos i))
          (write_value c second i empty_list t)
  unfolding write_value set_field reset_all_min
  write_second-Post i t fits n =
      let w : Tm = written second (pos i) t in
      let n1 : IsNormal w = written-IsNormal second i t fits n in
      let (n2, le) = steady.keeps w n1 in
      Post-bind {Q = λ t' done. Later second w t' × (t'.tm_sec ≡ pos i)}
        (set_field c second (pos i)) _ t
        (settle-Post c (written second (pos i)) t
          λ valid. ((n2, le), steady.keeps_second i t fits n))
        λ t1 done _ (later, same). ends (refl, later, same)

-- The search of a field ended where it began, on a member of the set; or it went forward to another
-- value.
abbrev pub Went : (Tm → Type 0) → Bytes → ℕ → Tm → Tm → ℕ → Type 0
Went Extra bits value t t' v =
    IsNormal t'
    × (((t' ≡ t) × (v ≡ value) × (member bits value ≡ true))
        ⊎ ((v ≢ value) × (rank t < rank t') × Extra t'))

-- A field with the one above it, and the array and the number of its values.
pub record IsPlace (f next : Field) (n max : ℕ) (bits : Bytes) : Type 0 where
  pub array : IsArray n bits
  pub small : n ≤ 256
  pub room : max ≤ 8 * n
  pub above : code_of f < code_of next
  pub no_week : f ≢ day_of_week
  pub fits : (i : ℕ) → i < max → Fits f i
  pub carry :
      (a b : Tm)
      → IsNormal a
      → IsNormal b
      → rank_at f a ≤ rank_at f b
      → rank_at next a ≤ rank_at next b
  pub some_value : ℕ
  pub value_below : some_value < max
  pub value_in : member bits some_value ≡ true
  pub reads :
      (t : Tm)
      → IsNormal t
      → (to_unsigned (value_of f t) ≡ pos_part (value_of f t)) × (to_unsigned (value_of f t) < max)

module _ (c : Clock) (steady : IsSteady c) {Extra : Tm → Type 0} {f next : Field} {n max : ℕ}
    {bits : Bytes} (place : IsPlace f next n max bits) (lower : List (Option Field))
    (writes : (i : ℕ) (t : Tm)
      → i < max
      → member bits i ≡ true
      → IsNormal t
      → Post
          (λ t' v. (v ≡ i) × Later f (written f (pos i) t) t' × Extra t')
          (write_value c f i lower t))
    (t : Tm) (norm : IsNormal t) where
  abbrev value : ℕ
  value = to_unsigned (value_of f t)

  abbrev Goal : Tm → ℕ → Type 0
  Goal = Went Extra bits value t

  here-Post :
      value < max → member bits value ≡ true → Post Goal (find_next c bits max value f next lower t)
  here-Post lt on =
      rw (find_next_here c bits place.array place.small place.room f next lower t value lt on)
        (ends (norm, inl (refl, refl, on)))

  later-Post :
      (i : ℕ)
      → value < i
      → i < max
      → member bits i ≡ true
      → NoneIn (member bits) value i
      → Post Goal (find_next c bits max value f next lower t)
  later-Post i gt lt on before =
      rw
        (find_next_later c bits place.array place.small place.room f next lower t value i gt lt on
          before)
        (Post-map (writes i t lt on norm) λ t' v (same, (n', le), extra).
          let (reads, _) = place.reads t norm in
          let up : rank_at f t < rank_at f (written f (pos i) t) =
            rank_at-write_lt f i t (place.fits i lt) place.no_week (omega arith) in
          (n', inr (λ e. absurd (omega arith), rank_at-lt t t' norm n' f (omega arith), extra)))

  rolls-Post :
      (i : ℕ)
      → NoneIn (member bits) value max
      → i < max
      → member bits i ≡ true
      → NoneIn (member bits) 0 i
      → i < value
      → Post Goal (find_next c bits max value f next lower t)
  rolls-Post i off lt on before below =
      rw
        (find_next_rolls c bits place.array place.small place.room f next lower t value i off lt on
          before)
        (Post-bind {Q = λ t' done. IsNormal t' × (rank_at next t < rank_at next t')}
          (add_to_field c next (pos 1)) _ t (add_to_field-Post c steady next t norm)
          λ t1 done _ (n1, up).
            Post-bind {Q = λ t' done. Later next t1 t'} (reset_min c f) _ t1
              (Lands-Post (reset_min-Lands c steady next f t1 place.above n1))
              λ t2 done _ (n2, le2). Post-map (writes i t2 lt on n2) λ t' v (same, (n', le), extra).
                let kept : rank_at next (written f (pos i) t2) ≡ rank_at next t2 =
                  rank_at-written next f (pos i) t2 place.above in
                let le' : rank_at next (written f (pos i) t2) ≤ rank_at next t' =
                  place.carry _ t' (written-IsNormal f i t2 (place.fits i lt) n2) n' le in
                (
                  n',
                  inr (
                    λ e. absurd (omega arith),
                    rank_at-lt t t' norm n' next (omega arith),
                    extra,
                  ),
                ))

  -- `find_next` on a calendar within the ranges, where the set has a member: an error, or it ends as
  -- `Went` says.
  pub find_next-Post : Post Goal (find_next c bits max value f next lower t)
  find_next-Post =
      find_next_cases {max = max} bits place.array place.small place.room value here-Post later-Post
        rolls-Post place.some_value place.value_below place.value_in
