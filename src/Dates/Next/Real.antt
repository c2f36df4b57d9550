-- ===== src/Dates/Next/Real.antt =====
-- The searches of ccronexpr.c leave a calendar that `mktime` leaves as it is.
use smart_device_svr.Base.{
  ℕ, zero, suc, ◌≡◌, refl, ap, not, ◌||◌, ◌==◌, Option, none, some, List, [], ◌∷◌, Bytes,
  if◌then◌else◌,
}
use smart_device_svr.Base.Int.{ℤ, pos}
use smart_device_svr.Bitset.{next_set_bit}
use smart_device_svr.Calendar.{
  Tm, Clock, Field, day_of_month, pure, lift, attempt, to_unsigned, is_invalid, written, added,
  least, cron_mktime, settle, add_to_field, reset_min, set_field, reset_all_min,
}
use smart_device_svr.Calendar.Keeps.{Keeps, Keeps-bind, Keeps-lift, Keeps-if, Keeps-attempt}
use smart_device_svr.Dates.Steady.{IsSteady, settled}
use smart_device_svr.Dates.Steps.{day_mismatch}
use smart_device_svr.Dates.Next.{
  roll_over, write_value, find_next, find_next_day_from, find_next_day,
}

module _ (c : Clock) (steady : IsSteady c) where
  abbrev pub IsFixed : Tm → Type 0
  IsFixed t = (cron_mktime c t).0 ≡ t

  settle-Keeps : (change : Tm → Tm) → Keeps IsFixed (settle c change)
  settle-Keeps change t q =
      rw (settled c change t (is_invalid (cron_mktime c (change t)).1) refl)
        (ap (λ r. r.0) (steady.settles (change t)))

  pub add_to_field-Keeps : (f : Field) (n : ℤ) → Keeps IsFixed (add_to_field c f n)
  unfolding add_to_field
  add_to_field-Keeps f n = settle-Keeps (added f n)

  reset_min-Keeps : (f : Field) → Keeps IsFixed (reset_min c f)
  unfolding reset_min
  reset_min-Keeps f = settle-Keeps (written f (least f))

  set_field-Keeps : (f : Field) (n : ℤ) → Keeps IsFixed (set_field c f n)
  unfolding set_field
  set_field-Keeps f n = settle-Keeps (written f n)

  reset_all_min-Keeps : (l : List (Option Field)) → Keeps IsFixed (reset_all_min c l)
  unfolding reset_all_min
  reset_all_min-Keeps [] t q = q
  reset_all_min-Keeps (none ∷ l) t q = reset_all_min-Keeps l t q
  reset_all_min-Keeps (some f ∷ l) t q =
      Keeps-bind IsFixed (reset_min c f) _ (reset_min-Keeps f) (λ done. reset_all_min-Keeps l) t q

  write_value-Keeps :
      (f : Field) (value : ℕ) (l : List (Option Field)) → Keeps IsFixed (write_value c f value l)
  unfolding write_value
  write_value-Keeps f value l =
      Keeps-bind IsFixed (set_field c f (pos value)) _ (set_field-Keeps f (pos value))
        λ done. Keeps-bind IsFixed (reset_all_min c l) _ (reset_all_min-Keeps l) λ done t q. q

  roll_over-Keeps :
      (bits : Bytes) (max : ℕ) (f next : Field) → Keeps IsFixed (roll_over c bits max f next)
  unfolding roll_over
  roll_over-Keeps bits max f next =
      Keeps-bind IsFixed (add_to_field c next (pos 1)) _ (add_to_field-Keeps next (pos 1)) λ done.
        Keeps-bind IsFixed (reset_min c f) _ (reset_min-Keeps f)
          λ done. Keeps-lift IsFixed (next_set_bit bits max 0)

  pub find_next-Keeps :
      (bits : Bytes) (max value : ℕ) (f next : Field) (l : List (Option Field))
      → Keeps IsFixed (find_next c bits max value f next l)
  unfolding find_next
  find_next-Keeps bits max value f next l =
      Keeps-bind IsFixed (lift (next_set_bit bits max value)) _
        (Keeps-lift IsFixed (next_set_bit bits max value))
        λ found.
          Keeps-bind IsFixed (if found.1 then roll_over c bits max f next else pure found) _
            (Keeps-if IsFixed found.1 _ _ (roll_over-Keeps bits max f next) λ t q. q)
            λ last.
              Keeps-if IsFixed (last.1 || not (last.0 == value)) _ _ (write_value-Keeps f last.0 l)
                λ t q. q

  from-Keeps :
      (left : ℕ) (doms dows : Bytes) (mday wday : ℕ) (l : List (Option Field))
      → Keeps IsFixed (find_next_day_from c left doms mday dows wday l)
  unfolding find_next_day_from
  from-Keeps zero doms dows mday wday l =
      Keeps-bind IsFixed (lift (day_mismatch doms mday dows wday)) _
        (Keeps-lift IsFixed (day_mismatch doms mday dows wday)) λ b t q. q
  from-Keeps (suc left) doms dows mday wday l =
      Keeps-bind IsFixed (lift (day_mismatch doms mday dows wday)) _
        (Keeps-lift IsFixed (day_mismatch doms mday dows wday))
        λ b.
          Keeps-if IsFixed b _ _
            (Keeps-bind IsFixed (add_to_field c day_of_month (pos 1)) _
              (add_to_field-Keeps day_of_month (pos 1))
              λ done t q.
                Keeps-bind IsFixed (attempt (reset_all_min c l)) _
                  (Keeps-attempt IsFixed (reset_all_min c l) (reset_all_min-Keeps l))
                  (λ done.
                    from-Keeps left doms dows (to_unsigned t.tm_mday) (to_unsigned t.tm_wday) l)
                  t q)
            λ t q. q

  pub find_next_day-Keeps :
      (doms dows : Bytes) (mday wday : ℕ) (l : List (Option Field))
      → Keeps IsFixed (find_next_day c doms mday dows wday l)
  unfolding find_next_day
  find_next_day-Keeps doms dows mday wday l = from-Keeps 366 doms dows mday wday l
