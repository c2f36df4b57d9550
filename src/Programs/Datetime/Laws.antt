-- ===== src/Programs/Datetime/Laws.antt =====
-- `try_to_parse_string_by_iso8601` of the two programs around ccronexpr.c against the texts that its
-- comment describes.
use smart_device_svr.Base.{
  ℕ, ◌≡◌, ◌∙◌, refl, ap, true, inl, inr, Option, some, ◌∷◌, Bytes, arith, leb, length, ◌>>=◌,
}
use smart_device_svr.Calendar.{Tm}
use smart_device_svr.Programs.Datetime.{
  read_elements, valid, judge, time_delimiter, parse_behind, parse_datetime,
}
use smart_device_svr.Programs.Datetime.Written.{
  two, Moment, IsMoment, extended, basic, calendar_at, read_elements-extended, read_elements-basic,
  judge-elements,
}
use smart_device_svr.Programs.Datetime.Delimiter.{
  Separates, strchr-date, strchr-dashed_date, strchr-time, strchr-colon_time, strchr_skip,
  strchr_found,
}

behind_ten :
    (current : Option Tm) (string : Bytes) (ts : Tm)
    → leb 14 (length string) ≡ true
    → parse_behind current string ts 10 ≡ (read_elements string 1 >>= judge current ts)
unfolding parse_behind
behind_ten current string ts long = rw long refl

module _ (m : Moment) (h : IsMoment m) (s : Bytes) (delimiter : ℕ)
    (sep : Separates delimiter s) where
  time_delimiter-extended : time_delimiter (extended delimiter m s) ≡ some 10
  time_delimiter-extended = elim sep [
    | inl e ↦
        rw
          (
            e,
            time_delimiter,
            strchr-dashed_date m h b' ' (omega arith) (b' ' ∷ two m.hour (b':' ∷ two m.minute s))
                refl,
            strchr_found b' ' (two m.hour (b':' ∷ two m.minute s)),
          )
          refl
    | inr (e, clean) ↦
        rw
          (
            e,
            time_delimiter,
            strchr-dashed_date m h b' ' (omega arith) (b'T' ∷ two m.hour (b':' ∷ two m.minute s))
                refl,
            strchr_skip b'T' b' ' (two m.hour (b':' ∷ two m.minute s)) refl,
            strchr-colon_time m h b' ' (omega arith) s refl clean,
            e,
            strchr-dashed_date m h b'T' (omega arith) (b'T' ∷ two m.hour (b':' ∷ two m.minute s))
                refl,
            strchr_found b'T' (two m.hour (b':' ∷ two m.minute s)),
          )
          refl
  ]

  time_delimiter-basic : time_delimiter (basic delimiter m s) ≡ some 8
  time_delimiter-basic = elim sep [
    | inl e ↦
        rw
          (
            e,
            time_delimiter,
            strchr-date m h b' ' (omega arith) (b' ' ∷ two m.hour (two m.minute s)),
            strchr_found b' ' (two m.hour (two m.minute s)),
          )
          refl
    | inr (e, clean) ↦
        rw
          (
            e,
            time_delimiter,
            strchr-date m h b' ' (omega arith) (b'T' ∷ two m.hour (two m.minute s)),
            strchr_skip b'T' b' ' (two m.hour (two m.minute s)) refl,
            strchr-time m h b' ' (omega arith) s clean,
            e,
            strchr-date m h b'T' (omega arith) (b'T' ∷ two m.hour (two m.minute s)),
            strchr_found b'T' (two m.hour (two m.minute s)),
          )
          refl
  ]

  -- A moment from 1900 to 2038 written as `YYYY-MM-DDTHH:MM`, or with a space for the `T`, is read
  -- back, whatever follows, if no space follows a `T`: `ts` holds its fields, second 0, and the flag
  -- for daylight saving of the present.
  pub parse_datetime-extended :
      (now ts : Tm)
      → parse_datetime (some now) (extended delimiter m s) ts ≡ some (valid (calendar_at m now ts))
  unfolding parse_datetime
  parse_datetime-extended now ts =
      rw (parse_datetime, time_delimiter-extended)
        (behind_ten (some now) (extended delimiter m s) ts (ground arith)
          ∙ ap (λ r. r >>= judge (some now) ts) (read_elements-extended m h s delimiter)
          ∙ judge-elements m h s now ts)

  -- A moment from 1900 to 2038 written as `YYYYMMDDTHHMM`, or with a space for the `T`, is read back,
  -- whatever follows, if no space follows a `T`: `ts` holds its fields, second 0, and the flag for
  -- daylight saving of the present.
  pub parse_datetime-basic :
      (now ts : Tm)
      → parse_datetime (some now) (basic delimiter m s) ts ≡ some (valid (calendar_at m now ts))
  unfolding parse_datetime parse_behind
  parse_datetime-basic now ts =
      let long : leb 12 (length (basic delimiter m s)) ≡ true = ground arith in
      rw (parse_datetime, time_delimiter-basic, long, read_elements-basic m h s delimiter)
        (judge-elements m h s now ts)
