-- ===== src/Tests/Datetimes.antt =====
-- The reading of a date and time by the two programs around ccronexpr.c at concrete inputs.
use smart_device_svr.Base.{◌≡◌, refl, inl, inr, some, none, [], codes, arith}
use smart_device_svr.Base.Int.{pos}
use smart_device_svr.Programs.Datetime.{valid, malformed, parse_datetime, strchr, char_at}
use smart_device_svr.Programs.Datetime.Laws.{parse_datetime-extended, parse_datetime-basic}
use smart_device_svr.Programs.Datetime.Written.{extended, basic, calendar_at}
use smart_device_svr.Programs.Datetime.Errors.{
  Checked, parse_datetime-Checked, parse_datetime_overreads,
}
use smart_device_svr.Tests.Samples.{thursday, noon, noon-IsMoment}

parse_datetime-extended_example :
    parse_datetime (some thursday) (extended b'T' noon (codes ":00")) thursday
    ≡ some (valid (calendar_at noon thursday thursday))
parse_datetime-extended_example =
    parse_datetime-extended noon noon-IsMoment (codes ":00") b'T'
      (inr (refl, unfold strchr in refl)) thursday thursday

parse_datetime-basic_example :
    parse_datetime (some thursday) (basic b' ' noon []) thursday
    ≡ some (valid (calendar_at noon thursday thursday))
parse_datetime-basic_example =
    parse_datetime-basic noon noon-IsMoment [] b' ' (inl refl) thursday thursday

parse_datetime-Checked_example : Checked (calendar_at noon thursday thursday)
parse_datetime-Checked_example =
    parse_datetime-Checked (some thursday) (basic b' ' noon []) thursday
      (calendar_at noon thursday thursday)
      (parse_datetime-basic noon noon-IsMoment [] b' ' (inl refl) thursday thursday)

parse_datetime_overreads_example :
    parse_datetime (some thursday) (codes "20190208T12:") thursday ≡ none
parse_datetime_overreads_example =
    parse_datetime_overreads (some thursday) (codes "20190208T12:") thursday 0 (omega arith)
      (unfold strchr in refl) refl (unfold char_at in refl)

-- The date of the help text that is called malformed.
malformed_run : parse_datetime (some thursday) (codes "9999-99-99T99:99") thursday ≡ some malformed
unfolding parse_datetime
malformed_run = refl

-- The 75th minute is taken.
minute_run :
    parse_datetime (some thursday) (codes "2019-02-08T12:75") thursday
    ≡ some (valid (record (calendar_at noon thursday thursday) { tm_min = pos 75 }))
unfolding parse_datetime
minute_run = refl
