-- ===== src/Tests/Endless.antt =====
-- A search backwards of ccronexpr.c that never ends.
use smart_device_svr.Base.{ℕ, zero, suc, ◌≡◌, refl, ap, Option, none, some}
use smart_device_svr.Base.Int.{pos, ◌+ℤ◌}
use smart_device_svr.Bitset.{prev_set_bit, cron_get_bit}
use smart_device_svr.Calendar.{
  Tm, M, second, minute, add_to_field, reset_max, set_field, reset_all_max, cron_mktime, settle,
  ◌>>=◌, ◌>>◌,
}
use smart_device_svr.Calendar.Monad.{then-none}
use smart_device_svr.Calendar.Fields.{
  empty_list, push_to_fields_arr, fill_first, has_field, same_field,
}
use smart_device_svr.Dates.Steps.{time_of, day_mismatch, answer_of, equal_ℤ}
use smart_device_svr.Dates.Prev.{
  find_prev, cron_prev, prev_of, find_prev_day, find_prev_day_from, roll_under,
}
use smart_device_svr.Dates.Prev
use smart_device_svr.Tests.Searches.{february}
use smart_device_svr.Tests.Utc.{utc}

-- Midnight of 31 March 2025.
abbrev march : Tm
march = record {
  tm_sec = pos 0;
  tm_min = pos 0;
  tm_hour = pos 0;
  tm_mday = pos 31;
  tm_mon = pos 2;
  tm_year = pos 125;
  tm_wday = pos 1;
  tm_isdst = pos 0;
}

-- A round of `do_prev` at a time of that day, and its recursive call.
abbrev at : ℕ → ℕ → ℕ → Tm
at h m s = record march { tm_hour = pos h; tm_min = pos m; tm_sec = pos s }

abbrev round : M (Unit {0}) → Tm → Option (Tm × Option (Unit {0}))
round again = Prev.search_round utc again february 125

midnight_round : (again : M (Unit {0})) → again (at 23 59 59) ≡ none → round again march ≡ none
unfolding Prev.search_round Prev.search_minute Prev.search_hour Prev.search_day Prev.search_month
    find_prev prev_set_bit find_prev_day find_prev_day_from day_mismatch add_to_field ◌+ℤ◌
    roll_under reset_max Prev.write_value set_field reset_all_max push_to_fields_arr cron_get_bit
    fill_first has_field same_field cron_mktime settle
midnight_round again h = h

late_round : (again : M (Unit {0})) → again (at 23 0 0) ≡ none → round again (at 23 59 59) ≡ none
unfolding Prev.search_round Prev.search_minute Prev.search_hour Prev.search_day Prev.search_month
    find_prev prev_set_bit find_prev_day find_prev_day_from day_mismatch add_to_field ◌+ℤ◌
    roll_under reset_max Prev.write_value set_field reset_all_max push_to_fields_arr cron_get_bit
    fill_first has_field same_field cron_mktime settle
late_round again h =
    then-none again (λ done. Prev.search_hour utc again february 125 empty_list) (at 23 0 0) h

hour_round : (again : M (Unit {0})) → again (at 0 59 59) ≡ none → round again (at 23 0 0) ≡ none
unfolding Prev.search_round Prev.search_minute Prev.search_hour Prev.search_day Prev.search_month
    find_prev prev_set_bit find_prev_day find_prev_day_from day_mismatch add_to_field ◌+ℤ◌
    roll_under reset_max Prev.write_value set_field reset_all_max push_to_fields_arr cron_get_bit
    fill_first has_field same_field cron_mktime settle
hour_round again h =
    then-none again
      (λ done.
        Prev.search_day utc again february 125
          (push_to_fields_arr (push_to_fields_arr empty_list second) minute))
      (at 0 59 59) h

minute_round : (again : M (Unit {0})) → again march ≡ none → round again (at 0 59 59) ≡ none
unfolding Prev.search_round Prev.search_minute Prev.search_hour Prev.search_day Prev.search_month
    find_prev prev_set_bit find_prev_day find_prev_day_from day_mismatch add_to_field ◌+ℤ◌
    roll_under reset_max Prev.write_value set_field reset_all_max push_to_fields_arr cron_get_bit
    fill_first has_field same_field cron_mktime settle
minute_round again h =
    then-none again (λ done. Prev.search_hour utc again february 125 empty_list) march h

-- Every round leads to another one, and after four of them to the calendar of the first: whatever the
-- fuel, `do_prev` runs out of it.
do_prev_never_ends : (fuel : ℕ) → Prev.do_prev utc fuel february 125 march ≡ none
unfolding Prev.do_prev
do_prev_never_ends zero = refl
do_prev_never_ends (suc zero) = midnight_round (Prev.do_prev utc 0 february 125) refl
do_prev_never_ends (suc (suc zero)) =
    midnight_round (Prev.do_prev utc 1 february 125)
      (late_round (Prev.do_prev utc 0 february 125) refl)
do_prev_never_ends (suc (suc (suc zero))) = midnight_round (Prev.do_prev utc 2 february 125) (
    late_round (Prev.do_prev utc 1 february 125)
      (hour_round (Prev.do_prev utc 0 february 125) refl))
do_prev_never_ends (suc (suc (suc (suc fuel)))) =
    midnight_round (Prev.do_prev utc (suc (suc (suc fuel))) february 125) (
      late_round (Prev.do_prev utc (suc (suc fuel)) february 125) (
        hour_round (Prev.do_prev utc (suc fuel) february 125)
          (minute_round (Prev.do_prev utc fuel february 125) (do_prev_never_ends fuel))))

-- So `cron_prev` never ends where midnight of every day of February is searched from that midnight.
cron_prev_never_ends : (fuel : ℕ) → cron_prev utc fuel (some february) (pos 1743379200) ≡ none
unfolding cron_prev prev_of time_of cron_mktime
cron_prev_never_ends fuel = ap answer_of (
    then-none (Prev.do_prev utc fuel february 125)
      (λ done. (do
        calculated ← time_of utc
        Prev.search_again utc fuel february (equal_ℤ calculated (pos 1743379200))
        time_of utc))
      march (do_prev_never_ends fuel))
