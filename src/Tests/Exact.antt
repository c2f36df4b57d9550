-- ===== src/Tests/Exact.antt =====
-- The search of ccronexpr.c at a concrete clock without gaps.
use smart_device_svr.Base.{
  ◌≡◌, refl, ◌⊎◌, not, ◌||◌, some, arith, ◌==◌, every_below, every_below-at, Returns,
}
use smart_device_svr.Base.Int.{pos, negsuc}
use smart_device_svr.Bitset.{member}
use smart_device_svr.Calendar.{Tm, cron_mktime}
use smart_device_svr.Dates.Exact.{IsReal, IsAfterEpoch, Moved, IsLone}
use smart_device_svr.Dates.Exact.Sure.{Sure}
use smart_device_svr.Dates.Match.{Matches}
use smart_device_svr.Dates.Rank.{rank_bound}
use smart_device_svr.Dates.Next.{do_next, cron_next}
use smart_device_svr.Dates.Next.NearestDay.{Stuck}
use smart_device_svr.Dates.Next.Least.{
  IsEveryMonth, IsNext, IsBlocked, do_next-Least, cron_next-Least,
}
use smart_device_svr.Dates.Next.Progress.{TellsDays, DayTells-TellsDays}
use smart_device_svr.Tests.Forward.{
  evening, evening-IsWellFormed, evening-DayTells, thursday-IsNormal,
}
use smart_device_svr.Tests.Ideal.{ideal, ideal-IsSteady}
use smart_device_svr.Tests.IdealExact.{ideal-IsExact, time_at}
use smart_device_svr.Tests.Samples.{thursday}

evening-TellsDays : TellsDays ideal evening
evening-TellsDays = DayTells-TellsDays ideal evening evening-DayTells

pub after_epoch : (t : Tm) → IsAfterEpoch ideal t
after_epoch t u (n, _) le = rw (time_at u n) refl

pub thursday-IsReal : IsReal ideal thursday
unfolding cron_mktime
thursday-IsReal = (thursday-IsNormal, refl)

evening-IsLone : IsLone 0 evening
unfolding every_below member
evening-IsLone j lt on =
    let table = every_below-at 60 (λ k. (k == 0) || not (member evening.seconds k)) j refl lt in
    ground arith

evening-IsEveryMonth : IsEveryMonth evening
unfolding every_below member
evening-IsEveryMonth m h = ground (arith, every_below-at 12 (λ k. member evening.months k) m refl h)

do_next-Least_example :
    Sure
      (Stuck ideal evening thursday)
      (λ t' _. Matches evening t' × Moved ideal evening thursday t')
      (do_next ideal rank_bound evening 125 thursday)
do_next-Least_example =
    do_next-Least ideal 0 evening rank_bound 125 thursday ideal-IsSteady ideal-IsExact
      evening-IsWellFormed evening-IsLone evening-IsEveryMonth evening-TellsDays thursday-IsReal
      (after_epoch thursday) (omega arith)

cron_next-Least_example :
    Returns (cron_next ideal rank_bound (some evening) (pos 1763044200)) (λ time.
      ((time ≡ negsuc 0) × IsBlocked ideal evening thursday) ⊎ IsNext ideal evening thursday time)
cron_next-Least_example =
    cron_next-Least ideal 0 evening rank_bound (pos 1763044200) thursday ideal-IsSteady
      ideal-IsExact evening-IsWellFormed evening-IsLone evening-IsEveryMonth evening-TellsDays refl
      thursday-IsReal (after_epoch thursday) (omega arith)
