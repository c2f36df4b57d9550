-- ===== src/Dates/Exact/Raise.antt =====
-- `add_to_field` of ccronexpr.c on a clock without gaps.
use smart_device_svr.Base.{◌≤◌, ◌<◌, ◌≡◌, ap, true}
use smart_device_svr.Base.Int.{pos}
use smart_device_svr.Calendar.{Tm, Clock, Field, added, is_invalid, cron_mktime, add_to_field}
use smart_device_svr.Calendar.Fields.{code_of}
use smart_device_svr.Dates.Exact.{IsReal, IsExact}
use smart_device_svr.Dates.Exact.Sure.{Sure, Sure-map, settle-Sure}
use smart_device_svr.Dates.Rank.{rank_at, value_of}
use smart_device_svr.Dates.Steady.{IsSteady}

-- The next date at the field, with the time of day below it as it was.
pub record Raised (c : Clock) (f : Field) (t t1 : Tm) : Type 0 where
  pub real : IsReal c t1
  pub up : rank_at f t < rank_at f t1
  pub next : (u : Tm) → IsReal c u → rank_at f t < rank_at f u → rank_at f t1 ≤ rank_at f u
  pub kept : (g : Field) → code_of g < 3 → code_of g < code_of f → value_of g t1 ≡ value_of g t

-- `mktime` reports an error where a field is raised.
pub record Refused (c : Clock) (t : Tm) : Type 0 where
  pub field : Field
  pub low : code_of field < 5
  pub refused : is_invalid (cron_mktime c (added field (pos 1) t)).1 ≡ true

pub add_to_field-Raised :
    (c : Clock) (steady : IsSteady c) (exact : IsExact c) (f : Field) (t : Tm)
    → code_of f < 5
    → IsReal c t
    → Sure (Refused c t) (λ t1 _. Raised c f t t1) (add_to_field c f (pos 1) t)
unfolding add_to_field
add_to_field-Raised c steady exact f t five real =
    Sure-map
      (settle-Sure {Q = Raised c f t} c (added f (pos 1)) t λ valid.
        let (norm, up) = steady.carries f t real.0 valid in
        record {
          real = (norm, ap (λ r. r.0) (steady.settles (added f (pos 1) t)));
          up = up;
          next = λ u ru h. exact.raises f t u five real ru valid h;
          kept = λ g three below. exact.leaves_below f g t three below five real valid;
        })
      (λ why. record { field = f; low = five; refused = why }) λ t1 done raised. raised
