-- ===== src/Expr.antt =====
-- Cron expressions: the structure of ccronexpr.h, the error messages of ccronexpr.c, and its parser
-- in four layers, each a module below.
pub mod Range
pub mod Hits
pub mod Fields
pub mod Parse
use smart_device_svr.Base.{
  ℕ, Option, none, some, List, [], ◌∷◌, Bytes, replicate, ◌≡◌, refl, ◌⊎◌, inl, inr,
}

-- The strings that `*error` may point to.
pub data Message : Type 0 where
  uint_parse_error_1 uint_parse_error_2 uint_parse_error_3 uint_parse_error_4 : Message
  range_requires_two_fields range_exceeds_maximum range_less_than_minimum range_start_exceeds_end :
      Message
  comma_split_error incrementer_must_have_two_fields incrementer_may_not_be_zero : Message
  invalid_month_format invalid_day_format : Message
  null_expression null_target invalid_number_of_fields : Message

-- What a routine that may set `*error` returns.
pub data Result {ℓ} (A : Type ℓ) : Type ℓ where
  ok : A → Result A
  err : Message → Result A

-- The numbers of values of the fields, and the years that a search may go over.
abbrev pub cron_max_seconds : ℕ
cron_max_seconds = 60

abbrev pub cron_max_minutes : ℕ
cron_max_minutes = 60

abbrev pub cron_max_hours : ℕ
cron_max_hours = 24

abbrev pub cron_max_days_of_month : ℕ
cron_max_days_of_month = 32

abbrev pub cron_max_months : ℕ
cron_max_months = 12

abbrev pub cron_max_years_diff : ℕ
cron_max_years_diff = 4

pub record CronExpr : Type 0 where
  pub seconds : Bytes
  pub minutes : Bytes
  pub hours : Bytes
  pub days_of_week : Bytes
  pub days_of_month : Bytes
  pub months : Bytes

-- `memset(target, 0, sizeof(*target))`.
abbrev pub zeroed : CronExpr
zeroed = record {
  seconds = replicate 8 0;
  minutes = replicate 8 0;
  hours = replicate 3 0;
  days_of_week = replicate 1 0;
  days_of_month = replicate 4 0;
  months = replicate 2 0;
}

-- The parts of a split text, where their number is two.
abbrev pub two_fields : Option (List Bytes) → Option (Bytes × Bytes)
two_fields (some (a ∷ b ∷ [])) = some (a, b)
two_fields _ = none

-- Either a message is reported, or none is and the property holds.
abbrev pub OrError : Option Message → Type 0 → Type 0
OrError e P = ((m : Message) × (e ≡ some m)) ⊎ ((e ≡ none) × P)

pub or_error : {P : Type 0} (e : Option Message) → (e ≡ none → P) → OrError e P
or_error none f = inr (refl, f refl)
or_error (some m) f = inl (m, refl)

pub map_or_error : {P Q : Type 0} {e : Option Message} → (P → Q) → OrError e P → OrError e Q
map_or_error f (inl reported) = inl reported
map_or_error f (inr (q, p)) = inr (q, f p)
