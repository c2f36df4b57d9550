-- ===== src/Tests.antt =====
-- Runs of ccronexpr.c at concrete inputs.
pub mod Utc
pub mod Lines
pub mod Samples
pub mod Parsing
pub mod Routines
pub mod Searches
pub mod Datetimes
pub mod Ends
pub mod Forward
pub mod Exact
pub mod Workdays
pub mod Ideal
pub mod IdealExact
pub mod Endless
