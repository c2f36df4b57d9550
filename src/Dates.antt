-- ===== src/Dates.antt =====
-- The searches of ccronexpr.c for the next and the previous date of an expression.
pub mod Exact
pub mod Match
pub mod Rank
pub mod Steady
pub mod Next
pub mod Prev
pub mod Steps
