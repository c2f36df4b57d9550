-- ===== src/Programs.antt =====
-- How the two programs around ccronexpr.c cut their argument in two: the word boundaries and the first
-- part of `main` of cron_next_epoch_time_this_line_should_execute.c, which
-- cron_last_epoch_time_this_line_was_supposedly_executed.c shares. A position is an index into a text;
-- the answer -1 is `none`. No text is NULL.
pub mod Words
pub mod Datetime
pub mod Run
pub mod Next
pub mod Last
pub mod Printing
pub mod Composed
pub mod Seconds
pub mod Answer
pub mod Finds
use smart_device_svr.Base.{
  ℕ, zero, suc, ◌+◌, Option, none, some, List, [], ◌∷◌, ◌++◌, Bytes, codes, ltb, leb, ◌==◌,
  if◌then◌else◌, length, take, drop, ◌>>=◌,
}

-- The loop that ends at a space or at the end of the text: where it ends, and the text from there on.
unfoldable pub to_space : Bytes → ℕ → ℕ × Bytes
to_space [] pos = (pos, [])
to_space (c ∷ string) pos = if c == b' ' then (pos, c ∷ string) else to_space string (pos + 1)

-- The loop over the spaces.
unfoldable pub skip_spaces : Bytes → ℕ → ℕ
skip_spaces [] pos = pos
skip_spaces (c ∷ string) pos = if c == b' ' then skip_spaces string (pos + 1) else pos

abbrev pub beginning_from : ℕ × Bytes → Option ℕ
beginning_from (pos, []) = none
beginning_from (pos, c ∷ string) = some (skip_spaces (c ∷ string) pos)

unfoldable pub position_of_beginning_of_next_word_boundary : Bytes → ℕ → Option ℕ
unfolding to_space skip_spaces
position_of_beginning_of_next_word_boundary string initial_pos =
    beginning_from (to_space (drop initial_pos string) initial_pos)

unfoldable pub position_of_end_of_next_word_boundary : Bytes → ℕ → ℕ
unfolding to_space
position_of_end_of_next_word_boundary string initial_pos =
    (to_space (drop initial_pos string) initial_pos).0

-- The loop over the words at `i`, with `left` rounds to go: `last_word_boundary_pos` and
-- `beginning_of_next_word_boundary` after it. `none` is `exit(1)`.
unfoldable pub find_words : ℕ → ℕ → Bytes → ℕ → ℕ → Option ℕ → Option (ℕ × Option ℕ)
unfolding position_of_beginning_of_next_word_boundary
find_words zero i line last word beginning = some (last, beginning)
find_words (suc left) i line last word beginning =
    elim (position_of_beginning_of_next_word_boundary line word) [
      | some pos ↦ find_words left (i + 1) line word pos (some pos)
      | none ↦ if ltb i 5 then none else find_words left (i + 1) line last word none
    ]

-- The text for `cron_parse_expr`, and what follows it, if there is a seventh word.
pub record CronLine : Type 0 where
  pub schedule : Bytes
  pub disposition : Option Bytes

abbrev pub cut_line : Bytes → ℕ × Option ℕ → CronLine
cut_line line (last, none) = record { schedule = line; disposition = none }
cut_line line (last, some pos) =
    let end = position_of_end_of_next_word_boundary line last in
    record { schedule = take end line; disposition = some (drop (end + 1) line) }

-- The size of the two buffers.
abbrev pub buffer_size : ℕ
buffer_size = 1000

-- Outer `none`: a byte is written past a buffer. Inner `none`: `exit(1)`.
unfoldable pub split_line : Bytes → Option (Option CronLine)
unfolding find_words
split_line argument =
    let line = codes "0 " ++ argument in
    if leb (length line + 1) buffer_size
    then elim (find_words 6 0 line 0 0 (some 0)) [
      | none ↦ some none
      | some found ↦ some (some (cut_line line found))
    ]
    else none
