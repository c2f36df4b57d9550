-- ===== src/Tests/Lines.antt =====
-- The cut of the argument of the two programs around ccronexpr.c at concrete inputs.
use smart_device_svr.Base.{◌≡◌, refl, some, none, List, [], ◌∷◌, ◌++◌, Bytes, codes, arith}
use smart_device_svr.Programs.{
  CronLine, split_line, find_words, position_of_beginning_of_next_word_boundary, to_space,
  skip_spaces,
}
use smart_device_svr.Programs.Words.{joined, split_line-joined}

abbrev words : List Bytes
words = codes "0" ∷ codes "22" ∷ codes "*" ∷ codes "*" ∷ codes "mon" ∷ []

split_line-joined_example :
    (r : CronLine) × (split_line (joined words (codes "disable_wifi.sh")) ≡ some (some r))
    × (r.disposition ≡ some (codes "disable_wifi.sh"))
    × (r.schedule ++ b' ' ∷ codes "disable_wifi.sh"
        ≡ codes "0 " ++ joined words (codes "disable_wifi.sh"))
unfolding joined
split_line-joined_example =
    split_line-joined words (codes "disable_wifi.sh") refl
      (
        (refl, (refl, tt)),
        (
          (refl, (refl, (refl, tt))),
          ((refl, (refl, tt)), ((refl, (refl, tt)), ((refl, (refl, (refl, (refl, tt)))), tt))),
        ),
      )
      refl (omega arith)

-- Five words and no command.
no_command :
    split_line (codes "0 22 * * mon")
    ≡ some (some (record { schedule = codes "0 0 22 * * mon"; disposition = none }))
unfolding split_line find_words position_of_beginning_of_next_word_boundary to_space skip_spaces
no_command = refl

-- Four words: the program exits.
too_few_words : split_line (codes "0 22 * *") ≡ some none
unfolding split_line find_words position_of_beginning_of_next_word_boundary to_space skip_spaces
too_few_words = refl
