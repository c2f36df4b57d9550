-- ===== src/Programs/Words.antt =====
-- The word boundaries of the two programs around ccronexpr.c, and the cut of their argument.
use smart_device_svr.Base.{
  ℕ, zero, suc, ◌+◌, ◌≡◌, ◌∙◌, refl, ap, sym, true, false, Option, some, List, [], ◌∷◌, ◌++◌, Bytes,
  codes, arith, leb, ◌==◌, length, take, drop, All, Returns, ◌≤◌,
}
use smart_device_svr.Programs.{
  to_space, skip_spaces, position_of_beginning_of_next_word_boundary,
  position_of_end_of_next_word_boundary, find_words, CronLine, cut_line, buffer_size, split_line,
}

-- A text with no space.
abbrev pub IsWord : Bytes → Type 0
IsWord w = All (λ c. (c == b' ') ≡ false) w

to_space-IsWord :
    (w s : Bytes) (p : ℕ) → IsWord w → to_space (w ++ b' ' ∷ s) p ≡ (p + length w, b' ' ∷ s)
unfolding to_space
to_space-IsWord [] s p h = ap (λ q. (q, b' ' ∷ s)) (omega arith)
to_space-IsWord (c ∷ w) s p (hc, h) =
    rw (hc, to_space-IsWord w s (p + 1) h) (ap (λ q. (q, b' ' ∷ s)) (omega arith))

drop-append : (w s : Bytes) → drop (length w) (w ++ s) ≡ s
drop-append [] s = refl
drop-append (c ∷ w) s = drop-append w s

drop-nil : (n : ℕ) → drop {A = ℕ} n [] ≡ []
drop-nil zero = refl
drop-nil (suc n) = refl

suc_plus : (a b : ℕ) → suc a + b ≡ suc (a + b)
suc_plus a b = omega arith

drop-drop : (a b : ℕ) (s : Bytes) → drop (a + b) s ≡ drop b (drop a s)
drop-drop zero b s = ap (λ n. drop n s) (omega arith)
drop-drop (suc a) b [] = rw (suc_plus a b, drop-nil b) refl
drop-drop (suc a) b (c ∷ s) = rw (suc_plus a b) (drop-drop a b s)

take-drop : (n : ℕ) (s : Bytes) → take n s ++ drop n s ≡ s
take-drop zero s = refl
take-drop (suc n) [] = refl
take-drop (suc n) (c ∷ s) = ap (λ r. c ∷ r) (take-drop n s)

-- The first byte is there, and is not a space.
abbrev pub Starts : Bytes → Type 0
Starts [] = ⊥
Starts (c ∷ s) = (c == b' ') ≡ false

-- The words, each followed by a space, and then the command.
unfoldable pub joined : List Bytes → Bytes → Bytes
joined [] cmd = cmd
joined (w ∷ ws) cmd = w ++ b' ' ∷ joined ws cmd

Starts-append : (w s : Bytes) → Starts w → Starts (w ++ s)
Starts-append [] s h = absurd h
Starts-append (c ∷ w) s h = h

joined-Starts :
    (ws : List Bytes) (cmd : Bytes)
    → All (λ w. Starts w × IsWord w) ws
    → Starts cmd
    → Starts (joined ws cmd)
unfolding joined
joined-Starts [] cmd h start = start
joined-Starts (w ∷ ws) cmd ((hw, _), h) start = Starts-append w _ hw

skip_one : (s : Bytes) (p : ℕ) → Starts s → skip_spaces (b' ' ∷ s) p ≡ p + 1
unfolding skip_spaces
skip_one [] p h = absurd h
skip_one (c ∷ s) p h = rw h refl

module _ (line w s : Bytes) (p : ℕ) (hw : IsWord w) (here : drop p line ≡ w ++ b' ' ∷ s) where
  end_of_word : position_of_end_of_next_word_boundary line p ≡ p + length w
  unfolding position_of_end_of_next_word_boundary
  end_of_word = rw (position_of_end_of_next_word_boundary, here, to_space-IsWord w s p hw) refl

  next_word :
      Starts s → position_of_beginning_of_next_word_boundary line p ≡ some (p + length w + 1)
  unfolding position_of_beginning_of_next_word_boundary
  next_word h = rw (here, to_space-IsWord w s p hw) (ap some (skip_one s (p + length w) h))

  behind_word : drop (p + length w) line ≡ b' ' ∷ s
  behind_word = drop-drop p (length w) line ∙ rw here (drop-append w (b' ' ∷ s))

  after_word : drop (p + length w + 1) line ≡ s
  after_word = drop-drop (p + length w) 1 line ∙ rw behind_word refl

-- The last word found: where it begins, and that the command follows it.
pub record Found (line cmd : Bytes) (found : ℕ × Option ℕ) : Type 0 where
  pub last : ℕ
  pub word : Bytes
  pub next : ℕ
  pub answer : found ≡ (last, some next)
  pub is_word : IsWord word
  pub here : drop last line ≡ word ++ b' ' ∷ cmd

find_words-Found :
    (ws : List Bytes) (w line cmd : Bytes) (i last word : ℕ) (beginning : Option ℕ)
    → IsWord w
    → All (λ v. Starts v × IsWord v) ws
    → Starts cmd
    → drop word line ≡ w ++ b' ' ∷ joined ws cmd
    → Returns (find_words (suc (length ws)) i line last word beginning) (Found line cmd)
unfolding find_words joined
find_words-Found [] w line cmd i last word beginning hw h start here =
    rw (find_words, next_word line w cmd word hw here start)
      (
        _,
        refl,
        record { last = word; word = w; next = _; answer = refl; is_word = hw; here = here },
      )
find_words-Found (v ∷ ws) w line cmd i last word beginning hw ((sv, hv), h) start here =
    rw
      (find_words, next_word line w (v ++ b' ' ∷ joined ws cmd) word hw here (Starts-append v _ sv))
      (find_words-Found ws v line cmd (i + 1) word (word + length w + 1)
        (some (word + length w + 1)) hv h start
        (after_word line w (v ++ b' ' ∷ joined ws cmd) word hw here))

-- The cut of a line of which the words were found.
cut_line-Found :
    (line cmd : Bytes) (found : ℕ × Option ℕ)
    → Found line cmd found
    → ((cut_line line found).disposition ≡ some cmd)
      × ((cut_line line found).schedule ++ b' ' ∷ cmd ≡ line)
cut_line-Found line cmd found f =
    rw (f.answer, end_of_word line f.word cmd f.last f.is_word f.here)
      (
        ap some (after_word line f.word cmd f.last f.is_word f.here),
        ap (λ r. take (f.last + length f.word) line ++ r)
              (sym (behind_word line f.word cmd f.last f.is_word f.here))
            ∙ take-drop (f.last + length f.word) line,
      )

-- For an argument of five words, each followed by one space, and a command that begins with no
-- space, of at most 997 bytes in all: the program does not exit and writes past no buffer, the
-- disposition is the command, and the schedule is what stands before the space in front of the
-- command, with a field 0 for the seconds put first.
pub split_line-joined :
    (ws : List Bytes) (cmd : Bytes)
    → length ws ≡ 5
    → All (λ w. Starts w × IsWord w) ws
    → Starts cmd
    → length (joined ws cmd) + 3 ≤ buffer_size
    → (r : CronLine) × (split_line (joined ws cmd) ≡ some (some r))
      × (r.disposition ≡ some cmd)
      × (r.schedule ++ b' ' ∷ cmd ≡ codes "0 " ++ joined ws cmd)
unfolding split_line
split_line-joined ws cmd five h start fits =
    let line : Bytes = codes "0 " ++ joined ws cmd in
    let (found, run, f) =
      find_words-Found ws (codes "0") line cmd 0 0 0 (some 0) (refl, tt) h start refl in
    let six : suc (length ws) ≡ 6 = omega arith in
    let room : leb (length line + 1) buffer_size ≡ true = ground arith in
    let (disposition, schedule) = cut_line-Found line cmd found f in
    rw (room, rw six at run) (cut_line line found, refl, disposition, schedule)
