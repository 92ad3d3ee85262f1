-- ===== src/Case.antt =====
-- Changing the case of letters (case.c).
pub mod Shape
pub mod Step
pub mod Region
use jove.Base.{
  ℕ, zero, suc, ◌+◌, ◌++◌, ◌∷◌, Bool, Option, none, some, not, ◌&&◌, if◌then◌else◌, length, take,
  drop, get_or,
}
use jove.Base.Int.{ℤ, pos, negsuc}
use jove.Buffer.{Buffer, Bufpos, Text, line_at, eolp, right}
use jove.Outcome.{Outcome, ◌>>=◌, done, jump, endless}
use jove.Chars.{is_upper, is_lower, is_word, char_upcase, char_downcase}
use jove.Insert.{modify}
use jove.Move.{f_char, f_char_step, b_char, rounds}
use jove.Words.{eobp, to_word_ahead, f_word}
use jove.Region.{set_dot, dot, fixorder}
use jove.Delete.{same_place}

abbrev pub put_char : Text → ℕ → ℕ → Text
put_char t i c = take i t ++ c ∷ drop (suc i) t

-- `upper` and `lower` at a column, where there is the NUL behind the last character; `none` is NO.
unfoldable pub upper : Text → ℕ → Option Text
unfolding is_lower char_upcase
upper t i = let c = get_or t i 0 in if is_lower c then some (put_char t i (char_upcase c)) else none

unfoldable pub lower : Text → ℕ → Option Text
unfolding is_upper char_downcase
lower t i =
    let c = get_or t i 0 in if is_upper c then some (put_char t i (char_downcase c)) else none

-- `if (upper(&linebuf[curchar])) { modify(); ... }`, and the same with `lower`.
unfoldable pub changed : (Text → ℕ → Option Text) → Buffer → Buffer
changed f b = elim (f b.here.text b.curchar) [
  | none ↦ b
  | some t ↦ modify (record b { here = line_at b.here.id t })
]

-- The loop of `CapChar`.
unfoldable pub cap_chars : ℕ → Buffer → Buffer
unfolding changed upper f_char_step
cap_chars zero b = b
cap_chars (suc n) b = elim (f_char_step (changed upper b)) [
  | none ↦ changed upper b
  | some b' ↦ cap_chars n b'
]

-- `CapChar`, with the argument.
unfoldable pub cap_char : ℤ → Buffer → Outcome Buffer
unfolding cap_chars set_dot b_char
cap_char (pos n) b = done (cap_chars n b)
cap_char (negsuc n) b = set_dot (dot b) (cap_chars (suc n) (b_char (pos (suc n)) b))

-- One round of the inner loop of `CapWord`; `none` ends it.
unfoldable pub lower_step : Buffer → Option Buffer
unfolding changed lower eolp is_word
lower_step b =
    if not (eolp b) && is_word (get_or b.here.text b.curchar 0)
    then (let b' = changed lower b in some (record b' { curchar = b'.curchar + 1 }))
    else none

-- One round of its outer loop, from the beginning of the word on. The inner loop takes at most one
-- round for each character of the line.
unfoldable pub cap_here : Buffer → Buffer
unfolding changed upper lower_step rounds
cap_here b =
    let b' = changed upper b in
    rounds lower_step (length b.here.text) (record b' { curchar = b'.curchar + 1 })

-- The outer loop.
unfoldable pub cap_words : ℕ → Buffer → Buffer
unfolding to_word_ahead eobp cap_here
cap_words zero b = b
cap_words (suc n) b =
    let b' = to_word_ahead b in let rest = cap_words n (cap_here b') in if eobp b' then b' else rest

-- `CapWord`, with the argument.
unfoldable pub cap_word : ℤ → Buffer → Outcome Buffer
unfolding cap_words set_dot f_word
cap_word (pos n) b = done (cap_words n b)
cap_word (negsuc n) b = set_dot (dot b) (cap_words (suc n) (f_word (negsuc n) b))

-- A round of the loop of `case_reg`, up to `f_char(1)`.
unfoldable pub case_step : Bool → Buffer → Buffer
unfolding changed upper lower eolp
case_step up b = if eolp b then b else changed (if up then upper else lower) b

-- The loop of `case_reg`, for at most `n` rounds; `none` is that it has not come to the place `q`.
unfoldable pub case_loop : ℕ → Bool → Bufpos → Buffer → Option Buffer
unfolding case_step f_char
case_loop zero up q b = none
case_loop (suc n) up q b =
    let rest = case_loop n up q (f_char (pos 1) (case_step up b)) in
    if same_place (dot b) q then some b else rest

abbrev pub finished : Buffer → Option Buffer → Outcome Buffer
finished b none = jump endless b
finished b (some b') = done b'

-- `DotTo(line1, char1)` and the loop of `case_reg`, for places in order. Each round goes on by a
-- character, as long as there are any.
unfoldable pub case_ordered : Bool → Buffer → Bufpos × Bufpos × Bool → Outcome Buffer
case_ordered up b (p, q, exchanged) =
    set_dot p b >>= λ b1. finished b1 (case_loop (length (right b1) + 1) up q b1)

-- `case_reg`.
unfoldable pub case_reg : Bufpos → Bufpos → Bool → Buffer → Outcome Buffer
case_reg p q up b = case_ordered up b (fixorder p q b)

-- `case_word`, with the argument of `ForWord`.
unfoldable pub case_word : ℤ → Bool → Buffer → Outcome Buffer
case_word num up b = let b' = f_word num b in case_reg (dot b) (dot b') up b'

-- `CaseReg`, with the place of the mark.
unfoldable pub case_region : Bufpos → Bool → Buffer → Outcome Buffer
case_region m up b = case_reg (dot b) m up b >>= set_dot (dot b)
