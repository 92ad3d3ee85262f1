-- ===== src/Words.antt =====
-- Moving point by words (util.c: `to_word`; move.c: `f_word`).
pub mod Skip
pub mod Steps
pub mod Forward
use jove.Base.{
  ℕ, zero, suc, ◌+◌, ◌-◌, [], ◌∷◌, Bool, true, false, ◌&&◌, not, ◌==◌, Option, none, some,
  if◌then◌else◌, length, get_or,
}
use jove.Base.Int.{ℤ, pos, negsuc}
use jove.Buffer.{Buffer, bolp, eolp, left, right}
use jove.Chars.{is_word}
use jove.Move.{next_line_start, prev_line_end, rounds}

-- `bobp` and `eobp`.
unfoldable pub bobp : Buffer → Bool
unfolding bolp
bobp b = elim b.above [ [] ↦ bolp b | l ∷ ls ↦ false ]

unfoldable pub eobp : Buffer → Bool
unfolding eolp
eobp b = elim b.below [ [] ↦ eolp b | l ∷ ls ↦ false ]

-- One round of the loop of `to_word(FORWARD)`; `none` is its `break`.
unfoldable pub word_ahead_step : Buffer → Option Buffer
unfolding eolp next_line_start is_word
word_ahead_step b =
    if eolp b
    then next_line_start b
    else if is_word (get_or b.here.text b.curchar 0)
    then none
    else some (record b { curchar = b.curchar + 1 })

-- One of `to_word(BACKWARD)`.
unfoldable pub word_behind_step : Buffer → Option Buffer
unfolding bolp prev_line_end is_word
word_behind_step b =
    if bolp b
    then prev_line_end b
    else if is_word (get_or b.here.text (b.curchar - 1) 0)
    then none
    else some (record b { curchar = b.curchar - 1 })

-- `to_word`, whose loops take at most one round for each character on that side of point.
unfoldable pub to_word_ahead : Buffer → Buffer
unfolding rounds word_ahead_step right
to_word_ahead b = rounds word_ahead_step (length (right b)) b

unfoldable pub to_word_behind : Buffer → Buffer
unfolding rounds word_behind_step left
to_word_behind b = rounds word_behind_step (length (left b)) b

-- The inner loops of `f_word`, with the same bound.
unfoldable pub through_word_step : Buffer → Option Buffer
unfolding eolp is_word
through_word_step b =
    if not (eolp b) && is_word (get_or b.here.text b.curchar 0)
    then some (record b { curchar = b.curchar + 1 })
    else none

unfoldable pub back_through_word_step : Buffer → Option Buffer
unfolding bolp is_word
back_through_word_step b =
    if not (bolp b) && is_word (get_or b.here.text (b.curchar - 1) 0)
    then some (record b { curchar = b.curchar - 1 })
    else none

unfoldable pub forward_word : Buffer → Buffer
unfolding to_word_ahead through_word_step
forward_word b = let b' = to_word_ahead b in rounds through_word_step (length (right b')) b'

unfoldable pub backward_word : Buffer → Buffer
unfolding to_word_behind back_through_word_step
backward_word b = let b' = to_word_behind b in rounds back_through_word_step (length (left b')) b'

-- The outer loops of `f_word`, with their `break` at the edge of the buffer.
unfoldable pub words_ahead : ℕ → Buffer → Buffer
unfolding forward_word eobp
words_ahead zero b = b
words_ahead (suc n) b =
    let b' = forward_word b in let rest = words_ahead n b' in if eobp b' then b' else rest

unfoldable pub words_behind : ℕ → Buffer → Buffer
unfolding backward_word bobp
words_behind zero b = b
words_behind (suc n) b =
    let b' = backward_word b in let rest = words_behind n b' in if bobp b' then b' else rest

unfoldable pub f_word : ℤ → Buffer → Buffer
unfolding words_ahead words_behind
f_word (pos n) b = words_ahead n b
f_word (negsuc n) b = words_behind (suc n) b
