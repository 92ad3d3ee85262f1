-- ===== src/Move.antt =====
-- Moving point by characters (move.c, util.c).
pub mod Char
pub mod Laws
use jove.Base.{ℕ, zero, suc, List, [], ◌∷◌, Option, none, some, ◌+◌, ◌-◌, length, ◌==◌}
use jove.Base.{if◌then◌else◌}
use jove.Base.Int.{ℤ, pos, negsuc}
use jove.Buffer.{Buffer, Line, bolp, eolp}

-- `SetLine(curline->l_next)`, unless there is no next line.
unfoldable pub next_line_start : Buffer → Option Buffer
next_line_start b = elim b.below [
  | [] ↦ none
  | l ∷ ls ↦ some (record b { above = b.here ∷ b.above; here = l; below = ls; curchar = 0 })
]

-- `SetLine(curline->l_prev); Eol()`.
unfoldable pub prev_line_end : Buffer → Option Buffer
prev_line_end b = elim b.above [
  | [] ↦ none
  | l ∷ ls ↦
      some (record b { above = ls; here = l; below = b.here ∷ b.below; curchar = length l.text })
]

-- One round of the loop of `f_char`; `none` is its `break`.
unfoldable pub f_char_step : Buffer → Option Buffer
unfolding eolp
f_char_step b = if eolp b then next_line_start b else some (record b { curchar = b.curchar + 1 })

unfoldable pub b_char_step : Buffer → Option Buffer
unfolding bolp
b_char_step b = if bolp b then prev_line_end b else some (record b { curchar = b.curchar - 1 })

-- `while (--n >= 0)` around one round, which may end in a `break`.
unfoldable pub rounds : (Buffer → Option Buffer) → ℕ → Buffer → Buffer
rounds step zero b = b
rounds step (suc n) b = elim (step b) [ none ↦ b | some b' ↦ rounds step n b' ]

unfoldable pub f_char : ℤ → Buffer → Buffer
f_char (pos n) b = rounds f_char_step n b
f_char (negsuc n) b = rounds b_char_step (suc n) b

unfoldable pub b_char : ℤ → Buffer → Buffer
b_char (pos n) b = rounds b_char_step n b
b_char (negsuc n) b = rounds f_char_step (suc n) b
