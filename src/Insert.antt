-- ===== src/Insert.antt =====
-- Insertion (insert.c, and `ins_c` of util.c).
pub mod View
pub mod Lines
use jove.Base.{
  ℕ, zero, suc, ◌+◌, ◌-◌, ◌^◌, List, [], ◌∷◌, ◌++◌, Bool, true, ltb, ◌==◌, Option, none, some,
  if◌then◌else◌, length, take, drop, replicate,
}
use jove.Base.Int.{ℤ, pos, negsuc}
use jove.Buffer.{Buffer, Line, Text, LinePtr, line_at}
use jove.Outcome.{Outcome, done, jump, too_long, ◌>>=◌}
use jove.Marks.{i_fix_marks}

-- `LBSIZE`, with the `LG_JBUFSIZ` of a present-day system (sysdep.h).
abbrev pub lbsize : ℕ
lbsize = 2 ^ 15

-- `ins_c`; `none` is its complaint. The tail and its NUL have to fit before the end of `buf`.
unfoldable pub ins_c : ℕ → Text → ℕ → ℕ → ℕ → Option Text
ins_c c buf atchar num max =
    if num == 0
    then some buf
    else if ltb max (atchar + (length (drop atchar buf) + 1) + num)
    then none
    else some (take atchar buf ++ (replicate num c ++ drop atchar buf))

abbrev pub set_text : Text → Buffer → Buffer
set_text t b = record b { here = line_at b.here.id t }

-- `modify`, as far as the buffer goes.
abbrev pub modify : Buffer → Buffer
modify b = record b { modified = true }

-- What `insert_c` does with the result of `ins_c`.
unfoldable pub place_inserted : ℕ → Buffer → Option Text → Outcome Buffer
unfolding i_fix_marks
place_inserted n b none = jump too_long b
place_inserted n b (some t) =
    done (record (i_fix_marks b.here.id b.curchar b.here.id (b.curchar + n) (set_text t b)) {
      curchar = b.curchar + n;
    })

unfoldable pub insert_c : ℕ → ℤ → Buffer → Outcome Buffer
unfolding place_inserted ins_c
insert_c c (negsuc n) b = done b
insert_c c (pos zero) b = done b
insert_c c (pos (suc n)) b =
    place_inserted (suc n) (modify b) (ins_c c b.here.text b.curchar (suc n) lbsize)

-- The loop of `LineInsert`: `listput(curbuf, newdot)` and `SavLine(newdot, NullStr)`, with the
-- focus on the new line.
unfoldable pub put_lines : ℕ → Buffer → Buffer
put_lines zero b = b
put_lines (suc n) b =
    put_lines n
      (record b { above = b.here ∷ b.above; here = line_at b.fresh []; fresh = suc b.fresh })

abbrev pub count_of : ℤ → ℕ
count_of (pos n) = n
count_of (negsuc n) = 0

-- `LineInsert`. The tail of the line goes to the last new line, also where there is none: then
-- `curline` is still the old line, and `linebuf` gets the tail alone.
unfoldable pub line_insert : ℤ → Buffer → Buffer
unfolding put_lines i_fix_marks
line_insert num b =
    let shortened = set_text (take b.curchar b.here.text) (modify b) in
    let opened = put_lines (count_of num) shortened in
    let filled = record (set_text (drop b.curchar b.here.text) opened) { curchar = 0 } in
    i_fix_marks b.here.id b.curchar filled.here.id 0 filled
