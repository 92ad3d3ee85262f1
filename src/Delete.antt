-- ===== src/Delete.antt =====
-- Deletion of a region (delete.c), for positions that are in order.
pub mod View
pub mod Valid
pub mod Chars
use jove.Base.{
  ℕ, suc, ◌+◌, ◌-◌, List, [], ◌∷◌, ◌++◌, Bool, true, false, ltb, leb, ◌==◌, ◌&&◌, Option, none,
  some, if◌then◌else◌, length, take, drop,
}
use jove.Base.Int.{ℤ, pos, negsuc}
use jove.Buffer.{Buffer, Line, LinePtr, Bufpos, Text, line_at}
use jove.Outcome.{Outcome, done, jump, bell, fatal_too_long, stray_line, ◌>>=◌}
use jove.Marks.{d_fix_marks}
use jove.Insert.{lbsize, set_text, modify}
use jove.Move.{f_char, b_char}
use jove.Region.{to_line, set_dot, dot, fixorder}

-- The lines up to the one with a given address, and those after it.
unfoldable pub through : LinePtr → List Line → List Line
through k [] = []
through k (l ∷ ls) = let rest = through k ls in if l.id == k then l ∷ [] else l ∷ rest

unfoldable pub after : LinePtr → List Line → List Line
after k [] = []
after k (l ∷ ls) = let rest = after k ls in if l.id == k then ls else rest

abbrev pub ids : List Line → List LinePtr
ids [] = []
ids (l ∷ ls) = l.id ∷ ids ls

-- `linecopy(linebuf, curchar, from)`. Where it runs over the end of `linebuf` it has filled it.
unfoldable pub linecopy : ℕ → Text → Buffer → Outcome Buffer
linecopy at from b =
    if leb lbsize (at + length from)
    then jump fatal_too_long (set_text (take at b.here.text ++ take (lbsize - at) from) b)
    else done (set_text (take at b.here.text ++ from) b)

-- `patchup`, from the second line of its body: point stands at (line1, char1).
unfoldable pub join : ℕ → Bufpos → Buffer → Outcome Buffer
unfolding linecopy d_fix_marks through
join char1 q b = elim (to_line q.line b) [
  | none ↦ jump stray_line b
  | some b2 ↦ do
    joined ← linecopy b.curchar (drop q.char b2.here.text) (modify b)
    done (record joined {
      marks =
          d_fix_marks b.here.id char1 q.line q.char (ids (through q.line (b.here ∷ b.below)))
            joined.marks;
    })
]

-- `patchup`.
unfoldable pub patchup : Bufpos → Bufpos → Buffer → Outcome Buffer
unfolding set_dot join
patchup p q b = do b1 ← set_dot p b; join p.char q b1

-- `lremove`, with the current line as its first.
unfoldable pub lremove : LinePtr → Buffer → Buffer
unfolding after
lremove line2 b = if b.here.id == line2 then b else record b { below = after line2 b.below }

-- `patchup` and then the unlinking of the lines that are gone.
unfoldable pub cut : Bufpos → Bufpos → Buffer → Outcome Buffer
unfolding patchup lremove
cut p q b = do patched ← patchup p q b; done (lremove q.line patched)

-- The same for two positions in any order.
unfoldable pub erase : Bufpos → Bufpos → Buffer → Outcome Buffer
unfolding cut fixorder
erase p q b = let (p', q', _) = fixorder p q b in cut p' q' b

pub data Direction : Type 0 where
  forward backward : Direction

abbrev pub moved : Direction → ℤ → Buffer → Buffer
moved forward n b = f_char n b
moved backward n b = b_char n b

abbrev pub same_place : Bufpos → Bufpos → Bool
same_place p q = (p.line == q.line) && (p.char == q.char)

-- `del_char` where it does not save what it deletes.
unfoldable pub del_char : Direction → ℤ → Buffer → Outcome Buffer
del_char dir num b =
    let b' = moved dir num b in
    if same_place (dot b) (dot b') then jump bell b' else erase (dot b) (dot b') b'
