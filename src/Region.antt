-- ===== src/Region.antt =====
-- Places in a buffer (util.c): the order of two positions, and moving point to one.
pub mod Seek
pub mod Order
use jove.Base.{
  ℕ, suc, ◌+◌, ◌≡◌, List, [], ◌∷◌, ◌++◌, Bool, true, false, ltb, ◌==◌, Option, none, some, not,
  if◌then◌else◌, length, min,
}
use jove.Buffer.{Buffer, Line, LinePtr, Bufpos}
use jove.Outcome.{Outcome, done, jump, stray_line}

-- The line with a given address, looked for upwards or downwards from a line, as a new focus.
seek_up : LinePtr → List Line → Line → List Line → Buffer → Option Buffer
seek_up k [] l below b =
    if l.id == k then some (record b { above = []; here = l; below = below }) else none
seek_up k (u ∷ above) l below b =
    let rest = seek_up k above u (l ∷ below) b in
    if l.id == k then some (record b { above = u ∷ above; here = l; below = below }) else rest

seek_down : LinePtr → List Line → Line → List Line → Buffer → Option Buffer
seek_down k above l [] b =
    if l.id == k then some (record b { above = above; here = l; below = [] }) else none
seek_down k above l (d ∷ below) b =
    let rest = seek_down k (l ∷ above) d below b in
    if l.id == k then some (record b { above = above; here = l; below = d ∷ below }) else rest

-- `curline = k`: following a pointer.
unfoldable pub to_line : LinePtr → Buffer → Option Buffer
unfolding seek_up seek_down
to_line k b =
    let down = seek_down k b.above b.here b.below b in
    elim (seek_up k b.above b.here b.below b) [ some b' ↦ some b' | none ↦ down ]

-- `DotTo` and `SetDot`: the column is cut to the length of the line.
unfoldable pub set_dot : Bufpos → Buffer → Outcome Buffer
set_dot p b = elim (to_line p.line b) [
  | none ↦ jump stray_line b
  | some b' ↦ done (record b' { curchar = min p.char (length b'.here.text) })
]

abbrev pub dot : Buffer → Bufpos
dot b = record { line = b.here.id; char = b.curchar }

-- The search of `inorder` for `endp`, outwards from a line: whether it lies below, and how many
-- lines away (`line_diff`); `none` if it is in neither direction.
unfoldable pub outward : LinePtr → ℕ → List Line → List Line → Option (Bool × ℕ)
outward endp n [] [] = none
outward endp n (d ∷ downs) [] =
    let rest = outward endp (suc n) downs [] in if d.id == endp then some (true, suc n) else rest
outward endp n [] (u ∷ ups) =
    let rest = outward endp (suc n) [] ups in if u.id == endp then some (false, suc n) else rest
outward endp n (d ∷ downs) (u ∷ ups) =
    let rest = outward endp (suc n) downs ups in
    if d.id == endp then some (true, suc n) else if u.id == endp then some (false, suc n) else rest

-- `inorder` with its first position on the line of `b`: the result and `line_diff`.
unfoldable pub inorder_from : Buffer → ℕ → LinePtr → ℕ → Option (Bool × ℕ)
unfolding outward
inorder_from b char1 endp char2 =
    if b.here.id == endp then some (ltb char1 char2, 0) else outward endp 0 b.below b.above

-- `inorder`; the first position has to be in the buffer, as its line is followed.
unfoldable pub inorder : Bufpos → Bufpos → Buffer → Option (Bool × ℕ)
unfolding inorder_from to_line
inorder p q b = elim (to_line p.line b) [
  | none ↦ none
  | some b' ↦ inorder_from b' p.char q.line q.char
]

-- `fixorder`, from what `inorder` gives: the two positions in order, and whether they were
-- exchanged. Positions that are in no order (`inorder` gives -1, which is true in C) stay.
abbrev pub reordered : Option (Bool × ℕ) → Bufpos → Bufpos → Bufpos × Bufpos × Bool
reordered none p q = (p, q, false)
reordered (some (true, n)) p q = (p, q, false)
reordered (some (false, n)) p q = (q, p, true)

unfoldable pub fixorder : Bufpos → Bufpos → Buffer → Bufpos × Bufpos × Bool
unfolding inorder
fixorder p q b = reordered (inorder p q b) p q
