-- ===== src/Marks.antt =====
-- Marks (marks.c): positions that the editing commands keep up to date.
pub mod Offset
pub mod Inserted
use jove.Base.{◌≡◌, refl, ap₂, ◌∷◌}
use jove.Base.{
  ℕ, suc, ◌+◌, ◌-◌, ◌≤◌, List, [], map, Bool, true, false, ◌&&◌, not, ◌||◌, ltb, ◌==◌, Option, none,
  some, if◌then◌else◌, length,
}
use jove.Buffer.{Buffer, Line, LinePtr, Mark}

-- `MarkSet`, less the redisplay.
abbrev pub mark_set : LinePtr → ℕ → Mark → Mark
mark_set line column m = record m { line = line; char = column; big_delete = false }

-- `MakeMark`; `k` is the address of the new mark.
unfoldable pub make_mark : ℕ → LinePtr → ℕ → Buffer → Buffer
make_mark k line column b = record b {
  marks = record { id = k; line = line; char = column; big_delete = false } ∷ b.marks;
}

-- The body of the loop of `IFixMarks`.
unfoldable pub fix_inserted : LinePtr → ℕ → LinePtr → ℕ → Mark → Mark
fix_inserted line1 char1 line2 char2 m =
    if m.line == line1 && ltb char1 m.char
    then record m { line = line2; char = m.char + char2 - char1 }
    else m

unfoldable pub i_fix_marks : LinePtr → ℕ → LinePtr → ℕ → Buffer → Buffer
i_fix_marks line1 char1 line2 char2 b = record b {
  marks = map (fix_inserted line1 char1 line2 char2) b.marks;
}

-- The body of the inner loop of `DFixMarks`, for the line `lp`.
unfoldable pub fix_deleted : LinePtr → ℕ → LinePtr → ℕ → LinePtr → Mark → Mark
fix_deleted line1 char1 line2 char2 lp m =
    if m.line == lp && (not (lp == line1) || ltb char1 m.char)
    then (if lp == line2 && ltb char2 m.char
        then record m { line = line1; char = m.char + char1 - char2 }
        else record m {
          line = line1;
          char = char1;
          big_delete = if line1 == line2 then m.big_delete else true;
        })
    else m

-- The outer loop of `DFixMarks`, over the lines from `line1` to `line2`.
unfoldable pub d_fix_marks : LinePtr → ℕ → LinePtr → ℕ → List LinePtr → List Mark → List Mark
d_fix_marks line1 char1 line2 char2 [] ms = ms
d_fix_marks line1 char1 line2 char2 (lp ∷ lps) ms =
    d_fix_marks line1 char1 line2 char2 lps (map (fix_deleted line1 char1 line2 char2 lp) ms)

-- Something that holds of all marks.
abbrev pub Each : (Mark → Type 0) → List Mark → Type 0
Each P [] = Unit
Each P (m ∷ ms) = P m × Each P ms

pub map-Each :
    {A : Type 0} (P : Mark → Type 0) (f : Mark → Mark) (g h : Mark → A) (ms : List Mark)
    → ((m : Mark) → P m → g (f m) ≡ h m)
    → Each P ms
    → map g (map f ms) ≡ map h ms
map-Each P f g h [] e a = refl
map-Each P f g h (m ∷ ms) e a = ap₂ ◌∷◌ (e m a.0) (map-Each P f g h ms e a.1)
