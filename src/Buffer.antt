-- ===== src/Buffer.antt =====
-- The text of one buffer (buf.h): the list of lines between `b_first` and `b_last`, with `b_dot`
-- and `b_char`. A line pointer is the number of its line; the list is kept as the lines above dot,
-- the line of dot and the lines below it. A C string is the list of its bytes, without the NUL.
pub mod View
pub mod Along
pub mod Valid
use jove.Base.{◌≡◌, ◌⊎◌}
use jove.Base.{ℕ, ◌≤◌, ◌<◌, ◌≢◌, List, [], ◌∷◌, ◌++◌, Bool, length, take, drop, push_all, ◌==◌}

abbrev pub Text : Type 0
Text = List ℕ

-- `LinePtr`: the number stands for the address.
abbrev pub LinePtr : Type 0
LinePtr = ℕ

-- `struct line`. The links are given by the place in the list, and `l_dline` by the text that
-- `lcontents` finds for it (in `linebuf` for the current line, else in the temporary file).
pub record Line : Type 0 where
  pub id : LinePtr
  pub text : Text

-- `struct mark`; the chain by `m_next` is a list, and the address is the field `id`.
pub record Mark : Type 0 where
  pub id : ℕ
  pub line : LinePtr
  pub char : ℕ
  pub big_delete : Bool

-- `struct position`.
pub record Bufpos : Type 0 where
  pub line : LinePtr
  pub char : ℕ

-- The part of `struct buffer` that editing changes. `fresh` is the number of the line that
-- `nbufline` hands out next.
pub record Buffer : Type 0 where
  pub above : List Line
  pub here : Line
  pub below : List Line
  pub curchar : ℕ
  pub marks : List Mark
  pub fresh : LinePtr
  pub modified : Bool

abbrev pub line_at : LinePtr → Text → Line
line_at k t = record { id = k; text = t }

-- The macros of util.h.
unfoldable pub bolp : Buffer → Bool
bolp b = b.curchar == 0

unfoldable pub eolp : Buffer → Bool
eolp b = b.curchar == length b.here.text

-- From `b_first` to `b_last`.
abbrev pub lines : Buffer → List Line
lines b = push_all b.above (b.here ∷ b.below)

abbrev pub newline : ℕ
newline = 10

-- What stands before point, nearest first, and what stands after it, lines joined by newlines.
abbrev pub left_lines : List Line → Text
left_lines [] = []
left_lines (l ∷ ls) = newline ∷ push_all l.text (left_lines ls)

abbrev pub right_lines : List Line → Text
right_lines [] = []
right_lines (l ∷ ls) = newline ∷ (l.text ++ right_lines ls)

unfoldable pub left : Buffer → Text
left b = push_all (take b.curchar b.here.text) (left_lines b.above)

unfoldable pub right : Buffer → Text
right b = drop b.curchar b.here.text ++ right_lines b.below

-- The column of point lies within its line.
abbrev pub InLine : Buffer → Type 0
InLine b = b.curchar ≤ length b.here.text

-- No two lines have one address, and none has an address that is still to be handed out.
abbrev pub Apart : LinePtr → List Line → Type 0
Apart k [] = Unit
Apart k (l ∷ ls) = (k ≢ l.id) × Apart k ls

abbrev pub Distinct : List Line → Type 0
Distinct [] = Unit
Distinct (l ∷ ls) = Apart l.id ls × Distinct ls

abbrev pub Below : LinePtr → List Line → Type 0
Below n [] = Unit
Below n (l ∷ ls) = (l.id < n) × Below n ls

pub record IsValid (b : Buffer) : Type 0 where
  pub in_line : InLine b
  pub distinct : Distinct (lines b)
  pub allocated : Below b.fresh (lines b)

-- `b'` has its point in the same lines, at or below the line of `b`.
abbrev pub Ahead : Buffer → Buffer → Type 0
Ahead b b' =
    ((b'.above ≡ b.above) × (b'.here ≡ b.here) × (b'.below ≡ b.below))
    ⊎ ((mid : List Line) × (b'.above ≡ push_all mid (b.here ∷ b.above))
        × (b.below ≡ mid ++ b'.here ∷ b'.below))

-- All but the place of point.
abbrev pub SameRest : Buffer → Buffer → Type 0
SameRest b b' = (b'.marks ≡ b.marks) × (b'.fresh ≡ b.fresh) × (b'.modified ≡ b.modified)
