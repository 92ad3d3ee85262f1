-- ===== src/Examples/Editing.antt =====
-- Moving, inserting and deleting in a small buffer.
use jove.Base.{
  true, some, none, if◌then◌else◌, ◌==◌, ◌≡◌, refl, [], ◌∷◌, ◌++◌, map, false, drop, replicate,
  arith,
}
use jove.Base.Int.{pos, negsuc}
use jove.Buffer.{Buffer, InLine, IsValid, SameRest, left, right, lines, line_at, newline, eolp}
use jove.InsertString.{ins_str}
use jove.InsertString.View.{Typed, ins_str-Typed}
use jove.Words.{f_word}
use jove.Words.Skip.{Ends}
use jove.Words.Forward.{past_words, f_word-past_words}
use jove.Buffer.{Ahead}
use jove.Outcome.{done, final}
use jove.Move.{f_char, rounds, f_char_step, next_line_start}
use jove.Move.Char.{gap}
use jove.Move.Laws.{moves_by, f_char-gap}
use jove.Marks.Offset.{mark_offset, shifted, point}
use jove.Marks.Inserted.{mark_offsets, insert_c-mark_offsets}
use jove.Insert.{insert_c, line_insert}
use jove.Insert.View.{Inserted, insert_c-Inserted}
use jove.Insert.Lines.{line_insert-gap}
use jove.Case.{cap_chars, changed, upper, case_reg}
use jove.Case.Region.{Cased, case_reg-Cased}
use jove.Region.{dot}
use jove.Chars.{is_lower, char_upcase}
use jove.MarkRing.{Marked}
use jove.MarkRing.Pushed.{Pushed}
use jove.Delete.{del_char, forward}
use jove.Delete.Chars.{del_char-forward}

-- "ab", "cd", point before the b, one mark after the c.
abbrev sample : Buffer
sample = record {
  above = [];
  here = line_at 7 (b'a' ∷ b'b' ∷ []);
  below = line_at 8 (b'c' ∷ b'd' ∷ []) ∷ [];
  curchar = 1;
  marks = record { id = 0; line = 8; char = 1; big_delete = false } ∷ [];
  fresh = 9;
  modified = false;
}

sample-IsValid : IsValid sample
sample-IsValid = record { in_line = omega arith; distinct = omega arith; allocated = omega arith }

forward_over_newline : gap (f_char (pos 2) sample) ≡ (newline ∷ b'b' ∷ b'a' ∷ [], b'c' ∷ b'd' ∷ [])
unfolding f_char rounds f_char_step next_line_start eolp left right
forward_over_newline = refl

f_char-gap_example :
    InLine (f_char (negsuc 3) sample)
    × (gap (f_char (negsuc 3) sample) ≡ moves_by (negsuc 3) (gap sample))
    × (lines (f_char (negsuc 3) sample) ≡ lines sample)
    × SameRest sample (f_char (negsuc 3) sample)
f_char-gap_example = f_char-gap (negsuc 3) sample (omega arith)

insert_c-Inserted_example : Inserted b'x' 3 sample (insert_c b'x' (pos 3) sample)
insert_c-Inserted_example = insert_c-Inserted b'x' 3 sample (omega arith) (omega arith)

line_insert-gap_example :
    gap (line_insert (pos 2) sample) ≡ (replicate 2 newline ++ left sample, right sample)
line_insert-gap_example = line_insert-gap 1 sample

insert_c-mark_offsets_example :
    mark_offsets (final (insert_c b'x' (pos 2) sample))
    ≡ map (λ m. shifted 2 (point sample) (mark_offset m sample)) sample.marks
insert_c-mark_offsets_example =
    insert_c-mark_offsets b'x' 2 sample (omega arith) (omega arith)
      (((λ e. omega arith), ((λ e. omega arith), tt)), tt)

del_char-forward_example :
    (b' : Buffer) × (del_char forward (pos 2) sample ≡ done b')
    × (gap b' ≡ (left sample, drop 2 (right sample)))
unfolding f_char rounds f_char_step next_line_start eolp right
del_char-forward_example =
    del_char-forward 2 sample sample-IsValid (omega arith) (λ e. cc) (omega arith)

f_word-past_words_example :
    Ends gap Ahead sample (past_words 2 (gap sample)) (f_word (pos 2) sample)
f_word-past_words_example = f_word-past_words 2 sample (omega arith)

ins_str-Typed_example :
    Typed (b'x' ∷ newline ∷ b'y' ∷ []) sample (ins_str (b'x' ∷ newline ∷ b'y' ∷ []) sample)
ins_str-Typed_example =
    ins_str-Typed (b'x' ∷ newline ∷ b'y' ∷ []) sample (omega arith) (omega arith)

-- The sample with its mark as the only one in the ring.
abbrev marked : Marked
marked = record { buffer = sample; slots = λ i. if i == 0 then some 0 else none; the_mark = 0 }

-- "ab", "cd" with an argument of 3 after the a: "aB", "Cd".
cap_chars_of_sample :
    lines (cap_chars 3 sample) ≡ line_at 7 (b'a' ∷ b'B' ∷ []) ∷ line_at 8 (b'C' ∷ b'd' ∷ []) ∷ []
unfolding cap_chars changed upper f_char_step is_lower char_upcase next_line_start eolp
cap_chars_of_sample = refl

case_reg-Cased_example :
    (b' : Buffer) × (case_reg (dot sample) (dot (f_char (pos 3) sample)) true sample ≡ done b')
    × (case_reg (dot (f_char (pos 3) sample)) (dot sample) true (f_char (pos 3) sample) ≡ done b')
    × Cased true 3 sample b'
unfolding right
case_reg-Cased_example = case_reg-Cased true 3 sample sample-IsValid (omega arith) (omega arith)
