-- ===== src/Examples/Indenting.antt =====
-- Columns and white space in a short line.
use jove.Base.{◌+◌, ◌-◌, ◌≡◌, [], ◌∷◌, false, arith}
use jove.Buffer.{Buffer, line_at}
use jove.Columns.{calc_pos, how_far, del_wt_space, n_indent}
use jove.Columns.Fars.{how_far-calc_pos}
use jove.Columns.Blanks.{Cleaned, del_wt_space-Cleaned}
use jove.Columns.Indent.{At, n_indent-At}

-- "a", a space, a tab, a space, "b", with point before the second space.
abbrev sample : Buffer
sample = record {
  above = [];
  here = line_at 7 (b'a' ∷ 32 ∷ 9 ∷ 32 ∷ b'b' ∷ []);
  below = [];
  curchar = 3;
  marks = [];
  fresh = 8;
  modified = false;
}

how_far-calc_pos_example : how_far 8 sample.here.text (calc_pos 8 sample.here.text 3) ≡ 3
how_far-calc_pos_example = how_far-calc_pos 8 sample.here.text 3 (omega arith)

del_wt_space-Cleaned_example : Cleaned sample (del_wt_space sample)
del_wt_space-Cleaned_example = del_wt_space-Cleaned sample (omega arith)

n_indent-At_example :
    At 8
      (calc_pos 8 (del_wt_space sample).here.text (del_wt_space sample).curchar
        + (19 - calc_pos 8 (del_wt_space sample).here.text (del_wt_space sample).curchar))
      (19 - calc_pos 8 (del_wt_space sample).here.text (del_wt_space sample).curchar)
      (del_wt_space sample)
      (n_indent 8 19 sample)
n_indent-At_example = n_indent-At 8 19 sample (omega arith) (omega arith)
