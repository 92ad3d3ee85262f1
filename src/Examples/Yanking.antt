-- ===== src/Examples/Yanking.antt =====
-- Killing and yanking in a small buffer.
use jove.Base.{refl, [], ◌∷◌, false, arith, inr}
use jove.Buffer.{Buffer, IsValid, line_at}
use jove.Region.Order.{Before}
use jove.Kill.Region.{Kept, reg_delete-Kept}
use jove.Kill.Yanked.{PutBack, reg_delete-do_yank}
use jove.Yank.{last_of}
use jove.Yank.View.{Restored, do_yank-Restored}

-- "ab", "cd", "ef", point after the a.
abbrev upper : Buffer
upper = record {
  above = [];
  here = line_at 7 (b'a' ∷ b'b' ∷ []);
  below = line_at 8 (b'c' ∷ b'd' ∷ []) ∷ line_at 3 (b'e' ∷ b'f' ∷ []) ∷ [];
  curchar = 1;
  marks = record { id = 0; line = 8; char = 1; big_delete = false } ∷ [];
  fresh = 9;
  modified = false;
}

-- The same with point after the e.
abbrev lower : Buffer
lower = record upper {
  above = line_at 8 (b'c' ∷ b'd' ∷ []) ∷ line_at 7 (b'a' ∷ b'b' ∷ []) ∷ [];
  here = line_at 3 (b'e' ∷ b'f' ∷ []);
  below = [];
}

upper-IsValid : IsValid upper
upper-IsValid = record { in_line = omega arith; distinct = omega arith; allocated = omega arith }

upper-Before : Before upper lower
upper-Before = (inr (line_at 8 (b'c' ∷ b'd' ∷ []) ∷ [], refl, refl), (λ e. absurd (omega arith)))

do_yank-Restored_example :
    Restored (line_at 1 (b'x' ∷ [])) (line_at 2 (b'y' ∷ b'z' ∷ []) ∷ []) upper
unfolding last_of
do_yank-Restored_example =
    do_yank-Restored (line_at 1 (b'x' ∷ [])) (line_at 2 (b'y' ∷ b'z' ∷ []) ∷ []) upper upper-IsValid
      (omega arith, omega arith)

reg_delete-Kept_example : Kept upper lower
reg_delete-Kept_example =
    reg_delete-Kept upper lower upper-IsValid.distinct upper-Before (omega arith) (omega arith)
      (omega arith) (omega arith) (omega arith)

reg_delete-do_yank_example : PutBack upper lower
reg_delete-do_yank_example =
    reg_delete-do_yank upper lower upper-IsValid upper-Before (omega arith) (omega arith)
      (omega arith) (omega arith)
