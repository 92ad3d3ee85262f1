-- ===== src/Outcome.antt =====
-- How a command ends: it returns, or it leaves by `complain` or `error`, which jump to the main
-- loop (jove.c) and keep what has been changed up to there.
use Prim.Native.Nat.{ℕ}

pub data Jump : Type 0 where
  -- complain((char *)NULL)
  bell : Jump
  -- len_error(JMP_COMPLAIN) and len_error(JMP_ERROR)
  too_long : Jump
  fatal_too_long : Jump
  -- complain("No mark.")
  no_mark : Jump
  -- the complaints of macros.c: "[Cannot execute macro recursively]", "[Cannot execute macro a
  -- negative number of times]", "Cannot define keyboard macro from macro or joverc",
  -- "[end-kbd-macro: not currently defining macro!]", "[No keyboard macro to name!]", "[Can't name
  -- while defining/executing]", "[Can't name it that!]" and "Macro too large"
  recursive_macro negative_count define_in_macro not_defining : Jump
  no_macro name_in_macro keyboard_name macro_too_large : Jump
  -- those of `DecodePair` (util.c) on a pair that stands for no character
  bad_pair : Jump
  -- that of `doformat` (fmt.c), with the letter it does not know, and that of `chr_to_long` (extend.c)
  unknown_directive : ℕ → Jump
  wrong_base : ℕ → Jump
  -- that of `rest_abbrevs` (abbrev.c), with the number of the line
  bad_abbrev : ℕ → Jump
  -- `onlyone` and `toosmall` of wind.c
  only_window window_too_small : Jump
  -- no jump, but a loop that does not end (`case_reg`)
  endless : Jump
  -- a pointer to a window that is not in the ring, which never happens
  stray_window : Jump
  -- a line pointer that is not in the buffer, which the source takes for granted never happens
  stray_line : Jump

pub data Outcome (S : Type 0) : Type 0 where
  done : S → Outcome S
  jump : Jump → S → Outcome S

-- The rest of a command runs on the state that the first part leaves.
infixl 5 ◌>>=◌
abbrev pub ◌>>=◌ : {S : Type 0} → Outcome S → (S → Outcome S) → Outcome S
done s >>= f = f s
jump j s >>= f = jump j s

-- The state that a command leaves, however it ends.
abbrev pub final : {S : Type 0} → Outcome S → S
final (done s) = s
final (jump j s) = s
