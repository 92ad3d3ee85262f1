-- ===== src/Lib.antt =====
-- JOVE, Jonathan's Own Version of Emacs: the text that it edits, the search of a line, the kill
-- ring, the arguments of commands, key maps, keyboard macros, abbreviations, formats and windows.
--
-- The editor keeps each buffer as a doubly linked list of lines (buf.h), with one line of the
-- current buffer copied to `linebuf`. Point (`curline`, `curchar`) and the marks are places in that
-- list. All editing goes through a few routines of util.c, insert.c, delete.c and marks.c, which
-- change lines and then fix the marks; the commands above them move point (move.c), search (re.c)
-- and save text in the kill ring (delete.c).
--
-- What is modelled, by file:
--   Outcome       the ways in which a command ends: it returns, or `complain` and `error` jump to
--                 the main loop (jove.c) and leave what has been changed so far.
--   Buffer        `struct line`, `struct mark`, `struct position` and `struct buffer` (buf.h). The
--                 list of lines is the line of point with the lines above, nearest first, and the
--                 lines below; a line pointer is a number. `left` and `right` are the characters
--                 before and after point over the whole buffer, the view that the theorems use.
--                 Buffer.View, Along and Valid hold the lemmas on it.
--   Move          `f_char` and `b_char` (move.c).
--   Words         `to_word` (util.c), `f_word` (move.c).
--   Marks         `MarkSet`, `MakeMark`, `IFixMarks`, `DFixMarks` (marks.c). Marks.Offset gives the
--                 place of a mark in the whole text.
--   MarkRing      the mark ring of a buffer: `do_set_mark`, `ExchPtMark`, `PopMark`, `SetMark` and
--                 `AllMarkReset` (marks.c). MarkRing.Places is the ring of the places of the marks.
--   Case          `CapChar`, `CapWord`, `case_reg` and what calls it (case.c). Case.Shape and Case.Step
--                 are about one round of its loop.
--   Insert        `ins_c` (util.c), `insert_c` and `LineInsert` (insert.c).
--   InsertString  `ins_str_wrap`, `ins_str` (insert.c).
--   Region        `SetDot`, `inorder`, `fixorder` (util.c).
--   Delete        `linecopy` (util.c), `patchup`, `lremove`, `del_char` (delete.c).
--   Kill          `reg_delete` (delete.c).
--   Yank          `DoYank` (insert.c), with the line of point as its destination.
--   KillRing      `AddKillRing`, `DelKillRing` (delete.c), the rotation of `YankPop` (insert.c).
--   Columns       `calc_pos` (disp.c), `how_far` (move.c), `DelWtSpace` (delete.c), `n_indent`
--                 (insert.c), `ToIndent` (misc.c), `blnkp`, `within_indent` (util.c).
--   Chars         the classes of jctype.h and jctype.c, without ISO_8859_1.
--   Search        `REmatch` and what it calls (re.c). The code that `REcompile` stores as bytes in
--                 `r_compbuf` is a tree here, a bit vector the list of its members. Search.Spec says
--                 independently what a pattern means.
--   Scan          the last part of `REcompile`, and `re_lindex` (re.c).
--   Argument      argcount.c. The keys that are typed are a list.
--   Macros        the list and the stack of keyboard macros (macros.c): `mac_getc`, `do_macro`,
--                 recording (`mac_putc`, `note_dispatch`, `Remember`, `Forget`), `MacDef`,
--                 `NameMac`. A pointer to a macro is its place in the list. Macros.Written has
--                 `pr_putc`, `WriteMacs` and the loop of `DefKBDMac`.
--   Format        `PPchar`, `putld`, `fmt_puts` (fmt.c), `DecodePair` (util.c), `chr_to_long`
--                 (extend.c); Format.Directives has `doformat` (fmt.c), with its arguments a list.
--                 Format.Items is what a format means, and Format.Reading is about the flags, the
--                 width and the precision.
--   Keymap        `km_getkey`, `km_nextkey`, `km_setkey` (keymaps.c), for values of any type; an array
--                 is a function from places.
--   Window        `div_wind`, `del_wind`, `WindSize`, `OneWindow` and the commands that call them
--                 (wind.c): the list of windows from `fwind` on, each with its height and buffer;
--                 `w_prev` and `w_next` are looked up in that list. Window.Ring and Neighbours have
--                 lemmas on it. Window.Range has `WindowRange`, with the counts of lines given,
--                 Window.Scroll `CalcWind` and `in_window`, with `prev_line` and `next_line` (buf.c).
--   Abbrev        the hash tables of abbreviations and `AbbrevExpand` (abbrev.c), where `ExecCmd` is a
--                 parameter. Abbrev.Word has lemmas on the word before point, and Abbrev.Recased is
--                 how a phrase takes the capitals of its word. Abbrev.Saved has
--                 `save_abbrevs`, `rest_abbrevs`, and `f_gets` (fp.c) on the bytes of a file; its
--                 children are about the chains, the lines and the whole of such a file.
--   Base          shared names, lists and numbers; Examples: the theorems at concrete values.
--
-- Numbers: a C `int` that counts columns or characters is a natural number where it cannot be
-- negative, and an integer (Base.Int) where the source tests its sign. `LBSIZE` is 2^15, as
-- `LG_JBUFSIZ` gives it (sysdep.h), and every copy into a line is tested against it as in the
-- source. A `long` has 64 bits and wraps around (Argument).
--
-- Loops: most are by recursion on the text or on a count. The others have a number of rounds:
--   `scan_forward`  one round for each position from the start to the NUL, so `re_lindex` never
--                   runs out of them;
--   `repeats`       one round more than there are bytes in the line; a round takes at least one
--                   byte unless the group is empty, and then the loop of the source never ends;
--   `fill_indent`   one round more than the goal column; each tab takes at least one column;
--   `to_word` and `f_word` (Words) one round for each character on that side of point;
--   `rotate`        at most as many rounds as are given to it; `YankPop` needs NUMKILLS;
--   `older_slot`    NMARKS rounds, which lead back to the slot where `PopMark` starts;
--   `read_key`      one call of `mac_getc` more than there are runs left of the macros on the stack;
--   `narrow`        one round for each binding, though half of them are ruled out by each;
--   `put_digits`    32 digits, the room in `putld`; a number of 64 bits has 22 at most;
--   `do_format`     one round for each character of the format, and one more;
--   `divide`        as many rounds as there are new windows;
--   `one_window`    one round more than there are windows;
--   `rest_lines`    one round more than there are bytes in the file; a line has its newline at least;
--   `case_loop`     one round more than there are characters after point;
--   `cap_here`      one round for each character of the line.
--
-- Not modelled: redisplay (`makedirty`, `ChkWindows`) and what a window shows (`w_top`, `w_line`,
-- `w_char`); the copy of the current line in `linebuf` and the blocks of the temporary file behind
-- `l_dline`, in place of which a line has its text; the recycling of line structures (`lfreelist`),
-- as the addresses are fresh numbers; the highlighting of marks. The variants of the source for
-- LISP, USE_CTYPE and ISO_8859_1 are left out. A text holds no NUL.
pub mod Base
pub mod Buffer
pub mod Move
pub mod Outcome
pub mod Marks
pub mod Insert
pub mod Region
pub mod Delete
pub mod Chars
pub mod Search
pub mod Scan
mod Examples
pub mod Yank
pub mod Kill
pub mod KillRing
pub mod Argument
pub mod Columns
pub mod Words
pub mod InsertString
pub mod MarkRing
pub mod Case
pub mod Macros
pub mod Format
pub mod Keymap
pub mod Window
pub mod Abbrev
