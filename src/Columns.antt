-- ===== src/Columns.antt =====
-- Screen columns (disp.c: `calc_pos`; move.c: `how_far`) and white space around point (delete.c,
-- insert.c, misc.c, util.c).
pub mod Fars
pub mod Blanks
pub mod Indent
use jove.Base.{
  ℕ, zero, suc, ◌+◌, ◌-◌, ◌%◌, List, [], ◌∷◌, ◌++◌, Bool, true, false, not, ◌&&◌, ltb, leb, ◌==◌,
  if◌then◌else◌, length, take, drop,
}
use jove.Base.Int.{ℤ, pos, negsuc, sub_ℕ}
use jove.Buffer.{Buffer, Text}
use jove.Chars.{is_print, is_white}
use jove.Outcome.{Outcome, done, jump, ◌>>=◌}
use jove.Marks.{d_fix_marks}
use jove.Insert.{insert_c, set_text, modify}

abbrev pub tab_char : ℕ
tab_char = 9

abbrev pub space : ℕ
space = 32

-- `TABDIST` (screen.h); `tab` is the variable `tabstop`.
abbrev pub tab_dist : ℕ → ℕ → ℕ
tab_dist tab col = tab - col % tab

-- How many columns a character takes at a column. `DEL` is 127.
unfoldable pub char_width : ℕ → ℕ → ℕ → ℕ
unfolding is_print
char_width tab col c =
    if c == tab_char && not (tab == 0)
    then tab_dist tab col
    else if is_print c
    then 1
    else if leb c 127
    then 2
    else 4

-- `calc_pos`: the column of the `n`-th character, from a column on.
unfoldable pub calc_from : ℕ → ℕ → Text → ℕ → ℕ
unfolding char_width
calc_from tab col [] n = col
calc_from tab col (c ∷ cs) zero = col
calc_from tab col (c ∷ cs) (suc n) = calc_from tab (col + char_width tab col c) cs n

abbrev pub calc_pos : ℕ → Text → ℕ → ℕ
calc_pos tab t n = calc_from tab 0 t n

-- `how_far`, from the `i`-th character and its column on.
unfoldable pub how_far_from : ℕ → ℕ → ℕ → Text → ℕ → ℕ
unfolding char_width
how_far_from tab col i [] goal = i
how_far_from tab col i (c ∷ cs) goal =
    let rest = how_far_from tab (col + char_width tab col c) (suc i) cs goal in
    if leb (col + char_width tab col c) goal then rest else i

abbrev pub how_far : ℕ → Text → ℕ → ℕ
how_far tab t goal = how_far_from tab 0 0 t goal

-- How many of the first characters are white.
unfoldable pub white_run : Text → ℕ
unfolding is_white
white_run [] = 0
white_run (c ∷ cs) = let rest = white_run cs in if is_white c then suc rest else 0

-- Where the white space that ends at the end of a text begins (`sp`).
unfoldable pub trimmed : Text → ℕ
unfolding is_white
trimmed [] = 0
trimmed (c ∷ cs) = let rest = trimmed cs in if rest == 0 && is_white c then 0 else suc rest

-- `blnkp`.
unfoldable pub blnkp : Text → Bool
unfolding white_run
blnkp t = white_run t == length t

-- `within_indent`.
unfoldable pub within_indent : Buffer → Bool
unfolding trimmed
within_indent b = trimmed (take b.curchar b.here.text) == 0

-- `ToIndent`.
unfoldable pub to_indent : Buffer → Buffer
unfolding white_run
to_indent b = record b { curchar = white_run b.here.text }

-- `DelWtSpace`.
unfoldable pub del_wt_space : Buffer → Buffer
unfolding white_run trimmed d_fix_marks
del_wt_space b =
    let ep = b.curchar + white_run (drop b.curchar b.here.text) in
    let sp = trimmed (take b.curchar b.here.text) in
    if sp == ep
    then b
    else modify (record (set_text (take sp b.here.text ++ drop ep b.here.text) b) {
      curchar = sp;
      marks = d_fix_marks b.here.id sp b.here.id ep (b.here.id ∷ []) b.marks;
    })

-- The loop of `n_indent`, for at most `n` tabs, and the spaces that follow it.
unfoldable pub fill_indent : ℕ → ℕ → ℕ → ℕ → Buffer → Outcome Buffer
unfolding insert_c
fill_indent tab goal zero col b = insert_c space (sub_ℕ goal col) b
fill_indent tab goal (suc n) col b =
    if ltb goal (col + tab_dist tab col)
    then insert_c space (sub_ℕ goal col) b
    else insert_c tab_char (pos 1) b >>= fill_indent tab goal n (col + tab_dist tab col)

-- `n_indent`.
unfoldable pub n_indent : ℕ → ℕ → Buffer → Outcome Buffer
unfolding fill_indent del_wt_space calc_from
n_indent tab goal b =
    let b' = del_wt_space b in
    let col = calc_pos tab b'.here.text b'.curchar in
    if tab == 0 then insert_c space (sub_ℕ goal col) b' else fill_indent tab goal (suc goal) col b'
