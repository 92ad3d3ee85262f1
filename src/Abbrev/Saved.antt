-- ===== src/Abbrev/Saved.antt =====
-- The file of abbreviations (abbrev.c: `save_abbrevs`, `rest_abbrevs`) and the lines that are read
-- from it (fp.c: `f_gets`).
pub mod Chains
pub mod Lines
pub mod Restored
pub mod Defined
use jove.Base.{
  ℕ, zero, suc, ◌+◌, ◌-◌, List, [], ◌∷◌, ◌++◌, Bool, true, false, ◌&&◌, Option, none, some, ltb,
  ◌==◌, if◌then◌else◌, length,
}
use jove.Buffer.{Text, newline}
use jove.Outcome.{Outcome, done, jump, bad_abbrev}
use jove.Insert.{lbsize}
use jove.Abbrev.{Abbrev, hashsize, Table, Tables, global, define}

-- What `f_gets` returns, the line it has stored, and the bytes that are still to be read.
pub data Gets : Type 0 where
  -- NO
  gets : Text → Text → Gets
  -- YES, at the end of the file and for a line that does not fit
  last_line : Text → Gets
  line_too_long : Text → Gets

abbrev pub and_byte : ℕ → Gets → Gets
and_byte c (gets line rest) = gets (c ∷ line) rest
and_byte c (last_line line) = last_line (c ∷ line)
and_byte c (line_too_long rest) = line_too_long rest

-- The loop of `f_gets`, with room for `room` more characters. A NUL is not stored.
unfoldable pub get_bytes : ℕ → Text → Gets
get_bytes room [] = last_line []
get_bytes room (c ∷ cs) =
    let more = get_bytes (if c == 0 then room else room - 1) cs in
    if c == newline
    then gets [] cs
    else if c == 0
    then more
    else if room == 0
    then line_too_long cs
    else and_byte c more

unfoldable pub f_gets : ℕ → Text → Gets
unfolding get_bytes
f_gets max s = get_bytes (max - 1) s

abbrev pub sep : Text
sep = b'-' ∷ b'-' ∷ b'-' ∷ b'-' ∷ b'-' ∷ b'-' ∷ []

-- `mode_names`, built without LISP.
abbrev pub mode_name : ℕ → Text
mode_name zero =
    b'F' ∷ b'u' ∷ b'n' ∷ b'd' ∷ b'a' ∷ b'm' ∷ b'e' ∷ b'n' ∷ b't' ∷ b'a' ∷ b'l' ∷ 32 ∷ b'M' ∷ b'o'
    ∷ b'd' ∷ b'e' ∷ []
mode_name (suc zero) = b'T' ∷ b'e' ∷ b'x' ∷ b't' ∷ 32 ∷ b'M' ∷ b'o' ∷ b'd' ∷ b'e' ∷ []
mode_name (suc (suc zero)) = b'C' ∷ 32 ∷ b'M' ∷ b'o' ∷ b'd' ∷ b'e' ∷ []
mode_name (suc (suc (suc i))) = b'G' ∷ b'l' ∷ b'o' ∷ b'b' ∷ b'a' ∷ b'l' ∷ []

-- What stands behind the separator in the line of a section.
abbrev pub section_name : ℕ → Text
section_name i =
    mode_name i
    ++ (32 ∷ b'a' ∷ b'b' ∷ b'b' ∷ b'r' ∷ b'e' ∷ b'v' ∷ b's' ∷ b'-' ∷ b'-' ∷ b'-' ∷ b'-' ∷ b'-'
        ∷ b'-' ∷ [])

-- The text of a line with its newline, and the bytes behind it.
abbrev pub line_then : Text → Text → Text
line_then line s = line ++ newline ∷ s

-- The loops of `save_abbrevs` over a chain, over the chains of a table, and over the tables. The
-- last argument is what is written behind them.
unfoldable pub save_chain : List Abbrev → Text → Text
save_chain [] s = s
save_chain (ap ∷ aps) s = line_then (ap.a_abbrev ++ b':' ∷ ap.a_phrase) (save_chain aps s)

unfoldable pub save_chains : ℕ → ℕ → Table → Text → Text
unfolding save_chain
save_chains zero j table s = s
save_chains (suc n) j table s = save_chain (table j) (save_chains n (suc j) table s)

unfoldable pub save_tables : ℕ → ℕ → Tables → Text
unfolding save_chains
save_tables zero i tables = []
save_tables (suc n) i tables =
    line_then (sep ++ section_name i)
      (save_chains hashsize 0 (tables i) (save_tables n (suc i) tables))

-- `save_abbrevs`, as the bytes of the file.
unfoldable pub save_abbrevs : Tables → Text
unfolding save_tables
save_abbrevs tables = save_tables (global + 1) 0 tables

-- `strncmp(genbuf, sep, sizeof(sep)-1) == 0`.
unfoldable pub starts_with : Text → Text → Bool
starts_with [] line = true
starts_with (c ∷ cs) [] = false
starts_with (c ∷ cs) (d ∷ line) = let rest = starts_with cs line in (c == d) && rest

-- `strchr(genbuf, ':')`, with what stands before and behind it.
unfoldable pub at_colon : Text → Option (Text × Text)
at_colon [] = none
at_colon (c ∷ cs) =
    let rest = at_colon cs in
    if c == b':' then some ([], cs) else elim rest [ none ↦ none | some (a, p) ↦ some (c ∷ a, p) ]

abbrev pub put_table : Tables → ℕ → Table → Tables
put_table tables i table j = if j == i then table else tables j

-- What a line says, where `seen` separators have been read: `mode` is one less.
pub data Entry : Type 0 where
  section malformed : Entry
  entry : Text → Text → Entry

unfoldable pub entry_of : ℕ → Text → Entry
entry_of seen line =
    if starts_with sep line
    then section
    else if seen == 0
    then malformed
    else elim (at_colon line) [ none ↦ malformed | some (a, p) ↦ entry a p ]

-- The loop of `rest_abbrevs`, for at most `n` lines.
unfoldable pub rest_lines : ℕ → ℕ → ℕ → Text → Tables → Outcome Tables
rest_lines zero seen lnum s tables = done tables
rest_lines (suc n) seen lnum s tables =
    if ltb (global + 1) seen then done tables else elim (f_gets lbsize s) [
      | last_line line ↦ done tables
      | line_too_long rest ↦ done tables
      | gets [] rest ↦ done tables
      | gets (c ∷ cs) rest ↦ elim (entry_of seen (c ∷ cs)) [
        | section ↦ rest_lines n (seen + 1) (lnum + 1) rest tables
        | malformed ↦ jump (bad_abbrev (lnum + 1)) tables
        | entry a p ↦
            rest_lines n seen (lnum + 1) rest
              (put_table tables (seen - 1) (define (tables (seen - 1)) a p))
      ]
    ]

-- `rest_abbrevs`. A line takes a byte at least.
unfoldable pub rest_abbrevs : Text → Tables → Outcome Tables
unfolding rest_lines
rest_abbrevs s tables = rest_lines (length s + 1) 0 0 s tables
