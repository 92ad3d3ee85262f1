-- ===== src/InsertString.antt =====
-- Insertion of a string (insert.c: `ins_str_wrap`, `ins_str`).
pub mod View
use jove.Base.{
  ℕ, suc, ◌+◌, ◌-◌, [], ◌∷◌, Bool, true, false, ◌&&◌, ◌||◌, not, leb, ltb, ◌==◌, Option, none, some,
  if◌then◌else◌, length, min,
}
use jove.Base.Int.{pos}
use jove.Buffer.{Buffer, Bufpos, Text, newline}
use jove.Outcome.{Outcome, done, jump, too_long}
use jove.Marks.{i_fix_marks}
use jove.Insert.{ins_c, line_insert, lbsize, modify, set_text}
use jove.Region.{dot}

-- `IFixMarks(save.p_line, save.p_char, curline, curchar); modify();`
abbrev pub settled : Bufpos → Buffer → Buffer
settled save b = modify (i_fix_marks save.line save.char b.here.id b.curchar b)

-- A character that is no newline. Where `ins_c` complains `curchar` has been counted up already.
unfoldable pub place_byte : ℕ → Buffer → Option Text → Outcome Buffer
place_byte c b none = jump too_long (record b { curchar = b.curchar + 1 })
place_byte c b (some t) = done (record (set_text t b) { curchar = b.curchar + 1 })

abbrev pub or_stop : Outcome Buffer → (Buffer → Outcome Buffer) → Outcome Buffer
or_stop (done b) next = next b
or_stop (jump j b) next = jump j b

-- The loop, with `save` and `llen`, and what follows it.
unfoldable pub ins_bytes : Bool → ℕ → Text → Bufpos → ℕ → Buffer → Outcome Buffer
unfolding i_fix_marks ins_c line_insert place_byte
ins_bytes ok_nl wrap_off [] save llen b = done (settled save b)
ins_bytes ok_nl wrap_off (c ∷ cs) save llen b =
    let broken = line_insert (pos 1) (settled save b) in
    let with_break : Outcome Buffer =
      if c == newline
      then ins_bytes ok_nl wrap_off cs (dot broken) (length broken.here.text) broken
      else or_stop (place_byte c broken (ins_c c broken.here.text broken.curchar 1 lbsize))
          (ins_bytes ok_nl wrap_off cs (dot broken) (length broken.here.text + 1)) in
    let on_line : Outcome Buffer =
      or_stop (place_byte c b (ins_c c b.here.text b.curchar 1 lbsize))
        (ins_bytes ok_nl wrap_off cs save (llen + 1)) in
    if c == newline || (ok_nl && leb wrap_off llen) then with_break else on_line

-- `ins_str_wrap`.
unfoldable pub ins_str_wrap : Text → Bool → ℕ → Buffer → Outcome Buffer
unfolding ins_bytes
ins_str_wrap [] ok_nl wrap_off b = done b
ins_str_wrap (c ∷ cs) ok_nl wrap_off b =
    ins_bytes ok_nl (min wrap_off (lbsize - 1)) (c ∷ cs) (dot b) (length b.here.text) b

-- `ins_str`.
abbrev pub ins_str : Text → Buffer → Outcome Buffer
ins_str str b = ins_str_wrap str false (lbsize - 1) b
