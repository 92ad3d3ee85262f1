-- ===== src/Yank.antt =====
-- Putting lines that were saved into a text (insert.c: `DoYank`).
pub mod Splice
pub mod View
use jove.Base.{
  ℕ, suc, ◌+◌, ◌-◌, List, [], ◌∷◌, ◌++◌, map, Bool, true, leb, Option, none, some, if◌then◌else◌,
  length, take, drop,
}
use jove.Buffer.{Buffer, Line, LinePtr, Bufpos, Text, line_at}
use jove.Marks.{fix_inserted}
use jove.Insert.{lbsize}

-- `linecopy(genbuf, at, from)`: where `at` lies beyond the NUL of `onto` the string stays what it
-- is. `none` is the error.
unfoldable pub copied : Text → ℕ → Text → Option Text
copied onto at from =
    if leb lbsize (at + length from)
    then none
    else some (if leb at (length onto) then take at onto ++ from else onto)

-- The lines that `listput` makes, one after another, for some texts.
unfoldable pub new_lines : LinePtr → List Text → List Line
new_lines k [] = []
new_lines k (t ∷ ts) = line_at k t ∷ new_lines (suc k) ts

abbrev pub texts : List Line → List Text
texts ls = map (λ l. l.text) ls

unfoldable pub last_of : Text → List Text → Text
last_of t [] = t
last_of t (u ∷ us) = last_of u us

unfoldable pub but_last : Text → List Text → List Text
but_last t [] = []
but_last t (u ∷ us) = t ∷ but_last u us

-- What `DoYank` makes of the line `atline`: that line and the lines after it, with `bp`; or how it
-- has left them where it gives up.
pub data Spliced : Type 0 where
  whole : Line → List Line → Bufpos → Spliced
  broken : Line → List Line → Spliced

abbrev pub or_broken : Option Text → Spliced → (Text → Spliced) → Spliced
or_broken none s next = s
or_broken (some t) s next = next t

-- The last part of `DoYank`: `save` goes behind the last line that was put in. Where it does not
-- fit, `linebuf` still has the old text of the line `l`, and it is saved again.
unfoldable pub finish : Line → ℕ → List Text → ℕ → Text → Text → LinePtr → Spliced
unfolding copied new_lines last_of but_last
finish l atchar [] tchar t save k =
    or_broken (copied t (atchar + tchar) save) (broken l [])
      λ t'. whole (line_at l.id t') [] (record { line = l.id; char = atchar + tchar })
finish l atchar (u ∷ us) tchar t save k =
    let before = new_lines k (but_last u us) in
    let newest = k + length (but_last u us) in
    or_broken (copied (last_of u us) tchar save)
      (broken l (before ++ line_at newest (last_of u us) ∷ []))
      λ t'.
        whole (line_at l.id t) (before ++ line_at newest t' ∷ [])
          (record { line = newest; char = tchar })

-- `buf`, the first line of the region, cut if it is also the last.
abbrev pub first_text : Line → List Line → ℕ → Text
first_text f [] tchar = take tchar f.text
first_text f (r ∷ rest) tchar = f.text

-- `DoYank` on the line `l`; the region is from column `fchar` of the line `f` to column `tchar` of
-- the last of the lines `f` and `rest`. The number `k` is the next address.
unfoldable pub splice : Line → ℕ → Line → List Line → ℕ → ℕ → LinePtr → Spliced
unfolding copied finish
splice l atchar f rest fchar tchar k =
    or_broken (copied l.text atchar (drop fchar (first_text f rest tchar))) (broken l [])
      λ t. finish l atchar (texts rest) tchar t (drop atchar l.text) k

pub data Yanked : Type 0 where
  yanked : Buffer → Bufpos → Yanked
  overflow : Buffer → Yanked

-- The buffer with the new lines, at point.
unfoldable pub put_spliced : Buffer → Spliced → Yanked
put_spliced b (whole l news p) =
    yanked
      (record b {
        here = l;
        below = news ++ b.below;
        fresh = b.fresh + length news;
        modified = true;
        marks = map (fix_inserted b.here.id b.curchar p.line p.char) b.marks;
      })
      p
put_spliced b (broken l news) =
    overflow (record b {
      here = l;
      below = news ++ b.below;
      fresh = b.fresh + length news;
      modified = true;
    })

-- `DoYank(..., curline, curchar, curbuf)`.
unfoldable pub do_yank : Line → List Line → ℕ → ℕ → Buffer → Yanked
unfolding splice put_spliced
do_yank f rest fchar tchar b = put_spliced b (splice b.here b.curchar f rest fchar tchar b.fresh)
