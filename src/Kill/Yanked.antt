-- ===== src/Kill/Yanked.antt =====
-- A region that `reg_delete` took out, put back at point by `DoYank`.
use jove.Base.{suc, ◌+◌, ◌-◌, ◌<◌, ◌≡◌, sym, ap, ◌∙◌, List, arith, length, push_all, subst}
use jove.Buffer.{Buffer, Line, Bufpos, left, right, InLine, IsValid}
use jove.Buffer.Valid.{Below-mono}
use jove.Move.Char.{gap}
use jove.Outcome.{done}
use jove.Insert.{lbsize}
use jove.Region.{set_dot, dot}
use jove.Region.Order.{Before}
use jove.Delete.View.{erased, erased-gap}
use jove.Delete.Valid.{erased-Sound, length-erased}
use jove.Yank.{do_yank, yanked, texts, last_of}
use jove.Yank.Splice.{joined}
use jove.Yank.View.{Restored, do_yank-Restored}
use jove.Kill.{reg_delete, killed}
use jove.Kill.Region.{reg_delete-Kept}

-- A region was taken out, put back, and point moved behind it.
abbrev pub PutBack : Buffer → Buffer → Type 0
PutBack u l =
    (f : Line) × (rest : List Line) × (b : Buffer) × (b' : Buffer) × (p : Bufpos) × (b'' : Buffer)
    × (reg_delete (dot u) (dot l) u ≡ killed f rest b)
    × (do_yank f rest 0 (length (last_of f.text (texts rest))) b ≡ yanked b' p)
    × (set_dot p b' ≡ done b'')
    × (gap b'' ≡ gap l)
    × IsValid b''

put_back :
    (u l : Buffer) (f : Line) (rest : List Line) (b : Buffer)
    → reg_delete (dot u) (dot l) u ≡ killed f rest b
    → left l ≡ push_all (joined f rest) (left u)
    → gap b ≡ (left u, right l)
    → Restored f rest b
    → PutBack u l
put_back u l f rest b e t g (b', p, b'', yanks, moves, gap_of, v) = (
  f,
  rest,
  b,
  b',
  p,
  b'',
  e,
  yanks,
  moves,
  gap_of ∙ ap (λ z. (push_all (joined f rest) z.0, z.1)) g ∙ ap (λ z. (z, right l)) (sym t),
  v,
)

-- In a well-formed buffer with point at the upper of two places, where the lines of the two places
-- and their join are short enough, `reg_delete` between the places, `DoYank` of all that it kept
-- at point, and moving point to the place that `DoYank` gives all succeed. The text is then that
-- of before, with point at the lower place, and the buffer is well formed.
pub reg_delete-do_yank :
    (u l : Buffer)
    → IsValid u
    → Before u l
    → InLine l
    → length u.here.text < lbsize
    → length l.here.text < lbsize
    → u.curchar + (length l.here.text - l.curchar) < lbsize
    → PutBack u l
reg_delete-do_yank u l v before hl short_u short_l fits =
    let (f, rest, b, e, r, t, room, eb) =
      reg_delete-Kept u l v.distinct before v.in_line hl short_u short_l fits in
    put_back u l f rest b e t
      (ap gap eb ∙ erased-gap u l v.distinct before.0 v.in_line (record u { fresh = suc u.fresh }))
      (do_yank-Restored f rest b (subst IsValid (sym eb) valid) room)
  where
    valid : IsValid (record (erased u l u) { fresh = suc u.fresh })
    valid = record {
      in_line = omega (arith, length-erased u l before.0 v.in_line);
      distinct = (erased-Sound u l before.0 u.fresh _ (v.distinct, v.allocated)).0;
      allocated =
          Below-mono u.fresh (suc u.fresh) _ (omega arith)
            (erased-Sound u l before.0 u.fresh _ (v.distinct, v.allocated)).1;
    }
