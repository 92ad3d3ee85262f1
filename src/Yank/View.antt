-- ===== src/Yank/View.antt =====
-- What `DoYank` does to the text before and after point.
use jove.Base.{
  ℕ, ◌+◌, ◌-◌, ◌<◌, ◌≡◌, refl, sym, ap, ◌∙◌, List, [], ◌∷◌, ◌++◌, map, arith, length, take, drop,
  push_all, push_all-append, take-append, drop-append, length-append, length-take, length-drop,
  append_assoc, append-nil, some, take-length, inl, inr, true,
}
use jove.Buffer.{
  Buffer, Line, Bufpos, Text, Mark, line_at, newline, left_lines, left, right, lines, Distinct,
  Ahead, InLine, IsValid,
}
use jove.Buffer.Along.{lines-Ahead}
use jove.Buffer.Valid.{Sound}
use jove.Move.Char.{gap}
use jove.Outcome.{done}
use jove.Marks.{fix_inserted}
use jove.Insert.{lbsize}
use jove.Region.{set_dot, dot}
use jove.Region.Seek.{to_line-lower}
use jove.Delete.View.{placed}
use jove.Yank.{
  copied, new_lines, texts, last_of, but_last, finish, splice, whole, first_text, do_yank,
  put_spliced, yanked, or_broken, broken,
}
use jove.Yank.Splice.{
  more, joined, copied-fits, new_lines-append, but_last-last, push_all-more, last_of-append,
  left_lines-new_lines, Sound-put, length-new_lines,
}

set_dot-lower :
    (u l : Buffer)
    → Distinct (lines u)
    → Ahead u l
    → InLine l
    → set_dot (dot l) u ≡ done (placed l u)
unfolding set_dot
set_dot-lower u l d r h =
    rw (to_line-lower u l d r, set_dot)
      (ap (λ n. done (record (placed l u) { curchar = n })) (omega arith))

-- The lines have room for what comes before and after the places where the texts meet.
abbrev pub Fits : Line → List Line → Buffer → Type 0
Fits f [] b = length b.here.text + length f.text < lbsize
Fits f (r ∷ rest) b =
    (b.curchar + length f.text < lbsize)
    × (length (last_of r.text (texts rest)) + (length b.here.text - b.curchar) < lbsize)

pub Fits-append :
    (f : Line) (mid : List Line) (l : Line) (b : Buffer)
    → b.curchar + length f.text < lbsize
    → length l.text + (length b.here.text - b.curchar) < lbsize
    → Fits f (mid ++ l ∷ []) b
unfolding last_of
Fits-append f [] l b h k = (h, k)
Fits-append f (m ∷ mid) l b h k = (h, rw (last_of-append m.text mid l) k)

-- The line of point with the first text put in.
abbrev opened_text : Line → Buffer → Text
opened_text f b = take b.curchar b.here.text ++ f.text

abbrev tail : Buffer → Text
tail b = drop b.curchar b.here.text

-- The buffer with some new lines, and the place behind the new text.
abbrev with_lines : Text → List Text → List Mark → Buffer → Buffer
with_lines t ts ms b = record b {
  here = line_at b.here.id t;
  below = new_lines b.fresh ts ++ b.below;
  fresh = b.fresh + length ts;
  modified = true;
  marks = ms;
}

copied-behind :
    (onto from : Text) (at : ℕ)
    → at ≡ length onto
    → length onto + length from < lbsize
    → copied onto at from ≡ some (onto ++ from)
copied-behind onto from at e h =
    copied-fits onto from at (omega arith) (omega arith)
    ∙ ap (λ t. some (t ++ from)) (take-length onto at (omega arith))

module _ (f : Line) (b : Buffer) (v : IsValid b) where
  length-opened : length (opened_text f b) ≡ b.curchar + length f.text
  length-opened = omega (
    arith,
    length-append (take b.curchar b.here.text) f.text,
    length-take b.curchar b.here.text,
    v.in_line,
  )

  opened-copied :
      (t : Text)
      → t ≡ f.text
      → b.curchar + length f.text < lbsize
      → copied b.here.text b.curchar t ≡ some (opened_text f b)
  opened-copied t e h = rw e (copied-fits b.here.text f.text b.curchar v.in_line h)

  finish-one :
      Fits f [] b
      → finish b.here b.curchar [] (length f.text) (opened_text f b) (tail b) b.fresh
        ≡ whole
            (line_at b.here.id (opened_text f b ++ tail b))
            []
            (record { line = b.here.id; char = b.curchar + length f.text })
  unfolding finish
  finish-one fits =
      ap
        (λ o. or_broken o (broken b.here []) λ t'.
          whole (line_at b.here.id t') []
            (record { line = b.here.id; char = b.curchar + length f.text }))
        (copied-behind (opened_text f b) (tail b) (b.curchar + length f.text) (sym length-opened)
          (omega (arith, length-opened, length-drop b.curchar b.here.text, v.in_line)))

  finish-more :
      (u : Text) (us : List Text)
      → length (last_of u us) + (length b.here.text - b.curchar) < lbsize
      → finish b.here b.curchar (u ∷ us) (length (last_of u us)) (opened_text f b) (tail b) b.fresh
        ≡ whole
            (line_at b.here.id (opened_text f b))
            (new_lines b.fresh (but_last u us ++ (last_of u us ++ tail b) ∷ []))
            (record { line = b.fresh + length (but_last u us); char = length (last_of u us) })
  unfolding finish
  finish-more u us k = rw (
    copied-behind (last_of u us) (tail b) (length (last_of u us)) refl
        (omega (arith, length-drop b.curchar b.here.text)),
    new_lines-append b.fresh (but_last u us) (last_of u us ++ tail b),
  )

  splice-fits :
      (rest : List Line) (tchar : ℕ)
      → first_text f rest tchar ≡ f.text
      → b.curchar + length f.text < lbsize
      → splice b.here b.curchar f rest 0 tchar b.fresh
        ≡ finish b.here b.curchar (texts rest) tchar (opened_text f b) (tail b) b.fresh
  unfolding splice
  splice-fits rest tchar e h =
      ap
        (λ o.
          or_broken o (broken b.here [])
            λ t. finish b.here b.curchar (texts rest) tchar t (tail b) b.fresh)
        (opened-copied (first_text f rest tchar) e h)

push_more :
    (u : Text) (us : List Text) (x : Text)
    → push_all (more (u ∷ us)) x
      ≡ push_all (last_of u us) (newline ∷ push_all (more (but_last u us)) x)
push_more u us x =
    ap (λ ts. push_all (more ts) x) (sym (but_last-last u us))
    ∙ push_all-more (but_last u us) (last_of u us) x

-- `l` is the buffer `b` with its point further down in the same lines.
further_down :
    (b l : Buffer) → Ahead b l → l.fresh ≡ b.fresh → InLine l → Sound b.fresh (lines b) → IsValid l
further_down b l r e h (d, u) = record {
  in_line = h;
  distinct = rw (lines-Ahead b l r) d;
  allocated = rw (lines-Ahead b l r, e) u;
}

-- The place behind the new text, with the new lines there.
abbrev behind_one : Line → List Mark → Buffer → Buffer
behind_one f ms b = record (with_lines (opened_text f b ++ tail b) [] ms b) {
  curchar = b.curchar + length f.text;
}

abbrev more_texts : Text → List Text → Buffer → List Text
more_texts u us b = but_last u us ++ (last_of u us ++ tail b) ∷ []

abbrev behind_more : Line → Text → List Text → List Mark → Buffer → Buffer
behind_more f u us ms b = record (with_lines (opened_text f b) (more_texts u us b) ms b) {
  above =
      push_all (new_lines b.fresh (but_last u us)) (line_at b.here.id (opened_text f b) ∷ b.above);
  here = line_at (b.fresh + length (but_last u us)) (last_of u us ++ tail b);
  below = b.below;
  curchar = length (last_of u us);
}

module _ (f : Line) (b : Buffer) (ms : List Mark) (v : IsValid b) where
  one-gap : gap (behind_one f ms b) ≡ (push_all (joined f []) (left b), right b)
  unfolding left right new_lines
  one-gap =
      let n = sym (length-opened f b v) in
      rw
        (
          n,
          take-append (opened_text f b) (tail b) (length (opened_text f b)) refl,
          drop-append (opened_text f b) (tail b) (length (opened_text f b)) refl,
          append-nil f.text,
          push_all-append (take b.curchar b.here.text) f.text (left_lines b.above),
        )
        refl

  more-gap :
      (u : Text) (us : List Text)
      → gap (behind_more f u us ms b) ≡ (push_all (f.text ++ more (u ∷ us)) (left b), right b)
  unfolding left right
  more-gap u us =
      rw
        (
          take-append (last_of u us) (tail b) (length (last_of u us)) refl,
          drop-append (last_of u us) (tail b) (length (last_of u us)) refl,
          left_lines-new_lines b.fresh (but_last u us) (line_at b.here.id (opened_text f b))
              b.above,
          push_all-append (take b.curchar b.here.text) f.text (left_lines b.above),
        )
        (ap (λ z. (z, right b))
          (sym (push_more u us (push_all f.text (left b)))
            ∙ sym (push_all-append f.text (more (u ∷ us)) (left b))))

  more-Ahead :
      (u : Text) (us : List Text)
      → Ahead (with_lines (opened_text f b) (more_texts u us b) ms b) (behind_more f u us ms b)
  more-Ahead u us = inr (
    new_lines b.fresh (but_last u us),
    refl,
    ap (λ ls. ls ++ b.below) (new_lines-append b.fresh (but_last u us) (last_of u us ++ tail b))
        ∙ append_assoc (new_lines b.fresh (but_last u us)) ((behind_more f u us ms b).here ∷ [])
            b.below,
  )

-- The buffer that `DoYank` leaves, the place that it gives, and the buffer with its point there.
abbrev pub Restored : Line → List Line → Buffer → Type 0
Restored f rest b =
    (b' : Buffer) × (p : Bufpos) × (b'' : Buffer) × (do_yank f rest 0
        (length (last_of f.text (texts rest))) b
      ≡ yanked b' p)
    × (set_dot p b' ≡ done b'')
    × (gap b'' ≡ (push_all (joined f rest) (left b), right b))
    × IsValid b''

yank_one : (f : Line) (b : Buffer) → IsValid b → Fits f [] b → Restored f [] b
unfolding do_yank put_spliced last_of new_lines
yank_one f b v fits = (
  b',
  dot l,
  l,
  ap (put_spliced b) (
      splice-fits f b v [] (length f.text) (take-length f.text _ (omega arith))
        (omega (arith, v.in_line))
      ∙ finish-one f b v fits),
  set_dot-lower b' l sound.0 r h,
  one-gap f b _ v,
  further_down b' l r refl h sound,
)
  where
    ms : List Mark
    ms = map (fix_inserted b.here.id b.curchar b.here.id (b.curchar + length f.text)) b.marks

    l : Buffer
    l = behind_one f ms b

    b' : Buffer
    b' = with_lines (opened_text f b ++ tail b) [] ms b

    r : Ahead b' l
    r = inl (refl, refl, refl)

    h : InLine l
    h = omega (arith, length-opened f b v, length-append (opened_text f b) (tail b))

    sound : Sound b'.fresh (lines b')
    sound =
        Sound-put b.fresh b.above b.below b.here (opened_text f b ++ tail b) []
          (v.distinct, v.allocated)

yank_more :
    (f r : Line) (rest : List Line) (b : Buffer)
    → IsValid b
    → Fits f (r ∷ rest) b
    → Restored f (r ∷ rest) b
unfolding do_yank put_spliced last_of
yank_more f r rest b v (head_fits, tail_fits) = (
  b',
  dot l,
  l,
  ap (put_spliced b) (
        splice-fits f b v (r ∷ rest) _ refl head_fits
        ∙ finish-more f b v r.text (texts rest) tail_fits)
      ∙ ap (λ n. yanked (record b' { fresh = b.fresh + n }) (dot l)) count,
  set_dot-lower b' l sound.0 along h,
  more-gap f b ms v r.text (texts rest),
  further_down b' l along refl h sound,
)
  where
    us : List Text
    us = more_texts r.text (texts rest) b

    ms : List Mark
    ms =
        map
          (fix_inserted b.here.id b.curchar (b.fresh + length (but_last r.text (texts rest)))
            (length (last_of r.text (texts rest))))
          b.marks

    l : Buffer
    l = behind_more f r.text (texts rest) ms b

    b' : Buffer
    b' = with_lines (opened_text f b) us ms b

    count : length (new_lines b.fresh us) ≡ length us
    count = length-new_lines b.fresh us

    along : Ahead b' l
    along = more-Ahead f b ms v r.text (texts rest)

    h : InLine l
    h = omega (arith, length-append (last_of r.text (texts rest)) (tail b))

    sound : Sound b'.fresh (lines b')
    sound = Sound-put b.fresh b.above b.below b.here (opened_text f b) us (v.distinct, v.allocated)

-- In a well-formed buffer whose lines have room, putting in a whole saved text (from column 0 of
-- its first line to the end of its last) returns; moving point to the place that `DoYank` gives
-- succeeds, and then the saved text stands before point, after what stood before point already.
-- What stood after point still does, and the buffer is well formed.
pub do_yank-Restored :
    (f : Line) (rest : List Line) (b : Buffer) → IsValid b → Fits f rest b → Restored f rest b
do_yank-Restored f [] b v fits = yank_one f b v fits
do_yank-Restored f (r ∷ rest) b v fits = yank_more f r rest b v fits
