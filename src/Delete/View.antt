-- ===== src/Delete/View.antt =====
-- Deleting between two places joins what stands before the upper to what stands after the lower.
use jove.Base.{◌-◌}
use jove.Base.{
  ℕ, ◌+◌, ◌<◌, ◌≡◌, refl, sym, ap, ◌∙◌, List, [], ◌∷◌, ◌++◌, true, false, ◌==◌, inl, inr, arith,
  length, take, drop, length-take, length-drop, take-append, drop-append,
}
use jove.Buffer.{
  Buffer, Line, LinePtr, Apart, Distinct, lines, Ahead, InLine, line_at, left, right, Text,
}
use jove.Outcome.{done}
use jove.Marks.{d_fix_marks}
use jove.Move.Char.{gap}
use jove.Region.{set_dot, dot}
use jove.Region.Seek.{to_line-here, to_line-upper, to_line-lower, lower-Apart}
use jove.Insert.{lbsize, modify, set_text}
use jove.Delete.{linecopy, join, patchup, lremove, cut, through, after, ids}

linecopy-fits :
    (at : ℕ) (t : Text) (b : Buffer)
    → at + length t < lbsize
    → linecopy at t b ≡ done (set_text (take at b.here.text ++ t) b)
unfolding linecopy
linecopy-fits at t b h = ground arith

pub after-append :
    (k : LinePtr) (mid : List Line) (l : Line) (ls : List Line)
    → Apart k mid
    → k ≡ l.id
    → after k (mid ++ l ∷ ls) ≡ ls
unfolding after
after-append k [] l ls a e = ground arith
after-append k (m ∷ ms) l ls a e = ground (arith, after-append k ms l ls a.1)

-- The place of point in `u`, with all else as in `b`.
abbrev pub placed : Buffer → Buffer → Buffer
placed u b = record b { above = u.above; here = u.here; below = u.below; curchar = u.curchar }

-- The buffer `b` with everything from the place of `u` to the place of `l` taken out.
abbrev pub erased : Buffer → Buffer → Buffer → Buffer
erased u l b = record b {
  above = u.above;
  here = line_at u.here.id (take u.curchar u.here.text ++ drop l.curchar l.here.text);
  below = l.below;
  curchar = u.curchar;
  marks =
      d_fix_marks u.here.id u.curchar l.here.id l.curchar
        (ids (through l.here.id (u.here ∷ u.below))) b.marks;
  modified = true;
}

module _ (u l : Buffer) (d : Distinct (lines u)) (r : Ahead u l) (hu : InLine u) where
  pub set_dot-here : set_dot (dot u) u ≡ done (placed u u)
  unfolding set_dot
  set_dot-here =
      rw (to_line-here u, set_dot) (ap (λ n. done (record u { curchar = n })) (omega arith))

  pub set_dot-upper : set_dot (dot u) l ≡ done (placed u l)
  unfolding set_dot
  set_dot-upper =
      rw (to_line-upper u l d r, set_dot)
        (ap (λ n. done (record (placed u l) { curchar = n })) (omega arith))

  -- What `lremove` leaves below the upper place.
  lremove-below :
      (b : Buffer)
      → b.here.id ≡ u.here.id
      → b.below ≡ u.below
      → lremove l.here.id b ≡ record b { below = l.below }
  unfolding lremove
  lremove-below b eh eb = elim r [
    | inl (a, h, k) ↦
        let same : (b.here.id == l.here.id) ≡ true = ground (arith, ap (λ z. z.id) h) in
        rw same (ap (λ z. record b { below = z }) (eb ∙ sym k))
    | inr (mid, a, k) ↦
        let (apart, ne) = lower-Apart u l d mid k in
        let other : (b.here.id == l.here.id) ≡ false = ground arith in
        rw other (
          ap (λ z. record b { below = z })
            (ap (after l.here.id) (eb ∙ k) ∙ after-append l.here.id mid l.here l.below apart refl))
  ]

  join-erased :
      (b : Buffer)
      → u.curchar + (length l.here.text - l.curchar) < lbsize
      → join u.curchar (dot l) (placed u b) ≡ done (record (erased u l b) { below = u.below })
  unfolding join
  join-erased b fits =
      let fits' : u.curchar + length (drop l.curchar l.here.text) < lbsize =
        omega (arith, length-drop l.curchar l.here.text) in
      rw (to_line-lower (placed u b) l d r, join)
        (rw (linecopy-fits u.curchar (drop l.curchar l.here.text) (modify (placed u b)) fits'))

  pub patchup-erased :
      (b : Buffer)
      → set_dot (dot u) b ≡ done (placed u b)
      → u.curchar + (length l.here.text - l.curchar) < lbsize
      → patchup (dot u) (dot l) b ≡ done (record (erased u l b) { below = u.below })
  unfolding patchup
  patchup-erased b e fits = rw (e, join-erased b fits)

  pub cut-erased :
      (b : Buffer)
      → set_dot (dot u) b ≡ done (placed u b)
      → u.curchar + (length l.here.text - l.curchar) < lbsize
      → cut (dot u) (dot l) b ≡ done (erased u l b)
  unfolding cut patchup
  cut-erased b e fits =
      rw (e, join-erased b fits)
        (ap done (lremove-below (record (erased u l b) { below = u.below }) refl refl))

  pub erased-gap : (b : Buffer) → gap (erased u l b) ≡ (left u, right l)
  unfolding left right
  erased-gap b =
      let t : length (take u.curchar u.here.text) ≡ u.curchar =
        omega (arith, length-take u.curchar u.here.text) in
      rw (
        take-append (take u.curchar u.here.text) (drop l.curchar l.here.text) u.curchar t,
        drop-append (take u.curchar u.here.text) (drop l.curchar l.here.text) u.curchar t,
      )
