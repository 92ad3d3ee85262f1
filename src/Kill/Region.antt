-- ===== src/Kill/Region.antt =====
-- `reg_delete` keeps the text between the two places, and `DoYank` puts it back.
use jove.Base.{
  ℕ, zero, suc, ◌+◌, ◌-◌, ◌<◌, ◌≤◌, ◌≡◌, refl, sym, ap, ap₂, ◌∙◌, List, [], ◌∷◌, ◌++◌, arith,
  length, take, drop, push_all, push_all-append, length-append, length-take, length-drop,
  append_assoc, append-nil, take-append-drop, ==_iff, inl, inr, true, false, ◌==◌,
}
use jove.Buffer.{
  Buffer, Line, LinePtr, Text, line_at, newline, left_lines, right_lines, left, right, lines,
  Distinct, Apart, InLine,
}
use jove.Outcome.{done}
use jove.Insert.{lbsize}
use jove.Region.{set_dot, dot}
use jove.Region.Order.{Before, fixorder-upper}
use jove.Region.Seek.{to_line-here, lower-Apart}
use jove.Delete.{patchup, through}
use jove.Delete.View.{erased, patchup-erased, after-append}
use jove.Delete.Chars.{other_place}
use jove.Yank.{texts, last_of}
use jove.Yank.Splice.{more, joined, left_lines-push_all, push_all-more, texts-append}
use jove.Yank.View.{Fits, Fits-append}
use jove.Kill.{killed, shortened, first_saved, unlink_region, delete_ordered, reg_delete}

through-append :
    (k : LinePtr) (mid : List Line) (l : Line) (ls : List Line)
    → Apart k mid
    → k ≡ l.id
    → through k (mid ++ l ∷ ls) ≡ mid ++ l ∷ []
unfolding through
through-append k [] l ls a e = ground arith
through-append k (m ∷ ms) l ls a e = ground (arith, through-append k ms l ls a.1)

shortened-append :
    (k : LinePtr) (c : ℕ) (mid : List Line) (l : Line)
    → Apart k mid
    → k ≡ l.id
    → shortened k c (mid ++ l ∷ []) ≡ mid ++ line_at l.id (take c l.text) ∷ []
unfolding shortened
shortened-append k c [] l a e = ground arith
shortened-append k c (m ∷ ms) l a e = ground (arith, shortened-append k c ms l a.1)

-- Some lines, and the text after a column of the line that follows them.
split_lines :
    (mid : List Line) (l : Line) (c : ℕ) (k : LinePtr) (ls : List Line)
    → right_lines (mid ++ l ∷ ls)
      ≡ more (texts (mid ++ line_at k (take c l.text) ∷ [])) ++ (drop c l.text ++ right_lines ls)
split_lines [] l c k ls = ap (newline ∷◌) (
    ap (λ t. t ++ right_lines ls) (sym (take-append-drop c l.text))
    ∙ append_assoc (take c l.text) (drop c l.text) (right_lines ls)
    ∙ ap (λ t. t ++ (drop c l.text ++ right_lines ls)) (sym (append-nil (take c l.text))))
split_lines (m ∷ ms) l c k ls =
    ap (newline ∷◌) (ap (m.text ++◌) (split_lines ms l c k ls) ∙ sym (append_assoc m.text _ _))

take-between : (c d : ℕ) (t : Text) → c ≤ d → take d t ≡ take c t ++ drop c (take d t)
take-between zero d t h = refl
take-between (suc c) zero t h = absurd (omega arith)
take-between (suc c) (suc d) [] h = refl
take-between (suc c) (suc d) (x ∷ t) h = ap (x ∷◌) (take-between c d t (omega arith))

drop-between : (c d : ℕ) (t : Text) → c ≤ d → drop c t ≡ drop c (take d t) ++ drop d t
drop-between zero zero t h = refl
drop-between zero (suc d) [] h = refl
drop-between zero (suc d) (x ∷ t) h = ap (x ∷◌) (drop-between zero d t (omega arith))
drop-between (suc c) zero t h = absurd (omega arith)
drop-between (suc c) (suc d) [] h = refl
drop-between (suc c) (suc d) (x ∷ t) h = drop-between c d t (omega arith)

-- The region was kept as `f` and `rest`, and `b` is what is left.
abbrev pub Kept : Buffer → Buffer → Type 0
Kept u l =
    (f : Line) × (rest : List Line) × (b : Buffer) × (reg_delete (dot u) (dot l) u
      ≡ killed f rest b)
    × (right u ≡ joined f rest ++ right l)
    × (left l ≡ push_all (joined f rest) (left u))
    × Fits f rest b
    × (b ≡ record (erased u l u) { fresh = suc u.fresh })

module _ (u l : Buffer) (d : Distinct (lines u)) (before : Before u l) (hu : InLine u)
    (hl : InLine l) (short_u : length u.here.text < lbsize) (short_l : length l.here.text < lbsize)
    (fits : u.curchar + (length l.here.text - l.curchar) < lbsize) where
  abbrev opened : Buffer
  opened = record u { fresh = suc u.fresh }

  patched : patchup (dot u) (dot l) opened ≡ done (record (erased u l opened) { below = u.below })
  unfolding set_dot
  patched =
      patchup-erased u l d before.0 hu opened
        (rw (to_line-here opened, set_dot)
          (ap (λ n. done (record opened { curchar = n })) (omega arith)))
        fits

  abbrev retline : Text → Line
  retline t = line_at u.fresh (first_saved (dot u) (dot l) t)

  ordered :
      reg_delete (dot u) (dot l) u
      ≡ unlink_region
          (retline u.here.text)
          (dot u)
          (dot l)
          (done (record (erased u l opened) { below = u.below }))
  unfolding reg_delete delete_ordered
  ordered = rw (other_place u l before).0 (
      ap (λ o. delete_ordered o.0 o.1 u) (fixorder-upper u l d before)
      ∙ rw (to_line-here u, delete_ordered)
          (ap (unlink_region (retline u.here.text) (dot u) (dot l)) patched))

  -- The rest of `reg_delete`, where the two places are on one line and where they are not.
  unlinked-same :
      u.here.id ≡ l.here.id
      → unlink_region
          (retline u.here.text)
          (dot u)
          (dot l)
          (done (record (erased u l opened) { below = u.below }))
        ≡ killed
            (line_at u.fresh (drop u.curchar (take l.curchar u.here.text)))
            []
            (record (erased u l opened) { below = u.below })
  unfolding unlink_region
  unlinked-same e = let t : (u.here.id == l.here.id) ≡ true = (==_iff _ _).1 e in rw t refl

  unlinked-other :
      (mid : List Line)
      → u.below ≡ mid ++ l.here ∷ l.below
      → unlink_region
          (retline u.here.text)
          (dot u)
          (dot l)
          (done (record (erased u l opened) { below = u.below }))
        ≡ killed
            (line_at u.fresh (drop u.curchar u.here.text))
            (mid ++ line_at l.here.id (take l.curchar l.here.text) ∷ [])
            (erased u l opened)
  unfolding unlink_region
  unlinked-other mid k =
      let (apart, ne) = lower-Apart u l d mid k in
      let f : (u.here.id == l.here.id) ≡ false = ground arith in
      rw
        (
          f,
          k,
          through-append l.here.id mid l.here l.below apart refl,
          shortened-append l.here.id l.curchar mid l.here apart refl,
          after-append l.here.id mid l.here l.below apart refl,
        )
        refl

  ordered_columns : l.here ≡ u.here → u.curchar ≤ l.curchar
  ordered_columns h = omega (arith, before.1 (sym (ap (λ z. z.id) h)))

  in_one_line : l.above ≡ u.above → l.here ≡ u.here → l.below ≡ u.below → Kept u l
  unfolding left right last_of
  in_one_line a h k = (
    line_at u.fresh (drop u.curchar (take l.curchar u.here.text)),
    [],
    record (erased u l opened) { below = u.below },
    ordered ∙ unlinked-same (sym (ap (λ z. z.id) h)),
    ap (λ t. t ++ right_lines u.below)
          (drop-between u.curchar l.curchar u.here.text (ordered_columns h))
        ∙ append_assoc (drop u.curchar (take l.curchar u.here.text)) (drop l.curchar u.here.text)
            (right_lines u.below)
        ∙ ap₂ (λ x y. x ++ y) (sym (append-nil (drop u.curchar (take l.curchar u.here.text))))
            (ap₂ (λ ln ls. drop l.curchar ln.text ++ right_lines ls) (sym h) (sym k)),
    ap₂ (λ ln ls. push_all (take l.curchar ln.text) (left_lines ls)) h a
        ∙ ap (λ t. push_all t (left_lines u.above))
            (take-between u.curchar l.curchar u.here.text (ordered_columns h))
        ∙ push_all-append (take u.curchar u.here.text) (drop u.curchar (take l.curchar u.here.text))
            (left_lines u.above)
        ∙ ap (λ t. push_all t (left u))
            (sym (append-nil (drop u.curchar (take l.curchar u.here.text)))),
    omega (
      arith,
      ap (λ ln. length ln.text) h,
      ordered_columns h,
      length-append (take u.curchar u.here.text) (drop l.curchar l.here.text),
      length-take u.curchar u.here.text,
      length-drop l.curchar l.here.text,
      length-drop u.curchar (take l.curchar u.here.text),
      length-take l.curchar u.here.text,
    ),
    ap (λ ls. record (erased u l opened) { below = ls }) (sym k),
  )

  over_lines :
      (mid : List Line)
      → l.above ≡ push_all mid (u.here ∷ u.above)
      → u.below ≡ mid ++ l.here ∷ l.below
      → Kept u l
  unfolding left right last_of
  over_lines mid a k = (
    line_at u.fresh (drop u.curchar u.here.text),
    mid ++ line_at l.here.id (take l.curchar l.here.text) ∷ [],
    erased u l opened,
    ordered ∙ unlinked-other mid k,
    ap (drop u.curchar u.here.text ++◌)
          (ap right_lines k ∙ split_lines mid l.here l.curchar l.here.id l.below)
        ∙ sym (append_assoc (drop u.curchar u.here.text) _ _),
    ap (λ ls. push_all (take l.curchar l.here.text) (left_lines ls)) a
        ∙ ap (push_all (take l.curchar l.here.text)) (left_lines-push_all mid u.here u.above)
        ∙ ap
            (λ t.
              push_all (take l.curchar l.here.text)
                (newline ∷ push_all (more (texts mid)) (push_all t (left_lines u.above))))
            (sym (take-append-drop u.curchar u.here.text))
        ∙ ap (λ x. push_all (take l.curchar l.here.text) (newline ∷ push_all (more (texts mid)) x))
            (push_all-append (take u.curchar u.here.text) (drop u.curchar u.here.text)
              (left_lines u.above))
        ∙ sym (
            push_all-more (texts mid) (take l.curchar l.here.text)
              (push_all (drop u.curchar u.here.text) (left u)))
        ∙ ap (λ ts. push_all (more ts) (push_all (drop u.curchar u.here.text) (left u)))
            (sym (texts-append mid (line_at l.here.id (take l.curchar l.here.text))))
        ∙ sym (push_all-append (drop u.curchar u.here.text) _ (left u)),
    Fits-append (line_at u.fresh (drop u.curchar u.here.text)) mid
        (line_at l.here.id (take l.curchar l.here.text)) (erased u l opened)
        (omega (arith, length-drop u.curchar u.here.text))
        (omega (
          arith,
          length-append (take u.curchar u.here.text) (drop l.curchar l.here.text),
          length-take u.curchar u.here.text,
          length-drop l.curchar l.here.text,
          length-take l.curchar l.here.text,
        )),
    refl,
  )

  -- Between two places in order whose lines are short enough to be read and joined, `reg_delete`
  -- returns. The text between the places is the one that it keeps, in lines that can be put back,
  -- and it is what is missing from the buffer that is left.
  pub reg_delete-Kept : Kept u l
  reg_delete-Kept = elim before.0 [
    | inl (a, h, k) ↦ in_one_line a h k
    | inr (mid, a, k) ↦ over_lines mid a k
  ]
