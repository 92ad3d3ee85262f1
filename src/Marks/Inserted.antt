-- ===== src/Marks/Inserted.antt =====
-- Insertion moves the marks along with the characters that they stand at.
use jove.Base.{
  ℕ, zero, suc, ◌+◌, ◌≤◌, ◌≡◌, refl, sym, ap, ap₂, ◌∙◌, List, ◌∷◌, ◌++◌, map, true, false, ◌==◌,
  length, take, drop, replicate, arith, Option, none, some, Bool-cases, inl, inr,
}
use mathlib.Core.Path.{fun_ext}
use jove.Base.Int.{pos}
use jove.Buffer.{Buffer, Mark, Text, InLine, line_at, lines}
use jove.Insert.View.{ins_c-some, length_inserted}
use jove.Marks.{map-Each, Each, fix_inserted}
use jove.Marks.Offset.{
  offset, mark_offset, point, total, or_else, Within, shifted, offset_above-shifted,
  offset_below-shifted, Within-push_all_left,
}
use jove.Outcome.{final}
use jove.Insert.{insert_c, lbsize}

or_else-shifted :
    (n p : ℕ) (a b : Option ℕ) → shifted n p (or_else a b) ≡ or_else (shifted n p a) (shifted n p b)
or_else-shifted n p none b = refl
or_else-shifted n p (some a) b = refl

shifted-zero : (p : ℕ) (o : Option ℕ) → shifted 0 p o ≡ o
shifted-zero p none = refl
shifted-zero p (some o) = ground arith

-- One mark, when `n` characters come in at point on its line.
inserted-mark :
    (n : ℕ) (t : Text) (b : Buffer) (ms : List Mark) (m : Mark)
    → InLine b
    → Within m.line m.char (lines b)
    → length t ≡ length b.here.text + n
    → mark_offset (fix_inserted b.here.id b.curchar b.here.id (b.curchar + n) m) (record b {
      here = line_at b.here.id t;
      curchar = b.curchar + n;
      marks = ms;
      modified = true;
    })
      ≡ shifted n (point b) (mark_offset m b)
unfolding offset fix_inserted
inserted-mark n t b ms m h w e = elim (Bool-cases (b.here.id == m.line)) [
  | inl on ↦ ground (arith)
  | inr off ↦
      let off' : (m.line == b.here.id) ≡ false = ground arith in
      let len : total b.above + suc (length t) ≡ total b.above + suc (length b.here.text) + n =
        omega arith in
      rw (off, off', off, len)
        (ap₂ or_else
            (sym (
              offset_above-shifted m.line m.char n (point b) b.above
                (Within-push_all_left m.line m.char b.above (b.here ∷ b.below) w) (omega arith)))
            (offset_below-shifted m.line m.char n (point b)
              (total b.above + suc (length b.here.text)) b.below (omega arith))
          ∙ sym (or_else-shifted n (point b) _ _))
]

-- Every mark lies within its line.
abbrev pub MarksWithin : Buffer → Type 0
MarksWithin b = Each (λ m. Within m.line m.char (lines b)) b.marks

abbrev pub mark_offsets : Buffer → List (Option ℕ)
mark_offsets b = map (λ m. mark_offset m b) b.marks

-- Where the insertion fits and point and the marks lie within their lines, `insert_c` of `n`
-- characters leaves each mark at or before point where it was in the text, and moves each mark
-- beyond point on by `n`, on whatever line it stands.
pub insert_c-mark_offsets :
    (c n : ℕ) (b : Buffer)
    → InLine b
    → length b.here.text + n + 1 ≤ lbsize
    → MarksWithin b
    → mark_offsets (final (insert_c c (pos n) b))
      ≡ map (λ m. shifted n (point b) (mark_offset m b)) b.marks
unfolding insert_c
insert_c-mark_offsets c zero b h k w =
    ap (λ f. map f b.marks) (fun_ext λ m. sym (shifted-zero (point b) (mark_offset m b)))
insert_c-mark_offsets c (suc n) b h k w =
    rw (ins_c-some c b.here.text b.curchar (suc n) lbsize h (omega arith)) (
      map-Each (λ m. Within m.line m.char (lines b))
        (fix_inserted b.here.id b.curchar b.here.id (b.curchar + suc n)) _ _ b.marks
        (λ m wm.
          inserted-mark (suc n)
            (take b.curchar b.here.text ++ (replicate (suc n) c ++ drop b.curchar b.here.text)) b _
            m h wm (length_inserted c b.here.text b.curchar (suc n) h))
        w)
