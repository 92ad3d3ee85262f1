-- ===== src/InsertString/View.antt =====
-- What `ins_str` does to the text before and after point.
use jove.Base.{
  ℕ, ◌+◌, ◌-◌, ◌≤◌, ◌≡◌, refl, sym, subst, ap, ◌∙◌, [], ◌∷◌, ◌++◌, false, ◌==◌, length, take, drop,
  replicate, push_all, arith, Bool-cases, inl, inr, length-drop, ==_iff,
}
use Prim.Native.Nat.{zero-le}
use jove.Base.Int.{pos}
use jove.Buffer.{Buffer, Bufpos, Text, newline, left, right, InLine}
use jove.Move.Char.{gap}
use jove.Outcome.{Outcome, done, jump}
use jove.Marks.{i_fix_marks}
use jove.Insert.{ins_c, line_insert, put_lines, lbsize, set_text}
use jove.Insert.View.{ins_c-some, length_inserted, inserted-gap}
use jove.Insert.Lines.{line_insert-gap}
use jove.Region.{dot}
use jove.InsertString.{settled, place_byte, or_stop, ins_bytes, ins_str_wrap, ins_str}

-- The string stands before point, and what stood after point still does.
abbrev pub Typed : Text → Buffer → Outcome Buffer → Type 0
Typed str b (done b') = InLine b' × (gap b' ≡ (push_all str (left b), right b))
Typed str b (jump j b') = ⊥

settled-gap : (save : Bufpos) (b : Buffer) → gap (settled save b) ≡ gap b
unfolding left right i_fix_marks
settled-gap save b = refl

-- After a newline: the line is the rest of the one before.
broken-line :
    (save : Bufpos) (b : Buffer)
    → ((line_insert (pos 1) (settled save b)).here.text ≡ drop b.curchar b.here.text)
      × ((line_insert (pos 1) (settled save b)).curchar ≡ 0)
unfolding line_insert put_lines i_fix_marks
broken-line save b = (refl, refl)

broken-gap :
    (save : Bufpos) (b : Buffer)
    → gap (line_insert (pos 1) (settled save b)) ≡ (newline ∷ left b, right b)
broken-gap save b =
    line_insert-gap 0 (settled save b) ∙ ap (λ g. (newline ∷ g.0, g.1)) (settled-gap save b)

byte-placed :
    (c : ℕ) (b : Buffer)
    → InLine b
    → length b.here.text + 2 ≤ lbsize
    → (b' : Buffer) × (place_byte c b (ins_c c b.here.text b.curchar 1 lbsize) ≡ done b')
      × InLine b'
      × (gap b' ≡ (c ∷ left b, right b))
      × (length b'.here.text ≡ length b.here.text + 1)
unfolding place_byte left right
byte-placed c b h fits = (
  record (set_text (take b.curchar b.here.text ++ (replicate 1 c ++ drop b.curchar b.here.text))
      b) { curchar = b.curchar + 1 },
  ap (place_byte c b) (ins_c-some c b.here.text b.curchar 1 lbsize h (omega arith)),
  omega (arith, length_inserted c b.here.text b.curchar 1 h),
  inserted-gap c 1 b b.marks h,
  length_inserted c b.here.text b.curchar 1 h,
)

Typed-cons :
    (c : ℕ) (cs : Text) (b b1 : Buffer) (o : Outcome Buffer)
    → gap b1 ≡ (c ∷ left b, right b)
    → Typed cs b1 o
    → Typed (c ∷ cs) b o
Typed-cons c cs b b1 (done b') g (i, g') = (i, g' ∙ ap (λ z. (push_all cs z.0, z.1)) g)
Typed-cons c cs b b1 (jump j b') g t = t

ins_bytes-Typed :
    (wrap_off : ℕ) (cs : Text) (save : Bufpos) (llen : ℕ) (b : Buffer)
    → InLine b
    → length b.here.text + length cs + 1 ≤ lbsize
    → Typed cs b (ins_bytes false wrap_off cs save llen b)
unfolding ins_bytes
ins_bytes-Typed wrap_off [] save llen b h fits = (h, settled-gap save b)
ins_bytes-Typed wrap_off (c ∷ cs) save llen b h fits = elim (Bool-cases (c == newline)) [
  | inl n ↦
      let broken = line_insert (pos 1) (settled save b) in
      let (t, z) = broken-line save b in
      rw n (
        Typed-cons c cs b broken
          (ins_bytes false wrap_off cs (dot broken) (length broken.here.text) broken)
          (broken-gap save b ∙ ap (λ k. (k ∷ left b, right b)) (sym ((==_iff c newline).0 n)))
          (ins_bytes-Typed wrap_off cs (dot broken) (length broken.here.text) broken zero-le
            (omega (arith, ap length t, length-drop b.curchar b.here.text))))
  | inr o ↦
      let (b', e, i, g, len) = byte-placed c b h (omega arith) in
      rw o (
        subst (λ p. Typed (c ∷ cs) b (or_stop p (ins_bytes false wrap_off cs save (llen + 1))))
          (sym e)
          (Typed-cons c cs b b' (ins_bytes false wrap_off cs save (llen + 1) b') g
            (ins_bytes-Typed wrap_off cs save (llen + 1) b' i (omega arith))))
]

-- With point within its line and room in the line for the whole string, `ins_str` of a string,
-- newlines in it included, returns with the string before point, behind what stood there already;
-- what stood after point still does, and point lies within its line.
pub ins_str-Typed :
    (str : Text) (b : Buffer)
    → InLine b
    → length b.here.text + length str + 1 ≤ lbsize
    → Typed str b (ins_str str b)
unfolding ins_str_wrap
ins_str-Typed [] b h fits = (h, refl)
ins_str-Typed (c ∷ cs) b h fits =
    ins_bytes-Typed (lbsize - 1) (c ∷ cs) (dot b) (length b.here.text) b h fits
