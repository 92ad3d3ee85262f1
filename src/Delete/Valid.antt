-- ===== src/Delete/Valid.antt =====
-- Taking lines out keeps the addresses distinct, and point within its line.
use jove.Base.{
  ◌+◌, ◌-◌, ◌≡◌, List, [], ◌∷◌, ◌++◌, push_all, arith, length, take, drop, length-append,
  length-take, length-drop, inl, inr, append_assoc,
}
use native.Mathlib.Nat.{le_refl}
use jove.Buffer.{Buffer, Line, LinePtr, Text, line_at, lines, Ahead, InLine}
use jove.Buffer.View.{Distinct-push_all, Below-push_all, Apart-append_right}
use jove.Buffer.Valid.{Sound, Distinct-replace, Below-replace}

Sound-append_right : (n : LinePtr) (xs ys : List Line) → Sound n (xs ++ ys) → Sound n ys
Sound-append_right n [] ys s = s
Sound-append_right n (x ∷ xs) ys (d, u) = Sound-append_right n xs ys (d.1, u.1)

-- Lines are left out between the line `l`, which takes the text `t`, and the lines `ys`.
Sound-omit :
    (n : LinePtr) (xs mid ys : List Line) (l : Line) (t : Text)
    → Sound n (push_all xs (l ∷ (mid ++ ys)))
    → Sound n (push_all xs (line_at l.id t ∷ ys))
Sound-omit n xs mid ys l t (d, u) =
    let dl = Distinct-push_all xs (l ∷ (mid ++ ys)) d in
    let ul = Below-push_all n xs (l ∷ (mid ++ ys)) u in
    let (dy, uy) = Sound-append_right n mid ys (dl.1, ul.1) in
    (
      Distinct-replace n xs (l ∷ (mid ++ ys)) (line_at l.id t ∷ ys) d u
          (Apart-append_right l.id mid ys dl.0, dy)
          (λ k h a. (a.0, Apart-append_right k mid ys a.1)),
      Below-replace n n xs (l ∷ (mid ++ ys)) (line_at l.id t ∷ ys) u (le_refl n) (ul.0, uy),
    )

module _ (u l : Buffer) (r : Ahead u l) where
  pub erased-Sound :
      (n : LinePtr) (t : Text)
      → Sound n (lines u)
      → Sound n (push_all u.above (line_at u.here.id t ∷ l.below))
  erased-Sound n t s = elim r [
    | inl (a, h, k) ↦ rw k (Sound-omit n u.above [] u.below u.here t s)
    | inr (mid, a, k) ↦
        Sound-omit n u.above (mid ++ l.here ∷ []) l.below u.here t
          (rw (append_assoc mid (l.here ∷ []) l.below, ← k) s)
  ]

  pub length-erased :
      InLine u
      → length (take u.curchar u.here.text ++ drop l.curchar l.here.text)
        ≡ u.curchar + (length l.here.text - l.curchar)
  length-erased h = omega (
    arith,
    length-append (take u.curchar u.here.text) (drop l.curchar l.here.text),
    length-take u.curchar u.here.text,
    length-drop l.curchar l.here.text,
  )
