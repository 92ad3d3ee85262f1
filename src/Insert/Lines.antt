-- ===== src/Insert/Lines.antt =====
-- `LineInsert`: what it does to the text, and that it keeps the buffer well formed.
use jove.Base.{
  ℕ, zero, suc, ◌≡◌, refl, ap, ap₂, ◌∙◌, [], ◌∷◌, ◌++◌, length, push_all, arith, replicate, take,
  drop, replicate-append-cons, Bool-cases, inl, inr, ltb, ltb→lt, ltb_false→le, ◌+◌,
}
use Prim.Native.Nat.{zero-le}
use jove.Base.Int.{ℤ, pos, negsuc}
use jove.Buffer.{Buffer, left, right, newline, left_lines, right_lines, IsValid, lines, line_at}
use jove.Buffer.Valid.{Sound, Sound-retext, Sound-open}
use jove.Move.Char.{gap}
use jove.Insert.View.{ins_c-some, ins_c-none, length_inserted}
use jove.Outcome.{final}
use jove.Insert.{insert_c, lbsize, put_lines, line_insert, modify, set_text, count_of}

put_lines-above :
    (n : ℕ) (b : Buffer)
    → left_lines (put_lines (suc n) b).above
      ≡ replicate (suc n) newline ++ push_all b.here.text (left_lines b.above)
unfolding put_lines
put_lines-above zero b = refl
put_lines-above (suc n) b =
    put_lines-above n _
    ∙ replicate-append-cons (suc n) newline (push_all b.here.text (left_lines b.above))

put_lines-below : (n : ℕ) (b : Buffer) → (put_lines n b).below ≡ b.below
unfolding put_lines
put_lines-below zero b = refl
put_lines-below (suc n) b = put_lines-below n _

-- With a positive count `LineInsert` puts as many newlines before point; what stands after point
-- stays.
pub line_insert-gap :
    (n : ℕ) (b : Buffer)
    → gap (line_insert (pos (suc n)) b) ≡ (replicate (suc n) newline ++ left b, right b)
unfolding line_insert left right
line_insert-gap n b =
    ap₂ (λ l r. (l, r)) (put_lines-above n _)
      (ap (λ ls. drop b.curchar b.here.text ++ right_lines ls) (put_lines-below (suc n) _))

-- With a count that is zero or negative (as in an argument of 0 to the command Newline) the
-- characters of the line before point are lost: they are gone from the text, and nothing is put
-- in their place.
pub line_insert-loses_head :
    (num : ℤ) (b : Buffer)
    → count_of num ≡ 0
    → gap (line_insert num b) ≡ (left_lines b.above, right b)
unfolding line_insert left right
line_insert-loses_head (pos zero) b h = refl
line_insert-loses_head (pos (suc n)) b h = absurd (omega arith)
line_insert-loses_head (negsuc n) b h = refl

put_lines-Sound :
    (n : ℕ) (b : Buffer)
    → Sound b.fresh (lines b)
    → Sound (put_lines n b).fresh (lines (put_lines n b))
unfolding put_lines
put_lines-Sound zero b v = v
put_lines-Sound (suc n) b v = put_lines-Sound n _ (Sound-open b.fresh b.above b.below b.here [] v)

-- `LineInsert`, with any count, keeps the addresses of the lines distinct and below the next one
-- to be handed out, and leaves point within its line.
pub line_insert-IsValid : (num : ℤ) (b : Buffer) → IsValid b → IsValid (line_insert num b)
unfolding line_insert
line_insert-IsValid num b v = record { in_line = zero-le; distinct = sound.0; allocated = sound.1 }
  where
    shortened : Buffer
    shortened = set_text (take b.curchar b.here.text) (modify b)

    opened : Buffer
    opened = put_lines (count_of num) shortened

    sound :
        Sound opened.fresh (
          push_all opened.above
            (line_at opened.here.id (drop b.curchar b.here.text) ∷ opened.below))
    sound =
        Sound-retext opened.fresh opened.above opened.below opened.here (drop b.curchar b.here.text)
          (put_lines-Sound (count_of num) shortened (
            Sound-retext b.fresh b.above b.below b.here (take b.curchar b.here.text)
              (v.distinct, v.allocated)))

-- `insert_c`, with any count and whether or not it complains, keeps the buffer well formed.
pub insert_c-IsValid : (c : ℕ) (n : ℤ) (b : Buffer) → IsValid b → IsValid (final (insert_c c n b))
unfolding insert_c
insert_c-IsValid c (negsuc n) b v = v
insert_c-IsValid c (pos zero) b v = v
insert_c-IsValid c (pos (suc n)) b v =
    elim (Bool-cases (ltb lbsize (length b.here.text + suc n + 1))) [
      | inl over ↦
          rw
            (ins_c-none c b.here.text b.curchar (suc n) lbsize v.in_line (omega arith)
              (ltb→lt _ _ over))
            (record { in_line = v.in_line; distinct = v.distinct; allocated = v.allocated })
      | inr fits ↦
          let sound = Sound-retext b.fresh b.above b.below b.here _ (v.distinct, v.allocated) in
          rw (ins_c-some c b.here.text b.curchar (suc n) lbsize v.in_line (ltb_false→le _ _ fits))
            (record {
              in_line = omega (arith, length_inserted c b.here.text b.curchar (suc n) v.in_line);
              distinct = sound.0;
              allocated = sound.1;
            })
    ]
