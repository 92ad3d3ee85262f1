-- ===== src/Insert/View.antt =====
-- What insertion does to the characters before and after point.
use jove.Base.{
  ℕ, zero, suc, ◌+◌, ◌≤◌, ◌≡◌, refl, sym, ap, ◌∙◌, ◌++◌, length, push_all, arith, some, none,
  replicate, take, drop, push_all-append, push_all-replicate, length-drop, length-replicate,
  length-append, length-take,
}
use jove.Base.{take-append-drop, take-append, drop-append, append_assoc, ◌<◌}
use jove.Base.Int.{pos}
use jove.Base.{List, ap₂, true}
use jove.Buffer.{Mark, line_at}
use jove.Buffer.{Buffer, left, right, InLine, Text, left_lines}
use jove.Move.Char.{gap}
use jove.Outcome.{Outcome, done, jump, too_long}
use jove.Insert.{ins_c, insert_c, lbsize, modify}

pub ins_c-some :
    (c : ℕ) (t : Text) (at n max : ℕ)
    → at ≤ length t
    → length t + n + 1 ≤ max
    → ins_c c t at n max ≡ some (take at t ++ (replicate n c ++ drop at t))
unfolding ins_c
ins_c-some c t at zero max h k = ap some (sym (take-append-drop at t))
ins_c-some c t at (suc n) max h k = ground (arith, length-drop at t)

pub ins_c-none :
    (c : ℕ) (t : Text) (at n max : ℕ)
    → at ≤ length t
    → 0 < n
    → max < length t + n + 1
    → ins_c c t at n max ≡ none
unfolding ins_c
ins_c-none c t at n max h p k = ground (arith, length-drop at t)

-- The text of the line after an insertion, cut at the new place of point.
module _ (c : ℕ) (t : Text) (at n : ℕ) (h : at ≤ length t) where
  length-inserted : length (take at t ++ replicate n c) ≡ at + n
  length-inserted =
      omega
        (arith, length-append (take at t) (replicate n c), length-take at t, length-replicate n c)

  take-inserted :
      take (at + n) (take at t ++ (replicate n c ++ drop at t)) ≡ take at t ++ replicate n c
  take-inserted =
      rw (← append_assoc (take at t) (replicate n c) (drop at t))
        (take-append (take at t ++ replicate n c) (drop at t) (at + n) length-inserted)

  pub drop-inserted : drop (at + n) (take at t ++ (replicate n c ++ drop at t)) ≡ drop at t
  drop-inserted =
      rw (← append_assoc (take at t) (replicate n c) (drop at t))
        (drop-append (take at t ++ replicate n c) (drop at t) (at + n) length-inserted)

  pub length_inserted : length (take at t ++ (replicate n c ++ drop at t)) ≡ length t + n
  length_inserted = omega (
    arith,
    length-append (take at t) (replicate n c ++ drop at t),
    length-append (replicate n c) (drop at t),
    length-take at t,
    length-drop at t,
    length-replicate n c,
  )

pub inserted-gap :
    (c n : ℕ) (b : Buffer) (ms : List Mark)
    → InLine b
    → gap (record b {
      here =
          line_at b.here.id
            (take b.curchar b.here.text ++ (replicate n c ++ drop b.curchar b.here.text));
      curchar = b.curchar + n;
      marks = ms;
      modified = true;
    })
      ≡ (replicate n c ++ left b, right b)
unfolding left right
inserted-gap c n b ms h =
    rw (take-inserted c b.here.text b.curchar n h, drop-inserted c b.here.text b.curchar n h)
      (ap₂ (λ l r. (l, r))
        (push_all-append (take b.curchar b.here.text) (replicate n c) (left_lines b.above)
          ∙ push_all-replicate n c (push_all (take b.curchar b.here.text) (left_lines b.above)))
        refl)

-- The line of point after an insertion that fits.
abbrev pub Inserted : ℕ → ℕ → Buffer → Outcome Buffer → Type 0
Inserted c n b (done b') =
    InLine b'
    × (gap b' ≡ (replicate n c ++ left b, right b))
    × (b'.above ≡ b.above)
    × (b'.below ≡ b.below)
    × (b'.here.id ≡ b.here.id)
    × (length b'.here.text ≡ length b.here.text + n)
Inserted c n b (jump j b') = ⊥

-- Where the line has room for `n` more bytes and its NUL, and point lies within it, `insert_c`
-- puts `n` times the character before point: what stands after point, the other lines and the
-- address of the line stay, and the line is `n` bytes longer.
pub insert_c-Inserted :
    (c n : ℕ) (b : Buffer)
    → InLine b
    → length b.here.text + n + 1 ≤ lbsize
    → Inserted c n b (insert_c c (pos n) b)
unfolding insert_c
insert_c-Inserted c zero b h k = (h, refl, refl, refl, refl, omega arith)
insert_c-Inserted c (suc n) b h k =
    rw (ins_c-some c b.here.text b.curchar (suc n) lbsize h (omega arith)) (
      omega (arith, length_inserted c b.here.text b.curchar (suc n) h),
      inserted-gap c (suc n) b _ h,
      refl,
      refl,
      refl,
      length_inserted c b.here.text b.curchar (suc n) h,
    )

-- Where it has no room, `insert_c` complains, and all that it has done is to mark the buffer as
-- modified.
pub insert_c-too_long :
    (c n : ℕ) (b : Buffer)
    → InLine b
    → 0 < n
    → lbsize < length b.here.text + n + 1
    → insert_c c (pos n) b ≡ jump too_long (modify b)
unfolding insert_c
insert_c-too_long c zero b h p k = elim p [ ]
insert_c-too_long c (suc n) b h p k = rw (ins_c-none c b.here.text b.curchar (suc n) lbsize h p k)
