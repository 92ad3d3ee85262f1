-- ===== src/Delete/Chars.antt =====
-- `del_char` takes out the characters after or before point.
use jove.Base.{
  ℕ, zero, suc, ◌+◌, ◌-◌, ◌<◌, ◌≡◌, ◌≢◌, refl, ap, ◌∙◌, [], ◌∷◌, true, false, ◌==◌, some, ◌⊎◌, inl,
  inr, arith, Bool-cases, ==_iff, length, take, drop, length-push_all, length-take,
}
use jove.Base.Int.{pos}
use jove.Buffer.{Buffer, Distinct, lines, Ahead, InLine, IsValid, left, right, left_lines, Text}
use jove.Buffer.Along.{lines-Ahead}
use jove.Outcome.{done, jump, bell}
use jove.Move.{f_char, b_char}
use jove.Move.Char.{
  Gap, gap, moves, step_left, step_right, Moved, Behind, f_char-Moved, b_char-Moved, f_char-stays,
  b_char-stays,
}
use jove.Move.Laws.{moves_right-position, moves_left-position}
use jove.Region.{dot}
use jove.Region.Seek.{lower-Apart}
use jove.Region.Order.{Before, fixorder-upper_below, fixorder-lower}
use jove.Insert.{lbsize}
use jove.Delete.{Direction, forward, backward, del_char, erase, same_place}
use jove.Delete.View.{erased, erased-gap, cut-erased, set_dot-here, set_dot-upper}

moves_right-right : (n : ℕ) (g : Gap) → (moves step_right n g).1 ≡ drop n g.1
moves_right-right zero g = refl
moves_right-right (suc n) (l, []) = moves_right-right n (l, []) ∙ drop-nil n
  where
    drop-nil : (k : ℕ) → drop {A = ℕ} k [] ≡ []
    drop-nil zero = refl
    drop-nil (suc k) = refl
moves_right-right (suc n) (l, c ∷ r) = moves_right-right n (c ∷ l, r)

moves_left-left : (n : ℕ) (g : Gap) → (moves step_left n g).0 ≡ drop n g.0
moves_left-left zero g = refl
moves_left-left (suc n) ([], r) = moves_left-left n ([], r) ∙ drop-nil n
  where
    drop-nil : (k : ℕ) → drop {A = ℕ} k [] ≡ []
    drop-nil zero = refl
    drop-nil (suc k) = refl
moves_left-left (suc n) (c ∷ l, r) = moves_left-left n (l, c ∷ r)

length-left : (b : Buffer) → InLine b → length (left b) ≡ b.curchar + length (left_lines b.above)
unfolding left
length-left b h = omega (
  arith,
  length-push_all (take b.curchar b.here.text) (left_lines b.above),
  length-take b.curchar b.here.text,
)

-- The lower of two places lies after the upper if more text stands before it.
Before-of_left :
    (u l : Buffer)
    → Distinct (lines u)
    → Ahead u l
    → InLine u
    → InLine l
    → length (left u) < length (left l)
    → Before u l
Before-of_left u l d r hu hl lt = (r, ordered)
  where
    ordered : u.here.id ≡ l.here.id → u.curchar < l.curchar
    ordered same = elim r [
      | inl (a, h, k) ↦
          omega (arith, length-left u hu, length-left l hl, ap (λ z. length (left_lines z)) a)
      | inr (mid, a, k) ↦ absurd ((lower-Apart u l d mid k).1 same)
    ]

pub other_place :
    (u l : Buffer)
    → Before u l
    → (same_place (dot u) (dot l) ≡ false) × (same_place (dot l) (dot u) ≡ false)
other_place u l b = elim (Bool-cases (u.here.id == l.here.id)) [
  | inl same ↦ let lt = b.1 ((==_iff _ _).0 same) in ground arith
  | inr other ↦ ground arith
]

module _ (u l : Buffer) (v : Distinct (lines u)) (before : Before u l) (hu : InLine u)
    (fits : u.curchar + (length l.here.text - l.curchar) < lbsize) where
  erase-downwards : erase (dot u) (dot l) l ≡ done (erased u l l)
  unfolding erase
  erase-downwards =
      rw (fixorder-upper_below u l v before)
        (cut-erased u l v before.0 hu l (set_dot-upper u l v before.0 hu) fits)

  erase-upwards : erase (dot l) (dot u) u ≡ done (erased u l u)
  unfolding erase
  erase-upwards =
      rw (fixorder-lower u l v before)
        (cut-erased u l v before.0 hu u (set_dot-here u l v before.0 hu) fits)

nonempty-length : (xs : Text) → xs ≢ [] → 0 < length xs
nonempty-length [] h = absurd (h refl)
nonempty-length (x ∷ xs) h = omega arith

pub f_char-Before :
    (n : ℕ) (b : Buffer) → IsValid b → 0 < n → right b ≢ [] → Before b (f_char (pos n) b)
f_char-Before n b v p some_right =
    let facts = f_char-Moved n b v.in_line in
    Before-of_left b (f_char (pos n) b) v.distinct facts.2 v.in_line facts.0 (
      omega (
        arith,
        ap (λ z. length z.0) facts.1,
        moves_right-position n (gap b),
        nonempty-length (right b) some_right,
      ))

-- In a well-formed buffer with text after point, deleting `n > 0` characters forward returns, if
-- the line that is left has room, and takes out the first `n` characters after point, or all of
-- them if there are fewer; line ends count as characters. What stands before point stays.
pub del_char-forward :
    (n : ℕ) (b : Buffer)
    → IsValid b
    → 0 < n
    → right b ≢ []
    → b.curchar + (length (f_char (pos n) b).here.text - (f_char (pos n) b).curchar) < lbsize
    → (b' : Buffer) × (del_char forward (pos n) b ≡ done b') × (gap b' ≡ (left b, drop n (right b)))
unfolding del_char
del_char-forward n b v p some_right fits = (
  erased b l l,
  returns,
  erased-gap b l v.distinct r v.in_line l
      ∙ ap (λ z. (left b, z)) (ap (λ g. g.1) g ∙ moves_right-right n (gap b)),
)
  where
    l : Buffer
    l = f_char (pos n) b

    facts : Moved (moves step_right n) Ahead b (some l)
    facts = f_char-Moved n b v.in_line

    g : gap l ≡ moves step_right n (gap b)
    g = facts.1

    r : Ahead b l
    r = facts.2

    before : Before b l
    before = f_char-Before n b v p some_right

    returns : del_char forward (pos n) b ≡ done (erased b l l)
    returns = rw (other_place b l before).0 (erase-downwards b l v.distinct before v.in_line fits)

module _ (n : ℕ) (b : Buffer) (v : IsValid b) (p : 0 < n) (some_left : left b ≢ [])
    (fits : (b_char (pos n) b).curchar + (length b.here.text - b.curchar) < lbsize) where
  passed : Moved (moves step_left n) Behind b (some (b_char (pos n) b))
  passed = b_char-Moved n b v.in_line

  apart : Distinct (lines (b_char (pos n) b))
  apart = rw (lines-Ahead (b_char (pos n) b) b passed.2) at v.distinct

  pub del_char-erased :
      del_char backward (pos n) b ≡ done (erased (b_char (pos n) b) b (b_char (pos n) b))
  unfolding del_char
  del_char-erased =
      rw (other_place (b_char (pos n) b) b before).1
        (erase-upwards (b_char (pos n) b) b apart before passed.0 fits)
    where
      before : Before (b_char (pos n) b) b
      before = Before-of_left (b_char (pos n) b) b apart passed.2 passed.0 v.in_line (
          omega (
            arith,
            ap (λ z. length z.0) passed.1,
            moves_left-position n (gap b),
            nonempty-length (left b) some_left,
          ))

  -- The same backward: the last `n` characters before point go, what stands after point stays.
  pub del_char-backward :
      (b' : Buffer) × (del_char backward (pos n) b ≡ done b')
      × (gap b' ≡ (drop n (left b), right b))
  del_char-backward = (
    erased (b_char (pos n) b) b (b_char (pos n) b),
    del_char-erased,
    erased-gap (b_char (pos n) b) b apart passed.2 passed.0 (b_char (pos n) b)
        ∙ ap (λ z. (z, right b)) (ap (λ g. g.0) passed.1 ∙ moves_left-left n (gap b)),
  )

same_self : (b : Buffer) → same_place (dot b) (dot b) ≡ true
same_self b = ground arith

-- The text on the side that `del_char` deletes from.
abbrev pub beyond : Direction → Buffer → Text
beyond forward b = right b
beyond backward b = left b

-- Where point lies within its line and there is nothing to delete (a count of 0, or no text on
-- that side of point), `del_char` rings the bell and leaves the buffer as it is, in both
-- directions.
pub del_char-bell :
    (dir : Direction) (n : ℕ) (b : Buffer)
    → InLine b
    → (n ≡ 0) ⊎ (beyond dir b ≡ [])
    → del_char dir (pos n) b ≡ jump bell b
unfolding del_char
del_char-bell forward n b h e = rw (f_char-stays n b h e, same_self b)
del_char-bell backward n b h e = rw (b_char-stays n b h e, same_self b)
