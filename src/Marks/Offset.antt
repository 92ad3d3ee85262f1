-- ===== src/Marks/Offset.antt =====
-- Where a position lies in the whole text of a buffer, counted from its start.
use jove.Base.{◌≡◌, refl, ◌<◌, push_all, ltb, arith, Option-cases, inl, inr}
use jove.Base.{ℕ, suc, ◌+◌, ◌≤◌, List, [], ◌∷◌, Option, none, some, if◌then◌else◌, length, ◌==◌}
use jove.Buffer.{Buffer, Line, LinePtr, Mark}

-- The characters of some lines, each with its newline.
abbrev pub total : List Line → ℕ
total [] = 0
total (l ∷ ls) = suc (length l.text) + total ls

-- In the lines above point, nearest first.
abbrev pub offset_above : LinePtr → ℕ → List Line → Option ℕ
offset_above k c [] = none
offset_above k c (l ∷ ls) = if l.id == k then some (total ls + c) else offset_above k c ls

-- In the lines below; `base` is the place of the first of them.
abbrev pub offset_below : LinePtr → ℕ → ℕ → List Line → Option ℕ
offset_below k c base [] = none
offset_below k c base (l ∷ ls) =
    if l.id == k then some (base + c) else offset_below k c (base + suc (length l.text)) ls

abbrev pub or_else : Option ℕ → Option ℕ → Option ℕ
or_else none o = o
or_else (some n) o = some n

unfoldable pub offset : LinePtr → ℕ → Buffer → Option ℕ
offset k c b =
    if b.here.id == k
    then some (total b.above + c)
    else or_else (offset_above k c b.above)
        (offset_below k c (total b.above + suc (length b.here.text)) b.below)

abbrev pub mark_offset : Mark → Buffer → Option ℕ
mark_offset m b = offset m.line m.char b

-- The place of point.
abbrev pub point : Buffer → ℕ
point b = total b.above + b.curchar

-- A position on some line of the list lies within that line.
abbrev pub Within : LinePtr → ℕ → List Line → Type 0
Within k c [] = Unit
Within k c (l ∷ ls) = (l.id ≡ k → c ≤ length l.text) × Within k c ls

pub Within-push_all_right :
    (k : LinePtr) (c : ℕ) (xs ys : List Line) → Within k c (push_all xs ys) → Within k c ys
Within-push_all_right k c [] ys h = h
Within-push_all_right k c (x ∷ xs) ys h = (Within-push_all_right k c xs (x ∷ ys) h).1

pub Within-push_all_left :
    (k : LinePtr) (c : ℕ) (xs ys : List Line) → Within k c (push_all xs ys) → Within k c xs
Within-push_all_left k c [] ys h = tt
Within-push_all_left k c (x ∷ xs) ys h =
    ((Within-push_all_right k c xs (x ∷ ys) h).0, Within-push_all_left k c xs (x ∷ ys) h)

pub offset_above-lt :
    (k : LinePtr) (c o : ℕ) (ls : List Line)
    → Within k c ls
    → offset_above k c ls ≡ some o
    → o < total ls
offset_above-lt k c o [] h e = absurd (cc)
offset_above-lt k c o (l ∷ ls) h e = ground (arith, offset_above-lt k c o ls, h.0)

pub offset_below-ge :
    (k : LinePtr) (c base o : ℕ) (ls : List Line) → offset_below k c base ls ≡ some o → base ≤ o
offset_below-ge k c base o [] e = absurd (cc)
offset_below-ge k c base o (l ∷ ls) e =
    ground (arith, offset_below-ge k c (base + suc (length l.text)) o ls)

-- A position after an insertion of `n` characters at the place `p`.
abbrev pub shifted : ℕ → ℕ → Option ℕ → Option ℕ
shifted n p none = none
shifted n p (some o) = some (if ltb p o then o + n else o)

pub offset_above-shifted :
    (k : LinePtr) (c n p : ℕ) (ls : List Line)
    → Within k c ls
    → total ls ≤ p
    → shifted n p (offset_above k c ls) ≡ offset_above k c ls
offset_above-shifted k c n p ls h le = elim (Option-cases (offset_above k c ls)) [
  | inl e ↦ rw e
  | inr (o, e) ↦ rw e (ground (arith, offset_above-lt k c o ls h e))
]

pub offset_below-shifted :
    (k : LinePtr) (c n p base : ℕ) (ls : List Line)
    → p < base
    → offset_below k c (base + n) ls ≡ shifted n p (offset_below k c base ls)
offset_below-shifted k c n p base [] h = refl
offset_below-shifted k c n p base (l ∷ ls) h =
    let e : base + n + suc (length l.text) ≡ base + suc (length l.text) + n = omega arith in
    rw e (ground (arith, offset_below-shifted k c n p (base + suc (length l.text)) ls))
