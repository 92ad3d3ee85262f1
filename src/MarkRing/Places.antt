-- ===== src/MarkRing/Places.antt =====
-- The ring of marks (marks.c) as a ring of places, which the marks in its slots are at.
use jove.Base.{
  ℕ, zero, suc, ◌+◌, ◌-◌, ◌≤◌, ◌<◌, ◌≡◌, ◌≢◌, ◌⊎◌, refl, sym, ap, ◌∙◌, arith, List, [], ◌∷◌, ◌++◌,
  ap₂, Option, none, some, ◌==◌, Bool, true, false,
}
use native.Mathlib.Decide.{ℕ_discrete}
use jove.Buffer.{LinePtr, Mark}
use jove.Marks.{mark_set}
use jove.KillRing.{Ring}
use jove.KillRing.Slots.{span_equal}
use jove.KillRing.Recent.{recent}
use jove.MarkRing.{nmarks, Marked, find_mark, at_mark}

abbrev pub Place : Type 0
Place = LinePtr × ℕ

-- The place of the mark that a slot points to.
abbrev pub place_of : Option Mark → Option Place
place_of none = none
place_of (some m) = some (m.line, m.char)

abbrev pub spot : List Mark → Option ℕ → Option Place
spot ms none = none
spot ms (some k) = place_of (find_mark k ms)

abbrev pub places : Marked → Ring Place
places s = record { slots = λ i. spot s.buffer.marks (s.slots i); ptr = s.the_mark }

-- The first `m` slots point to marks of the buffer, no two to the same one; the others are empty,
-- and the current mark is in one of the first, or at 0 in an empty ring.
pub record IsMarkRing (s : Marked) (m : ℕ) : Type 0 where
  pub in_use :
      (j : ℕ)
      → j < m
      → (k : ℕ) × (x : Mark) × (s.slots j ≡ some k) × (find_mark k s.buffer.marks ≡ some x)
  pub free : (j : ℕ) → m ≤ j → j < nmarks → s.slots j ≡ none
  pub distinct : (i j : ℕ) → i < m → j < m → s.slots i ≡ s.slots j → i ≡ j
  pub at_entry : (s.the_mark < m) ⊎ ((m ≡ 0) × (s.the_mark ≡ 0))
  pub room : m ≤ nmarks

none-some : {A : Type 0} {y : A} → none ≡ some y → ⊥
none-some e = cc

-- A mark that is new to the chain leaves the others where they are.
pub spot_new :
    (ms : List Mark) (x : Mark) (k : ℕ) (y : Mark)
    → find_mark x.id ms ≡ none
    → find_mark k ms ≡ some y
    → spot (x ∷ ms) (some k) ≡ spot ms (some k)
unfolding find_mark
spot_new ms x k y fresh h = elim (ℕ_discrete x.id k) [
  | yes e ↦ absurd (none-some (sym fresh ∙ ap (λ i. find_mark i ms) e ∙ h))
  | no ne ↦ ground arith
]

pub find_mark-at_mark :
    (j l c : ℕ) (ms : List Mark) (m : Mark)
    → find_mark j ms ≡ some m
    → find_mark j (at_mark j (mark_set l c) ms) ≡ some (mark_set l c m)
unfolding find_mark at_mark
find_mark-at_mark j l c [] m e = ground arith
find_mark-at_mark j l c (x ∷ ms) m e = go (x.id == j) refl (find_mark-at_mark j l c ms m)
  where
    go :
        (t : Bool)
        → (x.id == j) ≡ t
        → (find_mark j ms ≡ some m
            → find_mark j (at_mark j (mark_set l c) ms) ≡ some (mark_set l c m))
        → find_mark j (at_mark j (mark_set l c) (x ∷ ms)) ≡ some (mark_set l c m)
    go true h ih = ground (arith, e, h)
    go false h ih = ground (arith, e, h, ih)

-- An assignment to a mark leaves the other marks as they are.
pub at_mark-other :
    (j k l c : ℕ) (ms : List Mark)
    → k ≢ j
    → find_mark k (at_mark j (mark_set l c) ms) ≡ find_mark k ms
unfolding find_mark at_mark
at_mark-other j k l c [] ne = refl
at_mark-other j k l c (x ∷ ms) ne = ground (arith, at_mark-other j k l c ms ne)

pub recent_equal :
    {A : Type 0} (f g : ℕ → Option A) (p m : ℕ)
    → p < m
    → ((j : ℕ) → j < m → f j ≡ g j)
    → recent (record { slots = f; ptr = p }) m ≡ recent (record { slots = g; ptr = p }) m
unfolding recent
recent_equal f g p zero lt h = absurd (omega arith)
recent_equal f g p (suc m) lt h =
    ap₂ (λ a b. a ++ b) (span_equal f g 0 0 (suc p) (λ j k. h (0 + j) (omega arith)))
      (span_equal f g (suc p) (suc p) (m - p) (λ j k. h (suc p + j) (omega arith)))
