-- ===== src/MarkRing/Kept.antt =====
-- The ring of marks stays one under `do_set_mark` (marks.c).
use jove.Base.{ℕ, suc, ◌<◌, ◌≡◌, Option, none, some, List}
use jove.Buffer.{Mark}
use jove.MarkRing.{nmarks, Marked, find_mark}
use jove.MarkRing.Places.{IsMarkRing}
use jove.MarkRing.Pushed.{Pushed, after}

-- A slot in use, with the mark that it points to.
abbrev InUse : List Mark → Option ℕ → Type 0
InUse ms o = (k : ℕ) × (x : Mark) × (o ≡ some k) × (find_mark k ms ≡ some x)

module _ (l c k : ℕ) (s : Marked) (fresh : find_mark k s.buffer.marks ≡ none) where
  module _ (m : ℕ) (v : IsMarkRing s (suc m)) (h : suc m < nmarks) where
    abbrev now : ℕ → Option ℕ
    now = after l c k s fresh m v h
