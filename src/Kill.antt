-- ===== src/Kill.antt =====
-- Taking a region out of a buffer and keeping it (delete.c: `reg_delete`).
pub mod Region
pub mod Yanked
use jove.Base.{
  ℕ, suc, List, [], ◌∷◌, ◌==◌, ◌&&◌, Bool, true, false, Option, none, some, if◌then◌else◌, take,
  drop,
}
use jove.Buffer.{Buffer, Line, LinePtr, Bufpos, Text, line_at}
use jove.Outcome.{Jump, bell, stray_line, Outcome, done, jump}
use jove.Region.{to_line, fixorder}
use jove.Delete.{patchup, through, after, same_place}

-- The lines that `reg_delete` gives, a first one and those linked after it; or how it gives up.
pub data Killed : Type 0 where
  killed : Line → List Line → Buffer → Killed
  refused : Jump → Buffer → Killed

-- The line `k` cut at a column.
unfoldable pub shortened : LinePtr → ℕ → List Line → List Line
shortened k c [] = []
shortened k c (l ∷ ls) =
    let rest = shortened k c ls in (if l.id == k then line_at l.id (take c l.text) else l) ∷ rest

-- The text for `retline`.
abbrev pub first_saved : Bufpos → Bufpos → Text → Text
first_saved p q t = drop p.char (if p.line == q.line then take q.char t else t)

-- What is done after `patchup`.
unfoldable pub unlink_region : Line → Bufpos → Bufpos → Outcome Buffer → Killed
unfolding through after shortened
unlink_region retline p q (jump j b) = refused j b
unlink_region retline p q (done b) =
    if p.line == q.line
    then killed retline [] b
    else killed retline (shortened q.line q.char (through q.line b.below))
        (record b { below = after q.line b.below })

-- `reg_delete` for two positions in order, from `nbufline` on.
unfoldable pub delete_ordered : Bufpos → Bufpos → Buffer → Killed
unfolding unlink_region patchup to_line
delete_ordered p q b = elim (to_line p.line b) [
  | none ↦ refused stray_line b
  | some b1 ↦
      unlink_region (line_at b.fresh (first_saved p q b1.here.text)) p q
        (patchup p q (record b { fresh = suc b.fresh }))
]

-- `reg_delete`, for two lines that are there.
unfoldable pub reg_delete : Bufpos → Bufpos → Buffer → Killed
unfolding delete_ordered fixorder
reg_delete p q b =
    let (p', q', _) = fixorder p q b in
    let ordered = delete_ordered p' q' b in if same_place p q then refused bell b else ordered
