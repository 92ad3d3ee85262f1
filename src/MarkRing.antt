-- ===== src/MarkRing.antt =====
-- The mark ring of a buffer (marks.c: `do_set_mark`, `PopMark`, `ExchPtMark` and what they call).
pub mod Places
pub mod Pushed
pub mod Kept
use jove.Base.{
  ℕ, zero, suc, ◌+◌, ◌-◌, ◌%◌, ◌≡◌, List, [], ◌∷◌, map, Option, none, some, Bool, true, false, ◌==◌,
  if◌then◌else◌, length, min,
}
use jove.Buffer.{Buffer, LinePtr, Mark}
use jove.Outcome.{Outcome, ◌>>=◌, done, jump, no_mark}
use jove.Marks.{mark_set, make_mark}
use jove.Region.{set_dot, dot}
use jove.KillRing.{put_slot, shift_up}

-- `NMARKS` (buf.h).
abbrev pub nmarks : ℕ
nmarks = 8

-- A buffer with its `b_markring`, which holds the addresses of marks, and its `b_themark`.
pub record Marked : Type 0 where
  pub buffer : Buffer
  pub slots : ℕ → Option ℕ
  pub the_mark : ℕ

-- What a pointer to a mark points to.
unfoldable pub find_mark : ℕ → List Mark → Option Mark
find_mark k [] = none
find_mark k (m ∷ ms) = let rest = find_mark k ms in if m.id == k then some m else rest

-- An assignment through a pointer to a mark.
unfoldable pub at_mark : ℕ → (Mark → Mark) → List Mark → List Mark
at_mark k f [] = []
at_mark k f (m ∷ ms) = (if m.id == k then f m else m) ∷ at_mark k f ms

-- `curmark`.
unfoldable pub cur_mark : Marked → Option Mark
unfolding find_mark
cur_mark s = elim (s.slots s.the_mark) [ none ↦ none | some k ↦ find_mark k s.buffer.marks ]

-- `DelBufMark`, on the chain of the marks; `none` is its complaint about an unknown mark.
unfoldable pub del_buf_mark : ℕ → List Mark → Option (List Mark)
del_buf_mark k [] = none
del_buf_mark k (m ∷ ms) =
    let rest = del_buf_mark k ms in
    if m.id == k then some ms else elim rest [ none ↦ none | some ms' ↦ some (m ∷ ms') ]

-- The first loop of `AllMarkReset`, for the `n` slots from `i` on.
unfoldable pub del_ring_marks : ℕ → ℕ → (ℕ → Option ℕ) → List Mark → Option (List Mark)
unfolding del_buf_mark
del_ring_marks zero i slots ms = some ms
del_ring_marks (suc n) i slots ms = elim (slots i) [
  | none ↦ del_ring_marks n (suc i) slots ms
  | some k ↦ elim (del_buf_mark k ms) [
    | none ↦ none
    | some ms' ↦ del_ring_marks n (suc i) slots ms'
  ]
]

-- `AllMarkReset`.
unfoldable pub all_mark_reset : LinePtr → Marked → Option Marked
unfolding del_ring_marks
all_mark_reset line s = elim (del_ring_marks nmarks 0 s.slots s.buffer.marks) [
  | none ↦ none
  | some ms ↦ some (record {
    buffer = record s.buffer { marks = map (mark_set line 0) ms };
    slots = λ i. none;
    the_mark = 0;
  })
]

-- The first `if` of `do_set_mark`: the ring turns to the slot for the new mark, and makes it an
-- empty one while the last slot is empty.
unfoldable pub next_slot : Marked → Marked
unfolding shift_up
next_slot s = elim (s.slots s.the_mark) [
  | none ↦ s
  | some k ↦
      let tm = (s.the_mark + 1) % nmarks in
      elim (s.slots (nmarks - 1)) [
        | some j ↦ record s { the_mark = tm }
        | none ↦ record s {
          slots = put_slot (shift_up (nmarks - 1 - tm) (nmarks - 1) s.slots) tm none;
          the_mark = tm;
        }
      ]
]

-- The second `if` of `do_set_mark`; `k` is the address of a new mark.
unfoldable pub fill_slot : LinePtr → ℕ → ℕ → Marked → Marked
unfolding at_mark
fill_slot l c k s = elim (s.slots s.the_mark) [
  | none ↦ record s {
    buffer = make_mark k l c s.buffer;
    slots = put_slot s.slots s.the_mark (some k);
  }
  | some j ↦ record s {
    buffer = record s.buffer { marks = at_mark j (mark_set l c) s.buffer.marks };
  }
]

-- `do_set_mark`, less the message, and `set_mark`.
unfoldable pub do_set_mark : LinePtr → ℕ → ℕ → Marked → Marked
unfolding next_slot fill_slot
do_set_mark l c k s = fill_slot l c k (next_slot s)

unfoldable pub set_mark : ℕ → Marked → Marked
unfolding do_set_mark
set_mark k s = do_set_mark s.buffer.here.id s.buffer.curchar k s

-- `ToMark`.
unfoldable pub to_mark : Option Mark → Buffer → Outcome Buffer
unfolding set_dot
to_mark none b = done b
to_mark (some m) b = set_dot (record { line = m.line; char = m.char }) b >>= λ b'.
    done (record b' { curchar = min b'.curchar (length b'.here.text) })

-- `ExchPtMark`, with `CurMark`.
unfoldable pub exch_pt_mark : Marked → Outcome Marked
unfolding cur_mark to_mark at_mark
exch_pt_mark s = elim (cur_mark s) [
  | none ↦ jump no_mark s
  | some m ↦ elim (to_mark (some m) s.buffer) [
    | jump j b ↦ jump j (record s { buffer = b })
    | done b ↦
        let p = dot s.buffer in
        done
          (record s { buffer = record b { marks = at_mark m.id (mark_set p.line p.char) b.marks } })
  ]
]

-- The loop of `PopMark`, which ends at the latest in the slot where it starts, after `NMARKS`
-- rounds.
unfoldable pub older_slot : ℕ → (ℕ → Option ℕ) → ℕ → ℕ
older_slot zero slots p = p
older_slot (suc n) slots p =
    let next = if p == 0 then nmarks - 1 else p - 1 in
    let rest = older_slot n slots next in elim (slots next) [ none ↦ rest | some k ↦ next ]

-- `PopMark`.
unfoldable pub pop_mark : Marked → Outcome Marked
unfolding exch_pt_mark older_slot
pop_mark s = elim (s.slots s.the_mark) [
  | none ↦ done s
  | some k ↦ exch_pt_mark s >>= λ s'.
      done (record s' { the_mark = older_slot nmarks s'.slots s'.the_mark })
]

-- `SetMark`, by whether there is an argument.
unfoldable pub set_mark_command : Bool → ℕ → Marked → Outcome Marked
unfolding pop_mark set_mark
set_mark_command arg k s = if arg then pop_mark s else done (set_mark k s)
