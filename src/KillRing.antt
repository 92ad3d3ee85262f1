-- ===== src/KillRing.antt =====
-- The kill ring (delete.c: `AddKillRing`, `DelKillRing`; insert.c: the rotation in `YankPop`).
pub mod Slots
pub mod Recent
pub mod Pushed
pub mod Added
pub mod Deleted
pub mod Rotated
use jove.Base.{
  ℕ, zero, suc, ◌+◌, ◌-◌, ◌%◌, Bool, true, false, Option, none, some, ◌==◌, if◌then◌else◌,
}

-- `NUMKILLS` (delete.h).
abbrev pub numkills : ℕ
numkills = 16

-- `killbuf` and `killptr`, for entries of some type; NULL is `none`.
pub record Ring (A : Type 0) : Type 0 where
  pub slots : ℕ → Option A
  pub ptr : ℕ

module _ {A : Type 0} where
  abbrev pub put_slot : (ℕ → Option A) → ℕ → Option A → ℕ → Option A
  put_slot f i x j = if j == i then x else f j

  -- `for (i = ...; i != killptr; i--) killbuf[i] = killbuf[i-1];`, with its number of rounds.
  unfoldable pub shift_up : ℕ → ℕ → (ℕ → Option A) → ℕ → Option A
  shift_up zero i f = f
  shift_up (suc n) i f = shift_up n (i - 1) (put_slot f i (f (i - 1)))

  -- `for (i = killptr; i != NUMKILLS-1; i++) killbuf[i] = killbuf[i+1];`
  unfoldable pub shift_down : ℕ → ℕ → (ℕ → Option A) → ℕ → Option A
  shift_down zero i f = f
  shift_down (suc n) i f = shift_down n (suc i) (put_slot f i (f (suc i)))

  -- `AddKillRing`.
  unfoldable pub add_kill_ring : A → Ring A → Ring A
  unfolding shift_up
  add_kill_ring text r =
      let next = (r.ptr + 1) % numkills in
      elim (r.slots r.ptr) [
        | none ↦ record r { slots = put_slot r.slots r.ptr (some text) }
        | some top ↦ elim (r.slots (numkills - 1)) [
          | none ↦ record {
            slots =
                put_slot (shift_up (numkills - 1 - next) (numkills - 1) r.slots) next (some text);
            ptr = next;
          }
          | some full ↦ record { slots = put_slot r.slots next (some text); ptr = next }
        ]
      ]

  -- `while (killbuf[killptr] == NULL && killptr != 0) killptr -= 1;`
  unfoldable pub settle : (ℕ → Option A) → ℕ → ℕ
  settle f zero = 0
  settle f (suc p) = let rest = settle f p in elim (f (suc p)) [ none ↦ rest | some t ↦ suc p ]

  -- `DelKillRing`.
  unfoldable pub del_kill_ring : Ring A → Ring A
  unfolding shift_down settle
  del_kill_ring r =
      let moved = shift_down (numkills - 1 - r.ptr) r.ptr r.slots in
      let slots = put_slot moved (numkills - 1) none in
      record { slots = slots; ptr = settle slots ((r.ptr + numkills - 1) % numkills) }

  -- `do killptr = (killptr + dir) % NUMKILLS; while (killbuf[killptr] == NULL);`, for at most `n`
  -- rounds.
  unfoldable pub rotate : ℕ → ℕ → Ring A → Option (Ring A)
  rotate zero dir r = none
  rotate (suc n) dir r =
      let next = (r.ptr + dir) % numkills in
      let rest = rotate n dir (record r { ptr = next }) in
      elim (r.slots next) [ none ↦ rest | some t ↦ some (record r { ptr = next }) ]
