-- ===== src/Keymap.antt =====
-- Key maps (keymaps.c): full ones, indexed by the key, and sparse ones, sorted by the key.
pub mod Search
pub mod Scan
pub mod Moved
pub mod Entered
pub mod Set
use jove.Base.{
  ℕ, zero, suc, ◌+◌, ◌-◌, ◌/◌, Bool, true, false, Option, none, some, ltb, leb, ◌==◌, if◌then◌else◌,
}
use jove.KillRing.{put_slot, shift_up, shift_down}

-- `NCHARS` (jctype.h), `KEYMAP_QUANTUM` and `SPARSE_LIMIT`.
abbrev pub nchars : ℕ
nchars = 256

abbrev pub keymap_quantum : ℕ
keymap_quantum = 8

abbrev pub sparse_limit : ℕ
sparse_limit = nchars / 3 - keymap_quantum

-- `struct keybinding`, for what keys are bound to.
pub record Binding (A : Type 0) : Type 0 where
  pub key : ℕ
  pub value : A

-- The sparse part of `struct keymap`; the places of the array that are not in use are `none`.
pub record Sparse (A : Type 0) : Type 0 where
  pub bindings : ℕ → Option (Binding A)
  pub nused : ℕ
  pub nalloc : ℕ

-- `struct keymap`, by its type.
pub data Keymap (A : Type 0) : Type 0 where
  full : (ℕ → Option A) → Keymap A
  sparse : Sparse A → Keymap A

module _ {A : Type 0} where
  -- `b[i].key` and `b[i].value`.
  unfoldable pub key_at : (ℕ → Option (Binding A)) → ℕ → ℕ
  key_at f i = elim (f i) [ none ↦ 0 | some b ↦ b.key ]

  unfoldable pub value_at : (ℕ → Option (Binding A)) → ℕ → Option A
  value_at f i = elim (f i) [ none ↦ none | some b ↦ some b.value ]

  -- The loop of `km_getkey` in a sparse map, for at most `n` rounds: the bounds that it ends with.
  unfoldable pub narrow : ℕ → (ℕ → Option (Binding A)) → ℕ → ℕ → ℕ → ℕ × ℕ
  unfolding key_at
  narrow zero f key lwb upb = (lwb, upb)
  narrow (suc n) f key lwb upb =
      let mid = (lwb + upb) / 2 in
      let right = narrow n f key mid upb in
      let left = narrow n f key lwb mid in
      if mid == lwb then (lwb, upb) else if leb (key_at f mid) key then right else left

  -- The rest of `km_getkey` for it: the value, and `km_sparsepos`.
  unfoldable pub settled : (ℕ → Option (Binding A)) → ℕ → ℕ × ℕ → Option A × ℕ
  unfolding key_at value_at
  settled f key (lwb, upb) =
      if lwb == upb
      then (none, upb)
      else if key_at f lwb == key
      then (value_at f lwb, lwb)
      else if ltb key (key_at f lwb)
      then (none, lwb)
      else (none, upb)

  unfoldable pub find_key : Sparse A → ℕ → Option A × ℕ
  unfolding narrow settled
  find_key s key = settled s.bindings key (narrow s.nused s.bindings key 0 s.nused)

  -- `km_getkey`.
  unfoldable pub km_getkey : Keymap A → ℕ → Option A
  unfolding find_key
  km_getkey (full map) key = map key
  km_getkey (sparse s) key = (find_key s key).0

  -- The loop of `km_nextkey` in a full map, for at most `n` rounds.
  unfoldable pub next_full : ℕ → (ℕ → Option A) → ℕ → ℕ
  next_full zero map key = key
  next_full (suc n) map key = elim (map key) [ none ↦ next_full n map (suc key) | some v ↦ key ]

  -- `km_nextkey`.
  unfoldable pub km_nextkey : Keymap A → ℕ → ℕ
  unfolding next_full find_key key_at
  km_nextkey (full map) key = next_full (nchars - key) map key
  km_nextkey (sparse s) key =
      let pos = (find_key s key).1 in if pos == s.nused then nchars else key_at s.bindings pos

  -- The loop of `km_setkey` that makes a full map of the first `n` bindings of a sparse one.
  unfoldable pub spread : ℕ → (ℕ → Option (Binding A)) → (ℕ → Option A) → ℕ → Option A
  unfolding key_at value_at
  spread zero f map = map
  spread (suc n) f map = spread n f (put_slot map (key_at f n) (value_at f n))

  -- The branches of `km_setkey` on a sparse map: a binding at `i` taken out, changed, and put in.
  unfoldable pub take_out : Sparse A → ℕ → Sparse A
  unfolding shift_down
  take_out s i = record s {
    bindings = shift_down (s.nused - 1 - i) i s.bindings;
    nused = s.nused - 1;
  }

  unfoldable pub change : Sparse A → ℕ → ℕ → A → Sparse A
  change s i key v = record s {
    bindings = put_slot s.bindings i (some (record { key = key; value = v }));
  }

  unfoldable pub put_in : Sparse A → ℕ → ℕ → A → Sparse A
  unfolding shift_up
  put_in s i key v = record s {
    bindings =
        put_slot (shift_up (s.nused - i) s.nused s.bindings) i
          (some (record { key = key; value = v }));
    nused = s.nused + 1;
  }

  unfoldable pub inserted : Sparse A → ℕ → ℕ → A → Keymap A
  unfolding put_in spread
  inserted s i key v =
      if s.nused == s.nalloc
      then (if leb sparse_limit s.nused
          then full (put_slot (spread s.nused s.bindings (λ k. none)) key (some v))
          else sparse (put_in (record s { nalloc = s.nalloc + keymap_quantum }) i key v))
      else sparse (put_in s i key v)

  -- `km_setkey`; the memory of what was bound before is given back by `DelObjRef`.
  unfoldable pub km_setkey : Keymap A → ℕ → Option A → Keymap A
  unfolding find_key take_out change inserted
  km_setkey (full map) key d = full (put_slot map key d)
  km_setkey (sparse s) key d =
      let i = (find_key s key).1 in
      elim (find_key s key).0 [
        | some old ↦ elim d [
          | none ↦ sparse (take_out s i)
          | some v ↦ sparse (change s i (key_at s.bindings i) v)
        ]
        | none ↦ elim d [ none ↦ sparse s | some v ↦ inserted s i key v ]
      ]
