-- ===== src/KillRing/Deleted.antt =====
-- `DelKillRing` takes the most recent entry away.
use jove.Base.{
  ℕ, zero, suc, ◌+◌, ◌-◌, ◌%◌, ◌≤◌, ◌<◌, ◌≡◌, refl, sym, subst, ap, ap₂, ◌∙◌, ◌++◌, Option, none,
  some, arith, drop, ◌⊎◌, inl, inr, le_or_lt, append-nil,
}
use native.Mathlib.Decide.{ℕ_discrete}
use jove.KillRing.{Ring, numkills, put_slot, shift_down, settle, del_kill_ring}
use jove.KillRing.Slots.{
  put_slot-here, put_slot-other, shift_down-inside, shift_down-outside, span, span_equal,
}
use jove.KillRing.Recent.{IsRing, recent, recent-entry}

module _ {A : Type 0} where
  -- `settle` stops at the last slot in use.
  settle-free :
      (f : ℕ → Option A) (p q : ℕ)
      → q ≤ p
      → ((j : ℕ) → q < j → j ≤ p → f j ≡ none)
      → settle f p ≡ settle f q
  unfolding settle
  settle-free f zero q h free = let z : q ≡ 0 = omega arith in ap (settle f) (sym z)
  settle-free f (suc p) q h free = elim (ℕ_discrete q (suc p)) [
    | yes e ↦ ap (settle f) (sym e)
    | no ne ↦
        rw (settle, free (suc p) (omega arith) (omega arith))
          (settle-free f p q (omega arith) (λ j lo hi. free j lo (omega arith)))
  ]

  settle-in_use : (f : ℕ → Option A) (p : ℕ) (t : A) → f p ≡ some t → settle f p ≡ p
  unfolding settle
  settle-in_use f zero t h = refl
  settle-in_use f (suc p) t h = rw (settle, h) refl

  module _ (r : Ring A) (m : ℕ) (v : IsRing r (suc m)) where
    at : r.ptr ≤ m
    at = omega (arith, v.at_entry)

    abbrev left_over : ℕ → Option A
    left_over = put_slot (shift_down (numkills - 1 - r.ptr) r.ptr r.slots) (numkills - 1) none

    left-low : (j : ℕ) → j < r.ptr → left_over j ≡ r.slots j
    left-low j h =
        put_slot-other (shift_down (numkills - 1 - r.ptr) r.ptr r.slots) (numkills - 1) j none
          (omega (arith, v.room, at))
        ∙ shift_down-outside (numkills - 1 - r.ptr) r.ptr r.slots j (omega arith)

    left-high : (j : ℕ) → r.ptr ≤ j → j < numkills - 1 → left_over j ≡ r.slots (suc j)
    left-high j h k =
        put_slot-other (shift_down (numkills - 1 - r.ptr) r.ptr r.slots) (numkills - 1) j none
          (omega arith)
        ∙ shift_down-inside (numkills - 1 - r.ptr) r.ptr r.slots j h (omega arith)

    left-in_use : (j : ℕ) → j < m → (t : A) × (left_over j ≡ some t)
    left-in_use j h = elim (le_or_lt r.ptr j) [
      | inl high ↦
          let (t, e) = v.in_use (suc j) (omega arith) in
          (t, left-high j high (omega (arith, v.room)) ∙ e)
      | inr low ↦ let (t, e) = v.in_use j (omega arith) in (t, left-low j low ∙ e)
    ]

    left-free : (j : ℕ) → m ≤ j → j < numkills → left_over j ≡ none
    left-free j h k = elim (ℕ_discrete j (numkills - 1)) [
      | yes e ↦
          put_slot-here (shift_down (numkills - 1 - r.ptr) r.ptr r.slots) (numkills - 1) j none e
      | no ne ↦
          left-high j (omega (arith, at)) (omega arith) ∙ v.free (suc j) (omega arith) (omega arith)
    ]

    -- Where the pointer comes to stand.
    ptr-low : (p : ℕ) → r.ptr ≡ suc p → settle left_over ((r.ptr + numkills - 1) % numkills) ≡ p
    ptr-low p e =
        let e' : (r.ptr + numkills - 1) % numkills ≡ p = omega (arith, at, v.room) in
        let (t, h) = left-in_use p (omega (arith, at)) in
        ap (settle left_over) e' ∙ settle-in_use left_over p t h

    from_top :
        r.ptr ≡ 0
        → (n : ℕ) → m ≤ suc n
        → n < numkills
        → settle left_over ((r.ptr + numkills - 1) % numkills) ≡ settle left_over n
    from_top e n h k =
        let e' : (r.ptr + numkills - 1) % numkills ≡ numkills - 1 = omega arith in
        ap (settle left_over) e'
        ∙ settle-free left_over (numkills - 1) n (omega arith)
            (λ j lo hi. left-free j (omega arith) (omega arith))

    ptr-last :
        (n : ℕ) → r.ptr ≡ 0 → m ≡ suc n → settle left_over ((r.ptr + numkills - 1) % numkills) ≡ n
    ptr-last n e k =
        let (t, h) = left-in_use n (omega arith) in
        from_top e n (omega arith) (omega (arith, v.room)) ∙ settle-in_use left_over n t h

    ptr-empty : r.ptr ≡ 0 → m ≡ 0 → settle left_over ((r.ptr + numkills - 1) % numkills) ≡ 0
    unfolding settle
    ptr-empty e k = from_top e 0 (omega arith) (omega arith)

    abbrev at_slot : ℕ → Ring A
    at_slot p = record { slots = left_over; ptr = p }

    recent-low : (p : ℕ) → r.ptr ≡ suc p → recent (at_slot p) m ≡ drop 1 (recent r (suc m))
    unfolding recent span
    recent-low p e =
        let n : m - 1 - p ≡ m - r.ptr = omega arith in
        recent-entry (at_slot p) m (omega (arith, at))
        ∙ ap₂ (λ a b. a ++ b)
            (ap (span left_over 0) (sym e)
              ∙ span_equal left_over r.slots 0 0 r.ptr (λ j k. left-low (0 + j) (omega arith)))
            (ap (span left_over (suc p)) n
              ∙ span_equal left_over r.slots (suc p) (suc r.ptr) (m - r.ptr) (λ j k.
                left-high (suc p + j) (omega arith) (omega (arith, v.room))
                ∙ ap r.slots (omega arith)))

    recent-last : (n : ℕ) → r.ptr ≡ 0 → m ≡ suc n → recent (at_slot n) m ≡ drop 1 (recent r (suc m))
    unfolding recent span
    recent-last n e k =
        let none_left : m - 1 - n ≡ 0 = omega arith in
        let all : m - 0 ≡ suc n = omega arith in
        recent-entry (at_slot n) m (omega arith)
        ∙ ap (λ c. span left_over 0 (suc n) ++ span left_over (suc n) c) none_left
        ∙ append-nil (span left_over 0 (suc n))
        ∙ span_equal left_over r.slots 0 1 (suc n) (λ j h.
          left-high (0 + j) (omega arith) (omega (arith, v.room)) ∙ ap r.slots (omega arith))
        ∙ sym
            (ap (λ p. span r.slots 0 p ++ span r.slots (suc p) (m - p)) e ∙ ap (span r.slots 1) all)

    recent-empty : r.ptr ≡ 0 → m ≡ 0 → recent (at_slot 0) m ≡ drop 1 (recent r (suc m))
    unfolding recent span
    recent-empty e k =
        let nothing : m - 0 ≡ 0 = omega arith in
        ap (recent (at_slot 0)) k
        ∙ sym (
            ap (λ p. span r.slots 0 p ++ span r.slots (suc p) (m - p)) e
            ∙ ap (span r.slots 1) nothing)

    at_slot-IsRing : (p : ℕ) → (p < m) ⊎ ((m ≡ 0) × (p ≡ 0)) → IsRing (at_slot p) m
    at_slot-IsRing p h = record {
      in_use = left-in_use;
      free = left-free;
      at_entry = h;
      room = omega (arith, v.room);
    }

    -- What `DelKillRing` has to give.
    abbrev pub Less : Ring A → Type 0
    Less r' = IsRing r' m × (recent r' m ≡ drop 1 (recent r (suc m)))

    less :
        (p : ℕ)
        → settle left_over ((r.ptr + numkills - 1) % numkills) ≡ p
        → Less (at_slot p)
        → Less (del_kill_ring r)
    unfolding del_kill_ring
    less p e h = subst (λ q. Less (at_slot q)) (sym e) h

  -- In a ring whose first `m + 1` slots are in use, `DelKillRing` takes away the most recent entry
  -- and keeps the others in their order. The first `m` slots are then in use, and the pointer is at
  -- one of them, or at 0 if none is left.
  pub del_kill_ring-Less :
      (r : Ring A) (m : ℕ) (v : IsRing r (suc m)) → Less r m v (del_kill_ring r)
  del_kill_ring-Less r m v = go r.ptr m refl refl
    where
      go : (p k : ℕ) → r.ptr ≡ p → m ≡ k → Less r m v (del_kill_ring r)
      go (suc p) k e h =
          less r m v p (ptr-low r m v p e)
            (at_slot-IsRing r m v p (omega (arith, at r m v)), recent-low r m v p e)
      go zero (suc n) e h =
          less r m v n (ptr-last r m v n e h)
            (at_slot-IsRing r m v n (omega arith), recent-last r m v n e h)
      go zero zero e h =
          less r m v 0 (ptr-empty r m v e h)
            (at_slot-IsRing r m v 0 (omega arith), recent-empty r m v e h)
