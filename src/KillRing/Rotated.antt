-- ===== src/KillRing/Rotated.antt =====
-- The rotation of `YankPop` turns the kill ring.
use jove.Base.{
  ℕ, zero, suc, ◌+◌, ◌-◌, ◌%◌, ◌≤◌, ◌<◌, ◌≡◌, refl, sym, ap, ap₂, ◌∙◌, [], ◌∷◌, ◌++◌, some, arith,
  take, drop, inl, append-nil, append_assoc,
}
use native.Mathlib.Decide.{ℕ_discrete}
use jove.KillRing.{Ring, numkills, rotate}
use jove.KillRing.Slots.{span, span-append}
use jove.KillRing.Recent.{IsRing, recent}

module _ {A : Type 0} where
  -- The most recent entry becomes the oldest.
  abbrev pub Turned : Ring A → ℕ → Type 0
  Turned r m =
      (r' : Ring A) × (rotate numkills (numkills - 1) r ≡ some r')
      × IsRing r' m
      × (recent r' m ≡ drop 1 (recent r m) ++ take 1 (recent r m))

  module _ (r : Ring A) (m : ℕ) (v : IsRing r (suc m)) where
    abbrev at_slot : ℕ → Ring A
    at_slot p = record r { ptr = p }

    at_slot-IsRing : (p : ℕ) → p ≤ m → IsRing (at_slot p) (suc m)
    at_slot-IsRing p h = record {
      in_use = v.in_use;
      free = v.free;
      at_entry = inl (omega arith);
      room = v.room;
    }

    -- A round that comes to a slot in use, and one that comes to a free slot.
    round-in_use :
        (n p q : ℕ)
        → (p + (numkills - 1)) % numkills ≡ q
        → q ≤ m
        → rotate (suc n) (numkills - 1) (at_slot p) ≡ some (at_slot q)
    unfolding rotate
    round-in_use n p q e h =
        rw (rotate, ap r.slots e ∙ (v.in_use q (omega arith)).1) (ap (λ k. some (at_slot k)) e)

    round-free :
        (n p q : ℕ)
        → (p + (numkills - 1)) % numkills ≡ q
        → m < q
        → q < numkills
        → rotate (suc n) (numkills - 1) (at_slot p) ≡ rotate n (numkills - 1) (at_slot q)
    unfolding rotate
    round-free n p q e h k =
        rw (rotate, ap r.slots e ∙ v.free q (omega arith) k)
          (ap (λ k. rotate n (numkills - 1) (at_slot k)) e)

    -- Down over the free slots to the last one in use.
    rotate-down :
        (n q : ℕ)
        → m < q
        → q < numkills
        → q ≤ m + n
        → rotate n (numkills - 1) (at_slot q) ≡ some (at_slot m)
    rotate-down zero q h k enough = absurd (omega arith)
    rotate-down (suc n) q h k enough = elim (ℕ_discrete (q - 1) m) [
      | yes e ↦ round-in_use n q m (omega arith) (omega arith)
      | no ne ↦
          round-free n q (q - 1) (omega arith) (omega arith) (omega arith)
          ∙ rotate-down n (q - 1) (omega arith) (omega arith) (omega arith)
    ]

    from_start : r.ptr ≡ 0 → rotate numkills (numkills - 1) r ≡ some (at_slot m)
    from_start e =
        ap (λ p. rotate numkills (numkills - 1) (at_slot p)) e
        ∙ elim (ℕ_discrete m (numkills - 1)) [
          | yes last ↦ round-in_use (numkills - 1) 0 m (omega arith) (omega arith)
          | no ne ↦
              round-free (numkills - 1) 0 (numkills - 1) (omega arith) (omega (arith, v.room))
                (omega arith)
              ∙ rotate-down (numkills - 1) (numkills - 1) (omega (arith, v.room)) (omega arith)
                  (omega arith)
        ]

    recent-down :
        (p : ℕ)
        → r.ptr ≡ suc p
        → recent (at_slot p) (suc m) ≡ drop 1 (recent r (suc m)) ++ take 1 (recent r (suc m))
    unfolding recent span
    recent-down p e =
        let lt : suc p ≤ m = omega (arith, v.at_entry) in
        let n : m - p ≡ 1 + (m - suc p) = omega arith in
        ap (span r.slots 0 (suc p) ++◌) (
          ap (span r.slots (suc p)) n
          ∙ span-append r.slots (suc p) 1 (m - suc p)
          ∙ ap₂ (λ a b. a ++ b) (ap (λ lo. span r.slots lo (m - suc p)) (omega arith))
              (ap (λ k. r.slots k ∷ []) (omega arith)))
        ∙ sym (append_assoc (span r.slots 0 (suc p)) _ _)
        ∙ ap (λ k. (span r.slots 0 k ++ span r.slots (suc k) (m - k)) ++ r.slots (0 + k) ∷ [])
            (sym e)

    recent-start :
        r.ptr ≡ 0
        → recent (at_slot m) (suc m) ≡ drop 1 (recent r (suc m)) ++ take 1 (recent r (suc m))
    unfolding recent span
    recent-start e =
        let none_left : m - m ≡ 0 = omega arith in
        let one_more : suc m ≡ 1 + m = omega arith in
        let all : m ≡ m - 0 = omega arith in
        ap (λ k. span r.slots 0 (suc m) ++ span r.slots (suc m) k) none_left
        ∙ append-nil (span r.slots 0 (suc m))
        ∙ ap (span r.slots 0) one_more
        ∙ span-append r.slots 0 1 m
        ∙ ap (λ k. span r.slots 1 k ++ r.slots 0 ∷ []) all
        ∙ ap (λ k. (span r.slots 0 k ++ span r.slots (suc k) (m - k)) ++ r.slots (0 + k) ∷ [])
            (sym e)

  -- In a ring that is not empty, the loop of `YankPop` that turns to older entries ends within
  -- `NUMKILLS` rounds. The most recent entry then comes after the others, which keep their order.
  pub rotate-Turned : (r : Ring A) (m : ℕ) → IsRing r (suc m) → Turned r (suc m)
  rotate-Turned r m v = go r.ptr refl
    where
      go : (p : ℕ) → r.ptr ≡ p → Turned r (suc m)
      go zero e = (
        at_slot r m v m,
        from_start r m v e,
        at_slot-IsRing r m v m (omega arith),
        recent-start r m v e,
      )
      go (suc p) e = (
        at_slot r m v p,
        round-in_use r m v (numkills - 1) r.ptr p (omega (arith, v.at_entry, v.room))
            (omega (arith, v.at_entry)),
        at_slot-IsRing r m v p (omega (arith, v.at_entry)),
        recent-down r m v p e,
      )
