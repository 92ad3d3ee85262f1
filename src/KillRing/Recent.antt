-- ===== src/KillRing/Recent.antt =====
-- The kill ring as the list of its entries, the most recent one first.
use jove.Base.{
  ℕ, zero, suc, ◌-◌, ◌≤◌, ◌<◌, ◌≡◌, sym, ap, List, [], ◌++◌, Option, none, some, arith, length, ◌⊎◌,
  length-append,
}
use jove.KillRing.{Ring, numkills}
use jove.KillRing.Slots.{span, length-span}

module _ {A : Type 0} where
  -- The first `m` slots are in use, and the pointer is at one of them, or at 0 in an empty ring.
  pub record IsRing (r : Ring A) (m : ℕ) : Type 0 where
    pub in_use : (j : ℕ) → j < m → (t : A) × (r.slots j ≡ some t)
    pub free : (j : ℕ) → m ≤ j → j < numkills → r.slots j ≡ none
    pub at_entry : (r.ptr < m) ⊎ ((m ≡ 0) × (r.ptr ≡ 0))
    pub room : m ≤ numkills

  -- From `killptr` down to 0, then from the last slot in use down to above `killptr`.
  unfoldable pub recent : Ring A → ℕ → List (Option A)
  unfolding span
  recent r zero = []
  recent r (suc m) = span r.slots 0 (suc r.ptr) ++ span r.slots (suc r.ptr) (m - r.ptr)

  pub length-recent : (r : Ring A) (m : ℕ) → r.ptr < m → length (recent r m) ≡ m
  unfolding recent
  length-recent r zero h = absurd (omega arith)
  length-recent r (suc m) h = omega (
    arith,
    length-append (span r.slots 0 (suc r.ptr)) (span r.slots (suc r.ptr) (m - r.ptr)),
    length-span r.slots 0 (suc r.ptr),
    length-span r.slots (suc r.ptr) (m - r.ptr),
  )

  pub recent-entry :
      (r : Ring A) (m : ℕ)
      → 0 < m
      → recent r m ≡ span r.slots 0 (suc r.ptr) ++ span r.slots (suc r.ptr) (m - 1 - r.ptr)
  unfolding recent
  recent-entry r zero h = absurd (omega arith)
  recent-entry r (suc m) h =
      let e : suc m - 1 ≡ m = omega arith in
      ap (λ k. span r.slots 0 (suc r.ptr) ++ span r.slots (suc r.ptr) (k - r.ptr)) (sym e)
