-- ===== src/KillRing/Pushed.antt =====
-- An entry pushed to a ring of slots: the kill ring (delete.c: `AddKillRing`), and the ring of marks
-- (marks.c: `do_set_mark`).
use jove.Base.{
  ℕ, suc, ◌+◌, ◌-◌, ◌≤◌, ◌<◌, ◌≡◌, ◌≢◌, sym, ap, ap₂, ◌∙◌, List, [], ◌∷◌, ◌++◌, Option, some, arith,
  length, take, take-append, append-nil, length-append, append_assoc,
}
use native.Mathlib.Decide.{ℕ_discrete}
use jove.KillRing.{Ring, put_slot, shift_up}
use jove.KillRing.Slots.{
  put_slot-here, put_slot-other, shift_up-inside, shift_up-outside, span, length-span, span_equal,
  span-append,
}
use jove.KillRing.Recent.{recent, recent-entry}

module _ {A : Type 0} (size : ℕ) (several : 1 < size) where
  module _ (text : A) (r : Ring A) where
    -- There is a free slot: the entries above the pointer are moved up.
    abbrev pub spaced : Ring A
    spaced = record {
      slots = put_slot (shift_up (size - 1 - suc r.ptr) (size - 1) r.slots) (suc r.ptr) (some text);
      ptr = suc r.ptr;
    }

    pub spaced-low : (j : ℕ) → j ≤ r.ptr → r.ptr < size - 1 → spaced.slots j ≡ r.slots j
    spaced-low j h k =
        put_slot-other (shift_up (size - 1 - suc r.ptr) (size - 1) r.slots) (suc r.ptr) j
          (some text) (omega arith)
        ∙ shift_up-outside (size - 1 - suc r.ptr) (size - 1) r.slots j (omega arith) (omega arith)

    pub spaced-high : (j : ℕ) → suc r.ptr < j → j < size → spaced.slots j ≡ r.slots (j - 1)
    spaced-high j h k =
        put_slot-other (shift_up (size - 1 - suc r.ptr) (size - 1) r.slots) (suc r.ptr) j
          (some text) (omega arith)
        ∙ shift_up-inside (size - 1 - suc r.ptr) (size - 1) r.slots j (omega arith) (omega arith)
            (omega arith)

    -- With no slot free the oldest entry gives way.
    abbrev pub replaced : ℕ → Ring A
    replaced next = record { slots = put_slot r.slots next (some text); ptr = next }

    pub spaced-recent :
        (m : ℕ)
        → r.ptr < suc m
        → suc m < size
        → recent spaced (suc (suc m)) ≡ some text ∷ recent r (suc m)
    unfolding recent span
    spaced-recent m lt h =
        let e : suc m - suc r.ptr ≡ m - r.ptr = omega arith in
        ap₂ (λ a b. a ++ b)
          (ap₂ ◌∷◌
            (put_slot-here (shift_up (size - 1 - suc r.ptr) (size - 1) r.slots) (suc r.ptr)
              (0 + suc r.ptr) (some text) (omega arith))
            (span_equal spaced.slots r.slots 0 0 (suc r.ptr)
              (λ j k. spaced-low (0 + j) (omega arith) (omega arith))))
          (ap (span spaced.slots (suc (suc r.ptr))) e
            ∙ span_equal spaced.slots r.slots (suc (suc r.ptr)) (suc r.ptr) (m - r.ptr) (λ j k.
              spaced-high (suc (suc r.ptr) + j) (omega arith) (omega arith)
              ∙ ap r.slots (omega arith)))

    pub replaced-other : (next j : ℕ) → j ≢ next → (replaced next).slots j ≡ r.slots j
    replaced-other next j ne = put_slot-other r.slots next j (some text) ne

    split_count : r.ptr < size - 1 → size - 1 - r.ptr ≡ 1 + (size - 2 - r.ptr)
    split_count h = omega arith

    -- The oldest entry stands above the pointer, or at 0 where the pointer is at the end.
    oldest-above :
        r.ptr < size - 1
        → recent r size
          ≡ (span r.slots 0 (suc r.ptr) ++ span r.slots (suc (suc r.ptr)) (size - 2 - r.ptr))
            ++ r.slots (suc r.ptr) ∷ []
    unfolding recent span
    oldest-above h =
        recent-entry r size (omega arith)
        ∙ ap (span r.slots 0 (suc r.ptr) ++◌) (
            ap (span r.slots (suc r.ptr)) (split_count h)
            ∙ span-append r.slots (suc r.ptr) 1 (size - 2 - r.ptr)
            ∙ ap₂ (λ a b. a ++ b) (ap (λ lo. span r.slots lo (size - 2 - r.ptr)) (omega arith))
                (ap (λ k. r.slots k ∷ []) (omega arith)))
        ∙ sym (append_assoc (span r.slots 0 (suc r.ptr)) _ _)

    oldest-first : r.ptr ≡ size - 1 → recent r size ≡ span r.slots 1 (size - 1) ++ r.slots 0 ∷ []
    unfolding recent span
    oldest-first e =
        let above : size - 1 - r.ptr ≡ 0 = omega arith in
        recent-entry r size (omega arith)
        ∙ ap₂ (λ p q. span r.slots 0 (suc p) ++ span r.slots (suc r.ptr) q) e above
        ∙ append-nil (span r.slots 0 (suc (size - 1)))
        ∙ ap (span r.slots 0) {x = suc (size - 1)} (omega arith)
        ∙ span-append r.slots 0 1 (size - 1)

    replaced-above :
        r.ptr < size - 1
        → recent (replaced (suc r.ptr)) size
          ≡ some text
            ∷ (span r.slots 0 (suc r.ptr) ++ span r.slots (suc (suc r.ptr)) (size - 2 - r.ptr))
    unfolding recent span
    replaced-above h =
        let e : size - 1 - suc r.ptr ≡ size - 2 - r.ptr = omega arith in
        recent-entry (replaced (suc r.ptr)) size (omega arith)
        ∙ ap₂ (λ a b. a ++ b)
            (ap₂ ◌∷◌ (put_slot-here r.slots (suc r.ptr) (0 + suc r.ptr) (some text) (omega arith)) (
              span_equal (replaced (suc r.ptr)).slots r.slots 0 0 (suc r.ptr)
                (λ j k. replaced-other (suc r.ptr) (0 + j) (omega arith))))
            (ap (span (replaced (suc r.ptr)).slots (suc (suc r.ptr))) e
              ∙ span_equal (replaced (suc r.ptr)).slots r.slots (suc (suc r.ptr)) (suc (suc r.ptr))
                  (size - 2 - r.ptr)
                  (λ j k. replaced-other (suc r.ptr) (suc (suc r.ptr) + j) (omega arith)))

    replaced-first : recent (replaced 0) size ≡ some text ∷ span r.slots 1 (size - 1)
    unfolding recent span
    replaced-first =
        recent-entry (replaced 0) size (omega arith)
        ∙ ap₂ (λ a b. a ++ b)
            (ap (λ o. o ∷ []) (put_slot-here r.slots 0 (0 + 0) (some text) (omega arith)))
            (ap (span (replaced 0).slots 1) {x = size - 1 - 0} (omega arith)
              ∙ span_equal (replaced 0).slots r.slots 1 1 (size - 1)
                  (λ j k. replaced-other 0 (1 + j) (omega arith)))

    keep_all_but :
        (xs : List (Option A)) (o : Option A)
        → length xs ≡ size - 1
        → take size (some text ∷ (xs ++ o ∷ [])) ≡ some text ∷ xs
    keep_all_but xs o h = take-append (some text ∷ xs) (o ∷ []) size (omega arith)

    -- `next` is the slot behind the pointer, or the first one behind the last.
    pub full-recent :
        (next : ℕ)
        → r.ptr < size
        → (r.ptr < size - 1 → next ≡ suc r.ptr)
        → (r.ptr ≡ size - 1 → next ≡ 0)
        → recent (replaced next) size ≡ take size (some text ∷ recent r size)
    full-recent next lt further first = elim (ℕ_discrete r.ptr (size - 1)) [
      | yes e ↦
          ap (λ p. recent (replaced p) size) (first e)
          ∙ replaced-first
          ∙ sym (
              ap (λ l. take size (some text ∷ l)) (oldest-first e)
              ∙ keep_all_but (span r.slots 1 (size - 1)) (r.slots 0)
                  (length-span r.slots 1 (size - 1)))
      | no ne ↦
          let h : r.ptr < size - 1 = omega arith in
          ap (λ p. recent (replaced p) size) (further h)
          ∙ replaced-above h
          ∙ sym (
              ap (λ l. take size (some text ∷ l)) (oldest-above h)
              ∙ keep_all_but _ (r.slots (suc r.ptr)) (
                  omega (
                    arith,
                    length-append (span r.slots 0 (suc r.ptr))
                        (span r.slots (suc (suc r.ptr)) (size - 2 - r.ptr)),
                    length-span r.slots 0 (suc r.ptr),
                    length-span r.slots (suc (suc r.ptr)) (size - 2 - r.ptr),
                  )))
    ]
