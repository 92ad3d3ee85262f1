-- ===== src/KillRing/Added.antt =====
-- `AddKillRing` puts an entry before the others.
use jove.Base.{
  ℕ, zero, suc, ◌+◌, ◌-◌, ◌%◌, ◌<◌, ◌≡◌, refl, sym, subst, ap, ◌∙◌, ◌∷◌, Option, some, arith, take,
  min, inl, inr, le_or_lt, take-length,
}
use native.Mathlib.Decide.{ℕ_discrete}
use jove.KillRing.{Ring, numkills, put_slot, shift_up, add_kill_ring}
use jove.KillRing.Slots.{put_slot-here, put_slot-other, span}
use jove.KillRing.Pushed
use jove.KillRing.Recent.{IsRing, recent, length-recent}

several : 1 < numkills
several = omega arith

module _ {A : Type 0} where
  abbrev InUse : (ℕ → Option A) → ℕ → Type 0
  InUse f j = (t : A) × (f j ≡ some t)

  InUse-equal : (f g : ℕ → Option A) (j k : ℕ) → f j ≡ g k → InUse g k → InUse f j
  InUse-equal f g j k e (t, h) = (t, e ∙ h)

  -- What `AddKillRing` has to give.
  abbrev pub Added : A → Ring A → ℕ → Type 0
  Added text r m =
      IsRing (add_kill_ring text r) (min (suc m) numkills)
      × (recent (add_kill_ring text r) (min (suc m) numkills)
          ≡ take numkills (some text ∷ recent r m))

  module _ (text : A) (r : Ring A) where
    abbrev spaced : Ring A
    spaced = Pushed.spaced numkills several text r

    abbrev replaced : ℕ → Ring A
    replaced = Pushed.replaced numkills several text r

    next_slot : r.ptr < numkills - 1 → (r.ptr + 1) % numkills ≡ suc r.ptr
    next_slot h = omega arith

    add-spaced : (m : ℕ) → IsRing r (suc m) → suc m < numkills → add_kill_ring text r ≡ spaced
    unfolding add_kill_ring
    add-spaced m v h =
        let lt : r.ptr < suc m = omega (arith, v.at_entry) in
        rw
          (
            add_kill_ring,
            (v.in_use r.ptr lt).1,
            v.free (numkills - 1) (omega arith) (omega arith),
            next_slot (omega arith),
          )
          refl

    add-replaced : IsRing r numkills → add_kill_ring text r ≡ replaced ((r.ptr + 1) % numkills)
    unfolding add_kill_ring
    add-replaced v =
        let lt : r.ptr < numkills = omega (arith, v.at_entry) in
        rw (add_kill_ring, (v.in_use r.ptr lt).1, (v.in_use (numkills - 1) (omega arith)).1) refl

    add-first :
        IsRing r 0
        → add_kill_ring text r ≡ record { slots = put_slot r.slots 0 (some text); ptr = 0 }
    unfolding add_kill_ring
    add-first v =
        let e : r.ptr ≡ 0 = omega (arith, v.at_entry) in
        rw (add_kill_ring, ap r.slots e ∙ v.free 0 (omega arith) (omega arith))
          (ap (λ p. record { slots = put_slot r.slots p (some text); ptr = p }) e)

    spaced-InUse :
        (m : ℕ)
        → IsRing r (suc m)
        → suc m < numkills
        → (j : ℕ) → j < suc (suc m)
        → InUse spaced.slots j
    spaced-InUse m v h j lt = elim (ℕ_discrete j (suc r.ptr)) [
      | yes e ↦ (
        text,
        put_slot-here (shift_up (numkills - 1 - suc r.ptr) (numkills - 1) r.slots) (suc r.ptr) j
            (some text) e,
      )
      | no ne ↦ elim (le_or_lt j r.ptr) [
        | inl low ↦
            InUse-equal spaced.slots r.slots j j
              (Pushed.spaced-low numkills several text r j low (omega (arith, v.at_entry)))
              (v.in_use j (omega (arith, v.at_entry)))
        | inr high ↦
            InUse-equal spaced.slots r.slots j (j - 1)
              (Pushed.spaced-high numkills several text r j (omega arith) (omega arith))
              (v.in_use (j - 1) (omega arith))
      ]
    ]

    spaced-IsRing : (m : ℕ) → IsRing r (suc m) → suc m < numkills → IsRing spaced (suc (suc m))
    spaced-IsRing m v h = record {
      in_use = spaced-InUse m v h;
      free = λ j ge lt.
          Pushed.spaced-high numkills several text r j (omega (arith, v.at_entry)) lt
          ∙ v.free (j - 1) (omega arith) (omega arith);
      at_entry = inl (omega (arith, v.at_entry));
      room = omega arith;
    }

    replaced-IsRing :
        (next : ℕ) → next < numkills → IsRing r numkills → IsRing (replaced next) numkills
    replaced-IsRing next h v = record {
      in_use = λ j lt. elim (ℕ_discrete j next) [
        | yes e ↦ (text, put_slot-here r.slots next j (some text) e)
        | no ne ↦
            InUse-equal (replaced next).slots r.slots j j
              (put_slot-other r.slots next j (some text) ne) (v.in_use j lt)
      ];
      free = λ j ge lt. absurd (omega arith);
      at_entry = inl h;
      room = omega arith;
    }

    Added-from :
        (m m' : ℕ) (r' : Ring A)
        → add_kill_ring text r ≡ r'
        → min (suc m) numkills ≡ m'
        → IsRing r' m'
        → recent r' m' ≡ take numkills (some text ∷ recent r m)
        → Added text r m
    Added-from m m' r' e em v h = rw (e, em) (v, h)

    Added-first : IsRing r 0 → Added text r 0
    unfolding recent span
    Added-first v =
        Added-from 0 1 (record { slots = put_slot r.slots 0 (some text); ptr = 0 }) (add-first v)
          (omega arith)
          (record {
            in_use = λ j lt. (text, put_slot-here r.slots 0 j (some text) (omega arith));
            free = λ j ge lt.
                put_slot-other r.slots 0 j (some text) (omega arith) ∙ v.free j (omega arith) lt;
            at_entry = inl (omega arith);
            room = omega arith;
          })
          refl

    Added-spaced : (m : ℕ) → IsRing r (suc m) → suc m < numkills → Added text r (suc m)
    Added-spaced m v h =
        Added-from (suc m) (suc (suc m)) spaced (add-spaced m v h) (omega arith)
          (spaced-IsRing m v h)
          (Pushed.spaced-recent numkills several text r m (omega (arith, v.at_entry)) h
            ∙ sym (
                take-length (some text ∷ recent r (suc m)) numkills
                  (omega (arith, length-recent r (suc m) (omega (arith, v.at_entry))))))

    Added-full : IsRing r numkills → Added text r numkills
    Added-full v =
        Added-from numkills numkills (replaced ((r.ptr + 1) % numkills)) (add-replaced v) refl
          (replaced-IsRing ((r.ptr + 1) % numkills) (omega arith) v)
          (Pushed.full-recent numkills several text r ((r.ptr + 1) % numkills)
            (omega (arith, v.at_entry)) (λ h. omega arith) (λ e. omega arith))

  -- In a ring whose first `m` slots are in use, `AddKillRing` puts the new entry before the others,
  -- the most recent first, and where all slots are in use it drops the oldest. The slots in use
  -- are again the first ones, and the pointer is at one of them.
  pub add_kill_ring-Added : (text : A) (r : Ring A) (m : ℕ) → IsRing r m → Added text r m
  add_kill_ring-Added text r zero v = Added-first text r v
  add_kill_ring-Added text r (suc m) v = elim (ℕ_discrete (suc m) numkills) [
    | yes e ↦ subst (λ k. Added text r k) (sym e) (Added-full text r (subst (IsRing r) e v))
    | no ne ↦ Added-spaced text r m v (omega (arith, v.room))
  ]
