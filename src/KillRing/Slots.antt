-- ===== src/KillRing/Slots.antt =====
-- Moving the slots of the kill ring up and down.
use jove.Base.{
  ℕ, zero, suc, ◌+◌, ◌-◌, ◌≤◌, ◌<◌, ◌≡◌, ◌≢◌, refl, ap, ap₂, ◌∙◌, List, [], ◌∷◌, ◌++◌, Option,
  arith, length, ◌⊎◌, sym,
}
use native.Mathlib.Decide.{ℕ_discrete}
use jove.KillRing.{put_slot, shift_up, shift_down}

module _ {A : Type 0} where
  pub put_slot-here : (f : ℕ → Option A) (i j : ℕ) (x : Option A) → j ≡ i → put_slot f i x j ≡ x
  put_slot-here f i j x e = ground arith

  pub put_slot-other : (f : ℕ → Option A) (i j : ℕ) (x : Option A) → j ≢ i → put_slot f i x j ≡ f j
  put_slot-other f i j x e = ground arith

  pub shift_up-outside :
      (n i : ℕ) (f : ℕ → Option A) (j : ℕ) → n ≤ i → j + n ≤ i ⊎ i < j → shift_up n i f j ≡ f j
  unfolding shift_up
  shift_up-outside zero i f j h o = refl
  shift_up-outside (suc n) i f j h o =
      shift_up-outside n (i - 1) _ j (omega arith) (omega arith)
      ∙ put_slot-other f i j (f (i - 1)) (omega arith)

  pub shift_up-inside :
      (n i : ℕ) (f : ℕ → Option A) (j : ℕ)
      → n ≤ i
      → i < j + n
      → j ≤ i
      → shift_up n i f j ≡ f (j - 1)
  unfolding shift_up
  shift_up-inside zero i f j h lo hi = absurd (omega arith)
  shift_up-inside (suc n) i f j h lo hi = elim (ℕ_discrete j i) [
    | yes e ↦
        shift_up-outside n (i - 1) _ j (omega arith) (omega arith)
        ∙ put_slot-here f i j (f (i - 1)) e
        ∙ ap (λ k. f (k - 1)) (sym e)
    | no ne ↦
        shift_up-inside n (i - 1) _ j (omega arith) (omega arith) (omega arith)
        ∙ put_slot-other f i (j - 1) (f (i - 1)) (omega arith)
  ]

  pub shift_down-outside :
      (n i : ℕ) (f : ℕ → Option A) (j : ℕ) → j < i ⊎ i + n ≤ j → shift_down n i f j ≡ f j
  unfolding shift_down
  shift_down-outside zero i f j o = refl
  shift_down-outside (suc n) i f j o =
      shift_down-outside n (suc i) _ j (omega arith)
      ∙ put_slot-other f i j (f (suc i)) (omega arith)

  pub shift_down-inside :
      (n i : ℕ) (f : ℕ → Option A) (j : ℕ) → i ≤ j → j < i + n → shift_down n i f j ≡ f (suc j)
  unfolding shift_down
  shift_down-inside zero i f j lo hi = absurd (omega arith)
  shift_down-inside (suc n) i f j lo hi = elim (ℕ_discrete j i) [
    | yes e ↦
        shift_down-outside n (suc i) _ j (omega arith)
        ∙ put_slot-here f i j (f (suc i)) e
        ∙ ap (λ k. f (suc k)) (sym e)
    | no ne ↦
        shift_down-inside n (suc i) _ j (omega arith) (omega arith)
        ∙ put_slot-other f i (suc j) (f (suc i)) (omega arith)
  ]

  -- The `n` slots from `lo` on, the last one first.
  unfoldable pub span : (ℕ → Option A) → ℕ → ℕ → List (Option A)
  span f lo zero = []
  span f lo (suc n) = f (lo + n) ∷ span f lo n

  pub length-span : (f : ℕ → Option A) (lo n : ℕ) → length (span f lo n) ≡ n
  unfolding span
  length-span f lo zero = refl
  length-span f lo (suc n) = ap suc (length-span f lo n)

  pub span_equal :
      (f g : ℕ → Option A) (lo lo' n : ℕ)
      → ((j : ℕ) → j < n → f (lo + j) ≡ g (lo' + j))
      → span f lo n ≡ span g lo' n
  unfolding span
  span_equal f g lo lo' zero h = refl
  span_equal f g lo lo' (suc n) h =
      ap₂ ◌∷◌ (h n (omega arith)) (span_equal f g lo lo' n (λ j k. h j (omega arith)))

  pub span-append :
      (f : ℕ → Option A) (lo n m : ℕ) → span f lo (n + m) ≡ span f (lo + n) m ++ span f lo n
  unfolding span
  span-append f lo n zero = ap (span f lo) (omega arith)
  span-append f lo n (suc m) =
      let e : n + suc m ≡ suc (n + m) = omega arith in
      rw e (ap₂ ◌∷◌ (ap f (omega arith)) (span-append f lo n m))
