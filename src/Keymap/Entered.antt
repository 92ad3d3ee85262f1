-- ===== src/Keymap/Entered.antt =====
-- A binding that `km_setkey` (keymaps.c) puts into a sparse map, and the change to a full map.
use jove.Base.{
  ℕ, zero, suc, ◌+◌, ◌-◌, ◌≤◌, ◌<◌, ◌≡◌, ◌≢◌, inl, inr, refl, sym, ◌∙◌, ap, arith, Option, none,
  some, true, false, Bool-cases, ltb, ◌==◌, ==_iff, if◌then◌else◌, le_or_lt,
}
use native.Mathlib.Decide.{ℕ_discrete}
use jove.KillRing.{put_slot, shift_up}
use jove.KillRing.Slots.{put_slot-here, put_slot-other, shift_up-inside, shift_up-outside}
use jove.Keymap.{Binding, Sparse, key_at, value_at, put_in, spread}
use jove.Keymap.Search.{Rising, IsValid}
use jove.Keymap.Scan.{scan, scan-absent, scan-present, places}
use jove.Keymap.Moved.{
  skip, unskip, unskip-skip, unskip-lt, skip-ne, key_at-equal, SameAt, scan-same,
}

module _ {A : Type 0} where
  module _ (s : Sparse A) (v : IsValid s) (i key : ℕ) (x : A) (h : i ≤ s.nused) where
    in_here : (put_in s i key x).bindings i ≡ some (record { key = key; value = x })
    unfolding put_in
    in_here =
        put_slot-here (shift_up (s.nused - i) s.nused s.bindings) i i
          (some (record { key = key; value = x })) refl

    in_from :
        (j : ℕ) → j ≢ i → j ≤ s.nused → (put_in s i key x).bindings j ≡ s.bindings (unskip i j)
    unfolding put_in
    in_from j ne le =
        put_slot-other (shift_up (s.nused - i) s.nused s.bindings) i j
          (some (record { key = key; value = x })) ne
        ∙ elim (Bool-cases (ltb j i)) [
          | inl before ↦ rw (before) (
              shift_up-outside (s.nused - i) s.nused s.bindings j (omega arith)
                (inl (ground arith)))
          | inr after ↦
              rw (after)
                (shift_up-inside (s.nused - i) s.nused s.bindings j (omega arith) (ground arith) le)
        ]

    abbrev entered : ℕ → Option (Binding A)
    entered = (put_in s i key x).bindings

    entered-key : entered i ≡ some (record { key = key; value = x }) → key_at entered i ≡ key
    unfolding key_at
    entered-key e = ap (λ b. elim b as (λ _. ℕ) [ none ↦ 0 | some b ↦ b.key ]) e

    entered-value : entered i ≡ some (record { key = key; value = x }) → value_at entered i ≡ some x
    unfolding value_at
    entered-value e = ap (λ b. elim b as (λ _. Option A) [ none ↦ none | some b ↦ some b.value ]) e

    other-key : (j : ℕ) → j ≢ i → j ≤ s.nused → key_at entered j ≡ key_at s.bindings (unskip i j)
    other-key j ne le = key_at-equal entered s.bindings j (unskip i j) (in_from j ne le)

    module _ (lo : (j : ℕ) → j < i → key_at s.bindings j < key)
        (hi : (j : ℕ) → i ≤ j → j < s.nused → key < key_at s.bindings j) where
      entered-Rising : Rising entered (s.nused + 1)
      entered-Rising a b lt le = elim (ℕ_discrete a i) [
        | yes e ↦
            let there : key_at entered a ≡ key = ap (key_at entered) e ∙ entered-key in_here in
            let down : unskip i b ≡ b - 1 = ground arith in
            omega (
              arith,
              there,
              other-key b (omega arith) (omega arith),
              ap (key_at s.bindings) down,
              hi (b - 1) (omega arith) (omega arith),
            )
        | no ne ↦ elim (ℕ_discrete b i) [
          | yes e ↦
              let there : key_at entered b ≡ key = ap (key_at entered) e ∙ entered-key in_here in
              let same : unskip i a ≡ a = ground arith in
              omega (
                arith,
                there,
                other-key a ne (omega arith),
                ap (key_at s.bindings) same,
                lo a (omega arith),
              )
          | no ne' ↦ omega (
            arith,
            other-key a ne (omega arith),
            other-key b ne' (omega arith),
            v.rising (unskip i a) (unskip i b) (unskip-lt i a b ne ne' lt) (ground arith),
          )
        ]
      ]

      not_there : (j : ℕ) → j < s.nused → key_at s.bindings j ≢ key
      not_there j lt e = elim (le_or_lt i j) [
        | inl le ↦ omega (arith, hi j le lt)
        | inr before ↦ omega (arith, lo j before)
      ]

      entered-SameAt : (k : ℕ) → k ≢ key → SameAt s.bindings entered s.nused (s.nused + 1) k
      entered-SameAt k ne = record {
        forth = λ a lt e. (
          skip i a,
          ground arith,
          in_from (skip i a) (skip-ne i a) (ground arith) ∙ ap s.bindings (unskip-skip i a),
        );
        back = λ j lt e.
            let other : j ≢ i =
              λ same. ne (sym e ∙ ap (key_at entered) same ∙ entered-key in_here) in
            (unskip i j, ground arith, in_from j other (omega arith));
      }

      pub scan-put_in :
          (k : ℕ)
          → scan entered (s.nused + 1) k ≡ (if k == key then some x else scan s.bindings s.nused k)
      scan-put_in k = elim (ℕ_discrete k key) [
        | yes e ↦
            let same : (k == key) ≡ true = (==_iff k key).1 e in
            rw (same) (
              scan-present entered k (s.nused + 1) i entered-Rising (omega arith)
                (entered-key in_here ∙ sym e)
              ∙ entered-value in_here)
        | no ne ↦
            let other : (k == key) ≡ false = ground arith in
            rw (other) (
              scan-same s.bindings entered s.nused (s.nused + 1) k v.rising entered-Rising
                (entered-SameAt k ne))
      ]

      -- With room for it the map stays valid.
      pub put_in-IsValid : s.nused < s.nalloc → IsValid (put_in s i key x)
      unfolding put_in
      put_in-IsValid room = record {
        in_use = λ j lt. elim (ℕ_discrete j i) [
          | yes e ↦ (record { key = key; value = x }, ap entered e ∙ in_here)
          | no ne ↦
              let (b, e) = v.in_use (unskip i j) (ground arith) in
              (b, in_from j ne (omega arith) ∙ e)
        ];
        rising = entered-Rising;
        room = omega arith;
      }

  -- The full map that is made of some bindings has them.
  spread-absent :
      (n : ℕ) (f : ℕ → Option (Binding A)) (map : ℕ → Option A) (k : ℕ)
      → ((i : ℕ) → i < n → key_at f i ≢ k)
      → spread n f map k ≡ map k
  unfolding spread
  spread-absent zero f map k h = refl
  spread-absent (suc n) f map k h =
      spread-absent n f (put_slot map (key_at f n) (value_at f n)) k (λ i lt. h i (omega arith))
      ∙ put_slot-other map (key_at f n) k (value_at f n) (λ e. h n (omega arith) (sym e))

  spread-present :
      (n : ℕ) (f : ℕ → Option (Binding A)) (map : ℕ → Option A) (k i : ℕ)
      → Rising f n
      → i < n
      → key_at f i ≡ k
      → spread n f map k ≡ value_at f i
  unfolding spread
  spread-present zero f map k i up lt e = absurd (omega arith)
  spread-present (suc n) f map k i up lt e = elim (ℕ_discrete i n) [
    | yes last ↦
        let there : key_at f n ≡ k = ap (key_at f) (sym last) ∙ e in
        spread-absent n f (put_slot map (key_at f n) (value_at f n)) k
          (λ j lt' e'. omega (arith, up j n lt' (omega arith), there, e'))
        ∙ put_slot-here map (key_at f n) k (value_at f n) (sym there)
        ∙ ap (value_at f) (sym last)
    | no ne ↦
        spread-present n f (put_slot map (key_at f n) (value_at f n)) k i
          (λ a b lt le. up a b lt (omega arith)) (omega arith) e
  ]

  pub spread-scan :
      (n : ℕ) (f : ℕ → Option (Binding A)) (k : ℕ)
      → Rising f n
      → spread n f (λ k. none) k ≡ scan f n k
  spread-scan n f k up = elim (places f k n) [
    | inl (i, lt, e) ↦
        spread-present n f (λ k. none) k i up lt e ∙ sym (scan-present f k n i up lt e)
    | inr all ↦ spread-absent n f (λ k. none) k all ∙ sym (scan-absent f k n all)
  ]
