-- ===== src/Keymap/Moved.antt =====
-- The arrays that `km_setkey` (keymaps.c) makes of the bindings of a sparse map.
use jove.Base.{
  ℕ, suc, ◌-◌, ◌<◌, ◌≡◌, ◌≢◌, inl, inr, refl, sym, ◌∙◌, ap, arith, Option, none, some, true, false,
  Bool-cases, ltb, ltb→lt, ltb_false→le, ◌==◌, ==_iff, if◌then◌else◌, le_or_lt,
}
use native.Mathlib.Decide.{ℕ_discrete}
use jove.KillRing.Slots.{put_slot-here, put_slot-other, shift_down-inside, shift_down-outside}
use jove.Keymap.{Binding, Sparse, key_at, value_at, take_out, change}
use jove.Keymap.Search.{Rising, IsValid}
use jove.Keymap.Scan.{scan, scan-absent, scan-present, places}

-- The places other than `i`, in their order.
abbrev pub skip : ℕ → ℕ → ℕ
skip i j = if ltb j i then j else suc j

abbrev pub unskip : ℕ → ℕ → ℕ
unskip i j = if ltb j i then j else j - 1

pub skip-lt : (i a b : ℕ) → a < b → skip i a < skip i b
skip-lt i a b h = ground arith

pub skip-bound : (i j n : ℕ) → j < n - 1 → skip i j < n
skip-bound i j n h = ground arith

pub skip-ne : (i j : ℕ) → skip i j ≢ i
skip-ne i j e = ground arith

pub skip-unskip : (i j : ℕ) → j ≢ i → skip i (unskip i j) ≡ j
skip-unskip i j ne = ground arith

pub unskip-skip : (i j : ℕ) → unskip i (skip i j) ≡ j
unskip-skip i j = ground arith

pub unskip-lt : (i a b : ℕ) → a ≢ i → b ≢ i → a < b → unskip i a < unskip i b
unskip-lt i a b na nb h = ground arith

module _ {A : Type 0} where
  pub key_at-equal : (f g : ℕ → Option (Binding A)) (i j : ℕ) → f i ≡ g j → key_at f i ≡ key_at g j
  unfolding key_at
  key_at-equal f g i j e = ground (arith, e)

  pub value_at-equal :
      (f g : ℕ → Option (Binding A)) (i j : ℕ) → f i ≡ g j → value_at f i ≡ value_at g j
  unfolding value_at
  value_at-equal f g i j e = ground (arith, e)

  pub Rising-injective :
      (f : ℕ → Option (Binding A)) (n : ℕ)
      → Rising f n
      → (a b : ℕ) → a < n
      → b < n
      → key_at f a ≡ key_at f b
      → a ≡ b
  Rising-injective f n up a b ha hb e = elim (ℕ_discrete a b) [
    | yes same ↦ same
    | no ne ↦ elim (le_or_lt a b) [
      | inl le ↦ absurd (omega (arith, up a b (omega arith) hb))
      | inr lt ↦ absurd (omega (arith, up b a lt ha))
    ]
  ]

  -- Two arrays with the same bindings of a key.
  pub record SameAt (f g : ℕ → Option (Binding A)) (n m key : ℕ) : Type 0 where
    pub forth : (i : ℕ) → i < n → key_at f i ≡ key → (j : ℕ) × (j < m) × (g j ≡ f i)
    pub back : (j : ℕ) → j < m → key_at g j ≡ key → (i : ℕ) × (i < n) × (g j ≡ f i)

  pub scan-same :
      (f g : ℕ → Option (Binding A)) (n m key : ℕ)
      → Rising f n
      → Rising g m
      → SameAt f g n m key
      → scan g m key ≡ scan f n key
  scan-same f g n m key up up' v = elim (places f key n) [
    | inl (i, h, e) ↦
        let (j, h', same) = v.forth i h e in
        scan-present g key m j up' h' (key_at-equal g f j i same ∙ e)
        ∙ value_at-equal g f j i same
        ∙ sym (scan-present f key n i up h e)
    | inr all ↦
        scan-absent g key m (λ j h e.
          let (i, h', same) = v.back j h e in all i h' (sym (key_at-equal g f j i same) ∙ e))
        ∙ sym (scan-absent f key n all)
  ]

  module _ (s : Sparse A) (v : IsValid s) (i : ℕ) where
    out_from :
        (j : ℕ) → i < s.nused → j < s.nused - 1 → (take_out s i).bindings j ≡ s.bindings (skip i j)
    unfolding take_out
    out_from j h lt = elim (Bool-cases (ltb j i)) [
      | inl before ↦
          rw (before)
            (shift_down-outside (s.nused - 1 - i) i s.bindings j (inl (ltb→lt j i before)))
      | inr after ↦ rw (after) (
          shift_down-inside (s.nused - 1 - i) i s.bindings j (ltb_false→le j i after)
            (ground arith))
    ]

    module _ (h : i < s.nused) where
      take_out-key :
          (j : ℕ)
          → j < s.nused - 1
          → key_at (take_out s i).bindings j ≡ key_at s.bindings (skip i j)
      take_out-key j lt =
          key_at-equal (take_out s i).bindings s.bindings j (skip i j) (out_from j h lt)

      pub take_out-IsValid : IsValid (take_out s i)
      unfolding take_out
      take_out-IsValid = record {
        in_use = λ j lt.
            let (b, e) = v.in_use (skip i j) (skip-bound i j s.nused lt) in
            (b, out_from j h lt ∙ e);
        rising = λ a b lt le. omega (
          arith,
          take_out-key a (omega arith),
          take_out-key b le,
          v.rising (skip i a) (skip i b) (skip-lt i a b lt) (skip-bound i b s.nused le),
        );
        room = omega (arith, v.room);
      }

      take_out-SameAt :
          (k : ℕ)
          → k ≢ key_at s.bindings i
          → SameAt s.bindings (take_out s i).bindings s.nused (s.nused - 1) k
      take_out-SameAt k ne = record {
        forth = λ a lt e.
            let other : a ≢ i = λ same. ne (sym e ∙ ap (key_at s.bindings) same) in
            (
              unskip i a,
              ground arith,
              out_from (unskip i a) h (ground arith) ∙ ap s.bindings (skip-unskip i a other),
            );
        back = λ j lt e. (skip i j, skip-bound i j s.nused lt, out_from j h lt);
      }

      -- Without a binding the other keys have what they had.
      pub scan-take_out :
          (k : ℕ)
          → scan (take_out s i).bindings (s.nused - 1) k
            ≡ (if k == key_at s.bindings i then none else scan s.bindings s.nused k)
      unfolding take_out
      scan-take_out k = elim (ℕ_discrete k (key_at s.bindings i)) [
        | yes e ↦
            let same : (k == key_at s.bindings i) ≡ true = (==_iff k (key_at s.bindings i)).1 e in
            rw (same) (
              scan-absent (take_out s i).bindings k (s.nused - 1) (λ j lt e'. skip-ne i j (
                Rising-injective s.bindings s.nused v.rising (skip i j) i
                  (skip-bound i j s.nused lt) h (sym (take_out-key j lt) ∙ e' ∙ e))))
        | no ne ↦
            let other : (k == key_at s.bindings i) ≡ false = ground arith in
            rw (other) (
              scan-same s.bindings (take_out s i).bindings s.nused (s.nused - 1) k v.rising
                take_out-IsValid.rising (take_out-SameAt k ne))
      ]

      change-here :
          (key : ℕ) (x : A) → (change s i key x).bindings i ≡ some (record { key = key; value = x })
      unfolding change
      change-here key x = put_slot-here s.bindings i i (some (record { key = key; value = x })) refl

      change-other :
          (key : ℕ) (x : A) (j : ℕ) → j ≢ i → (change s i key x).bindings j ≡ s.bindings j
      unfolding change
      change-other key x j ne =
          put_slot-other s.bindings i j (some (record { key = key; value = x })) ne

      module _ (x : A) where
        abbrev changed : ℕ → Option (Binding A)
        changed = (change s i (key_at s.bindings i) x).bindings

        change-key : (j : ℕ) → key_at changed j ≡ key_at s.bindings j
        unfolding key_at
        change-key j = elim (ℕ_discrete j i) [
          | yes e ↦ rw (e) (
              ap (λ b. elim b as (λ _. ℕ) [ none ↦ 0 | some b ↦ b.key ])
                (change-here (key_at s.bindings i) x))
          | no ne ↦ key_at-equal changed s.bindings j j (change-other (key_at s.bindings i) x j ne)
        ]

        pub change-IsValid : IsValid (change s i (key_at s.bindings i) x)
        unfolding change
        change-IsValid = record {
          in_use = λ j lt. elim (ℕ_discrete j i) [
            | yes e ↦ (
              record { key = key_at s.bindings i; value = x },
              ap changed e ∙ change-here (key_at s.bindings i) x,
            )
            | no ne ↦
                let (b, e) = v.in_use j lt in (b, change-other (key_at s.bindings i) x j ne ∙ e)
          ];
          rising = λ a b lt le. omega (arith, change-key a, change-key b, v.rising a b lt le);
          room = v.room;
        }

        change-SameAt :
            (k : ℕ) → k ≢ key_at s.bindings i → SameAt s.bindings changed s.nused s.nused k
        change-SameAt k ne = record {
          forth = λ a lt e. (
            a,
            lt,
            change-other (key_at s.bindings i) x a
                (λ same. ne (sym e ∙ ap (key_at s.bindings) same)),
          );
          back = λ j lt e. (
            j,
            lt,
            change-other (key_at s.bindings i) x j
                (λ same. ne (sym e ∙ change-key j ∙ ap (key_at s.bindings) same)),
          );
        }

        pub scan-change :
            (k : ℕ)
            → scan changed s.nused k
              ≡ (if k == key_at s.bindings i then some x else scan s.bindings s.nused k)
        unfolding change value_at
        scan-change k = elim (ℕ_discrete k (key_at s.bindings i)) [
          | yes e ↦
              let same : (k == key_at s.bindings i) ≡ true = (==_iff k (key_at s.bindings i)).1 e in
              rw (same) (
                scan-present changed k s.nused i change-IsValid.rising h (change-key i ∙ sym e)
                ∙ ap (λ b. elim b as (λ _. Option A) [ none ↦ none | some b ↦ some b.value ])
                    (change-here (key_at s.bindings i) x))
          | no ne ↦
              let other : (k == key_at s.bindings i) ≡ false = ground arith in
              rw (other) (
                scan-same s.bindings changed s.nused s.nused k v.rising change-IsValid.rising
                  (change-SameAt k ne))
        ]
