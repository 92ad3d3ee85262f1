-- ===== src/Keymap/Scan.antt =====
-- A key map (keymaps.c) as a function from keys to what they are bound to: the bindings of a sparse
-- map are looked through one by one.
use jove.Base.{
  ℕ, zero, suc, ◌<◌, ◌≡◌, ◌≢◌, ◌⊎◌, inl, inr, refl, sym, ◌∙◌, ap, arith, Option, none, true, false,
  ◌==◌, ==_iff, if◌then◌else◌, le_or_lt,
}
use native.Mathlib.Decide.{ℕ_discrete}
use jove.Keymap.{Binding, Keymap, full, sparse, key_at, value_at, find_key, km_getkey}
use jove.Keymap.Search.{Rising, IsValid, Located, find_key-Located}

module _ {A : Type 0} where
  unfoldable pub scan : (ℕ → Option (Binding A)) → ℕ → ℕ → Option A
  scan f zero key = none
  scan f (suc n) key = if key_at f n == key then value_at f n else scan f n key

  unfoldable pub view : Keymap A → ℕ → Option A
  unfolding scan
  view (full map) key = map key
  view (sparse s) key = scan s.bindings s.nused key

  abbrev pub KeymapIsValid : Keymap A → Type 0
  KeymapIsValid (full map) = Unit
  KeymapIsValid (sparse s) = IsValid s

  module _ (f : ℕ → Option (Binding A)) (key : ℕ) where
    pub scan-absent : (n : ℕ) → ((i : ℕ) → i < n → key_at f i ≢ key) → scan f n key ≡ none
    unfolding scan
    scan-absent zero h = refl
    scan-absent (suc n) h =
        let other : (key_at f n == key) ≡ false = ground (arith, h n (omega arith)) in
        rw (scan, other) (scan-absent n (λ i lt. h i (omega arith)))

    pub scan-present :
        (n i : ℕ) → Rising f n → i < n → key_at f i ≡ key → scan f n key ≡ value_at f i
    unfolding scan
    scan-present zero i up h e = absurd (omega arith)
    scan-present (suc n) i up h e = elim (ℕ_discrete i n) [
      | yes last ↦
          let same : (key_at f n == key) ≡ true =
            (==_iff (key_at f n) key).1 (ap (key_at f) (sym last) ∙ e) in
          rw (scan, same) (ap (value_at f) (sym last))
      | no ne ↦
          let other : (key_at f n == key) ≡ false =
            ground (arith, up i n (omega arith) (omega arith)) in
          rw (scan, other) (scan-present n i (λ i j lt le. up i j lt (omega arith)) (omega arith) e)
    ]

    -- A key is at some place, or at none.
    pub places :
        (n : ℕ) → ((i : ℕ) × (i < n) × (key_at f i ≡ key)) ⊎ ((i : ℕ) → i < n → key_at f i ≢ key)
    places zero = inr (λ i h. absurd (omega arith))
    places (suc n) = elim (ℕ_discrete (key_at f n) key) [
      | yes e ↦ inl (n, omega arith, e)
      | no ne ↦ elim (places n) [
        | inl (i, h, e) ↦ inl (i, omega arith, e)
        | inr all ↦
            inr
              (λ i h. elim (ℕ_discrete i n) [ yes e ↦ rw (e) ne | no other ↦ all i (omega arith) ])
      ]
    ]

    pub Located-scan :
        (n : ℕ) (r : Option A × ℕ) → Rising f n → Located f key n r → r.0 ≡ scan f n key
    Located-scan n r up v = elim v.there [
      | inl (h, e, same) ↦ same ∙ sym (scan-present n r.1 up h e)
      | inr (nothing, above) ↦ nothing ∙ sym (scan-absent n (not_there above))
    ]
      where
        not_there : (r.1 < n → key < key_at f r.1) → (i : ℕ) → i < n → key_at f i ≢ key
        not_there above i h e = elim (ℕ_discrete i r.1) [
          | yes same ↦
              let there = ap (key_at f) (sym same) ∙ e in omega (arith, above (omega arith))
          | no other ↦ elim (le_or_lt i r.1) [
            | inl le ↦ omega (arith, v.before i (omega arith))
            | inr lt ↦ omega (arith, v.after i lt h)
          ]
        ]

  -- The value that `km_getkey` finds by its search in a valid map is the one bound to the key.
  pub km_getkey-view : (km : Keymap A) (key : ℕ) → KeymapIsValid km → km_getkey km key ≡ view km key
  unfolding km_getkey view
  km_getkey-view (full map) key v = refl
  km_getkey-view (sparse s) key v =
      Located-scan s.bindings key s.nused (find_key s key) v.rising (find_key-Located s key v)
