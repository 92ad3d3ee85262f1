-- ===== src/Keymap/Search.antt =====
-- The binary search of `km_getkey` (keymaps.c).
use jove.Base.{
  ℕ, zero, suc, ◌+◌, ◌-◌, ◌/◌, ◌≤◌, ◌<◌, ◌≡◌, ◌⊎◌, inl, inr, refl, arith, Option, none, some,
  Bool-cases, ltb, leb, leb→le, ltb→lt, le_or_lt, ==_iff, ◌==◌,
}
use native.Mathlib.Decide.{ℕ_discrete}
use jove.Keymap.{Binding, Sparse, key_at, value_at, narrow, settled, find_key}

module _ {A : Type 0} where
  -- The keys of the first `n` bindings rise.
  abbrev pub Rising : (ℕ → Option (Binding A)) → ℕ → Type 0
  Rising f n = (i j : ℕ) → i < j → j < n → key_at f i < key_at f j

  pub record IsValid (s : Sparse A) : Type 0 where
    pub in_use : (i : ℕ) → i < s.nused → (b : Binding A) × (s.bindings i ≡ some b)
    pub rising : Rising s.bindings s.nused
    pub room : s.nused ≤ s.nalloc

  module _ (f : ℕ → Option (Binding A)) (key n : ℕ) where
    -- The bounds enclose the place of the key.
    record Encloses (b : ℕ × ℕ) : Type 0 where
      ordered : b.0 ≤ b.1
      inside : b.1 ≤ n
      below : 0 < b.0 → key_at f b.0 ≤ key
      above : b.1 < n → key < key_at f b.1
      open_bound : 0 < n → b.0 < b.1

    module _ (lwb upb : ℕ) (v : Encloses (lwb, upb)) (lt : lwb < (lwb + upb) / 2) where
      right-Encloses : key_at f ((lwb + upb) / 2) ≤ key → Encloses ((lwb + upb) / 2, upb)
      right-Encloses le = record {
        ordered = omega (arith, v.ordered);
        inside = v.inside;
        below = λ _. le;
        above = v.above;
        open_bound = λ _. omega (arith, v.ordered);
      }

      left-Encloses : key < key_at f ((lwb + upb) / 2) → Encloses (lwb, (lwb + upb) / 2)
      left-Encloses gt = record {
        ordered = omega arith;
        inside = omega (arith, v.ordered, v.inside);
        below = v.below;
        above = λ _. gt;
        open_bound = λ _. lt;
      }

    narrow-Encloses :
        (k lwb upb : ℕ)
        → upb ≤ lwb + k
        → Encloses (lwb, upb)
        → Encloses (narrow k f key lwb upb)
          × ((narrow k f key lwb upb).1 ≤ (narrow k f key lwb upb).0 + 1)
    unfolding narrow
    narrow-Encloses zero lwb upb h v = (v, omega arith)
    narrow-Encloses (suc k) lwb upb h v =
        let mid = (lwb + upb) / 2 in
        elim (Bool-cases (mid == lwb)) [
          | inl close ↦ rw (narrow, close) (v, ground arith)
          | inr apart ↦
              let lt : lwb < mid = ground (arith, v.ordered) in
              elim (Bool-cases (leb (key_at f mid) key)) [
                | inl le ↦
                    rw (narrow, apart, le)
                      (narrow-Encloses k mid upb (omega arith)
                        (right-Encloses lwb upb v lt (leb→le (key_at f mid) key le)))
                | inr gt ↦
                    rw (narrow, apart, gt)
                      (narrow-Encloses k lwb mid (omega (arith, v.ordered))
                        (left-Encloses lwb upb v lt (ground arith)))
              ]
        ]

  -- Where a key is found, or where it would be put.
  pub record Located (f : ℕ → Option (Binding A)) (key n : ℕ) (r : Option A × ℕ) : Type 0 where
    pub inside : r.1 ≤ n
    pub before : (i : ℕ) → i < r.1 → key_at f i < key
    pub after : (i : ℕ) → r.1 < i → i < n → key < key_at f i
    pub there :
        (r.1 < n) × (key_at f r.1 ≡ key) × (r.0 ≡ value_at f r.1)
        ⊎ (r.0 ≡ none) × (r.1 < n → key < key_at f r.1)

  module _ (f : ℕ → Option (Binding A)) (key n : ℕ) (up : Rising f n) where
    missing :
        (p : ℕ)
        → p ≤ n
        → (0 < p → key_at f (p - 1) < key)
        → (p < n → key < key_at f p)
        → Located f key n (none, p)
    missing p h lo hi = record {
      inside = h;
      before = λ i lt. elim (ℕ_discrete i (p - 1)) [
        | yes e ↦ rw (e) (lo (omega arith))
        | no ne ↦ omega (arith, up i (p - 1) (omega arith) (omega arith), lo (omega arith))
      ];
      after = λ i lt le. omega (arith, up p i lt le, hi (omega arith));
      there = inr (refl, hi);
    }

    found_at : (p : ℕ) → p < n → key_at f p ≡ key → Located f key n (value_at f p, p)
    found_at p h e = record {
      inside = omega arith;
      before = λ i lt. omega (arith, up i p lt h);
      after = λ i lt le. omega (arith, up p i lt le);
      there = inl (h, e, refl);
    }

    -- Two bounds that are next to each other leave one place to look at.
    settled-Located :
        (l u : ℕ) → Encloses f key n (l, u) → u ≤ l + 1 → Located f key n (settled f key (l, u))
    unfolding settled
    settled-Located l u v close = elim (Bool-cases (l == u)) [
      | inl e ↦
          rw (settled, e)
            (let eq : l ≡ u = ground arith in
              let empty : n ≡ 0 = elim (le_or_lt n 0) [
                | inl none_used ↦ omega arith
                | inr used ↦ absurd (omega (arith, v.open_bound used))
              ] in
              missing u v.inside (λ lt. absurd (omega (arith, v.inside))) v.above)
      | inr ne ↦
          let apart : l < u = ground (arith, v.ordered) in
          elim (Bool-cases (key_at f l == key)) [
            | inl found ↦
                rw (settled, ne, found)
                  (found_at l (omega (arith, v.inside)) ((==_iff (key_at f l) key).0 found))
            | inr other ↦ elim (Bool-cases (ltb key (key_at f l))) [
              | inl less ↦
                  let lt : key < key_at f l = ltb→lt key (key_at f l) less in
                  rw (settled, ne, other, less)
                    (missing l (omega (arith, v.inside))
                      (λ pos. absurd (omega (arith, v.below pos))) (λ _. lt))
              | inr more ↦
                  let gt : key_at f l < key = ground arith in
                  let last : u - 1 ≡ l = omega arith in
                  rw (settled, ne, other, more) (missing u v.inside (λ _. rw (last) gt) v.above)
            ]
          ]
    ]

  -- The search of a sparse map finds the place of a key.
  pub find_key-Located :
      (s : Sparse A) (key : ℕ) → IsValid s → Located s.bindings key s.nused (find_key s key)
  unfolding find_key
  find_key-Located s key v =
      let f = s.bindings in
      let n = s.nused in
      let start : Encloses f key n (0, n) = record {
        ordered = omega arith;
        inside = omega arith;
        below = λ h. absurd (omega arith);
        above = λ h. absurd (omega arith);
        open_bound = λ h. h;
      } in
      let (w, close) = narrow-Encloses f key n n 0 n (omega arith) start in
      settled-Located f key n v.rising (narrow n f key 0 n).0 (narrow n f key 0 n).1 w close
