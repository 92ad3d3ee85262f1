-- ===== src/Keymap/Set.antt =====
-- `km_setkey` (keymaps.c) binds one key and no other.
use jove.Base.{
  ℕ, ◌+◌, ◌≤◌, ◌<◌, ◌≡◌, ◌≢◌, inl, inr, refl, sym, ◌∙◌, ap, arith, Option, none, some, true, false,
  Bool-cases, leb, ◌==◌, ==_iff, if◌then◌else◌,
}
use native.Mathlib.Decide.{ℕ_discrete}
use jove.Keymap.{
  Sparse, Keymap, full, sparse, key_at, value_at, find_key, km_setkey, km_getkey, take_out, change,
  inserted, sparse_limit, keymap_quantum,
}
use jove.Keymap.Search.{IsValid, Located, find_key-Located}
use jove.Keymap.Scan.{scan, view, KeymapIsValid, Located-scan, km_getkey-view}
use jove.Keymap.Moved.{take_out-IsValid, scan-take_out, change-IsValid, scan-change}
use jove.Keymap.Entered.{scan-put_in, put_in-IsValid, spread-scan}

module _ {A : Type 0} where
  -- A valid map in which one key has another binding, or none, and the others what they had.
  abbrev pub Rebinds : Keymap A → ℕ → Option A → Keymap A → Type 0
  Rebinds km key d km' =
      KeymapIsValid km' × ((k : ℕ) → view km' k ≡ (if k == key then d else view km k))

  module _ (s : Sparse A) (v : IsValid s) (key : ℕ) where
    module _ (i : ℕ) where
      inserted-Rebinds :
          (x : A)
          → i ≤ s.nused
          → ((j : ℕ) → j < i → key_at s.bindings j < key)
          → ((j : ℕ) → i ≤ j → j < s.nused → key < key_at s.bindings j)
          → Rebinds (sparse s) key (some x) (inserted s i key x)
      unfolding inserted view
      inserted-Rebinds x h lo hi = elim (Bool-cases (s.nused == s.nalloc)) [
        | inr room ↦
            rw (inserted, room)
              (
                put_in-IsValid s v i key x h lo hi (ground (arith, v.room)),
                scan-put_in s v i key x h lo hi,
              )
        | inl filled ↦ elim (Bool-cases (leb sparse_limit s.nused)) [
          | inl many ↦
              rw (inserted, filled, many)
                (
                  tt,
                  λ k.
                      ap (λ t. if k == key then some x else t)
                        (spread-scan s.nused s.bindings k v.rising),
                )
          | inr few ↦
              let grown = record s { nalloc = s.nalloc + keymap_quantum } in
              let v' : IsValid grown = record {
                in_use = v.in_use;
                rising = v.rising;
                room = omega (arith, v.room);
              } in
              rw (inserted, filled, few)
                (
                  put_in-IsValid grown v' i key x h lo hi (omega (arith, v.room)),
                  scan-put_in grown v' i key x h lo hi,
                )
        ]
      ]

    -- The binding found is taken out or changed.
    bound-Rebinds :
        (i : ℕ) (d : Option A)
        → i < s.nused
        → key_at s.bindings i ≡ key
        → Rebinds (sparse s) key d (elim d as (λ _. Keymap A) [
          | none ↦ sparse (take_out s i)
          | some x ↦ sparse (change s i (key_at s.bindings i) x)
        ])
    unfolding view take_out change
    bound-Rebinds i none h e = (
      take_out-IsValid s v i h,
      λ k. scan-take_out s v i h k ∙ ap (λ j. if k == j then none else scan s.bindings s.nused k) e,
    )
    bound-Rebinds i (some x) h e = (
      change-IsValid s v i h x,
      λ k.
          scan-change s v i h x k
          ∙ ap (λ j. if k == j then some x else scan s.bindings s.nused k) e,
    )

    -- No binding is there.
    free-Rebinds :
        (r : Option A × ℕ) (d : Option A)
        → Located s.bindings key s.nused r
        → (r.1 < s.nused → key < key_at s.bindings r.1)
        → r.0 ≡ none
        → Rebinds
            (sparse s)
            key
            d
            (elim d as (λ _. Keymap A) [ none ↦ sparse s | some x ↦ inserted s r.1 key x ])
    unfolding view
    free-Rebinds r none l above nothing = (
      v,
      λ k. elim (ℕ_discrete k key) [
        | yes e ↦
            let same : (k == key) ≡ true = (==_iff k key).1 e in
            rw (same) (
              ap (scan s.bindings s.nused) e
              ∙ sym (Located-scan s.bindings key s.nused r v.rising l)
              ∙ nothing)
        | no ne ↦ let other : (k == key) ≡ false = ground arith in rw (other) refl
      ],
    )
    free-Rebinds r (some x) l above nothing = inserted-Rebinds r.1 x l.inside l.before (λ j le lt.
        elim (ℕ_discrete j r.1) [
          | yes e ↦ rw (e) (above (omega arith))
          | no ne ↦ l.after j (omega arith) lt
        ])

    held : (i : ℕ) → i < s.nused → value_at s.bindings i ≢ none
    unfolding value_at
    held i h e =
        let (b, there) = v.in_use i h in
        let some_value : value_at s.bindings i ≡ some b.value = rw (value_at, there) refl in cc

    sparse-Rebinds : (d : Option A) → Rebinds (sparse s) key d (km_setkey (sparse s) key d)
    unfolding km_setkey
    sparse-Rebinds d = go (find_key s key).0 refl
      where
        l : Located s.bindings key s.nused (find_key s key)
        l = find_key-Located s key v

        go :
            (o : Option A)
            → (find_key s key).0 ≡ o
            → Rebinds (sparse s) key d (km_setkey (sparse s) key d)
        go none e = elim l.there [
          | inl (h, at_key, same) ↦ absurd (held (find_key s key).1 h (sym same ∙ e))
          | inr (nothing, above) ↦ rw (km_setkey, e) (free-Rebinds (find_key s key) d l above e)
        ]
        go (some old) e = elim l.there [
          | inl (h, at_key, same) ↦ rw (km_setkey, e) (bound-Rebinds (find_key s key).1 d h at_key)
          | inr (nothing, above) ↦ cc
        ]

  -- In a valid map `km_setkey` gives the key its new binding, or takes its binding away, and leaves
  -- what the other keys are bound to; the map stays valid. This holds on every branch: where a
  -- binding is taken out, changed, or put in, where the array grows, and where the sparse map
  -- becomes a full one.
  pub km_setkey-Rebinds :
      (km : Keymap A) (key : ℕ) (d : Option A)
      → KeymapIsValid km
      → Rebinds km key d (km_setkey km key d)
  unfolding km_setkey view
  km_setkey-Rebinds (full map) key d v = (tt, λ k. refl)
  km_setkey-Rebinds (sparse s) key d v = sparse-Rebinds s v key d

  -- After `km_setkey`, `km_getkey` finds the new binding under the key and the old ones under the
  -- other keys.
  pub km_getkey-km_setkey :
      (km : Keymap A) (key k : ℕ) (d : Option A)
      → KeymapIsValid km
      → km_getkey (km_setkey km key d) k ≡ (if k == key then d else km_getkey km k)
  km_getkey-km_setkey km key k d v =
      let (v', same) = km_setkey-Rebinds km key d v in
      km_getkey-view (km_setkey km key d) k v'
      ∙ same k
      ∙ ap (λ t. if k == key then d else t) (sym (km_getkey-view km k v))
