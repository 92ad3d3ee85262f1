-- ===== src/Window/Neighbours.antt =====
-- The windows before and behind a window of the ring (wind.c).
use jove.Base.{
  ℕ, ◌≡◌, ◌≢◌, ◌⊎◌, refl, sym, ◌∙◌, subst, arith, List, [], ◌∷◌, true, false, Bool-cases, inl, inr,
  some, ◌==◌, ==_iff,
}
use jove.Window.{
  Window, find_window, prev_id, last_id, prev_window, next_id, next_window, one_windp,
}
use jove.Window.Ring.{Absent, Distinct}

abbrev pub Found : ℕ → List Window → Type 0
Found k ws = (w : Window) × (find_window k ws ≡ some w)

find-here : (x : Window) (ws : List Window) → Found x.id (x ∷ ws)
unfolding find_window
find-here x ws = (x, rw (find_window, (==_iff x.id x.id).1 refl) refl)

find-next_id : (k : ℕ) (x : Window) (ws : List Window) → Found k ws → Found k (x ∷ ws)
unfolding find_window
find-next_id k x ws (w, e) = elim (Bool-cases (x.id == k)) [
  | inl same ↦ (x, rw (find_window, same) refl)
  | inr other ↦ (w, rw (find_window, other) e)
]

prev_id-Found :
    (last k : ℕ) (ws : List Window) → (prev_id last k ws ≡ last) ⊎ Found (prev_id last k ws) ws
unfolding prev_id
prev_id-Found last k [] = inl refl
prev_id-Found last k (x ∷ ws) = elim (Bool-cases (x.id == k)) [
  | inl same ↦ inl (rw (prev_id, same) refl)
  | inr other ↦
      let step : prev_id last k (x ∷ ws) ≡ prev_id x.id k ws = rw (prev_id, other) refl in
      elim (prev_id-Found x.id k ws) [
        | inl e ↦ inr (subst (λ j. Found j (x ∷ ws)) (sym (step ∙ e)) (find-here x ws))
        | inr found ↦
            inr (
              subst (λ j. Found j (x ∷ ws)) (sym step)
                (find-next_id (prev_id x.id k ws) x ws found))
      ]
]

last-Found : (k : ℕ) (x : Window) (ws : List Window) → Found (last_id k (x ∷ ws)) (x ∷ ws)
unfolding last_id
last-Found k x [] = find-here x []
last-Found k x (y ∷ ws) = find-next_id (last_id x.id (y ∷ ws)) x (y ∷ ws) (last-Found x.id y ws)

prev_id-ne : (last k : ℕ) (ws : List Window) → last ≢ k → prev_id last k ws ≢ k
unfolding prev_id
prev_id-ne last k [] ne = ne
prev_id-ne last k (x ∷ ws) ne = elim (Bool-cases (x.id == k)) [
  | inl same ↦ rw (prev_id, same) ne
  | inr other ↦ rw (prev_id, other) (prev_id-ne x.id k ws (ground arith))
]

last-ne : (j k : ℕ) (ws : List Window) → j ≢ k → Absent k ws → last_id j ws ≢ k
unfolding last_id
last-ne j k [] ne a = ne
last-ne j k (x ∷ ws) ne a = last-ne x.id k ws a.0 a.1

not_before :
    (last k : ℕ) (x y : Window) (ws : List Window)
    → Distinct (x ∷ y ∷ ws)
    → last ≡ last_id y.id ws
    → prev_id last k (x ∷ y ∷ ws) ≢ k
unfolding prev_id
not_before last k x y ws d e = elim (Bool-cases (x.id == k)) [
  | inl same ↦
      let a : Absent k (y ∷ ws) = subst (λ j. Absent j (y ∷ ws)) ((==_iff x.id k).0 same) d.0 in
      rw (prev_id, same, e) (last-ne y.id k ws a.0 a.1)
  | inr other ↦ rw (prev_id, other) (prev_id-ne x.id k (y ∷ ws) (λ e. ground arith))
]

-- The window before one of several windows is another window of the ring.
pub prev_window-Found :
    (k : ℕ) (ws : List Window)
    → Distinct ws
    → Found k ws
    → one_windp ws ≡ false
    → (prev_window k ws ≢ k) × Found (prev_window k ws) ws
unfolding prev_window last_id find_window
prev_window-Found k [] d (w, e) several = cc
prev_window-Found k (x ∷ []) d f several = cc
prev_window-Found k (x ∷ y ∷ ws) d f several = (
  not_before (last_id y.id ws) k x y ws d refl,
  elim (prev_id-Found (last_id k (x ∷ y ∷ ws)) k (x ∷ y ∷ ws)) [
    | inl e ↦ subst (λ j. Found j (x ∷ y ∷ ws)) (sym e) (last-Found k x (y ∷ ws))
    | inr found ↦ found
  ],
)

next_id-Found :
    (first k : ℕ) (ws : List Window) → (next_id first k ws ≡ first) ⊎ Found (next_id first k ws) ws
unfolding next_id
next_id-Found first k [] = inl refl
next_id-Found first k (x ∷ ws) = elim (Bool-cases (x.id == k)) [
  | inl same ↦ last_or_next ws same
  | inr other ↦
      let step : next_id first k (x ∷ ws) ≡ next_id first k ws = rw (next_id, other) refl in
      elim (next_id-Found first k ws) [
        | inl e ↦ inl (step ∙ e)
        | inr found ↦ inr (
            subst (λ j. Found j (x ∷ ws)) (sym step) (find-next_id (next_id first k ws) x ws found))
      ]
]
  where
    last_or_next :
        (ws : List Window)
        → (x.id == k) ≡ true
        → (next_id first k (x ∷ ws) ≡ first) ⊎ Found (next_id first k (x ∷ ws)) (x ∷ ws)
    last_or_next [] same = inl (rw (next_id, same) refl)
    last_or_next (y ∷ ws) same =
        let step : next_id first k (x ∷ y ∷ ws) ≡ y.id = rw (next_id, same) refl in
        inr (
          subst (λ j. Found j (x ∷ y ∷ ws)) (sym step)
            (find-next_id y.id x (y ∷ ws) (find-here y ws)))

next_id-ne : (first k : ℕ) (ws : List Window) → first ≢ k → Distinct ws → next_id first k ws ≢ k
unfolding next_id
next_id-ne first k [] ne d = ne
next_id-ne first k (x ∷ []) ne d = ground arith
next_id-ne first k (x ∷ y ∷ ws) ne d = elim (Bool-cases (x.id == k)) [
  | inl same ↦
      let a : Absent k (y ∷ ws) = subst (λ j. Absent j (y ∷ ws)) ((==_iff x.id k).0 same) d.0 in
      rw (next_id, same) a.0
  | inr other ↦ rw (next_id, other) (next_id-ne first k (y ∷ ws) ne d.1)
]

not_behind :
    (k : ℕ) (x y : Window) (ws : List Window)
    → Distinct (x ∷ y ∷ ws)
    → next_id x.id k (x ∷ y ∷ ws) ≢ k
unfolding next_id
not_behind k x y ws d = elim (Bool-cases (x.id == k)) [
  | inl same ↦
      let a : Absent k (y ∷ ws) = subst (λ j. Absent j (y ∷ ws)) ((==_iff x.id k).0 same) d.0 in
      rw (next_id, same) a.0
  | inr other ↦ rw (next_id, other) (next_id-ne x.id k (y ∷ ws) (λ e. ground arith) d.1)
]

-- The window behind one of several windows is another window of the ring.
pub next_window-Found :
    (k : ℕ) (ws : List Window)
    → Distinct ws
    → Found k ws
    → one_windp ws ≡ false
    → (next_window k ws ≢ k) × Found (next_window k ws) ws
unfolding next_window find_window
next_window-Found k [] d (w, e) several = cc
next_window-Found k (x ∷ []) d f several = cc
next_window-Found k (x ∷ y ∷ ws) d f several = (
  not_behind k x y ws d,
  elim (next_id-Found x.id k (x ∷ y ∷ ws)) [
    | inl e ↦ subst (λ j. Found j (x ∷ y ∷ ws)) (sym e) (find-here x (y ∷ ws))
    | inr found ↦ found
  ],
)
