-- ===== src/Window/Ring.antt =====
-- Heights and addresses in the ring of windows (wind.c).
use jove.Base.{ℕ, ◌+◌, ◌≤◌, ◌<◌, ◌≡◌, ◌≢◌, refl, arith, List, [], ◌∷◌, some}
use jove.Window.{Window, find_window, at_window, unlink, link_after}

abbrev pub total : List Window → ℕ
total [] = 0
total (w ∷ ws) = w.height + total ws

-- Every window has room for a line of text and its mode line.
abbrev pub AllTall : List Window → Type 0
AllTall [] = Unit
AllTall (w ∷ ws) = (2 ≤ w.height) × AllTall ws

abbrev pub Absent : ℕ → List Window → Type 0
Absent k [] = Unit
Absent k (w ∷ ws) = (w.id ≢ k) × Absent k ws

abbrev pub Distinct : List Window → Type 0
Distinct [] = Unit
Distinct (w ∷ ws) = Absent w.id ws × Distinct ws

-- All addresses have been handed out.
abbrev pub Below : ℕ → List Window → Type 0
Below n [] = Unit
Below n (w ∷ ws) = (w.id < n) × Below n ws

module _ (k : ℕ) where
  pub find-tall :
      (ws : List Window) (w : Window) → AllTall ws → find_window k ws ≡ some w → 2 ≤ w.height
  unfolding find_window
  find-tall [] w a e = cc
  find-tall (x ∷ ws) w a e = ground (arith, find-tall ws w)

  pub find-id : (ws : List Window) (w : Window) → find_window k ws ≡ some w → w.id ≡ k
  unfolding find_window
  find-id [] w e = cc
  find-id (x ∷ ws) w e = ground (arith, find-id ws w)

  module _ (f : Window → Window) where
    pub total-at_window :
        (ws : List Window) (w : Window)
        → find_window k ws ≡ some w
        → total (at_window k f ws) + w.height ≡ total ws + (f w).height
    unfolding find_window at_window
    total-at_window [] w e = cc
    total-at_window (x ∷ ws) w e = ground (arith, total-at_window ws w)

    pub AllTall-at_window :
        (ws : List Window) (w : Window)
        → find_window k ws ≡ some w
        → 2 ≤ (f w).height
        → AllTall ws
        → AllTall (at_window k f ws)
    unfolding find_window at_window
    AllTall-at_window [] w e h a = tt
    AllTall-at_window (x ∷ ws) w e h a = ground (arith, AllTall-at_window ws w)

    module _ (same : (w : Window) → (f w).id ≡ w.id) where
      pub find-at_window_self :
          (ws : List Window) (w : Window)
          → find_window k ws ≡ some w
          → find_window k (at_window k f ws) ≡ some (f w)
      unfolding find_window at_window
      find-at_window_self [] w e = cc
      find-at_window_self (x ∷ ws) w e = ground (arith, same x, find-at_window_self ws w)

      pub find-at_window_other :
          (j : ℕ) (ws : List Window) → j ≢ k → find_window j (at_window k f ws) ≡ find_window j ws
      unfolding find_window at_window
      find-at_window_other j [] ne = refl
      find-at_window_other j (x ∷ ws) ne = ground (arith, same x, find-at_window_other j ws ne)

      pub Absent-at_window : (j : ℕ) (ws : List Window) → Absent j ws → Absent j (at_window k f ws)
      unfolding at_window
      Absent-at_window j [] a = tt
      Absent-at_window j (x ∷ ws) a = ground (arith, same x, Absent-at_window j ws)

      pub Distinct-at_window : (ws : List Window) → Distinct ws → Distinct (at_window k f ws)
      unfolding at_window
      Distinct-at_window [] a = tt
      Distinct-at_window (x ∷ ws) a =
          ground (arith, same x, Absent-at_window x.id ws, Distinct-at_window ws)

      pub Below-at_window : (n : ℕ) (ws : List Window) → Below n ws → Below n (at_window k f ws)
      unfolding at_window
      Below-at_window n [] a = tt
      Below-at_window n (x ∷ ws) a = ground (arith, same x, Below-at_window n ws)

  pub total-unlink :
      (ws : List Window) (w : Window)
      → find_window k ws ≡ some w
      → total (unlink k ws) + w.height ≡ total ws
  unfolding find_window unlink
  total-unlink [] w e = cc
  total-unlink (x ∷ ws) w e = ground (arith, total-unlink ws w)

  pub AllTall-unlink : (ws : List Window) → AllTall ws → AllTall (unlink k ws)
  unfolding unlink
  AllTall-unlink [] a = tt
  AllTall-unlink (x ∷ ws) a = ground (arith, AllTall-unlink ws)

  pub find-unlink :
      (j : ℕ) (ws : List Window) → j ≢ k → find_window j (unlink k ws) ≡ find_window j ws
  unfolding find_window unlink
  find-unlink j [] ne = refl
  find-unlink j (x ∷ ws) ne = ground (arith, find-unlink j ws ne)

  pub Absent-unlink : (j : ℕ) (ws : List Window) → Absent j ws → Absent j (unlink k ws)
  unfolding unlink
  Absent-unlink j [] a = tt
  Absent-unlink j (x ∷ ws) a = ground (arith, Absent-unlink j ws)

  pub Distinct-unlink : (ws : List Window) → Distinct ws → Distinct (unlink k ws)
  unfolding unlink
  Distinct-unlink [] a = tt
  Distinct-unlink (x ∷ ws) a = ground (arith, Absent-unlink x.id ws, Distinct-unlink ws)

  pub Below-unlink : (n : ℕ) (ws : List Window) → Below n ws → Below n (unlink k ws)
  unfolding unlink
  Below-unlink n [] a = tt
  Below-unlink n (x ∷ ws) a = ground (arith, Below-unlink n ws)

  module _ (new : Window) where
    pub total-link_after :
        (ws : List Window) (w : Window)
        → find_window k ws ≡ some w
        → total (link_after k new ws) ≡ total ws + new.height
    unfolding find_window link_after
    total-link_after [] w e = cc
    total-link_after (x ∷ ws) w e = ground (arith, total-link_after ws w)

    pub AllTall-link_after :
        (ws : List Window) → 2 ≤ new.height → AllTall ws → AllTall (link_after k new ws)
    unfolding link_after
    AllTall-link_after [] h a = tt
    AllTall-link_after (x ∷ ws) h a = ground (arith, AllTall-link_after ws h)

    pub find-link_after_other :
        (j : ℕ) (ws : List Window)
        → j ≢ new.id
        → find_window j (link_after k new ws) ≡ find_window j ws
    unfolding find_window link_after
    find-link_after_other j [] ne = refl
    find-link_after_other j (x ∷ ws) ne = ground (arith, find-link_after_other j ws ne)

    pub find-link_after_new :
        (ws : List Window) (w : Window)
        → find_window k ws ≡ some w
        → Absent new.id ws
        → find_window new.id (link_after k new ws) ≡ some new
    unfolding find_window link_after
    find-link_after_new [] w e a = cc
    find-link_after_new (x ∷ ws) w e a = ground (arith, find-link_after_new ws w)

    pub Absent-link_after :
        (j : ℕ) (ws : List Window) → new.id ≢ j → Absent j ws → Absent j (link_after k new ws)
    unfolding link_after
    Absent-link_after j [] ne a = tt
    Absent-link_after j (x ∷ ws) ne a = ground (arith, Absent-link_after j ws ne)

    pub Distinct-link_after :
        (ws : List Window) → Absent new.id ws → Distinct ws → Distinct (link_after k new ws)
    unfolding link_after
    Distinct-link_after [] a d = tt
    Distinct-link_after (x ∷ ws) a d =
        ground (arith, Absent-link_after x.id ws, Distinct-link_after ws)

    pub Below-link_after :
        (n : ℕ) (ws : List Window) → new.id < n → Below n ws → Below n (link_after k new ws)
    unfolding link_after
    Below-link_after n [] h a = tt
    Below-link_after n (x ∷ ws) h a = ground (arith, Below-link_after n ws h)

pub widen : (n : ℕ) (ws : List Window) → Below n ws → Below (n + 1) ws
widen n [] a = tt
widen n (w ∷ ws) a = (omega (arith, a.0), widen n ws a.1)

pub Below-Absent : (n : ℕ) (ws : List Window) → Below n ws → Absent n ws
Below-Absent n [] a = tt
Below-Absent n (w ∷ ws) a = ((λ e. omega (arith, a.0)), Below-Absent n ws a.1)
