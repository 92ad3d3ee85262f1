-- ===== src/Window/Alone.antt =====
-- `OneWindow` (wind.c) deletes the windows behind the current one until it is alone.
use jove.Base.{
  ℕ, zero, suc, ◌+◌, ◌≤◌, ◌≡◌, ◌≢◌, refl, sym, ◌∙◌, ap, subst, arith, List, [], ◌∷◌, true, false,
  Bool-cases, inl, inr, some, ◌==◌, ==_iff, if◌then◌else◌, length,
}
use jove.Outcome.{Outcome, done, final}
use jove.Window.{
  Window, Windows, find_window, at_window, unlink, prev_window, next_id, next_window, first_id,
  one_windp, taller, del_wind, one_window,
}
use jove.Window.Ring.{total}
use jove.Window.Neighbours.{Found, next_window-Found}
use jove.Window.Tiled.{IsTiled}
use jove.Window.Commands.{del_wind-IsTiled}

length-unlink :
    (k : ℕ) (ws : List Window) (w : Window)
    → find_window k ws ≡ some w
    → length (unlink k ws) + 1 ≡ length ws
unfolding find_window unlink
length-unlink k [] w e = cc
length-unlink k (x ∷ ws) w e = ground (arith, length-unlink k ws w)

length-at_window :
    (k : ℕ) (f : Window → Window) (ws : List Window) → length (at_window k f ws) ≡ length ws
unfolding at_window
length-at_window k f [] = refl
length-at_window k f (x ∷ ws) = ground (arith, length-at_window k f ws)

single : (ws : List Window) → one_windp ws ≡ true → (w : Window) × (ws ≡ w ∷ [])
single [] e = cc
single (w ∷ []) e = (w, refl)
single (w ∷ x ∷ ws) e = cc

single-id : (k : ℕ) (w : Window) → Found k (w ∷ []) → w.id ≡ k
unfolding find_window
single-id k w (x, e) = ground arith

-- Behind the only window there is the window itself.
next_window-single : (k : ℕ) (w : Window) → Found k (w ∷ []) → next_window k (w ∷ []) ≡ w.id
unfolding next_window next_id find_window
next_window-single k w (x, e) = ground arith

-- Another window than the current one can be deleted, and is.
del_wind-Shorter :
    (k : ℕ) (s : Windows)
    → Found k s.ring
    → one_windp s.ring ≡ false
    → s.cur ≢ k
    → (s' : Windows) × (del_wind k s ≡ done s')
      × (s'.cur ≡ s.cur)
      × (length s'.ring + 1 ≡ length s.ring)
unfolding del_wind
del_wind-Shorter k s (wp, e) several ne =
    let heir = if first_id k s.ring == k then next_window k s.ring else prev_window k s.ring in
    let stays : (s.cur == k) ≡ false = ground arith in
    let s' : Windows = record s {
      ring = at_window heir (taller wp.height) (unlink k s.ring);
      cur = if s.cur == k then heir else s.cur;
    } in
    (
      s',
      rw (del_wind, several, e) refl,
      rw (stays) refl,
      omega (
        arith,
        length-at_window heir (taller wp.height) (unlink k s.ring),
        length-unlink k s.ring wp e,
      ),
    )

-- One window is left, it is `k`, and it has all the lines.
abbrev pub Alone : ℕ → ℕ → Outcome Windows → Type 0
Alone rows k o =
    (s : Windows) × (w : Window) × (o ≡ done s)
    × (s.ring ≡ w ∷ [])
    × (s.cur ≡ k)
    × (w.id ≡ k)
    × (w.height ≡ rows)

module _ (rows : ℕ) where
  step_on :
      (n : ℕ) (s s' : Windows)
      → (next_window s.cur s.ring == s.cur) ≡ false
      → del_wind (next_window s.cur s.ring) s ≡ done s'
      → one_window (suc n) s ≡ one_window n s'
  unfolding one_window
  step_on n s s' other e = rw (one_window, other, e) refl

  stops_at_once :
      (n : ℕ) (s : Windows)
      → IsTiled rows s
      → one_windp s.ring ≡ true
      → Alone rows s.cur (one_window (suc n) s)
  unfolding one_window
  stops_at_once n s v one =
      let (w, e) = single s.ring one in
      let (x, found) = v.held in
      let here : Found s.cur (w ∷ []) = subst (λ ws. Found s.cur ws) e v.held in
      let id : w.id ≡ s.cur = single-id s.cur w here in
      let stays : (next_window s.cur s.ring == s.cur) ≡ true =
        rw (e)
          ((==_iff (next_window s.cur (w ∷ [])) s.cur).1 (next_window-single s.cur w here ∙ id)) in
      (s, w, rw (one_window, stays) refl, e, refl, id, omega (arith, ap total e, v.tiled))

  one_round :
      (n : ℕ) (s : Windows)
      → IsTiled rows s
      → one_windp s.ring ≡ false
      → (s' : Windows) × (one_window (suc n) s ≡ one_window n s')
        × IsTiled rows s'
        × (s'.cur ≡ s.cur)
        × (length s'.ring + 1 ≡ length s.ring)
  one_round n s v several =
      let next = next_window s.cur s.ring in
      let (ne, found) = next_window-Found s.cur s.ring v.distinct v.held several in
      let (s', e, same, fewer) = del_wind-Shorter next s found several (λ e. ne (sym e)) in
      (
        s',
        step_on n s s' (ground arith) e,
        subst (λ o. IsTiled rows (final o)) e (del_wind-IsTiled rows s v next),
        same,
        fewer,
      )

  one_window-left :
      (n : ℕ) (s : Windows)
      → IsTiled rows s
      → length s.ring ≤ n
      → Alone rows s.cur (one_window (suc n) s)
  one_window-left zero s v le = elim (Bool-cases (one_windp s.ring)) [
    | inl one ↦ stops_at_once 0 s v one
    | inr several ↦
        let (s', on, v', same, fewer) = one_round 0 s v several in absurd (omega (arith, fewer, le))
  ]
  one_window-left (suc n) s v le = elim (Bool-cases (one_windp s.ring)) [
    | inl one ↦ stops_at_once (suc n) s v one
    | inr several ↦
        let (s', on, v', same, fewer) = one_round (suc n) s v several in
        rw (on, sym same) (one_window-left n s' v' (omega (arith, fewer, le)))
  ]

-- From windows that tile a screen of `rows` lines `OneWindow` comes to an end, in at most one round
-- more than there are windows, does not complain, and leaves the current window alone, with all of
-- the lines.
pub one_window-Alone :
    (rows : ℕ) (s : Windows) → IsTiled rows s → Alone rows s.cur (one_window (length s.ring + 1) s)
one_window-Alone rows s v =
    rw (one_more (length s.ring)) (one_window-left rows (length s.ring) s v (omega arith))
  where
    one_more : (n : ℕ) → n + 1 ≡ suc n
    one_more n = omega arith
