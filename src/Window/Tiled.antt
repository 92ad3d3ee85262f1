-- ===== src/Window/Tiled.antt =====
-- The windows fill the screen, whatever is done to them (wind.c).
use jove.Base.{
  ℕ, zero, suc, ◌+◌, ◌*◌, ◌/◌, ◌≤◌, ◌<◌, ◌≡◌, ◌≢◌, refl, sym, ◌∙◌, ap, arith, List, [], ◌∷◌,
  Bool-cases, inl, inr, some, ◌==◌, if◌then◌else◌,
}
use native.Mathlib.Decide.{ℕ_discrete}
use native.Mathlib.Nat.{mul-div-le}
use jove.Window.{
  Window, Windows, find_window, at_window, unlink, link_after, taller, shorter, divide, exchange,
}
use jove.Window.Ring.{
  total, AllTall, Distinct, Below, find-tall, find-id, total-at_window, AllTall-at_window,
  find-at_window_self, find-at_window_other, Distinct-at_window, Below-at_window, total-unlink,
  AllTall-unlink, find-unlink, Distinct-unlink, Below-unlink, total-link_after, AllTall-link_after,
  find-link_after_other, find-link_after_new, Distinct-link_after, Below-link_after, widen,
  Below-Absent,
}
use jove.Window.Neighbours.{Found}

-- The heights sum up to the lines of the screen, each window has room, the addresses are distinct
-- and have been handed out, and the current window is in the ring.
pub record IsTiled (rows : ℕ) (s : Windows) : Type 0 where
  pub tiled : total s.ring ≡ rows
  pub tall : AllTall s.ring
  pub distinct : Distinct s.ring
  pub handed : Below s.fresh s.ring
  pub held : Found s.cur s.ring

Found-at_window :
    (j k : ℕ) (f : Window → Window) (ws : List Window)
    → ((w : Window) → (f w).id ≡ w.id)
    → Found j ws
    → Found j (at_window k f ws)
Found-at_window j k f ws same (w, e) = elim (ℕ_discrete j k) [
  | yes e' ↦ (
    f w,
    ap (λ j. find_window j (at_window k f ws)) e'
        ∙ find-at_window_self k f same ws w (ap (λ j. find_window j ws) (sym e') ∙ e),
  )
  | no ne ↦ (w, find-at_window_other k f same j ws ne ∙ e)
]

Found-lt : (k n : ℕ) (ws : List Window) → Below n ws → Found k ws → k < n
unfolding find_window
Found-lt k n [] b (w, e) = cc
Found-lt k n (x ∷ ws) b (w, e) = elim (Bool-cases (x.id == k)) [
  | inl same ↦ ground arith
  | inr other ↦
      let step : find_window k (x ∷ ws) ≡ find_window k ws = rw (find_window, other) refl in
      Found-lt k n ws b.1 (w, sym step ∙ e)
]

module _ (rows : ℕ) where
  divide-IsTiled :
      (n amt : ℕ) (wp : Window) (latest : ℕ) (s : Windows) (w : Window)
      → IsTiled rows s
      → find_window wp.id s.ring ≡ some w
      → n * amt + 2 ≤ w.height
      → 2 ≤ amt
      → Found latest s.ring
      → IsTiled rows (divide n amt wp latest s)
  unfolding divide
  divide-IsTiled zero amt wp latest s w v e h a l = v
  divide-IsTiled (suc n) amt wp latest s w v e h a (x, l) =
      let new : Window = record { id = s.fresh; height = amt; buf = wp.buf } in
      let ring1 = at_window wp.id (shorter amt) s.ring in
      let ring2 = link_after latest new ring1 in
      let room : n * amt + 2 + amt ≤ w.height = grind arith in
      let below = Below-at_window wp.id (shorter amt) (λ w. refl) s.fresh s.ring v.handed in
      let absent = Below-Absent s.fresh ring1 below in
      let (y, l') = Found-at_window latest wp.id (shorter amt) s.ring (λ w. refl) (x, l) in
      let (c, held) = Found-at_window s.cur wp.id (shorter amt) s.ring (λ w. refl) v.held in
      let mine = find-at_window_self wp.id (shorter amt) (λ w. refl) s.ring w e in
      let next : Windows = record s { ring = ring2; fresh = s.fresh + 1 } in
      let v' : IsTiled rows next = record {
        tiled = omega (
          arith,
          v.tiled,
          total-link_after latest new ring1 y l',
          total-at_window wp.id (shorter amt) s.ring w e,
        );
        tall =
            AllTall-link_after latest new ring1 a
              (AllTall-at_window wp.id (shorter amt) s.ring w e (omega arith) v.tall);
        distinct =
            Distinct-link_after latest new ring1 absent
              (Distinct-at_window wp.id (shorter amt) (λ w. refl) s.ring v.distinct);
        handed =
            Below-link_after latest new (s.fresh + 1) ring1 (omega arith)
              (widen s.fresh ring1 below);
        held = (
          c,
          find-link_after_other latest new s.cur ring1
                (λ e. omega (arith, Found-lt s.cur s.fresh s.ring v.handed v.held))
              ∙ held,
        );
      } in
      divide-IsTiled n amt wp s.fresh next (shorter amt w) v'
        (find-link_after_other latest new wp.id ring1
            (λ e'. omega (arith, Found-lt wp.id s.fresh s.ring v.handed (w, e)))
          ∙ mine)
        (omega arith) a (new, find-link_after_new latest new ring1 y l' absent)

  pub divided-IsTiled :
      (k n : ℕ) (s : Windows) (wp : Window)
      → IsTiled rows s
      → find_window k s.ring ≡ some wp
      → 2 ≤ wp.height / (n + 1)
      → IsTiled rows (divide n (wp.height / (n + 1)) wp k s)
  divided-IsTiled k n s wp v e h =
      let amt = wp.height / (n + 1) in
      let room : (n + 1) * amt ≤ wp.height = mul-div-le wp.height (n + 1) in
      let id : wp.id ≡ k = find-id k s.ring wp e in
      divide-IsTiled n amt wp k s wp v (ap (λ k. find_window k s.ring) id ∙ e) (grind arith) h
        (wp, e)

  -- One window gives its lines to another one.
  pub handed_on :
      (k heir : ℕ) (s : Windows) (wp : Window)
      → IsTiled rows s
      → find_window k s.ring ≡ some wp
      → heir ≢ k
      → Found heir s.ring
      → IsTiled rows (record s {
        ring = at_window heir (taller wp.height) (unlink k s.ring);
        cur = if s.cur == k then heir else s.cur;
      })
  handed_on k heir s wp v e ne (h, there) =
      let left = unlink k s.ring in
      let still : find_window heir left ≡ some h = find-unlink k heir s.ring ne ∙ there in
      record {
        tiled = omega (
          arith,
          v.tiled,
          total-at_window heir (taller wp.height) left h still,
          total-unlink k s.ring wp e,
        );
        tall =
            AllTall-at_window heir (taller wp.height) left h still
              (omega (arith, find-tall heir s.ring h v.tall there))
              (AllTall-unlink k s.ring v.tall);
        distinct =
            Distinct-at_window heir (taller wp.height) (λ w. refl) left
              (Distinct-unlink k s.ring v.distinct);
        handed =
            Below-at_window heir (taller wp.height) (λ w. refl) s.fresh left
              (Below-unlink k s.fresh s.ring v.handed);
        held = elim (Bool-cases (s.cur == k)) [
          | inl gone ↦
              rw (gone) (Found-at_window heir heir (taller wp.height) left (λ w. refl) (h, still))
          | inr stays ↦
              let (c, e') = v.held in
              rw (stays) (
                Found-at_window s.cur heir (taller wp.height) left (λ w. refl)
                  (c, find-unlink k s.cur s.ring (ground arith) ∙ e'))
        ];
      }

  pub exchange-IsTiled :
      (from to n : ℕ) (s : Windows) (w : Window)
      → IsTiled rows s
      → find_window from s.ring ≡ some w
      → n + 2 ≤ w.height
      → to ≢ from
      → Found to s.ring
      → IsTiled rows (exchange from to n s)
  unfolding exchange
  exchange-IsTiled from to n s w v e h ne (t, there) =
      let left = at_window from (shorter n) s.ring in
      let still : find_window to left ≡ some t =
        find-at_window_other from (shorter n) (λ w. refl) to s.ring ne ∙ there in
      record {
        tiled = omega (
          arith,
          v.tiled,
          total-at_window to (taller n) left t still,
          total-at_window from (shorter n) s.ring w e,
        );
        tall =
            AllTall-at_window to (taller n) left t still
              (omega (arith, find-tall to s.ring t v.tall there))
              (AllTall-at_window from (shorter n) s.ring w e (omega arith) v.tall);
        distinct =
            Distinct-at_window to (taller n) (λ w. refl) left
              (Distinct-at_window from (shorter n) (λ w. refl) s.ring v.distinct);
        handed =
            Below-at_window to (taller n) (λ w. refl) s.fresh left
              (Below-at_window from (shorter n) (λ w. refl) s.fresh s.ring v.handed);
        held =
            Found-at_window s.cur to (taller n) left (λ w. refl)
              (Found-at_window s.cur from (shorter n) s.ring (λ w. refl) v.held);
      }
