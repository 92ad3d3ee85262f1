-- ===== src/Window/Commands.antt =====
-- The operations on windows (wind.c) in any order.
use jove.Base.{
  ℕ, zero, suc, ◌+◌, ◌/◌, ◌≡◌, ◌≢◌, refl, sym, List, [], ◌∷◌, Bool, true, false, Bool-cases, inl,
  inr, Option, none, some, ltb, ltb_false→le, ◌==◌, if◌then◌else◌,
}
use jove.Base.Int.{ℤ, pos, negsuc}
use jove.Outcome.{Outcome, final}
use jove.Window.{
  Window, Windows, find_window, prev_window, next_window, first_id, one_windp, div_wind, del_wind,
  wind_size, grow_window, shr_window, to_next_window, to_prev_window,
}
use jove.Window.Neighbours.{Found, prev_window-Found, next_window-Found}
use jove.Window.Tiled.{IsTiled, divided-IsTiled, handed_on, exchange-IsTiled}

-- What is called on the windows, with its arguments.
pub data Operation : Type 0 where
  split : ℕ → ℤ → Operation
  delete : ℕ → Operation
  grow : ℕ → Operation
  shrink : ℕ → Operation
  to_next : Bool → Operation
  to_prev : Bool → Operation

abbrev pub perform : Operation → Windows → Outcome Windows
perform (split k n) = div_wind k n
perform (delete k) = del_wind k
perform (grow n) = grow_window n
perform (shrink n) = shr_window n
perform (to_next asking) = to_next_window asking
perform (to_prev asking) = to_prev_window asking

abbrev pub perform_all : List Operation → Windows → Windows
perform_all [] s = s
perform_all (o ∷ os) s = perform_all os (final (perform o s))

module _ (rows : ℕ) (s : Windows) (v : IsTiled rows s) where
  div_wind-IsTiled : (k : ℕ) (n : ℤ) → IsTiled rows (final (div_wind k n s))
  unfolding div_wind
  div_wind-IsTiled k n = go (find_window k s.ring) refl
    where
      count : ℕ
      count = elim n [ pos m ↦ if ltb m 1 then 1 else m | negsuc m ↦ 1 ]

      go : (o : Option Window) → find_window k s.ring ≡ o → IsTiled rows (final (div_wind k n s))
      go none e = rw (div_wind, e) v
      go (some wp) e = elim (Bool-cases (ltb (wp.height / (count + 1)) 2)) [
        | inl small ↦ rw (div_wind, e, small) v
        | inr room ↦
            rw (div_wind, e, room)
              (divided-IsTiled rows k count s wp v e
                (ltb_false→le (wp.height / (count + 1)) 2 room))
      ]

  -- The window that inherits is another one.
  heir-Found :
      (k : ℕ)
      → Found k s.ring
      → one_windp s.ring ≡ false
      → ((if first_id k s.ring == k then next_window k s.ring else prev_window k s.ring) ≢ k)
        × Found
            (if first_id k s.ring == k then next_window k s.ring else prev_window k s.ring)
            s.ring
  heir-Found k f several = elim (Bool-cases (first_id k s.ring == k)) [
    | inl first ↦ rw (first) (next_window-Found k s.ring v.distinct f several)
    | inr later ↦ rw (later) (prev_window-Found k s.ring v.distinct f several)
  ]

  pub del_wind-IsTiled : (k : ℕ) → IsTiled rows (final (del_wind k s))
  unfolding del_wind
  del_wind-IsTiled k = elim (Bool-cases (one_windp s.ring)) [
    | inl one ↦ rw (del_wind, one) v
    | inr several ↦ go several (find_window k s.ring) refl
  ]
    where
      go :
          one_windp s.ring ≡ false
          → (o : Option Window) → find_window k s.ring ≡ o
          → IsTiled rows (final (del_wind k s))
      go several none e = rw (del_wind, several, e) v
      go several (some wp) e =
          let (ne, found) = heir-Found k (wp, e) several in
          rw (del_wind, several, e) (handed_on rows k _ s wp v e ne found)

  wind_size-IsTiled : (k : ℕ) (inc : ℤ) → Found k s.ring → IsTiled rows (final (wind_size k inc s))
  unfolding wind_size
  wind_size-IsTiled k inc f = elim (Bool-cases (one_windp s.ring)) [
    | inl one ↦ rw (wind_size, one) v
    | inr several ↦ go inc several (prev_window-Found k s.ring v.distinct f several)
  ]
    where
      go :
          (inc : ℤ)
          → one_windp s.ring ≡ false
          → (prev_window k s.ring ≢ k) × Found (prev_window k s.ring) s.ring
          → IsTiled rows (final (wind_size k inc s))
      go (pos zero) several other = rw (wind_size, several) v
      go (pos (suc n)) several (ne, (w, e)) = elim (Bool-cases (ltb w.height (suc n + 2))) [
        | inl small ↦ rw (wind_size, several, e, small) v
        | inr room ↦
            rw (wind_size, several, e, room)
              (exchange-IsTiled rows (prev_window k s.ring) k (suc n) s w v e
                (ltb_false→le w.height (suc n + 2) room) (λ e. ne (sym e)) f)
      ]
      go (negsuc n) several (ne, found) =
          let (w, e) = f in
          elim (Bool-cases (ltb w.height (suc n + 2))) [
            | inl small ↦ rw (wind_size, several, e, small) v
            | inr room ↦
                rw (wind_size, several, e, room)
                  (exchange-IsTiled rows k (prev_window k s.ring) (suc n) s w v e
                    (ltb_false→le w.height (suc n + 2) room) ne found)
          ]

  moved-IsTiled : (k : ℕ) → Found k s.ring → IsTiled rows (record s { cur = k })
  moved-IsTiled k f = record {
    tiled = v.tiled;
    tall = v.tall;
    distinct = v.distinct;
    handed = v.handed;
    held = f;
  }

  to_next_window-IsTiled : (asking : Bool) → IsTiled rows (final (to_next_window asking s))
  unfolding to_next_window
  to_next_window-IsTiled true = v
  to_next_window-IsTiled false = elim (Bool-cases (one_windp s.ring)) [
    | inl one ↦ rw (to_next_window, one) v
    | inr several ↦
        rw (to_next_window, several)
          (moved-IsTiled (next_window s.cur s.ring)
            ((next_window-Found s.cur s.ring v.distinct v.held several).1))
  ]

  to_prev_window-IsTiled : (asking : Bool) → IsTiled rows (final (to_prev_window asking s))
  unfolding to_prev_window
  to_prev_window-IsTiled true = v
  to_prev_window-IsTiled false = elim (Bool-cases (one_windp s.ring)) [
    | inl one ↦ rw (to_prev_window, one) v
    | inr several ↦
        rw (to_prev_window, several)
          (moved-IsTiled (prev_window s.cur s.ring)
            ((prev_window-Found s.cur s.ring v.distinct v.held several).1))
  ]

  perform-IsTiled : (o : Operation) → IsTiled rows (final (perform o s))
  unfolding grow_window shr_window
  perform-IsTiled (split k n) = div_wind-IsTiled k n
  perform-IsTiled (delete k) = del_wind-IsTiled k
  perform-IsTiled (grow n) = wind_size-IsTiled s.cur (pos n) v.held
  perform-IsTiled (shrink zero) = wind_size-IsTiled s.cur (pos zero) v.held
  perform-IsTiled (shrink (suc n)) = wind_size-IsTiled s.cur (negsuc n) v.held
  perform-IsTiled (to_next asking) = to_next_window-IsTiled asking
  perform-IsTiled (to_prev asking) = to_prev_window-IsTiled asking

-- Where the windows tile a screen of `rows` lines, they do so after any operations in any order,
-- those that complain included: the heights sum up to `rows`, each window keeps at least two lines,
-- the windows are distinct, and the current one is one of them.
pub perform_all-IsTiled :
    (rows : ℕ) (os : List Operation) (s : Windows)
    → IsTiled rows s
    → IsTiled rows (perform_all os s)
perform_all-IsTiled rows [] s v = v
perform_all-IsTiled rows (o ∷ os) s v =
    perform_all-IsTiled rows os (final (perform o s)) (perform-IsTiled rows s v o)
