-- ===== src/Window.antt =====
-- Windows (wind.c): the ring of windows with their heights.
pub mod Range
pub mod Ring
pub mod Neighbours
pub mod Tiled
pub mod Scroll
pub mod Commands
pub mod Alone
use jove.Base.{
  ℕ, zero, suc, ◌+◌, ◌-◌, ◌/◌, List, [], ◌∷◌, Bool, true, false, Option, none, some, ltb, ◌==◌,
  if◌then◌else◌, length,
}
use jove.Base.Int.{ℤ, pos, negsuc}
use jove.Outcome.{Outcome, ◌>>=◌, done, jump, bell, only_window, window_too_small, stray_window}

-- `struct window`: its address, the height with the mode line, and the buffer. The place in the
-- buffer that it shows belongs to redisplay.
pub record Window : Type 0 where
  pub id : ℕ
  pub height : ℕ
  pub buf : ℕ

-- The ring from `fwind` on, `curwind`, and the address of the next window.
pub record Windows : Type 0 where
  pub ring : List Window
  pub cur : ℕ
  pub fresh : ℕ

unfoldable pub find_window : ℕ → List Window → Option Window
find_window k [] = none
find_window k (w ∷ ws) = if w.id == k then some w else find_window k ws

-- An assignment through a pointer to a window.
unfoldable pub at_window : ℕ → (Window → Window) → List Window → List Window
at_window k f [] = []
at_window k f (w ∷ ws) = if w.id == k then f w ∷ ws else w ∷ at_window k f ws

unfoldable pub unlink : ℕ → List Window → List Window
unlink k [] = []
unlink k (w ∷ ws) = if w.id == k then ws else w ∷ unlink k ws

unfoldable pub link_after : ℕ → Window → List Window → List Window
link_after k new [] = []
link_after k new (w ∷ ws) = if w.id == k then w ∷ new ∷ ws else w ∷ link_after k new ws

-- `w_prev` and `w_next`, in a ring whose window before the first one is `last`.
unfoldable pub prev_id : ℕ → ℕ → List Window → ℕ
prev_id last k [] = last
prev_id last k (w ∷ ws) = if w.id == k then last else prev_id w.id k ws

unfoldable pub last_id : ℕ → List Window → ℕ
last_id k [] = k
last_id k (w ∷ ws) = last_id w.id ws

unfoldable pub prev_window : ℕ → List Window → ℕ
unfolding prev_id last_id
prev_window k ws = prev_id (last_id k ws) k ws

abbrev pub first_id : ℕ → List Window → ℕ
first_id k [] = k
first_id k (w ∷ ws) = w.id

unfoldable pub next_id : ℕ → ℕ → List Window → ℕ
next_id first k [] = first
next_id first k (w ∷ ws) = if w.id == k then first_id first ws else next_id first k ws

unfoldable pub next_window : ℕ → List Window → ℕ
unfolding next_id
next_window k ws = next_id (first_id k ws) k ws

-- `one_windp`.
abbrev pub one_windp : List Window → Bool
one_windp [] = false
one_windp (w ∷ []) = true
one_windp (w ∷ w' ∷ ws) = false

abbrev pub taller : ℕ → Window → Window
taller n w = record w { height = w.height + n }

abbrev pub shorter : ℕ → Window → Window
shorter n w = record w { height = w.height - n }

-- The loop of `div_wind`, for `n` new windows of height `amt` taken from the window `wp`.
unfoldable pub divide : ℕ → ℕ → Window → ℕ → Windows → Windows
unfolding at_window link_after
divide zero amt wp latest s = s
divide (suc n) amt wp latest s =
    let new : Window = record { id = s.fresh; height = amt; buf = wp.buf } in
    divide n amt wp s.fresh (record s {
      ring = link_after latest new (at_window wp.id (shorter amt) s.ring);
      fresh = s.fresh + 1;
    })

-- `div_wind`.
unfoldable pub div_wind : ℕ → ℤ → Windows → Outcome Windows
unfolding find_window divide
div_wind k n s =
    let n' : ℕ = elim n [ pos m ↦ if ltb m 1 then 1 else m | negsuc m ↦ 1 ] in
    elim (find_window k s.ring) [
      | none ↦ jump stray_window s
      | some wp ↦
          if ltb (wp.height / (n' + 1)) 2
          then jump window_too_small s
          else done (divide n' (wp.height / (n' + 1)) wp k s)
    ]

-- `del_wind`: the window before it inherits the space, the one behind it where there is none
-- above.
unfoldable pub del_wind : ℕ → Windows → Outcome Windows
unfolding find_window at_window unlink prev_window next_window
del_wind k s =
    let heir = if first_id k s.ring == k then next_window k s.ring else prev_window k s.ring in
    if one_windp s.ring then jump only_window s else elim (find_window k s.ring) [
      | none ↦ jump stray_window s
      | some wp ↦ done (record s {
        ring = at_window heir (taller wp.height) (unlink k s.ring);
        cur = if s.cur == k then heir else s.cur;
      })
    ]

-- `w->w_height += inc; w->w_prev->w_height -= inc;` on the heights before.
unfoldable pub exchange : ℕ → ℕ → ℕ → Windows → Windows
unfolding at_window
exchange from to n s = record s {
  ring = at_window to (taller n) (at_window from (shorter n) s.ring);
}

-- `WindSize`.
unfoldable pub wind_size : ℕ → ℤ → Windows → Outcome Windows
unfolding find_window prev_window exchange
wind_size k inc s =
    let p = prev_window k s.ring in
    if one_windp s.ring then jump only_window s else elim inc [
      | pos zero ↦ done s
      | pos (suc n) ↦ elim (find_window p s.ring) [
        | none ↦ jump stray_window s
        | some w ↦
            if ltb w.height (suc n + 2)
            then jump window_too_small s
            else done (exchange p k (suc n) s)
      ]
      | negsuc n ↦ elim (find_window k s.ring) [
        | none ↦ jump stray_window s
        | some w ↦
            if ltb w.height (suc n + 2)
            then jump window_too_small s
            else done (exchange k p (suc n) s)
      ]
    ]

-- `GrowWindowCmd` and `ShrWindow`, with the size of the argument.
unfoldable pub grow_window : ℕ → Windows → Outcome Windows
unfolding wind_size
grow_window n s = wind_size s.cur (pos n) s

unfoldable pub shr_window : ℕ → Windows → Outcome Windows
unfolding wind_size
shr_window zero s = wind_size s.cur (pos zero) s
shr_window (suc n) s = wind_size s.cur (negsuc n) s

-- `NextWindow` and `PrevWindow`; the parameter is `Asking`.
unfoldable pub to_next_window : Bool → Windows → Outcome Windows
unfolding next_window
to_next_window asking s =
    if asking
    then jump bell s
    else if one_windp s.ring
    then jump only_window s
    else done (record s { cur = next_window s.cur s.ring })

unfoldable pub to_prev_window : Bool → Windows → Outcome Windows
unfolding prev_window
to_prev_window asking s =
    if asking
    then jump bell s
    else if one_windp s.ring
    then jump only_window s
    else done (record s { cur = prev_window s.cur s.ring })

-- The loop of `OneWindow`, for at most `n` windows.
unfoldable pub one_window : ℕ → Windows → Outcome Windows
unfolding next_window del_wind
one_window zero s = done s
one_window (suc n) s =
    let next = next_window s.cur s.ring in
    let rest = del_wind next s >>= one_window n in if next == s.cur then done s else rest
