-- ===== src/Examples/Windows.antt =====
-- Windows.
use jove.Base.{none, ◌≡◌, refl, [], ◌∷◌, false, arith}
use jove.Base.Int.{pos, negsuc, ◌+ℤ◌, ◌-ℤ◌}
use jove.Outcome.{done, jump, window_too_small}
use jove.Window.{Windows, div_wind, wind_size, one_window, find_window}
use jove.Window.Range.{marked, division_by_zero, window_range, Fits, window_range-Fits}
use jove.Buffer.{Buffer, line_at}
use jove.Region.{inorder_from, outward}
use jove.Window.Scroll.{
  up_lines, down_lines, prev_line, line_dist, scr_step, top_offset, calc_wind, in_window,
  screen_line, Visible, calc_wind-Visible,
}
use jove.Window.Tiled.{IsTiled}
use jove.Window.Commands.{split, delete, shrink, to_next, perform_all, perform_all-IsTiled}
use jove.Window.Alone.{Alone, one_window-Alone}

-- A screen of 23 lines in two windows.
abbrev two_windows : Windows
two_windows = record {
  ring = record { id = 0; height = 12; buf = 5 } ∷ record { id = 1; height = 11; buf = 6 } ∷ [];
  cur = 1;
  fresh = 2;
}

two_windows-IsTiled : IsTiled 23 two_windows
unfolding find_window
two_windows-IsTiled = record {
  tiled = refl;
  tall = (omega arith, (omega arith, tt));
  distinct = (((λ e. omega arith), tt), (tt, tt));
  handed = (omega arith, (omega arith, tt));
  held = (_, refl);
}

perform_all-IsTiled_example :
    IsTiled 23
      (perform_all (split 0 (pos 2) ∷ shrink 4 ∷ delete 0 ∷ to_next false ∷ []) two_windows)
perform_all-IsTiled_example =
    perform_all-IsTiled 23 (split 0 (pos 2) ∷ shrink 4 ∷ delete 0 ∷ to_next false ∷ []) two_windows
      two_windows-IsTiled

one_window-Alone_example : Alone 23 1 (one_window 3 two_windows)
one_window-Alone_example = one_window-Alone 23 two_windows two_windows-IsTiled

window_range-Fits_example : Fits 40 30 20 77 (window_range 40 30 20 77)
window_range-Fits_example =
    window_range-Fits 40 30 20 77 (omega arith) (omega arith) (omega arith) (omega arith)
      (λ e. omega arith)

-- The mark can be empty, though the window shows lines.
no_mark : window_range 3 230 2 77 ≡ marked 2 0
unfolding window_range
no_mark = refl

split_twice :
    div_wind 0 (pos 2) two_windows
    ≡ done (record {
      ring =
          record { id = 0; height = 4; buf = 5 }
          ∷ record { id = 2; height = 4; buf = 5 }
          ∷ record { id = 3; height = 4; buf = 5 }
          ∷ record { id = 1; height = 11; buf = 6 }
          ∷ [];
      cur = 1;
      fresh = 4;
    })
unfolding div_wind
split_twice = refl

no_room : wind_size 1 (negsuc 9) two_windows ≡ jump window_too_small two_windows
unfolding wind_size
no_room = refl

-- Point is in the first of five lines.
abbrev five_lines : Buffer
five_lines = record {
  above = [];
  here = line_at 0 [];
  below = line_at 1 [] ∷ line_at 2 [] ∷ line_at 3 [] ∷ line_at 4 [] ∷ [];
  curchar = 0;
  marks = [];
  fresh = 5;
  modified = false;
}

calc_wind-Visible_example : Visible 7 3 (in_window 7 3 (calc_wind (negsuc 1) 3 2 five_lines) 0)
calc_wind-Visible_example =
    calc_wind-Visible 7 3 (negsuc 1) 2 five_lines (omega arith) (omega arith, omega arith)

-- With a ScrollStep of -4 and a window of three lines the new top lies below point.
hopelessly_lost : in_window 7 3 (calc_wind (negsuc 3) 3 1 five_lines) 0 ≡ none
unfolding in_window screen_line calc_wind inorder_from outward prev_line up_lines down_lines
    line_dist top_offset scr_step ◌+ℤ◌ ◌-ℤ◌
hopelessly_lost = refl

-- A buffer of two lines of which one is shown.
two_lines : window_range 1 1 20 77 ≡ division_by_zero
unfolding window_range
two_lines = refl
