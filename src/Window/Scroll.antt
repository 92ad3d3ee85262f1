-- ===== src/Window/Scroll.antt =====
-- Where the lines of a window begin (wind.c: `CentWind`, `CalcWind`, `in_window`; buf.c: `prev_line`,
-- `next_line`; util.c: `LineDist`).
use jove.Base.{
  ℕ, zero, suc, ◌+◌, ◌-◌, ◌/◌, ◌≤◌, ◌<◌, ◌≡◌, ◌≢◌, refl, sym, ◌∙◌, ap, subst, arith, List, [], ◌∷◌,
  ◌++◌, Bool, true, false, Bool-cases, inl, inr, Option, none, some, leb, ◌==◌, if◌then◌else◌,
  length, append_assoc, length-append,
}
use jove.Base.Int.{ℤ, pos, negsuc, pos_part, neg_part, ◌+ℤ◌, ◌-ℤ◌}
use jove.Buffer.{Buffer, Line, LinePtr}
use jove.Region.{inorder_from}

-- The loops of `prev_line` and `next_line`; a pointer to a line of the buffer is the buffer with that
-- line as its current one.
unfoldable pub up_lines : ℕ → Buffer → Buffer
up_lines zero b = b
up_lines (suc n) b = elim b.above [
  | [] ↦ b
  | l ∷ ls ↦ up_lines n (record b { above = ls; here = l; below = b.here ∷ b.below })
]

unfoldable pub down_lines : ℕ → Buffer → Buffer
down_lines zero b = b
down_lines (suc n) b = elim b.below [
  | [] ↦ b
  | l ∷ ls ↦ down_lines n (record b { above = b.here ∷ b.above; here = l; below = ls })
]

unfoldable pub prev_line : ℤ → Buffer → Buffer
unfolding up_lines down_lines
prev_line (pos n) b = up_lines n b
prev_line (negsuc n) b = down_lines (suc n) b

unfoldable pub line_dist : Buffer → LinePtr → ℕ
unfolding inorder_from
line_dist b endp = elim (inorder_from b 0 endp 0) [ none ↦ 0 | some (below, diff) ↦ diff ]

-- `CentWind`: the new top, for the line `b` and the size WSIZE of the window.
unfoldable pub cent_wind : ℕ → Buffer → Buffer
unfolding prev_line
cent_wind wsize b = prev_line (pos (wsize / 2)) b

unfoldable pub scr_step : ℤ → ℕ → ℤ
unfolding ◌+ℤ◌ ◌-ℤ◌
scr_step (pos n) wsize = pos n -ℤ pos 1
scr_step (negsuc n) wsize = pos wsize +ℤ negsuc n

-- How far above the line the new top lies; `up` is that point is above the window.
unfoldable pub top_offset : ℤ → ℕ → Bool → ℤ
unfolding scr_step ◌-ℤ◌
top_offset step wsize true = scr_step step wsize
top_offset step wsize false = pos wsize -ℤ pos 1 -ℤ scr_step step wsize

-- `CalcWind`, with ScrollStep, WSIZE and `w_top`.
unfoldable pub calc_wind : ℤ → ℕ → LinePtr → Buffer → Buffer
unfolding cent_wind inorder_from prev_line line_dist top_offset
calc_wind (pos zero) wsize top b = cent_wind wsize b
calc_wind step wsize top b = elim (inorder_from b 0 top 0) [
  | none ↦ cent_wind wsize b
  | some (up, diff) ↦
      let newtop = prev_line (top_offset step wsize up) b in
      if leb (wsize - 1) (line_dist newtop top) then cent_wind wsize b else newtop
]

-- The loop of `in_window`, over `n` lines, and the whole, with `FLine`.
unfoldable pub screen_line : ℕ → ℕ → LinePtr → List Line → Option ℕ
screen_line zero i k ls = none
screen_line (suc n) i k [] = none
screen_line (suc n) i k (l ∷ ls) =
    let rest = screen_line n (suc i) k ls in if l.id == k then some i else rest

unfoldable pub in_window : ℕ → ℕ → Buffer → LinePtr → Option ℕ
unfolding screen_line
in_window fline wsize top k = screen_line wsize fline k (top.here ∷ top.below)

-- Some screen line of the window.
abbrev pub Visible : ℕ → ℕ → Option ℕ → Type 0
Visible fline wsize o = (i : ℕ) × (o ≡ some i) × (fline ≤ i) × (i < fline + wsize)

-- The lines from a line above on, down to the line where it began.
abbrev Above : ℕ → Buffer → Buffer → Type 0
Above n u b = (mid : List Line) × (u.here ∷ u.below ≡ mid ++ b.here ∷ b.below) × (length mid ≤ n)

up_lines-Above : (n : ℕ) (b : Buffer) → Above n (up_lines n b) b
unfolding up_lines
up_lines-Above zero b = ([], refl, omega arith)
up_lines-Above (suc n) b = go b.above refl (up_lines-Above n)
  where
    go :
        (above : List Line)
        → b.above ≡ above
        → ((b : Buffer) → Above n (up_lines n b) b)
        → Above (suc n) (up_lines (suc n) b) b
    go [] e up = rw (up_lines, e) ([], refl, omega arith)
    go (l ∷ ls) e up =
        let (mid, e1, le) = up (record b { above = ls; here = l; below = b.here ∷ b.below }) in
        rw (up_lines, e)
          (
            mid ++ l ∷ [],
            e1 ∙ sym (append_assoc mid (l ∷ []) (b.here ∷ b.below)),
            omega (arith, length-append mid (l ∷ []), le),
          )

screen_line-Visible :
    (n i : ℕ) (k : LinePtr) (mid : List Line) (l : Line) (ls : List Line)
    → l.id ≡ k
    → length mid < n
    → Visible i n (screen_line n i k (mid ++ l ∷ ls))
unfolding screen_line
screen_line-Visible zero i k mid l ls e lt = absurd (omega arith)
screen_line-Visible (suc n) i k [] l ls e lt =
    let here : (l.id == k) ≡ true = ground arith in
    rw (screen_line, here) (i, refl, omega arith, omega arith)
screen_line-Visible (suc n) i k (x ∷ mid) l ls e lt = elim (Bool-cases (x.id == k)) [
  | inl same ↦ rw (screen_line, same) (i, refl, omega arith, omega arith)
  | inr other ↦
      let (j, ej, le, lt') = screen_line-Visible n (suc i) k mid l ls e (omega arith) in
      rw (screen_line, other) (j, ej, omega (arith, le), omega (arith, lt'))
]

-- A line is in the window while the top lies less than a window above it.
prev_line-Visible :
    (fline wsize n : ℕ) (b : Buffer)
    → n < wsize
    → Visible fline wsize (in_window fline wsize (prev_line (pos n) b) b.here.id)
unfolding in_window prev_line
prev_line-Visible fline wsize n b lt =
    let (mid, e, le) = up_lines-Above n b in
    subst (λ ls. Visible fline wsize (screen_line wsize fline b.here.id ls)) (sym e)
      (screen_line-Visible wsize fline b.here.id mid b.here b.below refl (omega arith))

-- Steps of a window at most.
abbrev pub Moderate : ℤ → ℕ → Type 0
Moderate step wsize = (pos_part step ≤ wsize) × (neg_part step ≤ wsize)

top_offset-Moderate :
    (step : ℤ) (wsize : ℕ) (up : Bool)
    → step ≢ pos 0
    → Moderate step wsize
    → (n : ℕ) × (top_offset step wsize up ≡ pos n) × (n < wsize)
unfolding top_offset scr_step ◌+ℤ◌ ◌-ℤ◌
top_offset-Moderate (pos zero) wsize up ne m = absurd (ne refl)
top_offset-Moderate (pos (suc n)) wsize true ne m = (n, ground arith, omega arith)
top_offset-Moderate (pos (suc n)) wsize false ne m = (wsize - 1 - n, ground arith, omega arith)
top_offset-Moderate (negsuc n) wsize true ne m = (wsize - 1 - n, ground arith, omega arith)
top_offset-Moderate (negsuc n) wsize false ne m = (n, ground arith, omega arith)

module _ (fline wsize : ℕ) (top : LinePtr) (b : Buffer) (some_lines : 0 < wsize) where
  -- The line of `b` is in the window that begins with a line.
  abbrev Shown : Buffer → Type 0
  Shown u = Visible fline wsize (in_window fline wsize u b.here.id)

  cent_wind-Shown : Shown (cent_wind wsize b)
  unfolding cent_wind
  cent_wind-Shown = prev_line-Visible fline wsize (wsize / 2) b (omega arith)

  -- The choice that `CalcWind` makes.
  choice-Shown :
      (step : ℤ) (o : Option (Bool × ℕ))
      → step ≢ pos 0
      → Moderate step wsize
      → Shown (elim o [
        | none ↦ cent_wind wsize b
        | some (up, diff) ↦
            let newtop = prev_line (top_offset step wsize up) b in
            if leb (wsize - 1) (line_dist newtop top) then cent_wind wsize b else newtop
      ])
  choice-Shown step none ne m = cent_wind-Shown
  choice-Shown step (some (up, diff)) ne m =
      let (n, e, lt) = top_offset-Moderate step wsize up ne m in
      elim (Bool-cases (leb (wsize - 1) (line_dist (prev_line (top_offset step wsize up) b) top))) [
        | inl far ↦ rw (far) cent_wind-Shown
        | inr near ↦
            rw (near)
              (subst (λ d. Shown (prev_line d b)) (sym e) (prev_line-Visible fline wsize n b lt))
      ]

-- Where ScrollStep is at most the size of the window, whichever its sign, the line for which
-- `CalcWind` chooses a new top is then in the window, wherever the old top was.
pub calc_wind-Visible :
    (fline wsize : ℕ) (step : ℤ) (top : LinePtr) (b : Buffer)
    → 0 < wsize
    → Moderate step wsize
    → Visible fline wsize (in_window fline wsize (calc_wind step wsize top b) b.here.id)
unfolding calc_wind
calc_wind-Visible fline wsize (pos zero) top b some_lines m =
    cent_wind-Shown fline wsize top b some_lines
calc_wind-Visible fline wsize (pos (suc n)) top b some_lines m =
    choice-Shown fline wsize top b some_lines (pos (suc n)) (inorder_from b 0 top 0)
      (λ e. omega (arith, ap pos_part e)) m
calc_wind-Visible fline wsize (negsuc n) top b some_lines m =
    choice-Shown fline wsize top b some_lines (negsuc n) (inorder_from b 0 top 0)
      (λ e. omega (arith, ap neg_part e)) m
