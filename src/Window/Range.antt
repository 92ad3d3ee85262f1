-- ===== src/Window/Range.antt =====
-- `WindowRange` (wind.c): the columns of the mode line that stand for what a window shows.
use native.Mathlib.Nat.{
  mul-div-le, mul-add, lt_of_mul-lt-mul_left, mul-le-mul_left, mul-le-mul_right,
}
use jove.Base.{
  ℕ, zero, suc, ◌+◌, ◌-◌, ◌*◌, ◌/◌, ◌≤◌, ◌<◌, ◌≡◌, ◌≢◌, ◌↔◌, inl, inr, refl, ap, arith, false,
  Bool-cases, ltb, ltb→lt, ◌||◌, ◌==◌, if◌then◌else◌, min,
}

-- `struct LErange`, with the division by zero that the source can come to.
pub data Range : Type 0 where
  -- start and width are 0
  unmarked : Range
  marked : ℕ → ℕ → Range
  division_by_zero : Range

-- `rounding`, with `cols` for `totalcols_2` and `lines` for `total_2`.
unfoldable pub rounding : ℕ → ℕ → ℕ → ℕ
rounding shown lines cols = if ltb shown (lines / cols) then cols * shown / 2 else lines / 2

-- `abovecols` and `belowcols`.
unfoldable pub segment : ℕ → ℕ → ℕ → ℕ → ℕ
segment n lines cols round = if n == 0 then 0 else 1 + ((n - 1) * cols + round) / lines

-- The arithmetic of `WindowRange`: `above` and `below` count lines as `LinesTo` does, `below` those
-- from the top of the window to the end of the buffer, and `size` is WSIZE.
unfoldable pub window_range : ℕ → ℕ → ℕ → ℕ → Range
unfolding rounding segment
window_range above below size cols =
    let shown = min below size in
    let total = above + below in
    let lines = total - 2 in
    let start = segment above lines cols (rounding shown lines cols) in
    let end = segment (below - shown) lines cols (rounding shown lines cols) in
    if shown == total
    then unmarked
    else if cols == 0 || lines == 0
    then division_by_zero
    else marked start (cols + 2 - start - end)

-- A buffer of two lines of which a window shows one makes `WindowRange` divide by zero.
pub window_range-two_lines :
    (above below size cols : ℕ)
    → 0 < below
    → 0 < size
    → above + below ≡ 2
    → min below size ≢ 2
    → window_range above below size cols ≡ division_by_zero
unfolding window_range
window_range-two_lines above below size cols b s total part = ground arith

-- The quotients of two numbers with a small sum.
quotients_le :
    (x y lines cols : ℕ) → 0 < lines → x + y < lines * (cols + 1) → x / lines + y / lines ≤ cols
quotients_le x y lines cols h k =
    let lt : lines * (x / lines + y / lines) < lines * (cols + 1) =
      omega
        (arith, mul-div-le x lines, mul-div-le y lines, mul-add lines (x / lines) (y / lines)) in
    omega (arith, lt_of_mul-lt-mul_left lines {m = x / lines + y / lines} {n = cols + 1} lt)

rounding_le : (shown lines cols : ℕ) → 0 < cols → 2 * rounding shown lines cols ≤ lines
unfolding rounding
rounding_le shown lines cols h = elim (Bool-cases (ltb shown (lines / cols))) [
  | inl few ↦
      let lt : shown < lines / cols = ltb→lt shown (lines / cols) few in
      let product : cols * shown ≤ cols * (lines / cols) = mul-le-mul_left cols (omega arith) in
      rw (rounding, few) (omega (arith, mul-div-le lines cols, product))
  | inr many ↦ rw (rounding, many) (omega arith)
]

-- Both ends of the line, where there are lines above and lines below.
ends_le :
    (a b shown lines cols round : ℕ)
    → lines ≡ a + b + shown
    → 0 < shown
    → 0 < cols
    → 2 * round ≤ lines
    → (a * cols + round) / lines + (b * cols + round) / lines ≤ cols
ends_le a b shown lines cols round e s c r =
    let products = ap (λ t. t * cols) e in
    let more : 0 < shown * cols = grind arith in
    quotients_le (a * cols + round) (b * cols + round) lines cols (omega arith)
      (omega (arith, products, more))

-- One end alone.
end_le :
    (b lines cols round : ℕ)
    → b ≤ lines
    → 0 < lines
    → 2 * round ≤ lines
    → (b * cols + round) / lines ≤ cols
end_le b lines cols round h l r =
    let products : b * cols ≤ lines * cols = mul-le-mul_right cols h in
    omega (arith, quotients_le (b * cols + round) 0 lines cols l (omega (arith, products)))

segment-suc :
    (n lines cols round : ℕ) → segment (suc n) lines cols round ≡ 1 + (n * cols + round) / lines
unfolding segment
segment-suc n lines cols round =
    let some_lines : (suc n == 0) ≡ false = ground arith in
    let less : suc n - 1 ≡ n = omega arith in rw (segment, some_lines, less) refl

module _ (shown lines cols : ℕ) (s : 0 < shown) (c : 0 < cols) (l : 0 < lines) where
  segments_fit :
      (above end : ℕ)
      → lines + 2 ≡ above + end + shown
      → segment above lines cols (rounding shown lines cols)
          + segment end lines cols (rounding shown lines cols)
        ≤ cols + 2
  unfolding segment
  segments_fit zero zero e = omega arith
  segments_fit zero (suc b) e = omega (
    arith,
    segment-suc b lines cols (rounding shown lines cols),
    end_le b lines cols (rounding shown lines cols) (omega arith) l
        (rounding_le shown lines cols c),
  )
  segments_fit (suc a) zero e = omega (
    arith,
    segment-suc a lines cols (rounding shown lines cols),
    end_le a lines cols (rounding shown lines cols) (omega arith) l
        (rounding_le shown lines cols c),
  )
  segments_fit (suc a) (suc b) e = omega (
    arith,
    segment-suc a lines cols (rounding shown lines cols),
    segment-suc b lines cols (rounding shown lines cols),
    ends_le a b shown lines cols (rounding shown lines cols) (omega arith) s c
        (rounding_le shown lines cols c),
  )

  segment_empty : (n : ℕ) → (segment n lines cols (rounding shown lines cols) ≡ 0) ↔ (n ≡ 0)
  unfolding segment
  segment_empty n = ground arith

-- The mark and what is left and right of it fill the line, and a side is empty exactly where the
-- window shows the first or the last line.
abbrev pub Fits : ℕ → ℕ → ℕ → ℕ → Range → Type 0
Fits above below size cols r =
    (start : ℕ) × (width : ℕ) × (end : ℕ) × (r ≡ marked start width)
    × (start + width + end ≡ cols + 2)
    × ((start ≡ 0) ↔ (above ≡ 0))
    × ((end ≡ 0) ↔ (below ≤ size))

-- Where a window shows a part of a buffer of three lines or more, the mark of its mode line and the
-- columns left and right of it are as many as the columns of the line; the left side is empty
-- exactly where the first line is shown at the top, and the right side exactly where the last line
-- is shown.
pub window_range-Fits :
    (above below size cols : ℕ)
    → 0 < below
    → 0 < size
    → 0 < cols
    → 2 < above + below
    → min below size ≢ above + below
    → Fits above below size cols (window_range above below size cols)
unfolding window_range
window_range-Fits above below size cols b s c many part =
    let shown = min below size in
    let lines = above + below - 2 in
    let end = below - shown in
    let left = segment above lines cols (rounding shown lines cols) in
    let right = segment end lines cols (rounding shown lines cols) in
    let here : 0 < shown = omega arith in
    let rest : 0 < lines = omega arith in
    let fit = segments_fit shown lines cols here c rest above end (omega arith) in
    let empty = segment_empty shown lines cols here c rest end in
    let partial : (shown == above + below) ≡ false = ground arith in
    let some_cols : (cols == 0) ≡ false = ground arith in
    let some_lines : (lines == 0) ≡ false = ground arith in
    (
      left,
      cols + 2 - left - right,
      right,
      rw (window_range, partial, some_cols, some_lines) refl,
      omega (arith, fit),
      segment_empty shown lines cols here c rest above,
      ((λ e. omega (arith, empty.0 e)), (λ le. empty.1 (omega arith))),
    )
