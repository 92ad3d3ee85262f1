-- ===== src/Columns/Fars.antt =====
-- `how_far` undoes `calc_pos`.
use jove.Base.{
  ℕ, zero, suc, ◌+◌, ◌≤◌, ◌<◌, ◌≡◌, ◌≢◌, sym, ◌∙◌, [], ◌∷◌, true, false, leb, arith, length,
}
use native.Mathlib.Nat.{mod-lt, add-zero}
use jove.Buffer.{Text}
use jove.Columns.{char_width, calc_from, calc_pos, how_far_from, how_far, tab_dist}

pub tab_dist-pos : (tab col : ℕ) → tab ≢ 0 → 0 < tab_dist tab col
tab_dist-pos tab col h = omega (arith, mod-lt col {m = tab} (omega arith))

pub char_width-pos : (tab col c : ℕ) → 0 < char_width tab col c
unfolding char_width
char_width-pos tab col c = ground (arith, tab_dist-pos tab col)

calc_from-ge : (tab col : ℕ) (t : Text) (n : ℕ) → col ≤ calc_from tab col t n
unfolding calc_from
calc_from-ge tab col [] n = omega arith
calc_from-ge tab col (c ∷ cs) zero = omega arith
calc_from-ge tab col (c ∷ cs) (suc n) =
    omega (arith, calc_from-ge tab (col + char_width tab col c) cs n)

how_far_from-calc_from :
    (tab col i : ℕ) (t : Text) (n : ℕ)
    → n ≤ length t
    → how_far_from tab col i t (calc_from tab col t n) ≡ i + n
unfolding how_far_from calc_from
how_far_from-calc_from tab col i [] n h = omega arith
how_far_from-calc_from tab col i (c ∷ cs) zero h =
    let f : leb (col + char_width tab col c) col ≡ false =
      ground (arith, char_width-pos tab col c) in
    rw f (sym (add-zero i))
how_far_from-calc_from tab col i (c ∷ cs) (suc n) h =
    let k = calc_from-ge tab (col + char_width tab col c) cs n in
    let t : leb (col + char_width tab col c) (calc_from tab (col + char_width tab col c) cs n)
        ≡ true =
      ground arith in
    let e : suc i + n ≡ i + suc n = omega arith in
    rw t (how_far_from-calc_from tab (col + char_width tab col c) (suc i) cs n (omega arith) ∙ e)

zero_first : (n : ℕ) → 0 + n ≡ n
zero_first n = omega arith

-- For any tab stop, `how_far` of the column that `calc_pos` gives for a place in the line is that
-- place.
pub how_far-calc_pos :
    (tab : ℕ) (t : Text) (n : ℕ) → n ≤ length t → how_far tab t (calc_pos tab t n) ≡ n
how_far-calc_pos tab t n h = how_far_from-calc_from tab 0 0 t n h ∙ zero_first n
