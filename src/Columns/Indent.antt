-- ===== src/Columns/Indent.antt =====
-- `n_indent` brings point to its column.
use jove.Base.{
  ℕ, zero, suc, ◌+◌, ◌-◌, ◌≤◌, ◌<◌, ◌≡◌, ◌≢◌, refl, sym, subst, ap, ap₂, ◌∙◌, [], ◌∷◌, ◌++◌, true,
  ltb, ◌==◌, arith, length, Bool-cases, inl, inr, le_or_lt, take, drop, replicate, lt→ltb,
  ltb_false→le, length-take, length-replicate,
}
use jove.Base.Int.{pos, negsuc, sub_ℕ}
use jove.Buffer.{Buffer, Text, InLine, right, right_lines}
use jove.Chars.{is_print}
use jove.Outcome.{Outcome, done, jump, ◌>>=◌}
use jove.Insert.{insert_c, lbsize}
use jove.Insert.View.{ins_c-some, length_inserted, drop-inserted}
use jove.Columns.{
  char_width, calc_from, calc_pos, tab_dist, tab_char, space, fill_indent, n_indent, del_wt_space,
}
use jove.Columns.Blanks.{del_wt_space-InLine, length-del_wt_space}
use mathlib.Core.Path.{fun_ext}
use jove.Columns.Fars.{tab_dist-pos}

-- The column of a place hangs on what stands before it alone.
calc_from-take :
    (tab col : ℕ) (t : Text) (n : ℕ) → calc_from tab col (take n t) n ≡ calc_from tab col t n
unfolding calc_from
calc_from-take tab col [] zero = refl
calc_from-take tab col [] (suc n) = refl
calc_from-take tab col (c ∷ cs) zero = refl
calc_from-take tab col (c ∷ cs) (suc n) = calc_from-take tab (col + char_width tab col c) cs n

calc_from-append :
    (tab col : ℕ) (s t : Text) (n : ℕ)
    → calc_from tab col (s ++ t) (length s + n) ≡ calc_from tab (calc_from tab col s (length s)) t n
unfolding calc_from
calc_from-append tab col [] t n = ap (calc_from tab col t) (omega arith)
calc_from-append tab col (c ∷ cs) t n =
    let e : length (c ∷ cs) + n ≡ suc (length cs + n) = omega arith in
    rw e (calc_from-append tab (col + char_width tab col c) cs t n)

plus_zero : (n : ℕ) → n + 0 ≡ n
plus_zero n = omega arith

calc_from-start : (tab col : ℕ) (t : Text) → calc_from tab col t 0 ≡ col
unfolding calc_from
calc_from-start tab col [] = refl
calc_from-start tab col (c ∷ t) = refl

-- The column after some characters.
module _ (tab : ℕ) (b : Buffer) (h : InLine b) where
  calc_pos-inserted :
      (s t : Text)
      → calc_pos tab (take b.curchar b.here.text ++ (s ++ t)) (b.curchar + length s)
        ≡ calc_from tab (calc_pos tab b.here.text b.curchar) s (length s)
  calc_pos-inserted s t =
      let n : length (take b.curchar b.here.text) ≡ b.curchar =
        omega (arith, length-take b.curchar b.here.text) in
      ap (λ k. calc_pos tab (take b.curchar b.here.text ++ (s ++ t)) (k + length s)) (sym n)
      ∙ calc_from-append tab 0 (take b.curchar b.here.text) (s ++ t) (length s)
      ∙ ap₂ (λ col k. calc_from tab col (s ++ t) k)
          (ap (calc_from tab 0 (take b.curchar b.here.text)) n
            ∙ calc_from-take tab 0 b.here.text b.curchar)
          (sym (plus_zero (length s)))
      ∙ calc_from-append tab (calc_pos tab b.here.text b.curchar) s t 0
      ∙ calc_from-start tab _ t

-- Point has come to a column behind at most `k` new characters, with what stands after it unchanged.
abbrev pub At : ℕ → ℕ → ℕ → Buffer → Outcome Buffer → Type 0
At tab col k b (done b') =
    (calc_pos tab b'.here.text b'.curchar ≡ col)
    × InLine b'
    × (right b' ≡ right b)
    × (length b'.here.text + b.curchar ≡ length b.here.text + b'.curchar)
    × (b'.curchar ≤ b.curchar + k)
At tab col k b (jump j b') = ⊥

inserted-At :
    (tab c k : ℕ) (b : Buffer)
    → InLine b
    → length b.here.text + k + 1 ≤ lbsize
    → At tab
        (calc_from tab (calc_pos tab b.here.text b.curchar) (replicate k c) k)
        k
        b
        (insert_c c (pos k) b)
unfolding insert_c right
inserted-At tab c zero b h fits = (sym (calc_from-start tab _ []), h, refl, refl, omega arith)
inserted-At tab c (suc k) b h fits =
    let len = length_inserted c b.here.text b.curchar (suc k) h in
    rw (ins_c-some c b.here.text b.curchar (suc k) lbsize h (omega arith)) (
      ap
            (λ n.
              calc_pos tab
                (take b.curchar b.here.text ++ (replicate (suc k) c ++ drop b.curchar b.here.text))
                (b.curchar + n))
            (sym (length-replicate (suc k) c))
          ∙ calc_pos-inserted tab b h (replicate (suc k) c) (drop b.curchar b.here.text)
          ∙ ap (calc_from tab (calc_pos tab b.here.text b.curchar) (replicate (suc k) c))
              (length-replicate (suc k) c),
      omega (arith, len),
      ap (λ t. t ++ right_lines b.below) (drop-inserted c b.here.text b.curchar (suc k) h),
      omega (arith, len),
      omega arith,
    )

spaces_wide : (tab col k : ℕ) → calc_from tab col (replicate k space) k ≡ col + k
unfolding calc_from char_width is_print
spaces_wide tab col zero = omega arith
spaces_wide tab col (suc k) =
    let e : col + 1 + k ≡ col + suc k = omega arith in spaces_wide tab (col + 1) k ∙ e

tab_wide :
    (tab col : ℕ) → tab ≢ 0 → calc_from tab col (replicate 1 tab_char) 1 ≡ col + tab_dist tab col
unfolding calc_from char_width
tab_wide tab col h = ground arith

At-trans :
    (tab m n k k' : ℕ) (b : Buffer) (o : Outcome Buffer) (f : Buffer → Outcome Buffer)
    → At tab m k b o
    → ((b' : Buffer) → At tab m k b (done b') → At tab n k' b' (f b'))
    → At tab n (k + k') b (o >>= f)
At-trans tab m n k k' b (jump j b') f h g = h
At-trans tab m n k k' b (done b') f h g = follow (f b') (g b' h)
  where
    follow : (o : Outcome Buffer) → At tab n k' b' o → At tab n (k + k') b o
    follow (done b'') (c, i, r, l, m') = (c, i, r ∙ h.2, omega (arith, h.3), omega (arith, h.4))
    follow (jump j b'') a = a

At-mono :
    (tab n k k' : ℕ) (b : Buffer) (o : Outcome Buffer) → k ≤ k' → At tab n k b o → At tab n k' b o
At-mono tab n k k' b (done b') le (c, i, r, l, m) = (c, i, r, l, omega arith)
At-mono tab n k k' b (jump j b') le a = a

spaces-At :
    (tab goal col : ℕ) (b : Buffer)
    → InLine b
    → calc_pos tab b.here.text b.curchar ≡ col
    → length b.here.text + (goal - col) + 1 ≤ lbsize
    → At tab (col + (goal - col)) (goal - col) b (insert_c space (sub_ℕ goal col) b)
unfolding insert_c
spaces-At tab goal col b h e fits = elim (le_or_lt col goal) [
  | inl le ↦
      let z : sub_ℕ goal col ≡ pos (goal - col) = ground arith in
      subst (λ i. At tab (col + (goal - col)) (goal - col) b (insert_c space i b)) (sym z)
        (subst (λ n. At tab n (goal - col) b (insert_c space (pos (goal - col)) b))
          (ap (λ k. calc_from tab k (replicate (goal - col) space) (goal - col)) e
            ∙ spaces_wide tab col (goal - col))
          (inserted-At tab space (goal - col) b h fits))
  | inr gt ↦
      let z : sub_ℕ goal col ≡ negsuc (col - goal - 1) = ground arith in
      let n : col ≡ col + (goal - col) = omega arith in
      subst (λ i. At tab (col + (goal - col)) (goal - col) b (insert_c space i b)) (sym z)
        (e ∙ n, h, refl, refl, omega arith)
]

tab_step :
    (tab col : ℕ) (b : Buffer)
    → tab ≢ 0
    → InLine b
    → calc_pos tab b.here.text b.curchar ≡ col
    → length b.here.text + 2 ≤ lbsize
    → At tab (col + tab_dist tab col) 1 b (insert_c tab_char (pos 1) b)
tab_step tab col b nz h e fits =
    subst (λ n. At tab n 1 b (insert_c tab_char (pos 1) b))
      (ap (λ k. calc_from tab k (replicate 1 tab_char) 1) e ∙ tab_wide tab col nz)
      (inserted-At tab tab_char 1 b h (omega arith))

fill-At :
    (tab goal n col : ℕ) (b : Buffer)
    → tab ≢ 0
    → InLine b
    → calc_pos tab b.here.text b.curchar ≡ col
    → length b.here.text + (goal - col) + 1 ≤ lbsize
    → At tab (col + (goal - col)) (goal - col) b (fill_indent tab goal n col b)
unfolding fill_indent
fill-At tab goal zero col b nz h e fits = spaces-At tab goal col b h e fits
fill-At tab goal (suc n) col b nz h e fits = elim (Bool-cases (ltb goal (col + tab_dist tab col))) [
  | inl past ↦ rw past (spaces-At tab goal col b h e fits)
  | inr more ↦
      let le = ltb_false→le goal (col + tab_dist tab col) more in
      let wide = tab_dist-pos tab col nz in
      let same : col + tab_dist tab col + (goal - (col + tab_dist tab col)) ≡ col + (goal - col) =
        omega arith in
      rw more (
        At-mono tab (col + (goal - col)) (1 + (goal - (col + tab_dist tab col))) (goal - col) b _
          (omega arith)
          (At-trans tab (col + tab_dist tab col) (col + (goal - col)) 1
            (goal - (col + tab_dist tab col)) b (insert_c tab_char (pos 1) b)
            (fill_indent tab goal n (col + tab_dist tab col))
            (tab_step tab col b nz h e (omega arith))
            (λ b' (c, i, r, l, m).
              subst
                (λ k.
                  At tab k (goal - (col + tab_dist tab col)) b'
                    (fill_indent tab goal n (col + tab_dist tab col) b'))
                same (fill-At tab goal n (col + tab_dist tab col) b' nz i c (omega arith)))))
]

-- More rounds than there are columns to go change nothing.
fill_indent-enough :
    (tab goal n col : ℕ) (b : Buffer)
    → tab ≢ 0
    → goal < col + n
    → fill_indent tab goal n col b ≡ fill_indent tab goal (suc n) col b
unfolding fill_indent
fill_indent-enough tab goal zero col b nz h =
    let past : ltb goal (col + tab_dist tab col) ≡ true = lt→ltb _ _ (omega arith) in rw past refl
fill_indent-enough tab goal (suc n) col b nz h =
    elim (Bool-cases (ltb goal (col + tab_dist tab col))) [
      | inl past ↦ rw past refl
      | inr more ↦ rw more (
          ap (λ f. insert_c tab_char (pos 1) b >>= f)
            (fun_ext λ b'.
              fill_indent-enough tab goal n (col + tab_dist tab col) b' nz
                (omega (arith, tab_dist-pos tab col nz))))
    ]

-- In a line with room for the goal, `n_indent` brings point to the goal, or leaves it at the column
-- where it stands when the white space around it is gone, if that is further. What stands after
-- point does not change any more.
pub n_indent-At :
    (tab goal : ℕ) (b : Buffer)
    → InLine b
    → length b.here.text + goal + 1 ≤ lbsize
    → At tab
        (calc_pos tab (del_wt_space b).here.text (del_wt_space b).curchar
          + (goal - calc_pos tab (del_wt_space b).here.text (del_wt_space b).curchar))
        (goal - calc_pos tab (del_wt_space b).here.text (del_wt_space b).curchar)
        (del_wt_space b)
        (n_indent tab goal b)
unfolding n_indent
n_indent-At tab goal b h fits =
    let len = length-del_wt_space b h in
    let h' = del_wt_space-InLine b h in
    elim (Bool-cases (tab == 0)) [
      | inl z ↦ rw z (spaces-At tab goal _ (del_wt_space b) h' refl (omega arith))
      | inr nz ↦
          rw nz
            (fill-At tab goal (suc goal) _ (del_wt_space b) (ground arith) h' refl (omega arith))
    ]
