-- ===== src/Columns/Blanks.antt =====
-- `DelWtSpace` takes out the white space around point.
use jove.Base.{
  ℕ, zero, suc, ◌+◌, ◌≤◌, ◌≡◌, refl, sym, subst, ==_iff, append-nil, ap, ◌∙◌, [], ◌∷◌, ◌++◌, true,
  false, ◌==◌, ◌&&◌, arith, length, Bool-cases, inl, inr, take, drop, length-take, length-drop,
  length-append, take-append, drop-append, take-append-drop,
}
use native.Mathlib.Nat.{le_refl}
use jove.Buffer.{Buffer, Text, InLine}
use jove.Chars.{is_white}
use jove.Columns.{white_run, trimmed, del_wt_space}

-- All of the bytes are white.
abbrev pub AllWhite : Text → Type 0
AllWhite [] = Unit
AllWhite (c ∷ cs) = (is_white c ≡ true) × AllWhite cs

pub white_run-le : (t : Text) → white_run t ≤ length t
unfolding white_run
white_run-le [] = omega arith
white_run-le (c ∷ cs) = ground (arith, white_run-le cs)

pub trimmed-le : (t : Text) → trimmed t ≤ length t
unfolding trimmed
trimmed-le [] = omega arith
trimmed-le (c ∷ cs) = ground (arith, trimmed-le cs)

white_run-AllWhite : (t : Text) → AllWhite (take (white_run t) t)
unfolding white_run
white_run-AllWhite [] = tt
white_run-AllWhite (c ∷ cs) = elim (Bool-cases (is_white c)) [
  | inl w ↦ rw w (w, white_run-AllWhite cs)
  | inr b ↦ rw b tt
]

trimmed-AllWhite : (t : Text) → AllWhite (drop (trimmed t) t)
unfolding trimmed
trimmed-AllWhite [] = tt
trimmed-AllWhite (c ∷ cs) = elim (Bool-cases (trimmed cs == 0 && is_white c)) [
  | inl w ↦
      let z : trimmed cs ≡ 0 = ground arith in rw w (ground arith, rw z at (trimmed-AllWhite cs))
  | inr b ↦ rw b (trimmed-AllWhite cs)
]

-- A text does not begin with a white byte.
abbrev pub StartsDark : Text → Type 0
StartsDark [] = Unit
StartsDark (c ∷ cs) = is_white c ≡ false

-- A text does not end with one.
abbrev pub EndsDark : Text → Type 0
EndsDark [] = Unit
EndsDark (c ∷ []) = is_white c ≡ false
EndsDark (c ∷ d ∷ cs) = EndsDark (d ∷ cs)

white_run-StartsDark : (t : Text) → StartsDark (drop (white_run t) t)
unfolding white_run
white_run-StartsDark [] = tt
white_run-StartsDark (c ∷ cs) = elim (Bool-cases (is_white c)) [
  | inl w ↦ rw w (white_run-StartsDark cs)
  | inr b ↦ rw b b
]

EndsDark-cons :
    (c : ℕ) (t : Text) → (length t ≡ 0 → is_white c ≡ false) → EndsDark t → EndsDark (c ∷ t)
EndsDark-cons c [] h e = h refl
EndsDark-cons c (d ∷ t) h e = e

trimmed-EndsDark : (t : Text) → EndsDark (take (trimmed t) t)
unfolding trimmed
trimmed-EndsDark [] = tt
trimmed-EndsDark (c ∷ cs) = elim (Bool-cases (trimmed cs == 0 && is_white c)) [
  | inl w ↦ rw w tt
  | inr b ↦
      let l = length-take (trimmed cs) cs in
      let k = trimmed-le cs in
      rw b (EndsDark-cons c (take (trimmed cs) cs) (λ z. ground arith) (trimmed-EndsDark cs))
]

start-le : (b : Buffer) → trimmed (take b.curchar b.here.text) ≤ b.curchar
start-le b =
    omega (arith, trimmed-le (take b.curchar b.here.text), length-take b.curchar b.here.text)

length-between :
    (sp ep : ℕ) (t : Text)
    → sp ≤ ep
    → sp ≤ length t
    → (length (take sp t ++ drop ep t) ≤ length t) × (sp ≤ length (take sp t ++ drop ep t))
length-between sp ep t h k =
    let l = length-append (take sp t) (drop ep t) in
    let a = length-take sp t in let d = length-drop ep t in (omega arith, omega arith)

pub del_wt_space-InLine : (b : Buffer) → InLine b → InLine (del_wt_space b)
unfolding del_wt_space
del_wt_space-InLine b h =
    elim (Bool-cases (
      trimmed (take b.curchar b.here.text) == b.curchar + white_run (drop b.curchar b.here.text))) [
        | inl same ↦ rw same h
        | inr other ↦
            rw other
              (length-between _ _ b.here.text (omega (arith, start-le b))
                (omega (arith, start-le b))).1
      ]

pub length-del_wt_space :
    (b : Buffer) → InLine b → length (del_wt_space b).here.text ≤ length b.here.text
unfolding del_wt_space
length-del_wt_space b h =
    elim (Bool-cases (
      trimmed (take b.curchar b.here.text) == b.curchar + white_run (drop b.curchar b.here.text))) [
        | inl same ↦ rw same (omega arith)
        | inr other ↦
            rw other
              (length-between _ _ b.here.text (omega (arith, start-le b))
                (omega (arith, start-le b))).0
      ]

take-take : (n m : ℕ) (t : Text) → n ≤ m → take n (take m t) ≡ take n t
take-take zero m t h = refl
take-take (suc n) zero t h = absurd (omega arith)
take-take (suc n) (suc m) [] h = refl
take-take (suc n) (suc m) (x ∷ t) h = ap (x ∷◌) (take-take n m t (omega arith))

drop-nil : (n : ℕ) → drop {A = ℕ} n [] ≡ []
drop-nil zero = refl
drop-nil (suc n) = refl

drop-drop : (n m : ℕ) (t : Text) → drop n (drop m t) ≡ drop (m + n) t
drop-drop n zero t = let e : n ≡ 0 + n = omega arith in ap (λ k. drop k t) e
drop-drop n (suc m) [] = drop-nil n ∙ sym (drop-nil (suc m + n))
drop-drop n (suc m) (x ∷ t) =
    let e : suc (m + n) ≡ suc m + n = omega arith in drop-drop n m t ∙ ap (λ k. drop k (x ∷ t)) e

-- Two cuts of a line, one for its head and one for its tail.
module _ (t : Text) (c : ℕ) (h : c ≤ length t) where
  abbrev sp : ℕ
  sp = trimmed (take c t)

  abbrev ep : ℕ
  ep = c + white_run (drop c t)

  sp-le : sp ≤ c
  sp-le = omega (arith, trimmed-le (take c t), length-take c t)

  length-head : length (take sp t) ≡ sp
  length-head = omega (arith, length-take sp t, sp-le)

  kept_head : take sp (take c t) ≡ take sp (take sp t ++ drop ep t)
  kept_head = take-take sp c t sp-le ∙ sym (take-append (take sp t) (drop ep t) sp length-head)

  kept_tail : drop (white_run (drop c t)) (drop c t) ≡ drop sp (take sp t ++ drop ep t)
  kept_tail =
      drop-drop (white_run (drop c t)) c t
      ∙ sym (drop-append (take sp t) (drop ep t) sp length-head)

  -- The text before and after the cut, with what was taken out.
  head_cut : take c t ≡ take sp (take sp t ++ drop ep t) ++ drop sp (take c t)
  head_cut = sym (take-append-drop sp (take c t)) ∙ ap (λ s. s ++ drop sp (take c t)) kept_head

  tail_cut : drop c t ≡ take (white_run (drop c t)) (drop c t) ++ drop sp (take sp t ++ drop ep t)
  tail_cut =
      sym (take-append-drop (white_run (drop c t)) (drop c t))
      ∙ ap (take (white_run (drop c t)) (drop c t) ++◌) kept_tail

  -- Where there is nothing to take out.
  clean_head : sp ≡ ep → EndsDark (take c t)
  clean_head e =
      let z : sp ≡ c = omega (arith, sp-le) in
      subst EndsDark (ap (λ k. take k (take c t)) z ∙ take-take c c t (le_refl c))
        (trimmed-EndsDark (take c t))

  clean_tail : sp ≡ ep → StartsDark (drop c t)
  clean_tail e =
      let z : white_run (drop c t) ≡ 0 = omega (arith, sp-le) in
      subst StartsDark (ap (λ k. drop k (drop c t)) z) (white_run-StartsDark (drop c t))

-- What `DelWtSpace` has to give: some white space before point and some after it is gone, and
-- none is left next to point.
abbrev pub Cleaned : Buffer → Buffer → Type 0
Cleaned b b' =
    (w : Text) × (w' : Text) × AllWhite w
    × AllWhite w'
    × (take b.curchar b.here.text ≡ take b'.curchar b'.here.text ++ w)
    × (drop b.curchar b.here.text ≡ w' ++ drop b'.curchar b'.here.text)
    × EndsDark (take b'.curchar b'.here.text)
    × StartsDark (drop b'.curchar b'.here.text)
    × (b'.above ≡ b.above)
    × (b'.below ≡ b.below)
    × (b'.here.id ≡ b.here.id)

-- With point within its line, `DelWtSpace` takes out white space alone, on both sides of point and
-- all of it: the text that is left before point does not end with white space, and the text after
-- point does not begin with it. The other lines stay, and so does the address of the line.
pub del_wt_space-Cleaned : (b : Buffer) → InLine b → Cleaned b (del_wt_space b)
unfolding del_wt_space
del_wt_space-Cleaned b h =
    elim (Bool-cases (sp b.here.text b.curchar h == ep b.here.text b.curchar h)) [
      | inl same ↦
          let e = (==_iff _ _).0 same in
          rw same (
            [],
            [],
            tt,
            tt,
            sym (append-nil (take b.curchar b.here.text)),
            refl,
            clean_head b.here.text b.curchar h e,
            clean_tail b.here.text b.curchar h e,
            refl,
            refl,
            refl,
          )
      | inr other ↦ rw other (
        drop (sp b.here.text b.curchar h) (take b.curchar b.here.text),
        take (white_run (drop b.curchar b.here.text)) (drop b.curchar b.here.text),
        trimmed-AllWhite (take b.curchar b.here.text),
        white_run-AllWhite (drop b.curchar b.here.text),
        head_cut b.here.text b.curchar h,
        tail_cut b.here.text b.curchar h,
        subst EndsDark (kept_head b.here.text b.curchar h)
            (trimmed-EndsDark (take b.curchar b.here.text)),
        subst StartsDark (kept_tail b.here.text b.curchar h)
            (white_run-StartsDark (drop b.curchar b.here.text)),
        refl,
        refl,
        refl,
      )
    ]
