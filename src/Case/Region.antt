-- ===== src/Case/Region.antt =====
-- `case_reg` changes the case of the letters of a region, and nothing else (case.c).
use jove.Base.{
  ℕ, zero, suc, ◌+◌, ◌≤◌, ◌<◌, ◌≡◌, refl, sym, ◌∙◌, ap, arith, [], ◌∷◌, Bool, true, false, inl,
  some, length, take, drop, map, push_all,
}
use jove.Base.Int.{pos}
use jove.Buffer.{Buffer, Bufpos, Text, IsValid, SameRest, left, right}
use jove.Move.{f_char}
use jove.Move.Char.{gap, step_right, f_char-Moved, f_char-stays}
use jove.Region.{dot, set_dot}
use jove.Delete.{same_place}
use jove.Delete.View.{placed, set_dot-here, set_dot-upper}
use jove.Delete.Chars.{f_char-Before, other_place}
use jove.Region.Order.{fixorder-upper, fixorder-lower_below}
use jove.Outcome.{◌>>=◌, done}
use jove.Case.{case_step, case_loop, finished, case_ordered, case_reg}
use jove.Case.Shape.{f_char-next, f_char-SameShape, f_char-IsValid}
use jove.Case.Step.{cased_char, case_step-CasedAt}

-- The first `n` characters after point have changed their case, and point is behind them.
abbrev pub Cased : Bool → ℕ → Buffer → Buffer → Type 0
Cased up n b b' =
    gap b' ≡ (push_all (map (cased_char up) (take n (right b))) (left b), drop n (right b))

case_loop-suc :
    (m : ℕ) (up : Bool) (q : Bufpos) (b : Buffer)
    → same_place (dot b) q ≡ false
    → case_loop (suc m) up q b ≡ case_loop m up q (f_char (pos 1) (case_step up b))
unfolding case_loop
case_loop-suc m up q b e = rw (case_loop, e) refl

case_loop-here :
    (m : ℕ) (up : Bool) (q : Bufpos) (b : Buffer) → q ≡ dot b → case_loop (suc m) up q b ≡ some b
unfolding case_loop
case_loop-here m up q b e =
    let here : same_place (dot b) q ≡ true = ground (arith, e) in rw (case_loop, here) refl

case_loop-Cased :
    (up : Bool) (n m : ℕ) (q : Bufpos) (b : Buffer)
    → IsValid b
    → n ≤ length (right b)
    → n ≤ m
    → q ≡ dot (f_char (pos n) b)
    → (b' : Buffer) × (case_loop (suc m) up q b ≡ some b') × Cased up n b b'
case_loop-Cased up zero m q b v h k e =
    (b, case_loop-here m up q b (e ∙ ap dot (f_char-stays 0 b v.in_line (inl refl))), refl)
case_loop-Cased up (suc n) zero q b v h k e = absurd (omega arith)
case_loop-Cased up (suc n) (suc m) q b v h k e = go (right b) refl (case_loop-Cased up n m q)
  where
    go :
        (r : Text)
        → right b ≡ r
        → ((b : Buffer)
            → IsValid b
            → n ≤ length (right b)
            → n ≤ m
            → q ≡ dot (f_char (pos n) b)
            → (b' : Buffer) × (case_loop (suc m) up q b ≡ some b') × Cased up n b b')
        → (b' : Buffer) × (case_loop (suc (suc m)) up q b ≡ some b') × Cased up (suc n) b b'
    go [] er more = absurd (omega (arith, h, ap length er))
    go (d ∷ ds) er more =
        let b1 = case_step up b in
        let b2 = f_char (pos 1) b1 in
        let (v1, s1, g1) = case_step-CasedAt b v up d ds er in
        let g2 : gap b2 ≡ (cased_char up d ∷ left b, ds) =
          (f_char-Moved 1 b1 v1.in_line).1 ∙ ap step_right g1 in
        let e2 : q ≡ dot (f_char (pos n) b2) =
          e ∙ f_char-SameShape (suc n) b b1 s1 ∙ sym (ap dot (f_char-next n b1)) in
        let later = f_char-Before (suc n) b v (omega arith) (λ none_left. cc (none_left, er)) in
        let on : same_place (dot b) q ≡ false =
          ap (same_place (dot b)) e ∙ (other_place b (f_char (pos (suc n)) b) later).0 in
        let (b', e', g') =
          more b2 (f_char-IsValid 1 b1 v1) (omega (arith, h, ap length er, ap (λ g. length g.1) g2))
            (omega arith) e2 in
        (
          b',
          case_loop-suc (suc m) up q b on ∙ e',
          g'
              ∙ ap (λ g. (push_all (map (cased_char up) (take n g.1)) g.0, drop n g.1)) g2
              ∙ ap (λ r. (push_all (map (cased_char up) (take (suc n) r)) (left b), drop (suc n) r))
                  (sym er),
        )

placed_same : (b l : Buffer) → SameRest b l → placed b l ≡ b
placed_same b l s = rw (s.0, s.1, s.2) refl

-- From the upper of two places on.
from_upper :
    (up : Bool) (b b' c : Buffer) (q : Bufpos) (t : Bool)
    → set_dot (dot b) c ≡ done b
    → case_loop (suc (length (right b))) up q b ≡ some b'
    → case_ordered up c (dot b, q, t) ≡ done b'
unfolding case_ordered
from_upper up b b' c q t s e =
    ap (λ o. o >>= λ b1. finished b1 (case_loop (length (right b1) + 1) up q b1)) s
    ∙ ap (λ m. finished b (case_loop m up q b)) (omega arith)
    ∙ ap (finished b) e

-- In a well-formed buffer, between point and the place that is `n > 0` characters further on,
-- `case_reg` comes to its end and returns, with the region in upper or lower case and all else of
-- the text as it was; point is then at the end of the region. It does so whichever of the two places
-- is given first and is that of point.
pub case_reg-Cased :
    (up : Bool) (n : ℕ) (b : Buffer)
    → IsValid b
    → 0 < n
    → n ≤ length (right b)
    → (b' : Buffer) × (case_reg (dot b) (dot (f_char (pos n) b)) up b ≡ done b')
      × (case_reg (dot (f_char (pos n) b)) (dot b) up (f_char (pos n) b) ≡ done b')
      × Cased up n b b'
unfolding case_reg
case_reg-Cased up n b v p h =
    let l = f_char (pos n) b in
    let (b', e, g) = case_loop-Cased up n (length (right b)) (dot l) b v h h refl in
    let (hl, _, r, s) = f_char-Moved n b v.in_line in
    let later = f_char-Before n b v p (λ none_right. omega (arith, p, h, ap length none_right)) in
    (
      b',
      ap (case_ordered up b) (fixorder-upper b l v.distinct later)
          ∙ from_upper up b b' b (dot l) false (set_dot-here b l v.distinct r v.in_line) e,
      ap (case_ordered up l) (fixorder-lower_below b l v.distinct later)
          ∙ from_upper up b b' l (dot l) true
              (set_dot-upper b l v.distinct r v.in_line ∙ ap done (placed_same b l s)) e,
      g,
    )
