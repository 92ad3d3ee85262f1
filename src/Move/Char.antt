-- ===== src/Move/Char.antt =====
-- `f_char` and `b_char` move point along the characters of the buffer.
use jove.Base.{
  ℕ, zero, suc, ◌+◌, ◌-◌, ◌≤◌, ◌<◌, ◌≡◌, refl, ap, ◌∙◌, List, [], ◌∷◌, length, take, drop, arith,
  true, false, ◌==◌, Option, none, some, Bool-cases, ◌⊎◌, inl, inr, take-length, drop-length,
  length-append, length-drop, length-push_all, length-take,
}
use jove.Base.Int.{pos}
use jove.Buffer.{Buffer, Line, Text, left, right, left_lines, right_lines, InLine}
use Prim.Native.Nat.{zero-le}
use jove.Buffer.{Ahead, SameRest}
use jove.Buffer.View.{drop-lt, push_all-take-lt}
use native.Mathlib.Numerals.{add-one}
use jove.Base.{ap₂}
use jove.Buffer.Along.{Ahead-refl, Ahead-trans, SameRest-trans}
use jove.Move.{next_line_start, prev_line_end, f_char_step, b_char_step, rounds, f_char, b_char}

-- One character from the stack after point to the stack before it, and back.
abbrev pub Gap : Type 0
Gap = Text × Text

abbrev pub gap : Buffer → Gap
gap b = (left b, right b)

abbrev pub step_right : Gap → Gap
step_right (l, []) = (l, [])
step_right (l, c ∷ r) = (c ∷ l, r)

abbrev pub step_left : Gap → Gap
step_left ([], r) = ([], r)
step_left (c ∷ l, r) = (l, c ∷ r)

abbrev pub moves : (Gap → Gap) → ℕ → Gap → Gap
moves move zero g = g
moves move (suc n) g = moves move n (move g)

-- Within a line.
right_in_line :
    (b : Buffer)
    → b.curchar < length b.here.text
    → gap (record b { curchar = b.curchar + 1 }) ≡ step_right (gap b)
unfolding left right
right_in_line b h =
    rw (add-one, drop-lt b.curchar b.here.text 0 h)
      (ap₂ (λ l r. (l, r)) (push_all-take-lt b.curchar b.here.text (left_lines b.above) 0 h) refl)

-- What a round does: it makes the move, or it is at the edge, where there is none to make.
abbrev pub Moved : (Gap → Gap) → (Buffer → Buffer → Type 0) → Buffer → Option Buffer → Type 0
Moved move R b none = move (gap b) ≡ gap b
Moved move R b (some b') = InLine b' × (gap b' ≡ move (gap b)) × R b b' × SameRest b b'

next_line_start-Moved :
    (below : List Line) (b : Buffer)
    → b.curchar ≡ length b.here.text
    → Moved step_right Ahead
        (record b { below = below })
        (next_line_start (record b { below = below }))
unfolding next_line_start left right
next_line_start-Moved [] b h = rw (drop-length b.here.text b.curchar (omega arith))
next_line_start-Moved (l ∷ ls) b h =
    rw
      (
        drop-length b.here.text b.curchar (omega arith),
        take-length b.here.text b.curchar (omega arith),
      )
      (zero-le, refl, inr ([], refl, refl), (refl, refl, refl))

pub f_char_step-Moved : (b : Buffer) → InLine b → Moved step_right Ahead b (f_char_step b)
unfolding f_char_step
f_char_step-Moved b h = elim (Bool-cases (b.curchar == length b.here.text)) [
  | inl e ↦ rw e (next_line_start-Moved b.below b (ground arith))
  | inr e ↦
      rw e
        (ground arith, right_in_line b (ground arith), inl (refl, refl, refl), (refl, refl, refl))
]

abbrev pub Behind : Buffer → Buffer → Type 0
Behind b b' = Ahead b' b

-- Within a line.
left_in_line :
    (n : ℕ) (b : Buffer)
    → n < length b.here.text
    → gap (record b { curchar = n }) ≡ step_left (gap (record b { curchar = suc n }))
unfolding left right
left_in_line n b h =
    rw (drop-lt n b.here.text 0 h, push_all-take-lt n b.here.text (left_lines b.above) 0 h)

prev_line_end-Moved :
    (above : List Line) (b : Buffer)
    → b.curchar ≡ 0
    → Moved step_left Behind
        (record b { above = above })
        (prev_line_end (record b { above = above }))
unfolding prev_line_end left right
prev_line_end-Moved [] b h = rw h
prev_line_end-Moved (l ∷ ls) b h =
    rw
      (
        h,
        take-length l.text (length l.text) (omega arith),
        drop-length l.text (length l.text) (omega arith),
      )
      (omega arith, refl, inr ([], refl, refl), (refl, refl, refl))

b_char_step-Moved-at :
    (n : ℕ) (b : Buffer)
    → n ≤ length b.here.text
    → Moved step_left Behind (record b { curchar = n }) (b_char_step (record b { curchar = n }))
unfolding b_char_step
b_char_step-Moved-at zero b h = prev_line_end-Moved b.above (record b { curchar = 0 }) refl
b_char_step-Moved-at (suc n) b h =
    let positive : (suc n == 0) ≡ false = ground arith in
    let less : suc n - 1 ≡ n = omega arith in
    rw (positive, less)
      (omega arith, left_in_line n b h, inl (refl, refl, refl), (refl, refl, refl))

pub b_char_step-Moved : (b : Buffer) → InLine b → Moved step_left Behind b (b_char_step b)
b_char_step-Moved b h = b_char_step-Moved-at b.curchar b h

-- A loop of such rounds makes the move as often, and stays where no more moves are to be made.
module _ (move : Gap → Gap) (R : Buffer → Buffer → Type 0) (R_refl : (b : Buffer) → R b b)
    (R_trans : (b b' b'' : Buffer) → R b b' → R b' b'' → R b b'') (step : Buffer → Option Buffer)
    (step-Moved : (b : Buffer) → InLine b → Moved move R b (step b)) where
  moves_fixed : (n : ℕ) (g : Gap) → move g ≡ g → moves move n g ≡ g
  moves_fixed zero g e = refl
  moves_fixed (suc n) g e = rw e (moves_fixed n g e)

  rounds-after :
      (n : ℕ) (b : Buffer) (s : Option Buffer)
      → InLine b
      → Moved move R b s
      → ((b' : Buffer) → InLine b' → Moved (moves move n) R b' (some (rounds step n b')))
      → Moved (moves move (suc n)) R b (some (elim s [ none ↦ b | some b' ↦ rounds step n b' ]))
  rounds-after n b none h stay rest =
      rw (stay, moves_fixed n (gap b) stay) (h, refl, R_refl b, (refl, refl, refl))
  rounds-after n b (some b') h (h', g, r, same) rest =
      let (h'', g', r', same') = rest b' h' in
      (
        h'',
        g' ∙ ap (moves move n) g,
        R_trans b b' _ r r',
        SameRest-trans b b' (rounds step n b') same same',
      )

  rounds-Moved : (n : ℕ) (b : Buffer) → InLine b → Moved (moves move n) R b (some (rounds step n b))
  unfolding rounds
  rounds-Moved zero b h = (h, refl, R_refl b, (refl, refl, refl))
  rounds-Moved (suc n) b h = rounds-after n b (step b) h (step-Moved b h) (rounds-Moved n)

pub forward-Moved :
    (n : ℕ) (b : Buffer)
    → InLine b
    → Moved (moves step_right n) Ahead b (some (rounds f_char_step n b))
forward-Moved = rounds-Moved step_right Ahead Ahead-refl Ahead-trans f_char_step f_char_step-Moved

pub backward-Moved :
    (n : ℕ) (b : Buffer)
    → InLine b
    → Moved (moves step_left n) Behind b (some (rounds b_char_step n b))
backward-Moved =
    rounds-Moved step_left Behind Ahead-refl (λ b b' b'' r r'. Ahead-trans b'' b' b r' r)
      b_char_step b_char_step-Moved

pub f_char-Moved :
    (n : ℕ) (b : Buffer) → InLine b → Moved (moves step_right n) Ahead b (some (f_char (pos n) b))
unfolding f_char
f_char-Moved = forward-Moved

pub b_char-Moved :
    (n : ℕ) (b : Buffer) → InLine b → Moved (moves step_left n) Behind b (some (b_char (pos n) b))
unfolding b_char
b_char-Moved = backward-Moved

-- At the edges no move is made.
rounds-none :
    (step : Buffer → Option Buffer) (n : ℕ) (b : Buffer) → step b ≡ none → rounds step n b ≡ b
unfolding rounds
rounds-none step zero b e = refl
rounds-none step (suc n) b e = rw (e, rounds)

f_char_step-none :
    (below : List Line) (b : Buffer)
    → InLine b
    → length (right (record b { below = below })) ≡ 0
    → f_char_step (record b { below = below }) ≡ none
unfolding f_char_step next_line_start right
f_char_step-none [] b h e =
    let d : (b.curchar == length b.here.text) ≡ true =
      ground
        (arith, length-append (drop b.curchar b.here.text) [], length-drop b.curchar b.here.text) in
    rw d
f_char_step-none (l ∷ ls) b h e =
    absurd (omega (arith, length-append (drop b.curchar b.here.text) (right_lines (l ∷ ls))))

b_char_step-none :
    (above : List Line) (b : Buffer)
    → InLine b
    → length (left (record b { above = above })) ≡ 0
    → b_char_step (record b { above = above }) ≡ none
unfolding b_char_step prev_line_end left
b_char_step-none [] b h e =
    let d : (b.curchar == 0) ≡ true =
      ground (
        arith,
        length-push_all (take b.curchar b.here.text) [],
        length-take b.curchar b.here.text,
      ) in
    rw d
b_char_step-none (l ∷ ls) b h e =
    absurd (omega (arith, length-push_all (take b.curchar b.here.text) (left_lines (l ∷ ls))))

pub f_char-stays : (n : ℕ) (b : Buffer) → InLine b → (n ≡ 0) ⊎ (right b ≡ []) → f_char (pos n) b ≡ b
unfolding f_char rounds
f_char-stays n b h (inl e) = rw e
f_char-stays n b h (inr e) =
    rounds-none f_char_step n b (f_char_step-none b.below b h (ap length e))

pub b_char-stays : (n : ℕ) (b : Buffer) → InLine b → (n ≡ 0) ⊎ (left b ≡ []) → b_char (pos n) b ≡ b
unfolding b_char rounds
b_char-stays n b h (inl e) = rw e
b_char-stays n b h (inr e) =
    rounds-none b_char_step n b (b_char_step-none b.above b h (ap length e))
