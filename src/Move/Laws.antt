-- ===== src/Move/Laws.antt =====
-- What `f_char` and `b_char` do to the characters before and after point.
use jove.Base.{
  ℕ, zero, suc, ◌+◌, ◌-◌, ◌≤◌, ◌≡◌, refl, sym, ap, ◌∙◌, [], ◌∷◌, length, push_all, arith, min,
}
use jove.Base.Int.{ℤ, pos, negsuc}
use jove.Buffer.{Buffer, left, right, InLine, lines, SameRest, Text}
use jove.Buffer.Along.{lines-Ahead}
use jove.Move.{f_char_step, b_char_step, rounds, f_char, b_char}
use jove.Move.Char.{Gap, gap, step_left, step_right, moves, forward-Moved, backward-Moved}

-- The signed move on the two stacks.
abbrev pub moves_by : ℤ → Gap → Gap
moves_by (pos n) = moves step_right n
moves_by (negsuc n) = moves step_left (suc n)

-- The characters of the whole buffer.
abbrev pub contents : Gap → Text
contents g = push_all g.0 g.1

moves_right-contents : (n : ℕ) (g : Gap) → contents (moves step_right n g) ≡ contents g
moves_right-contents zero g = refl
moves_right-contents (suc n) (l, []) = moves_right-contents n (l, [])
moves_right-contents (suc n) (l, c ∷ r) = moves_right-contents n (c ∷ l, r)

pub moves_right-position :
    (n : ℕ) (g : Gap)
    → length (moves step_right n g).0 ≡ min (length g.0 + n) (length g.0 + length g.1)
moves_right-position zero g = omega arith
moves_right-position (suc n) (l, []) = omega (arith, moves_right-position n (l, []))
moves_right-position (suc n) (l, c ∷ r) = omega (arith, moves_right-position n (c ∷ l, r))

pub moves_left-position : (n : ℕ) (g : Gap) → length (moves step_left n g).0 ≡ length g.0 - n
moves_left-position zero g = omega arith
moves_left-position (suc n) ([], r) = omega (arith, moves_left-position n ([], r))
moves_left-position (suc n) (c ∷ l, r) = omega (arith, moves_left-position n (l, c ∷ r))

-- Moving back over what was passed.
moves_back : (n : ℕ) (g : Gap) → n ≤ length g.1 → moves step_left n (moves step_right n g) ≡ g
moves_back zero g h = refl
moves_back (suc n) (l, []) h = elim h [ ]
moves_back (suc n) (l, c ∷ r) h =
    moves_left-suc n (moves step_right n (c ∷ l, r))
    ∙ ap step_left (moves_back n (c ∷ l, r) (omega arith))
  where
    moves_left-suc : (k : ℕ) (g : Gap) → moves step_left (suc k) g ≡ step_left (moves step_left k g)
    moves_left-suc zero g = refl
    moves_left-suc (suc k) g = moves_left-suc k (step_left g)

-- Moving by a signed count, from a point that lies within its line, moves as many characters from
-- one side of point to the other as there are, line ends counted, and changes neither the lines
-- nor the marks. Point stays within its line.
pub f_char-gap :
    (n : ℤ) (b : Buffer)
    → InLine b
    → InLine (f_char n b)
      × (gap (f_char n b) ≡ moves_by n (gap b))
      × (lines (f_char n b) ≡ lines b)
      × SameRest b (f_char n b)
unfolding f_char
f_char-gap (pos n) b h =
    let (h', g, r, same) = forward-Moved n b h in
    (h', g, lines-Ahead b (rounds f_char_step n b) r, same)
f_char-gap (negsuc n) b h =
    let (h', g, r, same) = backward-Moved (suc n) b h in
    (h', g, sym (lines-Ahead (rounds b_char_step (suc n) b) b r), same)

-- From a point within its line, `f_char` and `b_char` by a count that is not negative put point
-- that many characters on, or at the end of the buffer, and that many back, or at the start.
pub f_char-position :
    (n : ℕ) (b : Buffer)
    → InLine b
    → (length (left (f_char (pos n) b))
        ≡ min (length (left b) + n) (length (left b) + length (right b)))
      × (length (left (b_char (pos n) b)) ≡ length (left b) - n)
unfolding f_char b_char
f_char-position n b h = (
  ap (λ g. length g.0) (forward-Moved n b h).1 ∙ moves_right-position n (gap b),
  ap (λ g. length g.0) (backward-Moved n b h).1 ∙ moves_left-position n (gap b),
)

-- Going forward over `n` characters that are there, and back, returns to the same place.
pub b_char-f_char :
    (n : ℕ) (b : Buffer)
    → InLine b
    → n ≤ length (right b)
    → gap (b_char (pos n) (f_char (pos n) b)) ≡ gap b
unfolding f_char b_char
b_char-f_char n b h k =
    let (h', g, _, _) = forward-Moved n b h in
    (backward-Moved n (rounds f_char_step n b) h').1
    ∙ ap (moves step_left n) g
    ∙ moves_back n (gap b) k
