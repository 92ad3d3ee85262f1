-- ===== src/Case/Shape.antt =====
-- Moving point depends on the lengths of the lines alone (case.c, for the loop of `case_reg`).
use jove.Base.{
  ℕ, zero, suc, ◌≡◌, refl, sym, ap₂, subst, arith, List, [], ◌∷◌, true, false, Bool-cases, inl, inr,
  Option, none, some, length,
}
use jove.Base.Int.{pos}
use jove.Buffer.{Buffer, Line, IsValid, Distinct, Below, lines, eolp}
use jove.Move.{next_line_start, f_char, f_char_step, rounds}
use jove.Move.Char.{f_char-Moved}
use jove.Buffer.Along.{lines-Ahead}
use jove.Region.{dot}

-- Lines and buffers of one shape: they differ in the characters alone.
abbrev pub SameLine : Line → Line → Type 0
SameLine l l' = (l.id ≡ l'.id) × (length l.text ≡ length l'.text)

abbrev pub SameLines : List Line → List Line → Type 0
SameLines [] [] = Unit
SameLines [] (l' ∷ ls') = ⊥
SameLines (l ∷ ls) [] = ⊥
SameLines (l ∷ ls) (l' ∷ ls') = SameLine l l' × SameLines ls ls'

abbrev pub SameShape : Buffer → Buffer → Type 0
SameShape b b' =
    SameLines b.above b'.above
    × SameLine b.here b'.here
    × SameLines b.below b'.below
    × (b.curchar ≡ b'.curchar)

pub SameLines-refl : (ls : List Line) → SameLines ls ls
SameLines-refl [] = tt
SameLines-refl (l ∷ ls) = ((refl, refl), SameLines-refl ls)

-- The same for one round of `f_char`.
abbrev SameStep : Option Buffer → Option Buffer → Type 0
SameStep none none = Unit
SameStep none (some b') = ⊥
SameStep (some b) none = ⊥
SameStep (some b) (some b') = SameShape b b'

next_line_start-SameStep :
    (b b' : Buffer) (below below' : List Line)
    → SameLines b.above b'.above
    → SameLine b.here b'.here
    → SameLines below below'
    → SameStep
        (next_line_start (record b { below = below }))
        (next_line_start (record b' { below = below' }))
unfolding next_line_start
next_line_start-SameStep b b' [] [] a h s = tt
next_line_start-SameStep b b' [] (l' ∷ ls') a h s = absurd s
next_line_start-SameStep b b' (l ∷ ls) [] a h s = absurd s
next_line_start-SameStep b b' (l ∷ ls) (l' ∷ ls') a h s = ((h, a), s.0, s.1, refl)

f_char_step-SameStep : (b b' : Buffer) → SameShape b b' → SameStep (f_char_step b) (f_char_step b')
unfolding f_char_step eolp
f_char_step-SameStep b b' s = elim (Bool-cases (eolp b)) [
  | inl end ↦
      let end' : eolp b' ≡ true = ground (arith, s) in
      rw (f_char_step, end, end') (next_line_start-SameStep b b' b.below b'.below s.0 s.1 s.2)
  | inr inside ↦
      let inside' : eolp b' ≡ false = ground (arith, s) in
      rw (f_char_step, inside, inside') (s.0, s.1, s.2, omega (arith, s.3))
]

rounds-SameShape :
    (n : ℕ) (b b' : Buffer)
    → SameShape b b'
    → SameShape (rounds f_char_step n b) (rounds f_char_step n b')
unfolding rounds
rounds-SameShape zero b b' s = s
rounds-SameShape (suc n) b b' s =
    go (f_char_step b) (f_char_step b') (f_char_step-SameStep b b' s) (rounds-SameShape n)
  where
    go :
        (o o' : Option Buffer)
        → SameStep o o'
        → ((b b' : Buffer)
            → SameShape b b'
            → SameShape (rounds f_char_step n b) (rounds f_char_step n b'))
        → SameShape
            (elim o [ none ↦ b | some x ↦ rounds f_char_step n x ])
            (elim o' [ none ↦ b' | some x ↦ rounds f_char_step n x ])
    go none none ss more = s
    go none (some x') ss more = absurd ss
    go (some x) none ss more = absurd ss
    go (some x) (some x') ss more = more x x' ss

-- `n + 1` characters on are `n` more from the next one.
pub f_char-next : (n : ℕ) (b : Buffer) → f_char (pos n) (f_char (pos 1) b) ≡ f_char (pos (suc n)) b
unfolding f_char rounds
f_char-next n b = go (f_char_step b) refl
  where
    stuck : (k : ℕ) → f_char_step b ≡ none → rounds f_char_step k b ≡ b
    stuck zero e = refl
    stuck (suc k) e = rw (rounds, e) refl

    go :
        (o : Option Buffer)
        → f_char_step b ≡ o
        → rounds f_char_step n (elim o [ none ↦ b | some x ↦ x ])
          ≡ elim o [ none ↦ b | some x ↦ rounds f_char_step n x ]
    go none e = stuck n e
    go (some x) e = refl

SameShape-dot : (b b' : Buffer) → SameShape b b' → dot b ≡ dot b'
SameShape-dot b b' s = ap₂ (λ line char. record { line = line; char = char }) s.1.0 s.3

-- The place that is `n` characters on is the same in both.
pub f_char-SameShape :
    (n : ℕ) (b b' : Buffer) → SameShape b b' → dot (f_char (pos n) b) ≡ dot (f_char (pos n) b')
unfolding f_char
f_char-SameShape n b b' s =
    SameShape-dot (rounds f_char_step n b) (rounds f_char_step n b') (rounds-SameShape n b b' s)

pub f_char-IsValid : (n : ℕ) (b : Buffer) → IsValid b → IsValid (f_char (pos n) b)
f_char-IsValid n b v =
    let (h, _, r, s) = f_char-Moved n b v.in_line in
    let same = lines-Ahead b (f_char (pos n) b) r in
    record {
      in_line = h;
      distinct = subst Distinct (sym same) v.distinct;
      allocated =
          subst (λ k. Below k (lines (f_char (pos n) b))) (sym s.1)
            (subst (Below b.fresh) (sym same) v.allocated);
    }
