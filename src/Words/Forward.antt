-- ===== src/Words/Forward.antt =====
-- `f_word` skips what is no word, and then a word.
use jove.Base.{
  ℕ, zero, suc, ◌≡◌, refl, sym, subst, ap, ◌∙◌, List, [], ◌∷◌, true, false, ◌==◌, arith, length,
  Bool-cases, inl, inr, drop-length,
}
use native.Mathlib.Nat.{le_refl}
use jove.Base.Int.{pos}
use jove.Buffer.{Buffer, Line, Text, InLine, Ahead, left, right, eolp}
use jove.Buffer.Along.{SameRest-trans, Ahead-refl, Ahead-trans}
use jove.Chars.{is_word}
use jove.Move.Char.{Gap, gap}
use jove.Words.{
  to_word_ahead, through_word_step, forward_word, words_ahead, word_ahead_step, f_word, eobp,
}
use jove.Words.Skip.{skip_right, Ends, rounds-skip_right}
use jove.Words.Steps.{other_byte, word_ahead_step-Guarded, through_word_step-Guarded}

-- Over all that is no word, and then over the bytes of a word; and that a number of times.
abbrev pub past_word : Gap → Gap
past_word (l, r) = let (l', r') = skip_right other_byte l r in skip_right is_word l' r'

abbrev pub past_words : ℕ → Gap → Gap
past_words zero g = g
past_words (suc n) g = past_words n (past_word g)

Ends-trans :
    (b b' b'' : Buffer) (g g' : Gap)
    → Ends gap Ahead b g b'
    → Ends gap Ahead b' g' b''
    → Ends gap Ahead b g' b''
Ends-trans b b' b'' g g' (h, e, s, m) (h', e', s', m') =
    (h', e', Ahead-trans b b' b'' s s', SameRest-trans b b' b'' m m')

-- `to_word` forward moves point to the next byte of a word, or to the end of the buffer.
pub to_word_ahead-Ends :
    (b : Buffer)
    → InLine b
    → Ends gap Ahead b (skip_right other_byte (left b) (right b)) (to_word_ahead b)
unfolding to_word_ahead
to_word_ahead-Ends b h =
    rounds-skip_right gap other_byte Ahead Ahead-refl Ahead-trans word_ahead_step
      word_ahead_step-Guarded (length (right b)) b (left b) (right b) h refl (le_refl _)

forward_word-Ends : (b : Buffer) → InLine b → Ends gap Ahead b (past_word (gap b)) (forward_word b)
unfolding forward_word
forward_word-Ends b h =
    let (h', e, s, m) = to_word_ahead-Ends b h in
    Ends-trans b (to_word_ahead b) _ _ _ (h', e, s, m)
      (rounds-skip_right gap is_word Ahead Ahead-refl Ahead-trans through_word_step
        through_word_step-Guarded (length (right (to_word_ahead b))) (to_word_ahead b) _ _ h' e
        (omega (arith, ap (λ z. length z.1) e)))

eobp-right : (b : Buffer) (ls : List Line) → b.below ≡ ls → eobp b ≡ true → InLine b → right b ≡ []
unfolding eobp eolp right
eobp-right b [] e t h =
    let at_end : (b.curchar == length b.here.text) ≡ true = rw e at t in
    rw (drop-length b.here.text b.curchar (ground arith), e) refl
eobp-right b (l ∷ ls) e t h = let no : false ≡ true = rw e at t in absurd (cc)

past_words-end : (n : ℕ) (l : Text) → past_words n (l, []) ≡ (l, [])
past_words-end zero l = refl
past_words-end (suc n) l = past_words-end n l

-- From a point within its line, `f_word` by a count that is not negative moves that many times over
-- all that is no word and then over the bytes of a word, line ends being no bytes of a word, as far
-- as the buffer goes. It changes neither the lines nor the marks, and leaves point in its line.
pub f_word-past_words :
    (n : ℕ) (b : Buffer) → InLine b → Ends gap Ahead b (past_words n (gap b)) (f_word (pos n) b)
unfolding f_word words_ahead
f_word-past_words zero b h = (h, refl, Ahead-refl b, (refl, refl, refl))
f_word-past_words (suc n) b h =
    let w = forward_word-Ends b h in
    elim (Bool-cases (eobp (forward_word b))) [
      | inl t ↦
          let r = eobp-right (forward_word b) (forward_word b).below refl t w.0 in
          let g : gap (forward_word b) ≡ (left (forward_word b), []) =
            ap (λ z. (left (forward_word b), z)) r in
          rw t (
            w.0,
            g ∙ sym (past_words-end n (left (forward_word b))) ∙ ap (past_words n) (sym g ∙ w.1),
            w.2,
            w.3,
          )
      | inr f ↦ rw f (
          Ends-trans b (forward_word b) _ _ _ w (
            subst
              (λ g.
                Ends gap Ahead (forward_word b) (past_words n g) (words_ahead n (forward_word b)))
              w.1 (f_word-past_words n (forward_word b) w.0)))
    ]
