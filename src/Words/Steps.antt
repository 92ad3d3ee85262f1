-- ===== src/Words/Steps.antt =====
-- The rounds of `to_word` and `f_word` over the characters after point.
use jove.Base.{
  ℕ, suc, ◌+◌, ◌<◌, ◌≡◌, refl, sym, subst, ap, List, [], ◌∷◌, ◌++◌, Bool, true, false, not, ◌==◌,
  Option, none, some, arith, length, Bool-cases, inl, inr, get_or, drop, drop-length,
}
use jove.Buffer.{Buffer, Line, Text, InLine, Ahead, right, eolp, newline, right_lines}
use jove.Buffer.View.{drop-lt}
use jove.Chars.{is_word}
use jove.Move.{f_char_step, next_line_start}
use jove.Move.Char.{gap, step_right, Moved, f_char_step-Moved}
use jove.Words.{word_ahead_step, through_word_step}
use jove.Words.Skip.{Guarded}

unfoldable pub other_byte : ℕ → Bool
other_byte c = not (is_word c)

-- What stands after point within a line.
right-in_line :
    (b : Buffer)
    → b.curchar < length b.here.text
    → right b
      ≡ get_or b.here.text b.curchar 0 ∷ (drop (suc b.curchar) b.here.text ++ right_lines b.below)
unfolding right
right-in_line b h = rw (drop-lt b.curchar b.here.text 0 h) refl

-- From the move of a character, where it is one of the kind.
Guarded-of_Moved :
    (keep : ℕ → Bool) (b : Buffer) (o : Option Buffer) (c : ℕ) (r : Text)
    → keep c ≡ true
    → right b ≡ c ∷ r
    → Moved step_right Ahead b o
    → Guarded gap keep Ahead b o (c ∷ r)
Guarded-of_Moved keep b none c r k e m = absurd (omega (arith, ap (λ g. length g.1) (rw e at m)))
Guarded-of_Moved keep b (some b') c r k e (h, g, s, same) = (k, h, g, s, same)

-- At the end of a line.
end-Guarded :
    (keep : ℕ → Bool) (b : Buffer) (ls : List Line) (o : Option Buffer)
    → b.below ≡ ls
    → b.curchar ≡ length b.here.text
    → InLine b
    → (ls ≡ [] → o ≡ none)
    → (keep newline ≡ true → Moved step_right Ahead b o)
    → (keep newline ≡ false → o ≡ none)
    → Guarded gap keep Ahead b o (right b)
unfolding right
end-Guarded keep b [] o e at_end h nothing move stop =
    rw (drop-length b.here.text b.curchar (omega arith), e) (nothing refl)
end-Guarded keep b (l ∷ ls) o e at_end h nothing move stop =
    let d : right b ≡ newline ∷ (l.text ++ right_lines ls) =
      rw (drop-length b.here.text b.curchar (omega arith), e) refl in
    elim (Bool-cases (keep newline)) [
      | inl k ↦
          subst (Guarded gap keep Ahead b o) (sym d)
            (Guarded-of_Moved keep b o newline (l.text ++ right_lines ls) k d (move k))
      | inr f ↦ subst (Guarded gap keep Ahead b o) (sym d) (
          subst (λ z. Guarded gap keep Ahead b z (newline ∷ (l.text ++ right_lines ls)))
            (sym (stop f)) f)
    ]

-- Within a line.
inner-Guarded :
    (keep : ℕ → Bool) (b : Buffer) (o : Option Buffer)
    → b.curchar < length b.here.text
    → (keep (get_or b.here.text b.curchar 0) ≡ true → Moved step_right Ahead b o)
    → (keep (get_or b.here.text b.curchar 0) ≡ false → o ≡ none)
    → Guarded gap keep Ahead b o (right b)
inner-Guarded keep b o h move stop =
    let d = right-in_line b h in
    elim (Bool-cases (keep (get_or b.here.text b.curchar 0))) [
      | inl k ↦
          subst (Guarded gap keep Ahead b o) (sym d) (Guarded-of_Moved keep b o _ _ k d (move k))
      | inr f ↦ subst (Guarded gap keep Ahead b o) (sym d) (
          subst
            (λ z. Guarded gap keep Ahead b z (
              get_or b.here.text b.curchar 0
              ∷ (drop (suc b.curchar) b.here.text ++ right_lines b.below)))
            (sym (stop f)) f)
    ]

pub word_ahead_step-Guarded :
    (b : Buffer) → InLine b → Guarded gap other_byte Ahead b (word_ahead_step b) (right b)
unfolding word_ahead_step f_char_step eolp other_byte next_line_start is_word
word_ahead_step-Guarded b h = elim (Bool-cases (b.curchar == length b.here.text)) [
  | inl t ↦ rw t (
      end-Guarded other_byte b b.below (next_line_start b) refl (ground arith) h
        (λ e. ap (λ ls. next_line_start (record b { below = ls })) e)
        (λ k. rw t at (f_char_step-Moved b h)) (λ f. absurd (cc)))
  | inr f ↦ elim (Bool-cases (is_word (get_or b.here.text b.curchar 0))) [
    | inl w ↦
        rw (f, w) (inner-Guarded other_byte b none (ground arith) (λ k. absurd (cc)) (λ k. refl))
    | inr o ↦
        rw (f, o)
          (inner-Guarded other_byte b (some (record b { curchar = b.curchar + 1 })) (ground arith)
            (λ k. rw f at (f_char_step-Moved b h)) (λ k. absurd (cc)))
  ]
]

pub through_word_step-Guarded :
    (b : Buffer) → InLine b → Guarded gap is_word Ahead b (through_word_step b) (right b)
unfolding through_word_step f_char_step eolp is_word
through_word_step-Guarded b h = elim (Bool-cases (b.curchar == length b.here.text)) [
  | inl t ↦ rw t (
      end-Guarded is_word b b.below none refl (ground arith) h (λ e. refl) (λ k. absurd (cc))
        (λ f. refl))
  | inr f ↦ elim (Bool-cases (is_word (get_or b.here.text b.curchar 0))) [
    | inl w ↦
        rw (f, w)
          (inner-Guarded is_word b (some (record b { curchar = b.curchar + 1 })) (ground arith)
            (λ k. rw f at (f_char_step-Moved b h)) (λ k. absurd (cc)))
    | inr o ↦ rw (f, o) (inner-Guarded is_word b none (ground arith) (λ k. absurd (cc)) (λ k. refl))
  ]
]
