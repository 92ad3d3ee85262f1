-- ===== src/Words/Skip.antt =====
-- A loop that moves point while the character next to it is of some kind.
use jove.Base.{
  ℕ, zero, suc, ◌≤◌, ◌≡◌, refl, subst, ap, ◌∙◌, [], ◌∷◌, Bool, true, false, Option, none, some,
  if◌then◌else◌, arith, length,
}
use jove.Buffer.{Buffer, Text, InLine, SameRest}
use jove.Move.{rounds}
use jove.Move.Char.{Gap, step_right}
use jove.Buffer.Along.{SameRest-trans}

-- Over the characters of a kind that come first.
abbrev pub skip_right : (ℕ → Bool) → Text → Text → Gap
skip_right keep l [] = (l, [])
skip_right keep l (c ∷ r) =
    let rest = skip_right keep (c ∷ l) r in if keep c then rest else (l, c ∷ r)

abbrev pub turned : Gap → Gap
turned (l, r) = (r, l)

-- The same for the characters before point.
abbrev pub skip_left : (ℕ → Bool) → Text → Text → Gap
skip_left keep l r = turned (skip_right keep r l)

-- What point sees in one of the two directions: the text behind it and the text ahead.
module _ (view : Buffer → Gap) where
  -- A round moves over a character of the kind, and else it ends the loop.
  abbrev pub Guarded :
      (ℕ → Bool) → (Buffer → Buffer → Type 0) → Buffer → Option Buffer → Text → Type 0
  Guarded keep R b o [] = o ≡ none
  Guarded keep R b none (c ∷ r) = keep c ≡ false
  Guarded keep R b (some b') (c ∷ r) =
      (keep c ≡ true) × InLine b' × (view b' ≡ step_right (view b)) × R b b' × SameRest b b'

  -- Where such a loop ends.
  abbrev pub Ends : (Buffer → Buffer → Type 0) → Buffer → Gap → Buffer → Type 0
  Ends R b g b' = InLine b' × (view b' ≡ g) × R b b' × SameRest b b'

module _ (view : Buffer → Gap) (keep : ℕ → Bool) (R : Buffer → Buffer → Type 0)
    (R_refl : (b : Buffer) → R b b) (R_trans : (b b' b'' : Buffer) → R b b' → R b' b'' → R b b'')
    (step : Buffer → Option Buffer)
    (guarded : (b : Buffer) → InLine b → Guarded view keep R b (step b) (view b).1) where
  stays : (n : ℕ) (b : Buffer) (o : Option Buffer) → step b ≡ o → o ≡ none → rounds step n b ≡ b
  unfolding rounds
  stays zero b o s e = refl
  stays (suc n) b o s e = rw (rounds, s, e) refl

  follow :
      (n : ℕ) (b : Buffer) (l r : Text) (c : ℕ) (o : Option Buffer)
      → InLine b
      → view b ≡ (l, c ∷ r)
      → Guarded view keep R b o (c ∷ r)
      → ((b' : Buffer)
          → InLine b'
          → view b' ≡ (c ∷ l, r)
          → Ends view R b' (skip_right keep (c ∷ l) r) (rounds step n b'))
      → Ends view R b (skip_right keep l (c ∷ r)) (elim o [ none ↦ b | some b' ↦ rounds step n b' ])
  follow n b l r c none h g k rest = rw k (h, g, R_refl b, (refl, refl, refl))
  follow n b l r c (some b') h g (k, h', v, s, same) rest =
      let (h'', g', s', same') = rest b' h' (v ∙ ap step_right g) in
      rw k (h'', g', R_trans b b' _ s s', SameRest-trans b b' (rounds step n b') same same')

  -- With as many rounds as there are characters ahead, the loop skips those of the kind.
  pub rounds-skip_right :
      (n : ℕ) (b : Buffer) (l r : Text)
      → InLine b
      → view b ≡ (l, r)
      → length r ≤ n
      → Ends view R b (skip_right keep l r) (rounds step n b)
  unfolding rounds
  rounds-skip_right n b l [] h g le =
      rw
        (stays n b (step b) refl
          (subst (λ t. Guarded view keep R b (step b) t) (ap (λ z. z.1) g) (guarded b h)))
        (h, g, R_refl b, (refl, refl, refl))
  rounds-skip_right zero b l (c ∷ r) h g le = absurd (omega arith)
  rounds-skip_right (suc n) b l (c ∷ r) h g le =
      follow n b l r c (step b) h g
        (subst (λ t. Guarded view keep R b (step b) t) (ap (λ z. z.1) g) (guarded b h))
        (λ b' h' g'. rounds-skip_right n b' (c ∷ l) r h' g' (omega arith))
