-- ===== src/Buffer/Along.antt =====
-- Two places of point in the same lines.
use jove.Base.{
  ◌≡◌, refl, ◌∙◌, ◌∷◌, ◌++◌, inl, inr, append_assoc, push_all-append, push_all-push_all,
}
use jove.Buffer.{Buffer, Ahead, SameRest, lines}

pub Ahead-refl : (b : Buffer) → Ahead b b
Ahead-refl b = inl (refl, refl, refl)

pub Ahead-trans : (b b' b'' : Buffer) → Ahead b b' → Ahead b' b'' → Ahead b b''
Ahead-trans b b' b'' (inl (a, h, l)) (inl (a', h', l')) = inl (a' ∙ a, h' ∙ h, l' ∙ l)
Ahead-trans b b' b'' (inl (a, h, l)) (inr (mid, a', l')) = inr (mid, cc (a, h, a'), cc (l, l'))
Ahead-trans b b' b'' (inr (mid, a, l)) (inl (a', h', l')) = inr (mid, a' ∙ a, cc (l, h', l'))
Ahead-trans b b' b'' (inr (mid, a, l)) (inr (mid', a', l')) = inr (
  mid ++ b'.here ∷ mid',
  cc (a, a', push_all-append mid (b'.here ∷ mid') (b.here ∷ b.above)),
  cc (l, l', append_assoc mid (b'.here ∷ mid') (b''.here ∷ b''.below)),
)

pub SameRest-trans : (b b' b'' : Buffer) → SameRest b b' → SameRest b' b'' → SameRest b b''
SameRest-trans b b' b'' (m, f, d) (m', f', d') = (m' ∙ m, f' ∙ f, d' ∙ d)

pub lines-Ahead : (b b' : Buffer) → Ahead b b' → lines b' ≡ lines b
lines-Ahead b b' (inl (a, h, l)) = cc (a, h, l)
lines-Ahead b b' (inr (mid, a, l)) =
    rw (a, l) (push_all-push_all mid (b.here ∷ b.above) (b'.here ∷ b'.below))
