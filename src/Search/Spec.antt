-- ===== src/Search/Spec.antt =====
-- What a pattern means: the strings that it matches, with no order in which they are tried.
use jove.Base.{
  ℕ, zero, suc, ◌+◌, ◌≡◌, ◌≢◌, ◌↔◌, ◌⊎◌, refl, ◌==◌, inl, inr, [], ◌∷◌, true, false, arith, length,
  Bool-cases,
}
use jove.Buffer.{Text}
use jove.Chars.{char_upcase, cind_eq, is_ident}
use jove.Search.{
  Line, Code, Alternates, Atom, Charset, any, char, cind, eop, normc, cindc, anyc, at_bol, at_eol,
  at_bow, at_eow, openp, closep, backref, curlyb, star, star_backref, end, alt, at, accepts, member,
  in_set, literal, at_crater,
}

abbrev pub Listed : ℕ → Charset → Type 0
Listed c [] = ⊥
Listed c (x ∷ s) = (x ≡ c) ⊎ Listed c s

-- The bytes that an element stands for. The NUL at the end of a line is none of them.
abbrev pub Means : Atom → ℕ → Type 0
Means any c = c ≢ 0
Means (char x) c = x ≡ c
Means (cind x) c = char_upcase x ≡ char_upcase c
Means (Atom.one_of s) c = (c ≢ 0) × Listed c s
Means (Atom.none_of s) c = (c ≢ 0) × ¬ Listed c s

-- The bytes `cs` stand at the position `p`, as they are or up to case.
abbrev pub Spells : Line → Text → ℕ → Type 0
Spells l [] p = Unit
Spells l (c ∷ cs) p = (at l p ≡ c) × Spells l cs (suc p)

abbrev pub SpellsFolded : Line → Text → ℕ → Type 0
SpellsFolded l [] p = Unit
SpellsFolded l (c ∷ cs) p = (char_upcase (at l p) ≡ char_upcase c) × SpellsFolded l cs (suc p)

-- `n` bytes in a row that an element stands for.
abbrev pub Repeats : Line → Atom → ℕ → ℕ → Type 0
Repeats l a zero p = Unit
Repeats l a (suc n) p = Means a (at l p) × Repeats l a n (suc p)

-- The position is not the end of the last substitution.
abbrev pub OffCrater : Line → ℕ → Type 0
OffCrater l p = at_crater l p ≡ false

abbrev pub WordAt : Line → ℕ → Type 0
WordAt l p = is_ident l.mode (at l p) ≡ true

abbrev pub WordBefore : Line → ℕ → Type 0
WordBefore l zero = ⊥
WordBefore l (suc p) = WordAt l p

-- The code matches from the position `p` up to the position `e`. Back references are left out.
unfoldable mutual
  pub Matches : Line → Code → ℕ → ℕ → Type 0
  Matches l eop p e = p ≡ e
  Matches l (normc cs k) p e = Spells l cs p × Matches l k (p + length cs) e
  Matches l (cindc cs k) p e = SpellsFolded l cs p × Matches l k (p + length cs) e
  Matches l (anyc k) p e = Means any (at l p) × Matches l k (suc p) e
  Matches l (at_bol k) p e = (p ≡ 0) × OffCrater l p × Matches l k p e
  Matches l (at_eol k) p e = (at l p ≡ 0) × Matches l k p e
  Matches l (at_bow k) p e = OffCrater l p × WordAt l p × (¬ WordBefore l p) × Matches l k p e
  Matches l (at_eow k) p e = OffCrater l p × (¬ WordAt l p) × WordBefore l p × Matches l k p e
  Matches l (Code.one_of s k) p e = Means (Atom.one_of s) (at l p) × Matches l k (suc p) e
  Matches l (Code.none_of s k) p e = Means (Atom.none_of s) (at l p) × Matches l k (suc p) e
  Matches l (openp n k) p e = Matches l k p e
  Matches l (closep n k) p e = Matches l k p e
  Matches l (backref n k) p e = ⊥
  Matches l (curlyb alts k) p e = (m : ℕ) × MatchesAny l alts p m × Matches l k m e
  Matches l (star a k) p e = (n : ℕ) × Repeats l a n p × Matches l k (p + n) e
  Matches l (star_backref n k) p e = ⊥

  pub MatchesAny : Line → Alternates → ℕ → ℕ → Type 0
  MatchesAny l end p e = ⊥
  MatchesAny l (alt c alts) p e = Matches l c p e ⊎ MatchesAny l alts p e

Listed-iff : (s : Charset) (c : ℕ) → (in_set s c ≡ true) ↔ Listed c s
unfolding in_set
Listed-iff [] c = (λ h. cc, λ h. absurd h)
Listed-iff (x ∷ s) c = ground (arith, Listed-iff s c)

-- The test of one byte decides what it is meant to.
pub accepts_iff : (a : Atom) (c : ℕ) → (accepts a c ≡ true) ↔ Means a c
unfolding accepts
accepts_iff any c = ground arith
accepts_iff (char x) c = ground arith
accepts_iff (cind x) c = ground arith
accepts_iff (Atom.one_of s) c = ground (arith, Listed-iff s c)
accepts_iff (Atom.none_of s) c = (forth, back)
  where
    forth : member s c false ≡ true → (c ≢ 0) × ¬ Listed c s
    forth h = elim (Bool-cases (in_set s c)) [
      | inl t ↦ absurd (ground arith)
      | inr f ↦ (ground arith, λ m. let t = (Listed-iff s c).1 m in cc)
    ]

    back : (c ≢ 0) × ¬ Listed c s → member s c false ≡ true
    back h = elim (Bool-cases (in_set s c)) [
      | inl t ↦ absurd (h.1 ((Listed-iff s c).0 t))
      | inr f ↦ ground arith
    ]

pub literal_iff :
    (l : Line) (cs : Text) (p : ℕ) → (literal (λ a b. a == b) l cs p ≡ true) ↔ Spells l cs p
unfolding literal
literal_iff l [] p = (λ h. tt, λ h. refl)
literal_iff l (c ∷ cs) p = ground (arith, literal_iff l cs (suc p))

pub literal_folded_iff :
    (l : Line) (cs : Text) (p : ℕ) → (literal cind_eq l cs p ≡ true) ↔ SpellsFolded l cs p
unfolding literal cind_eq
literal_folded_iff l [] p = (λ h. tt, λ h. refl)
literal_folded_iff l (c ∷ cs) p = ground (arith, literal_folded_iff l cs (suc p))
