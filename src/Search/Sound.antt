-- ===== src/Search/Sound.antt =====
-- `REmatch` decides what a pattern means.
use jove.Base.{
  ℕ, zero, suc, ◌+◌, ◌-◌, ◌≤◌, ◌<◌, ◌≡◌, ◌≢◌, ◌↔◌, inl, inr, refl, sym, [], ◌∷◌, Bool, true, false,
  not, ◌&&◌, ◌||◌, ◌==◌, arith, length, Bool-cases, ==_iff, get_or,
}
use Prim.Native.Nat.{zero-le}
use mathlib.Core.Path.{subst}
use native.Mathlib.Nat.{add-zero}
use native.Mathlib.Decide.{ℕ_discrete}
use jove.Buffer.{Text}
use jove.Chars.{char_upcase, is_ident, Major, fundamental, text_mode, c_mode}
use jove.Search.{
  Line, Code, Atom, any, char, cind, eop, normc, cindc, anyc, at_bol, at_eol, at_bow, at_eow, openp,
  closep, star, at, at_crater, accepts, run, quick, try_star, re_match, Result, success, failure,
  hang, wild, Groups, when, put, or_next,
}
use jove.Search.Spec.{
  Matches, Means, Spells, SpellsFolded, Repeats, OffCrater, WordAt, WordBefore, accepts_iff,
  literal_iff, literal_folded_iff,
}

-- No element stands for the NUL at the end of a line.
abbrev pub Proper : Atom → Type 0
Proper (char x) = x ≢ 0
Proper (cind x) = char_upcase x ≢ 0
Proper _ = Unit

-- Code with neither back references nor `\{ \}`, whose literals hold no NUL.
abbrev pub NoNul : Text → Type 0
NoNul [] = Unit
NoNul (c ∷ cs) = (char_upcase c ≢ 0) × (c ≢ 0) × NoNul cs

unfoldable pub Regular : Code → Type 0
Regular eop = Unit
Regular (normc cs k) = NoNul cs × Regular k
Regular (cindc cs k) = NoNul cs × Regular k
Regular (anyc k) = Regular k
Regular (at_bol k) = Regular k
Regular (at_eol k) = Regular k
Regular (at_bow k) = Regular k
Regular (at_eow k) = Regular k
Regular (Code.one_of s k) = Regular k
Regular (Code.none_of s k) = Regular k
Regular (openp n k) = Regular k
Regular (closep n k) = Regular k
Regular (star a k) = Proper a × Regular k
Regular _ = ⊥

-- What the answer says about the code at a position.
abbrev pub Verdict : Line → Code → ℕ → Result → Type 0
Verdict l k p (success e g) = Matches l k p e
Verdict l k p (failure g) = (e : ℕ) → ¬ Matches l k p e
Verdict l k p _ = ⊥

-- The answer for some code, from that for the code that follows a test.
when-Verdict :
    (l : Line) (c k : Code) (p q : ℕ) (b : Bool) (r : Result) (g : Groups) (P : Type 0)
    → (b ≡ true) ↔ P
    → ((e : ℕ) → (Matches l c p e) ↔ (P × Matches l k q e))
    → (b ≡ true → Verdict l k q r)
    → Verdict l c p (when b r (failure g))
when-Verdict l c k p q true (success e g') g P i m v = (m e).1 (i.0 refl, v refl)
when-Verdict l c k p q true (failure g') g P i m v = λ e d. v refl e ((m e).0 d).1
when-Verdict l c k p q true hang g P i m v = v refl
when-Verdict l c k p q true wild g P i m v = v refl
when-Verdict l c k p q false r g P i m v = λ e d. let t = i.1 ((m e).0 d).0 in cc

pub at-past : (l : Line) (p : ℕ) → length l.text ≤ p → at l p ≡ 0
at-past l p h = go l.text p h
  where
    go : (t : Text) (n : ℕ) → length t ≤ n → get_or t n 0 ≡ 0
    go [] n h = refl
    go (x ∷ t) zero h = elim h [ ]
    go (x ∷ t) (suc n) h = go t n (omega arith)

Means-Proper : (a : Atom) → Proper a → ¬ Means a 0
unfolding char_upcase
Means-Proper any h m = m refl
Means-Proper (char x) h m = h m
Means-Proper (cind x) h m = h m
Means-Proper (Atom.one_of s) h m = m.0 refl
Means-Proper (Atom.none_of s) h m = m.0 refl

-- The starred element takes as many bytes as there are in a row.
run-Repeats : (l : Line) (a : Atom) (n p : ℕ) → Repeats l a (run l a n p) p
unfolding run
run-Repeats l a zero p = tt
run-Repeats l a (suc n) p = elim (Bool-cases (accepts a (at l p))) [
  | inl t ↦ rw t ((accepts_iff a (at l p)).0 t, run-Repeats l a n (suc p))
  | inr f ↦ rw f tt
]

run-most :
    (l : Line) (a : Atom) (n p k : ℕ)
    → Proper a
    → length l.text ≤ p + n
    → Repeats l a k p
    → k ≤ run l a n p
unfolding run
run-most l a n p zero h le r = zero-le
run-most l a zero p (suc k) h le r =
    absurd (Means-Proper a h (rw (at-past l p (omega arith)) at r.0))
run-most l a (suc n) p (suc k) h le r =
    let t = (accepts_iff a (at l p)).1 r.0 in
    rw t (omega (arith, run-most l a n (suc p) k h (omega arith) r.1))

Repeats-pred : (l : Line) (a : Atom) (n p : ℕ) → Repeats l a (suc n) p → Repeats l a n p
Repeats-pred l a zero p r = tt
Repeats-pred l a (suc n) p r = (r.0, Repeats-pred l a n (suc p) r.1)

-- The quick test throws out no match.
quick_sound : (l : Line) (k : Code) (p : ℕ) → quick l k p ≡ false → (e : ℕ) → ¬ Matches l k p e
unfolding quick Matches
quick_sound l (normc (c ∷ cs) k) p h e d = let t = (==_iff (at l p) c).1 d.0.0 in cc
quick_sound l eop p h e d = cc
quick_sound l _ p h e d = cc

-- The loop at `star` decides whether some number of bytes, at most `n`, leaves a match.
module _ (l : Line) (a : Atom) (k : Code) (p : ℕ)
    (rest : (q : ℕ) (g : Groups) → Verdict l k q (re_match l k q g)) where
  -- No more than `n` bytes lead to a match.
  abbrev AtMost : ℕ → Type 0
  AtMost n = (m e : ℕ) → n < m → Repeats l a m p → ¬ Matches l k (p + m) e

  first-Verdict : (r : Result) → Verdict l k p r → AtMost 0 → Verdict l (star a k) p r
  unfolding Matches
  first-Verdict (success e g) v most = (0, tt, subst (λ q. Matches l k q e) (sym (add-zero p)) v)
  first-Verdict (failure g) v most = λ e (m, rep, d). none m e rep d
    where
      none : (m e : ℕ) → Repeats l a m p → ¬ Matches l k (p + m) e
      none zero e rep d = v e (subst (λ q. Matches l k q e) (add-zero p) d)
      none (suc m) e rep d = most (suc m) e (omega arith) rep d
  first-Verdict hang v most = v
  first-Verdict wild v most = v

  AtMost-pred : (n : ℕ) → AtMost (suc n) → ((e : ℕ) → ¬ Matches l k (p + suc n) e) → AtMost n
  AtMost-pred n most none m e h rep d = elim (ℕ_discrete m (suc n)) [
    | yes eq ↦ none e (subst (λ z. Matches l k (p + z) e) eq d)
    | no ne ↦ most m e (omega arith) rep d
  ]

  next-Verdict :
      (n : ℕ) (r : Result)
      → Repeats l a (suc n) p
      → Verdict l k (p + suc n) r
      → (shorter : Groups → Result)
      → (((e : ℕ) → ¬ Matches l k (p + suc n) e)
          → (g : Groups) → Verdict l (star a k) p (shorter g))
      → Verdict l (star a k) p (or_next r shorter)
  unfolding Matches
  next-Verdict n (success e g) rep v shorter go = (suc n, rep, v)
  next-Verdict n (failure g) rep v shorter go = go v g
  next-Verdict n hang rep v shorter go = v
  next-Verdict n wild rep v shorter go = v

  tested-Verdict :
      (b : Bool) (x y : Result)
      → (b ≡ true → Verdict l (star a k) p x)
      → (b ≡ false → Verdict l (star a k) p y)
      → Verdict l (star a k) p (elim b [ false ↦ y | true ↦ x ])
  tested-Verdict true x y hx hy = hx refl
  tested-Verdict false x y hx hy = hy refl

  try_star-Verdict :
      (n : ℕ) (g : Groups)
      → Repeats l a n p
      → AtMost n
      → Verdict l (star a k) p (try_star (quick l k) (re_match l k) n p g)
  unfolding try_star
  try_star-Verdict zero g r most = first-Verdict (re_match l k p g) (rest p g) most
  try_star-Verdict (suc n) g r most =
      tested-Verdict (quick l k (p + suc n)) _ _
        (λ t.
          next-Verdict n (re_match l k (p + suc n) g) r (rest (p + suc n) g)
            (try_star (quick l k) (re_match l k) n p)
            (λ none g'. try_star-Verdict n g' (Repeats-pred l a n p r) (AtMost-pred n most none)))
        (λ f.
          try_star-Verdict n g (Repeats-pred l a n p r)
            (AtMost-pred n most (quick_sound l k (p + suc n) f)))

any_iff : (c : ℕ) → (not (c == 0) ≡ true) ↔ (c ≢ 0)
any_iff c = ground arith

bol_iff : (l : Line) (p : ℕ) → ((p == 0 && not (at_crater l p)) ≡ true) ↔ ((p ≡ 0) × OffCrater l p)
bol_iff l p = ground arith

bow_bools :
    (c w b : Bool) → ((not c && w && not b) ≡ true) ↔ ((c ≡ false) × (w ≡ true) × (¬ (b ≡ true)))
bow_bools c w b = ground arith

eow_bools :
    (c z w b : Bool)
    → (z ≡ true → w ≡ false)
    → ((not c && (z || not w) && b) ≡ true) ↔ ((c ≡ false) × (¬ (w ≡ true)) × (b ≡ true))
eow_bools c z w b h = ground arith

ident_nul : (l : Line) (p : ℕ) → (at l p == 0) ≡ true → is_ident l.mode (at l p) ≡ false
unfolding is_ident
ident_nul l p h = let e : at l p ≡ 0 = (==_iff (at l p) 0).0 h in rw e (nul l.mode)
  where
    nul : (m : Major) → is_ident m 0 ≡ false
    nul fundamental = refl
    nul text_mode = refl
    nul c_mode = refl

bow_iff :
    (l : Line) (p : ℕ)
    → ((not (at_crater l p)
          && is_ident l.mode (at l p)
          && (p == 0 || not (is_ident l.mode (at l (p - 1)))))
        ≡ true)
      ↔ (OffCrater l p × WordAt l p × (¬ WordBefore l p))
bow_iff l zero = bow_start (at_crater l 0) (is_ident l.mode (at l 0))
  where
    bow_start : (c w : Bool) → ((not c && w && true) ≡ true) ↔ ((c ≡ false) × (w ≡ true) × (¬ ⊥))
    bow_start c w = ground arith
bow_iff l (suc p) =
    let e : (suc p == 0) ≡ false = ground arith in
    let m : suc p - 1 ≡ p = omega arith in
    rw (e, m)
      (bow_bools (at_crater l (suc p)) (is_ident l.mode (at l (suc p))) (is_ident l.mode (at l p)))

eow_iff :
    (l : Line) (p : ℕ)
    → ((not (at_crater l p)
          && (at l p == 0 || not (is_ident l.mode (at l p)))
          && (not (p == 0) && is_ident l.mode (at l (p - 1))))
        ≡ true)
      ↔ (OffCrater l p × (¬ WordAt l p) × WordBefore l p)
eow_iff l zero = eow_start (at_crater l 0) (at l 0 == 0) (is_ident l.mode (at l 0))
  where
    eow_start :
        (c z w : Bool)
        → ((not c && (z || not w) && false) ≡ true) ↔ ((c ≡ false) × (¬ (w ≡ true)) × ⊥)
    eow_start c z w = ground arith
eow_iff l (suc p) =
    let e : (suc p == 0) ≡ false = ground arith in
    let m : suc p - 1 ≡ p = omega arith in
    rw (e, m)
      (eow_bools (at_crater l (suc p)) (at l (suc p) == 0) (is_ident l.mode (at l (suc p)))
        (is_ident l.mode (at l p)) (ident_nul l (suc p)))

-- `REmatch` on code with neither back references nor alternates within `\{ \}` always answers, and
-- answers rightly: where it succeeds the code matches up to the position that it gives, and where
-- it fails the code matches up to no position.
pub re_match-Verdict :
    (l : Line) (k : Code) (p : ℕ) (g : Groups) → Regular k → Verdict l k p (re_match l k p g)
unfolding re_match Matches Regular
re_match-Verdict l eop p g h = refl
re_match-Verdict l (normc cs k) p g h =
    when-Verdict l (normc cs k) k p (p + length cs) _ _ g (Spells l cs p) (literal_iff l cs p)
      (λ e. (λ d. d, λ d. d)) (λ t. re_match-Verdict l k (p + length cs) g h.1)
re_match-Verdict l (cindc cs k) p g h =
    when-Verdict l (cindc cs k) k p (p + length cs) _ _ g (SpellsFolded l cs p)
      (literal_folded_iff l cs p) (λ e. (λ d. d, λ d. d))
      (λ t. re_match-Verdict l k (p + length cs) g h.1)
re_match-Verdict l (anyc k) p g h =
    when-Verdict l (anyc k) k p (suc p) _ _ g (Means any (at l p)) (any_iff (at l p))
      (λ e. (λ d. d, λ d. d)) (λ t. re_match-Verdict l k (suc p) g h)
re_match-Verdict l (at_bol k) p g h =
    when-Verdict l (at_bol k) k p p _ _ g ((p ≡ 0) × OffCrater l p) (bol_iff l p)
      (λ e. (λ (a, b, d). ((a, b), d), λ (t, d). (t.0, t.1, d))) (λ t. re_match-Verdict l k p g h)
re_match-Verdict l (at_eol k) p g h =
    when-Verdict l (at_eol k) k p p _ _ g (at l p ≡ 0) (==_iff (at l p) 0) (λ e. (λ d. d, λ d. d))
      (λ t. re_match-Verdict l k p g h)
re_match-Verdict l (at_bow k) p g h =
    when-Verdict l (at_bow k) k p p _ _ g (OffCrater l p × WordAt l p × (¬ WordBefore l p))
      (bow_iff l p) (λ e. (λ (a, b, c, d). ((a, b, c), d), λ (t, d). (t.0, t.1, t.2, d)))
      (λ t. re_match-Verdict l k p g h)
re_match-Verdict l (at_eow k) p g h =
    when-Verdict l (at_eow k) k p p _ _ g (OffCrater l p × (¬ WordAt l p) × WordBefore l p)
      (eow_iff l p) (λ e. (λ (a, b, c, d). ((a, b, c), d), λ (t, d). (t.0, t.1, t.2, d)))
      (λ t. re_match-Verdict l k p g h)
re_match-Verdict l (Code.one_of s k) p g h =
    when-Verdict l (Code.one_of s k) k p (suc p) _ _ g (Means (Atom.one_of s) (at l p))
      (unfold accepts in accepts_iff (Atom.one_of s) (at l p)) (λ e. (λ d. d, λ d. d))
      (λ t. re_match-Verdict l k (suc p) g h)
re_match-Verdict l (Code.none_of s k) p g h =
    when-Verdict l (Code.none_of s k) k p (suc p) _ _ g (Means (Atom.none_of s) (at l p))
      (unfold accepts in accepts_iff (Atom.none_of s) (at l p)) (λ e. (λ d. d, λ d. d))
      (λ t. re_match-Verdict l k (suc p) g h)
re_match-Verdict l (openp n k) p g h =
    moved_on (re_match l k p _) (re_match-Verdict l k p (record g { starts = put g.starts n p }) h)
  where
    moved_on : (r : Result) → Verdict l k p r → Verdict l (openp n k) p r
    moved_on (success e g') v = v
    moved_on (failure g') v = v
    moved_on hang v = v
    moved_on wild v = v
re_match-Verdict l (closep n k) p g h =
    moved_on (re_match l k p _) (re_match-Verdict l k p (record g { ends = put g.ends n p }) h)
  where
    moved_on : (r : Result) → Verdict l k p r → Verdict l (closep n k) p r
    moved_on (success e g') v = v
    moved_on (failure g') v = v
    moved_on hang v = v
    moved_on wild v = v
re_match-Verdict l (star a k) p g h =
    try_star-Verdict l a k p (λ q g'. re_match-Verdict l k q g' h.1) (run l a (length l.text - p) p)
      g (run-Repeats l a (length l.text - p) p)
      (λ m e lt rep d.
        absurd (omega (arith, run-most l a (length l.text - p) p m h.0 (omega arith) rep)))
re_match-Verdict l _ p g h = absurd h
