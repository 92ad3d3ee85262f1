-- ===== src/Search/Backref.antt =====
-- Back references: what an empty group does, and that a group with text in it ends its repeats.
use jove.Base.{
  ℕ, zero, suc, ◌+◌, ◌-◌, ◌≤◌, ◌<◌, ◌≡◌, ◌≢◌, refl, true, false, ◌==◌, none, some, arith, length,
  Bool-cases, inl, inr, ==_iff,
}
use jove.Search.{
  Line, Code, Groups, Result, failure, hang, re_match, backref, star_backref, at, backref_at,
  same_text, repeats, match_backref, match_repeats,
}
use jove.Search.Sound.{at-past}

-- An empty group is compared by the one byte where it stands.
backref_at-empty : (l : Line) (bs p : ℕ) → backref_at l bs bs p ≡ (at l bs == at l p)
unfolding backref_at same_text
backref_at-empty l bs p = let e : bs - bs - 1 ≡ 0 = omega arith in rw e

repeats-empty : (l : Line) (bs fuel p : ℕ) → at l bs ≡ at l p → repeats l bs bs fuel p ≡ none
unfolding repeats
repeats-empty l bs zero p h = refl
repeats-empty l bs (suc fuel) p h =
    let e : p + bs - bs ≡ p = omega arith in
    let t : backref_at l bs bs p ≡ true =
      rw (backref_at-empty l bs p) ((==_iff (at l bs) (at l p)).1 h) in
    rw (t, e, repeats-empty l bs fuel p h) refl

refused-empty :
    (l : Line) (n bs p : ℕ) (next : ℕ → Groups → Result) (g : Groups)
    → g.starts n ≡ some bs
    → g.ends n ≡ some bs
    → at l bs ≢ at l p
    → match_backref l n next p g ≡ failure g
unfolding match_backref
refused-empty l n bs p next g hs he ne =
    let f : (at l bs == at l p) ≡ false = ground arith in
    rw (match_backref, hs, he, backref_at-empty l bs p, f) refl

hangs-empty :
    (l : Line) (n bs p : ℕ) (next : ℕ → Groups → Result) (g : Groups)
    → g.starts n ≡ some bs
    → g.ends n ≡ some bs
    → at l bs ≡ at l p
    → match_repeats l n next p g ≡ hang
unfolding match_repeats
hangs-empty l n bs p next g hs he eq =
    rw (match_repeats, hs, he, repeats-empty l bs (length l.text + 1) p eq) refl

-- A reference to a group that has matched the empty string fails where the byte at the group's
-- place differs from the byte at the reference's place, whatever code follows, though the empty
-- string stands everywhere.
pub re_match-empty_backref :
    (l : Line) (n : ℕ) (k : Code) (p bs : ℕ) (g : Groups)
    → g.starts n ≡ some bs
    → g.ends n ≡ some bs
    → at l bs ≢ at l p
    → re_match l (backref n k) p g ≡ failure g
unfolding re_match
re_match-empty_backref l n k p bs g hs he = refused-empty l n bs p (re_match l k) g hs he

-- The starred reference to a group that has matched the empty string never ends where the byte at
-- the group's place equals the byte at the reference's place.
pub re_match-empty_repeats :
    (l : Line) (n : ℕ) (k : Code) (p bs : ℕ) (g : Groups)
    → g.starts n ≡ some bs
    → g.ends n ≡ some bs
    → at l bs ≡ at l p
    → re_match l (star_backref n k) p g ≡ hang
unfolding re_match
re_match-empty_repeats l n k p bs g hs he = hangs-empty l n bs p (re_match l k) g hs he

same_text-first : (l : Line) (n bs p : ℕ) → same_text l n bs p ≡ true → at l bs ≡ at l p
unfolding same_text
same_text-first l zero bs p h = (==_iff (at l bs) (at l p)).0 h
same_text-first l (suc n) bs p h = ground arith

same_text-short :
    (l : Line) (n bs p : ℕ) → at l bs ≢ 0 → same_text l n bs p ≡ true → p < length l.text
same_text-short l n bs p c t =
    let e = same_text-first l n bs p t in
    let past : length l.text ≤ p → at l p ≡ 0 = at-past l p in grind arith

-- The repeats of a group that holds text end within the line: the loop stops at a count of
-- repeats before its rounds run out.
pub repeats-end :
    (l : Line) (bs be fuel p : ℕ)
    → bs < be
    → at l bs ≢ 0
    → length l.text ≤ p + fuel
    → (k : ℕ) × (repeats l bs be (suc fuel) p ≡ some k)
unfolding repeats backref_at
repeats-end l bs be zero p h c room = elim (Bool-cases (same_text l (be - bs - 1) bs p)) [
  | inr f ↦ (0, rw f refl)
  | inl t ↦ absurd (omega (arith, same_text-short l (be - bs - 1) bs p c t))
]
repeats-end l bs be (suc fuel) p h c room = elim (Bool-cases (same_text l (be - bs - 1) bs p)) [
  | inr f ↦ (0, rw f refl)
  | inl t ↦
      let r = repeats-end l bs be fuel (p + be - bs) h c (omega arith) in
      (suc r.0, rw (t, r.1) refl)
]
