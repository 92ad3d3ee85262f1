-- ===== src/Scan/Leftmost.antt =====
-- `re_lindex` finds the first match from its offset on, or the last one up to it.
use jove.Base.{
  ℕ, zero, suc, ◌+◌, ◌-◌, ◌≤◌, ◌<◌, ◌≡◌, ◌≢◌, ◌⊎◌, inl, inr, refl, ap, List, [], ◌∷◌, Bool, true,
  false, not, ◌&&◌, ◌||◌, ◌==◌, Option, none, some, arith, length, Bool-cases, ==_iff, get_or,
}
use Prim.Native.Nat.{zero-le}
use mathlib.Core.Path.{subst}
use native.Mathlib.Decide.{ℕ_discrete, dec_lt}
use jove.Buffer.{Text}
use jove.Chars.{char_upcase}
use jove.Search.{
  Line, Code, Result, Groups, success, failure, hang, wild, at, re_match, re_reset, or_next,
}
use jove.Search.Spec.{Matches}
use jove.Search.Sound.{Regular, Verdict, re_match-Verdict, at-past}
use jove.Scan.{
  ReBlock, re_block, first_op, match_alternates, attempt, Sought, found, missing, never_ends,
  wild_pointer, or_search, once, scan_forward, scan_backward, ahead, back, re_lindex, is_some,
}
use jove.Scan.Firstc.{firstc_sound, anchored_sound}

-- Some alternate matches from `p` to `e`.
abbrev pub AnyMatches : Line → List Code → ℕ → ℕ → Type 0
AnyMatches l [] p e = ⊥
AnyMatches l (k ∷ ks) p e = Matches l k p e ⊎ AnyMatches l ks p e

abbrev pub AllRegular : List Code → Type 0
AllRegular [] = Unit
AllRegular (k ∷ ks) = Regular k × AllRegular ks

abbrev Tells : Line → List Code → ℕ → Result → Type 0
Tells l ks p (success e g) = AnyMatches l ks p e
Tells l ks p (failure g) = (e : ℕ) → ¬ AnyMatches l ks p e
Tells l ks p _ = ⊥

or_next-Tells :
    (l : Line) (k : Code) (ks : List Code) (p : ℕ) (r : Result) (next : Groups → Result)
    → Verdict l k p r
    → ((g : Groups) → Tells l ks p (next g))
    → Tells l (k ∷ ks) p (or_next r next)
or_next-Tells l k ks p (success e g) next v rest = inl v
or_next-Tells l k ks p (failure g) next v rest = later (next g) (rest g)
  where
    later : (r : Result) → Tells l ks p r → Tells l (k ∷ ks) p r
    later (success e g') t = inr t
    later (failure g') t = λ e m. elim m [ inl d ↦ v e d | inr d ↦ t e d ]
    later hang t = t
    later wild t = t
or_next-Tells l k ks p hang next v rest = v
or_next-Tells l k ks p wild next v rest = v

match_alternates-Tells :
    (l : Line) (ks : List Code) (p : ℕ) (g : Groups)
    → AllRegular ks
    → Tells l ks p (match_alternates l ks p g)
unfolding match_alternates
match_alternates-Tells l [] p g h = λ e m. m
match_alternates-Tells l (k ∷ ks) p g h =
    or_next-Tells l k ks p (re_match l k p g) (match_alternates l ks p)
      (re_match-Verdict l k p g h.0) (λ g'. match_alternates-Tells l ks p g' h.1)

one-Tells : (l : Line) (k : Code) (p : ℕ) (r : Result) → Verdict l k p r → Tells l (k ∷ []) p r
one-Tells l k p (success e g) v = inl v
one-Tells l k p (failure g) v = λ e m. elim m [ inl d ↦ v e d | inr d ↦ d ]
one-Tells l k p hang v = v
one-Tells l k p wild v = v

tested-Tells :
    (l : Line) (ks : List Code) (p : ℕ) (b : Bool) (x y : Result)
    → (b ≡ true → Tells l ks p x)
    → (b ≡ false → Tells l ks p y)
    → Tells l ks p (elim b [ true ↦ x | false ↦ y ])
tested-Tells l ks p true x y hx hy = hx refl
tested-Tells l ks p false x y hx hy = hy refl

-- The test at one position, with a first character to look at or none.
attempt-one :
    (l : Line) (k : Code) (first : Option ℕ) (anchored : Bool) (p : ℕ) (g : Groups)
    → Regular k
    → ((c : ℕ) → first ≡ some c → (e : ℕ) → Matches l k p e → char_upcase (at l p) ≡ c)
    → Tells l
        (k ∷ [])
        p
        (attempt l (record { alternates = k ∷ []; firstc = first; anchored = anchored }) p g)
unfolding attempt match_alternates
attempt-one l k none anchored p g h sound = match_alternates-Tells l (k ∷ []) p g (h, tt)
attempt-one l k (some c) anchored p g h sound =
    tested-Tells l (k ∷ []) p (char_upcase (at l p) == c) _ _
      (λ t. one-Tells l k p (re_match l k p g) (re_match-Verdict l k p g h))
      (λ f e m. elim m [
        | inl d ↦ let t = (==_iff (char_upcase (at l p)) c).1 (sound c refl e d) in cc
        | inr d ↦ d
      ])

attempt-Tells :
    (l : Line) (ks : List Code) (p : ℕ) (g : Groups)
    → AllRegular ks
    → Tells l ks p (attempt l (re_block ks) p g)
unfolding attempt re_block match_alternates
attempt-Tells l [] p g h = match_alternates-Tells l [] p g h
attempt-Tells l (k ∷ []) p g h =
    attempt-one l k (first_op k).0 (first_op k).1 p g h.0 (λ c e q m. firstc_sound l k p q c e m)
attempt-Tells l (k ∷ k' ∷ ks) p g h = match_alternates-Tells l (k ∷ k' ∷ ks) p g h

-- A pattern that is tried once only matches at the start of the line alone.
once-start :
    (l : Line) (ks : List Code) (p e : ℕ)
    → (re_block ks).anchored ≡ true
    → AnyMatches l ks p e
    → p ≡ 0
unfolding re_block
once-start l [] p e h m = absurd m
once-start l (k ∷ []) p e h (inl m) = anchored_sound l k p e h m
once-start l (k ∷ []) p e h (inr m) = absurd m
once-start l (k ∷ k' ∷ ks) p e h m = absurd (cc)

abbrev pub NulFree : Text → Type 0
NulFree [] = Unit
NulFree (c ∷ cs) = (c ≢ 0) × NulFree cs

at-nul : (l : Line) (p : ℕ) → NulFree l.text → at l p ≡ 0 → length l.text ≤ p
at-nul l p h e = go l.text p h e
  where
    go : (t : Text) (n : ℕ) → NulFree t → get_or t n 0 ≡ 0 → length t ≤ n
    go [] n h e = zero-le
    go (c ∷ t) zero h e = absurd (h.0 e)
    go (c ∷ t) (suc n) h e = omega (arith, go t n h.1 e)

-- No alternate matches at any of the positions from `p` to `q`.
abbrev pub NoneFrom : Line → List Code → ℕ → ℕ → Type 0
NoneFrom l ks p q = (i e : ℕ) → p ≤ i → i ≤ q → ¬ AnyMatches l ks i e

-- The first match at `p` or after it, or none up to the end of the line.
abbrev pub FirstFrom : Line → List Code → ℕ → Sought → Type 0
FirstFrom l ks p (found b e g) =
    (p ≤ b) × AnyMatches l ks b e × ((i e' : ℕ) → p ≤ i → i < b → ¬ AnyMatches l ks i e')
FirstFrom l ks p missing = NoneFrom l ks p (length l.text)
FirstFrom l ks p _ = ⊥

-- The last match at `p` or before it, or none down to the start of the line.
abbrev pub LastUpTo : Line → List Code → ℕ → Sought → Type 0
LastUpTo l ks p (found b e g) = (b ≤ p) × AnyMatches l ks b e × NoneFrom l ks (suc b) p
LastUpTo l ks p missing = NoneFrom l ks 0 p
LastUpTo l ks p _ = ⊥

once-anchored : (b : ReBlock) → once b ≡ true → b.anchored ≡ true
once-anchored b h = ground arith

module _ (l : Line) (ks : List Code) (regular : AllRegular ks) (no_nul : NulFree l.text) where
  FirstFrom-suc :
      (p : ℕ) (s : Sought)
      → ((e : ℕ) → ¬ AnyMatches l ks p e)
      → FirstFrom l ks (suc p) s
      → FirstFrom l ks p s
  FirstFrom-suc p (found b e g) clear (le, m, before) = (omega arith, m, earlier)
    where
      earlier : (i e' : ℕ) → p ≤ i → i < b → ¬ AnyMatches l ks i e'
      earlier i e' h k d = elim (ℕ_discrete i p) [
        | yes eq ↦ clear e' (subst (λ z. AnyMatches l ks z e') eq d)
        | no ne ↦ before i e' (omega arith) k d
      ]
  FirstFrom-suc p missing clear rest = λ i e' h k d. elim (ℕ_discrete i p) [
    | yes eq ↦ clear e' (subst (λ z. AnyMatches l ks z e') eq d)
    | no ne ↦ rest i e' (omega arith) k d
  ]
  FirstFrom-suc p never_ends clear rest = rest
  FirstFrom-suc p wild_pointer clear rest = rest

  LastUpTo-suc :
      (p : ℕ) (s : Sought)
      → ((e : ℕ) → ¬ AnyMatches l ks (suc p) e)
      → LastUpTo l ks p s
      → LastUpTo l ks (suc p) s
  LastUpTo-suc p (found b e g) clear (le, m, later) = (
    omega arith,
    m,
    λ i e' h k d. elim (ℕ_discrete i (suc p)) [
      | yes eq ↦ clear e' (subst (λ z. AnyMatches l ks z e') eq d)
      | no ne ↦ later i e' h (omega arith) d
    ],
  )
  LastUpTo-suc p missing clear rest = λ i e' h k d. elim (ℕ_discrete i (suc p)) [
    | yes eq ↦ clear e' (subst (λ z. AnyMatches l ks z e') eq d)
    | no ne ↦ rest i e' h (omega arith) d
  ]
  LastUpTo-suc p never_ends clear rest = rest
  LastUpTo-suc p wild_pointer clear rest = rest

  -- The answer at one position, and the search that goes on if it is negative.
  or_search-FirstFrom :
      (p : ℕ) (r : Result) (next : Groups → Sought)
      → Tells l ks p r
      → (((e : ℕ) → ¬ AnyMatches l ks p e) → (g : Groups) → FirstFrom l ks p (next g))
      → FirstFrom l ks p (or_search p r next)
  or_search-FirstFrom p (success e g) next t go = (omega arith, t, λ i e' h k. absurd (omega arith))
  or_search-FirstFrom p (failure g) next t go = go t g
  or_search-FirstFrom p hang next t go = t
  or_search-FirstFrom p wild next t go = t

  or_search-LastUpTo :
      (p : ℕ) (r : Result) (next : Groups → Sought)
      → Tells l ks p r
      → (((e : ℕ) → ¬ AnyMatches l ks p e) → (g : Groups) → LastUpTo l ks p (next g))
      → LastUpTo l ks p (or_search p r next)
  or_search-LastUpTo p (success e g) next t go = (omega arith, t, λ i e' h k. absurd (omega arith))
  or_search-LastUpTo p (failure g) next t go = go t g
  or_search-LastUpTo p hang next t go = t
  or_search-LastUpTo p wild next t go = t

  -- With no match at `p`, and none further on, there is none at all.
  NoneFrom-here :
      (p : ℕ)
      → ((e : ℕ) → ¬ AnyMatches l ks p e)
      → ((i e : ℕ) → p < i → i ≤ length l.text → ¬ AnyMatches l ks i e)
      → NoneFrom l ks p (length l.text)
  NoneFrom-here p clear beyond i e h k d = elim (ℕ_discrete i p) [
    | yes eq ↦ clear e (subst (λ z. AnyMatches l ks z e) eq d)
    | no ne ↦ beyond i e (omega arith) k d
  ]

  tested-FirstFrom :
      (p : ℕ) (b : Bool) (x : Sought)
      → (b ≡ true → FirstFrom l ks p missing)
      → (b ≡ false → FirstFrom l ks p x)
      → FirstFrom l ks p (elim b [ true ↦ missing | false ↦ x ])
  tested-FirstFrom p true x hx hy = hx refl
  tested-FirstFrom p false x hx hy = hy refl

  stops :
      (p : ℕ)
      → (once (re_block ks) || at l p == 0) ≡ true
      → ((e : ℕ) → ¬ AnyMatches l ks p e)
      → NoneFrom l ks p (length l.text)
  stops p t clear = elim (Bool-cases (once (re_block ks))) [
    | inl o ↦ NoneFrom-here p clear (λ i e h k d.
        let z = once-start l ks i e (once-anchored (re_block ks) o) d in absurd (omega arith))
    | inr f ↦
        let nul : at l p ≡ 0 = ground arith in
        let past = at-nul l p no_nul nul in
        NoneFrom-here p clear (λ i e h k d. absurd (omega arith))
  ]

  scan_forward-FirstFrom :
      (n p : ℕ) (g : Groups)
      → p ≤ length l.text
      → length l.text < p + n
      → FirstFrom l ks p (scan_forward l (re_block ks) n p g)
  unfolding scan_forward
  scan_forward-FirstFrom zero p g le h = omega arith
  scan_forward-FirstFrom (suc n) p g le h =
      or_search-FirstFrom p (attempt l (re_block ks) p g) _ (attempt-Tells l ks p g regular)
        (λ clear g'.
          tested-FirstFrom p (once (re_block ks) || at l p == 0) _ (λ t. stops p t clear)
            (λ f.
              FirstFrom-suc p _ clear
                (scan_forward-FirstFrom n (suc p) g' (not-at-end p f) (omega arith))))
    where
      not-at-end : (q : ℕ) → (once (re_block ks) || at l q == 0) ≡ false → suc q ≤ length l.text
      not-at-end q f = elim (dec_lt q (length l.text)) [
        | yes lt ↦ lt
        | no ge ↦ absurd (ground (arith, at-past l q))
      ]

  tested-LastUpTo :
      (p : ℕ) (b : Bool) (x : Sought)
      → (b ≡ true → ⊥)
      → LastUpTo l ks p x
      → LastUpTo l ks p (elim b [ true ↦ missing | false ↦ x ])
  tested-LastUpTo p true x hx hy = absurd (hx refl)
  tested-LastUpTo p false x hx hy = hy

  scan_backward-LastUpTo :
      (p : ℕ) (g : Groups)
      → ((re_block ks).anchored ≡ true → p ≡ 0)
      → LastUpTo l ks p (scan_backward l (re_block ks) p g)
  unfolding scan_backward
  scan_backward-LastUpTo zero g h =
      or_search-LastUpTo 0 (attempt l (re_block ks) 0 g) _ (attempt-Tells l ks 0 g regular)
        (λ clear g' i e a b d. clear e (subst (λ z. AnyMatches l ks z e) (omega arith) d))
  scan_backward-LastUpTo (suc p) g h =
      or_search-LastUpTo (suc p) (attempt l (re_block ks) (suc p) g) _
        (attempt-Tells l ks (suc p) g regular)
        (λ clear g'.
          tested-LastUpTo (suc p) (once (re_block ks)) _
            (λ o. let z = h (once-anchored (re_block ks) o) in absurd (omega arith))
            (LastUpTo-suc p _ clear
              (scan_backward-LastUpTo p g' (λ a. absurd (let z = h a in omega arith)))))

-- Searching forward from an offset within a line that holds no NUL, with no earlier substitution,
-- finds the first position from the offset on where some alternate matches, and where it matches
-- up to; it answers NO only if there is none. It always returns.
pub re_lindex-FirstFrom :
    (l : Line) (ks : List Code) (start : ℕ)
    → AllRegular ks
    → NulFree l.text
    → start ≤ length l.text
    → l.crater ≡ none
    → FirstFrom l ks start (re_lindex l (some start) ahead (re_block ks))
unfolding re_lindex
re_lindex-FirstFrom l ks start h no_nul le c =
    elim (Bool-cases ((re_block ks).anchored && (not (start == 0) || is_some l.crater))) [
      | inl t ↦ rw t (λ i e from to d.
          let z = once-start l ks i e (ground arith) d in absurd (ground (arith, later t)))
      | inr f ↦ rw f (
          scan_forward-FirstFrom l ks h no_nul (length l.text - start + 1) start re_reset le
            (omega arith))
    ]
  where
    later : ((re_block ks).anchored && (not (start == 0) || is_some l.crater)) ≡ true → 0 < start
    later t = let x = ap is_some c in ground arith

-- Searching backward from an offset finds the last position up to the offset where some alternate
-- matches, or answers NO if there is none; an anchored pattern is looked for at the start of the
-- line alone. It always returns.
pub re_lindex-LastUpTo :
    (l : Line) (ks : List Code) (start : ℕ)
    → AllRegular ks
    → NulFree l.text
    → LastUpTo l ks start (re_lindex l (some start) back (re_block ks))
unfolding re_lindex re_block
re_lindex-LastUpTo l ks start h no_nul = elim (Bool-cases (re_block ks).anchored) [
  | inl a ↦ rw a (widened a _ (scan_backward-LastUpTo l ks h no_nul 0 re_reset (λ _. refl)))
  | inr f ↦ rw f (scan_backward-LastUpTo l ks h no_nul start re_reset (λ a. absurd (cc)))
]
  where
    widened :
        (re_block ks).anchored ≡ true → (s : Sought) → LastUpTo l ks 0 s → LastUpTo l ks start s
    widened a (found b e g) (le, m, later) =
        (omega arith, m, λ i e' from to d. let z = once-start l ks i e' a d in absurd (omega arith))
    widened a missing none_at =
        λ i e' from to d. none_at i e' from (let z = once-start l ks i e' a d in omega arith) d
    widened a never_ends v = v
    widened a wild_pointer v = v
