-- ===== src/Region/Order.antt =====
-- `inorder` and `fixorder` on two places of which one lies before the other.
use jove.Base.{
  ℕ, suc, ◌<◌, ◌≡◌, ◌≢◌, refl, sym, ap, List, [], ◌∷◌, push_all, Bool, true, false, lt→ltb, ◌==◌,
  Option, none, some, inl, inr, arith, Bool-cases,
}
use jove.Buffer.{Buffer, Line, LinePtr, Bufpos, Apart, Distinct, lines, Ahead}
use jove.Buffer.View.{Apart-append_right}
use jove.Region.{reordered, to_line, dot, outward, inorder, inorder_from, fixorder}
use jove.Region.Seek.{
  Has, Has-append, Apart-above, below-Distinct, lower-Apart, to_line-here, to_line-upper,
  to_line-lower,
}

-- The place of `b` lies before that of `b'`.
abbrev pub Before : Buffer → Buffer → Type 0
Before b b' = Ahead b b' × (b.here.id ≡ b'.here.id → b.curchar < b'.curchar)

-- A search that found the position in the direction `d`.
abbrev pub Found : Bool → Option (Bool × ℕ) → Type 0
Found d none = ⊥
Found d (some (e, n)) = e ≡ d

same-id : (l : Line) (k : LinePtr) → k ≡ l.id → (l.id == k) ≡ true
same-id l k e = ground arith

other-id : (l : Line) (k : LinePtr) → k ≢ l.id → (l.id == k) ≡ false
other-id l k n = ground arith

outward-below :
    (endp : LinePtr) (n : ℕ) (downs ups : List Line)
    → Has endp downs
    → Apart endp ups
    → Found true (outward endp n downs ups)
unfolding outward
outward-below endp n [] ups h a = absurd h
outward-below endp n (d ∷ ds) [] (inl e) a = rw (same-id d endp e) refl
outward-below endp n (d ∷ ds) [] (inr h) a = elim (Bool-cases (d.id == endp)) [
  | inl t ↦ rw t refl
  | inr f ↦ rw f (outward-below endp (suc n) ds [] h tt)
]
outward-below endp n (d ∷ ds) (u ∷ us) (inl e) a = rw (same-id d endp e) refl
outward-below endp n (d ∷ ds) (u ∷ us) (inr h) a = elim (Bool-cases (d.id == endp)) [
  | inl t ↦ rw t refl
  | inr f ↦ rw (f, other-id u endp a.0) (outward-below endp (suc n) ds us h a.1)
]

outward-above :
    (endp : LinePtr) (n : ℕ) (downs ups : List Line)
    → Has endp ups
    → Apart endp downs
    → Found false (outward endp n downs ups)
unfolding outward
outward-above endp n ds [] h a = absurd h
outward-above endp n [] (u ∷ us) (inl e) a = rw (same-id u endp e) refl
outward-above endp n [] (u ∷ us) (inr h) a = elim (Bool-cases (u.id == endp)) [
  | inl t ↦ rw t refl
  | inr f ↦ rw f (outward-above endp (suc n) [] us h tt)
]
outward-above endp n (d ∷ ds) (u ∷ us) (inl e) a = rw (other-id d endp a.0, same-id u endp e) refl
outward-above endp n (d ∷ ds) (u ∷ us) (inr h) a = elim (Bool-cases (u.id == endp)) [
  | inl t ↦ rw (other-id d endp a.0, t) refl
  | inr f ↦ rw (other-id d endp a.0, f) (outward-above endp (suc n) ds us h a.1)
]

Has-push_all : (k : LinePtr) (xs ys : List Line) → Has k ys → Has k (push_all xs ys)
Has-push_all k [] ys h = h
Has-push_all k (x ∷ xs) ys h = Has-push_all k xs (x ∷ ys) (inr h)

module _ (b b' : Buffer) (d : Distinct (lines b)) (before : Before b b') where
  -- Seen from the upper place, the lower one is below.
  inorder_from-upper :
      (c : Buffer)
      → c.above ≡ b.above
      → c.here ≡ b.here
      → c.below ≡ b.below
      → Found true (inorder_from c b.curchar b'.here.id b'.curchar)
  unfolding inorder_from
  inorder_from-upper c ea eh eb = elim before.0 [
    | inl (a, h, k) ↦
        let t : (c.here.id == b'.here.id) ≡ true =
          ground (arith, ap (λ z. z.id) h, ap (λ z. z.id) eh) in
        rw t (lt→ltb b.curchar b'.curchar (before.1 (sym (ap (λ z. z.id) h))))
    | inr (mid, a, k) ↦
        let ne = (lower-Apart b b' d mid k).1 in
        let f : (c.here.id == b'.here.id) ≡ false = ground (arith, ap (λ z. z.id) eh) in
        let has : Has b'.here.id b.below = rw k (Has-append b'.here.id mid b'.here b'.below refl) in
        rw f (
          outward-below b'.here.id 0 c.below c.above (rw eb has)
            (rw ea (Apart-above b'.here.id b.above (b.here ∷ b.below) d (inr has))))
  ]

  -- Seen from the lower place, the upper one is above.
  inorder_from-lower :
      (c : Buffer)
      → c.above ≡ b'.above
      → c.here ≡ b'.here
      → c.below ≡ b'.below
      → Found false (inorder_from c b'.curchar b.here.id b.curchar)
  unfolding inorder_from
  inorder_from-lower c ea eh eb = elim before.0 [
    | inl (a, h, k) ↦
        let t : (c.here.id == b.here.id) ≡ true =
          ground (arith, ap (λ z. z.id) h, ap (λ z. z.id) eh) in
        rw t (ground (arith, before.1 (sym (ap (λ z. z.id) h))))
    | inr (mid, a, k) ↦
        let ne = (lower-Apart b b' d mid k).1 in
        let f : (c.here.id == b.here.id) ≡ false = ground (arith, ap (λ z. z.id) eh) in
        rw f (
          outward-above b.here.id 0 c.below c.above
            (rw (ea, a) (Has-push_all b.here.id mid (b.here ∷ b.above) (inl refl)))
            (rw eb
              (Apart-append_right b.here.id mid (b'.here ∷ b'.below)
                (rw k at ((below-Distinct b b' d).0))).1))
  ]

reordered-below :
    (o : Option (Bool × ℕ)) (p q : Bufpos) → Found true o → reordered o p q ≡ (p, q, false)
reordered-below none p q f = absurd f
reordered-below (some (true, n)) p q f = refl
reordered-below (some (false, n)) p q f = absurd (cc)

reordered-above :
    (o : Option (Bool × ℕ)) (p q : Bufpos) → Found false o → reordered o p q ≡ (q, p, true)
reordered-above none p q f = absurd f
reordered-above (some (true, n)) p q f = absurd (cc)
reordered-above (some (false, n)) p q f = refl

inorder-at :
    (p q : Bufpos) (c c' : Buffer)
    → to_line p.line c ≡ some c'
    → inorder p q c ≡ inorder_from c' p.char q.line q.char
unfolding inorder
inorder-at p q c c' e = rw (e, inorder)

-- Two places of which the first lies before the second are in order, whichever of the two is the
-- current one; given the other way round they are exchanged.
module _ (b b' : Buffer) (d : Distinct (lines b)) (before : Before b b') where
  fixorder-upper_from :
      (c c' : Buffer)
      → to_line b.here.id c ≡ some c'
      → c'.above ≡ b.above
      → c'.here ≡ b.here
      → c'.below ≡ b.below
      → fixorder (dot b) (dot b') c ≡ (dot b, dot b', false)
  unfolding fixorder
  fixorder-upper_from c c' e ea eh eb =
      rw (inorder-at (dot b) (dot b') c c' e)
        (reordered-below _ _ _ (inorder_from-upper b b' d before c' ea eh eb))

  fixorder-lower_from :
      (c c' : Buffer)
      → to_line b'.here.id c ≡ some c'
      → c'.above ≡ b'.above
      → c'.here ≡ b'.here
      → c'.below ≡ b'.below
      → fixorder (dot b') (dot b) c ≡ (dot b, dot b', true)
  unfolding fixorder
  fixorder-lower_from c c' e ea eh eb =
      rw (inorder-at (dot b') (dot b) c c' e)
        (reordered-above _ _ _ (inorder_from-lower b b' d before c' ea eh eb))

  pub fixorder-upper : fixorder (dot b) (dot b') b ≡ (dot b, dot b', false)
  fixorder-upper = fixorder-upper_from b b (to_line-here b) refl refl refl

  pub fixorder-upper_below : fixorder (dot b) (dot b') b' ≡ (dot b, dot b', false)
  fixorder-upper_below = fixorder-upper_from b' _ (to_line-upper b b' d before.0) refl refl refl

  pub fixorder-lower : fixorder (dot b') (dot b) b ≡ (dot b, dot b', true)
  fixorder-lower = fixorder-lower_from b _ (to_line-lower b b' d before.0) refl refl refl

  pub fixorder-lower_below : fixorder (dot b') (dot b) b' ≡ (dot b, dot b', true)
  fixorder-lower_below = fixorder-lower_from b' b' (to_line-here b') refl refl refl
