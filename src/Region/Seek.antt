-- ===== src/Region/Seek.antt =====
-- Following a pointer finds its line, where the addresses are distinct.
use jove.Base.{
  ◌≡◌, ◌≢◌, refl, sym, ap, ◌∙◌, List, [], ◌∷◌, ◌++◌, push_all, Option, none, some, ◌⊎◌, inl, inr,
  arith,
}
use jove.Buffer.{Buffer, Line, LinePtr, Apart, Distinct, lines, Ahead}
use jove.Buffer.View.{Distinct-push_all, Apart-append_left, Apart-append_right}
use jove.Region.{seek_up, seek_down, to_line}

abbrev pub Has : LinePtr → List Line → Type 0
Has k [] = ⊥
Has k (l ∷ ls) = (k ≡ l.id) ⊎ Has k ls

pub Has-append :
    (k : LinePtr) (xs : List Line) (l : Line) (ys : List Line) → k ≡ l.id → Has k (xs ++ l ∷ ys)
Has-append k [] l ys e = inl e
Has-append k (x ∷ xs) l ys e = inr (Has-append k xs l ys e)

pub Apart-Has : (j k : LinePtr) (ls : List Line) → Apart j ls → Has k ls → k ≢ j
Apart-Has j k [] a h = absurd h
Apart-Has j k (l ∷ ls) a (inl e) = λ e'. a.0 (sym e' ∙ e)
Apart-Has j k (l ∷ ls) a (inr h) = Apart-Has j k ls a.1 h

-- An address that is in use further down is not in use above.
pub Apart-above :
    (k : LinePtr) (xs ys : List Line) → Distinct (push_all xs ys) → Has k ys → Apart k xs
Apart-above k [] ys d h = tt
Apart-above k (x ∷ xs) ys d h =
    (Apart-Has x.id k ys (Distinct-push_all xs (x ∷ ys) d).0 h, Apart-above k xs (x ∷ ys) d (inr h))

-- Going on upwards from above a line.
seek_rest : LinePtr → List Line → List Line → Buffer → Option Buffer
seek_rest k [] below b = none
seek_rest k (u ∷ us) below b = seek_up k us u below b

seek_up-next :
    (k : LinePtr) (s : List Line) (l : Line) (below : List Line) (b : Buffer)
    → k ≢ l.id
    → seek_up k s l below b ≡ seek_rest k s (l ∷ below) b
unfolding seek_up seek_rest
seek_up-next k [] l below b n = ground arith
seek_up-next k (u ∷ us) l below b n = ground arith

seek_up-pass :
    (k : LinePtr) (mid s : List Line) (l : Line) (below : List Line) (b : Buffer)
    → Apart k mid
    → k ≢ l.id
    → seek_up k (push_all mid s) l below b ≡ seek_rest k s (mid ++ l ∷ below) b
unfolding seek_rest
seek_up-pass k [] s l below b a n = seek_up-next k s l below b n
seek_up-pass k (m ∷ ms) s l below b a n =
    seek_up-pass k ms (m ∷ s) l below b a.1 n ∙ seek_up-next k s m (ms ++ l ∷ below) b a.0

seek_up-none :
    (k : LinePtr) (above : List Line) (l : Line) (below : List Line) (b : Buffer)
    → Apart k above
    → k ≢ l.id
    → seek_up k above l below b ≡ none
unfolding seek_up
seek_up-none k [] l below b a n = ground arith
seek_up-none k (u ∷ us) l below b a n = ground (arith, seek_up-none k us u (l ∷ below) b a.1 a.0)

seek_up-here :
    (above : List Line) (l : Line) (below : List Line) (b : Buffer)
    → seek_up l.id above l below b ≡ some (record b { above = above; here = l; below = below })
unfolding seek_up
seek_up-here [] l below b = ground arith
seek_up-here (u ∷ us) l below b = ground arith

seek_down-here :
    (above : List Line) (l : Line) (below : List Line) (b : Buffer)
    → seek_down l.id above l below b ≡ some (record b { above = above; here = l; below = below })
unfolding seek_down
seek_down-here above l [] b = ground arith
seek_down-here above l (u ∷ us) b = ground arith

seek_down-pass :
    (k : LinePtr) (mid above : List Line) (l l2 : Line) (rest : List Line) (b : Buffer)
    → Apart k mid
    → k ≢ l.id
    → k ≡ l2.id
    → seek_down k above l (mid ++ l2 ∷ rest) b
      ≡ some (record b { above = push_all mid (l ∷ above); here = l2; below = rest })
unfolding seek_down
seek_down-pass k [] above l l2 rest b a n e = ground (arith, seek_down-here (l ∷ above) l2 rest b)
seek_down-pass k (m ∷ ms) above l l2 rest b a n e =
    ground (arith, seek_down-pass k ms (l ∷ above) m l2 rest b a.1 a.0 e)

-- The address of the current line leads back to it.
pub to_line-here : (b : Buffer) → to_line b.here.id b ≡ some b
unfolding to_line
to_line-here b = rw (seek_up-here b.above b.here b.below b, to_line)

Apart-before : (k : LinePtr) (xs ys : List Line) → Distinct (xs ++ ys) → Has k ys → Apart k xs
Apart-before k [] ys d h = tt
Apart-before k (x ∷ xs) ys d h =
    (Apart-Has x.id k ys (Apart-append_right x.id xs ys d.0) h, Apart-before k xs ys d.1 h)

module _ (b b' : Buffer) (d : Distinct (lines b)) where
  pub below-Distinct : Distinct (b.here ∷ b.below)
  below-Distinct = Distinct-push_all b.above (b.here ∷ b.below) d

  -- The line of the lower place is none of those from the upper place up to it.
  pub lower-Apart :
      (mid : List Line)
      → b.below ≡ mid ++ b'.here ∷ b'.below
      → Apart b'.here.id mid × (b.here.id ≢ b'.here.id)
  lower-Apart mid l = (
    Apart-before b'.here.id mid (b'.here ∷ b'.below) (rw l at (below-Distinct.1)) (inl refl),
    λ e.
        Apart-Has b.here.id b'.here.id b.below below-Distinct.0
          (rw l (Has-append b'.here.id mid b'.here b'.below refl)) (sym e),
  )

  -- From the lower place to the upper.
  pub to_line-upper :
      Ahead b b'
      → to_line b.here.id b' ≡ some (record b' { above = b.above; here = b.here; below = b.below })
  unfolding to_line
  to_line-upper (inl (a, h, l)) = rw (← a, ← h, ← l) (to_line-here b')
  to_line-upper (inr (mid, a, l)) = rw (found, to_line)
    where
      apart : Apart b.here.id (mid ++ b'.here ∷ b'.below)
      apart = rw l at (below-Distinct.0)

      found :
          seek_up b.here.id b'.above b'.here b'.below b'
          ≡ some (record b' { above = b.above; here = b.here; below = b.below })
      found =
          ap (λ z. seek_up b.here.id z b'.here b'.below b') a
          ∙ seek_up-pass b.here.id mid (b.here ∷ b.above) b'.here b'.below b'
              (Apart-append_left b.here.id mid (b'.here ∷ b'.below) apart)
              (Apart-append_right b.here.id mid (b'.here ∷ b'.below) apart).0
          ∙ unfold seek_rest in
            seek_up-here b.above b.here (mid ++ b'.here ∷ b'.below) b'
            ∙ ap (λ z. some (record b' { above = b.above; here = b.here; below = z })) (sym l)

  -- From the upper place to the lower.
  pub to_line-lower :
      Ahead b b'
      → to_line b'.here.id b
        ≡ some (record b { above = b'.above; here = b'.here; below = b'.below })
  unfolding to_line
  to_line-lower (inl (a, h, l)) = rw (a, h, l) (to_line-here b)
  to_line-lower (inr (mid, a, l)) = rw (missed, found, to_line)
    where
      has : Has b'.here.id b.below
      has = rw l (Has-append b'.here.id mid b'.here b'.below refl)

      missed : seek_up b'.here.id b.above b.here b.below b ≡ none
      missed =
          seek_up-none b'.here.id b.above b.here b.below b
            (Apart-above b'.here.id b.above (b.here ∷ b.below) d (inr has))
            (Apart-Has b.here.id b'.here.id b.below below-Distinct.0 has)

      found :
          seek_down b'.here.id b.above b.here b.below b
          ≡ some (record b { above = b'.above; here = b'.here; below = b'.below })
      found =
          ap (λ z. seek_down b'.here.id b.above b.here z b) l
          ∙ seek_down-pass b'.here.id mid b.above b.here b'.here b'.below b
              (Apart-before b'.here.id mid (b'.here ∷ b'.below) (rw l at (below-Distinct.1))
                (inl refl))
              (Apart-Has b.here.id b'.here.id b.below below-Distinct.0 has) refl
          ∙ ap (λ z. some (record b { above = z; here = b'.here; below = b'.below })) (sym a)
