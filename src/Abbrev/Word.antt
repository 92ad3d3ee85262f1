-- ===== src/Abbrev/Word.antt =====
-- The word before point that `AbbrevExpand` takes (abbrev.c).
use jove.Base.{
  ℕ, zero, suc, ◌+◌, ◌≤◌, ◌<◌, ◌≡◌, refl, sym, ◌∙◌, ap, arith, [], ◌∷◌, ◌++◌, Bool, true, false,
  length, get_or,
}
use jove.Buffer.{Text}
use jove.Chars.{is_ident, Major}
use jove.Abbrev.{word_col, wordbuf}

-- All characters belong to a word.
abbrev pub AllIdent : Major → Text → Type 0
AllIdent m [] = Unit
AllIdent m (c ∷ cs) = (is_ident m c ≡ true) × AllIdent m cs

-- The last character does not, if there is one.
abbrev pub EndsOutside : Major → Text → Type 0
EndsOutside m [] = Unit
EndsOutside m (c ∷ []) = is_ident m c ≡ false
EndsOutside m (c ∷ d ∷ cs) = EndsOutside m (d ∷ cs)

get_or-append_left : (s t : Text) (i d : ℕ) → i < length s → get_or (s ++ t) i d ≡ get_or s i d
get_or-append_left [] t i d h = absurd (omega arith)
get_or-append_left (c ∷ s) t zero d h = refl
get_or-append_left (c ∷ s) t (suc i) d h = get_or-append_left s t i d (omega arith)

get_or-append_right : (s t : Text) (i d : ℕ) → get_or (s ++ t) (length s + i) d ≡ get_or t i d
get_or-append_right [] t i d = ap (λ i. get_or t i d) (omega arith)
get_or-append_right (c ∷ s) t i d =
    let step : suc (length s) + i ≡ suc (length s + i) = omega arith in
    rw (step) (get_or-append_right s t i d)

get_or-AllIdent :
    (m : Major) (w : Text) (i : ℕ) → AllIdent m w → i < length w → is_ident m (get_or w i 0) ≡ true
get_or-AllIdent m [] i a h = absurd (omega arith)
get_or-AllIdent m (c ∷ w) zero a h = a.0
get_or-AllIdent m (c ∷ w) (suc i) a h = get_or-AllIdent m w i a.1 (omega arith)

get_or-EndsOutside :
    (m : Major) (s : Text) (n : ℕ)
    → EndsOutside m s
    → length s ≡ suc n
    → is_ident m (get_or s n 0) ≡ false
get_or-EndsOutside m [] n o e = absurd (omega arith)
get_or-EndsOutside m (c ∷ []) zero o e = o
get_or-EndsOutside m (c ∷ []) (suc n) o e = absurd (omega arith)
get_or-EndsOutside m (c ∷ d ∷ s) zero o e = absurd (omega arith)
get_or-EndsOutside m (c ∷ d ∷ s) (suc n) o e = get_or-EndsOutside m (d ∷ s) n o (omega arith)

module _ (m : Major) (s w rest : Text) (o : EndsOutside m s) (a : AllIdent m w) where
  at_start : (k : ℕ) → k ≡ length s → word_col m (s ++ (w ++ rest)) k ≡ k
  unfolding word_col
  at_start zero e = refl
  at_start (suc k) e =
      let outside : is_ident m (get_or (s ++ (w ++ rest)) k 0) ≡ false =
        ap (is_ident m) (get_or-append_left s (w ++ rest) k 0 (omega arith))
        ∙ get_or-EndsOutside m s k o (sym e) in
      rw (word_col, outside) refl

  pub word_col-start :
      (n k : ℕ) → n ≤ length w → k ≡ length s + n → word_col m (s ++ (w ++ rest)) k ≡ length s
  unfolding word_col
  word_col-start zero k h e = at_start k (omega arith) ∙ omega arith
  word_col-start (suc n) zero h e = absurd (omega arith)
  word_col-start (suc n) (suc k) h e =
      let at : k ≡ length s + n = omega arith in
      let inside : is_ident m (get_or (s ++ (w ++ rest)) k 0) ≡ true =
        ap (λ k. is_ident m (get_or (s ++ (w ++ rest)) k 0)) at
        ∙ ap (is_ident m)
            (get_or-append_right s (w ++ rest) n 0 ∙ get_or-append_left w rest n 0 (omega arith))
        ∙ get_or-AllIdent m w n a (omega arith) in
      rw (word_col, inside) (word_col-start n k (omega arith) at)

pub length-wordbuf : (auto : Bool) (w : Text) → length (wordbuf auto w) ≡ length w
unfolding wordbuf
length-wordbuf auto [] = refl
length-wordbuf auto (c ∷ w) = ap suc (length-wordbuf auto w)
