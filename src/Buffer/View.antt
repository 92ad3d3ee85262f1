-- ===== src/Buffer/View.antt =====
-- The view of a buffer as two stacks of characters, and lemmas on lists of lines.
use jove.Base.{
  ℕ, zero, suc, ◌<◌, ◌≡◌, refl, List, [], ◌∷◌, ◌++◌, length, take, drop, push_all, get_or, arith,
}
use jove.Buffer.{Line, Apart, Distinct, Below, LinePtr}

module _ {ℓ} {A : Type ℓ} where
  pub drop-lt :
      (n : ℕ) (xs : List A) (d : A) → n < length xs → drop n xs ≡ get_or xs n d ∷ drop (suc n) xs
  drop-lt n [] d h = absurd (omega arith)
  drop-lt zero (x ∷ xs) d h = refl
  drop-lt (suc n) (x ∷ xs) d h = drop-lt n xs d (omega arith)

  pub push_all-take-lt :
      (n : ℕ) (xs s : List A) (d : A)
      → n < length xs
      → push_all (take (suc n) xs) s ≡ get_or xs n d ∷ push_all (take n xs) s
  push_all-take-lt n [] s d h = absurd (omega arith)
  push_all-take-lt zero (x ∷ xs) s d h = refl
  push_all-take-lt (suc n) (x ∷ xs) s d h = push_all-take-lt n xs (x ∷ s) d (omega arith)

pub Distinct-push_all : (xs ys : List Line) → Distinct (push_all xs ys) → Distinct ys
Distinct-push_all [] ys h = h
Distinct-push_all (x ∷ xs) ys h = (Distinct-push_all xs (x ∷ ys) h).1

pub Below-push_all : (n : LinePtr) (xs ys : List Line) → Below n (push_all xs ys) → Below n ys
Below-push_all n [] ys h = h
Below-push_all n (x ∷ xs) ys h = (Below-push_all n xs (x ∷ ys) h).1

pub Apart-append_left : (k : LinePtr) (xs ys : List Line) → Apart k (xs ++ ys) → Apart k xs
Apart-append_left k [] ys h = tt
Apart-append_left k (x ∷ xs) ys h = (h.0, Apart-append_left k xs ys h.1)

pub Apart-append_right : (k : LinePtr) (xs ys : List Line) → Apart k (xs ++ ys) → Apart k ys
Apart-append_right k [] ys h = h
Apart-append_right k (x ∷ xs) ys h = Apart-append_right k xs ys h.1

pub Apart-of_Below : (n : LinePtr) (xs : List Line) → Below n xs → Apart n xs
Apart-of_Below n [] h = tt
Apart-of_Below n (x ∷ xs) h = (omega arith, Apart-of_Below n xs h.1)
