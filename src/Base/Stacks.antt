-- ===== src/Base/Stacks.antt =====
-- Lists that are read from both ends: `push_all xs s` puts the members of `xs` on the stack `s`
-- one after another, so that the last stands on top.
use Prim.Native.Nat.{ℕ, zero, suc, ◌+◌}
use mathlib.Core.Path.{◌≡◌, refl, ap, ◌∙◌}
use mathlib.Core.List.{List, [], ◌∷◌, ◌++◌}
use native.Mathlib.Omega.{arith}
use jove.Base.Lists.{length, replicate}

module _ {ℓ} {A : Type ℓ} where
  abbrev pub push_all : List A → List A → List A
  push_all [] s = s
  push_all (x ∷ xs) s = push_all xs (x ∷ s)

module _ {ℓ} {A : Type ℓ} where
  pub push_all-append : (xs ys s : List A) → push_all (xs ++ ys) s ≡ push_all ys (push_all xs s)
  push_all-append [] ys s = refl
  push_all-append (x ∷ xs) ys s = push_all-append xs ys (x ∷ s)

  pub length-push_all : (xs s : List A) → length (push_all xs s) ≡ length xs + length s
  length-push_all [] s = omega arith
  length-push_all (x ∷ xs) s = omega (arith, length-push_all xs (x ∷ s))

  pub push_all_under : (xs s t : List A) → push_all xs (s ++ t) ≡ push_all xs s ++ t
  push_all_under [] s t = refl
  push_all_under (x ∷ xs) s t = push_all_under xs (x ∷ s) t

  pub push_all-push_all : (xs s t : List A) → push_all (push_all xs s) t ≡ push_all s (xs ++ t)
  push_all-push_all [] s t = refl
  push_all-push_all (x ∷ xs) s t = push_all-push_all xs (x ∷ s) t

  pub replicate-append-cons :
      (n : ℕ) (a : A) (s : List A) → replicate n a ++ a ∷ s ≡ a ∷ (replicate n a ++ s)
  replicate-append-cons zero a s = refl
  replicate-append-cons (suc n) a s = ap (a ∷◌) (replicate-append-cons n a s)

  pub push_all-replicate :
      (n : ℕ) (a : A) (s : List A) → push_all (replicate n a) s ≡ replicate n a ++ s
  push_all-replicate zero a s = refl
  push_all-replicate (suc n) a s = push_all-replicate n a (a ∷ s) ∙ replicate-append-cons n a s
