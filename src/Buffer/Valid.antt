-- ===== src/Buffer/Valid.antt =====
-- Changing the lines from some line on keeps the addresses distinct.
use jove.Base.{suc, ◌≤◌, ◌<◌, List, [], ◌∷◌, push_all, arith}
use native.Mathlib.Nat.{le_refl}
use jove.Buffer.{Text, line_at, Line, LinePtr, Apart, Distinct, Below}
use jove.Buffer.View.{Distinct-push_all, Below-push_all, Apart-of_Below}

-- The lines `ys` give way to `zs`, which avoid every address below `n` that `ys` avoid.
pub Distinct-replace :
    (n : LinePtr) (xs ys zs : List Line)
    → Distinct (push_all xs ys)
    → Below n (push_all xs ys)
    → Distinct zs
    → ((k : LinePtr) → k < n → Apart k ys → Apart k zs)
    → Distinct (push_all xs zs)
Distinct-replace n [] ys zs d u dz keep = dz
Distinct-replace n (x ∷ xs) ys zs d u dz keep =
    let dx = Distinct-push_all xs (x ∷ ys) d in
    let ux = Below-push_all n xs (x ∷ ys) u in
    Distinct-replace n xs (x ∷ ys) (x ∷ zs) d u (keep x.id ux.0 dx.0, dz)
      (λ k h a. (a.0, keep k h a.1))

pub Below-replace :
    (n m : LinePtr) (xs ys zs : List Line)
    → Below n (push_all xs ys)
    → n ≤ m
    → Below m zs
    → Below m (push_all xs zs)
Below-replace n m [] ys zs u h uz = uz
Below-replace n m (x ∷ xs) ys zs u h uz =
    let ux = Below-push_all n xs (x ∷ ys) u in
    Below-replace n m xs (x ∷ ys) (x ∷ zs) u h (omega arith, uz)

pub Below-mono : (n m : LinePtr) (xs : List Line) → n ≤ m → Below n xs → Below m xs
Below-mono n m [] h u = tt
Below-mono n m (x ∷ xs) h u = (omega arith, Below-mono n m xs h u.1)

abbrev pub Sound : LinePtr → List Line → Type 0
Sound n ls = Distinct ls × Below n ls

-- A line with another text.
pub Sound-retext :
    (n : LinePtr) (xs ys : List Line) (l : Line) (t : Text)
    → Sound n (push_all xs (l ∷ ys))
    → Sound n (push_all xs (line_at l.id t ∷ ys))
Sound-retext n xs ys l t (d, u) = (
  Distinct-replace n xs (l ∷ ys) (line_at l.id t ∷ ys) d u (Distinct-push_all xs (l ∷ ys) d)
      (λ k h a. a),
  Below-replace n n xs (l ∷ ys) (line_at l.id t ∷ ys) u (le_refl n)
      (Below-push_all n xs (l ∷ ys) u),
)

-- A line at the next address, put in below the line `l`.
pub Sound-open :
    (n : LinePtr) (xs ys : List Line) (l : Line) (t : Text)
    → Sound n (push_all xs (l ∷ ys))
    → Sound (suc n) (push_all xs (l ∷ line_at n t ∷ ys))
Sound-open n xs ys l t (d, u) =
    let dl = Distinct-push_all xs (l ∷ ys) d in
    let ul = Below-push_all n xs (l ∷ ys) u in
    (
      Distinct-replace n xs (l ∷ ys) (l ∷ line_at n t ∷ ys) d u
          ((omega arith, dl.0), (Apart-of_Below n ys ul.1, dl.1))
          (λ k h a. (a.0, (omega arith, a.1))),
      Below-replace n (suc n) xs (l ∷ ys) (l ∷ line_at n t ∷ ys) u (omega arith)
          (omega arith, (omega arith, Below-mono n (suc n) ys (omega arith) ul.1)),
    )
