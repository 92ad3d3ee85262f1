-- ===== src/Yank/Splice.antt =====
-- The parts of `DoYank`: copying texts, and the lines that are made for them.
use jove.Base.{
  ℕ, suc, ◌+◌, ◌<◌, ◌≤◌, ◌≡◌, refl, sym, ap, ◌∙◌, List, [], ◌∷◌, ◌++◌, arith, length, take,
  push_all, push_all-append, append_assoc, append-nil, some,
}
use jove.Buffer.{Line, LinePtr, Text, line_at, newline, left_lines, Apart}
use jove.Buffer.View.{Distinct-push_all, Below-push_all, Apart-of_Below}
use jove.Buffer.Valid.{Sound, Distinct-replace, Below-replace, Below-mono}
use jove.Insert.{lbsize}
use jove.Yank.{copied, new_lines, texts, last_of, but_last}

-- The text of some lines, joined by newlines, and of the lines after a first one.
abbrev pub more : List Text → Text
more [] = []
more (t ∷ ts) = newline ∷ (t ++ more ts)

abbrev pub joined : Line → List Line → Text
joined f rest = f.text ++ more (texts rest)

pub copied-fits :
    (onto from : Text) (at : ℕ)
    → at ≤ length onto
    → at + length from < lbsize
    → copied onto at from ≡ some (take at onto ++ from)
unfolding copied
copied-fits onto from at h k = ground arith

pub new_lines-append :
    (k : LinePtr) (ts : List Text) (t : Text)
    → new_lines k (ts ++ t ∷ []) ≡ new_lines k ts ++ line_at (k + length ts) t ∷ []
unfolding new_lines
new_lines-append k [] t = ap (λ n. line_at n t ∷ []) (omega arith)
new_lines-append k (u ∷ us) t = ap (line_at k u ∷◌) (
    new_lines-append (suc k) us t
    ∙ ap (λ n. new_lines (suc k) us ++ line_at n t ∷ []) (omega arith))

pub but_last-last : (t : Text) (ts : List Text) → but_last t ts ++ last_of t ts ∷ [] ≡ t ∷ ts
unfolding but_last last_of
but_last-last t [] = refl
but_last-last t (u ∷ us) = ap (t ∷◌) (but_last-last u us)

pub more-append : (ts us : List Text) → more (ts ++ us) ≡ more ts ++ more us
more-append [] us = refl
more-append (t ∷ ts) us =
    ap (newline ∷◌) (ap (t ++◌) (more-append ts us) ∙ sym (append_assoc t (more ts) (more us)))

pub push_all-more :
    (ts : List Text) (t x : Text)
    → push_all (more (ts ++ t ∷ [])) x ≡ push_all t (newline ∷ push_all (more ts) x)
push_all-more ts t x =
    ap (λ s. push_all s x) (more-append ts (t ∷ []))
    ∙ push_all-append (more ts) (newline ∷ (t ++ [])) x
    ∙ ap (λ s. push_all s (newline ∷ push_all (more ts) x)) (append-nil t)

pub last_of-append :
    (t : Text) (ls : List Line) (l : Line) → last_of t (texts (ls ++ l ∷ [])) ≡ l.text
unfolding last_of
last_of-append t [] l = refl
last_of-append t (m ∷ ls) l = last_of-append m.text ls l

pub texts-append : (ls : List Line) (l : Line) → texts (ls ++ l ∷ []) ≡ texts ls ++ l.text ∷ []
texts-append [] l = refl
texts-append (m ∷ ls) l = ap (m.text ∷◌) (texts-append ls l)

-- Some lines over others that stand above them.
pub left_lines-push_all :
    (ls : List Line) (l : Line) (above : List Line)
    → left_lines (push_all ls (l ∷ above))
      ≡ newline ∷ push_all (more (texts ls)) (push_all l.text (left_lines above))
left_lines-push_all [] l above = refl
left_lines-push_all (m ∷ ls) l above =
    left_lines-push_all ls m (l ∷ above)
    ∙ ap (newline ∷◌) (sym (push_all-append m.text (more (texts ls)) _))

texts-new_lines : (k : LinePtr) (ts : List Text) → texts (new_lines k ts) ≡ ts
unfolding new_lines
texts-new_lines k [] = refl
texts-new_lines k (t ∷ ts) = ap (t ∷◌) (texts-new_lines (suc k) ts)

pub left_lines-new_lines :
    (k : LinePtr) (ts : List Text) (l : Line) (above : List Line)
    → left_lines (push_all (new_lines k ts) (l ∷ above))
      ≡ newline ∷ push_all (more ts) (push_all l.text (left_lines above))
left_lines-new_lines k ts l above =
    left_lines-push_all (new_lines k ts) l above
    ∙ ap (λ us. newline ∷ push_all (more us) (push_all l.text (left_lines above)))
        (texts-new_lines k ts)

Apart-new_lines : (j n : LinePtr) (ts : List Text) → j < n → Apart j (new_lines n ts)
unfolding new_lines
Apart-new_lines j n [] h = tt
Apart-new_lines j n (t ∷ ts) h = (omega arith, Apart-new_lines j (suc n) ts (omega arith))

Apart-append : (j : LinePtr) (xs ys : List Line) → Apart j xs → Apart j ys → Apart j (xs ++ ys)
Apart-append j [] ys a c = c
Apart-append j (x ∷ xs) ys a c = (a.0, Apart-append j xs ys a.1 c)

Sound-new_lines :
    (n : LinePtr) (ts : List Text) (ys : List Line)
    → Sound n ys
    → Sound (n + length ts) (new_lines n ts ++ ys)
unfolding new_lines
Sound-new_lines n [] ys (d, u) = (d, Below-mono n (n + 0) ys (omega arith) u)
Sound-new_lines n (t ∷ ts) ys (d, u) =
    let (d', u') = Sound-new_lines (suc n) ts ys (d, Below-mono n (suc n) ys (omega arith) u) in
    (
      (
        Apart-append n (new_lines (suc n) ts) ys (Apart-new_lines n (suc n) ts (omega arith))
            (Apart-of_Below n ys u),
        d',
      ),
      (omega arith, Below-mono (suc n + length ts) (n + length (t ∷ ts)) _ (omega arith) u'),
    )

-- New lines, put in below the line `l`, which takes the text `t`.
pub Sound-put :
    (n : LinePtr) (xs ys : List Line) (l : Line) (t : Text) (ts : List Text)
    → Sound n (push_all xs (l ∷ ys))
    → Sound (n + length ts) (push_all xs (line_at l.id t ∷ (new_lines n ts ++ ys)))
Sound-put n xs ys l t ts (d, u) =
    let dl = Distinct-push_all xs (l ∷ ys) d in
    let ul = Below-push_all n xs (l ∷ ys) u in
    let (dn, un) = Sound-new_lines n ts ys (dl.1, ul.1) in
    (
      Distinct-replace n xs (l ∷ ys) (line_at l.id t ∷ (new_lines n ts ++ ys)) d u
          (Apart-append l.id (new_lines n ts) ys (Apart-new_lines l.id n ts ul.0) dl.0, dn)
          (λ k h a. (a.0, Apart-append k (new_lines n ts) ys (Apart-new_lines k n ts h) a.1)),
      Below-replace n (n + length ts) xs (l ∷ ys) (line_at l.id t ∷ (new_lines n ts ++ ys)) u
          (omega arith) (omega arith, un),
    )

pub length-new_lines : (k : LinePtr) (ts : List Text) → length (new_lines k ts) ≡ length ts
unfolding new_lines
length-new_lines k [] = refl
length-new_lines k (t ∷ ts) = ap suc (length-new_lines (suc k) ts)
