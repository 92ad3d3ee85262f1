-- ===== src/Case/Step.antt =====
-- A round of the loop of `case_reg` (case.c).
use jove.Base.{
  ℕ, zero, suc, ◌<◌, ◌≡◌, ◌≢◌, refl, sym, ◌∙◌, ap, ap₂, subst, arith, List, [], ◌∷◌, ◌++◌, Bool,
  true, false, Bool-cases, ◌⊎◌, inl, inr, Option, none, some, if◌then◌else◌, length, take, drop,
  get_or, push_all, length-take, length-drop, length-append, take-append, drop-append, drop-length,
  ==_iff,
}
use jove.Buffer.{
  Buffer, Line, Text, IsValid, eolp, line_at, left, left_lines, right, right_lines, newline,
}
use jove.Buffer.Valid.{Sound-retext}
use jove.Buffer.View.{drop-lt}
use jove.Chars.{is_upper, is_lower, char_upcase, char_downcase}
use jove.Insert.{modify}
use jove.Move.Char.{gap}
use jove.Case.{put_char, upper, lower, changed, case_step}
use jove.Case.Shape.{SameShape, SameLines-refl}

-- What becomes of a character.
abbrev pub cased_char : Bool → ℕ → ℕ
cased_char true c = char_upcase c
cased_char false c = char_downcase c

drop-suc : (t : Text) (i d : ℕ) (ds : Text) → drop i t ≡ d ∷ ds → drop (suc i) t ≡ ds
drop-suc [] zero d ds e = cc
drop-suc [] (suc i) d ds e = cc
drop-suc (x ∷ t) zero d ds e = cc
drop-suc (x ∷ t) (suc i) d ds e = drop-suc t i d ds e

module _ (t : Text) (i d c : ℕ) (ds : Text) (e : drop i t ≡ d ∷ ds) where
  inside_text : i < length t
  inside_text = omega (arith, ap length e, length-drop i t)

  drop_next : drop (suc i) t ≡ ds
  drop_next = drop-suc t i d ds e

  take-put_char : take i (put_char t i c) ≡ take i t
  take-put_char =
      take-append (take i t) (c ∷ drop (suc i) t) i (omega (arith, length-take i t, inside_text))

  drop-put_char : drop i (put_char t i c) ≡ c ∷ ds
  drop-put_char =
      drop-append (take i t) (c ∷ drop (suc i) t) i (omega (arith, length-take i t, inside_text))
      ∙ ap (c ∷◌) drop_next

  length-put_char : length (put_char t i c) ≡ length t
  length-put_char = omega (
    arith,
    length-append (take i t) (c ∷ drop (suc i) t),
    length-take i t,
    length-drop (suc i) t,
    inside_text,
  )

-- What `upper` and `lower` do at a place.
cased-cases :
    (up : Bool) (t : Text) (i d : ℕ)
    → get_or t i 0 ≡ d
    → ((if up then upper else lower) t i ≡ some (put_char t i (cased_char up d)))
      ⊎ (((if up then upper else lower) t i ≡ none) × (cased_char up d ≡ d))
unfolding upper lower char_upcase char_downcase
cased-cases true t i d e = elim (Bool-cases (is_lower d)) [
  | inl small ↦ inl (rw (upper, e, char_upcase, small) refl)
  | inr other ↦ inr (rw (upper, e, char_upcase, other) (refl, refl))
]
cased-cases false t i d e = elim (Bool-cases (is_upper d)) [
  | inl capital ↦ inl (rw (lower, e, char_downcase, capital) refl)
  | inr other ↦ inr (rw (lower, e, char_downcase, other) (refl, refl))
]

-- The buffer with another character at point.
abbrev put_here : ℕ → Buffer → Buffer
put_here c b = modify (record b { here = line_at b.here.id (put_char b.here.text b.curchar c) })

changed-some :
    (f : Text → ℕ → Option Text) (b : Buffer) (c : ℕ)
    → f b.here.text b.curchar ≡ some (put_char b.here.text b.curchar c)
    → changed f b ≡ put_here c b
unfolding changed
changed-some f b c e = rw (changed, e) refl

changed-none :
    (f : Text → ℕ → Option Text) (b : Buffer) → f b.here.text b.curchar ≡ none → changed f b ≡ b
unfolding changed
changed-none f b e = rw (changed, e) refl

first_newline : (ls : List Line) (d : ℕ) (ds : Text) → right_lines ls ≡ d ∷ ds → d ≡ newline
first_newline [] d ds e = cc
first_newline (l ∷ ls) d ds e = cc

of_newline : (up : Bool) (d : ℕ) → d ≡ newline → cased_char up d ≡ d
unfolding char_upcase char_downcase is_lower is_upper
of_newline true d e = rw (e) refl
of_newline false d e = rw (e) refl

uncons : (x d : ℕ) (xs ds : Text) → x ∷ xs ≡ d ∷ ds → (x ≡ d) × (xs ≡ ds)
uncons x d xs ds e = (cc, cc)

-- The buffer after a round, before point goes on.
abbrev pub CasedAt : Bool → ℕ → Text → Buffer → Buffer → Type 0
CasedAt up d ds b b' = IsValid b' × SameShape b b' × (gap b' ≡ (left b, cased_char up d ∷ ds))

module _ (b : Buffer) (v : IsValid b) where
  stays-CasedAt :
      (up : Bool) (d : ℕ) (ds : Text) → right b ≡ d ∷ ds → cased_char up d ≡ d → CasedAt up d ds b b
  stays-CasedAt up d ds e same = (
    v,
    (SameLines-refl b.above, (refl, refl), SameLines-refl b.below, refl),
    ap (λ r. (left b, r)) (e ∙ ap (λ d. d ∷ ds) (sym same)),
  )

  put_here-CasedAt :
      (up : Bool) (d : ℕ) (ds : Text)
      → drop b.curchar b.here.text ≡ d ∷ ds
      → CasedAt up d (ds ++ right_lines b.below) b (put_here (cased_char up d) b)
  unfolding left right
  put_here-CasedAt up d ds e =
      let t = b.here.text in
      let c = cased_char up d in
      let sound =
        Sound-retext b.fresh b.above b.below b.here (put_char t b.curchar c)
          (v.distinct, v.allocated) in
      let size = length-put_char t b.curchar d c ds e in
      (
        record {
          in_line = omega (arith, size, v.in_line);
          distinct = sound.0;
          allocated = sound.1;
        },
        (SameLines-refl b.above, (refl, sym size), SameLines-refl b.below, refl),
        ap₂ (λ l r. (push_all l (left_lines b.above), r ++ right_lines b.below))
            (take-put_char t b.curchar d c ds e) (drop-put_char t b.curchar d c ds e),
      )

  pub case_step-CasedAt :
      (up : Bool) (d : ℕ) (ds : Text) → right b ≡ d ∷ ds → CasedAt up d ds b (case_step up b)
  unfolding case_step eolp right
  case_step-CasedAt up d ds e = elim (Bool-cases (eolp b)) [
    | inl end ↦
        let at_end : b.curchar ≡ length b.here.text =
          (==_iff b.curchar (length b.here.text)).0 end in
        let nothing : drop b.curchar b.here.text ≡ [] =
          drop-length b.here.text b.curchar (omega (arith, at_end)) in
        rw (case_step, end)
          (stays-CasedAt up d ds e (
            of_newline up d
              (first_newline b.below d ds (sym (ap (λ t. t ++ right_lines b.below) nothing) ∙ e))))
    | inr inside ↦
        let ne : b.curchar ≢ length b.here.text =
          λ h. cc (inside, (==_iff b.curchar (length b.here.text)).1 h) in
        let lt : b.curchar < length b.here.text = omega (arith, ne, v.in_line) in
        let here = drop-lt b.curchar b.here.text 0 lt in
        let rest = drop (suc b.curchar) b.here.text in
        let (same_d, same_ds) =
          uncons (get_or b.here.text b.curchar 0) d (rest ++ right_lines b.below) ds
            (sym (ap (λ t. t ++ right_lines b.below) here) ∙ e) in
        rw (case_step, inside)
          (subst (λ ds. CasedAt up d ds b (changed (if up then upper else lower) b)) same_ds
            (elim (cased-cases up b.here.text b.curchar d same_d) [
              | inl put ↦
                  subst (CasedAt up d (rest ++ right_lines b.below) b)
                    (sym (changed-some (if up then upper else lower) b (cased_char up d) put))
                    (put_here-CasedAt up d rest (here ∙ ap (λ d. d ∷ rest) same_d))
              | inr (none_put, same) ↦
                  subst (CasedAt up d (rest ++ right_lines b.below) b)
                    (sym (changed-none (if up then upper else lower) b none_put))
                    (stays-CasedAt up d (rest ++ right_lines b.below)
                      (e ∙ ap (λ ds. d ∷ ds) (sym same_ds)) same)
            ]))
  ]
