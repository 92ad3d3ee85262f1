-- ===== src/Format/Digits.antt =====
-- The numbers that `putld` (fmt.c) prints, and `chr_to_long` (extend.c) reads.
use jove.Base.{
  ℕ, zero, suc, ◌+◌, ◌-◌, ◌*◌, ◌/◌, ◌%◌, ◌^◌, ◌≤◌, ◌<◌, ◌≡◌, ◌≢◌, ◌⊎◌, inl, inr, refl, sym, ap, ◌∙◌,
  arith, List, [], ◌∷◌, ◌++◌, append_assoc, append-nil, map, Bool, true, false, Bool-cases, lt→ltb,
  leb, ◌==◌, length,
}
use jove.Base.Int.{ℤ, pos, negsuc, ◌-ℤ◌, ◌*ℤ◌}
use jove.Buffer.{Text}
use jove.Chars.{is_digit}
use jove.Argument.{to_long, long_half}
use jove.Argument.Digits.{to_long-small, pos-sum}
use jove.Format.{
  FmtState, pad, digit_char, put_digits, magnitude, minus_sign, number_state, putld, number,
  read_value, chr_to_long, times_sign,
}

-- The bases of the directives.
abbrev pub IsBase : ℕ → Type 0
IsBase b = (b ≡ 8) ⊎ (b ≡ 10) ⊎ (b ≡ 16)

-- The number that digits spell in a base, after the number `n`.
abbrev pub value : ℕ → ℕ → List ℕ → ℕ
value b n [] = n
value b n (d ∷ ds) = value b (n * b + d) ds

abbrev pub AllBelow : ℕ → List ℕ → Type 0
AllBelow b [] = Unit
AllBelow b (d ∷ ds) = (d < b) × AllBelow b ds

module _ (b : ℕ) where
  value-append : (n : ℕ) (ds : List ℕ) (d : ℕ) → value b n (ds ++ d ∷ []) ≡ value b n ds * b + d
  value-append n [] d = refl
  value-append n (e ∷ ds) d = value-append (n * b + e) ds d

  AllBelow-append : (ds : List ℕ) (d : ℕ) → AllBelow b ds → d < b → AllBelow b (ds ++ d ∷ [])
  AllBelow-append [] d a h = (h, tt)
  AllBelow-append (e ∷ ds) d a h = (a.0, AllBelow-append ds d a.1 h)

map-append : (f : ℕ → ℕ) (xs ys : List ℕ) → map f (xs ++ ys) ≡ map f xs ++ map f ys
map-append f [] ys = refl
map-append f (x ∷ xs) ys = ap (f x ∷◌) (map-append f xs ys)

quotient-lt : (b d p : ℕ) → IsBase b → d < 8 * p → d / b < p
quotient-lt b d p (inl e) h = rw (e) (omega arith)
quotient-lt b d p (inr (inl e)) h = rw (e) (omega arith)
quotient-lt b d p (inr (inr e)) h = rw (e) (omega arith)

quotient-value : (b d : ℕ) → IsBase b → ((d / b) * b + d % b ≡ d) × (d % b < b)
quotient-value b d (inl e) = rw (e) (omega arith)
quotient-value b d (inr (inl e)) = rw (e) (omega arith)
quotient-value b d (inr (inr e)) = rw (e) (omega arith)

-- Digits in a base that spell a number, with no zero before them.
pub record Spells (b d : ℕ) (ds : List ℕ) : Type 0 where
  pub first : ℕ
  pub others : List ℕ
  pub split : ds ≡ first ∷ others
  pub leading : (first ≡ 0) → d ≡ 0
  pub below : AllBelow b ds
  pub spelled : value b 0 ds ≡ d

digits_left : (n q : ℕ) → q < 8 ^ n → q ≢ 0 → 0 < n
digits_left zero q h k = absurd (k (omega arith))
digits_left (suc n) q h k = omega arith

module _ (n b d : ℕ) (up : Text) (h : IsBase b) where
  one_digit :
      (d / b == 0) ≡ true
      → (ds : List ℕ) × (put_digits (suc n) b d up ≡ map digit_char ds ++ up) × Spells b d ds
  unfolding put_digits
  one_digit last =
      let (whole, small) = quotient-value b d h in
      let none_left : d / b ≡ 0 = ground arith in
      let same : d % b ≡ d = omega (arith, ap (λ (q : ℕ). q * b) none_left, whole) in
      (
        d % b ∷ [],
        rw (put_digits, last) refl,
        record {
          first = d % b;
          others = [];
          split = refl;
          leading = λ e. sym same ∙ e;
          below = (small, tt);
          spelled = omega (arith, same);
        },
      )

  last_digit :
      (d / b == 0) ≡ false
      → (ds : List ℕ)
      → put_digits n b (d / b) (digit_char (d % b) ∷ up)
        ≡ map digit_char ds ++ digit_char (d % b) ∷ up
      → Spells b (d / b) ds
      → (ds : List ℕ) × (put_digits (suc n) b d up ≡ map digit_char ds ++ up) × Spells b d ds
  unfolding put_digits
  last_digit more ds put s =
      let (whole, small) = quotient-value b d h in
      (
        ds ++ d % b ∷ [],
        rw (put_digits, more)
            (put
              ∙ sym (
                  ap (λ xs. xs ++ up) (map-append digit_char ds (d % b ∷ []))
                  ∙ append_assoc (map digit_char ds) (digit_char (d % b) ∷ []) up)),
        record {
          first = s.first;
          others = s.others ++ d % b ∷ [];
          split = ap (λ ds. ds ++ d % b ∷ []) s.split;
          leading = λ e. absurd (ground (arith, s.leading e));
          below = AllBelow-append b ds (d % b) s.below small;
          spelled = value-append b 0 ds (d % b) ∙ ap (λ v. v * b + d % b) s.spelled ∙ whole;
        },
      )

put_digits-Spells :
    (n b d : ℕ) (up : Text)
    → IsBase b
    → 0 < n
    → d < 8 ^ n
    → (ds : List ℕ) × (put_digits n b d up ≡ map digit_char ds ++ up) × Spells b d ds
put_digits-Spells zero b d up h k lt = absurd (omega arith)
put_digits-Spells (suc n) b d up h k lt = elim (Bool-cases (d / b == 0)) [
  | inl last ↦ one_digit n b d up h last
  | inr more ↦
      let fewer : d / b < 8 ^ n = quotient-lt b d (8 ^ n) h (omega arith) in
      let left : 0 < n = digits_left n (d / b) fewer (λ e. ground arith) in
      let (ds, put, s) = put_digits-Spells n b (d / b) (digit_char (d % b) ∷ up) h left fewer in
      last_digit n b d up h more ds put s
]

-- A state without a width.
abbrev pub plain : FmtState
plain = record { precision = pos 0; width = pos 0; leftadj = false; padc = 32 }

digit-is_digit : (d : ℕ) → d < 10 → (is_digit (digit_char d) ≡ true) × (digit_char d - 48 ≡ d)
unfolding is_digit digit_char
digit-is_digit d h = ground arith

product : (a b : ℕ) → pos a *ℤ pos b ≡ pos (a * b)
unfolding ◌*ℤ◌
product a b = ground arith

value-ge : (b n : ℕ) (ds : List ℕ) → 0 < b → n ≤ value b n ds
value-ge b n [] h = omega arith
value-ge b n (d ∷ ds) h = grind (arith, value-ge b (n * b + d) ds h)

read_value-digits :
    (b n : ℕ) (ds : List ℕ) (allints : Bool)
    → 0 < b
    → b ≤ 10
    → AllBelow b ds
    → value b n ds < long_half
    → read_value b allints (pos n) (map digit_char ds) ≡ number (pos (value b n ds))
unfolding read_value
read_value-digits b n [] allints p h a lt = refl
read_value-digits b n (d ∷ ds) allints p h a lt =
    let (digit, code) = digit-is_digit d (omega arith) in
    let within : leb b d ≡ false = ground arith in
    let larger = value-ge b (n * b + d) ds p in
    rw
      (
        read_value,
        digit,
        code,
        within,
        product n b,
        to_long-small (n * b) (omega arith),
        pos-sum (n * b) d,
        to_long-small (n * b + d) (omega arith),
      )
      (read_value-digits b (n * b + d) ds allints p h a.1 lt)

pad-none : (c n : ℕ) → pad c (pos 0 -ℤ pos n) ≡ []
unfolding pad ◌-ℤ◌
pad-none c zero = ground arith
pad-none c (suc n) = ground arith

-- The digits, with their sign.
abbrev spelling : ℕ → ℤ → Text
spelling b d = minus_sign d ++ put_digits 32 b (magnitude d) []

putld-plain : (b : ℕ) (d : ℤ) → putld plain d b ≡ spelling b d
unfolding putld number_state
putld-plain b d = rw (putld, pad-none 32 (length (spelling b d))) refl

not_minus : (d : ℕ) → d < 10 → (digit_char d == b'-') ≡ false
unfolding digit_char
not_minus d h = ground arith

same_sign : (v : ℕ) → v < long_half → to_long (pos v *ℤ pos 1) ≡ pos v
same_sign v h = ap to_long (product v 1 ∙ ap pos (omega arith)) ∙ to_long-small v h

other_sign : (n : ℕ) → suc n < long_half → to_long (pos (suc n) *ℤ negsuc 0) ≡ negsuc n
unfolding to_long ◌*ℤ◌
other_sign n h =
    let product : pos (suc n) *ℤ negsuc 0 ≡ negsuc n = ground arith in
    let m : n % (2 * long_half) ≡ n = omega arith in
    ap to_long product ∙ rw (to_long, m, lt→ltb n long_half (omega arith)) refl

unsigned :
    (b : ℕ) (allints : Bool) (d : ℕ) (cs : Text)
    → d < 10
    → chr_to_long (digit_char d ∷ cs) b allints
      ≡ times_sign (pos 1) (read_value b allints (pos 0) (digit_char d ∷ cs))
unfolding chr_to_long
unsigned b allints d cs h = rw (chr_to_long, not_minus d h) refl

-- The least number of a `long` apart, `chr_to_long` in base 8 or 10 reads the number that `putld`
-- prints without a width in that base.
pub chr_to_long-putld :
    (b : ℕ) (d : ℤ) (allints : Bool)
    → (b ≡ 8) ⊎ (b ≡ 10)
    → magnitude d < long_half
    → chr_to_long (putld plain d b) b allints ≡ number d
unfolding chr_to_long
chr_to_long-putld b d allints h lt =
    ap (λ t. chr_to_long t b allints) (putld-plain b d)
    ∙ sign d lt (put_digits-Spells 32 b (magnitude d) [] base (omega arith) (omega arith))
  where
    base : IsBase b
    base = elim h [ inl e ↦ inl e | inr e ↦ inr (inl e) ]

    range : (0 < b) × (b ≤ 10)
    range = elim h [ inl e ↦ omega (arith, e) | inr e ↦ omega (arith, e) ]

    read :
        (n : ℕ) (ds : List ℕ)
        → n < long_half
        → Spells b n ds
        → read_value b allints (pos 0) (map digit_char ds) ≡ number (pos n)
    read n ds lt s =
        read_value-digits b 0 ds allints range.0 range.1 s.below (rw (s.spelled) lt)
        ∙ ap (λ v. number (pos v)) s.spelled

    sign :
        (d : ℤ)
        → magnitude d < long_half
        → (ds : List ℕ) × (put_digits 32 b (magnitude d) [] ≡ map digit_char ds ++ [])
          × Spells b (magnitude d) ds
        → chr_to_long (spelling b d) b allints ≡ number d
    sign (pos n) lt (ds, put, s) =
        let cs : put_digits 32 b n [] ≡ map digit_char (s.first ∷ s.others) =
          put ∙ append-nil (map digit_char ds) ∙ ap (map digit_char) s.split in
        let small : s.first < b = (rw (s.split) at s.below).0 in
        ap (λ t. chr_to_long t b allints) cs
        ∙ unsigned b allints s.first (map digit_char s.others) (omega (arith, range.1))
        ∙ ap (times_sign (pos 1)) (
            ap (λ ds. read_value b allints (pos 0) (map digit_char ds)) (sym s.split)
            ∙ read n ds lt s)
        ∙ ap number (same_sign n lt)
    sign (negsuc n) lt (ds, put, s) =
        ap (times_sign (negsuc 0)) (
          ap (read_value b allints (pos 0)) (put ∙ append-nil (map digit_char ds))
          ∙ read (suc n) ds lt s)
        ∙ ap number (other_sign n lt)
