-- ===== src/Format/Reading.antt =====
-- What `doformat` (fmt.c) reads of the flags, the width and the precision of a directive.
use jove.Base.{
  ℕ, ◌+◌, ◌-◌, ◌*◌, ◌≡◌, ◌<◌, refl, ◌∙◌, arith, List, [], ◌∷◌, ◌++◌, map, Bool, true, false, ◌==◌,
  Option, none, some, if◌then◌else◌,
}
use jove.Base.Int.{pos}
use jove.Buffer.{Text}
use jove.Chars.{is_digit}
use jove.Format.{FmtState}
use jove.Format.Digits.{value, AllBelow}
use jove.Format.Directives.{
  Arg, Directive, directive, fetch, read_number, star_width, read_flags, read_width, read_precision,
}
use jove.Format.Items.{
  Count, digits, star, Layout, count, precision_of, count_text, precision_text, sign_text,
  layout_text, count_args, precision_args, IsWidth, IsPrecision,
}

-- A directive read up to a place in the format.
abbrev pub reading : FmtState → Text → List Arg → Directive
reading st t args = record { state = st; letter = (fetch t).0; rest = (fetch t).1; args = args }

is_digit-digit : (d : ℕ) → d < 10 → is_digit (b'0' + d) ≡ true
unfolding is_digit
is_digit-digit d h = ground arith

read_number-none :
    (n : ℕ) (t : Text)
    → is_digit (fetch t).0 ≡ false
    → read_number n (fetch t).0 (fetch t).1 ≡ (n, (fetch t).0, (fetch t).1)
unfolding read_number
read_number-none n [] h = refl
read_number-none n (c ∷ []) h = rw (read_number, h) refl
read_number-none n (c ∷ d ∷ t) h = rw (read_number, h) refl

read_number-digit :
    (n d : ℕ) (t : Text)
    → d < 10
    → read_number n (b'0' + d) t ≡ read_number (n * 10 + d) (fetch t).0 (fetch t).1
unfolding read_number
read_number-digit n d [] h =
    let e : b'0' + d - 48 ≡ d = omega arith in rw (read_number, is_digit-digit d h, e) refl
read_number-digit n d (c ∷ t) h =
    let e : b'0' + d - 48 ≡ d = omega arith in rw (read_number, is_digit-digit d h, e) refl

read_number-digits :
    (ds : List ℕ) (n : ℕ) (t : Text)
    → AllBelow 10 ds
    → is_digit (fetch t).0 ≡ false
    → read_number n (fetch (map (λ d. b'0' + d) ds ++ t)).0 (fetch (map (λ d. b'0' + d) ds ++ t)).1
      ≡ (value 10 n ds, (fetch t).0, (fetch t).1)
read_number-digits [] n t a h = read_number-none n t h
read_number-digits (d ∷ ds) n t a h =
    read_number-digit n d (map (λ d. b'0' + d) ds ++ t) a.0
    ∙ read_number-digits ds (n * 10 + d) t a.1 h

read_number-star : (t : Text) → read_number 0 b'*' t ≡ (0, b'*', t)
unfolding is_digit
read_number-star t = read_number-none 0 (b'*' ∷ t) refl

-- The state for a directive.
abbrev pub state_of : Bool → ℕ → ℕ → ℕ → FmtState
state_of left c w p = record { precision = pos p; width = pos w; leftadj = left; padc = c }

-- Where a number ends, and no star stands.
abbrev Stops : Text → Type 0
Stops t = (is_digit (fetch t).0 ≡ false) × (((fetch t).0 == b'*') ≡ false)

-- What can stand behind a directive's layout, and is not the letter before others.
abbrev pub IsLetter : ℕ → Type 0
IsLetter c =
    (is_digit c ≡ false)
    × ((c == b'*') ≡ false)
    × ((c == b'.') ≡ false)
    × ((c == b'-') ≡ false)
    × ((c == b'0') ≡ false)
    × ((c == b'l') ≡ false)

read_precision-text :
    (left : Bool) (c w x : ℕ) (p : Option Count) (rest : Text) (args : List Arg)
    → IsPrecision p
    → IsLetter x
    → read_precision
        (reading (state_of left c w 0) (precision_text p ++ x ∷ rest) (precision_args p args))
      ≡ some (reading (state_of left c w (elim p [ none ↦ 0 | some n ↦ count n ])) (x ∷ rest) args)
read_precision-text left c w x none rest args v l = rw (l.2) refl
read_precision-text left c w x (some (digits ds)) rest args v l =
    rw (read_number-digits ds 0 (x ∷ rest) v l.0, l.1) refl
read_precision-text left c w x (some (star n)) rest args v l = rw (read_number-star (x ∷ rest)) refl

width-text :
    (left : Bool) (c : ℕ) (w : Count) (t : Text) (args : List Arg)
    → IsWidth w
    → Stops t
    → star_width
        (read_width (reading (state_of left c 0 0) (count_text w ++ t) (count_args w args)))
      ≡ some (reading (state_of left c (count w) 0) t args)
width-text left c (digits []) t args v s = rw (read_number-digits [] 0 t tt s.0, s.1) refl
width-text left c (digits (d ∷ ds)) t args v s =
    rw (read_number-digits (d ∷ ds) 0 t v.1 s.0, s.1) refl
width-text left c (star n) t args v s = rw (read_number-star t) refl

read_flags-text :
    (left zeros : Bool) (t : Text) (args : List Arg)
    → ((fetch t).0 == b'-') ≡ false
    → ((fetch t).0 == b'0') ≡ false
    → read_flags
        (reading (state_of false 32 0 0) (sign_text left b'-' ++ (sign_text zeros b'0' ++ t)) args)
      ≡ reading (state_of left (if zeros then b'0' else 32) 0 0) t args
read_flags-text true true t args m z = refl
read_flags-text true false t args m z = rw (z) refl
read_flags-text false true t args m z = refl
read_flags-text false false t args m z = rw (m, z) refl

Stops-precision_text :
    (p : Option Count) (x : ℕ) (rest : Text) → IsLetter x → Stops (precision_text p ++ x ∷ rest)
unfolding is_digit
Stops-precision_text none x rest l = (l.0, l.1)
Stops-precision_text (some p) x rest l = (refl, refl)

first-layout :
    (w : Count) (p : Option Count) (x : ℕ) (rest : Text)
    → IsWidth w
    → IsLetter x
    → (((fetch (count_text w ++ (precision_text p ++ x ∷ rest))).0 == b'-') ≡ false)
      × (((fetch (count_text w ++ (precision_text p ++ x ∷ rest))).0 == b'0') ≡ false)
first-layout (digits []) none x rest v l = (l.3, l.4)
first-layout (digits []) (some p) x rest v l = (refl, refl)
first-layout (digits (d ∷ ds)) p x rest v l = (ground arith, ground arith)
first-layout (star n) p x rest v l = (refl, refl)

pub directive-text :
    (y : Layout) (x : ℕ) (rest : Text) (args : List Arg)
    → IsWidth y.width
    → IsPrecision y.precision
    → IsLetter x
    → directive (layout_text y (x ∷ rest)) (count_args y.width (precision_args y.precision args))
      ≡ some (
          reading
            (state_of y.left (if y.zeros then b'0' else 32) (count y.width) (precision_of y))
            (x ∷ rest)
            args)
unfolding directive
directive-text y x rest args v q l =
    let first = first-layout y.width y.precision x rest v l in
    rw
      (
        directive,
        read_flags-text y.left y.zeros
            (count_text y.width ++ (precision_text y.precision ++ x ∷ rest))
            (count_args y.width (precision_args y.precision args)) first.0 first.1,
        width-text y.left (if y.zeros then b'0' else 32) y.width
            (precision_text y.precision ++ x ∷ rest) (precision_args y.precision args) v
            (Stops-precision_text y.precision x rest l),
      )
      (read_precision-text y.left (if y.zeros then b'0' else 32) (count y.width) x y.precision rest
        args q l)
