-- ===== src/Format/Letters.antt =====
-- The rounds of `doformat` (fmt.c), and the letter after an `l`.
use jove.Base.{
  ℕ, zero, suc, ◌+◌, ◌-◌, ◌*◌, ◌≡◌, ◌≤◌, ◌<◌, inl, inr, refl, arith, List, [], ◌∷◌, Bool, true,
  false, Bool-cases, Option, none, some, ◌==◌, if◌then◌else◌, length,
}
use jove.Base.Int.{ℤ, pos}
use jove.Buffer.{Text}
use jove.Chars.{is_digit, char_upcase}
use jove.Format.Directives.{
  Arg, int, long, string, buffer, Piece, put, unknown, Directive, directive, fetch, read_number,
  with_int, long_letter, on_directive, Formatted, text, refused, unfinished, put_before, and_then,
  do_format, star_width, star_precision, read_flags, read_width, read_precision,
}

-- The letter that stands after `%l` makes no difference: `doformat` looks at the one behind it, so
-- that `%ld` is not the directive for a long that the comment at the top of fmt.c says it is.
pub do_format-long_letter :
    (n x y : ℕ) (command fmt : Text) (args : List Arg)
    → do_format n command (b'%' ∷ b'l' ∷ x ∷ fmt) args
      ≡ do_format n command (b'%' ∷ b'l' ∷ y ∷ fmt) args
unfolding do_format directive read_number is_digit long_letter on_directive
do_format-long_letter zero x y command fmt args = refl
do_format-long_letter (suc n) x y command fmt args = refl

length-fetch : (fmt : Text) → length (fetch fmt).1 ≤ length fmt
length-fetch [] = omega arith
length-fetch (c ∷ fmt) = omega arith

length-read_number : (n c : ℕ) (fmt : Text) → length (read_number n c fmt).2 ≤ length fmt
unfolding read_number
length-read_number n c [] = ground arith
length-read_number n c (d ∷ fmt) = ground (arith, length-read_number (n * 10 + (c - 48)) d fmt)

-- What is left of the format has at most `k` characters.
abbrev Within : ℕ → Option Directive → Type 0
Within k none = Unit
Within k (some d) = length d.rest ≤ k

with_int-Within :
    (k : ℕ) (args : List Arg) (f : ℤ → List Arg → Directive)
    → ((n : ℤ) (args : List Arg) → length (f n args).rest ≤ k)
    → Within k (with_int args f)
with_int-Within k [] f h = tt
with_int-Within k (int n ∷ args) f h = h n args
with_int-Within k (long n ∷ args) f h = tt
with_int-Within k (string t ∷ args) f h = tt
with_int-Within k (buffer t ∷ args) f h = tt

starred-Within :
    (k : ℕ) (t : Bool) (d : Directive) (o : Option Directive)
    → length d.rest ≤ k
    → Within k o
    → Within k (if t then o else some d)
starred-Within k true d o h w = w
starred-Within k false d o h w = h

module _ (k : ℕ) (d : Directive) (h : length d.rest ≤ k) where
  star_width-Within : Within k (star_width d)
  star_width-Within =
      starred-Within k (d.letter == b'*') d _ h
        (with_int-Within k d.args _ (λ n args. omega (arith, length-fetch d.rest)))

  star_precision-Within : Within k (star_precision d)
  star_precision-Within =
      starred-Within k (d.letter == b'*') d _ h
        (with_int-Within k d.args _ (λ n args. omega (arith, length-fetch d.rest)))

read_precision-Within : (k : ℕ) (d : Directive) → length d.rest ≤ k → Within k (read_precision d)
read_precision-Within k d h =
    let (c, fmt) = fetch d.rest in
    let number = read_number 0 c fmt in
    starred-Within k (d.letter == b'.') d _ h (
      star_precision-Within k
        (record d {
          state = record d.state { precision = pos number.0 };
          letter = number.1;
          rest = number.2;
        })
        (omega (arith, length-fetch d.rest, length-read_number 0 c fmt)))

length-read_flags : (d : Directive) → length (read_flags d).rest ≤ length d.rest
length-read_flags d = ground (arith, length-fetch d.rest, length-fetch (fetch d.rest).1)

and_precision-Within :
    (k : ℕ) (o : Option Directive)
    → Within k o
    → Within k (elim o [ none ↦ none | some d ↦ read_precision d ])
and_precision-Within k none w = tt
and_precision-Within k (some d) w = read_precision-Within k d w

directive-Within : (fmt : Text) (args : List Arg) → Within (length fmt) (directive fmt args)
unfolding directive
directive-Within fmt args =
    let start : Directive = record {
      state = record { precision = pos 0; width = pos 0; leftadj = false; padc = 32 };
      letter = (fetch fmt).0;
      rest = (fetch fmt).1;
      args = args;
    } in
    let flags = read_flags start in
    and_precision-Within (length fmt) (star_width (read_width flags)) (
      star_width-Within (length fmt) (read_width flags) (
        omega (
          arith,
          length-fetch fmt,
          length-read_flags start,
          length-read_number 0 flags.letter flags.rest,
        )))

abbrev pub Finished : Formatted → Type 0
Finished unfinished = ⊥
Finished (text t) = Unit
Finished (refused j t) = Unit
Finished Formatted.undefined = Unit

put_before-Finished : (t : Text) (r : Formatted) → Finished r → Finished (put_before t r)
put_before-Finished t (text u) f = tt
put_before-Finished t (refused j u) f = tt
put_before-Finished t Formatted.undefined f = tt
put_before-Finished t unfinished f = f

and_then-Finished :
    (c : ℕ) (p : Piece) (f : List Arg → Formatted)
    → ((args : List Arg) → Finished (f args))
    → Finished (and_then c p f)
and_then-Finished c (put t args) f h = put_before-Finished t (f args) (h args)
and_then-Finished c unknown f h = tt
and_then-Finished c Piece.undefined f h = tt

module _ (k : ℕ) (command : Text) (f : Text → List Arg → Formatted) where
  module _ (h : (rest : Text) (args : List Arg) → length rest ≤ k → Finished (f rest args)) where
    long_letter-Finished :
        (d : Directive) (rest : Text) → length rest ≤ k → Finished (long_letter command d rest f)
    unfolding long_letter
    long_letter-Finished d [] w = tt
    long_letter-Finished d (x ∷ rest) w =
        and_then-Finished (char_upcase (fetch rest).0) _ (f rest)
          (λ args. h rest args (omega arith))

    on_directive-Finished :
        (o : Option Directive) → Within k o → Finished (on_directive command o f)
    unfolding on_directive
    on_directive-Finished none w = tt
    on_directive-Finished (some d) w = elim (Bool-cases (d.letter == b'l')) [
      | inl l ↦ rw (l) (long_letter-Finished d d.rest w)
      | inr other ↦ rw (other) (and_then-Finished d.letter _ (f d.rest) (λ args. h d.rest args w))
    ]

-- One round for each character of the format, and one more for its end, are enough for `doformat`.
pub do_format-Finished :
    (n : ℕ) (command fmt : Text) (args : List Arg)
    → length fmt < n
    → Finished (do_format n command fmt args)
unfolding do_format
do_format-Finished zero command fmt args h = absurd (omega arith)
do_format-Finished (suc n) command [] args h = tt
do_format-Finished (suc n) command (c ∷ fmt) args h =
    let ih = λ (rest : Text) (args : List Arg) (shorter : length rest ≤ length fmt).
      do_format-Finished n command rest args (omega arith) in
    let directed =
      on_directive-Finished (length fmt) command (do_format n command) ih (directive fmt args)
        (directive-Within fmt args) in
    let literal =
      put_before-Finished (c ∷ []) (do_format n command fmt args)
        (do_format-Finished n command fmt args (omega arith)) in
    elim (Bool-cases (c == b'%')) [
      | inl percent ↦ rw (percent) directed
      | inr other ↦ rw (other) literal
    ]
