-- ===== src/Format/Directives.antt =====
-- The directives of a format (fmt.c: `doformat`), with their arguments.
use jove.Base.{
  ℕ, zero, suc, ◌+◌, ◌-◌, ◌*◌, ◌%◌, List, [], ◌∷◌, ◌++◌, true, false, ◌==◌, Option, none, some,
  if◌then◌else◌,
}
use jove.Base.Int.{ℤ, pos, negsuc}
use jove.Buffer.{Text}
use jove.Outcome.{Jump, unknown_directive}
use jove.Chars.{is_digit, char_upcase}
use jove.Format.{FmtState, putld, fmt_puts, pp_char}

-- What `va_arg` finds.
pub data Arg : Type 0 where
  int : ℤ → Arg
  long : ℤ → Arg
  string : Option Text → Arg
  -- a buffer, by its `b_name`
  buffer : Option Text → Arg

-- What one directive puts, with the arguments that are left; `undefined` is a missing argument, or
-- one of another type.
pub data Piece : Type 0 where
  put : Text → List Arg → Piece
  unknown : Piece
  undefined : Piece

abbrev pub take_int : List Arg → (ℤ → Text) → Piece
take_int (int d ∷ args) f = put (f d) args
take_int args f = undefined

abbrev pub take_long : List Arg → (ℤ → Text) → Piece
take_long (long d ∷ args) f = put (f d) args
take_long args f = undefined

abbrev pub take_string : List Arg → (Option Text → Text) → Piece
take_string (string t ∷ args) f = put (f t) args
take_string args f = undefined

abbrev pub take_buffer : List Arg → (Option Text → Text) → Piece
take_buffer (buffer t ∷ args) f = put (f t) args
take_buffer args f = undefined

-- `ZXC`, which is also what `f_putc` stores of an `int`.
unfoldable pub to_byte : ℤ → ℕ
to_byte (pos n) = n % 256
to_byte (negsuc n) = 255 - n % 256

abbrev pub visible : FmtState → ℕ → Text
visible st c = fmt_puts st (some (if c == 27 then b'E' ∷ b'S' ∷ b'C' ∷ [] else pp_char c))

abbrev pub plural : FmtState → ℤ → Text
plural st (pos (suc zero)) = []
plural st (pos zero) = fmt_puts st (some (b's' ∷ []))
plural st (pos (suc (suc n))) = fmt_puts st (some (b's' ∷ []))
plural st (negsuc n) = fmt_puts st (some (b's' ∷ []))

-- The `switch` of `doformat`, less the case of `l`; `command` is the name of `LastCmd`.
unfoldable pub switch : Text → FmtState → ℕ → List Arg → Piece
unfolding putld fmt_puts to_byte pp_char
switch command st c args =
    if c == b'%'
    then put (b'%' ∷ []) args
    else if c == b'O'
    then take_long args (λ d. putld st d 8)
    else if c == b'D'
    then take_long args (λ d. putld st d 10)
    else if c == b'X'
    then take_long args (λ d. putld st d 16)
    else if c == b'b'
    then take_buffer args (fmt_puts st)
    else if c == b'c'
    then take_int args (λ d. to_byte d ∷ [])
    else if c == b'o'
    then take_int args (λ d. putld st d 8)
    else if c == b'd'
    then take_int args (λ d. putld st d 10)
    else if c == b'x'
    then take_int args (λ d. putld st d 16)
    else if c == b'f'
    then put (fmt_puts st (some command)) args
    else if c == b'n'
    then take_int args (plural st)
    else if c == b'p'
    then take_int args (λ d. visible st (to_byte d))
    else if c == b's'
    then take_string args (fmt_puts st)
    else unknown

-- `*fmt++`.
abbrev pub fetch : Text → ℕ × Text
fetch [] = (0, [])
fetch (c ∷ fmt) = (c, fmt)

-- The loops that read a width or a precision, which starts with `n` and with the character `c`.
unfoldable pub read_number : ℕ → ℕ → Text → ℕ × ℕ × Text
unfolding is_digit
read_number n c [] = if is_digit c then (n * 10 + (c - 48), 0, []) else (n, c, [])
read_number n c (d ∷ fmt) =
    let more = read_number (n * 10 + (c - 48)) d fmt in if is_digit c then more else (n, c, d ∷ fmt)

-- A directive, read up to its letter: the state for it, the letter, the format behind it and the
-- arguments that are left.
pub record Directive : Type 0 where
  pub state : FmtState
  pub letter : ℕ
  pub rest : Text
  pub args : List Arg

-- `va_arg(ap, int)` for a width or a precision.
abbrev pub with_int : List Arg → (ℤ → List Arg → Directive) → Option Directive
with_int [] f = none
with_int (int n ∷ args) f = some (f n args)
with_int (long n ∷ args) f = none
with_int (string t ∷ args) f = none
with_int (buffer t ∷ args) f = none

abbrev pub star_width : Directive → Option Directive
star_width d =
    let (c, fmt) = fetch d.rest in
    let starred = with_int d.args λ n args. record {
      state = record d.state { width = n };
      letter = c;
      rest = fmt;
      args = args;
    } in
    if d.letter == b'*' then starred else some d

abbrev pub star_precision : Directive → Option Directive
star_precision d =
    let (c, fmt) = fetch d.rest in
    let starred = with_int d.args λ n args. record {
      state = record d.state { precision = n };
      letter = c;
      rest = fmt;
      args = args;
    } in
    if d.letter == b'*' then starred else some d

abbrev pub read_flags : Directive → Directive
read_flags d =
    let (c, fmt) = fetch d.rest in
    let d1 =
      if d.letter == b'-'
      then record d { state = record d.state { leftadj = true }; letter = c; rest = fmt }
      else d in
    let (c', fmt') = fetch d1.rest in
    if d1.letter == b'0'
    then record d1 { state = record d1.state { padc = b'0' }; letter = c'; rest = fmt' }
    else d1

abbrev pub read_width : Directive → Directive
read_width d =
    let (n, c, fmt) = read_number 0 d.letter d.rest in
    record d { state = record d.state { width = pos n }; letter = c; rest = fmt }

abbrev pub read_precision : Directive → Option Directive
read_precision d =
    let (c, fmt) = fetch d.rest in
    let (n, c', fmt') = read_number 0 c fmt in
    if d.letter == b'.'
    then star_precision
        (record d { state = record d.state { precision = pos n }; letter = c'; rest = fmt' })
    else some d

-- The part of `doformat` from the `%` to `reswitch`.
unfoldable pub directive : Text → List Arg → Option Directive
unfolding read_number
directive fmt args =
    let (c, rest) = fetch fmt in
    let start : Directive = record {
      state = record { precision = pos 0; width = pos 0; leftadj = false; padc = 32 };
      letter = c;
      rest = rest;
      args = args;
    } in
    elim (star_width (read_width (read_flags start))) [ none ↦ none | some d ↦ read_precision d ]

-- What `doformat` puts; a complaint comes after the text that has been put. `unfinished` is to
-- run out of rounds, and `undefined` a missing argument or a read behind the format.
pub data Formatted : Type 0 where
  text : Text → Formatted
  refused : Jump → Text → Formatted
  undefined : Formatted
  unfinished : Formatted

abbrev pub put_before : Text → Formatted → Formatted
put_before t (text u) = text (t ++ u)
put_before t (refused j u) = refused j (t ++ u)
put_before t Formatted.undefined = Formatted.undefined
put_before t unfinished = unfinished

abbrev pub and_then : ℕ → Piece → (List Arg → Formatted) → Formatted
and_then c (put t args) f = put_before t (f args)
and_then c unknown f = refused (unknown_directive c) []
and_then c Piece.undefined f = Formatted.undefined

-- The case of `l`, from what is left of the format: the letter is `*++fmt`.
unfoldable pub long_letter : Text → Directive → Text → (Text → List Arg → Formatted) → Formatted
unfolding switch char_upcase
long_letter command d [] f = Formatted.undefined
long_letter command d (x ∷ rest) f =
    let c = char_upcase (fetch rest).0 in and_then c (switch command d.state c d.args) (f rest)

unfoldable pub on_directive : Text → Option Directive → (Text → List Arg → Formatted) → Formatted
unfolding switch
on_directive command none f = Formatted.undefined
on_directive command (some d) f =
    if d.letter == b'l'
    then long_letter command d d.rest f
    else and_then d.letter (switch command d.state d.letter d.args) (f d.rest)

-- `doformat`; every round takes a character of the format at least.
unfoldable pub do_format : ℕ → Text → Text → List Arg → Formatted
unfolding directive long_letter on_directive
do_format zero command fmt args = unfinished
do_format (suc n) command [] args = text []
do_format (suc n) command (c ∷ fmt) args =
    if c == b'%'
    then on_directive command (directive fmt args) (do_format n command)
    else put_before (c ∷ []) (do_format n command fmt args)
