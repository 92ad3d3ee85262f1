-- ===== src/Format.antt =====
-- Formatted output (fmt.c), the reading of numbers (extend.c: `chr_to_long`), and the spelling of
-- characters that cannot be printed (fmt.c: `PPchar`; util.c: `DecodePair`).
pub mod Digits
pub mod Directives
pub mod Letters
pub mod Items
pub mod Reading
pub mod Rendered
use jove.Base.{
  ℕ, zero, suc, ◌+◌, ◌-◌, ◌*◌, ◌/◌, ◌%◌, ◌^◌, List, [], ◌∷◌, ◌++◌, Bool, true, false, ◌||◌, ltb,
  leb, ◌==◌, Option, none, some, if◌then◌else◌, length, take, drop, replicate,
}
use jove.Base.Int.{ℤ, pos, negsuc, pos_part, ◌+ℤ◌, ◌-ℤ◌, ◌*ℤ◌}
use jove.Buffer.{Text}
use jove.Outcome.{Jump, bad_pair, unknown_directive, wrong_base}
use jove.Argument.{to_long}
use jove.Chars.{is_digit, is_print, char_upcase}

-- `PPchar`.
unfoldable pub pp_char : ℕ → Text
unfolding is_print
pp_char c =
    if is_print c
    then c ∷ []
    else if ltb c 127
    then b'^' ∷ (c + 64) ∷ []
    else if c == 127
    then b'^' ∷ b'?' ∷ []
    else 92 ∷ (48 + c / 64) ∷ (48 + c / 8 % 8) ∷ (48 + c % 8) ∷ []

-- `DecodePair`, on two characters of a text.
unfoldable pub decode_pair : ℕ → ℕ → Option ℕ
unfolding char_upcase
decode_pair first second =
    let us = char_upcase second in
    if second == 10
    then none
    else if first == b'^'
    then (if second == b'?'
        then some 127
        else if ltb us 64 || ltb 95 us
        then none
        else some (us % 32))
    else some second

-- `struct fmt_state`, less the file.
pub record FmtState : Type 0 where
  pub precision : ℤ
  pub width : ℤ
  pub leftadj : Bool
  pub padc : ℕ

-- `pad`, as the bytes that it puts.
unfoldable pub pad : ℕ → ℤ → Text
pad c (pos n) = if c == 0 then [] else replicate n c
pad c (negsuc n) = []

-- `chars`.
unfoldable pub digit_char : ℕ → ℕ
digit_char i = if ltb i 10 then b'0' + i else b'a' + (i - 10)

-- The loop of `putld`, before the digits `up` that it has put already, for at most `n` digits.
unfoldable pub put_digits : ℕ → ℕ → ℕ → Text → Text
unfolding digit_char
put_digits zero base d up = up
put_digits (suc n) base d up =
    let more = put_digits n base (d / base) (digit_char (d % base) ∷ up) in
    if d / base == 0 then digit_char (d % base) ∷ up else more

-- `tmpd`, the number without its sign.
abbrev pub magnitude : ℤ → ℕ
magnitude (pos n) = n
magnitude (negsuc n) = suc n

abbrev pub minus_sign : ℤ → Text
minus_sign (pos n) = []
minus_sign (negsuc n) = b'-' ∷ []

-- The first `if` on the state in `putld`.
unfoldable pub number_state : FmtState → FmtState
number_state st = elim st.width [
  | pos zero ↦ elim st.precision [
    | pos zero ↦ st
    | pos (suc p) ↦ record st { width = st.precision; padc = b'0' }
    | negsuc p ↦ record st { width = st.precision; padc = b'0' }
  ]
  | pos (suc w) ↦ st
  | negsuc w ↦ st
]

-- `putld`, which has room for 32 digits; the number is not the least one of a `long`, which has no
-- opposite.
unfoldable pub putld : FmtState → ℤ → ℕ → Text
unfolding number_state put_digits pad
putld st d base =
    let st' = number_state st in
    let number = minus_sign d ++ put_digits 32 base (magnitude d) [] in
    let digits = put_digits 32 base (magnitude d) [] in
    let padding = pad st'.padc (st'.width -ℤ pos (length number)) in
    if st'.leftadj then number ++ padding else padding ++ number

-- `fmt_puts`.
unfoldable pub fmt_puts : FmtState → Option Text → Text
unfolding pad
fmt_puts st str =
    let text : Text = elim str [
      | none ↦ b'(' ∷ b'n' ∷ b'u' ∷ b'l' ∷ b'l' ∷ b')' ∷ []
      | some t ↦ t
    ] in
    let whole : Bool = elim st.precision [
      | pos zero ↦ true
      | pos (suc p) ↦ ltb (length text) (suc p)
      | negsuc p ↦ false
    ] in
    let len : ℤ = if whole then pos (length text) else st.precision in
    let shown = if whole then text else take (pos_part st.precision) text in
    let padding = pad 32 (st.width -ℤ len) in
    if st.leftadj then shown ++ padding else padding ++ shown

-- The loop of `chr_to_long`, with the value of the digits before.
pub data NumberRead : Type 0 where
  -- YES, with the number
  number : ℤ → NumberRead
  -- NO
  not_a_number : NumberRead
  complaint : Jump → NumberRead

unfoldable pub read_value : ℕ → Bool → ℤ → Text → NumberRead
unfolding is_digit to_long
read_value base allints v [] = number v
read_value base allints v (c ∷ cp) =
    let more = read_value base allints (to_long (to_long (v *ℤ pos base) +ℤ pos (c - 48))) cp in
    if is_digit c
    then (if leb base (c - 48) then complaint (wrong_base base) else more)
    else if allints
    then not_a_number
    else number v

abbrev times_sign : ℤ → NumberRead → NumberRead
times_sign s (number v) = number (to_long (v *ℤ s))
times_sign s not_a_number = not_a_number
times_sign s (complaint j) = complaint j

-- `chr_to_long`.
unfoldable pub chr_to_long : Text → ℕ → Bool → NumberRead
unfolding read_value
chr_to_long [] base allints = times_sign (pos 1) (read_value base allints (pos 0) [])
chr_to_long (c ∷ cp) base allints =
    if c == b'-'
    then times_sign (negsuc 0) (read_value base allints (pos 0) cp)
    else times_sign (pos 1) (read_value base allints (pos 0) (c ∷ cp))
