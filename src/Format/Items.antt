-- ===== src/Format/Items.antt =====
-- What a format (fmt.c: `doformat`) means: the items that it spells, the arguments that it takes,
-- and the text that the comment at the top of fmt.c promises for each.
use jove.Base.{
  ℕ, zero, suc, ◌+◌, ◌-◌, ◌≢◌, List, [], ◌∷◌, ◌++◌, map, Bool, true, false, ◌==◌, Option, none,
  some, if◌then◌else◌, length, replicate, take,
}
use jove.Base.Int.{ℤ, pos, negsuc}
use jove.Buffer.{Text}
use jove.Format.{put_digits, magnitude, minus_sign, pp_char}
use jove.Format.Digits.{value, AllBelow}
use jove.Format.Directives.{Arg, int, long, string, buffer, to_byte}

-- A width or a precision: by its digits, which may be none, or by an argument.
pub data Count : Type 0 where
  digits : List ℕ → Count
  star : ℕ → Count

pub record Layout : Type 0 where
  pub left : Bool
  pub zeros : Bool
  pub width : Count
  pub precision : Option Count

pub data Base : Type 0 where
  octal decimal hex : Base

pub data Field : Type 0 where
  int_in : Base → ℤ → Field
  long_in : Base → ℤ → Field
  string_of : Option Text → Field
  name_of : Option Text → Field
  char : ℤ → Field
  visible_char : ℤ → Field
  plural_of : ℤ → Field
  command_name : Field

pub data Item : Type 0 where
  literal : ℕ → Item
  percent : Item
  field : Layout → Field → Item

-- The format.
abbrev pub count_text : Count → Text
count_text (digits ds) = map (λ d. b'0' + d) ds
count_text (star n) = b'*' ∷ []

abbrev pub precision_text : Option Count → Text
precision_text none = []
precision_text (some p) = b'.' ∷ count_text p

abbrev pub sign_text : Bool → ℕ → Text
sign_text true c = c ∷ []
sign_text false c = []

abbrev pub layout_text : Layout → Text → Text
layout_text y rest =
    sign_text y.left b'-'
    ++ (sign_text y.zeros b'0' ++ (count_text y.width ++ (precision_text y.precision ++ rest)))

abbrev pub letter_of : Field → ℕ
letter_of (int_in octal d) = b'o'
letter_of (int_in decimal d) = b'd'
letter_of (int_in hex d) = b'x'
letter_of (long_in octal d) = b'O'
letter_of (long_in decimal d) = b'D'
letter_of (long_in hex d) = b'X'
letter_of (string_of t) = b's'
letter_of (name_of t) = b'b'
letter_of (char d) = b'c'
letter_of (visible_char d) = b'p'
letter_of (plural_of d) = b'n'
letter_of command_name = b'f'

abbrev pub spell : List Item → Text
spell [] = []
spell (literal c ∷ items) = c ∷ spell items
spell (percent ∷ items) = b'%' ∷ b'%' ∷ spell items
spell (field y f ∷ items) = b'%' ∷ layout_text y (letter_of f ∷ spell items)

-- The arguments.
abbrev pub count_args : Count → List Arg → List Arg
count_args (digits ds) args = args
count_args (star n) args = int (pos n) ∷ args

abbrev pub precision_args : Option Count → List Arg → List Arg
precision_args none args = args
precision_args (some p) args = count_args p args

abbrev pub field_args : Field → List Arg → List Arg
field_args (int_in b d) args = int d ∷ args
field_args (long_in b d) args = long d ∷ args
field_args (string_of t) args = string t ∷ args
field_args (name_of t) args = buffer t ∷ args
field_args (char d) args = int d ∷ args
field_args (visible_char d) args = int d ∷ args
field_args (plural_of d) args = int d ∷ args
field_args command_name args = args

abbrev pub args_of : List Item → List Arg
args_of [] = []
args_of (literal c ∷ items) = args_of items
args_of (percent ∷ items) = args_of items
args_of (field y f ∷ items) =
    count_args y.width (precision_args y.precision (field_args f (args_of items)))

-- The text.
abbrev pub count : Count → ℕ
count (digits ds) = value 10 0 ds
count (star n) = n

abbrev pub precision_of : Layout → ℕ
precision_of y = elim y.precision [ none ↦ 0 | some p ↦ count p ]

-- Filled up to a width, on the left or on the right.
abbrev pub filled : Bool → ℕ → ℕ → Text → Text
filled left w c t = let fill = replicate (w - length t) c in if left then t ++ fill else fill ++ t

abbrev pub radix : Base → ℕ
radix octal = 8
radix decimal = 10
radix hex = 16

abbrev pub fill_of : Layout → ℕ
fill_of y = if y.zeros then b'0' else 32

-- With a width that is not 0, the number is filled up to that. A precision without a width is one,
-- with zeros to fill it.
abbrev pub number_at : Bool → ℕ → ℕ → ℕ → Text → Text
number_at left c (suc w) p shown = filled left (suc w) c shown
number_at left c zero (suc p) shown = filled left (suc p) b'0' shown
number_at left c zero zero shown = shown

abbrev pub number_text : Layout → ℕ → ℤ → Text
number_text y base d =
    number_at y.left (fill_of y) (count y.width) (precision_of y)
      (minus_sign d ++ put_digits 32 base (magnitude d) [])

-- A precision is the most of a string that is shown, where it is not 0.
abbrev pub cut : ℕ → Text → Text
cut zero t = t
cut (suc p) t = take (suc p) t

abbrev pub string_text : Layout → Text → Text
string_text y t = filled y.left (count y.width) 32 (cut (precision_of y) t)

abbrev pub or_null : Option Text → Text
or_null none = b'(' ∷ b'n' ∷ b'u' ∷ b'l' ∷ b'l' ∷ b')' ∷ []
or_null (some t) = t

abbrev pub field_text : Text → Layout → Field → Text
field_text command y (int_in b d) = number_text y (radix b) d
field_text command y (long_in b d) = number_text y (radix b) d
field_text command y (string_of t) = string_text y (or_null t)
field_text command y (name_of t) = string_text y (or_null t)
field_text command y (char d) = to_byte d ∷ []
field_text command y (visible_char d) =
    string_text y (if to_byte d == 27 then b'E' ∷ b'S' ∷ b'C' ∷ [] else pp_char (to_byte d))
field_text command y (plural_of (pos (suc zero))) = []
field_text command y (plural_of (pos zero)) = string_text y (b's' ∷ [])
field_text command y (plural_of (pos (suc (suc n)))) = string_text y (b's' ∷ [])
field_text command y (plural_of (negsuc n)) = string_text y (b's' ∷ [])
field_text command y command_name = string_text y command

abbrev pub render : Text → List Item → Text
render command [] = []
render command (literal c ∷ items) = c ∷ render command items
render command (percent ∷ items) = b'%' ∷ render command items
render command (field y f ∷ items) = field_text command y f ++ render command items

-- The digits are digits, and those of a width do not begin with the 0 that is a flag.
abbrev pub IsWidth : Count → Type 0
IsWidth (digits []) = Unit
IsWidth (digits (d ∷ ds)) = (d ≢ 0) × AllBelow 10 (d ∷ ds)
IsWidth (star n) = Unit

abbrev pub IsPrecision : Option Count → Type 0
IsPrecision none = Unit
IsPrecision (some (digits ds)) = AllBelow 10 ds
IsPrecision (some (star n)) = Unit

abbrev pub AreItems : List Item → Type 0
AreItems [] = Unit
AreItems (literal c ∷ items) = (c ≢ b'%') × AreItems items
AreItems (percent ∷ items) = AreItems items
AreItems (field y f ∷ items) = IsWidth y.width × IsPrecision y.precision × AreItems items
