-- ===== src/Argument.antt =====
-- Numeric arguments of commands (argcount.c).
pub mod Digits
pub mod Signed
use jove.Base.{
  ℕ, suc, ◌+◌, ◌-◌, ◌*◌, ◌^◌, ◌%◌, List, [], ◌∷◌, Bool, true, false, not, ◌&&◌, ltb, ◌==◌,
  if◌then◌else◌,
}
use jove.Base.Int.{ℤ, pos, negsuc, ◌+ℤ◌, ◌-ℤ◌, ◌*ℤ◌, ltb_ℤ}
use jove.Chars.{is_digit}

-- A `long` has 64 bits and wraps around.
abbrev pub long_half : ℕ
long_half = 2 ^ 63

unfoldable pub to_long : ℤ → ℤ
to_long (pos n) =
    let m = n % (2 * long_half) in if ltb m long_half then pos m else negsuc (2 * long_half - m - 1)
to_long (negsuc n) =
    let m = n % (2 * long_half) in if ltb m long_half then negsuc m else pos (2 * long_half - m - 1)

-- `arg_state`.
pub data ArgState : Type 0 where
  as_none as_numeric as_negsign as_times : ArgState

-- `arg_state` and `arg_count`.
pub record Argument : Type 0 where
  pub state : ArgState
  pub count : ℤ

abbrev pub same_state : ArgState → ArgState → Bool
same_state as_none as_none = true
same_state as_numeric as_numeric = true
same_state as_negsign as_negsign = true
same_state as_times as_times = true
same_state _ _ = false

-- How gathering ends: with the keys that are left, with the complaint, or waiting for a key.
pub data Gathered : Type 0 where
  gathered : Argument → List ℕ → Gathered
  count_overflow : Argument → Gathered
  waiting : Argument → Gathered

-- `negate_arg`; the second component tells that it complains.
unfoldable pub negate_arg : ℤ → ℤ × Bool
unfolding to_long
negate_arg c =
    let n = to_long (pos 0 -ℤ c) in if ltb_ℤ c (pos 0) then (n, ltb_ℤ n (pos 0)) else (n, false)

-- The `switch` of `gather_argument`: `t`, and whether the sign is turned round.
unfoldable pub continued : ArgState → ℤ → ℤ → ℤ × Bool
unfolding to_long
continued as_numeric nc c = (to_long (to_long (c *ℤ pos 10) +ℤ nc), false)
continued as_negsign nc c = (c, true)
continued as_times nc c = (to_long (c *ℤ nc), false)
continued as_none nc c = (c, false)

-- A round up to `waitchar`: the new state and count; the second component tells that it complains.
abbrev pub signed : Bool → ArgState → ℤ → Argument × Bool
signed neg st c =
    let (c', bad) = negate_arg c in
    if neg
    then (record { state = st; count = c' }, bad)
    else (record { state = st; count = c }, false)

-- The check of `t`, and the last `negate_arg`.
abbrev pub switched : Bool → ArgState → ℤ → ℤ × Bool → Argument × Bool
switched neg st c (t, turned) =
    if ltb_ℤ t c
    then (record { state = st; count = c }, true)
    else signed (if turned then not neg else neg) st t

unfoldable pub without_sign : Bool → ArgState → ℤ → ArgState → ℤ → Argument × Bool
unfolding continued negate_arg
without_sign neg ns nc st c =
    if same_state ns st then switched neg ns c (continued ns nc c) else signed neg ns nc

unfoldable pub arg_round : ArgState → ℤ → Argument → Argument × Bool
unfolding without_sign negate_arg
arg_round ns nc a =
    let (c, bad) = negate_arg a.count in
    let turned = without_sign true ns nc a.state c in
    if ltb_ℤ a.count (pos 0)
    then (if bad then (record a { count = c }, true) else turned)
    else without_sign false ns nc a.state a.count

-- `gather_argument`, with the keys that are typed after the one that led to it.
unfoldable pub gather_argument : ArgState → ℤ → Argument → List ℕ → Gathered
unfolding arg_round is_digit
gather_argument ns nc a [] =
    let (a', bad) = arg_round ns nc a in if bad then count_overflow a' else waiting a'
gather_argument ns nc a (c ∷ keys) =
    let (a', bad) = arg_round ns nc a in
    let digit = gather_argument as_numeric (pos (c - b'0')) a' keys in
    let minus = gather_argument as_negsign (negsuc 0) a' keys in
    if bad
    then count_overflow a'
    else if is_digit c
    then digit
    else if same_state a'.state as_times && c == b'-'
    then minus
    else gathered a' (c ∷ keys)

-- `TimesFour`, `Digit` on a digit and on a minus sign, and their like.
abbrev pub times_four : Argument → List ℕ → Gathered
times_four a keys = gather_argument as_times (pos 4) a keys

abbrev pub digit_key : ℕ → Argument → List ℕ → Gathered
digit_key d a keys = gather_argument as_numeric (pos d) a keys

abbrev pub minus_key : Argument → List ℕ → Gathered
minus_key a keys = gather_argument as_negsign (negsuc 0) a keys

-- `clr_arg_value`.
abbrev pub no_argument : Argument
no_argument = record { state = as_none; count = pos 1 }
