-- ===== src/Argument/Digits.antt =====
-- A typed number is read as it is written.
use jove.Base.{
  ℕ, ◌+◌, ◌-◌, ◌*◌, ◌≤◌, ◌<◌, ◌≡◌, refl, sym, ap, ◌∙◌, List, [], ◌∷◌, ◌++◌, map, true, false,
  lt→ltb, ◌%◌, arith,
}
use jove.Base.Int.{ℤ, pos, ◌+ℤ◌, ◌*ℤ◌, ltb_ℤ}
use jove.Chars.{is_digit}
use jove.Argument.{
  Argument, ArgState, as_numeric, to_long, long_half, continued, without_sign, arg_round,
  gather_argument, gathered, digit_key, no_argument, switched,
}

-- The number that digits spell after a number.
abbrev pub spelled : ℕ → List ℕ → ℕ
spelled n [] = n
spelled n (d ∷ ds) = spelled (n * 10 + d) ds

abbrev pub AllDigits : List ℕ → Type 0
AllDigits [] = Unit
AllDigits (d ∷ ds) = (d < 10) × AllDigits ds

-- The keys for some digits.
abbrev pub keys_for : List ℕ → List ℕ
keys_for ds = map (λ d. d + b'0') ds

pub spelled-ge : (n : ℕ) (ds : List ℕ) → n ≤ spelled n ds
spelled-ge n [] = omega arith
spelled-ge n (d ∷ ds) = omega (arith, spelled-ge (n * 10 + d) ds)

pub to_long-small : (n : ℕ) → n < long_half → to_long (pos n) ≡ pos n
unfolding to_long
to_long-small n h =
    let e : n % (2 * long_half) ≡ n = omega arith in rw (to_long, e, lt→ltb n long_half h) refl

pub pos-sum : (a b : ℕ) → pos a +ℤ pos b ≡ pos (a + b)
unfolding ◌+ℤ◌
pos-sum a b = ground arith

ten_times : (a : ℕ) → pos a *ℤ pos 10 ≡ pos (a * 10)
unfolding ◌*ℤ◌
ten_times a = ground arith

pub not_negative : (n : ℕ) → ltb_ℤ (pos n) (pos 0) ≡ false
not_negative n = ground arith

pub not_less : (n m : ℕ) → n ≤ m → ltb_ℤ (pos m) (pos n) ≡ false
not_less n m h = ground arith

pub continued-digit :
    (n d : ℕ)
    → n * 10 + d < long_half
    → continued as_numeric (pos d) (pos n) ≡ (pos (n * 10 + d), false)
unfolding continued
continued-digit n d h =
    rw
      (
        ten_times n,
        to_long-small (n * 10) (omega arith),
        pos-sum (n * 10) d,
        to_long-small (n * 10 + d) h,
      )
      refl

digit_after :
    (n d : ℕ)
    → n * 10 + d < long_half
    → without_sign false as_numeric (pos d) as_numeric (pos n)
      ≡ (record { state = as_numeric; count = pos (n * 10 + d) }, false)
unfolding without_sign
digit_after n d h =
    ap (switched false as_numeric (pos n)) (continued-digit n d h)
    ∙ rw (not_less n (n * 10 + d) (omega arith)) refl

next_digit :
    (n d : ℕ)
    → n * 10 + d < long_half
    → arg_round as_numeric (pos d) (record { state = as_numeric; count = pos n })
      ≡ (record { state = as_numeric; count = pos (n * 10 + d) }, false)
unfolding arg_round
next_digit n d h = rw (arg_round, not_negative n) (digit_after n d h)

-- A key that ends a number.
abbrev pub EndsNumber : ℕ → Type 0
EndsNumber c = is_digit c ≡ false

pub digit-is_digit : (d : ℕ) → d < 10 → is_digit (d + b'0') ≡ true
unfolding is_digit
digit-is_digit d h = ground arith

digits_after :
    (n d c : ℕ) (ds rest : List ℕ)
    → AllDigits ds
    → spelled (n * 10 + d) ds < long_half
    → EndsNumber c
    → gather_argument as_numeric
        (pos d)
        (record { state = as_numeric; count = pos n })
        (keys_for ds ++ c ∷ rest)
      ≡ gathered (record { state = as_numeric; count = pos (spelled (n * 10 + d) ds) }) (c ∷ rest)
unfolding gather_argument
digits_after n d c [] rest a h e = rw (gather_argument, next_digit n d h, e) refl
digits_after n d c (k ∷ ds) rest a h e =
    let k' : k + b'0' - b'0' ≡ k = omega arith in
    rw
      (
        gather_argument,
        next_digit n d (omega (arith, spelled-ge (n * 10 + d) (k ∷ ds))),
        digit-is_digit k a.0,
        k',
      )
      (digits_after (n * 10 + d) k c ds rest a.1 h e)

-- What is gathered hangs on the first round alone.
gather_equal :
    (ns : ArgState) (nc : ℤ) (a a' : Argument) (keys : List ℕ)
    → arg_round ns nc a ≡ arg_round ns nc a'
    → gather_argument ns nc a keys ≡ gather_argument ns nc a' keys
unfolding gather_argument
gather_equal ns nc a a' [] e = rw (gather_argument, e) refl
gather_equal ns nc a a' (c ∷ keys) e = rw (gather_argument, e) refl

first_digit :
    (d : ℕ)
    → arg_round as_numeric (pos d) no_argument
      ≡ (record { state = as_numeric; count = pos d }, false)
unfolding arg_round without_sign
first_digit d = refl

-- Without an argument, typing the digits of a number below 2^63 and then some other key gives that
-- number as the argument and leaves the key.
pub digit_key-spelled :
    (d : ℕ) (ds : List ℕ) (c : ℕ) (rest : List ℕ)
    → AllDigits ds
    → spelled d ds < long_half
    → EndsNumber c
    → digit_key d no_argument (keys_for ds ++ c ∷ rest)
      ≡ gathered (record { state = as_numeric; count = pos (spelled d ds) }) (c ∷ rest)
digit_key-spelled d ds c rest a h e =
    gather_equal as_numeric (pos d) no_argument (record { state = as_numeric; count = pos 0 }) _
      (first_digit d
        ∙ sym (
            next_digit 0 d (omega (arith, spelled-ge d ds))
            ∙ ap (λ n. (record { state = as_numeric; count = pos n }, false)) zero_times))
    ∙ rw (zero_times) at (digits_after 0 d c ds rest a (rw zero_times h) e)
  where
    zero_times : 0 * 10 + d ≡ d
    zero_times = omega arith

to_long-wraps :
    (n : ℕ) → 2 * long_half ≤ n → n < 3 * long_half → to_long (pos n) ≡ pos (n - 2 * long_half)
unfolding to_long
to_long-wraps n lo hi =
    let e : n % (2 * long_half) ≡ n - 2 * long_half = omega arith in
    rw (to_long, e, lt→ltb (n - 2 * long_half) long_half (omega arith)) refl

continued-wrapped :
    (n d : ℕ)
    → d < 10
    → 2 * long_half + n ≤ n * 10 + d
    → n * 10 + d < 3 * long_half
    → continued as_numeric (pos d) (pos n) ≡ (pos (n * 10 + d - 2 * long_half), false)
unfolding continued
continued-wrapped n d hd lo hi =
    let e : n * 10 - 2 * long_half + d ≡ n * 10 + d - 2 * long_half = omega arith in
    rw
      (
        ten_times n,
        to_long-wraps (n * 10) (omega arith) (omega arith),
        pos-sum (n * 10 - 2 * long_half) d,
        e,
        to_long-small (n * 10 + d - 2 * long_half) (omega arith),
      )
      refl

wrapped_digit :
    (n d : ℕ)
    → d < 10
    → 2 * long_half + n ≤ n * 10 + d
    → n * 10 + d < 3 * long_half
    → arg_round as_numeric (pos d) (record { state = as_numeric; count = pos n })
      ≡ (record { state = as_numeric; count = pos (n * 10 + d - 2 * long_half) }, false)
unfolding arg_round without_sign
wrapped_digit n d hd lo hi =
    rw (arg_round, not_negative n)
      (ap (switched false as_numeric (pos n)) (continued-wrapped n d hd lo hi)
        ∙ rw (not_less n (n * 10 + d - 2 * long_half) (omega arith)) refl)

-- Typing a digit to an argument so large that ten times it goes beyond 2^64 is not noticed where
-- what is left after the wrapping is at least the argument: the argument is then that rest.
pub gather_argument-wraps :
    (n d c : ℕ) (rest : List ℕ)
    → d < 10
    → 2 * long_half + n ≤ n * 10 + d
    → n * 10 + d < 3 * long_half
    → EndsNumber c
    → digit_key d (record { state = as_numeric; count = pos n }) (c ∷ rest)
      ≡ gathered
          (record { state = as_numeric; count = pos (n * 10 + d - 2 * long_half) })
          (c ∷ rest)
unfolding gather_argument
gather_argument-wraps n d c rest hd lo hi e =
    rw (gather_argument, wrapped_digit n d hd lo hi, e) refl
