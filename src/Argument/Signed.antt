-- ===== src/Argument/Signed.antt =====
-- A typed number behind a minus sign.
use jove.Base.{
  ℕ, suc, ◌+◌, ◌-◌, ◌*◌, ◌<◌, ◌≡◌, refl, ap, ◌∙◌, List, [], ◌∷◌, ◌++◌, true, false, lt→ltb, ◌%◌,
  arith,
}
use jove.Base.Int.{pos, negsuc, ◌-ℤ◌, ltb_ℤ}
use jove.Argument.{
  as_numeric, as_negsign, to_long, long_half, negate_arg, without_sign, arg_round, gather_argument,
  gathered, minus_key, no_argument, switched,
}
use jove.Argument.Digits.{
  spelled, AllDigits, keys_for, EndsNumber, spelled-ge, to_long-small, not_negative, not_less,
  continued-digit, digit-is_digit,
}

to_long-negative : (n : ℕ) → n < long_half → to_long (negsuc n) ≡ negsuc n
unfolding to_long
to_long-negative n h =
    let e : n % (2 * long_half) ≡ n = omega arith in rw (to_long, e, lt→ltb n long_half h) refl

minus-negsuc : (n : ℕ) → pos 0 -ℤ negsuc n ≡ pos (suc n)
unfolding ◌-ℤ◌
minus-negsuc n = ground arith

minus-pos : (n : ℕ) → pos 0 -ℤ pos (suc n) ≡ negsuc n
unfolding ◌-ℤ◌
minus-pos n = ground arith

is_negative : (n : ℕ) → ltb_ℤ (negsuc n) (pos 0) ≡ true
is_negative n = ground arith

negate_arg-negsuc : (n : ℕ) → suc n < long_half → negate_arg (negsuc n) ≡ (pos (suc n), false)
unfolding negate_arg
negate_arg-negsuc n h =
    rw (negate_arg, minus-negsuc n, to_long-small (suc n) h, is_negative n, not_negative (suc n))
      refl

negate_arg-pos : (n : ℕ) → n < long_half → negate_arg (pos (suc n)) ≡ (negsuc n, false)
unfolding negate_arg
negate_arg-pos n h = rw (negate_arg, minus-pos n, to_long-negative n h, not_negative (suc n)) refl

-- A negative argument takes a further digit.
next_negative :
    (n d : ℕ)
    → suc n * 10 + d < long_half
    → arg_round as_numeric (pos d) (record { state = as_numeric; count = negsuc n })
      ≡ (record { state = as_numeric; count = negsuc (suc n * 10 + d - 1) }, false)
unfolding arg_round without_sign
next_negative n d h =
    let e : suc n * 10 + d ≡ suc (suc n * 10 + d - 1) = omega arith in
    rw (arg_round, negate_arg-negsuc n (omega arith), is_negative n)
      (ap (switched true as_numeric (pos (suc n)))
          (continued-digit (suc n) d h ∙ ap (λ k. (pos k, false)) e)
        ∙ rw
            (
              not_less (suc n) (suc (suc n * 10 + d - 1)) (omega arith),
              negate_arg-pos (suc n * 10 + d - 1) (omega arith),
            )
            refl)

negative_after :
    (n d c : ℕ) (ds rest : List ℕ)
    → AllDigits ds
    → spelled (suc n * 10 + d) ds < long_half
    → EndsNumber c
    → gather_argument as_numeric
        (pos d)
        (record { state = as_numeric; count = negsuc n })
        (keys_for ds ++ c ∷ rest)
      ≡ gathered
          (record { state = as_numeric; count = negsuc (spelled (suc n * 10 + d) ds - 1) })
          (c ∷ rest)
unfolding gather_argument
negative_after n d c [] rest a h e = rw (gather_argument, next_negative n d h, e) refl
negative_after n d c (k ∷ ds) rest a h e =
    let k' : k + b'0' - b'0' ≡ k = omega arith in
    let m : suc (suc n * 10 + d - 1) ≡ suc n * 10 + d = omega arith in
    rw
      (
        gather_argument,
        next_negative n d (omega (arith, spelled-ge (suc n * 10 + d) (k ∷ ds))),
        digit-is_digit k a.0,
        k',
      )
      (negative_after (suc n * 10 + d - 1) k c ds rest a.1 (rw m h) e
        ∙ ap
            (λ x.
              gathered (record { state = as_numeric; count = negsuc (spelled (x * 10 + k) ds - 1) })
                (c ∷ rest))
            m)

-- The first digit after a minus sign takes the place of the 1 and keeps the sign.
first_negative :
    (d : ℕ)
    → suc d < long_half
    → arg_round as_numeric (pos (suc d)) (record { state = as_negsign; count = negsuc 0 })
      ≡ (record { state = as_numeric; count = negsuc d }, false)
unfolding arg_round without_sign ◌-ℤ◌
first_negative d h = rw (arg_round, negate_arg-pos d (omega arith)) refl

-- Without an argument, typing a minus sign, the digits of a number below 2^63 that does not start
-- with a 0, and then some other key gives minus that number as the argument and leaves the key.
pub minus_key-spelled :
    (d : ℕ) (ds : List ℕ) (c : ℕ) (rest : List ℕ)
    → suc d < 10
    → AllDigits ds
    → spelled (suc d) ds < long_half
    → EndsNumber c
    → minus_key no_argument (keys_for (suc d ∷ ds) ++ c ∷ rest)
      ≡ gathered (record { state = as_numeric; count = negsuc (spelled (suc d) ds - 1) }) (c ∷ rest)
unfolding gather_argument
minus_key-spelled d ds c rest hd a h e =
    let k' : suc d + b'0' - b'0' ≡ suc d = omega arith in
    rw (gather_argument, digit-is_digit (suc d) hd, k') (after ds a h)
  where
    after :
        (ds : List ℕ)
        → AllDigits ds
        → spelled (suc d) ds < long_half
        → gather_argument as_numeric
            (pos (suc d))
            (record { state = as_negsign; count = negsuc 0 })
            (keys_for ds ++ c ∷ rest)
          ≡ gathered
              (record { state = as_numeric; count = negsuc (spelled (suc d) ds - 1) })
              (c ∷ rest)
    after [] a h =
        let m : d ≡ suc d - 1 = omega arith in
        rw (gather_argument, first_negative d h, e)
          (ap (λ n. gathered (record { state = as_numeric; count = negsuc n }) (c ∷ rest)) m)
    after (k ∷ ds) a h =
        let k' : k + b'0' - b'0' ≡ k = omega arith in
        rw
          (
            gather_argument,
            first_negative d (omega (arith, spelled-ge (suc d) (k ∷ ds))),
            digit-is_digit k a.0,
            k',
          )
          (negative_after d k c ds rest a.1 h e)
