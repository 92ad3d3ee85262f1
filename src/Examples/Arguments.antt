-- ===== src/Examples/Arguments.antt =====
-- Arguments as they are typed, and kill rings.
use jove.Base.{
  ◌<◌, ℕ, zero, suc, ◌≡◌, refl, [], ◌∷◌, ◌++◌, arith, none, some, inl, if◌then◌else◌, ◌==◌,
}
use jove.Base.Int.{pos, ◌+ℤ◌, ◌*ℤ◌, ◌-ℤ◌}
use jove.Chars.{is_digit}
use jove.Argument.{
  as_numeric, gathered, digit_key, minus_key, no_argument, gather_argument, arg_round, without_sign,
  continued, negate_arg, to_long,
}
use jove.Argument.Digits.{keys_for, digit_key-spelled, gather_argument-wraps}
use jove.KillRing.{Ring, del_kill_ring}
use jove.KillRing.Recent.{IsRing}
use jove.KillRing.Added.{Added, add_kill_ring-Added}
use jove.KillRing.Deleted.{Less, del_kill_ring-Less}
use jove.KillRing.Rotated.{Turned, rotate-Turned}

digit_key-spelled_example :
    digit_key 4 no_argument (keys_for (2 ∷ 7 ∷ []) ++ b'x' ∷ [])
    ≡ gathered (record { state = as_numeric; count = pos 427 }) (b'x' ∷ [])
unfolding is_digit
digit_key-spelled_example =
    digit_key-spelled 4 (2 ∷ 7 ∷ []) b'x' [] (omega arith, (omega arith, tt)) (omega arith) refl

-- The minus sign is forgotten where a 0 is typed first.
sign_lost :
    minus_key no_argument (b'0' ∷ b'5' ∷ b'x' ∷ [])
    ≡ gathered (record { state = as_numeric; count = pos 5 }) (b'x' ∷ [])
unfolding gather_argument arg_round without_sign continued negate_arg to_long is_digit ◌+ℤ◌ ◌*ℤ◌
    ◌-ℤ◌
sign_lost = refl

gather_argument-wraps_example :
    digit_key 0 (record { state = as_numeric; count = pos 2500000000000000000 }) (b'x' ∷ [])
    ≡ gathered (record { state = as_numeric; count = pos 6553255926290448384 }) (b'x' ∷ [])
unfolding is_digit
gather_argument-wraps_example =
    gather_argument-wraps 2500000000000000000 0 b'x' [] (omega arith) (omega arith) (omega arith)
      refl

-- Entries 5 and 6, the second one killed later, with the first one yanked last.
abbrev two_kills : Ring ℕ
two_kills = record {
  slots = λ j. if j == 0 then some 5 else if j == 1 then some 6 else none;
  ptr = 0;
}

two_kills-IsRing : IsRing two_kills 2
two_kills-IsRing = record {
  in_use = in_use;
  free = λ j ge lt. ground arith;
  at_entry = inl (omega arith);
  room = omega arith;
}
  where
    in_use : (j : ℕ) → j < 2 → (t : ℕ) × (two_kills.slots j ≡ some t)
    in_use zero h = (5, refl)
    in_use (suc zero) h = (6, refl)
    in_use (suc (suc j)) h = absurd (omega arith)

add_kill_ring-Added_example : Added 7 two_kills 2
add_kill_ring-Added_example = add_kill_ring-Added 7 two_kills 2 two_kills-IsRing

del_kill_ring-Less_example : Less two_kills 1 two_kills-IsRing (del_kill_ring two_kills)
del_kill_ring-Less_example = del_kill_ring-Less two_kills 1 two_kills-IsRing

rotate-Turned_example : Turned two_kills 2
rotate-Turned_example = rotate-Turned two_kills 1 two_kills-IsRing
