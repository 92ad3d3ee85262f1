-- ===== src/Examples/Searching.antt =====
-- Matching and searching in a short line.
use jove.Base.{◌≡◌, refl, [], ◌∷◌, none, some, arith}
use jove.Chars.{char_upcase, fundamental}
use jove.Search.{
  Line, Code, Groups, success, hang, re_match, re_reset, eop, normc, star, star_backref, any,
  literal, run, quick, try_star, accepts,
}
use jove.Search.Sound.{Verdict, Regular, NoNul, re_match-Verdict}
use jove.Search.Backref.{re_match-empty_repeats}
use jove.Scan.{re_lindex, re_block, ahead, back}
use jove.Scan.Leftmost.{NulFree, FirstFrom, LastUpTo, re_lindex-FirstFrom, re_lindex-LastUpTo}

-- "xabab"
abbrev sample : Line
sample = record { text = b'x' ∷ b'a' ∷ b'b' ∷ b'a' ∷ b'b' ∷ []; crater = none; mode = fundamental }

-- "ab" and ".*b"
abbrev word : Code
word = normc (b'a' ∷ b'b' ∷ []) eop

abbrev starred : Code
starred = star any (normc (b'b' ∷ []) eop)

abbrev empty_group : Groups
empty_group = record { starts = λ n. some 0; ends = λ n. some 0 }

letters : NoNul (b'a' ∷ b'b' ∷ [])
unfolding char_upcase
letters = (omega arith, omega arith, (omega arith, omega arith, tt))

last_letter : NoNul (b'b' ∷ [])
unfolding char_upcase
last_letter = (omega arith, omega arith, tt)

sample-NulFree : NulFree sample.text
sample-NulFree = (omega arith, (omega arith, (omega arith, (omega arith, (omega arith, tt)))))

longest : re_match sample starred 0 re_reset ≡ success 5 re_reset
unfolding re_match run accepts literal try_star quick
longest = refl

re_match-Verdict_example : Verdict sample starred 0 (re_match sample starred 0 re_reset)
unfolding Regular
re_match-Verdict_example = re_match-Verdict sample starred 0 re_reset (tt, (last_letter, tt))

re_lindex-FirstFrom_example :
    FirstFrom sample
      (word ∷ starred ∷ [])
      1
      (re_lindex sample (some 1) ahead (re_block (word ∷ starred ∷ [])))
unfolding Regular
re_lindex-FirstFrom_example =
    re_lindex-FirstFrom sample (word ∷ starred ∷ []) 1
      ((letters, tt), ((tt, (last_letter, tt)), tt)) sample-NulFree (omega arith) refl

re_lindex-LastUpTo_example :
    LastUpTo sample (word ∷ []) 4 (re_lindex sample (some 4) back (re_block (word ∷ [])))
unfolding Regular
re_lindex-LastUpTo_example =
    re_lindex-LastUpTo sample (word ∷ []) 4 ((letters, tt), tt) sample-NulFree

re_match-empty_repeats_example : re_match sample (star_backref 1 eop) 0 empty_group ≡ hang
re_match-empty_repeats_example = re_match-empty_repeats sample 1 eop 0 0 empty_group refl refl refl
