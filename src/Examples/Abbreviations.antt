-- ===== src/Examples/Abbreviations.antt =====
-- Abbreviations.
use jove.Base.{
  ℕ, ◌≡◌, ◌≤◌, refl, Bool, [], ◌∷◌, true, false, none, some, inl, inr, Bool-cases, arith, drop,
  push_all, if◌then◌else◌, ◌==◌,
}
use jove.Buffer.{Buffer, Text, IsValid, line_at, left, right}
use jove.Outcome.{Outcome, done, jump, bad_abbrev}
use jove.Chars.{
  fundamental, is_ident, is_word, is_upper, is_lower, is_digit, is_white, char_upcase,
  char_downcase,
}
use jove.Move.Char.{gap}
use jove.Abbrev.{
  Abbrev, Table, Tables, global, hash, hash_on, lookup_abbrev, chain_lookup, strcmp_eq, put_chain,
  define, run_hook, abbrev_expand, wordbuf, phrase_char, either_lookup,
}
use jove.Abbrev.Table.{given, lookup-define}
use jove.Abbrev.Recased.{cased, recased, capitals}
use jove.Abbrev.Expanded.{abbrev_expand-Put}
use jove.Abbrev.Saved.{
  save_abbrevs, rest_abbrevs, rest_lines, f_gets, get_bytes, entry_of, starts_with, at_colon,
}
use jove.Abbrev.Saved.Chains.{IsTable, phrase_of, or_else}
use jove.Abbrev.Saved.Lines.{AllWritable}
use jove.Abbrev.Saved.Defined.{define-IsTable}
use jove.Abbrev.Saved.Restored.{all_clean-Clean, rest_abbrevs-save_abbrevs}

abbrev jp : Text
jp = b'j' ∷ b'p' ∷ []

abbrev jon_pay : Text
jon_pay = b'j' ∷ b'o' ∷ b'n' ∷ 32 ∷ b'p' ∷ b'a' ∷ b'y' ∷ []

abbrev no_abbrevs : Table
no_abbrevs j = []

abbrev one_abbrev : Table
one_abbrev = define no_abbrevs jp jon_pay

abbrev some_tables : Tables
some_tables i = if i == global then one_abbrev else no_abbrevs

lookup-define_example : lookup_abbrev (define one_abbrev jp jp) jp ≡ (
    if strcmp_eq jp jp
    then some (given jp jp (lookup_abbrev one_abbrev jp))
    else lookup_abbrev one_abbrev jp)
lookup-define_example = lookup-define one_abbrev jp jp jp

-- "a Jp." with point before the full stop.
abbrev a_name : Buffer
a_name = record {
  above = [];
  here = line_at 0 (b'a' ∷ 32 ∷ b'J' ∷ b'p' ∷ b'.' ∷ []);
  below = [];
  curchar = 4;
  marks = [];
  fresh = 1;
  modified = false;
}

abbrev no_command : ℕ → Buffer → Outcome Buffer
no_command k b = done b

a_name-IsValid : IsValid a_name
a_name-IsValid = record {
  in_line = omega arith;
  distinct = (tt, tt);
  allocated = (omega arith, tt);
}

abbrev found : Abbrev
found = record { a_hash = 536; a_abbrev = jp; a_phrase = jon_pay; a_cmdhook = none }

abbrev_expand-Put_example :
    (b' : Buffer) × (abbrev_expand true no_command some_tables fundamental a_name
      ≡ run_hook no_command none b')
    × (gap b' ≡ (
      push_all (recased (capitals true (b'J' ∷ b'p' ∷ [])) jon_pay) (drop 2 (left a_name)),
      right a_name,
    ))
unfolding is_ident is_word is_upper is_lower is_digit wordbuf char_downcase either_lookup
    lookup_abbrev chain_lookup hash hash_on define put_chain
abbrev_expand-Put_example =
    abbrev_expand-Put true no_command some_tables fundamental a_name (b'a' ∷ 32 ∷ [])
      (b'J' ∷ b'p' ∷ []) found a_name-IsValid refl refl (refl, (refl, tt)) (omega arith)
      (omega arith) (omega arith) (inr (refl, refl))

-- A capital makes the first letter one, and more of them all words.
one_capital : cased 1 true 0 jon_pay ≡ b'J' ∷ b'o' ∷ b'n' ∷ 32 ∷ b'p' ∷ b'a' ∷ b'y' ∷ []
unfolding phrase_char is_lower is_white char_upcase
one_capital = refl

two_capitals : cased 2 true 0 jon_pay ≡ b'J' ∷ b'o' ∷ b'n' ∷ 32 ∷ b'P' ∷ b'a' ∷ b'y' ∷ []
unfolding phrase_char is_lower is_white char_upcase
two_capitals = refl

some_tables-IsTable : (i : ℕ) → IsTable (some_tables i)
some_tables-IsTable i = go (i == global)
  where
    go : (t : Bool) → IsTable (if t then one_abbrev else no_abbrevs)
    go true = define-IsTable no_abbrevs jp jon_pay (λ j. tt)
    go false = λ j. tt

found_at : (j : ℕ) → AllWritable (one_abbrev j)
unfolding define lookup_abbrev chain_lookup put_chain hash hash_on starts_with
found_at j = elim (Bool-cases (j == 16)) [
  | inl here ↦ rw (here) (
    (
      all_clean-Clean jp refl,
      all_clean-Clean jon_pay refl,
      ((λ e. omega arith), ((λ e. omega arith), tt)),
      refl,
      omega arith,
    ),
    tt,
  )
  | inr there ↦ rw (there) tt
]

some_tables-AllWritable : (i j : ℕ) → AllWritable (some_tables i j)
some_tables-AllWritable i j = go (i == global)
  where
    go : (t : Bool) → AllWritable ((if t then one_abbrev else no_abbrevs) j)
    go true = found_at j
    go false = tt

rest_abbrevs-save_abbrevs_example :
    (T' : Tables) × (rest_abbrevs (save_abbrevs some_tables) (λ i. no_abbrevs) ≡ done T')
    × ((i : ℕ) (w : Text)
        → i ≤ global
        → phrase_of (lookup_abbrev (T' i) w)
          ≡ or_else
              (phrase_of (lookup_abbrev (some_tables i) w))
              (phrase_of (lookup_abbrev no_abbrevs w)))
rest_abbrevs-save_abbrevs_example =
    rest_abbrevs-save_abbrevs some_tables (λ i. no_abbrevs) some_tables-IsTable
      some_tables-AllWritable

-- A line without a colon.
no_colon : rest_abbrevs (b'-' ∷ 10 ∷ []) some_tables ≡ jump (bad_abbrev 1) some_tables
unfolding rest_abbrevs rest_lines f_gets get_bytes entry_of starts_with at_colon
no_colon = refl
