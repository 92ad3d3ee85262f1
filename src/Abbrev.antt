-- ===== src/Abbrev.antt =====
-- Abbreviations (abbrev.c): the hash tables, and the expansion of the word before point.
pub mod Table
pub mod Word
pub mod Recased
pub mod Expanded
pub mod Saved
use jove.Base.{
  ℕ, zero, suc, ◌+◌, ◌-◌, ◌*◌, ◌%◌, ◌^◌, List, [], ◌∷◌, Bool, true, false, ◌&&◌, ◌||◌, Option, none,
  some, ltb, leb, ◌==◌, if◌then◌else◌, length, take, drop, get_or,
}
use jove.Base.Int.{pos}
use jove.Buffer.{Buffer, Text}
use jove.Outcome.{Outcome, ◌>>=◌, done}
use jove.Chars.{
  is_upper, is_lower, is_white, is_ident, char_upcase, char_downcase, Major, fundamental, text_mode,
  c_mode,
}
use jove.Insert.{insert_c}
use jove.Delete.{del_char, backward}

-- `struct abbrev`; the chain by `a_next` is a list, and a command is a number.
pub record Abbrev : Type 0 where
  pub a_hash : ℕ
  pub a_abbrev : Text
  pub a_phrase : Text
  pub a_cmdhook : Option ℕ

abbrev pub hashsize : ℕ
hashsize = 20

-- An array of HASHSIZE chains, and `A_tables`.
abbrev pub Table : Type 0
Table = ℕ → List Abbrev

abbrev pub Tables : Type 0
Tables = ℕ → Table

-- The tables of the major modes, and GLOBAL.
abbrev pub table_of : Major → ℕ
table_of fundamental = 0
table_of text_mode = 1
table_of c_mode = 2

abbrev pub global : ℕ
global = 3

-- A `char` has a sign.
abbrev pub promoted : ℕ → ℕ
promoted c = if ltb c 128 then c else c + (2 ^ 32 - 256)

unfoldable pub hash_on : ℕ → Text → ℕ
hash_on h [] = h
hash_on h (c ∷ cs) = hash_on ((h * 4 + promoted c) % 2 ^ 32) cs

unfoldable pub hash : Text → ℕ
unfolding hash_on
hash a = hash_on 0 a

-- `strcmp(a, b) == 0`.
unfoldable pub strcmp_eq : Text → Text → Bool
strcmp_eq [] [] = true
strcmp_eq [] (d ∷ b) = false
strcmp_eq (c ∷ a) [] = false
strcmp_eq (c ∷ a) (d ∷ b) = let rest = strcmp_eq a b in (c == d) && rest

abbrev pub matches : ℕ → Text → Abbrev → Bool
matches h abbrev' ap = (ap.a_hash == h) && strcmp_eq ap.a_abbrev abbrev'

unfoldable pub chain_lookup : ℕ → Text → List Abbrev → Option Abbrev
unfolding strcmp_eq
chain_lookup h a [] = none
chain_lookup h a (ap ∷ aps) =
    let rest = chain_lookup h a aps in if matches h a ap then some ap else rest

unfoldable pub lookup_abbrev : Table → Text → Option Abbrev
unfolding chain_lookup hash
lookup_abbrev table a = chain_lookup (hash a) a (table (hash a % hashsize))

unfoldable pub put_chain : Table → ℕ → List Abbrev → Table
put_chain table i aps j = if j == i then aps else table j

-- `ap->a_phrase = copystr(phrase)` for the cell that was found.
unfoldable pub rephrase : ℕ → Text → Text → List Abbrev → List Abbrev
unfolding strcmp_eq
rephrase h a phrase [] = []
rephrase h a phrase (ap ∷ aps) =
    let rest = rephrase h a phrase aps in
    if matches h a ap then record ap { a_phrase = phrase } ∷ aps else ap ∷ rest

-- `define`.
unfoldable pub define : Table → Text → Text → Table
unfolding lookup_abbrev put_chain rephrase hash
define table a phrase =
    let h = hash a in
    let i = h % hashsize in
    elim (lookup_abbrev table a) [
      | none ↦
          put_chain table i
            (record { a_hash = h; a_abbrev = a; a_phrase = phrase; a_cmdhook = none } ∷ table i)
      | some ap ↦ put_chain table i (rephrase h a phrase (table i))
    ]

-- The first loop of `AbbrevExpand`, from `col`.
unfoldable pub word_col : Major → Text → ℕ → ℕ
unfolding is_ident
word_col m t zero = 0
word_col m t (suc n) =
    let rest = word_col m t n in if is_ident m (get_or t n 0) then rest else suc n

-- The second loop: `wordbuf` and `UC_count`; `auto` is AutoCaseAbbrev.
unfoldable pub wordbuf : Bool → Text → Text
unfolding is_upper char_downcase
wordbuf auto [] = []
wordbuf auto (c ∷ cs) = (if auto && is_upper c then char_downcase c else c) ∷ wordbuf auto cs

unfoldable pub upper_count : Bool → Text → ℕ
unfolding is_upper
upper_count auto [] = 0
upper_count auto (c ∷ cs) = upper_count auto cs + (if auto && is_upper c then 1 else 0)

-- A character of the phrase, with whether it is the first one, and else `cp[-1]`.
unfoldable pub phrase_char : ℕ → Bool → ℕ → ℕ → ℕ
unfolding is_lower is_white char_upcase
phrase_char count first prev c =
    if ltb 0 count && (is_lower c && (first || (ltb 1 count && (is_white prev || prev == b'-'))))
    then char_upcase c
    else c

-- The loop that inserts the phrase.
unfoldable pub insert_phrase : ℕ → Bool → ℕ → Text → Buffer → Outcome Buffer
unfolding phrase_char insert_c
insert_phrase count first prev [] b = done b
insert_phrase count first prev (c ∷ cs) b =
    insert_c (phrase_char count first prev c) (pos 1) b >>= insert_phrase count false c cs

-- The two lookups, where the second one is made if the first finds nothing.
unfoldable pub either_lookup : Tables → ℕ → Text → Option Abbrev
unfolding lookup_abbrev
either_lookup tables i a = elim (lookup_abbrev (tables i) a) [
  | none ↦ lookup_abbrev (tables global) a
  | some ap ↦ some ap
]

-- `ExecCmd`, which is a parameter.
abbrev pub run_hook : (ℕ → Buffer → Outcome Buffer) → Option ℕ → Buffer → Outcome Buffer
run_hook exec none b = done b
run_hook exec (some k) b = exec k b

-- What `AbbrevExpand` does with what it finds for the word.
unfoldable pub expand_word :
    Bool → (ℕ → Buffer → Outcome Buffer) → Option Abbrev → Text → Buffer → Outcome Buffer
unfolding wordbuf upper_count insert_phrase del_char
expand_word auto exec none word b = done b
expand_word auto exec (some ap) word b = do
  shorter ← del_char backward (pos (length (wordbuf auto word))) b
  longer ← insert_phrase (upper_count auto word) true 0 ap.a_phrase shorter
  run_hook exec ap.a_cmdhook longer

-- `AbbrevExpand`, in a buffer of the major mode `m`.
unfoldable pub abbrev_expand :
    Bool → (ℕ → Buffer → Outcome Buffer) → Tables → Major → Buffer → Outcome Buffer
unfolding word_col wordbuf either_lookup expand_word
abbrev_expand auto exec tables m b =
    let col = word_col m b.here.text b.curchar in
    let word = take (b.curchar - col) (drop col b.here.text) in
    if leb 100 (b.curchar - col)
    then done b
    else expand_word auto exec (either_lookup tables (table_of m) (wordbuf auto word)) word b
