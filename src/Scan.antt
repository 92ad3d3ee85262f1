-- ===== src/Scan.antt =====
-- Searching a line for a compiled pattern (re.c): the last part of `REcompile`, and `re_lindex`.
pub mod Firstc
pub mod Leftmost
use jove.Base.{
  ℕ, zero, suc, ◌+◌, ◌-◌, List, [], ◌∷◌, Bool, true, false, not, ◌&&◌, ◌||◌, ◌==◌, Option, none,
  some, if◌then◌else◌, length,
}
use jove.Chars.{char_upcase}
use jove.Search.{
  Line, Code, Result, Groups, re_match, re_reset, success, failure, hang, wild, at, at_crater,
  or_next, eop, normc, cindc, anyc, at_bol, at_eol, at_bow, at_eow, openp, closep,
}

-- The fields of `struct RE_block` that the search reads; `none` is EOF.
pub record ReBlock : Type 0 where
  pub alternates : List Code
  pub firstc : Option ℕ
  pub anchored : Bool

-- The `switch` that ends `REcompile`, with the loop around it: how the code begins.
unfoldable pub first_op : Code → Option ℕ × Bool
unfolding char_upcase
first_op (openp n k) = first_op k
first_op (closep n k) = first_op k
first_op (at_bow k) = first_op k
first_op (at_eow k) = first_op k
first_op (at_bol k) = (none, true)
first_op (normc (c ∷ cs) k) = (some (char_upcase c), false)
first_op (cindc (c ∷ cs) k) = (some (char_upcase c), false)
first_op _ = (none, false)

-- Only a pattern with one alternate is looked at.
unfoldable pub re_block : List Code → ReBlock
unfolding first_op
re_block (k ∷ []) = record {
  alternates = k ∷ [];
  firstc = (first_op k).0;
  anchored = (first_op k).1;
}
re_block alts = record { alternates = alts; firstc = none; anchored = false }

-- `while (*altp != NULL) if (REmatch(p, *altp++)) goto success;`
unfoldable pub match_alternates : Line → List Code → ℕ → Groups → Result
unfolding re_match
match_alternates l [] p g = failure g
match_alternates l (k ∷ ks) p g = or_next (re_match l k p g) (match_alternates l ks p)

-- The test at one position: with a first character only the first alternate is tried, and only
-- where that character stands.
unfoldable pub attempt : Line → ReBlock → ℕ → Groups → Result
unfolding match_alternates char_upcase
attempt l b p g = elim b.firstc [
  | none ↦ match_alternates l b.alternates p g
  | some c ↦ elim (char_upcase (at l p) == c) [
    | true ↦ elim b.alternates [ [] ↦ wild | k ∷ ks ↦ re_match l k p g ]
    | false ↦ failure g
  ]
]

-- What `re_lindex` gives: NO, or YES with `REbom` and `REeom`; or it does not return.
pub data Sought : Type 0 where
  found : ℕ → ℕ → Groups → Sought
  missing never_ends wild_pointer : Sought

abbrev pub or_search : ℕ → Result → (Groups → Sought) → Sought
or_search p (success e g) next = found p e g
or_search p (failure g) next = next g
or_search p hang next = never_ends
or_search p wild next = wild_pointer

-- An anchored pattern without a first character is tried at one position alone.
abbrev pub once : ReBlock → Bool
once b = elim b.firstc [ none ↦ b.anchored | some c ↦ false ]

-- The loops of `re_lindex`, forward to the NUL and backward to `REbolp`, at most `n` rounds.
unfoldable pub scan_forward : Line → ReBlock → ℕ → ℕ → Groups → Sought
scan_forward l b zero p g = never_ends
scan_forward l b (suc n) p g =
    or_search p (attempt l b p g)
      λ g'. elim (once b || at l p == 0) [ true ↦ missing | false ↦ scan_forward l b n (suc p) g' ]

unfoldable pub scan_backward : Line → ReBlock → ℕ → Groups → Sought
scan_backward l b zero g = or_search 0 (attempt l b 0 g) λ g'. missing
scan_backward l b (suc p) g =
    or_search (suc p) (attempt l b (suc p) g)
      λ g'. elim (once b) [ true ↦ missing | false ↦ scan_backward l b p g' ]

pub data Way : Type 0 where
  ahead back : Way

abbrev pub is_some : Option ℕ → Bool
is_some none = false
is_some (some n) = true

-- `re_lindex`; an offset of -1 (`none`) is the end of the line.
unfoldable pub re_lindex : Line → Option ℕ → Way → ReBlock → Sought
unfolding scan_forward scan_backward attempt
re_lindex l offset way b =
    let start : ℕ = elim offset [ none ↦ length l.text | some n ↦ n ] in
    elim way [
      | ahead ↦
          if b.anchored && (not (start == 0) || is_some l.crater)
          then missing
          else scan_forward l b (length l.text - start + 1) start re_reset
      | back ↦ scan_backward l b (if b.anchored then 0 else start) re_reset
    ]
