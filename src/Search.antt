-- ===== src/Search.antt =====
-- Regular expressions (re.c): compiled patterns, and `REmatch`.
pub mod Spec
pub mod Sound
pub mod Backref
use jove.Base.{
  ℕ, zero, suc, ◌+◌, ◌-◌, ◌*◌, ◌/◌, List, [], ◌∷◌, Bool, true, false, not, ◌&&◌, ◌||◌, ltb, leb,
  ◌==◌, Option, none, some, if◌then◌else◌, length, get_or, get_elem?,
}
use mathlib.Core.Option
use jove.Buffer.{Text}
use jove.Chars.{cind_eq, Major, is_ident}

-- The bit vector of `ONE_OF` and `NONE_OF`, by the list of the characters whose bits are set.
abbrev pub Charset : Type 0
Charset = List ℕ

unfoldable pub in_set : Charset → ℕ → Bool
in_set [] c = false
in_set (x ∷ s) c = x == c || in_set s c

-- What can be starred, other than a back reference.
pub data Atom : Type 0 where
  any : Atom
  char cind : ℕ → Atom
  one_of none_of : Charset → Atom

-- The code in `r_compbuf`, up to its `EOP`. The alternates of `\{ \}` hold code of their own.
mutual
  pub data Code : Type 0 where
    eop : Code
    normc cindc : Text → Code → Code
    anyc at_bol at_eol at_bow at_eow : Code → Code
    one_of none_of : Charset → Code → Code
    openp closep backref : ℕ → Code → Code
    curlyb : Alternates → Code → Code
    star : Atom → Code → Code
    star_backref : ℕ → Code → Code

  pub data Alternates : Type 0 where
    end : Alternates
    alt : Code → Alternates → Alternates

-- The line that is searched: `REbolp` is its position 0. `crater` is the end of the last
-- substitution (`locrater`), `none` for -1.
pub record Line : Type 0 where
  pub text : Text
  pub crater : Option ℕ
  pub mode : Major

-- `*linep`: the NUL stands at the end of the text.
abbrev pub at : Line → ℕ → ℕ
at l p = get_or l.text p 0

abbrev pub at_crater : Line → ℕ → Bool
at_crater l p = elim l.crater [ none ↦ false | some c ↦ p == c ]

-- `pstrtlst` and `pendlst`, NULL being `none`.
pub record Groups : Type 0 where
  pub starts : ℕ → Option ℕ
  pub ends : ℕ → Option ℕ

abbrev pub put : (ℕ → Option ℕ) → ℕ → ℕ → ℕ → Option ℕ
put f n p k = if k == n then some p else f k

-- `REreset`.
abbrev pub re_reset : Groups
re_reset = record { starts = λ n. none; ends = λ n. none }

-- The end of a run: success with `loc2`, failure, a loop that never ends, or a wild pointer. The
-- groups keep what was written to them, also on failure.
pub data Result : Type 0 where
  success : ℕ → Groups → Result
  failure : Groups → Result
  hang wild : Result

-- `loc2`, passed on to what follows a `\{ \}`; `any` alternate has matched.
abbrev pub and_then : Result → (ℕ → Groups → Result) → Result
and_then (success e g) next = next e g
and_then (failure g) next = failure g
and_then hang next = hang
and_then wild next = wild

abbrev pub or_next : Result → (Groups → Result) → Result
or_next (success e g) next = success e g
or_next (failure g) next = next g
or_next hang next = hang
or_next wild next = wild

-- `member`.
unfoldable pub member : Charset → ℕ → Bool → Bool
unfolding in_set
member s c af = not (c == 0) && (if in_set s c then af else not af)

unfoldable pub accepts : Atom → ℕ → Bool
unfolding member cind_eq
accepts any c = not (c == 0)
accepts (char x) c = x == c
accepts (cind x) c = cind_eq x c
accepts (one_of s) c = member s c true
accepts (none_of s) c = member s c false

-- The comparisons under `NORMC` and `CINDC`.
unfoldable pub literal : (ℕ → ℕ → Bool) → Line → Text → ℕ → Bool
literal eq l [] p = true
literal eq l (c ∷ cs) p =
    let rest = literal eq l cs (suc p) in if eq (at l p) c then rest else false

-- The loop that a starred element begins with: how many characters it takes, from the `n` that
-- are left in the line. (At the end it meets the NUL, which no element accepts.)
unfoldable pub run : Line → Atom → ℕ → ℕ → ℕ
run l a zero p = 0
run l a (suc n) p = let rest = run l a n (suc p) in if accepts a (at l p) then suc rest else 0

-- `*comp_ptr != NORMC || *linep == comp_ptr[2]`
unfoldable pub quick : Line → Code → ℕ → Bool
quick l (normc (c ∷ cs) k) p = at l p == c
quick l eop p = true
quick l _ p = true

-- The loop at `star`, with `next` for `REmatch` on the code that follows, and its last `continue`.
unfoldable pub try_star : (ℕ → Bool) → (ℕ → Groups → Result) → ℕ → ℕ → Groups → Result
try_star ok next zero first g = next first g
try_star ok next (suc n) first g = elim (ok (first + suc n)) [
  | false ↦ try_star ok next n first g
  | true ↦ or_next (next (first + suc n) g) (try_star ok next n first)
]

-- `backref`, for a group from `bs` to `be`: the first comparison is made even if the group is
-- empty, and `n` more follow.
unfoldable pub same_text : Line → ℕ → ℕ → ℕ → Bool
same_text l zero bs p = at l bs == at l p
same_text l (suc n) bs p =
    let rest = same_text l n (suc bs) (suc p) in if at l bs == at l p then rest else false

unfoldable pub backref_at : Line → ℕ → ℕ → ℕ → Bool
unfolding same_text
backref_at l bs be p = same_text l (be - bs - 1) bs p

-- `while (backref(n, linep)) linep += pendlst[n] - pstrtlst[n];`: its rounds, at most `fuel`;
-- `none` if it goes on after that.
unfoldable pub repeats : Line → ℕ → ℕ → ℕ → ℕ → Option ℕ
unfolding backref_at
repeats l bs be zero p = none
repeats l bs be (suc fuel) p =
    let rest = repeats l bs be fuel (p + be - bs) in
    if backref_at l bs be p then Option.map suc rest else some 0

-- The second loop under `BACKREF | STAR`: `n` repeats of a group of `len` characters.
unfoldable pub try_repeats : (ℕ → Groups → Result) → ℕ → ℕ → ℕ → Groups → Result
try_repeats next len zero first g = next first g
try_repeats next len (suc n) first g =
    or_next (next (first + suc n * len) g) (try_repeats next len n first)

-- `BACKREF`, with `next` for the rest of the code. For a group that has not ended `backref` looks
-- at one byte, and where that is the same a wild pointer is made from the missing end.
unfoldable pub match_backref : Line → ℕ → (ℕ → Groups → Result) → ℕ → Groups → Result
unfolding backref_at
match_backref l n next p g = elim (g.starts n) [
  | none ↦ failure g
  | some bs ↦ elim (g.ends n) [
    | none ↦ if at l bs == at l p then wild else failure g
    | some be ↦ if backref_at l bs be p then next (p + be - bs) g else failure g
  ]
]

-- `BACKREF | STAR`. A round that takes no character is made for ever, so a line's length of rounds
-- tells whether the loop ends.
unfoldable pub match_repeats : Line → ℕ → (ℕ → Groups → Result) → ℕ → Groups → Result
unfolding repeats try_repeats
match_repeats l n next p g = elim (g.starts n) [
  | none ↦ wild
  | some bs ↦ elim (g.ends n) [
    | none ↦ if at l bs == at l p then wild else next p g
    | some be ↦ elim (repeats l bs be (length l.text + 1) p) [
      | none ↦ hang
      | some k ↦ try_repeats next (be - bs) k p g
    ]
  ]
]

abbrev pub when : Bool → Result → Result → Result
when b yes_case no_case = elim b [ true ↦ yes_case | false ↦ no_case ]

-- `REmatch`.
unfoldable mutual
  unfolding literal accepts run quick try_star match_backref match_repeats member

  pub re_match : Line → Code → ℕ → Groups → Result
  re_match l eop p g = success p g
  re_match l (normc cs k) p g =
      when (literal (λ a b. a == b) l cs p) (re_match l k (p + length cs) g) (failure g)
  re_match l (cindc cs k) p g =
      when (literal cind_eq l cs p) (re_match l k (p + length cs) g) (failure g)
  re_match l (anyc k) p g = when (not (at l p == 0)) (re_match l k (suc p) g) (failure g)
  re_match l (at_bol k) p g = when (p == 0 && not (at_crater l p)) (re_match l k p g) (failure g)
  re_match l (at_eol k) p g = when (at l p == 0) (re_match l k p g) (failure g)
  re_match l (at_bow k) p g =
      when
        (not (at_crater l p)
          && is_ident l.mode (at l p)
          && (p == 0 || not (is_ident l.mode (at l (p - 1)))))
        (re_match l k p g) (failure g)
  re_match l (at_eow k) p g =
      when
        (not (at_crater l p)
          && (at l p == 0 || not (is_ident l.mode (at l p)))
          && (not (p == 0) && is_ident l.mode (at l (p - 1))))
        (re_match l k p g) (failure g)
  re_match l (one_of s k) p g = when (member s (at l p) true) (re_match l k (suc p) g) (failure g)
  re_match l (none_of s k) p g = when (member s (at l p) false) (re_match l k (suc p) g) (failure g)
  re_match l (openp n k) p g = re_match l k p (record g { starts = put g.starts n p })
  re_match l (closep n k) p g = re_match l k p (record g { ends = put g.ends n p })
  re_match l (backref n k) p g = match_backref l n (re_match l k) p g
  re_match l (curlyb alts k) p g = and_then (match_any l alts p g) (re_match l k)
  re_match l (star a k) p g =
      try_star (quick l k) (re_match l k) (run l a (length l.text - p) p) p g
  re_match l (star_backref n k) p g = match_repeats l n (re_match l k) p g

  -- The loop under `CURLYB`: the first alternate that matches.
  pub match_any : Line → Alternates → ℕ → Groups → Result
  match_any l end p g = failure g
  match_any l (alt c alts) p g = or_next (re_match l c p g) (match_any l alts p)
