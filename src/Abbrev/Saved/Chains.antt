-- ===== src/Abbrev/Saved/Chains.antt =====
-- The words of a table of abbreviations, chain by chain (abbrev.c).
use jove.Base.{
  ℕ, zero, suc, ◌+◌, ◌%◌, ◌≤◌, ◌<◌, ◌≡◌, ◌≢◌, refl, sym, ◌∙◌, ap, subst, arith, List, [], ◌∷◌, Bool,
  true, false, Bool-cases, inl, inr, Option, none, some, ◌==◌, ==_iff, if◌then◌else◌,
}
use jove.Buffer.{Text}
use jove.Abbrev.{
  Abbrev, hashsize, Table, hash, strcmp_eq, matches, chain_lookup, lookup_abbrev, define,
}
use jove.Abbrev.Table.{strcmp_eq_iff, lookup-define, given}

-- The word is not in the chain.
abbrev pub Unknown : Text → List Abbrev → Type 0
Unknown w [] = Unit
Unknown w (ap ∷ aps) = (ap.a_abbrev ≢ w) × Unknown w aps

-- The abbreviations of a chain stand in the chain of their hash, and no word stands there twice.
abbrev pub InChain : ℕ → List Abbrev → Type 0
InChain j [] = Unit
InChain j (ap ∷ aps) =
    (ap.a_hash ≡ hash ap.a_abbrev)
    × (hash ap.a_abbrev % hashsize ≡ j)
    × Unknown ap.a_abbrev aps
    × InChain j aps

abbrev pub IsTable : Table → Type 0
IsTable table = (j : ℕ) → InChain j (table j)

abbrev pub phrase_of : Option Abbrev → Option Text
phrase_of none = none
phrase_of (some ap) = some ap.a_phrase

abbrev pub or_else : Option Text → Option Text → Option Text
or_else none q = q
or_else (some p) q = some p

-- The abbreviations are defined one after another.
abbrev pub define_all : List Abbrev → Table → Table
define_all [] table = table
define_all (ap ∷ aps) table = define_all aps (define table ap.a_abbrev ap.a_phrase)

chain_lookup-Unknown :
    (h : ℕ) (w : Text) (aps : List Abbrev) → Unknown w aps → chain_lookup h w aps ≡ none
unfolding chain_lookup
chain_lookup-Unknown h w [] u = refl
chain_lookup-Unknown h w (x ∷ aps) u = elim (Bool-cases (matches h w x)) [
  | inl m ↦ absurd (u.0 ((strcmp_eq_iff x.a_abbrev w).0 (ground (arith, m))))
  | inr other ↦ rw (chain_lookup, other) (chain_lookup-Unknown h w aps u.1)
]

pub chain_lookup-cons :
    (w : Text) (ap : Abbrev) (aps : List Abbrev)
    → ap.a_hash ≡ hash ap.a_abbrev
    → chain_lookup (hash w) w (ap ∷ aps)
      ≡ (if strcmp_eq ap.a_abbrev w then some ap else chain_lookup (hash w) w aps)
unfolding chain_lookup
chain_lookup-cons w x aps e = elim (Bool-cases (strcmp_eq x.a_abbrev w)) [
  | inl same ↦
      let at : (x.a_hash == hash w) ≡ true =
        (==_iff x.a_hash (hash w)).1 (e ∙ ap hash ((strcmp_eq_iff x.a_abbrev w).0 same)) in
      rw (chain_lookup, at, same) refl
  | inr other ↦ go (x.a_hash == hash w) refl other
]
  where
    go :
        (t : Bool)
        → (x.a_hash == hash w) ≡ t
        → strcmp_eq x.a_abbrev w ≡ false
        → chain_lookup (hash w) w (x ∷ aps)
          ≡ (if strcmp_eq x.a_abbrev w then some x else chain_lookup (hash w) w aps)
    go true at other = rw (chain_lookup, at, other) refl
    go false at other = rw (chain_lookup, at, other) refl

-- After a chain was defined again, its words have their phrases, and all others what they had.
pub lookup-define_all :
    (j : ℕ) (aps : List Abbrev) (table : Table) (w : Text)
    → InChain j aps
    → phrase_of (lookup_abbrev (define_all aps table) w)
      ≡ or_else (phrase_of (chain_lookup (hash w) w aps)) (phrase_of (lookup_abbrev table w))
unfolding chain_lookup
lookup-define_all j [] table w v = refl
lookup-define_all j (x ∷ aps) table w (eh, ej, unknown, v) =
    lookup-define_all j aps (define table x.a_abbrev x.a_phrase) w v ∙ go
  where
    given_phrase : (p : Text) (o : Option Abbrev) → (given x.a_abbrev p o).a_phrase ≡ p
    given_phrase p none = refl
    given_phrase p (some ap) = refl

    go :
        or_else
          (phrase_of (chain_lookup (hash w) w aps))
          (phrase_of (lookup_abbrev (define table x.a_abbrev x.a_phrase) w))
        ≡ or_else
            (phrase_of (chain_lookup (hash w) w (x ∷ aps)))
            (phrase_of (lookup_abbrev table w))
    go = elim (Bool-cases (strcmp_eq x.a_abbrev w)) [
      | inl same ↦
          let gone =
            chain_lookup-Unknown (hash w) w aps
              (subst (λ w. Unknown w aps) ((strcmp_eq_iff x.a_abbrev w).0 same) unknown) in
          ap
            (λ o.
              or_else (phrase_of o)
                (phrase_of (lookup_abbrev (define table x.a_abbrev x.a_phrase) w)))
            gone
          ∙ ap phrase_of (lookup-define table x.a_abbrev x.a_phrase w)
          ∙ ap
              (λ t. phrase_of (
                if t
                then some (given x.a_abbrev x.a_phrase (lookup_abbrev table x.a_abbrev))
                else lookup_abbrev table w))
              same
          ∙ ap some (given_phrase x.a_phrase (lookup_abbrev table x.a_abbrev))
          ∙ sym (
              ap (λ o. or_else (phrase_of o) (phrase_of (lookup_abbrev table w)))
                (chain_lookup-cons w x aps eh
                  ∙ ap (λ t. if t then some x else chain_lookup (hash w) w aps) same))
      | inr other ↦
          ap (λ o. or_else (phrase_of (chain_lookup (hash w) w aps)) (phrase_of o))
            (lookup-define table x.a_abbrev x.a_phrase w
              ∙ ap
                  (λ t.
                    if t
                    then some (given x.a_abbrev x.a_phrase (lookup_abbrev table x.a_abbrev))
                    else lookup_abbrev table w)
                  other)
          ∙ sym (
              ap (λ o. or_else (phrase_of o) (phrase_of (lookup_abbrev table w)))
                (chain_lookup-cons w x aps eh
                  ∙ ap (λ t. if t then some x else chain_lookup (hash w) w aps) other))
    ]

Unknown-InChain :
    (j : ℕ) (w : Text) (aps : List Abbrev) → InChain j aps → hash w % hashsize ≢ j → Unknown w aps
Unknown-InChain j w [] v ne = tt
Unknown-InChain j w (x ∷ aps) (eh, ej, u, v) ne =
    ((λ e. ne (ap (λ w. hash w % hashsize) (sym e) ∙ ej)), Unknown-InChain j w aps v ne)

-- All chains of a table from the chain `j` on are defined again.
abbrev pub define_chains : ℕ → ℕ → Table → Table → Table
define_chains zero j from table = table
define_chains (suc n) j from table = define_chains n (suc j) from (define_all (from j) table)

module _ (from : Table) (w : Text) (v : IsTable from) where
  others_stay :
      (j : ℕ) (table : Table)
      → hash w % hashsize ≢ j
      → phrase_of (lookup_abbrev (define_all (from j) table) w) ≡ phrase_of (lookup_abbrev table w)
  others_stay j table ne =
      lookup-define_all j (from j) table w (v j)
      ∙ ap (λ o. or_else (phrase_of o) (phrase_of (lookup_abbrev table w)))
          (chain_lookup-Unknown (hash w) w (from j) (Unknown-InChain j w (from j) (v j) ne))

  lookup-define_chains_behind :
      (n j : ℕ) (table : Table)
      → hash w % hashsize < j
      → phrase_of (lookup_abbrev (define_chains n j from table) w)
        ≡ phrase_of (lookup_abbrev table w)
  lookup-define_chains_behind zero j table lt = refl
  lookup-define_chains_behind (suc n) j table lt =
      lookup-define_chains_behind n (suc j) (define_all (from j) table) (omega arith)
      ∙ others_stay j table (λ e. omega arith)

  own_chain :
      (j : ℕ) (table : Table)
      → hash w % hashsize ≡ j
      → phrase_of (lookup_abbrev (define_all (from j) table) w)
        ≡ or_else (phrase_of (lookup_abbrev from w)) (phrase_of (lookup_abbrev table w))
  unfolding lookup_abbrev
  own_chain j table e =
      lookup-define_all j (from j) table w (v j)
      ∙ ap
          (λ j.
            or_else (phrase_of (chain_lookup (hash w) w (from j)))
              (phrase_of (lookup_abbrev table w)))
          (sym e)

  pub lookup-define_chains :
      (n j : ℕ) (table : Table)
      → j ≤ hash w % hashsize
      → hash w % hashsize < j + n
      → phrase_of (lookup_abbrev (define_chains n j from table) w)
        ≡ or_else (phrase_of (lookup_abbrev from w)) (phrase_of (lookup_abbrev table w))
  lookup-define_chains zero j table le lt = absurd (omega arith)
  lookup-define_chains (suc n) j table le lt = elim (Bool-cases (hash w % hashsize == j)) [
    | inl here ↦
        let e : hash w % hashsize ≡ j = (==_iff (hash w % hashsize) j).0 here in
        lookup-define_chains_behind n (suc j) (define_all (from j) table) (omega (arith, e))
        ∙ own_chain j table e
    | inr there ↦
        let ne : hash w % hashsize ≢ j = λ e. cc ((==_iff (hash w % hashsize) j).1 e) in
        lookup-define_chains n (suc j) (define_all (from j) table) (omega (arith, ne, le))
          (omega (arith, lt))
        ∙ ap (or_else (phrase_of (lookup_abbrev from w))) (others_stay j table ne)
  ]
