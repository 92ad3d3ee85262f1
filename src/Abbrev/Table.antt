-- ===== src/Abbrev/Table.antt =====
-- The hash tables of abbreviations are maps from words to phrases (abbrev.c).
use jove.Base.{
  ℕ, ◌%◌, ◌≡◌, ◌≢◌, refl, sym, ◌∙◌, ap, arith, List, [], ◌∷◌, true, false, Bool-cases, inl, inr,
  Option, none, some, Option-cases, ◌==◌, ==_iff, ◌↔◌, if◌then◌else◌,
}
use jove.Buffer.{Text}
use jove.Abbrev.{
  Abbrev, hashsize, Table, hash, strcmp_eq, matches, chain_lookup, lookup_abbrev, put_chain,
  rephrase, define,
}

pub strcmp_eq_iff : (a b : Text) → (strcmp_eq a b ≡ true) ↔ (a ≡ b)
unfolding strcmp_eq
strcmp_eq_iff [] [] = ((λ e. refl), (λ e. refl))
strcmp_eq_iff [] (d ∷ b) = ((λ e. cc), (λ e. cc))
strcmp_eq_iff (c ∷ a) [] = ((λ e. cc), (λ e. cc))
strcmp_eq_iff (c ∷ a) (d ∷ b) = ground (arith, strcmp_eq_iff a b)

-- What matches the word `a` with its hash has both.
matches_iff :
    (h : ℕ) (a : Text) (ap : Abbrev)
    → (matches h a ap ≡ true) ↔ ((ap.a_hash ≡ h) × (ap.a_abbrev ≡ a))
matches_iff h a ap = ground (arith, strcmp_eq_iff ap.a_abbrev a)

matches_other :
    (g h : ℕ) (a b : Text) (ap : Abbrev) → a ≢ b → matches h a ap ≡ true → matches g b ap ≡ false
matches_other g h a b ap ne m = elim (Bool-cases (matches g b ap)) [
  | inl both ↦ absurd (ne (sym ((matches_iff h a ap).0 m).1 ∙ ((matches_iff g b ap).0 both).1))
  | inr other ↦ other
]

pub chain_lookup-Found :
    (h : ℕ) (a : Text) (aps : List Abbrev) (ap : Abbrev)
    → chain_lookup h a aps ≡ some ap
    → (ap.a_hash ≡ h) × (ap.a_abbrev ≡ a)
unfolding chain_lookup
chain_lookup-Found h a [] ap e = cc
chain_lookup-Found h a (x ∷ aps) ap e =
    ground (arith, matches_iff h a x, chain_lookup-Found h a aps ap)

chain_lookup-rephrase :
    (h : ℕ) (a phrase : Text) (aps : List Abbrev) (ap : Abbrev)
    → chain_lookup h a aps ≡ some ap
    → chain_lookup h a (rephrase h a phrase aps) ≡ some (record ap { a_phrase = phrase })
unfolding chain_lookup rephrase
chain_lookup-rephrase h a phrase [] ap e = cc
chain_lookup-rephrase h a phrase (x ∷ aps) ap e =
    ground (arith, chain_lookup-rephrase h a phrase aps ap)

chain_lookup-rephrase_other :
    (g h : ℕ) (a b phrase : Text) (aps : List Abbrev)
    → a ≢ b
    → chain_lookup g b (rephrase h a phrase aps) ≡ chain_lookup g b aps
unfolding chain_lookup rephrase
chain_lookup-rephrase_other g h a b phrase [] ne = refl
chain_lookup-rephrase_other g h a b phrase (x ∷ aps) ne = elim (Bool-cases (matches h a x)) [
  | inl mine ↦
      let no = matches_other g h a b x ne mine in rw (rephrase, mine, chain_lookup, no) refl
  | inr other ↦
      rw (rephrase, other, chain_lookup, chain_lookup-rephrase_other g h a b phrase aps ne) refl
]

chain_lookup-new :
    (h : ℕ) (ap : Abbrev) (aps : List Abbrev)
    → ap.a_hash ≡ h
    → chain_lookup h ap.a_abbrev (ap ∷ aps) ≡ some ap
unfolding chain_lookup
chain_lookup-new h ap aps e =
    let mine : matches h ap.a_abbrev ap ≡ true = (matches_iff h ap.a_abbrev ap).1 (e, refl) in
    rw (chain_lookup, mine) refl

chain_lookup-new_other :
    (g : ℕ) (b : Text) (ap : Abbrev) (aps : List Abbrev)
    → ap.a_abbrev ≢ b
    → chain_lookup g b (ap ∷ aps) ≡ chain_lookup g b aps
unfolding chain_lookup
chain_lookup-new_other g b ap aps ne =
    let other =
      matches_other g ap.a_hash ap.a_abbrev b ap ne
        ((matches_iff ap.a_hash ap.a_abbrev ap).1 (refl, refl)) in
    rw (chain_lookup, other) refl

-- An abbreviation as it is found for a word after it was given a phrase.
abbrev pub given : Text → Text → Option Abbrev → Abbrev
given a phrase none = record { a_hash = hash a; a_abbrev = a; a_phrase = phrase; a_cmdhook = none }
given a phrase (some ap) = record ap { a_phrase = phrase }

-- `put_chain` at the chain of a word changes what is found there alone.
lookup-put_chain :
    (table : Table) (i : ℕ) (aps : List Abbrev) (b : Text)
    → ((hash b % hashsize ≡ i) → chain_lookup (hash b) b aps ≡ chain_lookup (hash b) b (table i))
    → lookup_abbrev (put_chain table i aps) b ≡ lookup_abbrev table b
unfolding lookup_abbrev put_chain
lookup-put_chain table i aps b same = elim (Bool-cases (hash b % hashsize == i)) [
  | inl here ↦
      let at : hash b % hashsize ≡ i = (==_iff (hash b % hashsize) i).0 here in
      rw (put_chain, here, at) (same at)
  | inr there ↦ rw (put_chain, there) refl
]

lookup-put_chain_here :
    (table : Table) (aps : List Abbrev) (a : Text)
    → lookup_abbrev (put_chain table (hash a % hashsize) aps) a ≡ chain_lookup (hash a) a aps
unfolding lookup_abbrev put_chain
lookup-put_chain_here table aps a =
    let here : (hash a % hashsize == hash a % hashsize) ≡ true =
      (==_iff (hash a % hashsize) (hash a % hashsize)).1 refl in
    rw (put_chain, here) refl

in_chain :
    (table : Table) (a : Text) (ap : Abbrev)
    → lookup_abbrev table a ≡ some ap
    → chain_lookup (hash a) a (table (hash a % hashsize)) ≡ some ap
unfolding lookup_abbrev
in_chain table a ap e = e

module _ (table : Table) (a phrase : Text) where
  pub define-none :
      lookup_abbrev table a ≡ none
      → define table a phrase
        ≡ put_chain table (hash a % hashsize) (given a phrase none ∷ table (hash a % hashsize))
  unfolding define
  define-none e = rw (define, e) refl

  pub define-some :
      (ap : Abbrev)
      → lookup_abbrev table a ≡ some ap
      → define table a phrase
        ≡ put_chain table
            (hash a % hashsize)
            (rephrase (hash a) a phrase (table (hash a % hashsize)))
  unfolding define
  define-some ap e = rw (define, e) refl

  lookup-define_same :
      lookup_abbrev (define table a phrase) a ≡ some (given a phrase (lookup_abbrev table a))
  lookup-define_same = elim (Option-cases (lookup_abbrev table a)) [
    | inl e ↦
        rw (e, define-none e)
          (lookup-put_chain_here table _ a
            ∙ chain_lookup-new (hash a) (given a phrase none) (table (hash a % hashsize)) refl)
    | inr (ap, e) ↦
        rw (e, define-some ap e)
          (lookup-put_chain_here table _ a
            ∙ chain_lookup-rephrase (hash a) a phrase (table (hash a % hashsize)) ap
                (in_chain table a ap e))
  ]

  lookup-define_other :
      (b : Text) → a ≢ b → lookup_abbrev (define table a phrase) b ≡ lookup_abbrev table b
  lookup-define_other b ne = elim (Option-cases (lookup_abbrev table a)) [
    | inl e ↦ rw (define-none e) (
        lookup-put_chain table (hash a % hashsize) _ b (λ at.
          chain_lookup-new_other (hash b) b (given a phrase none) (table (hash a % hashsize)) ne))
    | inr (ap, e) ↦ rw (define-some ap e) (
        lookup-put_chain table (hash a % hashsize) _ b (λ at.
          chain_lookup-rephrase_other (hash b) (hash a) a b phrase (table (hash a % hashsize)) ne))
  ]

-- `define` gives the word its phrase, and keeps the command that is bound to it, if there is one;
-- what is found for every other word stays.
pub lookup-define :
    (table : Table) (a phrase b : Text)
    → lookup_abbrev (define table a phrase) b ≡ (
        if strcmp_eq a b
        then some (given a phrase (lookup_abbrev table a))
        else lookup_abbrev table b)
lookup-define table a phrase b = elim (Bool-cases (strcmp_eq a b)) [
  | inl same ↦ rw (same, ← (strcmp_eq_iff a b).0 same) (lookup-define_same table a phrase)
  | inr other ↦
      rw (other) (lookup-define_other table a phrase b (λ e. cc ((strcmp_eq_iff a b).1 e)))
]
