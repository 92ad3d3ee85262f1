-- ===== src/Abbrev/Saved/Defined.antt =====
-- Hash tables of abbreviations that are made by `define` (abbrev.c).
use jove.Base.{
  ℕ, ◌%◌, ◌≡◌, ◌≢◌, refl, sym, ◌∙◌, ap, subst, List, [], ◌∷◌, Bool-cases, inl, inr, none, some,
  Option-cases, ◌==◌, ==_iff, if◌then◌else◌,
}
use jove.Buffer.{Text}
use jove.Abbrev.{
  Abbrev, hashsize, Table, hash, strcmp_eq, matches, chain_lookup, lookup_abbrev, put_chain,
  rephrase, define,
}
use jove.Abbrev.Table.{strcmp_eq_iff, define-none, define-some}
use jove.Abbrev.Saved.Chains.{Unknown, InChain, IsTable, chain_lookup-cons}

some_other : {x : Abbrev} → some x ≢ none
some_other e = cc

Unknown-of_none :
    (j : ℕ) (w : Text) (aps : List Abbrev)
    → InChain j aps
    → chain_lookup (hash w) w aps ≡ none
    → Unknown w aps
Unknown-of_none j w [] v e = tt
Unknown-of_none j w (x ∷ aps) (eh, ej, u, v) e = elim (Bool-cases (strcmp_eq x.a_abbrev w)) [
  | inl same ↦ absurd (
      some_other (
        sym (
          chain_lookup-cons w x aps eh
          ∙ ap (λ t. if t then some x else chain_lookup (hash w) w aps) same)
        ∙ e))
  | inr other ↦ (
    (λ h. cc ((strcmp_eq_iff x.a_abbrev w).1 h)),
    Unknown-of_none j w aps v (
        sym (
          chain_lookup-cons w x aps eh
          ∙ ap (λ t. if t then some x else chain_lookup (hash w) w aps) other)
        ∙ e),
  )
]

module _ (h : ℕ) (a phrase : Text) where
  Unknown-rephrase :
      (w : Text) (aps : List Abbrev) → Unknown w aps → Unknown w (rephrase h a phrase aps)
  unfolding rephrase
  Unknown-rephrase w [] u = tt
  Unknown-rephrase w (x ∷ aps) u = elim (Bool-cases (matches h a x)) [
    | inl mine ↦ rw (rephrase, mine) u
    | inr other ↦ rw (rephrase, other) (u.0, Unknown-rephrase w aps u.1)
  ]

  InChain-rephrase :
      (j : ℕ) (aps : List Abbrev) → InChain j aps → InChain j (rephrase h a phrase aps)
  unfolding rephrase
  InChain-rephrase j [] v = tt
  InChain-rephrase j (x ∷ aps) (eh, ej, u, v) = elim (Bool-cases (matches h a x)) [
    | inl mine ↦ rw (rephrase, mine) (eh, ej, u, v)
    | inr other ↦
        rw (rephrase, other) (eh, ej, Unknown-rephrase x.a_abbrev aps u, InChain-rephrase j aps v)
  ]

put_chain-IsTable :
    (table : Table) (i : ℕ) (aps : List Abbrev)
    → IsTable table
    → InChain i aps
    → IsTable (put_chain table i aps)
unfolding put_chain
put_chain-IsTable table i aps v here j = elim (Bool-cases (j == i)) [
  | inl same ↦
      let e : j ≡ i = (==_iff j i).0 same in
      rw (put_chain, same) (subst (λ j. InChain j aps) (sym e) here)
  | inr other ↦ rw (put_chain, other) (v j)
]

-- `define` keeps a hash table one.
pub define-IsTable :
    (table : Table) (a phrase : Text) → IsTable table → IsTable (define table a phrase)
unfolding lookup_abbrev
define-IsTable table a phrase v = elim (Option-cases (lookup_abbrev table a)) [
  | inl e ↦
      let i = hash a % hashsize in
      subst IsTable (sym (define-none table a phrase e))
        (put_chain-IsTable table i _ v (refl, refl, Unknown-of_none i a (table i) (v i) e, v i))
  | inr (x, e) ↦
      let i = hash a % hashsize in
      subst IsTable (sym (define-some table a phrase x e))
        (put_chain-IsTable table i _ v (InChain-rephrase (hash a) a phrase i (table i) (v i)))
]
