-- ===== src/Abbrev/Saved/Restored.antt =====
-- A file of abbreviations that is read back (abbrev.c).
use jove.Base.{
  ℕ, zero, suc, ◌+◌, ◌-◌, ◌≤◌, ◌<◌, ◌≡◌, ◌≢◌, refl, sym, ◌∙◌, ap, subst, arith, List, [], ◌∷◌, ◌++◌,
  Bool, true, false, not, ◌&&◌, Bool-cases, inl, inr, ltb, ◌==◌, ==_iff, length, length-append,
}
use jove.Buffer.{Text, newline}
use jove.Outcome.{done}
use jove.Insert.{lbsize}
use jove.Abbrev.{Abbrev, hashsize, Table, Tables, global, lookup_abbrev, define}
use jove.Abbrev.Saved.{
  get_bytes, f_gets, sep, section_name, line_then, save_chain, save_chains, save_tables,
  save_abbrevs, put_table, rest_lines, rest_abbrevs,
}
use jove.Abbrev.Saved.Chains.{
  IsTable, phrase_of, or_else, define_all, define_chains, lookup-define_chains,
}
use jove.Abbrev.Saved.Lines.{Clean, AllWritable, step_entry, step_section}

put_table-here : (T : Tables) (i : ℕ) (t : Table) → put_table T i t i ≡ t
put_table-here T i t = let here : (i == i) ≡ true = (==_iff i i).1 refl in rw (here) refl

put_table-other : (T : Tables) (i : ℕ) (t : Table) (k : ℕ) → k ≢ i → put_table T i t k ≡ T k
put_table-other T i t k ne = let other : (k == i) ≡ false = ground arith in rw (other) refl

-- The tables after a read: one has changed to `t`, and the others stay.
abbrev pub Only : ℕ → Table → Tables → Tables → Type 0
Only i t T T' = (T' i ≡ t) × ((k : ℕ) → k ≢ i → T' k ≡ T k)

chain_restored :
    (aps : List Abbrev) (n i lnum : ℕ) (s : Text) (T : Tables)
    → i ≤ global
    → AllWritable aps
    → (T' : Tables) × (lnum' : ℕ) × (rest_lines (length aps + n) (suc i) lnum (save_chain aps s) T
        ≡ rest_lines n (suc i) lnum' s T')
      × Only i (define_all aps (T i)) T T'
unfolding save_chain
chain_restored [] n i lnum s T le v =
    (T, lnum, ap (λ n. rest_lines n (suc i) lnum s T) (omega arith), (refl, λ k ne. refl))
chain_restored (x ∷ aps) n i lnum s T le v =
    let t = define (T i) x.a_abbrev x.a_phrase in
    let (T', lnum', e, (here, others)) =
      chain_restored aps n i (lnum + 1) s (put_table T i t) le v.1 in
    let count : suc (length aps) + n ≡ suc (length aps + n) = omega arith in
    (
      T',
      lnum',
      ap (λ n. rest_lines n (suc i) lnum (save_chain (x ∷ aps) s) T) count
          ∙ step_entry (length aps + n) lnum (save_chain aps s) T i x le v.0
          ∙ e,
      (
        here ∙ ap (define_all aps) (put_table-here T i t),
        λ k ne. others k ne ∙ put_table-other T i t k ne,
      ),
    )

Only-trans :
    (i : ℕ) (t t' : Table) (T T' T'' : Tables) → Only i t T T' → Only i t' T' T'' → Only i t' T T''
Only-trans i t t' T T' T'' a b = (b.0, λ k ne. b.1 k ne ∙ a.1 k ne)

-- The abbreviations of some chains.
abbrev count_chains : ℕ → ℕ → Table → ℕ
count_chains zero j from = 0
count_chains (suc m) j from = length (from j) + count_chains m (suc j) from

chains_restored :
    (from : Table) (m j n i lnum : ℕ) (s : Text) (T : Tables)
    → i ≤ global
    → ((j : ℕ) → AllWritable (from j))
    → (T' : Tables) × (lnum' : ℕ) × (rest_lines
          (count_chains m j from + n)
          (suc i)
          lnum
          (save_chains m j from s)
          T
        ≡ rest_lines n (suc i) lnum' s T')
      × Only i (define_chains m j from (T i)) T T'
unfolding save_chains
chains_restored from zero j n i lnum s T le v =
    (T, lnum, ap (λ n. rest_lines n (suc i) lnum s T) (omega arith), (refl, λ k ne. refl))
chains_restored from (suc m) j n i lnum s T le v =
    let left = count_chains m (suc j) from + n in
    let rest = save_chains m (suc j) from s in
    let (T1, lnum1, e1, only1) = chain_restored (from j) left i lnum rest T le (v j) in
    let (T2, lnum2, e2, only2) = chains_restored from m (suc j) n i lnum1 s T1 le v in
    (
      T2,
      lnum2,
      ap (λ n. rest_lines n (suc i) lnum (save_chain (from j) rest) T) (omega arith) ∙ e1 ∙ e2,
      subst (λ t. Only i t T T2) (ap (define_chains m (suc j) from) only1.0)
          (Only-trans i (define_all (from j) (T i)) (define_chains m (suc j) from (T1 i)) T T1 T2
            only1 only2),
    )

-- The line of a section can be read.
abbrev pub all_clean : Text → Bool
all_clean [] = true
all_clean (c ∷ cs) = (not (c == newline) && not (c == 0)) && all_clean cs

pub all_clean-Clean : (t : Text) → all_clean t ≡ true → Clean t
all_clean-Clean [] e = tt
all_clean-Clean (c ∷ t) e = ground (arith, all_clean-Clean t)

Clean-section_name : (i : ℕ) → Clean (sep ++ section_name i)
Clean-section_name zero = all_clean-Clean (sep ++ section_name 0) refl
Clean-section_name (suc zero) = all_clean-Clean (sep ++ section_name 1) refl
Clean-section_name (suc (suc zero)) = all_clean-Clean (sep ++ section_name 2) refl
Clean-section_name (suc (suc (suc i))) = all_clean-Clean (sep ++ section_name 3) refl

length-section_name : (i : ℕ) → length (sep ++ section_name i) < lbsize
length-section_name zero = omega arith
length-section_name (suc zero) = omega arith
length-section_name (suc (suc zero)) = omega arith
length-section_name (suc (suc (suc i))) = omega arith

module _ (tables : Tables) (v : (i j : ℕ) → AllWritable (tables i j)) where
  abbrev count_tables : ℕ → ℕ → ℕ
  count_tables zero i = 0
  count_tables (suc m) i = suc (count_chains hashsize 0 (tables i) + count_tables m (suc i))

  -- The end of the file.
  at_end : (n seen lnum : ℕ) (T : Tables) → rest_lines n seen lnum [] T ≡ done T
  unfolding rest_lines f_gets get_bytes
  at_end zero seen lnum T = refl
  at_end (suc n) seen lnum T = elim (Bool-cases (ltb (global + 1) seen)) [
    | inl over ↦ rw (rest_lines, over) refl
    | inr more ↦ rw (rest_lines, more) refl
  ]

  tables_restored :
      (m i n lnum : ℕ) (T : Tables)
      → i + m ≡ global + 1
      → (T' : Tables) × (rest_lines (count_tables m i + n) i lnum (save_tables m i tables) T
          ≡ done T')
        × (((k : ℕ) → k < i → T' k ≡ T k)
            × ((k : ℕ) → i ≤ k → k < i + m → T' k ≡ define_chains hashsize 0 (tables k) (T k)))
  unfolding save_tables
  tables_restored zero i n lnum T e =
      (T, at_end (0 + n) i lnum T, ((λ k lt. refl), λ k le lt. absurd (omega arith)))
  tables_restored (suc m) i n lnum T e =
      let left = count_tables m (suc i) + n in
      let all = count_chains hashsize 0 (tables i) + left in
      let s = save_tables m (suc i) tables in
      let rest = save_chains hashsize 0 (tables i) s in
      let le : i ≤ global = omega (arith, e) in
      let (T1, lnum1, e1, (here1, others1)) =
        chains_restored (tables i) hashsize 0 left i (lnum + 1) s T le (v i) in
      let (T2, e2, (kept, given)) = tables_restored m (suc i) n lnum1 T1 (omega (arith, e)) in
      let more : (count_tables (suc m) i) + n ≡ suc all = omega arith in
      let next : i + 1 ≡ suc i = omega arith in
      (
        T2,
        ap (λ n. rest_lines n i lnum (line_then (sep ++ section_name i) rest) T) more
            ∙ step_section all lnum rest T i (section_name i) (omega (arith, e))
                (Clean-section_name i) (length-section_name i)
            ∙ ap (λ seen. rest_lines all seen (lnum + 1) rest T) next
            ∙ e1
            ∙ e2,
        (
          (λ k lt. kept k (omega (arith, lt)) ∙ others1 k (λ h. omega (arith, h, lt))),
          λ k le lt. elim (Bool-cases (k == i)) [
            | inl same ↦
                let h : k ≡ i = (==_iff k i).0 same in
                subst (λ k. T2 k ≡ define_chains hashsize 0 (tables k) (T k)) (sym h)
                  (kept i (omega arith) ∙ here1)
            | inr other ↦
                let h : k ≢ i = λ h. cc ((==_iff k i).1 h) in
                given k (omega (arith, h, le)) (omega (arith, lt))
                ∙ ap (define_chains hashsize 0 (tables k)) (others1 k h)
          ],
        ),
      )

-- A round for each line is granted.
length-save_chain :
    (aps : List Abbrev) (s : Text) → length aps + length s ≤ length (save_chain aps s)
unfolding save_chain
length-save_chain [] s = omega arith
length-save_chain (x ∷ aps) s = omega (
  arith,
  length-append (x.a_abbrev ++ b':' ∷ x.a_phrase) (newline ∷ save_chain aps s),
  length-save_chain aps s,
)

length-save_chains :
    (from : Table) (m j : ℕ) (s : Text)
    → count_chains m j from + length s ≤ length (save_chains m j from s)
unfolding save_chains
length-save_chains from zero j s = omega arith
length-save_chains from (suc m) j s = omega (
  arith,
  length-save_chain (from j) (save_chains m (suc j) from s),
  length-save_chains from m (suc j) s,
)

length-save_tables :
    (tables : Tables) (v : (i j : ℕ) → AllWritable (tables i j)) (m i : ℕ)
    → count_tables tables v m i ≤ length (save_tables m i tables)
unfolding save_tables
length-save_tables tables v zero i = omega arith
length-save_tables tables v (suc m) i =
    let s = save_tables m (suc i) tables in
    let rest = save_chains hashsize 0 (tables i) s in
    omega (
      arith,
      length-append (sep ++ section_name i) (newline ∷ rest),
      length-save_chains (tables i) hashsize 0 s,
      length-save_tables tables v m (suc i),
    )

-- What `save_abbrevs` writes, `rest_abbrevs` reads to the end without a complaint, and then every
-- word that was saved has its phrase again in the table where it was, and every other word has the
-- phrase that it had before in the tables that were read into. The tables are hash tables, and each
-- word and phrase can be written: they have no newline, the word has no colon and does not begin
-- with the separator of the file, and their line is shorter than LBSIZE.
pub rest_abbrevs-save_abbrevs :
    (tables T : Tables)
    → ((i : ℕ) → IsTable (tables i))
    → ((i j : ℕ) → AllWritable (tables i j))
    → (T' : Tables) × (rest_abbrevs (save_abbrevs tables) T ≡ done T')
      × ((i : ℕ) (w : Text)
          → i ≤ global
          → phrase_of (lookup_abbrev (T' i) w)
            ≡ or_else (phrase_of (lookup_abbrev (tables i) w)) (phrase_of (lookup_abbrev (T i) w)))
unfolding rest_abbrevs save_abbrevs
rest_abbrevs-save_abbrevs tables T u v =
    let count = count_tables tables v (global + 1) 0 in
    let file = save_tables (global + 1) 0 tables in
    let enough : count ≤ length file = length-save_tables tables v (global + 1) 0 in
    let (T', e, (_, given)) =
      tables_restored tables v (global + 1) 0 (length file + 1 - count) 0 T refl in
    let rounds : length file + 1 ≡ count + (length file + 1 - count) = omega (arith, enough) in
    (
      T',
      ap (λ n. rest_lines n 0 0 file T) rounds ∙ e,
      λ i w le.
          ap (λ t. phrase_of (lookup_abbrev t w)) (given i (omega arith) (omega (arith, le)))
          ∙ lookup-define_chains (tables i) w (u i) hashsize 0 (T i) (omega arith) (omega arith),
    )
