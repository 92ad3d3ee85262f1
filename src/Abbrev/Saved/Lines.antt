-- ===== src/Abbrev/Saved/Lines.antt =====
-- The lines of a file of abbreviations, as `rest_abbrevs` reads them (abbrev.c).
use jove.Base.{
  ℕ, suc, ◌+◌, ◌-◌, ◌≤◌, ◌<◌, ◌≡◌, ◌≢◌, refl, sym, ◌∙◌, ap, subst, arith, List, [], ◌∷◌, ◌++◌, true,
  false, some, ltb, ◌==◌, length, length-append,
}
use jove.Buffer.{Text, newline}
use jove.Outcome.{Outcome, jump, bad_abbrev}
use jove.Insert.{lbsize}
use jove.Abbrev.{Abbrev, Tables, global, define}
use jove.Abbrev.Saved.{
  gets, get_bytes, f_gets, sep, line_then, starts_with, at_colon, put_table, Entry, section,
  malformed, entry, entry_of, rest_lines,
}

-- A string without newline and NUL.
abbrev pub Clean : Text → Type 0
Clean [] = Unit
Clean (c ∷ cs) = (c ≢ newline) × (c ≢ 0) × Clean cs

abbrev pub NoColon : Text → Type 0
NoColon [] = Unit
NoColon (c ∷ cs) = (c ≢ b':') × NoColon cs

-- An abbreviation whose line can be read: the word has no colon and does not begin like the line
-- of a section, there is no newline, and the line fits.
abbrev pub Writable : Abbrev → Type 0
Writable ap =
    Clean ap.a_abbrev
    × Clean ap.a_phrase
    × NoColon ap.a_abbrev
    × (starts_with sep ap.a_abbrev ≡ false)
    × (length ap.a_abbrev + length ap.a_phrase + 1 < lbsize)

abbrev pub AllWritable : List Abbrev → Type 0
AllWritable [] = Unit
AllWritable (ap ∷ aps) = Writable ap × AllWritable aps

Clean-append : (s t : Text) → Clean s → Clean t → Clean (s ++ t)
Clean-append [] t a b = b
Clean-append (c ∷ s) t a b = (a.0, a.1, Clean-append s t a.2 b)

get_bytes-line :
    (line s : Text) (room : ℕ)
    → Clean line
    → length line ≤ room
    → get_bytes room (line_then line s) ≡ gets line s
unfolding get_bytes
get_bytes-line [] s room v h = refl
get_bytes-line (c ∷ line) s room (ne, nz, v) h =
    let plain : (c == newline) ≡ false = ground arith in
    let stored : (c == 0) ≡ false = ground arith in
    let more : (room == 0) ≡ false = ground arith in
    rw (get_bytes, plain, stored, more, get_bytes-line line s (room - 1) v (omega arith)) refl

f_gets-line :
    (line s : Text)
    → Clean line
    → length line < lbsize
    → f_gets lbsize (line_then line s) ≡ gets line s
unfolding f_gets
f_gets-line line s v h = get_bytes-line line s (lbsize - 1) v (omega arith)

at_colon-append : (a p : Text) → NoColon a → at_colon (a ++ b':' ∷ p) ≡ some (a, p)
unfolding at_colon
at_colon-append [] p v = refl
at_colon-append (c ∷ a) p (ne, v) =
    let other : (c == b':') ≡ false = ground arith in
    rw (at_colon, other, at_colon-append a p v) refl

starts_with-colon :
    (q a p : Text) → NoColon q → starts_with q a ≡ false → starts_with q (a ++ b':' ∷ p) ≡ false
unfolding starts_with
starts_with-colon [] a p v e = cc
starts_with-colon (c ∷ q) [] p (ne, v) e = ground arith
starts_with-colon (c ∷ q) (d ∷ a) p (ne, v) e = ground (arith, starts_with-colon q a p v)

starts_with-append : (q t : Text) → starts_with q (q ++ t) ≡ true
unfolding starts_with
starts_with-append [] t = refl
starts_with-append (c ∷ q) t = ground (arith, starts_with-append q t)

nonempty : (a p : Text) → (c : ℕ) × (cs : Text) × (a ++ b':' ∷ p ≡ c ∷ cs)
nonempty [] p = (b':', p, refl)
nonempty (c ∷ a) p = (c, a ++ b':' ∷ p, refl)

-- What a round of `rest_abbrevs` does with a line.
abbrev on_entry : ℕ → ℕ → ℕ → Text → Tables → Entry → Outcome Tables
on_entry n seen lnum rest T section = rest_lines n (seen + 1) (lnum + 1) rest T
on_entry n seen lnum rest T malformed = jump (bad_abbrev (lnum + 1)) T
on_entry n seen lnum rest T (entry a p) =
    rest_lines n seen (lnum + 1) rest (put_table T (seen - 1) (define (T (seen - 1)) a p))

rest_lines-suc :
    (n seen lnum : ℕ) (c : ℕ) (cs s : Text) (T : Tables)
    → seen ≤ global + 1
    → f_gets lbsize (line_then (c ∷ cs) s) ≡ gets (c ∷ cs) s
    → rest_lines (suc n) seen lnum (line_then (c ∷ cs) s) T
      ≡ on_entry n seen lnum s T (entry_of seen (c ∷ cs))
unfolding rest_lines
rest_lines-suc n seen lnum c cs s T le e = go (entry_of seen (c ∷ cs)) refl
  where
    more : ltb (global + 1) seen ≡ false
    more = ground arith

    go :
        (x : Entry)
        → entry_of seen (c ∷ cs) ≡ x
        → rest_lines (suc n) seen lnum (line_then (c ∷ cs) s) T ≡ on_entry n seen lnum s T x
    go section ex = rw (rest_lines, more, e, ex) refl
    go malformed ex = rw (rest_lines, more, e, ex) refl
    go (entry a p) ex = rw (rest_lines, more, e, ex) refl

dash : {c : ℕ} → c ≡ b'-' → c ≢ b':'
dash e h = omega arith

module _ (n lnum : ℕ) (s : Text) (T : Tables) where
  entry_of-entry :
      (i : ℕ) (ap' : Abbrev)
      → Writable ap'
      → entry_of (suc i) (ap'.a_abbrev ++ b':' ∷ ap'.a_phrase) ≡ entry ap'.a_abbrev ap'.a_phrase
  unfolding entry_of
  entry_of-entry i ap' (_, _, colon, other, _) =
      let no_section = starts_with-colon sep ap'.a_abbrev ap'.a_phrase (dashes) other in
      let seen : (suc i == 0) ≡ false = ground arith in
      rw (entry_of, no_section, seen, at_colon-append ap'.a_abbrev ap'.a_phrase colon) refl
    where
      dashes : NoColon sep
      dashes = (dash refl, (dash refl, (dash refl, (dash refl, (dash refl, (dash refl, tt))))))

  entry_of-section : (seen : ℕ) (x : Text) → entry_of seen (sep ++ x) ≡ section
  unfolding entry_of
  entry_of-section seen x = rw (entry_of, starts_with-append sep x) refl

  -- A line of an abbreviation is read as that abbreviation.
  pub step_entry :
      (i : ℕ) (ap' : Abbrev)
      → i ≤ global
      → Writable ap'
      → rest_lines (suc n) (suc i) lnum (line_then (ap'.a_abbrev ++ b':' ∷ ap'.a_phrase) s) T
        ≡ rest_lines n (suc i) (lnum + 1) s (put_table T i (define (T i) ap'.a_abbrev ap'.a_phrase))
  step_entry i ap' le v =
      let (clean_a, clean_p, _, _, short) = v in
      let line = ap'.a_abbrev ++ b':' ∷ ap'.a_phrase in
      let (c, cs, e) = nonempty ap'.a_abbrev ap'.a_phrase in
      let clean : Clean line =
        Clean-append ap'.a_abbrev (b':' ∷ ap'.a_phrase) clean_a
          ((λ e. omega arith), (λ e. omega arith), clean_p) in
      let fits : length line < lbsize =
        omega (arith, length-append ap'.a_abbrev (b':' ∷ ap'.a_phrase), short) in
      let read =
        subst (λ line. f_gets lbsize (line_then line s) ≡ gets line s) e
          (f_gets-line line s clean fits) in
      ap (λ line. rest_lines (suc n) (suc i) lnum (line_then line s) T) e
      ∙ rest_lines-suc n (suc i) lnum c cs s T (omega arith) read
      ∙ ap (on_entry n (suc i) lnum s T) (ap (entry_of (suc i)) (sym e) ∙ entry_of-entry i ap' v)
      ∙ ap
          (λ j.
            rest_lines n (suc i) (lnum + 1) s
              (put_table T j (define (T j) ap'.a_abbrev ap'.a_phrase)))
          (omega arith)

  -- The line of a section is read as one.
  pub step_section :
      (seen : ℕ) (x : Text)
      → seen ≤ global + 1
      → Clean (sep ++ x)
      → length (sep ++ x) < lbsize
      → rest_lines (suc n) seen lnum (line_then (sep ++ x) s) T
        ≡ rest_lines n (seen + 1) (lnum + 1) s T
  step_section seen x le clean fits =
      rest_lines-suc n seen lnum b'-' _ s T le (f_gets-line (sep ++ x) s clean fits)
      ∙ ap (on_entry n seen lnum s T) (entry_of-section seen x)
