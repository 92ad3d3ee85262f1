-- ===== src/Abbrev/Expanded.antt =====
-- The expansion of an abbreviation (abbrev.c: `AbbrevExpand`).
use jove.Base.{
  ◌⊎◌, inl, inr, none, ℕ, zero, suc, ◌+◌, ◌-◌, ◌≤◌, ◌<◌, ◌≡◌, ◌≢◌, refl, sym, ◌∙◌, ap, arith, [],
  ◌∷◌, ◌++◌, Bool, true, false, some, leb, if◌then◌else◌, length, take, drop, length-append,
  length-take, length-drop, take-append, drop-append, take-append-drop, append_assoc, push_all,
  length-push_all,
}
use jove.Base.Int.{pos}
use jove.Buffer.{Buffer, Text, InLine, IsValid, bolp, left, right, left_lines}
use jove.Chars.{Major}
use jove.Move.{b_char, b_char_step, rounds}
use jove.Move.Char.{gap}
use jove.Outcome.{Outcome, ◌>>=◌, done, jump, final}
use jove.Insert.{lbsize, insert_c}
use jove.Insert.View.{Inserted, insert_c-Inserted}
use jove.Delete.{del_char, backward}
use jove.Delete.Chars.{del_char-backward, del_char-erased}
use jove.Abbrev.{
  Abbrev, Tables, table_of, global, lookup_abbrev, word_col, wordbuf, upper_count, phrase_char,
  insert_phrase, either_lookup, run_hook, expand_word, abbrev_expand,
}
use jove.Abbrev.Recased.{
  cased, key, capitals, recased, wordbuf-key, upper_count-capitals, cased-recased,
}
use jove.Abbrev.Word.{AllIdent, EndsOutside, word_col-start, length-wordbuf}

-- Back within the line.
b_char-within :
    (n : ℕ) (b : Buffer) → n ≤ b.curchar → b_char (pos n) b ≡ record b { curchar = b.curchar - n }
unfolding b_char rounds b_char_step bolp
b_char-within zero b h = ap (λ i. record b { curchar = i }) (omega arith)
b_char-within (suc n) b h =
    let inside : bolp b ≡ false = ground arith in
    rw (rounds, b_char_step, inside)
      (b_char-within n (record b { curchar = b.curchar - 1 }) (omega arith)
        ∙ ap (λ i. record b { curchar = i }) (omega arith))

-- What a run of insertions leaves: the text before point, and what stands after it as it was.
abbrev pub Put : Text → Buffer → Outcome Buffer → Type 0
Put t b o = (b' : Buffer) × (o ≡ done b') × (gap b' ≡ (push_all t (left b), right b))

insert_phrase-Put :
    (count : ℕ) (first : Bool) (prev : ℕ) (cs : Text) (b : Buffer)
    → InLine b
    → length b.here.text + length cs + 1 ≤ lbsize
    → Put (cased count first prev cs) b (insert_phrase count first prev cs b)
unfolding insert_phrase
insert_phrase-Put count first prev [] b h fits = (b, refl, refl)
insert_phrase-Put count first prev (c ∷ cs) b h fits =
    go (insert_c d (pos 1) b) refl (insert_c-Inserted d 1 b h (omega arith))
      (λ b1 h1 fits. insert_phrase-Put count false c cs b1 h1 fits)
  where
    d : ℕ
    d = phrase_char count first prev c

    go :
        (o : Outcome Buffer)
        → insert_c d (pos 1) b ≡ o
        → Inserted d 1 b o
        → ((b1 : Buffer)
            → InLine b1
            → length b1.here.text + length cs + 1 ≤ lbsize
            → Put (cased count false c cs) b1 (insert_phrase count false c cs b1))
        → Put (d ∷ cased count false c cs) b (o >>= insert_phrase count false c cs)
    go (done b1) e (h1, g, _, _, _, len) rest =
        let (b2, e2, g2) = rest b1 h1 (omega (arith, len, fits)) in
        (b2, e2, g2 ∙ ap (λ z. (push_all (cased count false c cs) z.0, z.1)) g)
    go (jump j b1) e i rest = absurd i

module _ (m : Major) (b : Buffer) (pre word : Text) (h : InLine b)
    (cut : take b.curchar b.here.text ≡ pre ++ word) (o : EndsOutside m pre)
    (a : AllIdent m word) where
  abbrev after_word : Text
  after_word = drop b.curchar b.here.text

  split : b.here.text ≡ pre ++ (word ++ after_word)
  split =
      sym (take-append-drop b.curchar b.here.text)
      ∙ ap (λ t. t ++ after_word) cut
      ∙ append_assoc pre word after_word

  point : b.curchar ≡ length pre + length word
  point = omega (arith, length-take b.curchar b.here.text, ap length cut, length-append pre word, h)

  pub word_col-found : word_col m b.here.text b.curchar ≡ length pre
  word_col-found =
      ap (λ t. word_col m t b.curchar) split
      ∙ word_col-start m pre word after_word o a (length word) b.curchar (omega arith) point

  pub word_before : take (b.curchar - length pre) (drop (length pre) b.here.text) ≡ word
  word_before =
      ap (λ t. take (b.curchar - length pre) (drop (length pre) t)) split
      ∙ ap (take (b.curchar - length pre)) (drop-append pre (word ++ after_word) (length pre) refl)
      ∙ take-append word after_word (b.curchar - length pre) (omega (arith, point))

  pub long_word : b.curchar - length pre ≡ length word
  long_word = omega (arith, point)

  -- The word is taken out.
  word_deleted :
      IsValid b
      → 0 < length word
      → length b.here.text < length word + lbsize
      → (b' : Buffer) × (del_char backward (pos (length word)) b ≡ done b')
        × InLine b'
        × (length b'.here.text + length word ≡ length b.here.text)
        × (gap b' ≡ (drop (length word) (left b), right b))
  unfolding left
  word_deleted v some_word fits =
      let n = length word in
      let within : b_char (pos n) b ≡ record b { curchar = b.curchar - n } =
        b_char-within n b (omega (arith, point)) in
      let some_left : left b ≢ [] = λ e. omega (
        arith,
        ap length e,
        length-push_all (take b.curchar b.here.text) (left_lines b.above),
        length-take b.curchar b.here.text,
        point,
        h,
        some_word,
      ) in
      let room : (b_char (pos n) b).curchar + (length b.here.text - b.curchar) < lbsize =
        omega (arith, ap (λ u. u.curchar) within, point, fits, h) in
      let (b', e, g) = del_char-backward n b v some_word some_left room in
      let same = ap final (sym e ∙ del_char-erased n b v some_word some_left room) in
      let size : length b'.here.text ≡ (b.curchar - n) + (length b.here.text - b.curchar) = omega (
        arith,
        ap (λ z. length z.here.text) same,
        length-append (take (b_char (pos n) b).curchar (b_char (pos n) b).here.text) after_word,
        ap (λ u. length (take u.curchar u.here.text)) within,
        length-take (b.curchar - n) b.here.text,
        length-drop b.curchar b.here.text,
        h,
      ) in
      let column : b'.curchar ≡ b.curchar - n =
        ap (λ z. z.curchar) same ∙ ap (λ u. u.curchar) within in
      (b', e, omega (arith, size, column), omega (arith, size, point, h), g)

module _ (auto : Bool) (exec : ℕ → Buffer → Outcome Buffer) (tables : Tables) (m : Major)
    (b : Buffer) where
  reached :
      (col : ℕ) (word : Text)
      → word_col m b.here.text b.curchar ≡ col
      → take (b.curchar - col) (drop col b.here.text) ≡ word
      → leb 100 (b.curchar - col) ≡ false
      → abbrev_expand auto exec tables m b
        ≡ expand_word auto exec (either_lookup tables (table_of m) (wordbuf auto word)) word b
  unfolding abbrev_expand
  reached col word ce we small =
      ap
        (λ col.
          let word = take (b.curchar - col) (drop col b.here.text) in
          if leb 100 (b.curchar - col)
          then done b
          else expand_word auto exec (either_lookup tables (table_of m) (wordbuf auto word)) word b)
        ce
      ∙ ap
          (λ t.
            if t
            then done b
            else expand_word auto exec
                (either_lookup tables (table_of m)
                  (wordbuf auto (take (b.curchar - col) (drop col b.here.text))))
                (take (b.curchar - col) (drop col b.here.text)) b)
          small
      ∙ ap
          (λ word.
            expand_word auto exec (either_lookup tables (table_of m) (wordbuf auto word)) word b)
          we

  expanded :
      (ap' : Abbrev) (word : Text) (b1 b2 : Buffer)
      → del_char backward (pos (length word)) b ≡ done b1
      → insert_phrase (upper_count auto word) true 0 ap'.a_phrase b1 ≡ done b2
      → expand_word auto exec (some ap') word b ≡ run_hook exec ap'.a_cmdhook b2
  unfolding expand_word
  expanded ap' word b1 b2 e1 e2 =
      ap
        (λ n. del_char backward (pos n) b >>= (λ shorter.
          insert_phrase (upper_count auto word) true 0 ap'.a_phrase shorter
          >>= run_hook exec ap'.a_cmdhook))
        (length-wordbuf auto word)
      ∙ ap
          (λ o. o >>= (λ shorter.
            insert_phrase (upper_count auto word) true 0 ap'.a_phrase shorter
            >>= run_hook exec ap'.a_cmdhook))
          e1
      ∙ ap (λ o. o >>= run_hook exec ap'.a_cmdhook) e2

-- The table of the mode has the abbreviation for a word, or else the global one has it.
abbrev pub IsFor : Tables → Major → Text → Abbrev → Type 0
IsFor tables m w ap' =
    (lookup_abbrev (tables (table_of m)) w ≡ some ap')
    ⊎ ((lookup_abbrev (tables (table_of m)) w ≡ none)
        × (lookup_abbrev (tables global) w ≡ some ap'))

either_lookup-IsFor :
    (tables : Tables) (m : Major) (w : Text) (ap' : Abbrev)
    → IsFor tables m w ap'
    → either_lookup tables (table_of m) w ≡ some ap'
unfolding either_lookup
either_lookup-IsFor tables m w ap' (inl e) = rw (either_lookup, e) refl
either_lookup-IsFor tables m w ap' (inr (e, e')) = rw (either_lookup, e) e'

-- The word before point is replaced by the phrase that the table of the mode has for it, or, where
-- that has none, the global table, and then the command runs that is bound to the abbreviation: the
-- text before the word and the text after point stay. The word is made of all the characters of
-- identifiers before point, at least one and less than 100, and the line has room for the phrase.
-- With AutoCaseAbbrev it is looked up in lower case; a capital in it makes the first character of
-- the phrase one, and two or more make one of each character behind white space or a dash, too.
-- Without it the word is looked up as it is, and the phrase is not changed.
pub abbrev_expand-Put :
    (auto : Bool) (exec : ℕ → Buffer → Outcome Buffer) (tables : Tables) (m : Major) (b : Buffer)
    (pre word : Text) (ap' : Abbrev)
    → IsValid b
    → take b.curchar b.here.text ≡ pre ++ word
    → EndsOutside m pre
    → AllIdent m word
    → 0 < length word
    → length word < 100
    → length b.here.text + length ap'.a_phrase < length word + lbsize
    → IsFor tables m (key auto word) ap'
    → (b' : Buffer) × (abbrev_expand auto exec tables m b ≡ run_hook exec ap'.a_cmdhook b')
      × (gap b' ≡ (
        push_all (recased (capitals auto word) ap'.a_phrase) (drop (length word) (left b)),
        right b,
      ))
abbrev_expand-Put auto exec tables m b pre word ap' v cut o a some_word short fits found =
    let h = v.in_line in
    let (b1, e1, h1, size, g1) = word_deleted m b pre word h cut o a v some_word (omega arith) in
    let (b2, e2, g2) =
      insert_phrase-Put (upper_count auto word) true 0 ap'.a_phrase b1 h1
        (omega (arith, size, fits)) in
    let long = long_word m b pre word h cut o a in
    let small : leb 100 (b.curchar - length pre) ≡ false = ground (arith, long, short) in
    let phrase : cased (upper_count auto word) true 0 ap'.a_phrase
        ≡ recased (capitals auto word) ap'.a_phrase =
      ap (λ n. cased n true 0 ap'.a_phrase) (upper_count-capitals auto word)
      ∙ cased-recased (capitals auto word) ap'.a_phrase in
    (
      b2,
      reached auto exec tables m b (length pre) word (word_col-found m b pre word h cut o a)
            (word_before m b pre word h cut o a) small
          ∙ ap (λ w. expand_word auto exec (either_lookup tables (table_of m) w) word b)
              (wordbuf-key auto word)
          ∙ ap (λ found. expand_word auto exec found word b)
              (either_lookup-IsFor tables m (key auto word) ap' found)
          ∙ expanded auto exec tables m b ap' word b1 b2 e1 e2,
      g2
          ∙ ap (λ z. (push_all (cased (upper_count auto word) true 0 ap'.a_phrase) z.0, z.1)) g1
          ∙ ap (λ t. (push_all t (drop (length word) (left b)), right b)) phrase,
    )
