-- ===== src/Abbrev/Recased.antt =====
-- What `AbbrevExpand` looks up and what it inserts, as the manual describes it (abbrev.c,
-- doc/cmds.nr: "auto-case-abbrev").
use jove.Base.{
  ℕ, zero, suc, ◌+◌, ◌≡◌, refl, ◌∙◌, ap, ap₂, arith, [], ◌∷◌, map, Bool, true, false, ◌&&◌, ◌||◌,
  ltb, ◌==◌, Bool-cases, inl, inr, if◌then◌else◌,
}
use jove.Buffer.{Text}
use jove.Chars.{is_upper, is_lower, is_white, char_upcase, char_downcase}
use jove.Abbrev.{wordbuf, upper_count, phrase_char}

-- The characters of a phrase as they are inserted.
abbrev pub cased : ℕ → Bool → ℕ → Text → Text
cased count first prev [] = []
cased count first prev (c ∷ cs) = phrase_char count first prev c ∷ cased count false c cs

-- The word as it is looked up, and the capitals that count.
abbrev pub key : Bool → Text → Text
key auto word = if auto then map char_downcase word else word

abbrev pub count_upper : Text → ℕ
count_upper [] = 0
count_upper (c ∷ cs) = if is_upper c then count_upper cs + 1 else count_upper cs

abbrev pub capitals : Bool → Text → ℕ
capitals auto word = if auto then count_upper word else 0

-- All words have a capital, the first one if `starts`; a word begins behind white space or a dash.
abbrev pub capital_words : Bool → Text → Text
capital_words starts [] = []
capital_words starts (c ∷ cs) =
    (if starts then char_upcase c else c) ∷ capital_words (is_white c || c == b'-') cs

-- The phrase for a word with so many capitals.
abbrev pub recased : ℕ → Text → Text
recased zero phrase = phrase
recased (suc zero) [] = []
recased (suc zero) (c ∷ cs) = char_upcase c ∷ cs
recased (suc (suc n)) phrase = capital_words true phrase

lowered : (c : ℕ) → (if true && is_upper c then char_downcase c else c) ≡ char_downcase c
unfolding char_downcase
lowered c = elim (Bool-cases (is_upper c)) [
  | inl capital ↦ rw (capital) refl
  | inr other ↦ rw (other, char_downcase) refl
]

pub wordbuf-key : (auto : Bool) (word : Text) → wordbuf auto word ≡ key auto word
unfolding wordbuf
wordbuf-key true [] = refl
wordbuf-key true (c ∷ cs) = ap₂ ◌∷◌ (lowered c) (wordbuf-key true cs)
wordbuf-key false [] = refl
wordbuf-key false (c ∷ cs) = ap (c ∷◌) (wordbuf-key false cs)

pub upper_count-capitals : (auto : Bool) (word : Text) → upper_count auto word ≡ capitals auto word
unfolding upper_count
upper_count-capitals true [] = refl
upper_count-capitals true (c ∷ cs) = ground (arith, upper_count-capitals true cs)
upper_count-capitals false [] = refl
upper_count-capitals false (c ∷ cs) = omega (arith, upper_count-capitals false cs)

-- A character of the phrase becomes a capital if it begins a word and there are enough of them.
phrase_char-capital :
    (n : ℕ) (first : Bool) (prev c : ℕ)
    → phrase_char (suc n) first prev c
      ≡ (if first || (ltb 1 (suc n) && (is_white prev || prev == b'-')) then char_upcase c else c)
unfolding phrase_char char_upcase
phrase_char-capital n first prev c =
    go (is_lower c) (first || (ltb 1 (suc n) && (is_white prev || prev == b'-'))) refl refl
  where
    some_capital : ltb 0 (suc n) ≡ true
    some_capital = ground arith

    go :
        (small starts : Bool)
        → is_lower c ≡ small
        → (first || (ltb 1 (suc n) && (is_white prev || prev == b'-'))) ≡ starts
        → phrase_char (suc n) first prev c ≡ (if starts then char_upcase c else c)
    go true true e f = rw (phrase_char, some_capital, e, f, char_upcase) refl
    go true false e f = rw (phrase_char, some_capital, e, f) refl
    go false true e f = rw (phrase_char, some_capital, e, char_upcase) refl
    go false false e f = rw (phrase_char, some_capital, e) refl

cased_none : (first : Bool) (prev : ℕ) (cs : Text) → cased 0 first prev cs ≡ cs
unfolding phrase_char
cased_none first prev [] = refl
cased_none first prev (c ∷ cs) = ap (c ∷◌) (cased_none false c cs)

cased_later : (prev : ℕ) (cs : Text) → cased 1 false prev cs ≡ cs
cased_later prev [] = refl
cased_later prev (c ∷ cs) = ap₂ ◌∷◌ (phrase_char-capital 0 false prev c) (cased_later c cs)

cased-capital_words :
    (n : ℕ) (first : Bool) (prev : ℕ) (cs : Text)
    → cased (suc (suc n)) first prev cs
      ≡ capital_words (first || (is_white prev || prev == b'-')) cs
cased-capital_words n first prev [] = refl
cased-capital_words n first prev (c ∷ cs) =
    let more : ltb 1 (suc (suc n)) ≡ true = ground arith in
    ap₂ ◌∷◌
      (phrase_char-capital (suc n) first prev c
        ∙ ap (λ t. if first || (t && (is_white prev || prev == b'-')) then char_upcase c else c)
            more)
      (cased-capital_words n false c cs)

pub cased-recased : (n : ℕ) (phrase : Text) → cased n true 0 phrase ≡ recased n phrase
cased-recased zero phrase = cased_none true 0 phrase
cased-recased (suc zero) [] = refl
cased-recased (suc zero) (c ∷ cs) = ap₂ ◌∷◌ (phrase_char-capital 0 true 0 c) (cased_later c cs)
cased-recased (suc (suc n)) phrase = cased-capital_words n true 0 phrase
