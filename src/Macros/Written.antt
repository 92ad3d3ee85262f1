-- ===== src/Macros/Written.antt =====
-- Macros as text (macros.c): `WriteMacs` writes a body by `pr_putc`, and `DefKBDMac` reads it.
use jove.Base.{
  ℕ, ◌+◌, ◌/◌, ◌%◌, ◌≡◌, ◌≤◌, ◌<◌, ◌⊎◌, inl, inr, refl, ◌∙◌, ap, arith, List, [], ◌∷◌, ◌++◌, true,
  false, Bool-cases, ◌||◌, ◌&&◌, Option, none, some, ltb, leb, ◌==◌, if◌then◌else◌, length,
}
use jove.Buffer.{Text}
use jove.Chars.{is_print, is_lower, char_upcase}
use jove.Outcome.{Jump, bad_pair, macro_too_large}
use jove.Insert.{lbsize}
use jove.Format.{pp_char, decode_pair}

-- `pr_putc`, as the bytes that it puts.
unfoldable pub pr_putc : ℕ → Text
unfolding pp_char
pr_putc c = if c == 92 || c == b'^' then 92 ∷ c ∷ [] else pp_char c

-- The loop of `WriteMacs` over a body.
unfoldable pub write_body : List ℕ → Text
unfolding pr_putc
write_body [] = []
write_body (c ∷ cs) = pr_putc c ++ write_body cs

-- What the loop of `DefKBDMac` makes of the answer; `past_end` is to read behind its NUL.
pub data Body : Type 0 where
  keys : List ℕ → Body
  refused : Jump → Body
  past_end : Body

abbrev pub and_key : ℕ → Body → Body
and_key c (keys cs) = keys (c ∷ cs)
and_key c (refused j) = refused j
and_key c past_end = past_end

-- `macro_buffer[len++] = c`, with the test on its room.
abbrev pub store_key : ℕ → Option ℕ → Body → Body
store_key len none more = refused bad_pair
store_key len (some c) more = if leb lbsize len then refused macro_too_large else and_key c more

-- The loop of `DefKBDMac`, with `len` keys stored before. A pair at the end of the text takes the
-- NUL for its second character.
unfoldable pub read_body : ℕ → Text → Body
unfolding decode_pair
read_body len [] = keys []
read_body len (c ∷ []) =
    if c == 92
    then past_end
    else store_key len (if c == b'^' then decode_pair c 0 else some c) (keys [])
read_body len (c ∷ d ∷ cs) =
    let pair = store_key len (decode_pair c d) (read_body (len + 1) cs) in
    let single = store_key len (some c) (read_body (len + 1) (d ∷ cs)) in
    if c == 92 || c == b'^' then pair else single

-- The keys that have a spelling of their own.
abbrev pub AllAscii : List ℕ → Type 0
AllAscii [] = Unit
AllAscii (c ∷ cs) = (c < 128) × AllAscii cs

read_body-pair :
    (len c d e : ℕ) (cs : Text)
    → (c == 92 || c == b'^') ≡ true
    → decode_pair c d ≡ some e
    → len < lbsize
    → read_body len (c ∷ d ∷ cs) ≡ and_key e (read_body (len + 1) cs)
unfolding read_body
read_body-pair len c d e cs h k lt =
    let room : leb lbsize len ≡ false = ground arith in rw (read_body, h, k, room) refl

read_body-single :
    (len c : ℕ) (cs : Text)
    → (c == 92 || c == b'^') ≡ false
    → len < lbsize
    → read_body len (c ∷ cs) ≡ and_key c (read_body (len + 1) cs)
unfolding read_body
read_body-single len c [] h lt =
    let room : leb lbsize len ≡ false = ground arith in ground (arith, room)
read_body-single len c (d ∷ cs) h lt =
    let room : leb lbsize len ≡ false = ground arith in rw (read_body, h, room) refl

-- How a key is spelled: as itself, or as a pair that stands for it.
abbrev Spelling : ℕ → Type 0
Spelling c =
    ((pr_putc c ≡ c ∷ []) × ((c == 92 || c == b'^') ≡ false))
    ⊎ ((a : ℕ) × (d : ℕ) × (pr_putc c ≡ a ∷ d ∷ [])
        × ((a == 92 || a == b'^') ≡ true)
        × (decode_pair a d ≡ some c))

escaped_pair : (c : ℕ) → (c == 92 || c == b'^') ≡ true → decode_pair 92 c ≡ some c
unfolding decode_pair
escaped_pair c special = ground arith

control_pair : (c : ℕ) → c < 32 → decode_pair b'^' (c + 64) ≡ some c
unfolding decode_pair char_upcase is_lower
control_pair c h = ground arith

delete_pair : decode_pair b'^' b'?' ≡ some 127
unfolding decode_pair
delete_pair = refl

spelled : (c : ℕ) → c < 128 → Spelling c
unfolding pr_putc is_print
spelled c h = elim (Bool-cases (c == 92 || c == b'^')) [
  | inl special ↦ inr (92, c, rw (pr_putc, special) refl, refl, escaped_pair c special)
  | inr other ↦ elim (Bool-cases (is_print c)) [
    | inl print ↦ inl (rw (pr_putc, other, print) refl, other)
    | inr hidden ↦ elim (Bool-cases (ltb c 127)) [
      | inl control ↦ inr (
        b'^',
        c + 64,
        rw (pr_putc, other, hidden, control) refl,
        refl,
        control_pair c (ground arith),
      )
      | inr last ↦
          let e : c ≡ 127 = ground arith in inr (b'^', b'?', ground arith, refl, rw (e) delete_pair)
    ]
  ]
]

-- Reading the spelling of a key gives the key.
read_body-pr_putc :
    (len c : ℕ) (cs : Text)
    → c < 128
    → len < lbsize
    → read_body len (pr_putc c ++ cs) ≡ and_key c (read_body (len + 1) cs)
read_body-pr_putc len c cs h lt = elim (spelled c h) [
  | inl (e, plain) ↦ rw (e) (read_body-single len c cs plain lt)
  | inr (a, d, e, special, k) ↦ rw (e) (read_body-pair len a d c cs special k lt)
]

-- The definition that `WriteMacs` writes of a macro whose keys are all below 128, and that are no
-- more than LBSIZE, is read by `DefKBDMac` as those keys.
pub read_body-write_body :
    (len : ℕ) (cs : List ℕ)
    → AllAscii cs
    → len + length cs ≤ lbsize
    → read_body len (write_body cs) ≡ keys cs
unfolding write_body read_body
read_body-write_body len [] a h = refl
read_body-write_body len (c ∷ cs) a h =
    read_body-pr_putc len c (write_body cs) a.0 (omega arith)
    ∙ ap (and_key c) (read_body-write_body (len + 1) cs a.1 (omega arith))

-- A key from 128 on is written as a backslash and three octal digits, and read as these digits.
pub read_body-meta :
    (c : ℕ)
    → 127 < c
    → c < 256
    → read_body 0 (write_body (c ∷ []))
      ≡ keys ((48 + c / 64) ∷ (48 + c / 8 % 8) ∷ (48 + c % 8) ∷ [])
unfolding write_body read_body pr_putc pp_char is_print decode_pair
read_body-meta c lo hi =
    let other : (c == 92 || c == b'^') ≡ false = ground arith in
    let hidden : (leb 32 c && leb c 126) ≡ false = ground arith in
    let high : ltb c 127 ≡ false = ground arith in
    let meta : (c == 127) ≡ false = ground arith in
    rw (other, hidden, high, meta)
      (digits (48 + c / 64) (48 + c / 8 % 8) (48 + c % 8) (omega arith) (omega arith) (omega arith))
  where
    digits :
        (x y z : ℕ)
        → (48 ≤ x) × (x < 56)
        → (48 ≤ y) × (y < 56)
        → (48 ≤ z) × (z < 56)
        → read_body 0 (92 ∷ x ∷ y ∷ z ∷ []) ≡ keys (x ∷ y ∷ z ∷ [])
    digits x y z hx hy hz =
        read_body-pair 0 92 x x (y ∷ z ∷ []) refl (ground arith) (omega arith)
        ∙ ap (and_key x) (
            read_body-single 1 y (z ∷ []) (ground arith) (omega arith)
            ∙ ap (and_key y) (read_body-single 2 z [] (ground arith) (omega arith)))

-- Characters that begin no pair.
abbrev pub AllSingle : List ℕ → Type 0
AllSingle [] = Unit
AllSingle (c ∷ cs) = ((c == 92 || c == b'^') ≡ false) × AllSingle cs

-- Where the answer ends with a backslash that begins a pair, `DefKBDMac` reads behind its end.
pub read_body-past_end :
    (len : ℕ) (cs : Text)
    → AllSingle cs
    → len + length cs ≤ lbsize
    → read_body len (cs ++ 92 ∷ []) ≡ past_end
unfolding read_body
read_body-past_end len [] a h = refl
read_body-past_end len (c ∷ cs) a h =
    read_body-single len c (cs ++ 92 ∷ []) a.0 (omega arith)
    ∙ ap (and_key c) (read_body-past_end (len + 1) cs a.1 (omega arith))
