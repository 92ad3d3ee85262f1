-- ===== src/Macros/Recording.antt =====
-- What the keyboard macro holds after its definition from typed keys (macros.c, with `getch` of
-- jove.c, which stores each key, and `dispatch` of keymaps.c).
use jove.Base.{
  ℕ, zero, suc, ◌+◌, ◌-◌, ◌≡◌, ◌≤◌, refl, sym, ◌∙◌, ap, subst, arith, List, [], ◌∷◌, ◌++◌,
  append_assoc, append-nil, map, true, false, length, leb, ltb, take, drop, replicate,
  length-append, Bool-cases, inl, inr, take-append,
}
use jove.Outcome.{Outcome, ◌>>=◌, done}
use jove.Macros.{Macro, MacroState, put_key, mac_putc, note_dispatch, remember, forget}
use jove.Macros.Pending.{body_of}

-- A key as it is typed: one on which `dispatch` is called, in the main loop or in the answer to a
-- prompt (`real_ask`), or one that is read otherwise.
pub data Stroke : Type 0 where
  dispatched : ℕ → Stroke
  undispatched : ℕ → Stroke

abbrev pub key_of : Stroke → ℕ
key_of (dispatched k) = k
key_of (undispatched k) = k

-- `getch`, while a macro is being defined, and then the beginning of `dispatch`.
unfoldable pub type_key : Stroke → MacroState → MacroState
unfolding mac_putc note_dispatch
type_key (dispatched k) s = note_dispatch (mac_putc k s)
type_key (undispatched k) s = mac_putc k s

abbrev pub type_keys : List Stroke → MacroState → MacroState
type_keys [] s = s
type_keys (k ∷ ks) s = type_keys ks (type_key k s)

take-append_short : (k : ℕ) (xs ys : List ℕ) → k ≤ length xs → take k (xs ++ ys) ≡ take k xs
take-append_short zero xs ys h = refl
take-append_short (suc k) [] ys h = absurd (omega arith)
take-append_short (suc k) (x ∷ xs) ys h = ap (x ∷◌) (take-append_short k xs ys (omega arith))

-- A byte in place of the one at `k`.
take-replaced :
    (c k : ℕ) (xs : List ℕ)
    → suc k ≤ length xs
    → (take (suc k) (take k xs ++ c ∷ drop (suc k) xs) ≡ take k xs ++ c ∷ [])
      × (suc k ≤ length (take k xs ++ c ∷ drop (suc k) xs))
take-replaced c k [] h = absurd (omega arith)
take-replaced c zero (x ∷ xs) h = (refl, omega arith)
take-replaced c (suc k) (x ∷ xs) h =
    let (kept, room) = take-replaced c k xs (omega arith) in (ap (x ∷◌) kept, omega arith)

take-put_key :
    (c k : ℕ) (body : List ℕ)
    → k ≤ length body
    → (take (suc k) (put_key c k body) ≡ take k body ++ c ∷ [])
      × (suc k ≤ length (put_key c k body))
unfolding put_key
take-put_key c k body h = elim (Bool-cases (leb (length body) k)) [
  | inl full ↦
      let longer = body ++ replicate 16 0 in
      let size : suc k ≤ length longer = omega (arith, length-append {0} body (replicate 16 0)) in
      let (kept, room) = take-replaced c k longer size in
      rw (put_key, full)
        (kept ∙ ap (λ xs. xs ++ c ∷ []) (take-append_short k body (replicate 16 0) h), room)
  | inr not_full ↦ rw (put_key, not_full) (take-replaced c k body (ground arith))
]

-- The keys `ks` are stored, and the first `n` of them count.
record Typed (ms : List Macro) (ks : List ℕ) (n : ℕ) (s : MacroState) : Type 0 where
  key : Macro
  macros : s.macros ≡ key ∷ ms
  stored : take (length ks) key.body ≡ ks
  fits : length ks ≤ length key.body
  counted : s.kmac_len ≡ length ks
  len : key.len ≡ n
  defining : s.in_define ≡ true

mac_putc-Typed :
    (c : ℕ) (ms : List Macro) (ks : List ℕ) (n : ℕ) (s : MacroState)
    → Typed ms ks n s
    → Typed ms (ks ++ c ∷ []) n (mac_putc c s)
unfolding mac_putc
mac_putc-Typed c ms ks n s v =
    let (kept, room) = take-put_key c (length ks) v.key.body v.fits in
    let more : length (ks ++ c ∷ []) ≡ suc (length ks) =
      omega (arith, length-append {0} ks (c ∷ [])) in
    record {
      key = record v.key { body = put_key c (length ks) v.key.body };
      macros = rw (v.macros, v.counted) refl;
      stored = rw (more) (kept ∙ ap (λ xs. xs ++ c ∷ []) v.stored);
      fits = rw (more) room;
      counted = omega (arith, v.counted, more);
      len = v.len;
      defining = v.defining;
    }

note_dispatch-Typed :
    (c : ℕ) (ms : List Macro) (ks : List ℕ) (n : ℕ) (s : MacroState)
    → Typed ms (ks ++ c ∷ []) n s
    → Typed ms (ks ++ c ∷ []) (length ks) (note_dispatch s)
unfolding note_dispatch
note_dispatch-Typed c ms ks n s v =
    let size : length (ks ++ c ∷ []) ≡ suc (length ks) =
      omega (arith, length-append {0} ks (c ∷ [])) in
    let count : s.kmac_len ≡ suc (length ks) = v.counted ∙ size in
    let noted : note_dispatch s ≡ record s { macros = record v.key { len = length ks } ∷ ms } =
      (let positive : ltb 0 s.kmac_len ≡ true = ground (arith, count) in
        let less : s.kmac_len - 1 ≡ length ks = omega (arith, count) in
        rw (note_dispatch, positive, v.macros, less) refl) in
    subst (Typed ms (ks ++ c ∷ []) (length ks)) (sym noted) (record {
      key = record v.key { len = length ks };
      macros = refl;
      stored = v.stored;
      fits = v.fits;
      counted = v.counted;
      len = refl;
      defining = v.defining;
    })

type_key-Typed :
    (k : Stroke) (ms : List Macro) (ks : List ℕ) (n : ℕ) (s : MacroState)
    → Typed ms ks n s
    → (m : ℕ) × Typed ms (ks ++ key_of k ∷ []) m (type_key k s)
unfolding type_key
type_key-Typed (dispatched k) ms ks n s v =
    (length ks, note_dispatch-Typed k ms ks n (mac_putc k s) (mac_putc-Typed k ms ks n s v))
type_key-Typed (undispatched k) ms ks n s v = (n, mac_putc-Typed k ms ks n s v)

type_keys-Typed :
    (cs : List Stroke) (ms : List Macro) (ks : List ℕ) (n : ℕ) (s : MacroState)
    → Typed ms ks n s
    → (m : ℕ) × Typed ms (ks ++ map key_of cs) m (type_keys cs s)
type_keys-Typed [] ms ks n s v = (n, subst (λ ks. Typed ms ks n s) (sym (append-nil ks)) v)
type_keys-Typed (c ∷ cs) ms ks n s v =
    let (m, w) = type_key-Typed c ms ks n s v in
    let (m', w') = type_keys-Typed cs ms (ks ++ key_of c ∷ []) m (type_key c s) w in
    (
      m',
      subst (λ ks. Typed ms ks m' (type_keys cs (type_key c s)))
          (append_assoc ks (key_of c ∷ []) (map key_of cs)) w',
    )

-- Keys that are not dispatched do not change what counts.
undispatched-Typed :
    (cs : List ℕ) (ms : List Macro) (ks : List ℕ) (n : ℕ) (s : MacroState)
    → Typed ms ks n s
    → Typed ms (ks ++ cs) n (type_keys (map undispatched cs) s)
unfolding type_key
undispatched-Typed [] ms ks n s v = subst (λ ks. Typed ms ks n s) (sym (append-nil ks)) v
undispatched-Typed (c ∷ cs) ms ks n s v =
    subst (λ ks. Typed ms ks n (type_keys (map undispatched cs) (mac_putc c s)))
      (append_assoc ks (c ∷ []) cs)
      (undispatched-Typed cs ms (ks ++ c ∷ []) n (mac_putc c s) (mac_putc-Typed c ms ks n s v))

take-take : (n m : ℕ) (xs : List ℕ) → n ≤ m → take n (take m xs) ≡ take n xs
take-take zero m xs h = refl
take-take (suc n) zero xs h = absurd (omega arith)
take-take (suc n) (suc m) [] h = refl
take-take (suc n) (suc m) (x ∷ xs) h = ap (x ∷◌) (take-take n m xs (omega arith))

Typed-body :
    (ms : List Macro) (ks more : List ℕ) (s : MacroState) (v : Typed ms (ks ++ more) (length ks) s)
    → (body_of v.key ≡ ks) × (v.key.len ≤ length v.key.body)
Typed-body ms ks more s v =
    let size : length (ks ++ more) ≡ length ks + length more = length-append ks more in
    let short : length ks ≤ length (ks ++ more) = omega (arith, size) in
    (
      ap (λ n. take n v.key.body) v.len
          ∙ sym (take-take (length ks) (length (ks ++ more)) v.key.body short)
          ∙ ap (take (length ks)) v.stored
          ∙ take-append ks more (length ks) refl,
      omega (arith, v.len, v.fits),
    )

-- The keyboard macro has these keys, the other macros are as before, and no definition goes on.
abbrev pub Defines : List ℕ → List Macro → Outcome MacroState → Type 0
Defines ks ms r =
    (s : MacroState) × (m : Macro) × (r ≡ done s)
    × (s.macros ≡ m ∷ ms)
    × (body_of m ≡ ks)
    × (m.len ≤ length m.body)
    × (s.in_define ≡ false)

pub forget-Defines :
    (key : Macro) (ms : List Macro) (typed : List Stroke) (last : ℕ) (others : List ℕ)
    (s : MacroState)
    → s.macros ≡ key ∷ ms
    → s.stack ≡ []
    → s.in_define ≡ false
    → Defines (map key_of typed) ms (
        remember false s >>= λ s.
        forget
          (type_keys (map undispatched others) (type_key (dispatched last) (type_keys typed s))))
unfolding remember forget type_key
forget-Defines key ms typed last others s macros idle fresh =
    let ks = map key_of typed in
    let end_keys = λ (s : MacroState).
      type_keys (map undispatched others) (type_key (dispatched last) (type_keys typed s)) in
    let started : MacroState = record s {
      macros = record key { len = 0 } ∷ ms;
      in_define = true;
      kmac_len = 0;
    } in
    let start : remember false s ≡ done started = rw (remember, idle, fresh, macros) refl in
    let empty : Typed ms [] 0 started = record {
      key = record key { len = 0 };
      macros = refl;
      stored = refl;
      fits = omega arith;
      counted = refl;
      len = refl;
      defining = refl;
    } in
    let (n, v) = type_keys-Typed typed ms [] 0 started empty in
    let noted =
      note_dispatch-Typed last ms ks n (mac_putc last (type_keys typed started))
        (mac_putc-Typed last ms ks n (type_keys typed started) v) in
    let w : Typed ms (ks ++ last ∷ others) (length ks) (end_keys started) =
      subst (λ ks'. Typed ms ks' (length ks) (end_keys started))
        (append_assoc ks (last ∷ []) others)
        (undispatched-Typed others ms (ks ++ last ∷ []) (length ks) _ noted) in
    let ended = end_keys started in
    let end : forget ended ≡ done (record ended { in_define = false }) =
      rw (forget, w.defining) refl in
    let (body, stored) = Typed-body ms ks (last ∷ others) ended w in
    (
      record ended { in_define = false },
      w.key,
      ap (λ r. r >>= λ s. forget (end_keys s)) start ∙ end,
      w.macros,
      body,
      stored,
      refl,
    )
