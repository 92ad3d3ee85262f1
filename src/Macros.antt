-- ===== src/Macros.antt =====
-- Keyboard macros (macros.c): the list of macros, the stack of those that run, and the definition
-- of the keyboard macro from the keys that are typed.
pub mod Pending
pub mod Recording
pub mod Stack
pub mod Written
use jove.Base.{
  ℕ, zero, suc, ◌+◌, ◌-◌, List, [], ◌∷◌, ◌++◌, Bool, true, false, ◌||◌, Option, none, some, ltb,
  leb, ◌==◌, if◌then◌else◌, length, get_elem?, take, drop, replicate,
}
use jove.Base.Int.{ℤ, pos, negsuc}
use jove.Buffer.{Text}
use jove.Outcome.{
  Outcome, ◌>>=◌, done, jump, recursive_macro, negative_count, define_in_macro, not_defining,
  no_macro, name_in_macro, keyboard_name,
}

-- `struct macro`. A pointer to a macro is its place in the list `macros`, from which none is ever
-- removed; the keyboard macro `KeyMacro` comes first (`mac_init`). Of `m_body` the first `m_len`
-- bytes count.
pub record Macro : Type 0 where
  pub name : Text
  pub len : ℕ
  pub body : List ℕ

-- `struct m_thread`.
pub record Thread : Type 0 where
  pub macro : ℕ
  pub offset : ℕ
  pub count : ℕ

-- The static variables.
pub record MacroState : Type 0 where
  pub macros : List Macro
  pub stack : List Thread
  pub in_define : Bool
  pub kmac_len : ℕ
  pub unsaved : Bool

-- What `mac_getc` returns; `stray` is a read behind the end of a body.
pub data Got : Type 0 where
  char : ℕ → Got
  eof : Got
  stray : Got

-- A thread that has come to the end of the body starts again, or is popped.
unfoldable pub next_run : Thread → List Thread → List Thread
next_run t ts = if t.count - 1 == 0 then ts else record t { offset = 0; count = t.count - 1 } ∷ ts

-- `mac_getc`, for at most `n` calls of itself; `none` is to run out of them.
unfoldable pub read_key : ℕ → List Macro → List Thread → Option (Got × List Thread)
unfolding next_run
read_key zero ms ts = none
read_key (suc n) ms [] = some (eof, [])
read_key (suc n) ms (t ∷ ts) =
    let again = read_key n ms (next_run t ts) in
    elim (get_elem? ms t.macro) [
      | none ↦ some (stray, t ∷ ts)
      | some m ↦ if t.offset == m.len then again else elim (get_elem? m.body t.offset) [
        | none ↦ some (stray, t ∷ ts)
        | some c ↦ some (char c, record t { offset = t.offset + 1 } ∷ ts)
      ]
    ]

abbrev pub runs_left : List Thread → ℕ
runs_left [] = 0
runs_left (t ∷ ts) = t.count + runs_left ts

unfoldable pub mac_getc : List Macro → List Thread → Option (Got × List Thread)
unfolding read_key
mac_getc ms ts = read_key (suc (runs_left ts)) ms ts

abbrev pub running : ℕ → List Thread → Bool
running k [] = false
running k (t ∷ ts) = t.macro == k || running k ts

-- `do_macro` with its argument, which is `push_macro_stack`.
unfoldable pub do_macro : ℕ → ℤ → MacroState → Outcome MacroState
do_macro k (pos zero) s =
    if running k s.stack then jump recursive_macro s else jump negative_count s
do_macro k (negsuc n) s =
    if running k s.stack then jump recursive_macro s else jump negative_count s
do_macro k (pos (suc n)) s =
    if running k s.stack
    then jump recursive_macro s
    else done (record s { stack = record { macro = k; offset = 0; count = suc n } ∷ s.stack })

-- `pop_macro_stack` and `unwind_macro_stack`.
unfoldable pub pop_macro_stack : MacroState → MacroState
pop_macro_stack s = record s { stack = drop 1 s.stack }

unfoldable pub unwind_macro_stack : MacroState → MacroState
unwind_macro_stack s = record s { stack = [] }

-- `in_macro`.
abbrev pub in_macro : MacroState → Bool
in_macro s = elim s.stack [ [] ↦ false | t ∷ ts ↦ true ]

-- An assignment to the macro at a place of the list.
abbrev pub at_macro : ℕ → (Macro → Macro) → List Macro → List Macro
at_macro k f [] = []
at_macro zero f (m ∷ ms) = f m ∷ ms
at_macro (suc k) f (m ∷ ms) = m ∷ at_macro k f ms

-- A byte into `m_body`, which grows by 16 bytes where it is full; what they hold is left open by
-- the source, and is 0 here.
unfoldable pub put_key : ℕ → ℕ → List ℕ → List ℕ
put_key c k body =
    let grown = if leb (length body) k then body ++ replicate 16 0 else body in
    take k grown ++ c ∷ drop (suc k) grown

-- `mac_putc`.
unfoldable pub mac_putc : ℕ → MacroState → MacroState
unfolding put_key
mac_putc c s = record s {
  macros = at_macro 0 (λ m. record m { body = put_key c s.kmac_len m.body }) s.macros;
  kmac_len = s.kmac_len + 1;
}

-- `note_dispatch`, which `dispatch` calls on each key that it is given: the first one of a command, and
-- the keys of an answer (ask.c: `real_ask`).
unfoldable pub note_dispatch : MacroState → MacroState
note_dispatch s =
    if ltb 0 s.kmac_len
    then record s { macros = at_macro 0 (λ m. record m { len = s.kmac_len - 1 }) s.macros }
    else s

-- `Remember`; the parameter is `InJoverc`.
unfoldable pub remember : Bool → MacroState → Outcome MacroState
remember in_joverc s =
    if in_macro s || in_joverc
    then jump define_in_macro s
    else if s.in_define
    then done s
    else done (record s {
      macros = at_macro 0 (λ m. record m { len = 0 }) s.macros;
      in_define = true;
      kmac_len = 0;
    })

-- `Forget`.
unfoldable pub forget : MacroState → Outcome MacroState
forget s = if s.in_define then done (record s { in_define = false }) else jump not_defining s

-- `MacDef`: the macro at a place of the list, or a new one at its end (`add_mac`), has the first
-- `len` bytes of a body.
unfoldable pub mac_def : Bool → Option ℕ → Text → ℕ → List ℕ → MacroState → MacroState
mac_def in_joverc m name len body s =
    let macros : List Macro = elim m [
      | some k ↦ at_macro k (λ m. record m { len = len; body = take len body }) s.macros
      | none ↦ s.macros ++ record { name = name; len = len; body = take len body } ∷ []
    ] in
    record s { macros = macros; unsaved = if in_joverc then s.unsaved else true }

-- `NameMac`, from the answer of `ask_macname` on: a macro that there is, or a new name.
unfoldable pub name_mac : Bool → Option ℕ → Text → MacroState → Outcome MacroState
unfolding mac_def
name_mac in_joverc m name s = elim s.macros [
  | [] ↦ jump no_macro s
  | key ∷ ms ↦
      if key.len == 0
      then jump no_macro s
      else if in_macro s || s.in_define
      then jump name_in_macro s
      else elim m [
        | none ↦ done (mac_def in_joverc none name key.len key.body s)
        | some zero ↦ jump keyboard_name s
        | some (suc k) ↦ done (mac_def in_joverc (some (suc k)) name key.len key.body s)
      ]
]
