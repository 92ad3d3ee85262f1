-- ===== src/Macros/Stack.antt =====
-- The stack of running macros (macros.c) as macros start, give keys, end, and are defined anew.
use jove.Base.{
  ℕ, zero, suc, ◌≡◌, ◌<◌, ◌≤◌, refl, ap, arith, List, [], ◌∷◌, Bool, false, Option, none, some,
  length, ◌==◌, get_elem?, take, drop, ◌∙◌, length-take,
}
use jove.Base.Int.{ℤ, pos, negsuc}
use jove.Buffer.{Text}
use jove.Outcome.{done}
use jove.Macros.{
  Macro, Thread, MacroState, Got, stray, next_run, read_key, mac_getc, runs_left, running, do_macro,
  pop_macro_stack, unwind_macro_stack, at_macro, mac_def, mac_putc, note_dispatch,
}

-- No macro is on the stack twice.
abbrev pub Once : List Thread → Type 0
Once [] = Unit
Once (t ∷ ts) = (running t.macro ts ≡ false) × Once ts

-- What changes the stack or the macros: a command or a key that is read.
pub data Step (s : MacroState) : MacroState → Type 0 where
  start : (k : ℕ) (n : ℤ) (s' : MacroState) → do_macro k n s ≡ done s' → Step s s'
  read :
      (g : Got) (ts : List Thread)
      → mac_getc s.macros s.stack ≡ some (g, ts)
      → Step s (record s { stack = ts })
  pop : Step s (pop_macro_stack s)
  unwind : Step s (unwind_macro_stack s)
  record_key : (c : ℕ) → Step s (mac_putc c s)
  note : Step s (note_dispatch s)
  define :
      (rc : Bool) (m : Option ℕ) (name : Text) (len : ℕ) (body : List ℕ)
      → Step s (mac_def rc m name len body s)

pub data Reach (s : MacroState) : MacroState → Type 0 where
  here : Reach s s
  next : {t u : MacroState} → Reach s t → Step t u → Reach s u

next_run-Once : (t : Thread) (ts : List Thread) → Once (t ∷ ts) → Once (next_run t ts)
unfolding next_run
next_run-Once t ts v = ground arith

read_key-Once :
    (n : ℕ) (ms : List Macro) (ts : List Thread) (g : Got) (us : List Thread)
    → Once ts
    → read_key n ms ts ≡ some (g, us)
    → Once us
unfolding read_key
read_key-Once zero ms ts g us v e = cc
read_key-Once (suc n) ms [] g us v e = ground arith
read_key-Once (suc n) ms (t ∷ ts) g us v e =
    ground (arith, next_run-Once t ts v, read_key-Once n ms (next_run t ts) g us)

do_macro-Once :
    (k : ℕ) (n : ℤ) (s s' : MacroState) → Once s.stack → do_macro k n s ≡ done s' → Once s'.stack
unfolding do_macro
do_macro-Once k (pos zero) s s' v e = ground arith
do_macro-Once k (pos (suc n)) s s' v e = ground arith
do_macro-Once k (negsuc n) s s' v e = ground arith

drop-Once : (ts : List Thread) → Once ts → Once (drop 1 ts)
drop-Once [] v = v
drop-Once (t ∷ ts) v = v.1

Step-Once : {s t : MacroState} → Step s t → Once s.stack → Once t.stack
unfolding pop_macro_stack unwind_macro_stack mac_putc note_dispatch mac_def mac_getc
Step-Once {s} (start k n s' e) v = do_macro-Once k n s s' v e
Step-Once {s} (read g ts e) v = read_key-Once (suc (runs_left s.stack)) s.macros s.stack g ts v e
Step-Once {s} pop v = drop-Once s.stack v
Step-Once unwind v = tt
Step-Once (record_key c) v = v
Step-Once note v = ground arith
Step-Once (define rc m name len body) v = v

-- However macros start, give keys, end and are defined, none is ever on the stack twice, so that
-- no macro runs itself.
pub Reach-Once : (s t : MacroState) → Once s.stack → Reach s t → Once t.stack
Reach-Once s t v here = v
Reach-Once s t v (next {t = u} r step) = Step-Once step (Reach-Once s u v r)

get_elem?-at_macro :
    (k : ℕ) (f : Macro → Macro) (ms : List Macro) (m : Macro)
    → get_elem? ms k ≡ some m
    → get_elem? (at_macro k f ms) k ≡ some (f m)
get_elem?-at_macro k f [] m e = cc
get_elem?-at_macro zero f (x ∷ ms) m e = ground arith
get_elem?-at_macro (suc k) f (x ∷ ms) m e = get_elem?-at_macro k f ms m e

get_elem?-outside : (i : ℕ) (xs : List ℕ) → length xs ≤ i → get_elem? xs i ≡ none
get_elem?-outside i [] h = refl
get_elem?-outside zero (x ∷ xs) h = absurd (omega arith)
get_elem?-outside (suc i) (x ∷ xs) h = get_elem?-outside i xs (omega arith)

-- A macro that is defined anew while it runs, with a body that is shorter than its place in the
-- old one, makes `mac_getc` read behind the end of the new body.
pub mac_def-stray :
    (rc : Bool) (name : Text) (len : ℕ) (body : List ℕ) (s : MacroState) (t : Thread)
    (ts : List Thread) (m : Macro)
    → s.stack ≡ t ∷ ts
    → get_elem? s.macros t.macro ≡ some m
    → len < t.offset
    → mac_getc (mac_def rc (some t.macro) name len body s).macros s.stack ≡ some (stray, t ∷ ts)
unfolding mac_def mac_getc read_key
mac_def-stray rc name len body s t ts m stack found short =
    let new = record m { len = len; body = take len body } in
    let there : get_elem?
          (at_macro t.macro (λ m. record m { len = len; body = take len body }) s.macros) t.macro
        ≡ some new =
      get_elem?-at_macro t.macro (λ m. record m { len = len; body = take len body }) s.macros m
        found in
    let past : get_elem? (take len body) t.offset ≡ none =
      get_elem?-outside t.offset (take len body) (omega (arith, length-take {0} len body)) in
    let other : (t.offset == len) ≡ false = ground arith in
    ap (mac_getc (mac_def rc (some t.macro) name len body s).macros) stack
    ∙ rw (read_key, there, other, past) refl
