-- ===== src/Macros/Pending.antt =====
-- What the running macros (macros.c) still have to give: `mac_getc` takes the first key of it.
use jove.Base.{
  ℕ, zero, suc, ◌+◌, ◌-◌, subst, ◌≡◌, ◌≤◌, ◌<◌, ◌⊎◌, inl, inr, refl, sym, ◌∙◌, ap, arith, List, [],
  ◌∷◌, ◌++◌, Option, none, some, false, ◌==◌, ==_iff, length, get_elem?, take, drop,
}
use native.Mathlib.Decide.{ℕ_discrete}
use jove.Macros.{Macro, Thread, Got, char, eof, next_run, read_key, mac_getc, runs_left}

abbrev pub body_of : Macro → List ℕ
body_of m = take m.len m.body

abbrev pub times : ℕ → List ℕ → List ℕ
times zero xs = []
times (suc n) xs = xs ++ times n xs

-- What is left of a body at the place of a thread, and then the body for each further run.
abbrev pub keys_at : Option Macro → ℕ → ℕ → List ℕ
keys_at none i k = []
keys_at (some m) i k = drop i (body_of m) ++ times (k - 1) (body_of m)

abbrev pub thread_keys : List Macro → Thread → List ℕ
thread_keys ms t = keys_at (get_elem? ms t.macro) t.offset t.count

abbrev pub pending : List Macro → List Thread → List ℕ
pending ms [] = []
pending ms (t ∷ ts) = thread_keys ms t ++ pending ms ts

-- The macro of a thread is in the list, the place of the thread is within it, and there is a run.
pub record IsRunning (ms : List Macro) (t : Thread) : Type 0 where
  pub macro : Macro
  pub found : get_elem? ms t.macro ≡ some macro
  pub within : t.offset ≤ macro.len
  pub stored : macro.len ≤ length macro.body
  pub runs : 0 < t.count

abbrev pub AllRunning : List Macro → List Thread → Type 0
AllRunning ms [] = Unit
AllRunning ms (t ∷ ts) = IsRunning ms t × AllRunning ms ts

-- The first of the keys that are pending, or the end of them.
abbrev pub Delivers : List Macro → List Thread → Option (Got × List Thread) → Type 0
Delivers ms ts r =
    ((c : ℕ) × (ts' : List Thread) × (r ≡ some (char c, ts'))
      × (pending ms ts ≡ c ∷ pending ms ts')
      × AllRunning ms ts')
    ⊎ ((r ≡ some (eof, [])) × (pending ms ts ≡ []))

drop-take_last : (n : ℕ) (xs : List ℕ) → n ≤ length xs → drop n (take n xs) ≡ []
drop-take_last zero xs h = refl
drop-take_last (suc n) [] h = absurd (omega arith)
drop-take_last (suc n) (x ∷ xs) h = drop-take_last n xs (omega arith)

drop-take_next :
    (i n : ℕ) (xs : List ℕ)
    → i < n
    → n ≤ length xs
    → (c : ℕ) × (get_elem? xs i ≡ some c) × (drop i (take n xs) ≡ c ∷ drop (suc i) (take n xs))
drop-take_next i zero xs h k = absurd (omega arith)
drop-take_next i (suc n) [] h k = absurd (omega arith)
drop-take_next zero (suc n) (x ∷ xs) h k = (x, refl, refl)
drop-take_next (suc i) (suc n) (x ∷ xs) h k = drop-take_next i n xs (omega arith) (omega arith)

module _ (ms : List Macro) (t : Thread) (ts : List Thread) (v : IsRunning ms t) where
  abbrev body : List ℕ
  body = body_of v.macro

  keys-at : (i k : ℕ) → keys_at (get_elem? ms t.macro) i k ≡ drop i body ++ times (k - 1) body
  keys-at i k = ap (λ o. keys_at o i k) v.found

  -- The thread at another place, with some runs left.
  abbrev at_place : ℕ → ℕ → Thread
  at_place i k = record t { offset = i; count = k }

  at_place-IsRunning : (i k : ℕ) → i ≤ v.macro.len → 0 < k → IsRunning ms (at_place i k)
  at_place-IsRunning i k h p = record {
    macro = v.macro;
    found = v.found;
    within = h;
    stored = v.stored;
    runs = p;
  }

  -- A state of the stack has the same keys as before, and fewer runs.
  abbrev Continues : List Thread → Type 0
  Continues us =
      (pending ms (t ∷ ts) ≡ pending ms us) × AllRunning ms us × (runs_left us < runs_left (t ∷ ts))

  keys-end : t.offset ≡ v.macro.len → thread_keys ms t ≡ times (t.count - 1) body
  keys-end e =
      keys-at t.offset t.count
      ∙ ap (λ xs. xs ++ times (t.count - 1) body)
          (ap (λ i. drop i body) e ∙ drop-take_last v.macro.len v.macro.body v.stored)

  -- At the end of the body the next run has the same keys.
  next_run-Continues :
      (k : ℕ)
      → t.count - 1 ≡ k
      → t.offset ≡ v.macro.len
      → AllRunning ms ts
      → Continues (next_run t ts)
  unfolding next_run
  next_run-Continues zero last e w =
      rw (next_run, last)
        (
          ap (λ xs. xs ++ pending ms ts) (keys-end e ∙ ap (λ k. times k body) last),
          w,
          omega (arith, v.runs),
        )
  next_run-Continues (suc k) more e w =
      let next : next_run t ts ≡ at_place 0 (suc k) ∷ ts = ground (arith, more) in
      subst Continues (sym next) (
        ap (λ xs. xs ++ pending ms ts)
            (keys-end e
              ∙ ap (λ k. times k body) more
              ∙ sym (keys-at 0 (suc k) ∙ ap (λ k. body ++ times k body) (omega arith))),
        (at_place-IsRunning 0 (suc k) (omega arith) (omega arith), w),
        omega (arith, more),
      )

  read_char :
      (n : ℕ)
      → t.offset < v.macro.len
      → AllRunning ms ts
      → Delivers ms (t ∷ ts) (read_key (suc n) ms (t ∷ ts))
  unfolding read_key
  read_char n h w =
      let (c, got, more) = drop-take_next t.offset v.macro.len v.macro.body h v.stored in
      let next : t.offset + 1 ≡ suc t.offset = omega arith in
      let early : (t.offset == v.macro.len) ≡ false = ground arith in
      inl (
        c,
        record t { offset = t.offset + 1 } ∷ ts,
        rw (read_key, v.found, early, got) refl,
        ap (λ xs. xs ++ pending ms ts)
            (keys-at t.offset t.count
              ∙ ap (λ xs. xs ++ times (t.count - 1) body) more
              ∙ ap (λ xs. c ∷ xs)
                  (sym (
                    keys-at (t.offset + 1) t.count
                    ∙ ap (λ i. drop i body ++ times (t.count - 1) body) next))),
        (at_place-IsRunning (t.offset + 1) t.count (omega arith) v.runs, w),
      )

  read_again :
      (n : ℕ)
      → t.offset ≡ v.macro.len
      → read_key (suc n) ms (t ∷ ts) ≡ read_key n ms (next_run t ts)
  unfolding read_key
  read_again n e = rw (read_key, v.found, (==_iff t.offset v.macro.len).1 e) refl

Delivers-earlier :
    (ms : List Macro) (ts us : List Thread) (r : Option (Got × List Thread))
    → pending ms ts ≡ pending ms us
    → Delivers ms us r
    → Delivers ms ts r
Delivers-earlier ms ts us r e (inl (c, ts', got, keys, w)) = inl (c, ts', got, e ∙ keys, w)
Delivers-earlier ms ts us r e (inr (got, none_left)) = inr (got, e ∙ none_left)

read_key-Delivers :
    (n : ℕ) (ms : List Macro) (ts : List Thread)
    → runs_left ts < n
    → AllRunning ms ts
    → Delivers ms ts (read_key n ms ts)
unfolding read_key
read_key-Delivers zero ms ts h v = absurd (omega arith)
read_key-Delivers (suc n) ms [] h v = inr (refl, refl)
read_key-Delivers (suc n) ms (t ∷ ts) h (v, w) = elim (ℕ_discrete t.offset v.macro.len) [
  | no inside ↦ read_char ms t ts v n (omega (arith, v.within)) w
  | yes e ↦
      let (same, w', fewer) = next_run-Continues ms t ts v (t.count - 1) refl e w in
      subst (Delivers ms (t ∷ ts)) (sym (read_again ms t ts v n e)) (
        Delivers-earlier ms (t ∷ ts) (next_run t ts) (read_key n ms (next_run t ts)) same
          (read_key-Delivers n ms (next_run t ts) (omega arith) w'))
]

-- While the macros that run are in the list, with their places within them, `mac_getc` returns
-- the first key of what they still have to give, and leaves the others; where there is none it
-- returns EOF, with no macro running any more. It calls itself at most once for each run that is
-- left, and never reads behind a body.
pub mac_getc-Delivers :
    (ms : List Macro) (ts : List Thread) → AllRunning ms ts → Delivers ms ts (mac_getc ms ts)
unfolding mac_getc
mac_getc-Delivers ms ts v = read_key-Delivers (suc (runs_left ts)) ms ts (omega arith) v
