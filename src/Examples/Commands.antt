-- ===== src/Examples/Commands.antt =====
-- Macros, formats and key maps.
use jove.Base.{
  ℕ, zero, suc, ◌≡◌, ◌<◌, refl, List, [], ◌∷◌, true, false, none, some, inr, arith, if◌then◌else◌,
  ◌==◌,
}
use jove.Base.Int.{pos, negsuc, ◌-ℤ◌}
use jove.Outcome.{◌>>=◌, unknown_directive}
use jove.Macros.{
  do_macro, char, Macro, Thread, MacroState, mac_getc, mac_def, remember, forget, stray,
}
use jove.Macros.Pending.{AllRunning, Delivers, mac_getc-Delivers}
use jove.Macros.Recording.{
  Stroke, dispatched, undispatched, type_key, type_keys, Defines, forget-Defines,
}
use jove.Macros.Stack.{Once, Reach, here, next, Reach-Once, mac_def-stray, start, read}
use jove.Macros.Written
use jove.Macros.Written.{write_body, read_body, read_body-write_body}
use jove.KillRing.{shift_up}
use jove.Chars.{is_digit, is_lower, char_upcase}
use jove.Format.{number_state, put_digits, digit_char, pad, chr_to_long, putld, number}
use jove.Format.Digits.{plain, chr_to_long-putld}
use jove.Format.Directives.{
  do_format, on_directive, long_letter, directive, read_number, switch, long, int, text, refused,
}
use jove.Format.Items.{Item, literal, percent, field, digits, star, int_in, string_of, hex, render}
use jove.Keymap.{
  Binding, key_at, value_at, find_key, narrow, settled, inserted, put_in, Sparse, sparse, km_setkey,
  km_getkey,
}
use jove.Keymap.Search.{IsValid}
use jove.Keymap.Scan.{view, km_getkey-view}
use jove.Keymap.Set.{Rebinds, km_setkey-Rebinds}

-- The keyboard macro is empty, and the macro "m" holds "ab".
abbrev two_macros : List Macro
two_macros =
    record { name = []; len = 0; body = [] }
    ∷ record { name = b'm' ∷ []; len = 2; body = b'a' ∷ b'b' ∷ [] }
    ∷ []

-- "m" runs twice, and has given its first key.
abbrev running_m : List Thread
running_m = record { macro = 1; offset = 1; count = 2 } ∷ []

running_m-AllRunning : AllRunning two_macros running_m
running_m-AllRunning = (
  record {
    macro = record { name = b'm' ∷ []; len = 2; body = b'a' ∷ b'b' ∷ [] };
    found = refl;
    within = omega arith;
    stored = omega arith;
    runs = omega arith;
  },
  tt,
)

mac_getc-Delivers_example : Delivers two_macros running_m (mac_getc two_macros running_m)
mac_getc-Delivers_example = mac_getc-Delivers two_macros running_m running_m-AllRunning

abbrev idle : MacroState
idle = record { macros = two_macros; stack = []; in_define = false; kmac_len = 0; unsaved = false }

abbrev busy : MacroState
busy = record idle { stack = running_m }

-- The commands "^F" and "^X^S".
abbrev two_commands : List Stroke
two_commands = dispatched 6 ∷ dispatched 24 ∷ undispatched 19 ∷ []

-- "ESC X", the answer "end" and Return, which is not dispatched: "ESC X e n" stays in the macro.
abbrev by_name : List Stroke
by_name = dispatched 27 ∷ undispatched b'X' ∷ dispatched b'e' ∷ dispatched b'n' ∷ []

ended_by_name :
    Defines
      (27 ∷ b'X' ∷ b'e' ∷ b'n' ∷ [])
      (record { name = b'm' ∷ []; len = 2; body = b'a' ∷ b'b' ∷ [] } ∷ [])
      (remember false idle >>= λ s.
        forget
          (type_keys (undispatched 13 ∷ []) (type_key (dispatched b'd') (type_keys by_name s))))
ended_by_name =
    forget-Defines (record { name = []; len = 0; body = [] }) _ by_name b'd' (13 ∷ []) idle refl
      refl refl

-- "m" starts and gives a key.
started : Reach idle busy
unfolding do_macro mac_getc
started =
    next
      (next here (
        start 1 (pos 2) (record idle { stack = record { macro = 1; offset = 0; count = 2 } ∷ [] })
          refl))
      (read (char b'a') running_m refl)

Reach-Once_example : Once busy.stack
Reach-Once_example = Reach-Once idle busy tt started

mac_def-stray_example :
    mac_getc (mac_def false (some 1) (b'm' ∷ []) 0 [] busy).macros busy.stack
    ≡ some (stray, running_m)
mac_def-stray_example =
    mac_def-stray false (b'm' ∷ []) 0 [] busy (record { macro = 1; offset = 1; count = 2 }) [] _
      refl refl (omega arith)

-- "a", "^A", a backslash and DEL.
read_body-write_body_example :
    read_body 0 (write_body (b'a' ∷ 1 ∷ 92 ∷ 127 ∷ [])) ≡ Written.keys (b'a' ∷ 1 ∷ 92 ∷ 127 ∷ [])
read_body-write_body_example =
    read_body-write_body 0 (b'a' ∷ 1 ∷ 92 ∷ 127 ∷ []) (omega arith) (omega arith)

chr_to_long-putld_example : chr_to_long (putld plain (negsuc 41) 10) 10 true ≡ number (negsuc 41)
chr_to_long-putld_example = chr_to_long-putld 10 (negsuc 41) true (inr refl) (omega arith)

-- "%3d|" and "%s" with its argument missing.
abbrev number_format : List ℕ
number_format = b'%' ∷ b'3' ∷ b'd' ∷ b'|' ∷ []

do_format_number :
    do_format 5 [] number_format (int (negsuc 6) ∷ []) ≡ text (32 ∷ b'-' ∷ b'7' ∷ b'|' ∷ [])
unfolding do_format on_directive directive read_number is_digit switch putld number_state put_digits
    digit_char pad ◌-ℤ◌
do_format_number = refl

-- "x%%%-*x%5.2s", with 4, 255 and "abc".
abbrev items : List Item
items =
    literal b'x'
    ∷ percent
    ∷ field (record { left = true; zeros = false; width = star 4; precision = none })
        (int_in hex (pos 255))
    ∷ field
        (record {
          left = false;
          zeros = false;
          width = digits (5 ∷ []);
          precision = some (digits (2 ∷ []));
        })
        (string_of (some (b'a' ∷ b'b' ∷ b'c' ∷ [])))
    ∷ []

shown_as_meant :
    render [] items ≡ b'x' ∷ b'%' ∷ b'f' ∷ b'f' ∷ 32 ∷ 32 ∷ 32 ∷ 32 ∷ 32 ∷ b'a' ∷ b'b' ∷ []
unfolding put_digits digit_char
shown_as_meant = refl

-- "%ld" is refused.
long_refused :
    do_format 5 [] (b'%' ∷ b'l' ∷ b'd' ∷ []) (long (pos 7) ∷ []) ≡ refused (unknown_directive 0) []
unfolding do_format on_directive long_letter directive read_number is_digit switch char_upcase
    is_lower
long_refused = refl

-- A sparse map of "a" and "c".
abbrev small_map : Sparse ℕ
small_map = record {
  bindings = λ i.
      if i == 0
      then some (record { key = b'a'; value = 10 })
      else if i == 1
      then some (record { key = b'c'; value = 20 })
      else none;
  nused = 2;
  nalloc = 8;
}

small_map-IsValid : IsValid small_map
unfolding key_at
small_map-IsValid = record { in_use = in_use; rising = rising; room = omega arith }
  where
    in_use : (i : ℕ) → i < 2 → (b : Binding ℕ) × (small_map.bindings i ≡ some b)
    in_use zero h = (record { key = b'a'; value = 10 }, refl)
    in_use (suc zero) h = (record { key = b'c'; value = 20 }, refl)
    in_use (suc (suc i)) h = absurd (omega arith)

    rising : (i j : ℕ) → i < j → j < 2 → key_at small_map.bindings i < key_at small_map.bindings j
    rising zero zero lt h = absurd (omega arith)
    rising zero (suc zero) lt h = omega arith
    rising i (suc (suc j)) lt h = absurd (omega arith)
    rising (suc i) (suc zero) lt h = absurd (omega arith)
    rising (suc i) zero lt h = absurd (omega arith)

km_setkey-Rebinds_example :
    Rebinds (sparse small_map) b'b' (some 30) (km_setkey (sparse small_map) b'b' (some 30))
km_setkey-Rebinds_example = km_setkey-Rebinds (sparse small_map) b'b' (some 30) small_map-IsValid

km_getkey-view_example : km_getkey (sparse small_map) b'c' ≡ view (sparse small_map) b'c'
km_getkey-view_example = km_getkey-view (sparse small_map) b'c' small_map-IsValid

set_then_get : km_getkey (km_setkey (sparse small_map) b'b' (some 30)) b'c' ≡ some 20
unfolding km_getkey km_setkey find_key narrow settled key_at value_at inserted put_in shift_up
set_then_get = refl
