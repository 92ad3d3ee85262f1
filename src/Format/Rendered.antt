-- ===== src/Format/Rendered.antt =====
-- The text that `doformat` (fmt.c) puts for the items of a format.
use jove.Base.{ℕ, [], ◌++◌, Bool, false, none, if◌then◌else◌, length}
use jove.Base.Int.{ℤ, pos, ◌-ℤ◌}
use jove.Buffer.{Text}
use jove.Format.{FmtState, pad}
use jove.Format.Items.{digits, Layout, count, precision_of, fill_of}
use jove.Format.Reading.{state_of}

-- What `putld` and `fmt_puts` put around a text.
abbrev padded : Bool → ℕ → ℤ → Text → Text
padded left c w t =
    let padding = pad c (w -ℤ pos (length t)) in if left then t ++ padding else padding ++ t

abbrev state_for : Layout → FmtState
state_for y = state_of y.left (fill_of y) (count y.width) (precision_of y)

abbrev plain : Layout
plain = record { left = false; zeros = false; width = digits []; precision = none }
