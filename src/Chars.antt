-- ===== src/Chars.antt =====
-- Character classes (jctype.h and jctype.c), for the tables without ISO_8859_1: the upper half of
-- the character set is not printable and belongs to no class. A byte is a number below 256.
use jove.Base.{ℕ, ◌+◌, ◌-◌, Bool, ◌&&◌, ◌||◌, leb, ◌==◌, if◌then◌else◌}

abbrev pub between : ℕ → ℕ → ℕ → Bool
between lo hi c = leb lo c && leb c hi

-- The rows of `CharTable`.
unfoldable pub is_upper : ℕ → Bool
is_upper c = between b'A' b'Z' c

unfoldable pub is_lower : ℕ → Bool
is_lower c = between b'a' b'z' c

unfoldable pub is_digit : ℕ → Bool
is_digit c = between b'0' b'9' c

-- `jisword`: C_WORD.
unfoldable pub is_word : ℕ → Bool
unfolding is_upper is_lower is_digit
is_word c = is_upper c || is_lower c || is_digit c

-- `jisprint`: C_PRINT.
unfoldable pub is_print : ℕ → Bool
is_print c = between 32 126 c

-- `jiswhite`.
unfoldable pub is_white : ℕ → Bool
is_white c = c == 32 || c == 9

-- `CharUpcase` and `CharDowncase`.
unfoldable pub char_upcase : ℕ → ℕ
unfolding is_lower
char_upcase c = if is_lower c then c - 32 else c

unfoldable pub char_downcase : ℕ → ℕ
unfolding is_upper
char_downcase c = if is_upper c then c + 32 else c

unfoldable pub cind_eq : ℕ → ℕ → Bool
unfolding char_upcase
cind_eq a b = char_upcase a == char_upcase b

-- The major modes of buf.h, built without LISP.
pub data Major : Type 0 where
  fundamental text_mode c_mode : Major

-- `jisident`, by `IdChartable`: text mode adds the quote, C mode the underscore.
unfoldable pub is_ident : Major → ℕ → Bool
unfolding is_word
is_ident fundamental c = is_word c
is_ident text_mode c = is_word c || c == 39
is_ident c_mode c = is_word c || c == 95
