-- ===== src/Base/Strings.antt =====
-- What the program uses of Go's packages strings, unicode and encoding/hex. A text is a list of code
-- points; `len` counts the bytes of its UTF-8 form.
pub mod Split
use slay_push.Base.{
  false, ◌||◌, none, ◌&&◌, ◌∷◌, some, ltb, leb, [], ◌==◌, ◌+◌, ℕ, if◌then◌else◌, Option, List, Bool,
}
use Prim.Native.Char.{Char, code}
use Prim.Native.String.{String}

-- unicode.IsSpace.
abbrev is_space_code : ℕ → Bool
is_space_code c =
    (leb 9 c && leb c 13)
    || c == 32
    || c == 0x85
    || c == 0xa0
    || c == 0x1680
    || (leb 0x2000 c && leb c 0x200a)
    || c == 0x2028
    || c == 0x2029
    || c == 0x202f
    || c == 0x205f
    || c == 0x3000

is_space : Char → Bool
is_space c = is_space_code (code c)

char_eq : Char → Char → Bool
char_eq a b = code a == code b

-- How many bytes UTF-8 takes for a code point.
abbrev utf8_width : ℕ → ℕ
utf8_width c = if ltb c 0x80 then 1 else if ltb c 0x800 then 2 else if ltb c 0x10000 then 3 else 4

-- `len(s)`
unfoldable pub byte_len : String → ℕ
byte_len String.[] = 0
byte_len (String.◌∷◌ c s) = utf8_width (code c) + byte_len s

-- What follows the prefix, where the text has it.
unfoldable pub after_prefix : String → String → Option String
unfolding char_eq
after_prefix s String.[] = some s
after_prefix String.[] (String.◌∷◌ p ps) = none
after_prefix (String.◌∷◌ c s) (String.◌∷◌ p ps) = if char_eq c p then after_prefix s ps else none

unfoldable pub trim_left : String → String
unfolding is_space
trim_left String.[] = String.[]
trim_left (String.◌∷◌ c s) = if is_space c then trim_left s else String.◌∷◌ c s

snoc_trimmed : Char → String → String
unfolding is_space
snoc_trimmed c String.[] = if is_space c then String.[] else String.◌∷◌ c String.[]
snoc_trimmed c (String.◌∷◌ d s) = String.◌∷◌ c (String.◌∷◌ d s)

unfoldable pub trim_right : String → String
unfolding snoc_trimmed
trim_right String.[] = String.[]
trim_right (String.◌∷◌ c s) = snoc_trimmed c (trim_right s)

-- strings.TrimSpace.
unfoldable pub trim_space : String → String
trim_space s = trim_right (trim_left s)

snoc_line : Char → String → String
unfolding char_eq
snoc_line c String.[] = if code c == 13 || code c == 10 then String.[] else String.◌∷◌ c String.[]
snoc_line c (String.◌∷◌ d s) = String.◌∷◌ c (String.◌∷◌ d s)

-- strings.TrimRight, of carriage returns and line feeds.
unfoldable pub trim_line_end : String → String
unfolding snoc_line
trim_line_end String.[] = String.[]
trim_line_end (String.◌∷◌ c s) = snoc_line c (trim_line_end s)

-- The first piece and the others of strings.Split by one character.
split_into : Char → Char → String × List String → String × List String
unfolding char_eq
split_into sep c (s, ss) = if char_eq c sep then (String.[], s ∷ ss) else (String.◌∷◌ c s, ss)

split_pieces : Char → String → String × List String
unfolding split_into
split_pieces sep String.[] = (String.[], [])
split_pieces sep (String.◌∷◌ c s) = split_into sep c (split_pieces sep s)

-- strings.Split, by a separator of one character.
unfoldable pub split : Char → String → List String
unfolding split_pieces
split sep s = let (t, ts) = split_pieces sep s in t ∷ ts

-- strings.Contains, of one character.
unfoldable pub contains_char : Char → String → Bool
unfolding char_eq
contains_char c String.[] = false
contains_char c (String.◌∷◌ d s) = char_eq d c || contains_char c s
