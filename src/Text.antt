-- ===== src/Text.antt =====
-- The functions of Go's `strings` and `strconv` that the source calls, over bytes.
-- White space is what `unicode.IsSpace` says of the UTF-8 text; `to_lower` and `to_upper` map the
-- letters of ASCII and leave every other byte as it is.
pub mod Trim
pub mod Split
pub mod Decimal
use run_pilot.Prelude.{
  Bool, List, Option, [], false, if◌then◌else◌, leb, ltb, map, none, reverse, some, suc, true, zero,
  ℕ, ◌&&◌, ◌++◌, ◌+◌, ◌-◌, ◌==◌, ◌||◌, ◌∷◌,
}
use run_pilot.Prelude.Bytes.{Bytes}

is_ascii_space : ℕ → Bool
is_ascii_space c = leb 9 c && leb c 13 || c == 32

-- U+0085 and U+00A0.
is_space2 : ℕ → ℕ → Bool
is_space2 a b = a == 0xc2 && (b == 0x85 || b == 0xa0)

-- U+1680, U+2000 to U+200A, U+2028, U+2029, U+202F, U+205F and U+3000.
is_space3 : ℕ → ℕ → ℕ → Bool
is_space3 a b c =
    a == 0xe1 && (b == 0x9a && c == 0x80)
    || a == 0xe2
      && (b == 0x80 && (leb 0x80 c && leb c 0x8a || (c == 0xa8 || (c == 0xa9 || c == 0xaf)))
          || b == 0x81 && c == 0x9f)
    || a == 0xe3 && (b == 0x80 && c == 0x80)

-- The bytes of the white space that the text begins with, or 0.
pub space_width : Bytes → ℕ
unfolding is_ascii_space is_space2 is_space3
space_width [] = 0
space_width (a ∷ []) = if is_ascii_space a then 1 else 0
space_width (a ∷ b ∷ []) = if is_ascii_space a then 1 else if is_space2 a b then 2 else 0
space_width (a ∷ b ∷ c ∷ s) =
    if is_ascii_space a then 1 else if is_space2 a b then 2 else if is_space3 a b c then 3 else 0

-- The same of a text that is read from its end.
pub space_width_back : Bytes → ℕ
unfolding is_ascii_space is_space2 is_space3
space_width_back [] = 0
space_width_back (a ∷ []) = if is_ascii_space a then 1 else 0
space_width_back (b ∷ a ∷ []) = if is_ascii_space b then 1 else if is_space2 a b then 2 else 0
space_width_back (c ∷ b ∷ a ∷ s) =
    if is_ascii_space c then 1 else if is_space2 b c then 2 else if is_space3 a b c then 3 else 0

-- Drops `k` bytes, and then the white space that `width` measures.
pub drop_spaces : (Bytes → ℕ) → ℕ → Bytes → Bytes
drop_spaces width k [] = []
drop_spaces width (suc k) (c ∷ s) = drop_spaces width k s
drop_spaces width zero (c ∷ s) = elim (width (c ∷ s)) [
  | zero ↦ c ∷ s
  | suc k ↦ drop_spaces width k s
]

unfoldable pub trim_space : Bytes → Bytes
unfolding drop_spaces space_width space_width_back
trim_space s = reverse (drop_spaces space_width_back 0 (reverse (drop_spaces space_width 0 s)))

-- The word in hand, if there is one, before the words that follow.
flush : Bytes → List Bytes → List Bytes
flush [] words = words
flush (c ∷ s) words = (c ∷ s) ∷ words

fields_from : ℕ → Bytes → Bytes → List Bytes
fields_from k word [] = flush word []
fields_from (suc k) word (c ∷ s) = fields_from k word s
fields_from zero word (c ∷ s) = elim (space_width (c ∷ s)) [
  | zero ↦ fields_from zero (word ++ c ∷ []) s
  | suc k ↦ flush word (fields_from k [] s)
]

-- `strings.Fields`.
unfoldable pub fields : Bytes → List Bytes
unfolding fields_from flush space_width
fields s = fields_from 0 [] s

prepend : ℕ → List Bytes → List Bytes
prepend c [] = (c ∷ []) ∷ []
prepend c (part ∷ parts) = (c ∷ part) ∷ parts

-- `strings.Split` at a separator of one byte.
unfoldable pub split : Bytes → ℕ → List Bytes
unfolding prepend
split [] sep = [] ∷ []
split (c ∷ s) sep = let rest = split s sep in if c == sep then [] ∷ rest else prepend c rest

unfoldable pub contains : Bytes → ℕ → Bool
contains [] c = false
contains (d ∷ s) c = d == c || contains s c

unfoldable pub has_prefix : Bytes → Bytes → Bool
has_prefix s [] = true
has_prefix [] (p ∷ ps) = false
has_prefix (c ∷ s) (p ∷ ps) = c == p && has_prefix s ps

-- `s` without the prefix, if it has it.
cut_prefix : Bytes → Bytes → Option Bytes
cut_prefix s [] = some s
cut_prefix [] (p ∷ ps) = none
cut_prefix (c ∷ s) (p ∷ ps) = let rest = cut_prefix s ps in if c == p then rest else none

unfoldable pub trim_prefix : Bytes → Bytes → Bytes
unfolding cut_prefix
trim_prefix s prefix = elim (cut_prefix s prefix) [ none ↦ s | some rest ↦ rest ]

lower : ℕ → ℕ
lower c = if leb b'A' c && leb c b'Z' then c + 32 else c

upper : ℕ → ℕ
upper c = if leb b'a' c && leb c b'z' then c - 32 else c

unfoldable pub to_lower : Bytes → Bytes
unfolding lower
to_lower = map lower

unfoldable pub to_upper : Bytes → Bytes
unfolding upper
to_upper = map upper

-- The order of strings, byte by byte.
unfoldable pub str_lt : Bytes → Bytes → Bool
str_lt s [] = false
str_lt [] (b ∷ t) = true
str_lt (a ∷ s) (b ∷ t) = ltb a b || a == b && str_lt s t
