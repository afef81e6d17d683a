-- ===== src/Dotenv/Bytes.antt =====
-- Byte strings, and the functions of Go's package strings that the parser calls.
use gonest.Prelude.{
  ℕ, zero, suc, ◌-◌, List, [], ◌∷◌, Bool, ◌&&◌, ◌||◌, Option, none, some, ◌==◌, leb, if◌then◌else◌,
}
use gonest.Prelude.Bytes.{Bytes}
use mathlib.Core.List.{reverse}

-- `strings.TrimLeft(s, " \t")`
unfoldable pub trim_left : Bytes → Bytes
trim_left [] = []
trim_left (c ∷ s) = let rest = trim_left s in if c == b' ' || c == b'\t' then rest else c ∷ s

-- `strings.TrimSuffix(line, "\r")`
unfoldable pub trim_cr : Bytes → Bytes
trim_cr [] = []
trim_cr (c ∷ []) = if c == b'\r' then [] else c ∷ []
trim_cr (c ∷ d ∷ s) = c ∷ trim_cr (d ∷ s)

-- The length of the white-space rune at the front: the ASCII ones, U+0085, U+00A0, U+1680,
-- U+2000 to U+200A, U+2028, U+2029, U+202F, U+205F and U+3000 in UTF-8.
ascii_space : ℕ → Bool
ascii_space c = c == 32 || leb 9 c && leb c 13

space_2 : ℕ → ℕ → Bool
space_2 a b = a == 0xC2 && (b == 0x85 || b == 0xA0)

space_3 : ℕ → ℕ → ℕ → Bool
space_3 a b c =
    a == 0xE1 && b == 0x9A && c == 0x80
    || a == 0xE2 && b == 0x80 && (leb 0x80 c && leb c 0x8A || c == 0xA8 || c == 0xA9 || c == 0xAF)
    || a == 0xE2 && b == 0x81 && c == 0x9F
    || a == 0xE3 && b == 0x80 && c == 0x80

space_first : Bytes → ℕ
unfolding ascii_space space_2 space_3
space_first [] = 0
space_first (a ∷ []) = if ascii_space a then 1 else 0
space_first (a ∷ b ∷ []) = if ascii_space a then 1 else if space_2 a b then 2 else 0
space_first (a ∷ b ∷ c ∷ s) =
    if ascii_space a then 1 else if space_2 a b then 2 else if space_3 a b c then 3 else 0

-- The same at the end of a string that is given in reverse.
space_last : Bytes → ℕ
unfolding ascii_space space_2 space_3
space_last [] = 0
space_last (a ∷ []) = if ascii_space a then 1 else 0
space_last (a ∷ b ∷ []) = if ascii_space a then 1 else if space_2 b a then 2 else 0
space_last (a ∷ b ∷ c ∷ s) =
    if ascii_space a then 1 else if space_2 b a then 2 else if space_3 c b a then 3 else 0

-- Drops runes that `space` measures; the number is what is left of a rune to drop.
drop_spaces : (Bytes → ℕ) → ℕ → Bytes → Bytes
drop_spaces space n [] = []
drop_spaces space (suc n) (c ∷ s) = drop_spaces space n s
drop_spaces space zero (c ∷ s) =
    let n = space (c ∷ s) in
    let rest = drop_spaces space (n - 1) s in if n == 0 then c ∷ s else rest

-- `strings.TrimSpace`
unfoldable pub trim_space : Bytes → Bytes
unfolding drop_spaces space_first space_last
trim_space s = reverse (drop_spaces space_last 0 (reverse (drop_spaces space_first 0 s)))

-- `strings.IndexByte` and `strings.Index`, as the parts before and after the match.
unfoldable pub split_byte : ℕ → Bytes → Option (Bytes × Bytes)
split_byte c [] = none
split_byte c (d ∷ s) =
    let rest = split_byte c s in
    if d == c
    then some ([], s)
    else elim rest [ none ↦ none | some (before, after) ↦ some (d ∷ before, after) ]

unfoldable pub strip_prefix : Bytes → Bytes → Option Bytes
strip_prefix [] s = some s
strip_prefix (p ∷ ps) [] = none
strip_prefix (p ∷ ps) (c ∷ s) = let rest = strip_prefix ps s in if p == c then rest else none

shift : ℕ → Option (Bytes × Bytes) → Option (Bytes × Bytes)
shift c none = none
shift c (some (before, after)) = some (c ∷ before, after)

unfoldable pub split_at : Bytes → Bytes → Option (Bytes × Bytes)
unfolding strip_prefix shift
split_at pattern_ [] = elim (strip_prefix pattern_ []) [
  | none ↦ none
  | some after ↦ some ([], after)
]
split_at pattern_ (c ∷ s) =
    let rest = split_at pattern_ s in
    elim (strip_prefix pattern_ (c ∷ s)) [ none ↦ shift c rest | some after ↦ some ([], after) ]

abbrev pub add_byte : ℕ → List Bytes → List Bytes
add_byte c [] = []
add_byte c (line ∷ lines) = if c == b'\n' then [] ∷ line ∷ lines else (c ∷ line) ∷ lines

-- `strings.Split(s, "\n")`
unfoldable pub split_lines : Bytes → List Bytes
split_lines [] = [] ∷ []
split_lines (c ∷ s) = add_byte c (split_lines s)
