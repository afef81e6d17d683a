-- ===== src/Dotenv/Interpolate.antt =====
-- `$VAR` and `${VAR…}` (internal/dotenv/parse.go).
pub mod Laws
use gonest.Prelude.{
  ℕ, zero, suc, List, [], ◌∷◌, ◌++◌, Bool, true, false, ◌||◌, ◌&&◌, not, Option, none, some, ◌==◌,
  leb, if◌then◌else◌,
}
use gonest.Prelude.Bytes.{Bytes, bytes_eq}
use gonest.Dotenv.Bytes.{split_byte, split_at, strip_prefix}

-- The keys that were parsed before, the latest first, and the process environment.
abbrev pub Resolved : Type 0
Resolved = List (Bytes × Bytes)

abbrev pub Env : Type 0
Env = Bytes → Option Bytes

unfoldable pub lookup : Bytes → Resolved → Option Bytes
unfolding bytes_eq
lookup k [] = none
lookup k ((j, v) ∷ m) = if bytes_eq k j then some v else lookup k m

unfoldable pub is_var_name_start : ℕ → Bool
is_var_name_start c = c == b'_' || (leb b'a' c && leb c b'z') || (leb b'A' c && leb c b'Z')

unfoldable pub is_var_name_char : ℕ → Bool
unfolding is_var_name_start
is_var_name_char c = is_var_name_start c || (leb b'0' c && leb c b'9')

-- The longest prefix of name characters, and the rest.
unfoldable pub span_name : Bytes → Bytes × Bytes
unfolding is_var_name_char
span_name [] = ([], [])
span_name (c ∷ s) =
    let (name, rest) = span_name s in if is_var_name_char c then (c ∷ name, rest) else ([], c ∷ s)

pub data Operator : Type 0 where
  default_if_empty default_if_unset alternative_if_full alternative_if_set : Operator

abbrev pub Split : Type 0
Split = Bytes × Option (Operator × Bytes)

abbrev try_operator : Bytes → Operator → Bytes → Split → Split
unfolding split_at
try_operator candidate op inner other = elim (split_at candidate inner) [
  | none ↦ other
  | some (name, arg) ↦ (name, some (op, arg))
]

-- The candidates ":-", ":+", "-", "+" in this order.
unfoldable pub split_brace_operator : Bytes → Split
unfolding split_at try_operator
split_brace_operator inner = try_operator (b':' ∷ b'-' ∷ []) default_if_empty inner (
    try_operator (b':' ∷ b'+' ∷ []) alternative_if_full inner (
      try_operator (b'-' ∷ []) default_if_unset inner
        (try_operator (b'+' ∷ []) alternative_if_set inner (inner, none))))

abbrev pub or_empty : Option Bytes → Bytes
or_empty none = []
or_empty (some v) = v

-- What an operator makes of a variable; `none` is an unset one.
abbrev pub operate : Operator → Option Bytes → Bytes → Bytes
operate default_if_empty none arg = arg
operate default_if_empty (some []) arg = arg
operate default_if_empty (some (c ∷ v)) arg = c ∷ v
operate default_if_unset none arg = arg
operate default_if_unset (some v) arg = v
operate alternative_if_full none arg = []
operate alternative_if_full (some []) arg = []
operate alternative_if_full (some (c ∷ v)) arg = arg
operate alternative_if_set none arg = []
operate alternative_if_set (some v) arg = arg

abbrev pub write : Bytes → Option Bytes → Option Bytes
write out none = none
write out (some more) = some (out ++ more)

module _ (env : Env) (resolved : Resolved) where
  unfoldable pub lookup_var : Bytes → Option Bytes
  unfolding lookup
  lookup_var name = elim (lookup name resolved) [ some v ↦ some v | none ↦ env name ]

  abbrev resolve_split : Split → Bytes
  unfolding lookup_var
  resolve_split (name, none) = or_empty (lookup_var name)
  resolve_split (name, some (op, arg)) = operate op (lookup_var name) arg

  unfoldable pub resolve_brace_expr : Bytes → Bytes
  unfolding split_brace_operator resolve_split
  resolve_brace_expr inner = resolve_split (split_brace_operator inner)

  -- Behind "${": what the expression gives and what follows its "}", or the "$" alone.
  unfoldable pub brace : Bytes → Bytes × Bytes
  brace s = elim (split_byte b'}' s) [
    | none ↦ (b'$' ∷ [], b'{' ∷ s)
    | some (inner, rest) ↦ (resolve_brace_expr inner, rest)
  ]

  unfoldable pub variable : Bytes → Bytes × Bytes
  variable s = let (name, rest) = span_name s in (or_empty (lookup_var name), rest)

  -- One round of the loop: what it writes, and the text that is left.
  unfoldable pub piece : ℕ → Bytes → Bytes × Bytes
  piece c [] = (c ∷ [], [])
  piece c (next ∷ s) =
      if c == b'$'
      then (if next == b'{'
          then brace s
          else if is_var_name_start next
          then variable (next ∷ s)
          else (c ∷ [], next ∷ s))
      else (c ∷ [], next ∷ s)

  -- `none` means that the fuel ran out, see `resolve_interpolation-ne-none`.
  unfoldable pub interpolate : ℕ → Bytes → Option Bytes
  interpolate fuel [] = some []
  interpolate zero (c ∷ s) = none
  interpolate (suc fuel) (c ∷ s) = let (out, rest) = piece c s in write out (interpolate fuel rest)
