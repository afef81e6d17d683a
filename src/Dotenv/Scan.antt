-- ===== src/Dotenv/Scan.antt =====
-- Quotes, escapes and inline comments (internal/dotenv/parse.go).
use gonest.Prelude.{ℕ, [], ◌∷◌, ◌++◌, ◌&&◌, Option, none, some, ◌==◌, if◌then◌else◌}
use gonest.Prelude.Bytes.{Bytes, bytes_eq}
use gonest.Dotenv.Bytes.{trim_space}

abbrev pub backslash : ℕ
backslash = 92

-- A comment starts at a `#` with a space before it, and the space goes with it.
unfoldable pub strip_bare_comment : Bytes → Bytes
strip_bare_comment [] = []
strip_bare_comment (a ∷ []) = a ∷ []
strip_bare_comment (a ∷ b ∷ s) =
    let rest = strip_bare_comment (b ∷ s) in if b == b'#' && a == b' ' then [] else a ∷ rest

unfoldable pub strip_quoted_trailing_comment : Bytes → Bytes → Bytes
unfolding strip_bare_comment trim_space bytes_eq
strip_quoted_trailing_comment content rest =
    let stripped = strip_bare_comment rest in
    if bytes_eq (trim_space stripped) [] then content else content ++ stripped

abbrev pub Extracted : Type 0
Extracted = Option (Bytes × Bytes)

abbrev pub written : Bytes → Extracted → Extracted
written b none = none
written b (some (content, rest)) = some (b ++ content, rest)

-- The loop of `extractDelimited`, behind the opening delimiter: the content, and what follows the
-- closing one; `none` is `errUnterminatedQuote`.
unfoldable pub extract : ℕ → Bytes → Extracted
extract delim [] = none
extract delim (c ∷ []) = if c == delim then some ([], []) else none
extract delim (c ∷ next ∷ s) =
    let behind = extract delim s in
    let further = extract delim (next ∷ s) in
    if c == backslash
    then (if next == delim then written (delim ∷ []) behind else written (c ∷ next ∷ []) behind)
    else if c == delim
    then some ([], next ∷ s)
    else written (c ∷ []) further

-- `extractDelimited(s, delim)`, which starts at index 1.
unfoldable pub extract_delimited : ℕ → Bytes → Extracted
unfolding extract
extract_delimited delim [] = none
extract_delimited delim (c ∷ s) = extract delim s

abbrev pub escape_of : ℕ → Option ℕ
escape_of c =
    if c == b'n'
    then some b'\n'
    else if c == b'r'
    then some b'\r'
    else if c == b't'
    then some b'\t'
    else if c == backslash
    then some backslash
    else none

unfoldable pub apply_escapes : Bytes → Bytes
apply_escapes [] = []
apply_escapes (c ∷ []) = c ∷ []
apply_escapes (c ∷ next ∷ s) =
    let behind = apply_escapes s in
    let further = apply_escapes (next ∷ s) in
    if c == backslash
    then elim (escape_of next) [ some e ↦ e ∷ behind | none ↦ c ∷ further ]
    else c ∷ further
