-- ===== src/Dotenv/Parse.antt =====
-- Values, lines and files (internal/dotenv/parse.go).
pub mod Quotes
pub mod Files
pub mod Reads
pub mod Malformed
use gonest.Prelude.{
  ℕ, zero, suc, ◌+◌, List, [], ◌∷◌, ◌++◌, Bool, true, false, Option, none, some, Result, ok, err,
  ◌>>=◌, ◌==◌, if◌then◌else◌, length,
}
use gonest.Prelude.Bytes.{Bytes, bytes_eq}
use gonest.Dotenv.Bytes.{trim_left, trim_cr, trim_space, split_byte, split_lines}
use gonest.Dotenv.Scan.{
  strip_bare_comment, strip_quoted_trailing_comment, extract_delimited, apply_escapes,
}
use gonest.Dotenv.Interpolate.{Env, Resolved, interpolate, or_empty}

-- `errUnterminatedQuote`, the only error of `parseValue`.
pub data ValueError : Type 0 where
  unterminated_quote : ValueError

-- The errors of `parseFile`, with the number of the line.
pub data FileError : Type 0 where
  malformed : ℕ → FileError
  unterminated : ℕ → FileError

abbrev pub backtick : ℕ
backtick = 96

abbrev pub single_quote : ℕ
single_quote = 39

abbrev pub double_quote : ℕ
double_quote = 34

-- An `envPair`.
pub record EnvPair : Type 0 where
  pub key : Bytes
  pub value : Bytes

abbrev pub finished : (Bytes → Bytes → Bytes) → Option (Bytes × Bytes) → Result ValueError Bytes
finished finish none = err unterminated_quote
finished finish (some (content, rest)) = ok (finish content rest)

module _ (env : Env) (resolved : Resolved) where
  -- The loop runs on enough fuel, so the case of `none` does not arise: `resolve_interpolation-ne-none`.
  unfoldable pub resolve_interpolation : Bytes → Bytes
  resolve_interpolation s = or_empty (interpolate env resolved (length s) s)

  abbrev delimited : ℕ → Bytes → (Bytes → Bytes → Bytes) → Result ValueError Bytes
  delimited delim s finish = finished finish (extract_delimited delim s)

  -- The dispatch on the first byte of the trimmed value.
  unfoldable pub parse_trimmed : Bytes → Result ValueError Bytes
  parse_trimmed [] = ok []
  parse_trimmed (c ∷ s) =
      if c == backtick
      then delimited backtick (c ∷ s) (λ content rest. content)
      else if c == single_quote
      then delimited single_quote (c ∷ s) strip_quoted_trailing_comment
      else if c == double_quote
      then delimited double_quote (c ∷ s) (λ content rest.
        resolve_interpolation (apply_escapes (strip_quoted_trailing_comment content rest)))
      else ok (resolve_interpolation (strip_bare_comment (c ∷ s)))

  unfoldable pub parse_value : Bytes → Result ValueError Bytes
  parse_value raw = parse_trimmed (trim_left raw)

-- `extractBacktickBlock`: the lines behind the first one are appended until the quote closes; the
-- content, and how many lines it took.
unfoldable pub extract_block : Bytes → List Bytes → ℕ → Option (Bytes × ℕ)
extract_block joined [] taken = elim (extract_delimited backtick joined) [
  | none ↦ none
  | some (content, rest) ↦ some (content, taken)
]
extract_block joined (line ∷ lines) taken =
    let longer = extract_block (joined ++ b'\n' ∷ trim_cr line) lines (suc taken) in
    elim (extract_delimited backtick joined) [
      | none ↦ longer
      | some (content, rest) ↦ some (content, taken)
    ]

-- What a line gives: nothing, or a pair and the number of further lines that it took.
pub data Line : Type 0 where
  ignored : Line
  pair : EnvPair → ℕ → Line

abbrev pub block_or_error : ℕ → Bytes → Bytes → List Bytes → Result FileError Line
block_or_error line_no key trimmed lines = elim (extract_block trimmed lines 0) [
  | none ↦ err (unterminated line_no)
  | some (content, taken) ↦ ok (pair (record { key = key; value = content }) taken)
]

-- Only a backtick quote may close on a later line.
unfoldable pub retry : ℕ → Bytes → Bytes → List Bytes → Result FileError Line
retry line_no key [] lines = err (unterminated line_no)
retry line_no key (c ∷ s) lines =
    if c == backtick then block_or_error line_no key (c ∷ s) lines else err (unterminated line_no)

abbrev pub pair_or_retry :
    ℕ → Bytes → Bytes → List Bytes → Result ValueError Bytes → Result FileError Line
pair_or_retry line_no key expr lines (ok value) = ok (pair (record { key = key; value = value }) 0)
pair_or_retry line_no key expr lines (err unterminated_quote) =
    retry line_no key (trim_left expr) lines

module _ (env : Env) where
  unfoldable pub parse_pair : Resolved → ℕ → Bytes → Bytes → List Bytes → Result FileError Line
  parse_pair resolved line_no key expr lines =
      pair_or_retry line_no key expr lines (parse_value env resolved expr)

  abbrev parse_split : Resolved → ℕ → List Bytes → Option (Bytes × Bytes) → Result FileError Line
  parse_split resolved line_no lines none = err (malformed line_no)
  parse_split resolved line_no lines (some (key, expr)) =
      parse_pair resolved line_no (trim_space key) expr lines

  -- A trimmed line: blank, a comment, or a key and a value.
  unfoldable pub parse_line : Resolved → ℕ → Bytes → List Bytes → Result FileError Line
  parse_line resolved line_no [] lines = ok ignored
  parse_line resolved line_no (c ∷ s) lines =
      if c == b'#' then ok ignored else parse_split resolved line_no lines (split_byte b'=' (c ∷ s))

  -- The loop of `parseFile`; `skip` counts lines that a block has taken, `line_no` is `idx + 1`.
  unfoldable pub parse_lines : List Bytes → ℕ → ℕ → Resolved → Result FileError (List EnvPair)
  parse_lines [] line_no skip resolved = ok []
  parse_lines (line ∷ lines) line_no (suc skip) resolved =
      parse_lines lines (suc line_no) skip resolved
  parse_lines (line ∷ lines) line_no zero resolved =
      parse_line resolved line_no (trim_left (trim_cr line)) lines >>= elim [
        | ignored ↦ parse_lines lines (suc line_no) 0 resolved
        | pair p taken ↦
            parse_lines lines (suc line_no) taken ((p.key, p.value) ∷ resolved) >>= λ pairs.
            ok (p ∷ pairs)
      ]

  unfoldable pub parse_file : Bytes → Result FileError (List EnvPair)
  parse_file raw = parse_lines (split_lines raw) 1 0 []
