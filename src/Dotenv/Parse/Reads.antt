-- ===== src/Dotenv/Parse/Reads.antt =====
-- What a line gives, with the lines behind it: it reads only those that it takes.
use gonest.Prelude.{
  ℕ, suc, ◌+◌, ◌≤◌, List, [], ◌∷◌, ◌++◌, Option, none, some, some-injective, Result, ok, err,
  ok-injective, ◌≡◌, refl, ap, ◌∙◌, subst, arith, length, ◌==◌, Bool-cases, Option-cases, inl, inr,
}
use gonest.Prelude.Bytes.{Bytes}
use gonest.Dotenv.Bytes.{trim_left, trim_cr, trim_space, split_byte}
use gonest.Dotenv.Scan.{extract_delimited}
use gonest.Dotenv.Interpolate.{Env, Resolved}
use gonest.Dotenv.Parse.{
  ValueError, unterminated_quote, FileError, Line, ignored, pair, backtick, extract_block, retry,
  block_or_error, pair_or_retry, parse_value, parse_pair, parse_split, parse_line,
}

closed_at_once :
    (more : List Bytes) (joined : Bytes) (taken : ℕ) (c rest : Bytes)
    → extract_delimited backtick joined ≡ some (c, rest)
    → extract_block joined more taken ≡ some (c, taken)
unfolding extract_block
closed_at_once [] joined taken c rest closes = rw (closes, extract_block) refl
closed_at_once (line ∷ more) joined taken c rest closes = rw (closes, extract_block) refl

no_more_taken :
    (c content : Bytes) (taken t n : ℕ)
    → ◌≡◌ {A = Option (Bytes × ℕ)} (some (c, taken)) (some (content, t))
    → t ≤ taken + n
no_more_taken c content taken t n e =
    let both : ◌≡◌ {A = Bytes × ℕ} (c, taken) (content, t) = some-injective e in
    let same : taken ≡ t = ap (λ o. o.1) both in omega arith

-- A block that closes is the same, whatever lines come behind, and takes only lines that are there.
extract_block-append :
    (lines more : List Bytes) (joined : Bytes) (taken : ℕ) (content : Bytes) (t : ℕ)
    → extract_block joined lines taken ≡ some (content, t)
    → (extract_block joined (lines ++ more) taken ≡ some (content, t)) × (t ≤ taken + length lines)
unfolding extract_block
extract_block-append [] more joined taken content t e =
    elim (Option-cases (extract_delimited backtick joined)) [
      | inl still_open ↦ (let k = (rw (still_open, extract_block) at e) in cc)
      | inr ((c, rest), closes) ↦
          (let k : some (c, taken) ≡ some (content, t) = (rw (closes, extract_block) at e) in
            (
              closed_at_once more joined taken c rest closes ∙ k,
              no_more_taken c content taken t 0 k,
            ))
    ]
extract_block-append (line ∷ lines) more joined taken content t e =
    elim (Option-cases (extract_delimited backtick joined)) [
      | inl still_open ↦
          (let k : extract_block (joined ++ b'\n' ∷ trim_cr line) lines (suc taken)
                ≡ some (content, t) =
              (rw (still_open, extract_block) at e) in
            let (same, within) =
              extract_block-append lines more (joined ++ b'\n' ∷ trim_cr line) (suc taken) content t
                k in
            (rw (still_open, extract_block) same, omega arith))
      | inr ((c, rest), closes) ↦
          (let k : some (c, taken) ≡ some (content, t) = (rw (closes, extract_block) at e) in
            (
              closed_at_once ((line ∷ lines) ++ more) joined taken c rest closes ∙ k,
              no_more_taken c content taken t (length (line ∷ lines)) k,
            ))
    ]

-- The further lines that a line takes.
abbrev pub taken_by : Line → ℕ
taken_by ignored = 0
taken_by (pair p taken) = taken

-- What a line gives does not depend on the lines behind those that it takes.
abbrev pub Reads : (List Bytes → Result FileError Line) → List Bytes → List Bytes → Line → Type 0
Reads read lines more result = (read (lines ++ more) ≡ ok result) × (taken_by result ≤ length lines)

block_or_error-Reads :
    (line_no : ℕ) (key s : Bytes) (lines more : List Bytes) (result : Line)
    → block_or_error line_no key s lines ≡ ok result
    → Reads (block_or_error line_no key s) lines more result
block_or_error-Reads line_no key s lines more result e =
    elim (Option-cases (extract_block s lines 0)) [
      | inl nothing ↦ (let k = (rw (nothing, block_or_error) at e) in cc)
      | inr ((content, t), found) ↦
          (let k : ◌≡◌ {A = Result FileError Line}
                (ok (pair (record { key = key; value = content }) t)) (ok result) =
              (rw (found, block_or_error) at e) in
            let (same, within) = extract_block-append lines more s 0 content t found in
            (
              rw (same, block_or_error) k,
              subst (λ r. taken_by r ≤ length lines) (ok-injective k) (omega arith),
            ))
    ]

retry-Reads :
    (line_no : ℕ) (key s : Bytes) (lines more : List Bytes) (result : Line)
    → retry line_no key s lines ≡ ok result
    → Reads (retry line_no key s) lines more result
unfolding retry
retry-Reads line_no key [] lines more result e = cc
retry-Reads line_no key (c ∷ s) lines more result e = elim (Bool-cases (c == backtick)) [
  | inl block ↦
      rw block (block_or_error-Reads line_no key (c ∷ s) lines more result (rw (block, retry) at e))
  | inr other ↦ (let k = (rw (other, retry) at e) in cc)
]

pair_or_retry-Reads :
    (value : Result ValueError Bytes) (line_no : ℕ) (key expr : Bytes) (lines more : List Bytes)
    (result : Line)
    → pair_or_retry line_no key expr lines value ≡ ok result
    → Reads (λ ls. pair_or_retry line_no key expr ls value) lines more result
pair_or_retry-Reads (ok value) line_no key expr lines more result e =
    (e, subst (λ r. taken_by r ≤ length lines) (ok-injective e) (omega arith))
pair_or_retry-Reads (err unterminated_quote) line_no key expr lines more result e =
    retry-Reads line_no key (trim_left expr) lines more result e

module _ (env : Env) where
  parse_split-Reads :
      (split : Option (Bytes × Bytes)) (resolved : Resolved) (line_no : ℕ) (lines more : List Bytes)
      (result : Line)
      → parse_split env resolved line_no lines split ≡ ok result
      → Reads (λ ls. parse_split env resolved line_no ls split) lines more result
  unfolding parse_pair
  parse_split-Reads none resolved line_no lines more result e = cc
  parse_split-Reads (some (key, expr)) resolved line_no lines more result e =
      pair_or_retry-Reads (parse_value env resolved expr) line_no (trim_space key) expr lines more
        result e

  pub parse_line-Reads :
      (s : Bytes) (resolved : Resolved) (line_no : ℕ) (lines more : List Bytes) (result : Line)
      → parse_line env resolved line_no s lines ≡ ok result
      → Reads (parse_line env resolved line_no s) lines more result
  unfolding parse_line
  parse_line-Reads [] resolved line_no lines more result e =
      (e, subst (λ r. taken_by r ≤ length lines) (ok-injective e) (omega arith))
  parse_line-Reads (c ∷ s) resolved line_no lines more result e = elim (Bool-cases (c == b'#')) [
    | inl comment ↦
        (let k : ◌≡◌ {A = Result FileError Line} (ok ignored) (ok result) =
            (rw (comment, parse_line) at e) in
          (rw comment k, subst (λ r. taken_by r ≤ length lines) (ok-injective k) (omega arith)))
    | inr other ↦ rw other (
        parse_split-Reads (split_byte b'=' (c ∷ s)) resolved line_no lines more result
          (rw (other, parse_line) at e))
  ]
