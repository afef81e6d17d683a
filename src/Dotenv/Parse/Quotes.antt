-- ===== src/Dotenv/Parse/Quotes.antt =====
-- A value that is written in double quotes is read back.
use gonest.Prelude.{
  ℕ, [], ◌∷◌, ◌++◌, true, false, Option, none, some, ok, ◌≡◌, ◌≢◌, refl, arith, ◌==◌, if◌then◌else◌,
  length, append_assoc,
}
use native.Mathlib.Nat.{le_refl}
use gonest.Prelude.Members.{contains}
use gonest.Prelude.Bytes.{Bytes, bytes_eq}
use gonest.Dotenv.Bytes.{trim_space, trim_left}
use gonest.Dotenv.Scan.{
  backslash, extract, written, extract_delimited, apply_escapes, strip_bare_comment,
  strip_quoted_trailing_comment,
}
use gonest.Dotenv.Interpolate.{Env, Resolved}
use gonest.Dotenv.Interpolate.Laws.{interpolate_plain}
use gonest.Dotenv.Parse.{double_quote, parse_trimmed, parse_value, resolve_interpolation}

-- How a byte is written between double quotes, and what `extractDelimited` leaves of that.
abbrev pub quote_byte : ℕ → Bytes
quote_byte c =
    if c == backslash
    then backslash ∷ backslash ∷ []
    else if c == double_quote
    then backslash ∷ double_quote ∷ []
    else if c == b'\n'
    then backslash ∷ b'n' ∷ []
    else if c == b'\r'
    then backslash ∷ b'r' ∷ []
    else c ∷ []

abbrev raw_byte : ℕ → Bytes
raw_byte c =
    if c == backslash
    then backslash ∷ backslash ∷ []
    else if c == double_quote
    then double_quote ∷ []
    else if c == b'\n'
    then backslash ∷ b'n' ∷ []
    else if c == b'\r'
    then backslash ∷ b'r' ∷ []
    else c ∷ []

abbrev pub quote : Bytes → Bytes
quote [] = []
quote (c ∷ s) = quote_byte c ++ quote s

abbrev raw : Bytes → Bytes
raw [] = []
raw (c ∷ s) = raw_byte c ++ raw s

extract-close : (rest : Bytes) → extract double_quote (double_quote ∷ rest) ≡ some ([], rest)
unfolding extract
extract-close [] = refl
extract-close (c ∷ rest) = refl

extract-plain :
    (c : ℕ) (s : Bytes)
    → c ≢ backslash
    → c ≢ double_quote
    → s ≢ []
    → extract double_quote (c ∷ s) ≡ written (c ∷ []) (extract double_quote s)
unfolding extract
extract-plain c [] h k n = absurd (n refl)
extract-plain c (d ∷ s) h k n = ground arith

extract-quote_byte :
    (c : ℕ) (s : Bytes)
    → s ≢ []
    → extract double_quote (quote_byte c ++ s) ≡ written (raw_byte c) (extract double_quote s)
unfolding extract
extract-quote_byte c s n = ground (arith, extract-plain c s)

written-written :
    (a b : Bytes) (x : Option (Bytes × Bytes)) → written a (written b x) ≡ written (a ++ b) x
written-written a b none = refl
written-written a b (some (content, rest)) = simp append_assoc

extract-quote :
    (s rest : Bytes) → extract double_quote (quote s ++ double_quote ∷ rest) ≡ some (raw s, rest)
extract-quote [] rest = extract-close rest
extract-quote (c ∷ s) rest =
    rw
      (
        append_assoc,
        extract-quote_byte c (quote s ++ double_quote ∷ rest) (ne-nil (quote s)),
        extract-quote s rest,
      )
      refl
  where
    ne-nil : (xs : Bytes) → xs ++ double_quote ∷ rest ≢ []
    ne-nil [] = λ e. cc
    ne-nil (x ∷ xs) = λ e. cc

apply_escapes-plain :
    (c : ℕ) (s : Bytes) → c ≢ backslash → apply_escapes (c ∷ s) ≡ c ∷ apply_escapes s
unfolding apply_escapes
apply_escapes-plain c [] h = refl
apply_escapes-plain c (d ∷ s) h = ground arith

apply_escapes-raw_byte : (c : ℕ) (s : Bytes) → apply_escapes (raw_byte c ++ s) ≡ c ∷ apply_escapes s
unfolding apply_escapes
apply_escapes-raw_byte c s = ground (arith, apply_escapes-plain c s)

apply_escapes-raw : (s : Bytes) → apply_escapes (raw s) ≡ s
apply_escapes-raw [] = unfold apply_escapes in refl
apply_escapes-raw (c ∷ s) = rw (apply_escapes-raw_byte c (raw s), apply_escapes-raw s) refl

-- Nothing but white space stands before a comment.
abbrev pub IsTrailing : Bytes → Type 0
IsTrailing rest = bytes_eq (trim_space (strip_bare_comment rest)) [] ≡ true

strip_quoted_trailing_comment-IsTrailing :
    (content rest : Bytes) → IsTrailing rest → strip_quoted_trailing_comment content rest ≡ content
unfolding strip_quoted_trailing_comment
strip_quoted_trailing_comment-IsTrailing content rest h = rw h

module _ (env : Env) (resolved : Resolved) where
  resolve_interpolation_plain :
      (s : Bytes) → contains s b'$' ≡ false → resolve_interpolation env resolved s ≡ s
  unfolding resolve_interpolation
  resolve_interpolation_plain s h =
      rw (interpolate_plain env resolved (length s) s (le_refl _) h) refl

  -- A text with no dollar sign that is written in double quotes, its backslashes, quotes, newlines
  -- and carriage returns escaped, is read back byte for byte, whatever white space or comment follows.
  pub parse_value-quote :
      (s rest : Bytes)
      → contains s b'$' ≡ false
      → IsTrailing rest
      → parse_value env resolved (double_quote ∷ quote s ++ double_quote ∷ rest) ≡ ok s
  unfolding parse_value parse_trimmed trim_left extract_delimited
  parse_value-quote s rest plain trailing =
      rw
        (
          extract-quote s rest,
          strip_quoted_trailing_comment-IsTrailing (raw s) rest trailing,
          apply_escapes-raw s,
          resolve_interpolation_plain s plain,
        )
        refl
