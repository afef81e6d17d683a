-- ===== src/Dotenv/Parse/Files.antt =====
-- A file of keys and quoted values is read back.
use gonest.Prelude.{
  ℕ, suc, List, [], ◌∷◌, ◌++◌, false, some, ok, ◌≡◌, ◌≢◌, refl, inl, inr, arith, ◌==◌, Bool-cases,
  append_assoc, ap, ==_iff, subst, sym,
}
use gonest.Prelude.Members.{contains, contains-append}
use gonest.Prelude.Bytes.{Bytes, bytes_eq}
use gonest.Dotenv.Bytes.{trim_space, trim_left, trim_cr, split_byte, split_lines}
use gonest.Dotenv.Interpolate.{Env, Resolved}
use gonest.Dotenv.Parse.{
  EnvPair, double_quote, parse_pair, parse_line, parse_lines, parse_file, pair,
}
use gonest.Dotenv.Parse.Quotes.{quote, quote_byte, IsTrailing, parse_value-quote}

-- A key that the parser takes as it is written.
pub record IsKey (key : Bytes) : Type 0 where
  pub first : ℕ
  pub others : Bytes
  pub shape : key ≡ first ∷ others
  pub not_space : first ≢ b' '
  pub not_tab : first ≢ b'\t'
  pub not_comment : first ≢ b'#'
  pub no_equals : contains key b'=' ≡ false
  pub no_newline : contains key b'\n' ≡ false
  pub trimmed : trim_space key ≡ key

abbrev pub body_of : Bytes → Bytes
body_of s = b'=' ∷ double_quote ∷ (quote s ++ double_quote ∷ [])

abbrev pub line_of : EnvPair → Bytes
line_of p = p.key ++ body_of p.value

abbrev pub render : List EnvPair → Bytes
render [] = []
render (p ∷ pairs) = line_of p ++ b'\n' ∷ render pairs

split_lines-cons : (s : Bytes) → (l : Bytes) × (ls : List Bytes) × (split_lines s ≡ l ∷ ls)
unfolding split_lines
split_lines-cons [] = ([], [], refl)
split_lines-cons (c ∷ s) =
    let (l, ls, e) = split_lines-cons s in
    elim (Bool-cases (c == b'\n')) [
      | inl newline ↦ ([], l ∷ ls, rw (e, newline) refl)
      | inr other ↦ (c ∷ l, ls, rw (e, other) refl)
    ]

pub split_lines-append :
    (line s : Bytes)
    → contains line b'\n' ≡ false
    → split_lines (line ++ b'\n' ∷ s) ≡ line ∷ split_lines s
unfolding split_lines
split_lines-append [] s h = let (l, ls, e) = split_lines-cons s in rw e refl
split_lines-append (c ∷ line) s h =
    rw (split_lines-append line s (ground arith)) (ground (arith, ==_iff b'\n' c, ==_iff c b'\n'))

split_byte-append :
    (c : ℕ) (before after : Bytes)
    → contains before c ≡ false
    → split_byte c (before ++ c ∷ after) ≡ some (before, after)
unfolding split_byte
split_byte-append c [] after h = ground arith
split_byte-append c (d ∷ before) after h = ground (arith, split_byte-append c before after)

trim_cr-append : (s : Bytes) → trim_cr (s ++ double_quote ∷ []) ≡ s ++ double_quote ∷ []
unfolding trim_cr
trim_cr-append [] = refl
trim_cr-append (c ∷ []) = refl
trim_cr-append (c ∷ d ∷ s) = ap (λ t. c ∷ t) (trim_cr-append (d ∷ s))

quote-no_newline : (s : Bytes) → contains (quote s) b'\n' ≡ false
quote-no_newline [] = refl
quote-no_newline (c ∷ s) =
    ground (arith, contains-append (quote_byte c) (quote s) b'\n', quote-no_newline s)

pub line_of-no_newline : (p : EnvPair) → IsKey p.key → contains (line_of p) b'\n' ≡ false
line_of-no_newline p k = ground (
  arith,
  k.no_newline,
  contains-append p.key (body_of p.value) b'\n',
  contains-append (quote p.value) (double_quote ∷ []) b'\n',
  quote-no_newline p.value,
)

pub trim_left-line : (c : ℕ) (s : Bytes) → c ≢ b' ' → c ≢ b'\t' → trim_left (c ∷ s) ≡ c ∷ s
unfolding trim_left
trim_left-line c s h k = ground arith

IsTrailing-nil : IsTrailing []
unfolding bytes_eq trim_space
IsTrailing-nil = unfold gonest.Dotenv.Scan.strip_bare_comment in refl

trim_cr-body : (key s : Bytes) → trim_cr (key ++ body_of s) ≡ key ++ body_of s
trim_cr-body key s =
    rw (← append_assoc key (b'=' ∷ double_quote ∷ quote s) (double_quote ∷ []))
      (trim_cr-append (key ++ b'=' ∷ double_quote ∷ quote s))

pub ne→== : (c d : ℕ) → c ≢ d → (c == d) ≡ false
ne→== c d h = ground arith

module _ (env : Env) (resolved : Resolved) where
  parse_pair-quote :
      (line_no : ℕ) (key s : Bytes) (lines : List Bytes)
      → contains s b'$' ≡ false
      → parse_pair env resolved line_no key (double_quote ∷ quote s ++ double_quote ∷ []) lines
        ≡ ok (pair (record { key = key; value = s }) 0)
  unfolding parse_pair
  parse_pair-quote line_no key s lines plain =
      rw (parse_value-quote env resolved s [] plain IsTrailing-nil) refl

  parse_line-pair :
      (line_no c : ℕ) (ks s : Bytes) (lines : List Bytes)
      → c ≢ b' '
      → c ≢ b'\t'
      → c ≢ b'#'
      → contains (c ∷ ks) b'=' ≡ false
      → trim_space (c ∷ ks) ≡ c ∷ ks
      → contains s b'$' ≡ false
      → parse_line env resolved line_no (trim_left (trim_cr ((c ∷ ks) ++ body_of s))) lines
        ≡ ok (pair (record { key = c ∷ ks; value = s }) 0)
  unfolding parse_line
  parse_line-pair line_no c ks s lines space tab comment equals trimmed plain =
      rw
        (
          trim_cr-body (c ∷ ks) s,
          trim_left-line c (ks ++ body_of s) space tab,
          ne→== c b'#' comment,
          split_byte-append b'=' (c ∷ ks) (double_quote ∷ (quote s ++ double_quote ∷ [])) equals,
          trimmed,
        )
        (parse_pair-quote line_no (c ∷ ks) s lines plain)

  pub parse_line-line_of :
      (line_no : ℕ) (p : EnvPair) (lines : List Bytes)
      → IsKey p.key
      → contains p.value b'$' ≡ false
      → parse_line env resolved line_no (trim_left (trim_cr (line_of p))) lines ≡ ok (pair p 0)
  parse_line-line_of line_no p lines k plain =
      subst
        (λ key.
          parse_line env resolved line_no (trim_left (trim_cr (key ++ body_of p.value))) lines
          ≡ ok (pair (record { key = key; value = p.value }) 0))
        (sym k.shape)
        (parse_line-pair line_no k.first k.others p.value lines k.not_space k.not_tab k.not_comment
          (subst (λ t. contains t b'=' ≡ false) k.shape k.no_equals)
          (subst (λ t. trim_space t ≡ t) k.shape k.trimmed) plain)

-- Every key can be read, and no value has a dollar sign.
abbrev pub IsPlain : List EnvPair → Type 0
IsPlain [] = Unit
IsPlain (p ∷ pairs) = IsKey p.key × (contains p.value b'$' ≡ false) × IsPlain pairs

module _ (env : Env) where
  parse_lines-pair :
      (line : Bytes) (lines : List Bytes) (line_no : ℕ) (resolved : Resolved) (p : EnvPair)
      {pairs : List EnvPair}
      → parse_line env resolved line_no (trim_left (trim_cr line)) lines ≡ ok (pair p 0)
      → parse_lines env lines (suc line_no) 0 ((p.key, p.value) ∷ resolved) ≡ ok pairs
      → parse_lines env (line ∷ lines) line_no 0 resolved ≡ ok (p ∷ pairs)
  unfolding parse_lines
  parse_lines-pair line lines line_no resolved p h k = rw (h, k) refl

  parse_lines-render :
      (pairs : List EnvPair) (line_no : ℕ) (resolved : Resolved)
      → IsPlain pairs
      → parse_lines env (split_lines (render pairs)) line_no 0 resolved ≡ ok pairs
  parse_lines-render [] line_no resolved h =
      unfold split_lines trim_cr trim_left parse_line parse_lines in refl
  parse_lines-render (p ∷ pairs) line_no resolved h =
      rw (split_lines-append (line_of p) (render pairs) (line_of-no_newline p h.0)) (
        parse_lines-pair (line_of p) (split_lines (render pairs)) line_no resolved p
          (parse_line-line_of env resolved line_no p (split_lines (render pairs)) h.0 h.1)
          (parse_lines-render pairs (suc line_no) ((p.key, p.value) ∷ resolved) h.2))

  -- The file that lists pairs, one to a line, with the values written in double quotes, is parsed to these
  -- pairs, when each key is one that the parser takes as it is written and no value has a dollar sign,
  -- which would be interpolated.
  pub parse_file-render :
      (pairs : List EnvPair) → IsPlain pairs → parse_file env (render pairs) ≡ ok pairs
  unfolding parse_file
  parse_file-render pairs h = parse_lines-render pairs 1 [] h
