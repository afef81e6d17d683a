-- ===== src/Dotenv/Parse/Malformed.antt =====
-- The error of a line that has no equals sign.
use gonest.Prelude.{
  ℕ, zero, suc, ◌+◌, ◌≤◌, List, [], ◌∷◌, ◌++◌, false, none, Result, ok, err, bind-eq-ok, ◌≡◌, ◌≢◌,
  refl, sym, ap, ◌∙◌, arith, length, ◌>>=◌,
}
use gonest.Prelude.Members.{contains}
use gonest.Prelude.Bytes.{Bytes}
use gonest.Dotenv.Bytes.{trim_left, trim_cr, split_byte, split_lines}
use gonest.Dotenv.Interpolate.{Env, Resolved}
use gonest.Dotenv.Parse.{
  EnvPair, FileError, Line, ignored, pair, malformed, parse_line, parse_lines, parse_file,
}
use gonest.Dotenv.Parse.Files.{ne→==}
use gonest.Dotenv.Parse.Reads.{taken_by, parse_line-Reads}

-- A line, as the split at newlines gives it, that is neither blank nor a comment nor a pair.
pub record IsMalformed (line : Bytes) : Type 0 where
  pub first : ℕ
  pub others : Bytes
  pub shape : trim_left (trim_cr line) ≡ first ∷ others
  pub not_comment : first ≢ b'#'
  pub no_equals : contains (first ∷ others) b'=' ≡ false

plus_zero : (n : ℕ) → n + 0 ≡ n
plus_zero n = omega arith

plus_suc : (n k : ℕ) → suc n + k ≡ n + suc k
plus_suc n k = omega arith

split_byte-none : (s : Bytes) (c : ℕ) → contains s c ≡ false → split_byte c s ≡ none
unfolding split_byte
split_byte-none [] c h = refl
split_byte-none (d ∷ s) c h = ground (arith, split_byte-none s c)

module _ (env : Env) where
  parse_line-malformed :
      (line_no : ℕ) (bad : Bytes) (m : IsMalformed bad) (lines : List Bytes) (resolved : Resolved)
      → parse_line env resolved line_no (trim_left (trim_cr bad)) lines ≡ err (malformed line_no)
  unfolding parse_line
  parse_line-malformed line_no bad m lines resolved =
      rw
        (
          m.shape,
          ne→== m.first b'#' m.not_comment,
          split_byte-none (m.first ∷ m.others) b'=' m.no_equals,
        )
        refl

  -- The rest of the loop behind a line that is read.
  abbrev onward : List Bytes → ℕ → Resolved → Line → Result FileError (List EnvPair)
  onward lines line_no resolved ignored = parse_lines env lines (suc line_no) 0 resolved
  onward lines line_no resolved (pair p taken) =
      parse_lines env lines (suc line_no) taken ((p.key, p.value) ∷ resolved) >>= λ pairs.
      ok (p ∷ pairs)

  parse_lines-read :
      (line : Bytes) (lines : List Bytes) (line_no : ℕ) (resolved : Resolved) (result : Line)
      → parse_line env resolved line_no (trim_left (trim_cr line)) lines ≡ ok result
      → parse_lines env (line ∷ lines) line_no 0 resolved ≡ onward lines line_no resolved result
  unfolding parse_lines
  parse_lines-read line lines line_no resolved ignored e = rw (e, parse_lines) refl
  parse_lines-read line lines line_no resolved (pair p taken) e = rw (e, parse_lines) refl

  -- The loop reads `before`, and then comes upon `bad`.
  abbrev Stops : List Bytes → Bytes → List Bytes → Type 0
  Stops before bad tail =
      (line_no skip : ℕ) (resolved : Resolved) (pairs : List EnvPair)
      → skip ≤ length before
      → parse_lines env before line_no skip resolved ≡ ok pairs
      → parse_lines env (before ++ bad ∷ tail) line_no skip resolved
        ≡ err (malformed (line_no + length before))

  onward-Stops :
      (before tail : List Bytes) (bad : Bytes) (line_no : ℕ) (resolved : Resolved) (result : Line)
      (pairs : List EnvPair)
      → Stops before bad tail
      → taken_by result ≤ length before
      → onward before line_no resolved result ≡ ok pairs
      → onward (before ++ bad ∷ tail) line_no resolved result
        ≡ err (malformed (suc line_no + length before))
  onward-Stops before tail bad line_no resolved ignored pairs stops within e =
      stops (suc line_no) 0 resolved pairs within e
  onward-Stops before tail bad line_no resolved (pair p taken) pairs stops within e =
      let (rest, first, _) =
        bind-eq-ok (parse_lines env before (suc line_no) taken ((p.key, p.value) ∷ resolved)) _ e in
      rw (stops (suc line_no) taken ((p.key, p.value) ∷ resolved) rest within first) refl

  line-Stops :
      (line : Bytes) (before tail : List Bytes) (bad : Bytes) (line_no : ℕ) (resolved : Resolved)
      (pairs : List EnvPair) (read : Result FileError Line)
      → Stops before bad tail
      → parse_line env resolved line_no (trim_left (trim_cr line)) before ≡ read
      → parse_lines env (line ∷ before) line_no 0 resolved ≡ ok pairs
      → parse_lines env (line ∷ before ++ bad ∷ tail) line_no 0 resolved
        ≡ err (malformed (suc line_no + length before))
  unfolding parse_lines
  line-Stops line before tail bad line_no resolved pairs (err failure) stops e read_all =
      let k : ◌≡◌ {A = Result FileError (List EnvPair)} (err failure) (ok pairs) =
        (rw (e, parse_lines) at read_all) in
      cc
  line-Stops line before tail bad line_no resolved pairs (ok result) stops e read_all =
      let (same, within) =
        parse_line-Reads env (trim_left (trim_cr line)) resolved line_no before (bad ∷ tail) result
          e in
      parse_lines-read line (before ++ bad ∷ tail) line_no resolved result same
      ∙ onward-Stops before tail bad line_no resolved result pairs stops within
          (sym (parse_lines-read line before line_no resolved result e) ∙ read_all)

  before-Stops : (before tail : List Bytes) (bad : Bytes) → IsMalformed bad → Stops before bad tail
  unfolding parse_lines
  before-Stops [] tail bad m line_no zero resolved pairs within e =
      rw (parse_line-malformed line_no bad m tail resolved, parse_lines, plus_zero line_no) refl
  before-Stops [] tail bad m line_no (suc skip) resolved pairs within e = absurd (omega arith)
  before-Stops (line ∷ before) tail bad m line_no (suc skip) resolved pairs within e =
      before-Stops before tail bad m (suc line_no) skip resolved pairs (omega arith) e
      ∙ ap (λ n. err (malformed n)) (plus_suc line_no (length before))
  before-Stops (line ∷ before) tail bad m line_no zero resolved pairs within e =
      line-Stops line before tail bad line_no resolved pairs _ (before-Stops before tail bad m) refl
        e
      ∙ ap (λ n. err (malformed n)) (plus_suc line_no (length before))

  -- A file is refused at its first line that is neither blank nor a comment and has no equals sign, with
  -- the number of that line, counted from one, when the lines before it are read without an error,
  -- whatever they are: blank, comments, pairs or blocks of several lines.
  pub parse_file-malformed :
      (raw bad : Bytes) (before tail : List Bytes) (pairs : List EnvPair)
      → split_lines raw ≡ before ++ bad ∷ tail
      → parse_lines env before 1 0 [] ≡ ok pairs
      → IsMalformed bad
      → parse_file env raw ≡ err (malformed (1 + length before))
  unfolding parse_file
  parse_file-malformed raw bad before tail pairs split e m =
      rw split (before-Stops before tail bad m 1 0 [] pairs (omega arith) e)
