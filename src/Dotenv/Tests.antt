-- ===== src/Dotenv/Tests.antt =====
-- Small .env files, and what the definitions do on them.
use gonest.Prelude.{List, [], ◌∷◌, Option, none, some, ok, err, ◌≡◌, refl, arith, if◌then◌else◌}
use gonest.Prelude.Bytes.{Bytes, bytes_eq, text}
use gonest.Dotenv.Bytes.{
  trim_left, trim_cr, trim_space, split_byte, split_lines, split_at, strip_prefix,
}
use gonest.Dotenv.Scan.{
  strip_bare_comment, strip_quoted_trailing_comment, extract, extract_delimited, apply_escapes,
}
use gonest.Dotenv.Interpolate.{
  Env, lookup, is_var_name_start, is_var_name_char, span_name, split_brace_operator, lookup_var,
  resolve_brace_expr, brace, variable, piece, interpolate,
}
use gonest.Dotenv.Parse.{
  EnvPair, parse_trimmed, resolve_interpolation, parse_value, extract_block, retry, parse_pair,
  parse_line, parse_lines, parse_file, malformed, unterminated,
}
use gonest.Dotenv.Parse.Quotes.{IsTrailing}
use gonest.Dotenv.Parse.Files.{IsKey, render, parse_file-render}
use gonest.Dotenv.Parse.Malformed.{IsMalformed, parse_file-malformed}
use gonest.Dotenv.Load.{set_pairs, safe_load}
use gonest.Dotenv.Load.Precedence.{IsRead, fill, safe_load_lem}

abbrev home : Env
home name = if bytes_eq name (text "HOME") then some (text "/root") else none

-- Opens the parser for the tests below.
run : Env → Bytes → Bytes
unfolding parse_file parse_lines parse_line parse_pair retry extract_block parse_value parse_trimmed
    resolve_interpolation trim_left trim_cr trim_space split_byte split_lines split_at strip_prefix
    bytes_eq strip_bare_comment strip_quoted_trailing_comment extract extract_delimited
    apply_escapes lookup is_var_name_start is_var_name_char span_name split_brace_operator
    lookup_var resolve_brace_expr brace variable piece interpolate set_pairs safe_load
run env s = s

file-pairs :
    parse_file home
      (text "# c\nexport=1\nA = 'x$HOME' # c\nB=\"$A:${HOME}/${C:-d}\\n\"\n\nE=p#q #r")
    ≡ ok (
        record { key = text "export"; value = text "1" }
        ∷ record { key = text "A"; value = text "x$HOME" }
        ∷ record { key = text "B"; value = text "x$HOME:/root/d\n" }
        ∷ record { key = text "E"; value = text "p#q" }
        ∷ [])
unfolding run
file-pairs = refl

file-block :
    parse_file home (text "A=`x\ny`\nB=1")
    ≡ ok (
        record { key = text "A"; value = text "x\ny" }
        ∷ record { key = text "B"; value = text "1" }
        ∷ [])
unfolding run
file-block = refl

file-unterminated : parse_file home (text "A=1\nB=`x\ny") ≡ err (unterminated 2)
unfolding run
file-unterminated = refl

note_ok : IsTrailing (text " # note")
unfolding run
note_ok = refl

upper_ok : IsKey (text "KEY")
unfolding run
upper_ok = record {
  first = b'K';
  others = text "EY";
  shape = refl;
  not_space = omega arith;
  not_tab = omega arith;
  not_comment = omega arith;
  no_equals = refl;
  no_newline = refl;
  trimmed = refl;
}

abbrev pairs : List EnvPair
pairs = record { key = text "KEY"; value = text "two\nlines # \"" } ∷ []

parse_file-render_example : parse_file home (render pairs) ≡ ok pairs
parse_file-render_example = parse_file-render home pairs (upper_ok, refl, tt)

bad_ok : IsMalformed (text " oops\r")
unfolding run
bad_ok = record {
  first = b'o';
  others = text "ops";
  shape = refl;
  not_comment = omega arith;
  no_equals = refl;
}

-- A comment, a blank line and a block of two lines stand before the line.
parse_file-malformed_example :
    parse_file home (text "# c\n\nA=`x\ny`\n oops\r\nB=1") ≡ err (malformed 5)
unfolding run
parse_file-malformed_example =
    parse_file-malformed home (text "# c\n\nA=`x\ny`\n oops\r\nB=1") (text " oops\r")
      (text "# c" ∷ [] ∷ text "A=`x" ∷ text "y`" ∷ []) (text "B=1" ∷ [])
      (record { key = text "A"; value = text "x\ny" } ∷ []) refl refl bad_ok

-- Two files set the same key, and one of them a key of the environment.
abbrev disk : Bytes → Option Bytes
disk path =
    if bytes_eq path (text "a")
    then some (text "A=1\nHOME=/")
    else if bytes_eq path (text "b")
    then some (text "A=2\nB=$HOME")
    else none

abbrev paths : List Bytes
paths = text "a" ∷ text "b" ∷ []

after : Env
unfolding run
after = (safe_load disk paths home).0

loaded : safe_load disk paths home ≡ (after, none)
unfolding run after
loaded = refl

after-values :
    (after (text "A") ≡ some (text "1"))
    × (after (text "B") ≡ some (text "/root"))
    × (after (text "HOME") ≡ some (text "/root"))
unfolding run after
after-values = (refl, refl, refl)

safe_load_lem_example : (all : List EnvPair) × IsRead disk home paths all × (after ≡ fill home all)
safe_load_lem_example = safe_load_lem disk paths home after loaded

home-known : home (text "HOME") ≡ some (text "/root")
unfolding run
home-known = refl
