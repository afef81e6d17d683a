-- ===== src/Dotenv/Load/Precedence.antt =====
-- The environment wins over files, and earlier files over later ones.
use gonest.Prelude.{
  List, [], ◌∷◌, ◌++◌, Option, none, some, Result, ok, err, ◌≡◌, refl, inl, inr, Bool-cases,
  Option-cases, if◌then◌else◌, sym, ap, ◌∙◌, subst,
}
use gonest.Prelude.Bytes.{Bytes, bytes_eq, bytes_eq_sound}
use gonest.Dotenv.Interpolate.{Env}
use gonest.Dotenv.Parse.{EnvPair, FileError, parse_file}
use gonest.Dotenv.Load.{
  Loaded, setenv, set, unsettable, set_pairs, set_absent, safe_load, next, load_raw, load_parsed,
}

abbrev or_else : Option Bytes → Option Bytes → Option Bytes
or_else (some value) other = some value
or_else none other = other

-- The value of the first pair with the key.
abbrev first_value : List EnvPair → Bytes → Option Bytes
first_value [] key = none
first_value (p ∷ pairs) key = if bytes_eq key p.key then some p.value else first_value pairs key

-- The environment where pairs fill in the keys that are absent.
abbrev pub fill : Env → List EnvPair → Env
fill env pairs key = or_else (env key) (first_value pairs key)

or_else-none : (o : Option Bytes) → or_else o none ≡ o
or_else-none none = refl
or_else-none (some value) = refl

or_else_assoc : (a b c : Option Bytes) → or_else (or_else a b) c ≡ or_else a (or_else b c)
or_else_assoc none b c = refl
or_else_assoc (some value) b c = refl

first_value-append :
    (ps qs : List EnvPair) (key : Bytes)
    → first_value (ps ++ qs) key ≡ or_else (first_value ps key) (first_value qs key)
first_value-append [] qs key = refl
first_value-append (p ∷ ps) qs key = elim (Bool-cases (bytes_eq key p.key)) [
  | inl same ↦ rw same refl
  | inr other ↦ rw other (first_value-append ps qs key)
]

fill-nil : (env : Env) → fill env [] ≡ env
fill-nil env i key = or_else-none (env key) i

fill-append : (env : Env) (ps qs : List EnvPair) → fill (fill env ps) qs ≡ fill env (ps ++ qs)
fill-append env ps qs i key =
    (or_else_assoc (env key) (first_value ps key) (first_value qs key)
        ∙ ap (or_else (env key)) (sym (first_value-append ps qs key)))
      i

fill-present :
    (env : Env) (p : EnvPair) (ps : List EnvPair) (value key : Bytes)
    → env p.key ≡ some value
    → fill env ps key ≡ fill env (p ∷ ps) key
fill-present env p ps value key h = elim (Bool-cases (bytes_eq key p.key)) [
  | inl same ↦ rw (bytes_eq_sound key p.key same, h) refl
  | inr other ↦ rw other refl
]

fill-absent :
    (env : Env) (p : EnvPair) (ps : List EnvPair) (key : Bytes)
    → env p.key ≡ none
    → fill (set env p.key p.value) ps key ≡ fill env (p ∷ ps) key
fill-absent env p ps key h = elim (Bool-cases (bytes_eq key p.key)) [
  | inl same ↦ rw (same, ap env (bytes_eq_sound key p.key same) ∙ h) refl
  | inr other ↦ rw other refl
]

next-done :
    (first : Loaded) (rest : Env → Loaded) (after : Env)
    → next first rest ≡ (after, none)
    → (middle : Env) × (first ≡ (middle, none)) × (rest middle ≡ (after, none))
next-done (env, none) rest after h = (env, refl, h)
next-done (env, some failure) rest after h = cc

set_absent-done :
    (path : Bytes) (p : EnvPair) (ps : List EnvPair) (env middle : Env) (seen : Option Bytes)
    → env p.key ≡ seen
    → set_absent path p env seen ≡ (middle, none)
    → fill middle ps ≡ fill env (p ∷ ps)
set_absent-done path p ps env middle (some value) seen h =
    ap (λ m. fill m ps) (sym (ap (λ l. l.0) h)) ∙ (λ i key. fill-present env p ps value key seen i)
set_absent-done path p ps env middle none seen h = elim (Bool-cases (unsettable p.key p.value)) [
  | inl bad ↦ let k = (rw (set_absent, setenv, bad) at h) in cc
  | inr good ↦
      let k = (rw (set_absent, setenv, good) at h) in
      ap (λ l. fill l.0 ps) (sym k) ∙ (λ i key. fill-absent env p ps key seen i)
]

set_pairs-done :
    (path : Bytes) (pairs : List EnvPair) (env after : Env)
    → set_pairs path pairs env ≡ (after, none)
    → after ≡ fill env pairs
unfolding set_pairs
set_pairs-done path [] env after h = sym (ap (λ l. l.0) h) ∙ sym (fill-nil env)
set_pairs-done path (p ∷ pairs) env after h =
    let (middle, first, rest) =
      next-done (set_absent path p env (env p.key)) (set_pairs path pairs) after h in
    set_pairs-done path pairs middle after rest
    ∙ set_absent-done path p pairs env middle (env p.key) refl first

module _ (read : Bytes → Option Bytes) where
  -- The pairs of files that are read one after the other, each in the environment that those before
  -- have filled.
  abbrev pub IsRead : Env → List Bytes → List EnvPair → Type 0
  IsRead env [] all = all ≡ []
  IsRead env (path ∷ paths) all =
      (raw : Bytes) × (pairs : List EnvPair) × (others : List EnvPair) × (read path ≡ some raw)
      × (parse_file env raw ≡ ok pairs)
      × (all ≡ pairs ++ others)
      × IsRead (fill env pairs) paths others

  load_parsed-done :
      (path : Bytes) (env after : Env) (parsed : Result FileError (List EnvPair))
      → load_parsed read path env parsed ≡ (after, none)
      → (pairs : List EnvPair) × (parsed ≡ ok pairs) × (after ≡ fill env pairs)
  load_parsed-done path env after (err failure) h = cc
  load_parsed-done path env after (ok pairs) h =
      (pairs, refl, set_pairs-done path pairs env after h)

  load_raw-done :
      (path : Bytes) (env after : Env)
      → load_raw read path env (read path) ≡ (after, none)
      → (raw : Bytes) × (pairs : List EnvPair) × (read path ≡ some raw)
        × (parse_file env raw ≡ ok pairs)
        × (after ≡ fill env pairs)
  load_raw-done path env after h = elim (Option-cases (read path)) [
    | inl missing ↦ let k = (rw missing at h) in cc
    | inr (raw, e) ↦
        let (pairs, parsed, filled) =
          load_parsed-done path env after (parse_file env raw) (rw e at h) in
        (raw, pairs, e, parsed, filled)
  ]

  -- When SafeLoad succeeds, every file was read and parsed, a key that the environment had keeps its
  -- value, and every other key has the value of its first pair in the files in their order.
  pub safe_load_lem :
      (paths : List Bytes) (env after : Env)
      → safe_load read paths env ≡ (after, none)
      → (all : List EnvPair) × IsRead env paths all × (after ≡ fill env all)
  unfolding safe_load
  safe_load_lem [] env after h = ([], refl, sym (ap (λ l. l.0) h) ∙ sym (fill-nil env))
  safe_load_lem (path ∷ paths) env after h =
      let (middle, first, rest) =
        next-done (load_raw read path env (read path)) (safe_load read paths) after h in
      let (raw, pairs, found, parsed, filled) = load_raw-done path env middle first in
      let (others, tail, last) =
        safe_load_lem paths (fill env pairs) after
          (subst (λ e. safe_load read paths e ≡ (after, none)) filled rest) in
      (
        pairs ++ others,
        (raw, pairs, others, found, parsed, refl, tail),
        last ∙ fill-append env pairs others,
      )

set_absent-keeps :
    (path : Bytes) (p : EnvPair) (env : Env) (seen : Option Bytes) (key value : Bytes)
    → env p.key ≡ seen
    → env key ≡ some value
    → (set_absent path p env seen).0 key ≡ some value
set_absent-keeps path p env (some old) key value seen h = h
set_absent-keeps path p env none key value seen h = elim (Bool-cases (unsettable p.key p.value)) [
  | inl bad ↦ rw (set_absent, setenv, bad) h
  | inr good ↦
      rw (set_absent, setenv, good)
        (elim (Bool-cases (bytes_eq key p.key)) [
          | inl same ↦ let e = sym h ∙ ap env (bytes_eq_sound key p.key same) ∙ seen in cc
          | inr other ↦ rw other h
        ])
]

next-keeps :
    (first : Loaded) (rest : Env → Loaded) (key value : Bytes)
    → first.0 key ≡ some value
    → ((env : Env) → env key ≡ some value → (rest env).0 key ≡ some value)
    → (next first rest).0 key ≡ some value
next-keeps (env, none) rest key value h k = k env h
next-keeps (env, some failure) rest key value h k = h

set_pairs-keeps :
    (path : Bytes) (pairs : List EnvPair) (env : Env) (key value : Bytes)
    → env key ≡ some value
    → (set_pairs path pairs env).0 key ≡ some value
unfolding set_pairs
set_pairs-keeps path [] env key value h = h
set_pairs-keeps path (p ∷ pairs) env key value h =
    next-keeps (set_absent path p env (env p.key)) (set_pairs path pairs) key value
      (set_absent-keeps path p env (env p.key) key value refl h)
      (λ middle k. set_pairs-keeps path pairs middle key value k)

module _ (read : Bytes → Option Bytes) where
  load_parsed-keeps :
      (path : Bytes) (env : Env) (parsed : Result FileError (List EnvPair)) (key value : Bytes)
      → env key ≡ some value
      → (load_parsed read path env parsed).0 key ≡ some value
  load_parsed-keeps path env (err failure) key value h = h
  load_parsed-keeps path env (ok pairs) key value h = set_pairs-keeps path pairs env key value h

  load_raw-keeps :
      (path : Bytes) (env : Env) (raw : Option Bytes) (key value : Bytes)
      → env key ≡ some value
      → (load_raw read path env raw).0 key ≡ some value
  load_raw-keeps path env none key value h = h
  load_raw-keeps path env (some raw) key value h =
      load_parsed-keeps path env (parse_file env raw) key value h

  -- A key that is in the environment keeps its value, also when loading stops with an error.
  pub safe_load-keeps :
      (paths : List Bytes) (env : Env) (key value : Bytes)
      → env key ≡ some value
      → (safe_load read paths env).0 key ≡ some value
  unfolding safe_load
  safe_load-keeps [] env key value h = h
  safe_load-keeps (path ∷ paths) env key value h =
      next-keeps (load_raw read path env (read path)) (safe_load read paths) key value
        (load_raw-keeps path env (read path) key value h)
        (λ middle k. safe_load-keeps paths middle key value k)
