-- ===== src/Dotenv/Load.antt =====
-- Loading files into the process environment (SafeLoad of internal/dotenv/dotenv.go).
-- A path stands for itself; `read` is `os.ReadFile`.
pub mod Precedence
use gonest.Prelude.{
  List, [], ◌∷◌, Bool, true, false, ◌||◌, Option, none, some, Result, ok, err, if◌then◌else◌,
}
use gonest.Prelude.Members.{contains}
use gonest.Prelude.Bytes.{Bytes, bytes_eq}
use gonest.Dotenv.Interpolate.{Env}
use gonest.Dotenv.Parse.{EnvPair, FileError, parse_file}

-- The errors of `SafeLoad`: the file cannot be read, is malformed, or a key cannot be set.
pub data LoadError : Type 0 where
  unreadable : Bytes → LoadError
  parse_error : FileError → LoadError
  setenv_error : Bytes → Bytes → LoadError

-- `os.Setenv`: no key that is empty or has an equals sign or a zero byte, no value with a zero byte.
abbrev pub unsettable : Bytes → Bytes → Bool
unsettable [] value = true
unsettable (c ∷ key) value = contains (c ∷ key) b'=' || contains (c ∷ key) 0 || contains value 0

abbrev pub set : Env → Bytes → Bytes → Env
set env key value name = if bytes_eq name key then some value else env name

abbrev pub setenv : Env → Bytes → Bytes → Option Env
setenv env key value = if unsettable key value then none else some (set env key value)

-- The environment that a run leaves, with its error.
abbrev pub Loaded : Type 0
Loaded = Env × Option LoadError

-- What follows if a step succeeded.
abbrev pub next : Loaded → (Env → Loaded) → Loaded
next (env, none) continue_ = continue_ env
next (env, some failure) continue_ = (env, some failure)

abbrev pub set_or_error : Bytes → EnvPair → Env → Option Env → Loaded
set_or_error path p env none = (env, some (setenv_error p.key path))
set_or_error path p env (some after) = (after, none)

abbrev pub set_absent : Bytes → EnvPair → Env → Option Bytes → Loaded
set_absent path p env (some value) = (env, none)
set_absent path p env none = set_or_error path p env (setenv env p.key p.value)

-- The loop over the pairs of a file.
unfoldable pub set_pairs : Bytes → List EnvPair → Env → Loaded
set_pairs path [] env = (env, none)
set_pairs path (p ∷ pairs) env = next (set_absent path p env (env p.key)) (set_pairs path pairs)

module _ (read : Bytes → Option Bytes) where
  abbrev pub load_parsed : Bytes → Env → Result FileError (List EnvPair) → Loaded
  load_parsed path env (err failure) = (env, some (parse_error failure))
  load_parsed path env (ok pairs) = set_pairs path pairs env

  abbrev pub load_raw : Bytes → Env → Option Bytes → Loaded
  load_raw path env none = (env, some (unreadable path))
  load_raw path env (some raw) = load_parsed path env (parse_file env raw)

  unfoldable pub safe_load : List Bytes → Env → Loaded
  safe_load [] env = (env, none)
  safe_load (path ∷ paths) env = next (load_raw path env (read path)) (safe_load paths)
