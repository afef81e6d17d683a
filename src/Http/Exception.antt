-- ===== src/Http/Exception.antt =====
-- Structured HTTP exceptions (internal/exception).
pub mod Builtin
use Prim.Native.String.{String}
use gonest.Prelude.{ℕ, List, [], ◌∷◌, Option, none, Bool, true, false, if◌then◌else◌}

abbrev pub is_empty : String → Bool
is_empty String.[] = true
is_empty (String.◌∷◌ c s) = false

-- An `HttpException`; a value of `details` is a number that stands for it.
pub record HttpException : Type 0 where
  pub status : ℕ
  pub name : String
  pub message : String
  pub details : Option ℕ

-- A value whose type embeds `HttpException`: `kind` is its concrete type, `type_name` the type's name.
pub record Exception : Type 0 where
  pub kind : ℕ
  pub type_name : String
  pub http : HttpException

abbrev pub new_http_exception : HttpException
new_http_exception = record { status = 500; name = ""; message = ""; details = none }

abbrev pub set_status : ℕ → HttpException → HttpException
set_status code e = record e { status = code }

abbrev pub set_name : String → HttpException → HttpException
set_name name e = record e { name = name }

abbrev pub set_message : String → HttpException → HttpException
set_message message e = record e { message = message }

abbrev pub set_details : Option ℕ → HttpException → HttpException
set_details details e = record e { details = details }

abbrev pub first_detail : List (Option ℕ) → Option ℕ
first_detail [] = none
first_detail (detail ∷ more) = detail

-- `newBuiltin`; `details` are the variadic arguments, `none` is nil.
unfoldable pub new_builtin : ℕ → ℕ → String → String → String → List (Option ℕ) → Exception
new_builtin kind status name default_message message details =
    let text = (if is_empty message then default_message else message) in
    record {
      kind = kind;
      type_name = name;
      http =
          set_details (first_detail details)
            (set_message text (set_name name (set_status status new_http_exception)));
    }

-- `EffectiveName`
unfoldable pub effective_name : Exception → String
effective_name e = if is_empty e.http.name then e.type_name else e.http.name
