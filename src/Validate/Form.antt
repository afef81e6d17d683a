-- ===== src/Validate/Form.antt =====
-- Multipart forms: internal/validate/form.go. The parts come one by one from `mime/multipart`, and a file
-- goes to the caller's function while the form is read.
pub mod Required
use gonest.Prelude.{
  ℕ, Bool, true, false, not, ◌&&◌, Option, none, some, List, [], ◌∷◌, ◌++◌, Result, ok, err,
  if◌then◌else◌,
}
use gonest.Prelude.Bytes.{Bytes, text, bytes_eq}
use gonest.Schema.Value.{Any, Fields, end, presence}
use gonest.Schema.Property.{PropertyBuilder}
use gonest.Schema.Store.{Store, GoType, own_properties}
use gonest.Validate.Violation.{Violation, Message, Outcome, done, nil_pointer, out_of_fuel, ◌>>=◌}
use gonest.Validate.Primitive.{Library}
use gonest.Validate.Walk.{Checker, tag_key_visible, validate_value, required_unless_optional}
use gonest.Validate.Populate.{populate}
use gonest.Validate.Parse.{
  Parsed, parsed, no_form_stream, refused_with, Setup, unless_refused, written_or, resolve_schema,
}
use gonest.Validate.Source.{collect_given, supplied, with_entry}

-- What `NextPart` returns. A file has a name; the value of a field is what `io.ReadAll` returns.
pub data Part : Type 0 where
  file : (form_name file_name : Bytes) → Part
  value : (form_name : Bytes) (contents : Result Bytes Bytes) → Part

pub data Parts : Type 0 where
  eof : Parts
  broken : Bytes → Parts
  part : Part → Parts → Parts

-- `byKey`: a later property takes the place of an earlier one with its key.
abbrev pub ByKey : Type 0
ByKey = List (Bytes × PropertyBuilder)

abbrev pub put : Bytes → PropertyBuilder → ByKey → ByKey
put key p [] = (key, p) ∷ []
put key p ((other, q) ∷ by_key) =
    let rest = put key p by_key in
    if bytes_eq key other then (key, p) ∷ by_key else (other, q) ∷ rest

abbrev put_visible : Option Bytes → PropertyBuilder → ByKey → ByKey
put_visible none p by_key = by_key
put_visible (some key) p by_key = put key p by_key

unfoldable pub by_key_of : List PropertyBuilder → ByKey → ByKey
by_key_of [] by_key = by_key
by_key_of (p ∷ properties) by_key =
    by_key_of properties (put_visible (tag_key_visible p.field (text "form")) p by_key)

abbrev pub find_key : ByKey → Bytes → Option PropertyBuilder
find_key [] key = none
find_key ((other, p) ∷ by_key) key = if bytes_eq other key then some p else find_key by_key key

-- `violations` and `presence`.
abbrev pub Gathered : Type 0
Gathered = List Violation × Fields

-- The loop goes on with a state, or the parse ends.
pub data Turn : Type 0 where
  onward : Gathered → Turn
  stop : Parsed → Turn

abbrev pub then_turn : Outcome Gathered → Turn
then_turn (done state) = onward state
then_turn nil_pointer = stop Parsed.nil_panic
then_turn out_of_fuel = stop Parsed.exhausted

unfoldable pub read_contents :
    Library → Checker → PropertyBuilder → Bytes → Result Bytes Bytes → Gathered → Outcome Gathered
read_contents lib check p key (err reason) (violations, fields) =
    done (violations ++ record { at = key; message = Message.reported reason } ∷ [], fields)
read_contents lib check p key (ok raw) (violations, fields) =
    collect_given lib check p key (supplied raw) >>= λ (more, coerced).
    done (violations ++ more, with_entry key coerced fields)

-- A part of an unknown name is passed over.
unfoldable pub read_known :
    Library → Checker → Option PropertyBuilder → Bytes → Result Bytes Bytes → Gathered → Turn
unfolding read_contents
read_known lib check none key contents state = onward state
read_known lib check (some p) key contents state =
    then_turn (read_contents lib check p key contents state)

-- The error that the caller's function has for a file, at the name of its field.
abbrev on_file_turn : Option Bytes → Bytes → Gathered → Turn
on_file_turn none key state = onward state
on_file_turn (some reason) key state = stop (refused_with key (Message.reported reason))

abbrev on_file_or : Option (Bytes → Option Bytes) → Bytes → Bytes → Gathered → Turn
on_file_or none form_name file_name state = onward state
on_file_or (some on_file) form_name file_name state =
    on_file_turn (on_file file_name) form_name state

unfoldable pub read_part :
    Library → Checker → ByKey → Option (Bytes → Option Bytes) → Part → Gathered → Turn
unfolding read_known
read_part lib check by_key on_file (file form_name file_name) state =
    on_file_or on_file form_name file_name state
read_part lib check by_key on_file (value form_name contents) state =
    read_known lib check (find_key by_key form_name) form_name contents state

abbrev pub and_then : Turn → (Gathered → Turn) → Turn
and_then (stop result) next = stop result
and_then (onward state) next = next state

unfoldable pub read_parts :
    Library → Checker → ByKey → Option (Bytes → Option Bytes) → Parts → Gathered → Turn
read_parts lib check by_key on_file eof state = onward state
read_parts lib check by_key on_file (broken reason) state =
    stop (refused_with [] (Message.reported reason))
read_parts lib check by_key on_file (part p parts) state =
    and_then (read_part lib check by_key on_file p state)
      (read_parts lib check by_key on_file parts)

abbrev pub required_if_absent : Option Any → PropertyBuilder → Bytes → List Violation
required_if_absent none p key = required_unless_optional p.required key
required_if_absent (some raw) p key = []

-- The last loop: required fields that no part gave. Go's order of a map is open; here it is that of the
-- keys' first properties.
unfoldable pub missing_required : ByKey → Fields → List Violation
missing_required [] fields = []
missing_required ((key, p) ∷ by_key) fields =
    required_if_absent (presence fields key) p key ++ missing_required by_key fields

finish_form : Setup → List PropertyBuilder → ByKey → Turn → Parsed
finish_form setup properties by_key (stop result) = result
finish_form setup properties by_key (onward (violations, fields)) =
    unless_refused (violations ++ missing_required by_key fields)
      (written_or (populate setup.conv setup.slots fields properties (text "form")) parsed)

form_of :
    Setup → Store → List PropertyBuilder → Option (Bytes → Option Bytes) → Option Parts → Parsed
unfolding finish_form
form_of setup st properties on_file none = no_form_stream
form_of setup st properties on_file (some parts) =
    let by_key = by_key_of properties [] in
    finish_form setup properties by_key
      (read_parts setup.lib (validate_value setup.lib st setup.fuel) by_key on_file parts ([], end))

-- `formBodySource.ParseInto`; the request may have no form stream, which panics.
unfoldable pub parse_form :
    Setup → GoType → Store → ℕ → Option (Bytes → Option Bytes) → Option Parts → Parsed
unfolding form_of
parse_form setup t st schema on_file stream =
    resolve_schema t st schema (form_of setup st (own_properties st schema) on_file stream)
