-- ===== src/Http/Exception/Builtin/Laws.antt =====
-- What every built-in exception has.
use Prim.Native.String.{String}
use gonest.Prelude.{
  ℕ, List, Option, false, ◌≡◌, refl, sym, ap, ◌∙◌, ◌≤◌, if◌then◌else◌, some-injective,
}
use gonest.Http.Exception.{effective_name, new_builtin, is_empty, first_detail}
use gonest.Http.Exception.Builtin.{Builtin, name_of, default_message_of, new_exception}
use gonest.Http.Exception.Builtin.Statuses.{of_status, of_status-status_of, status_of-bounds}
use gonest.Http.Exception.Builtin.Texts.{name_of-nonempty, default_message_of-nonempty}

nonempty :
    (b : Builtin) (message : String)
    → is_empty (if is_empty message then default_message_of b else message) ≡ false
nonempty b String.[] = default_message_of-nonempty b
nonempty b (String.◌∷◌ c s) = refl

-- A built-in exception has an HTTP error status and is reported under its type's name, its message is
-- never empty, its details are the first ones given, and of two exceptions of the same concrete type
-- both come from the same constructor.
pub new_exception_lem :
    (b c : Builtin) (message text : String) (details more : List (Option ℕ))
    → (new_exception b message details).kind ≡ (new_exception c text more).kind
    → (400 ≤ (new_exception b message details).http.status)
      × ((new_exception b message details).http.status ≤ 511)
      × (effective_name (new_exception b message details) ≡ name_of b)
      × (is_empty (new_exception b message details).http.message ≡ false)
      × ((new_exception b message details).http.details ≡ first_detail details)
      × (b ≡ c)
unfolding new_exception new_builtin effective_name
new_exception_lem b c message text details more same = (
  (status_of-bounds b).0,
  (status_of-bounds b).1,
  rw (name_of-nonempty b) refl,
  nonempty b message,
  refl,
  some-injective (sym (of_status-status_of b) ∙ ap of_status same ∙ of_status-status_of c),
)
