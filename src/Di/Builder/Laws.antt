-- ===== src/Di/Builder/Laws.antt =====
-- What the builder methods do on each kind of token.
use gonest.Prelude.{ℕ, List, [], ◌∷◌, ◌++◌, Option, none, some, ◌≡◌, append_assoc, append-nil}
use gonest.Di.Token.{TokenRef, module_ref, provider_ref, Method, Panic, wrong_token}
use gonest.Di.Builder
use gonest.Di.Builder.{Module}

-- The modules and the providers among the tokens of one `Exports` call, and the first other token.
abbrev pub modules_of : List TokenRef → List ℕ
modules_of [] = []
modules_of (module_ref i ∷ refs) = i ∷ modules_of refs
modules_of (provider_ref p ∷ refs) = modules_of refs
modules_of (_ ∷ refs) = []

abbrev pub providers_of : List TokenRef → List ℕ
providers_of [] = []
providers_of (module_ref i ∷ refs) = providers_of refs
providers_of (provider_ref p ∷ refs) = p ∷ providers_of refs
providers_of (_ ∷ refs) = []

abbrev pub refused_by_exports : List TokenRef → Option Panic
refused_by_exports [] = none
refused_by_exports (module_ref i ∷ refs) = refused_by_exports refs
refused_by_exports (provider_ref p ∷ refs) = refused_by_exports refs
refused_by_exports (ref ∷ refs) = some (wrong_token Method.exports ref)

-- `Exports` files each token under its kind, in order, up to the first token that is neither, and
-- panics exactly if there is one.
pub exports_lem :
    (refs : List TokenRef) (m : Module)
    → Builder.exports refs m ≡ (
      refused_by_exports refs,
      record m {
        exports = m.exports ++ providers_of refs;
        exported_modules = m.exported_modules ++ modules_of refs;
      },
    )
unfolding Builder.exports
exports_lem [] m = simp append-nil
exports_lem (module_ref i ∷ refs) m =
    rw (exports_lem refs (record m { exported_modules = m.exported_modules ++ i ∷ [] }))
      (simp append_assoc)
exports_lem (provider_ref p ∷ refs) m =
    rw (exports_lem refs (record m { exports = m.exports ++ p ∷ [] })) (simp append_assoc)
exports_lem (_ ∷ refs) m = simp append-nil
