-- ===== src/Di/Builder.antt =====
-- The module record and its builder methods (internal/module/module.go, internal/module/lazy.go).
pub mod Laws
use Prim.Native.String.{String}
use gonest.Prelude.{ℕ, List, [], ◌∷◌, ◌++◌, Option, none, some}
use gonest.Di.Token.{
  TokenRef, module_ref, provider_ref, controller_ref, resolver_ref, middleware_ref, filter_ref,
  listener_ref, scheduler_ref, Method, Panic, wrong_token, LazyCall, Call,
}

pub record Module : Type 0 where
  pub name : String
  pub imports : List ℕ
  pub providers : List ℕ
  pub controllers : List ℕ
  pub resolvers : List ℕ
  pub exports : List ℕ
  pub exported_modules : List ℕ
  pub middleware : List ℕ
  pub filters : List ℕ
  pub listeners : List ℕ
  pub schedulers : List ℕ

-- What `New(fn)` returns, before `fn` runs.
abbrev pub new : Module
new = record {
  name = "";
  imports = [];
  providers = [];
  controllers = [];
  resolvers = [];
  exports = [];
  exported_modules = [];
  middleware = [];
  filters = [];
  listeners = [];
  schedulers = [];
}

-- A builder method changes its module, and may panic; what was appended before the panic stays.
abbrev pub Build : Type 0
Build = Module → Option Panic × Module

-- `for _, ref := range refs`: `accept` appends one token, `none` where the type assertion fails.
register : Method → (TokenRef → Module → Option Module) → List TokenRef → Build
register method accept [] m = (none, m)
register method accept (ref ∷ refs) m = elim (accept ref m) [
  | none ↦ (some (wrong_token method ref), m)
  | some m' ↦ register method accept refs m'
]

accept_import : TokenRef → Module → Option Module
accept_import (module_ref i) m = some (record m { imports = m.imports ++ i ∷ [] })
accept_import _ m = none

accept_provider : TokenRef → Module → Option Module
accept_provider (provider_ref p) m = some (record m { providers = m.providers ++ p ∷ [] })
accept_provider _ m = none

accept_controller : TokenRef → Module → Option Module
accept_controller (controller_ref c) m = some (record m { controllers = m.controllers ++ c ∷ [] })
accept_controller _ m = none

accept_resolver : TokenRef → Module → Option Module
accept_resolver (resolver_ref r) m = some (record m { resolvers = m.resolvers ++ r ∷ [] })
accept_resolver _ m = none

-- The type switch of `Exports`.
accept_export : TokenRef → Module → Option Module
accept_export (module_ref i) m = some (record m { exported_modules = m.exported_modules ++ i ∷ [] })
accept_export (provider_ref p) m = some (record m { exports = m.exports ++ p ∷ [] })
accept_export _ m = none

accept_middleware : TokenRef → Module → Option Module
accept_middleware (middleware_ref w) m = some (record m { middleware = m.middleware ++ w ∷ [] })
accept_middleware _ m = none

accept_filter : TokenRef → Module → Option Module
accept_filter (filter_ref f) m = some (record m { filters = m.filters ++ f ∷ [] })
accept_filter _ m = none

accept_listener : TokenRef → Module → Option Module
accept_listener (listener_ref l) m = some (record m { listeners = m.listeners ++ l ∷ [] })
accept_listener _ m = none

accept_scheduler : TokenRef → Module → Option Module
accept_scheduler (scheduler_ref s) m = some (record m { schedulers = m.schedulers ++ s ∷ [] })
accept_scheduler _ m = none

unfoldable pub imports : List TokenRef → Build
unfolding register accept_import
imports = register Method.imports accept_import

unfoldable pub providers : List TokenRef → Build
unfolding register accept_provider
providers = register Method.providers accept_provider

unfoldable pub controllers : List TokenRef → Build
unfolding register accept_controller
controllers = register Method.controllers accept_controller

unfoldable pub resolvers : List TokenRef → Build
unfolding register accept_resolver
resolvers = register Method.resolvers accept_resolver

unfoldable pub exports : List TokenRef → Build
unfolding register accept_export
exports = register Method.exports accept_export

unfoldable pub uses : List TokenRef → Build
unfolding register accept_middleware
uses = register Method.uses accept_middleware

unfoldable pub filters : List TokenRef → Build
unfolding register accept_filter
filters = register Method.filters accept_filter

unfoldable pub listeners : List TokenRef → Build
unfolding register accept_listener
listeners = register Method.listeners accept_listener

unfoldable pub schedulers : List TokenRef → Build
unfolding register accept_scheduler
schedulers = register Method.schedulers accept_scheduler

set_name : String → Build
set_name n m = (none, record m { name = n })

-- One builder call after another, up to the first panic.
then_run : Option Panic × Module → Build → Option Panic × Module
then_run (some p, m) next = (some p, m)
then_run (none, m) next = next m

-- The methods of `LazyModule` delegate to the module that owns it.
lazy : List LazyCall → Build
unfolding imports exports then_run
lazy [] m = (none, m)
lazy (LazyCall.imports refs ∷ calls) m = then_run (imports refs m) (lazy calls)
lazy (LazyCall.exports refs ∷ calls) m = then_run (exports refs m) (lazy calls)

call : Call → Build
unfolding set_name imports providers controllers resolvers exports uses filters listeners schedulers
    lazy
call (Call.name n) = set_name n
call (Call.imports refs) = imports refs
call (Call.providers refs) = providers refs
call (Call.controllers refs) = controllers refs
call (Call.resolvers refs) = resolvers refs
call (Call.exports refs) = exports refs
call (Call.uses refs) = uses refs
call (Call.filters refs) = filters refs
call (Call.listeners refs) = listeners refs
call (Call.schedulers refs) = schedulers refs
call (Call.lazy calls) = lazy calls

-- `m.fn(m)`.
unfoldable pub run_fn : List Call → Build
unfolding call then_run
run_fn [] m = (none, m)
run_fn (c ∷ calls) m = then_run (call c m) (run_fn calls)
