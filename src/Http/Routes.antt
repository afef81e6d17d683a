-- ===== src/Http/Routes.antt =====
-- The registration of routes (registerRoutes of internal/app/app.go).
pub mod Collect
pub mod Dispatch
use gonest.Prelude.{
  ℕ, List, [], ◌∷◌, ◌++◌, Bool, true, false, Option, none, some, Result, ok, err, ◌>>=◌,
  if◌then◌else◌,
}
use gonest.Prelude.Bytes.{Bytes, has_key}
use gonest.Http.Chain.{
  Handler, Middleware, Guard, compose_handler, gated_handler, intercepted_handler,
}
use gonest.Http.Filter.{Filter, filtered_handler}
use gonest.Http.Method.{HttpMethod, route_key}

-- What `withRoute` writes to a request, and all else that handlers can reach.
pub record Ctx {ℓ} (U : Type ℓ) : Type ℓ where
  pub current_route : Option ℕ
  pub has_sources : Bool
  pub user : U

-- `id` is the pointer to the route.
pub record Route {ℓ} (U : Type ℓ) : Type ℓ where
  pub id : ℕ
  pub method : HttpMethod
  pub path : Bytes
  pub handler_func : Handler (Ctx U)

pub record Controller {ℓ} (U : Type ℓ) : Type ℓ where
  pub path_prefix : Bytes
  pub own_routes : List (Route U)
  pub middleware : List (Middleware (Ctx U))
  pub guards : List (Guard (Ctx U))
  pub interceptors : List (Middleware (Ctx U))
  pub filters : List (Filter (Ctx U))

-- A registered controller, which may be of a type that has no routes.
pub data ControllerRef {ℓ} (U : Type ℓ) : Type ℓ where
  routable : Controller U → ControllerRef U
  not_routable : ControllerRef U

-- What registerRoutes reads of the root module.
pub record Root {ℓ} (U : Type ℓ) : Type ℓ where
  pub own_middleware : List (Middleware (Ctx U))
  pub own_filters : List (Filter (Ctx U))

pub record Collected {ℓ} (U : Type ℓ) : Type ℓ where
  pub method : HttpMethod
  pub path : Bytes
  pub handler : Handler (Ctx U)

-- The variables `routes` and `seen`, the latest key first.
pub record Routes {ℓ} (U : Type ℓ) : Type ℓ where
  pub routes : List (Collected U)
  pub seen : List Bytes

-- A key that is registered twice, or an error of the adapter.
pub data RouteError : Type 0 where
  duplicate_route : Bytes → RouteError
  adapter_error : ℕ → RouteError

module _ {ℓ} {U : Type ℓ} where
  -- What `withRoute` does before it goes on.
  abbrev pub attach : Route U → Ctx U → Ctx U
  attach r c = record c { current_route = some r.id; has_sources = true }

  unfoldable pub with_route : Route U → Handler (Ctx U) → Handler (Ctx U)
  with_route r composed c = composed (attach r c)

  abbrev pub full_path : Controller U → Route U → Bytes
  full_path rc r = rc.path_prefix ++ r.path

  unfoldable pub route_handler : Root U → Controller U → Route U → Handler (Ctx U)
  route_handler root rc r =
      let intercepted = intercepted_handler rc.interceptors r.handler_func in
      let gated = gated_handler rc.guards intercepted in
      let composed = compose_handler root.own_middleware rc.middleware gated in
      filtered_handler rc.filters root.own_filters (with_route r composed)

  abbrev pub collected : Root U → Controller U → Route U → Collected U
  collected root rc r = record {
    method = r.method;
    path = full_path rc r;
    handler = route_handler root rc r;
  }

  abbrev pub key_of : Collected U → Bytes
  key_of x = route_key x.method x.path

  -- One round of the innermost loop.
  unfoldable pub collect_one : Collected U → Routes U → Result RouteError (Routes U)
  collect_one x s =
      if has_key s.seen (key_of x)
      then err (duplicate_route (key_of x))
      else ok (record { routes = s.routes ++ x ∷ []; seen = key_of x ∷ s.seen })

  unfoldable pub collect_routes :
      Root U → Controller U → List (Route U) → Routes U → Result RouteError (Routes U)
  collect_routes root rc [] s = ok s
  collect_routes root rc (r ∷ rs) s =
      collect_one (collected root rc r) s >>= collect_routes root rc rs

  unfoldable pub collect_controllers :
      Root U → List (ControllerRef U) → Routes U → Result RouteError (Routes U)
  collect_controllers root [] s = ok s
  collect_controllers root (not_routable ∷ cs) s = collect_controllers root cs s
  collect_controllers root (routable rc ∷ cs) s =
      collect_routes root rc rc.own_routes s >>= collect_controllers root cs

  -- A module is the list of its controllers.
  unfoldable pub collect_modules :
      Root U → List (List (ControllerRef U)) → Routes U → Result RouteError (Routes U)
  collect_modules root [] s = ok s
  collect_modules root (m ∷ modules) s =
      collect_controllers root m s >>= collect_modules root modules

  abbrev pub no_routes : Routes U
  no_routes = record { routes = []; seen = [] }

  -- `RegisterRoute` of an adapter whose state is of type `A`.
  module _ {κ} {A : Type κ}
      (register_route : HttpMethod → Bytes → Handler (Ctx U) → A → A × Option ℕ) where
    abbrev registered : A × Option ℕ → (A → A × Option RouteError) → A × Option RouteError
    registered (a, none) rest = rest a
    registered (a, some e) rest = (a, some (adapter_error e))

    -- The second loop.
    unfoldable pub register_all : List (Collected U) → A → A × Option RouteError
    register_all [] a = (a, none)
    register_all (x ∷ xs) a =
        registered (register_route x.method x.path x.handler a) (register_all xs)

    abbrev pub register_collected : Result RouteError (Routes U) → A → A × Option RouteError
    register_collected (err failure) a = (a, some failure)
    register_collected (ok s) a = register_all s.routes a

    unfoldable pub register_routes :
        Root U → List (List (ControllerRef U)) → A → A × Option RouteError
    register_routes root modules a = register_collected (collect_modules root modules no_routes) a
