-- ===== src/Http/Tests.antt =====
-- A controller with two routes, and requests to them.
use gonest.Prelude.{ℕ, ◌+◌, List, [], ◌∷◌, ◌++◌, map, true, false, Option, none, some, ◌≡◌, refl}
use gonest.Prelude.Bytes.{text, bytes_eq}
use gonest.Http.Exception.{new_builtin}
use gonest.Http.Exception.Builtin.{status_of, new_exception, not_found, forbidden}
use gonest.Http.Chain.{
  Handler, returned, panicked, exception, Guard, verdict, wrap, compose_handler, gated_handler,
  intercepted_handler, refusal,
}
use gonest.Http.Chain.Order.{Layer, around, opening, closing}
use gonest.Http.Filter.{
  Filter, Reaction, function, context_type, catch_, handler_for, is_valid_catch_signature,
  find_catch, react, recover, filtered_handler,
}
use gonest.Http.Filter.Laws.{Recovers, filtered_handler-Recovers}
use gonest.Http.Method.{HttpMethod, http_get, http_put, method_string, route_key}
use gonest.Http.Routes.{
  Ctx, Route, Controller, ControllerRef, routable, not_routable, Root, duplicate_route, collected,
  route_handler, with_route, register_routes, key_of,
}
use gonest.Http.Routes.Collect.{AreFresh, all_routes, register_routes-repeated}
use gonest.Http.Routes.Dispatch.{route_handler-refused, route_handler-order}

-- Handlers write to a log.
abbrev Log : Type 0
Log = Ctx (List ℕ)

abbrev write : ℕ → Log → Log
write n c = record c { user = c.user ++ n ∷ [] }

abbrev layer : ℕ → Layer Log
layer n = (write n, write (100 + n))

abbrev ask : ℕ → Guard Log
ask n c = (write n c, verdict true)

abbrev refuse : ℕ → Guard Log
refuse n c = (write n c, verdict false)

abbrev answer : Handler Log
answer c = (write 5 c, returned)

abbrev react_with : ℕ → Reaction Log
react_with n e c = (write n c, returned)

abbrev catching : ℕ → ℕ → Filter Log
catching kind n = record { catches = (kind, react_with n) ∷ [] }

abbrev root : Root (List ℕ)
root = record { own_middleware = map around (layer 1 ∷ []); own_filters = catching 403 8 ∷ [] }

abbrev get_cats : Route (List ℕ)
get_cats = record { id = 7; method = http_get; path = text "/cats"; handler_func = answer }

abbrev put_cats : Route (List ℕ)
put_cats = record { id = 9; method = http_put; path = text "/cats"; handler_func = answer }

abbrev cats : List (Guard Log) → Controller (List ℕ)
cats guards = record {
  path_prefix = text "/api";
  own_routes = get_cats ∷ put_cats ∷ [];
  middleware = map around (layer 2 ∷ []);
  guards = guards;
  interceptors = map around (layer 4 ∷ []);
  filters = catching 404 6 ∷ [];
}

abbrev empty_log : Log
empty_log = record { current_route = none; has_sources = false; user = [] }

abbrev logged : List ℕ → Log
logged user = record { current_route = some 7; has_sources = true; user = user }

open_route :
    route_handler root (cats (ask 3 ∷ [])) get_cats empty_log
    ≡ (logged (1 ∷ 2 ∷ 3 ∷ 4 ∷ 5 ∷ 104 ∷ 102 ∷ 101 ∷ []), returned)
unfolding wrap compose_handler gated_handler intercepted_handler filtered_handler with_route
    route_handler
open_route = refl

refused_route :
    route_handler root (cats (ask 3 ∷ refuse 0 ∷ ask 9 ∷ [])) get_cats empty_log
    ≡ (logged (1 ∷ 2 ∷ 3 ∷ 0 ∷ 8 ∷ []), returned)
unfolding wrap compose_handler gated_handler intercepted_handler filtered_handler with_route
    route_handler find_catch handler_for new_exception new_builtin status_of
refused_route = refl

route_handler-order_example :
    route_handler root (cats (ask 3 ∷ [])) get_cats empty_log
    ≡ recover (catching 404 6 ∷ []) (catching 403 8 ∷ []) (
        closing
          (layer 1 ∷ layer 2 ∷ [])
          (closing (layer 4 ∷ []) (answer (opening (layer 4 ∷ []) (logged (1 ∷ 2 ∷ 3 ∷ []))))))
route_handler-order_example =
    route_handler-order root (cats (ask 3 ∷ [])) get_cats (layer 1 ∷ []) (layer 2 ∷ [])
      (layer 4 ∷ []) empty_log (logged (1 ∷ 2 ∷ 3 ∷ [])) refl refl refl
      (logged (1 ∷ 2 ∷ 3 ∷ []), refl, refl)

route_handler-refused_example :
    route_handler root (cats (ask 3 ∷ refuse 0 ∷ ask 9 ∷ [])) get_cats empty_log
    ≡ react
        (new_exception forbidden "" (none ∷ []))
        (logged (1 ∷ 2 ∷ 3 ∷ 0 ∷ []))
        (find_catch
          ((catching 404 6 ∷ []) ++ catching 403 8 ∷ [])
          (new_exception forbidden "" (none ∷ [])).kind)
        (logged (1 ∷ 2 ∷ 3 ∷ 0 ∷ []), panicked refusal)
route_handler-refused_example =
    route_handler-refused root (cats (ask 3 ∷ refuse 0 ∷ ask 9 ∷ [])) get_cats (layer 1 ∷ [])
      (layer 2 ∷ []) (ask 3 ∷ []) (refuse 0) (ask 9 ∷ []) empty_log (logged (1 ∷ 2 ∷ 3 ∷ []))
      (logged (1 ∷ 2 ∷ 3 ∷ 0 ∷ [])) refl refl refl (logged (1 ∷ 2 ∷ 3 ∷ []), refl, refl) refl

filtered_handler-Recovers_example :
    Recovers
      ((catching 404 6 ∷ []) ++ catching 404 8 ∷ [])
      (write 5 empty_log, panicked (exception (new_exception not_found "" [])))
      (filtered_handler
        (catching 404 6 ∷ [])
        (catching 404 8 ∷ [])
        (λ c. (write 5 c, panicked (exception (new_exception not_found "" []))))
        empty_log)
filtered_handler-Recovers_example =
    filtered_handler-Recovers (catching 404 6 ∷ []) (catching 404 8 ∷ [])
      (λ c. (write 5 c, panicked (exception (new_exception not_found "" [])))) empty_log

caught :
    catch_ (catching 403 8) 404 (function (context_type ∷ 404 ∷ []) [] (react_with 6))
    ≡ some (record { catches = (404, react_with 6) ∷ (403, react_with 8) ∷ [] })
unfolding catch_ is_valid_catch_signature
caught = refl

same_kind :
    (new_exception not_found "" (some 3 ∷ [])).kind ≡ (new_exception not_found "No cat" []).kind
unfolding new_exception new_builtin
same_kind = refl

keys-same : route_key http_get (text "/a b") ≡ route_key http_get (text "/a b")
keys-same = refl

-- An adapter that keeps the keys of its routes.
abbrev keep : HttpMethod → List ℕ → Handler Log → List (List ℕ) → List (List ℕ) × Option ℕ
keep method path handler a = (a ++ route_key method path ∷ [], none)

abbrev modules : List (List (ControllerRef (List ℕ)))
modules = (not_routable ∷ []) ∷ (routable (cats []) ∷ []) ∷ []

fresh : AreFresh [] (all_routes root modules)
unfolding bytes_eq route_key method_string
fresh = (refl, (refl, tt))

abbrev again : List (List (ControllerRef (List ℕ)))
again = (routable (cats []) ∷ routable (cats []) ∷ []) ∷ []

fresh_cats :
    AreFresh [] (collected root (cats []) get_cats ∷ collected root (cats []) put_cats ∷ [])
unfolding bytes_eq route_key method_string
fresh_cats = (refl, (refl, tt))

register_routes-repeated_example :
    register_routes keep root again []
    ≡ ([], some (duplicate_route (key_of (collected root (cats []) get_cats))))
unfolding bytes_eq route_key method_string
register_routes-repeated_example =
    register_routes-repeated keep root again []
      (collected root (cats []) get_cats ∷ collected root (cats []) put_cats ∷ [])
      (collected root (cats []) get_cats) (collected root (cats []) put_cats ∷ []) refl fresh_cats
      refl
