-- ===== src/Http/Method.antt =====
-- HTTP methods and the keys of routes (internal/route/method.go, and the key in registerRoutes of
-- internal/app/app.go).
pub mod Keys
use gonest.Prelude.{ℕ, ◌∷◌, ◌++◌}
use gonest.Prelude.Bytes.{Bytes, text}

-- `HttpMethod`; a value with no name is `undeclared`.
pub data HttpMethod : Type 0 where
  http_get : HttpMethod
  http_post : HttpMethod
  http_put : HttpMethod
  http_patch : HttpMethod
  http_delete : HttpMethod
  http_head : HttpMethod
  http_options : HttpMethod
  http_trace : HttpMethod
  http_connect : HttpMethod
  http_query : HttpMethod
  undeclared : ℕ → HttpMethod

-- `String`
unfoldable pub method_string : HttpMethod → Bytes
method_string http_get = text "GET"
method_string http_post = text "POST"
method_string http_put = text "PUT"
method_string http_patch = text "PATCH"
method_string http_delete = text "DELETE"
method_string http_head = text "HEAD"
method_string http_options = text "OPTIONS"
method_string http_trace = text "TRACE"
method_string http_connect = text "CONNECT"
method_string http_query = text "QUERY"
method_string (undeclared n) = text "Unknown"

unfoldable pub route_key : HttpMethod → Bytes → Bytes
route_key method path = method_string method ++ b' ' ∷ path
