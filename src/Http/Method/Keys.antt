-- ===== src/Http/Method/Keys.antt =====
-- The key of a route determines its method and its path.
use gonest.Prelude.{[], ◌∷◌, ◌≡◌, refl, sym, ap, ◌∙◌, if◌then◌else◌, ◌==◌}
use gonest.Prelude.Bytes.{Bytes, bytes_eq, text}
use gonest.Http.Method.{
  HttpMethod, http_get, http_post, http_put, http_patch, http_delete, http_head, http_options,
  http_trace, http_connect, http_query, undeclared, method_string, route_key,
}

-- What stands before and behind the first blank.
first_word : Bytes → Bytes
first_word [] = []
first_word (c ∷ s) = let rest = first_word s in if c == b' ' then [] else c ∷ rest

after_blank : Bytes → Bytes
after_blank [] = []
after_blank (c ∷ s) = let rest = after_blank s in if c == b' ' then s else rest

of_string : Bytes → HttpMethod
unfolding bytes_eq
of_string s =
    if bytes_eq s (text "GET")
    then http_get
    else if bytes_eq s (text "POST")
    then http_post
    else if bytes_eq s (text "PUT")
    then http_put
    else if bytes_eq s (text "PATCH")
    then http_patch
    else if bytes_eq s (text "DELETE")
    then http_delete
    else if bytes_eq s (text "HEAD")
    then http_head
    else if bytes_eq s (text "OPTIONS")
    then http_options
    else if bytes_eq s (text "TRACE")
    then http_trace
    else if bytes_eq s (text "CONNECT")
    then http_connect
    else if bytes_eq s (text "QUERY")
    then http_query
    else undeclared 0

-- All that is undeclared has one key, "Unknown".
abbrev pub named : HttpMethod → HttpMethod
named (undeclared n) = undeclared 0
named method = method

of_string-first_word :
    (method : HttpMethod) (path : Bytes)
    → of_string (first_word (route_key method path)) ≡ named method
unfolding of_string first_word route_key method_string
of_string-first_word http_get path = refl
of_string-first_word http_post path = refl
of_string-first_word http_put path = refl
of_string-first_word http_patch path = refl
of_string-first_word http_delete path = refl
of_string-first_word http_head path = refl
of_string-first_word http_options path = refl
of_string-first_word http_trace path = refl
of_string-first_word http_connect path = refl
of_string-first_word http_query path = refl
of_string-first_word (undeclared n) path = refl

after_blank-route_key :
    (method : HttpMethod) (path : Bytes) → after_blank (route_key method path) ≡ path
unfolding after_blank route_key method_string
after_blank-route_key http_get path = refl
after_blank-route_key http_post path = refl
after_blank-route_key http_put path = refl
after_blank-route_key http_patch path = refl
after_blank-route_key http_delete path = refl
after_blank-route_key http_head path = refl
after_blank-route_key http_options path = refl
after_blank-route_key http_trace path = refl
after_blank-route_key http_connect path = refl
after_blank-route_key http_query path = refl
after_blank-route_key (undeclared n) path = refl

-- Routes whose keys are equal have the same path and the same method, where all values of HttpMethod
-- with no name count as one.
pub route_key-injective :
    (m n : HttpMethod) (p q : Bytes) → route_key m p ≡ route_key n q → (named m ≡ named n) × (p ≡ q)
route_key-injective m n p q h = (
  sym (of_string-first_word m p) ∙ ap (λ k. of_string (first_word k)) h ∙ of_string-first_word n q,
  sym (after_blank-route_key m p) ∙ ap after_blank h ∙ after_blank-route_key n q,
)
