-- ===== src/Http/Exception/Builtin/Statuses.antt =====
-- The statuses of the built-in exceptions.
use gonest.Prelude.{ℕ, Option, none, some, ◌≡◌, refl, ◌==◌, ◌≤◌, if◌then◌else◌, arith}
use gonest.Http.Exception.Builtin.{
  Builtin, status_of, bad_request, unauthorized, payment_required, forbidden, not_found,
  method_not_allowed, not_acceptable, proxy_auth_required, request_timeout, conflict, gone,
  length_required, precondition_failed, request_entity_too_large, request_uri_too_long,
  unsupported_media_type, requested_range_not_satisfiable, expectation_failed, teapot,
  misdirected_request, unprocessable_entity, locked, failed_dependency, too_early, upgrade_required,
  precondition_required, too_many_requests, request_header_fields_too_large,
  unavailable_for_legal_reasons, internal_server_error, not_implemented, bad_gateway,
  service_unavailable, gateway_timeout, http_version_not_supported, variant_also_negotiates,
  insufficient_storage, loop_detected, not_extended, network_authentication_required,
}

-- The type that has a status.
unfoldable pub of_status : ℕ → Option Builtin
of_status n =
    if n == 400
    then some bad_request
    else if n == 401
    then some unauthorized
    else if n == 402
    then some payment_required
    else if n == 403
    then some forbidden
    else if n == 404
    then some not_found
    else if n == 405
    then some method_not_allowed
    else if n == 406
    then some not_acceptable
    else if n == 407
    then some proxy_auth_required
    else if n == 408
    then some request_timeout
    else if n == 409
    then some conflict
    else if n == 410
    then some gone
    else if n == 411
    then some length_required
    else if n == 412
    then some precondition_failed
    else if n == 413
    then some request_entity_too_large
    else if n == 414
    then some request_uri_too_long
    else if n == 415
    then some unsupported_media_type
    else if n == 416
    then some requested_range_not_satisfiable
    else if n == 417
    then some expectation_failed
    else if n == 418
    then some teapot
    else if n == 421
    then some misdirected_request
    else if n == 422
    then some unprocessable_entity
    else if n == 423
    then some locked
    else if n == 424
    then some failed_dependency
    else if n == 425
    then some too_early
    else if n == 426
    then some upgrade_required
    else if n == 428
    then some precondition_required
    else if n == 429
    then some too_many_requests
    else if n == 431
    then some request_header_fields_too_large
    else if n == 451
    then some unavailable_for_legal_reasons
    else if n == 500
    then some internal_server_error
    else if n == 501
    then some not_implemented
    else if n == 502
    then some bad_gateway
    else if n == 503
    then some service_unavailable
    else if n == 504
    then some gateway_timeout
    else if n == 505
    then some http_version_not_supported
    else if n == 506
    then some variant_also_negotiates
    else if n == 507
    then some insufficient_storage
    else if n == 508
    then some loop_detected
    else if n == 510
    then some not_extended
    else if n == 511
    then some network_authentication_required
    else none

pub of_status-status_of : (b : Builtin) → of_status (status_of b) ≡ some b
unfolding of_status status_of
of_status-status_of bad_request = refl
of_status-status_of unauthorized = refl
of_status-status_of payment_required = refl
of_status-status_of forbidden = refl
of_status-status_of not_found = refl
of_status-status_of method_not_allowed = refl
of_status-status_of not_acceptable = refl
of_status-status_of proxy_auth_required = refl
of_status-status_of request_timeout = refl
of_status-status_of conflict = refl
of_status-status_of gone = refl
of_status-status_of length_required = refl
of_status-status_of precondition_failed = refl
of_status-status_of request_entity_too_large = refl
of_status-status_of request_uri_too_long = refl
of_status-status_of unsupported_media_type = refl
of_status-status_of requested_range_not_satisfiable = refl
of_status-status_of expectation_failed = refl
of_status-status_of teapot = refl
of_status-status_of misdirected_request = refl
of_status-status_of unprocessable_entity = refl
of_status-status_of locked = refl
of_status-status_of failed_dependency = refl
of_status-status_of too_early = refl
of_status-status_of upgrade_required = refl
of_status-status_of precondition_required = refl
of_status-status_of too_many_requests = refl
of_status-status_of request_header_fields_too_large = refl
of_status-status_of unavailable_for_legal_reasons = refl
of_status-status_of internal_server_error = refl
of_status-status_of not_implemented = refl
of_status-status_of bad_gateway = refl
of_status-status_of service_unavailable = refl
of_status-status_of gateway_timeout = refl
of_status-status_of http_version_not_supported = refl
of_status-status_of variant_also_negotiates = refl
of_status-status_of insufficient_storage = refl
of_status-status_of loop_detected = refl
of_status-status_of not_extended = refl
of_status-status_of network_authentication_required = refl

pub status_of-bounds : (b : Builtin) → (400 ≤ status_of b) × (status_of b ≤ 511)
unfolding status_of
status_of-bounds bad_request = (omega arith, omega arith)
status_of-bounds unauthorized = (omega arith, omega arith)
status_of-bounds payment_required = (omega arith, omega arith)
status_of-bounds forbidden = (omega arith, omega arith)
status_of-bounds not_found = (omega arith, omega arith)
status_of-bounds method_not_allowed = (omega arith, omega arith)
status_of-bounds not_acceptable = (omega arith, omega arith)
status_of-bounds proxy_auth_required = (omega arith, omega arith)
status_of-bounds request_timeout = (omega arith, omega arith)
status_of-bounds conflict = (omega arith, omega arith)
status_of-bounds gone = (omega arith, omega arith)
status_of-bounds length_required = (omega arith, omega arith)
status_of-bounds precondition_failed = (omega arith, omega arith)
status_of-bounds request_entity_too_large = (omega arith, omega arith)
status_of-bounds request_uri_too_long = (omega arith, omega arith)
status_of-bounds unsupported_media_type = (omega arith, omega arith)
status_of-bounds requested_range_not_satisfiable = (omega arith, omega arith)
status_of-bounds expectation_failed = (omega arith, omega arith)
status_of-bounds teapot = (omega arith, omega arith)
status_of-bounds misdirected_request = (omega arith, omega arith)
status_of-bounds unprocessable_entity = (omega arith, omega arith)
status_of-bounds locked = (omega arith, omega arith)
status_of-bounds failed_dependency = (omega arith, omega arith)
status_of-bounds too_early = (omega arith, omega arith)
status_of-bounds upgrade_required = (omega arith, omega arith)
status_of-bounds precondition_required = (omega arith, omega arith)
status_of-bounds too_many_requests = (omega arith, omega arith)
status_of-bounds request_header_fields_too_large = (omega arith, omega arith)
status_of-bounds unavailable_for_legal_reasons = (omega arith, omega arith)
status_of-bounds internal_server_error = (omega arith, omega arith)
status_of-bounds not_implemented = (omega arith, omega arith)
status_of-bounds bad_gateway = (omega arith, omega arith)
status_of-bounds service_unavailable = (omega arith, omega arith)
status_of-bounds gateway_timeout = (omega arith, omega arith)
status_of-bounds http_version_not_supported = (omega arith, omega arith)
status_of-bounds variant_also_negotiates = (omega arith, omega arith)
status_of-bounds insufficient_storage = (omega arith, omega arith)
status_of-bounds loop_detected = (omega arith, omega arith)
status_of-bounds not_extended = (omega arith, omega arith)
status_of-bounds network_authentication_required = (omega arith, omega arith)
