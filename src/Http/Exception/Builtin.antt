-- ===== src/Http/Exception/Builtin.antt =====
-- The built-in exceptions (internal/exception/builtin.go).
pub mod Statuses
pub mod Texts
pub mod Laws
use Prim.Native.String.{String}
use gonest.Prelude.{ℕ, List, Option}
use gonest.Http.Exception.{Exception, new_builtin}

-- The types of builtin.go, without their last word.
pub data Builtin : Type 0 where
  bad_request : Builtin
  unauthorized : Builtin
  payment_required : Builtin
  forbidden : Builtin
  not_found : Builtin
  method_not_allowed : Builtin
  not_acceptable : Builtin
  proxy_auth_required : Builtin
  request_timeout : Builtin
  conflict : Builtin
  gone : Builtin
  length_required : Builtin
  precondition_failed : Builtin
  request_entity_too_large : Builtin
  request_uri_too_long : Builtin
  unsupported_media_type : Builtin
  requested_range_not_satisfiable : Builtin
  expectation_failed : Builtin
  teapot : Builtin
  misdirected_request : Builtin
  unprocessable_entity : Builtin
  locked : Builtin
  failed_dependency : Builtin
  too_early : Builtin
  upgrade_required : Builtin
  precondition_required : Builtin
  too_many_requests : Builtin
  request_header_fields_too_large : Builtin
  unavailable_for_legal_reasons : Builtin
  internal_server_error : Builtin
  not_implemented : Builtin
  bad_gateway : Builtin
  service_unavailable : Builtin
  gateway_timeout : Builtin
  http_version_not_supported : Builtin
  variant_also_negotiates : Builtin
  insufficient_storage : Builtin
  loop_detected : Builtin
  not_extended : Builtin
  network_authentication_required : Builtin

unfoldable pub status_of : Builtin → ℕ
status_of bad_request = 400
status_of unauthorized = 401
status_of payment_required = 402
status_of forbidden = 403
status_of not_found = 404
status_of method_not_allowed = 405
status_of not_acceptable = 406
status_of proxy_auth_required = 407
status_of request_timeout = 408
status_of conflict = 409
status_of gone = 410
status_of length_required = 411
status_of precondition_failed = 412
status_of request_entity_too_large = 413
status_of request_uri_too_long = 414
status_of unsupported_media_type = 415
status_of requested_range_not_satisfiable = 416
status_of expectation_failed = 417
status_of teapot = 418
status_of misdirected_request = 421
status_of unprocessable_entity = 422
status_of locked = 423
status_of failed_dependency = 424
status_of too_early = 425
status_of upgrade_required = 426
status_of precondition_required = 428
status_of too_many_requests = 429
status_of request_header_fields_too_large = 431
status_of unavailable_for_legal_reasons = 451
status_of internal_server_error = 500
status_of not_implemented = 501
status_of bad_gateway = 502
status_of service_unavailable = 503
status_of gateway_timeout = 504
status_of http_version_not_supported = 505
status_of variant_also_negotiates = 506
status_of insufficient_storage = 507
status_of loop_detected = 508
status_of not_extended = 510
status_of network_authentication_required = 511

unfoldable pub name_of : Builtin → String
name_of bad_request = "BadRequestException"
name_of unauthorized = "UnauthorizedException"
name_of payment_required = "PaymentRequiredException"
name_of forbidden = "ForbiddenException"
name_of not_found = "NotFoundException"
name_of method_not_allowed = "MethodNotAllowedException"
name_of not_acceptable = "NotAcceptableException"
name_of proxy_auth_required = "ProxyAuthRequiredException"
name_of request_timeout = "RequestTimeoutException"
name_of conflict = "ConflictException"
name_of gone = "GoneException"
name_of length_required = "LengthRequiredException"
name_of precondition_failed = "PreconditionFailedException"
name_of request_entity_too_large = "RequestEntityTooLargeException"
name_of request_uri_too_long = "RequestURITooLongException"
name_of unsupported_media_type = "UnsupportedMediaTypeException"
name_of requested_range_not_satisfiable = "RequestedRangeNotSatisfiableException"
name_of expectation_failed = "ExpectationFailedException"
name_of teapot = "TeapotException"
name_of misdirected_request = "MisdirectedRequestException"
name_of unprocessable_entity = "UnprocessableEntityException"
name_of locked = "LockedException"
name_of failed_dependency = "FailedDependencyException"
name_of too_early = "TooEarlyException"
name_of upgrade_required = "UpgradeRequiredException"
name_of precondition_required = "PreconditionRequiredException"
name_of too_many_requests = "TooManyRequestsException"
name_of request_header_fields_too_large = "RequestHeaderFieldsTooLargeException"
name_of unavailable_for_legal_reasons = "UnavailableForLegalReasonsException"
name_of internal_server_error = "InternalServerErrorException"
name_of not_implemented = "NotImplementedException"
name_of bad_gateway = "BadGatewayException"
name_of service_unavailable = "ServiceUnavailableException"
name_of gateway_timeout = "GatewayTimeoutException"
name_of http_version_not_supported = "HTTPVersionNotSupportedException"
name_of variant_also_negotiates = "VariantAlsoNegotiatesException"
name_of insufficient_storage = "InsufficientStorageException"
name_of loop_detected = "LoopDetectedException"
name_of not_extended = "NotExtendedException"
name_of network_authentication_required = "NetworkAuthenticationRequiredException"

unfoldable pub default_message_of : Builtin → String
default_message_of bad_request = "Bad request"
default_message_of unauthorized = "Unauthorized"
default_message_of payment_required = "Payment required"
default_message_of forbidden = "Forbidden"
default_message_of not_found = "Resource not found"
default_message_of method_not_allowed = "Method not allowed"
default_message_of not_acceptable = "Not acceptable"
default_message_of proxy_auth_required = "Proxy authentication required"
default_message_of request_timeout = "Request timeout"
default_message_of conflict = "Conflict"
default_message_of gone = "Gone"
default_message_of length_required = "Length required"
default_message_of precondition_failed = "Precondition failed"
default_message_of request_entity_too_large = "Request entity too large"
default_message_of request_uri_too_long = "Request URI too long"
default_message_of unsupported_media_type = "Unsupported media type"
default_message_of requested_range_not_satisfiable = "Requested range not satisfiable"
default_message_of expectation_failed = "Expectation failed"
default_message_of teapot = "I'm a teapot"
default_message_of misdirected_request = "Misdirected request"
default_message_of unprocessable_entity = "Unprocessable entity"
default_message_of locked = "Locked"
default_message_of failed_dependency = "Failed dependency"
default_message_of too_early = "Too early"
default_message_of upgrade_required = "Upgrade required"
default_message_of precondition_required = "Precondition required"
default_message_of too_many_requests = "Too many requests"
default_message_of request_header_fields_too_large = "Request header fields too large"
default_message_of unavailable_for_legal_reasons = "Unavailable for legal reasons"
default_message_of internal_server_error = "Internal server error"
default_message_of not_implemented = "Not implemented"
default_message_of bad_gateway = "Bad gateway"
default_message_of service_unavailable = "Service unavailable"
default_message_of gateway_timeout = "Gateway timeout"
default_message_of http_version_not_supported = "HTTP version not supported"
default_message_of variant_also_negotiates = "Variant also negotiates"
default_message_of insufficient_storage = "Insufficient storage"
default_message_of loop_detected = "Loop detected"
default_message_of not_extended = "Not extended"
default_message_of network_authentication_required = "Network authentication required"

-- The constructors of builtin.go. No two types have the same status, which stands for the type.
unfoldable pub new_exception : Builtin → String → List (Option ℕ) → Exception
new_exception b message details =
    new_builtin (status_of b) (status_of b) (name_of b) (default_message_of b) message details
