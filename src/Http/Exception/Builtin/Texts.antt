-- ===== src/Http/Exception/Builtin/Texts.antt =====
-- The texts of the built-in exceptions are not empty.
use gonest.Prelude.{false, ◌≡◌, refl}
use gonest.Http.Exception.{is_empty}
use gonest.Http.Exception.Builtin.{
  Builtin, name_of, default_message_of, bad_request, unauthorized, payment_required, forbidden,
  not_found, method_not_allowed, not_acceptable, proxy_auth_required, request_timeout, conflict,
  gone, length_required, precondition_failed, request_entity_too_large, request_uri_too_long,
  unsupported_media_type, requested_range_not_satisfiable, expectation_failed, teapot,
  misdirected_request, unprocessable_entity, locked, failed_dependency, too_early, upgrade_required,
  precondition_required, too_many_requests, request_header_fields_too_large,
  unavailable_for_legal_reasons, internal_server_error, not_implemented, bad_gateway,
  service_unavailable, gateway_timeout, http_version_not_supported, variant_also_negotiates,
  insufficient_storage, loop_detected, not_extended, network_authentication_required,
}

pub name_of-nonempty : (b : Builtin) → is_empty (name_of b) ≡ false
unfolding name_of
name_of-nonempty bad_request = refl
name_of-nonempty unauthorized = refl
name_of-nonempty payment_required = refl
name_of-nonempty forbidden = refl
name_of-nonempty not_found = refl
name_of-nonempty method_not_allowed = refl
name_of-nonempty not_acceptable = refl
name_of-nonempty proxy_auth_required = refl
name_of-nonempty request_timeout = refl
name_of-nonempty conflict = refl
name_of-nonempty gone = refl
name_of-nonempty length_required = refl
name_of-nonempty precondition_failed = refl
name_of-nonempty request_entity_too_large = refl
name_of-nonempty request_uri_too_long = refl
name_of-nonempty unsupported_media_type = refl
name_of-nonempty requested_range_not_satisfiable = refl
name_of-nonempty expectation_failed = refl
name_of-nonempty teapot = refl
name_of-nonempty misdirected_request = refl
name_of-nonempty unprocessable_entity = refl
name_of-nonempty locked = refl
name_of-nonempty failed_dependency = refl
name_of-nonempty too_early = refl
name_of-nonempty upgrade_required = refl
name_of-nonempty precondition_required = refl
name_of-nonempty too_many_requests = refl
name_of-nonempty request_header_fields_too_large = refl
name_of-nonempty unavailable_for_legal_reasons = refl
name_of-nonempty internal_server_error = refl
name_of-nonempty not_implemented = refl
name_of-nonempty bad_gateway = refl
name_of-nonempty service_unavailable = refl
name_of-nonempty gateway_timeout = refl
name_of-nonempty http_version_not_supported = refl
name_of-nonempty variant_also_negotiates = refl
name_of-nonempty insufficient_storage = refl
name_of-nonempty loop_detected = refl
name_of-nonempty not_extended = refl
name_of-nonempty network_authentication_required = refl

pub default_message_of-nonempty : (b : Builtin) → is_empty (default_message_of b) ≡ false
unfolding default_message_of
default_message_of-nonempty bad_request = refl
default_message_of-nonempty unauthorized = refl
default_message_of-nonempty payment_required = refl
default_message_of-nonempty forbidden = refl
default_message_of-nonempty not_found = refl
default_message_of-nonempty method_not_allowed = refl
default_message_of-nonempty not_acceptable = refl
default_message_of-nonempty proxy_auth_required = refl
default_message_of-nonempty request_timeout = refl
default_message_of-nonempty conflict = refl
default_message_of-nonempty gone = refl
default_message_of-nonempty length_required = refl
default_message_of-nonempty precondition_failed = refl
default_message_of-nonempty request_entity_too_large = refl
default_message_of-nonempty request_uri_too_long = refl
default_message_of-nonempty unsupported_media_type = refl
default_message_of-nonempty requested_range_not_satisfiable = refl
default_message_of-nonempty expectation_failed = refl
default_message_of-nonempty teapot = refl
default_message_of-nonempty misdirected_request = refl
default_message_of-nonempty unprocessable_entity = refl
default_message_of-nonempty locked = refl
default_message_of-nonempty failed_dependency = refl
default_message_of-nonempty too_early = refl
default_message_of-nonempty upgrade_required = refl
default_message_of-nonempty precondition_required = refl
default_message_of-nonempty too_many_requests = refl
default_message_of-nonempty request_header_fields_too_large = refl
default_message_of-nonempty unavailable_for_legal_reasons = refl
default_message_of-nonempty internal_server_error = refl
default_message_of-nonempty not_implemented = refl
default_message_of-nonempty bad_gateway = refl
default_message_of-nonempty service_unavailable = refl
default_message_of-nonempty gateway_timeout = refl
default_message_of-nonempty http_version_not_supported = refl
default_message_of-nonempty variant_also_negotiates = refl
default_message_of-nonempty insufficient_storage = refl
default_message_of-nonempty loop_detected = refl
default_message_of-nonempty not_extended = refl
default_message_of-nonempty network_authentication_required = refl
