-- ===== src/Library/Llhttp/Status.antt =====
-- include/llhttp.h: the status codes of answers.
use crinha.Prelude.{ℕ, List, [], ◌∷◌, codes}
use crinha.Library.Table.{Row, row}

pub data LlhttpStatus : Type 0 where
  http_status_continue http_status_switching_protocols http_status_processing : LlhttpStatus
  http_status_early_hints http_status_response_is_stale : LlhttpStatus
  http_status_revalidation_failed http_status_disconnected_operation : LlhttpStatus
  http_status_heuristic_expiration http_status_miscellaneous_warning http_status_ok : LlhttpStatus
  http_status_created http_status_accepted : LlhttpStatus
  http_status_non_authoritative_information http_status_no_content : LlhttpStatus
  http_status_reset_content http_status_partial_content http_status_multi_status : LlhttpStatus
  http_status_already_reported http_status_transformation_applied : LlhttpStatus
  http_status_im_used http_status_miscellaneous_persistent_warning : LlhttpStatus
  http_status_multiple_choices http_status_moved_permanently http_status_found : LlhttpStatus
  http_status_see_other http_status_not_modified http_status_use_proxy : LlhttpStatus
  http_status_switch_proxy http_status_temporary_redirect : LlhttpStatus
  http_status_permanent_redirect http_status_bad_request http_status_unauthorized : LlhttpStatus
  http_status_payment_required http_status_forbidden http_status_not_found : LlhttpStatus
  http_status_method_not_allowed http_status_not_acceptable : LlhttpStatus
  http_status_proxy_authentication_required http_status_request_timeout : LlhttpStatus
  http_status_conflict http_status_gone http_status_length_required : LlhttpStatus
  http_status_precondition_failed http_status_payload_too_large : LlhttpStatus
  http_status_uri_too_long http_status_unsupported_media_type : LlhttpStatus
  http_status_range_not_satisfiable http_status_expectation_failed : LlhttpStatus
  http_status_im_a_teapot http_status_page_expired http_status_enhance_your_calm : LlhttpStatus
  http_status_misdirected_request http_status_unprocessable_entity : LlhttpStatus
  http_status_locked http_status_failed_dependency http_status_too_early : LlhttpStatus
  http_status_upgrade_required http_status_precondition_required : LlhttpStatus
  http_status_too_many_requests : LlhttpStatus
  http_status_request_header_fields_too_large_unofficial : LlhttpStatus
  http_status_request_header_fields_too_large http_status_login_timeout : LlhttpStatus
  http_status_no_response http_status_retry_with : LlhttpStatus
  http_status_blocked_by_parental_control http_status_unavailable_for_legal_reasons : LlhttpStatus
  http_status_client_closed_load_balanced_request : LlhttpStatus
  http_status_invalid_x_forwarded_for http_status_request_header_too_large : LlhttpStatus
  http_status_ssl_certificate_error http_status_ssl_certificate_required : LlhttpStatus
  http_status_http_request_sent_to_https_port http_status_invalid_token : LlhttpStatus
  http_status_client_closed_request http_status_internal_server_error : LlhttpStatus
  http_status_not_implemented http_status_bad_gateway : LlhttpStatus
  http_status_service_unavailable http_status_gateway_timeout : LlhttpStatus
  http_status_http_version_not_supported http_status_variant_also_negotiates : LlhttpStatus
  http_status_insufficient_storage http_status_loop_detected : LlhttpStatus
  http_status_bandwidth_limit_exceeded http_status_not_extended : LlhttpStatus
  http_status_network_authentication_required http_status_web_server_unknown_error : LlhttpStatus
  http_status_web_server_is_down http_status_connection_timeout : LlhttpStatus
  http_status_origin_is_unreachable http_status_timeout_occured : LlhttpStatus
  http_status_ssl_handshake_failed http_status_invalid_ssl_certificate : LlhttpStatus
  http_status_railgun_error http_status_site_is_overloaded : LlhttpStatus
  http_status_site_is_frozen http_status_identity_provider_authentication_error : LlhttpStatus
  http_status_network_read_timeout http_status_network_connect_timeout : LlhttpStatus

abbrev pub status_value : LlhttpStatus → ℕ
status_value http_status_continue = 100
status_value http_status_switching_protocols = 101
status_value http_status_processing = 102
status_value http_status_early_hints = 103
status_value http_status_response_is_stale = 110
status_value http_status_revalidation_failed = 111
status_value http_status_disconnected_operation = 112
status_value http_status_heuristic_expiration = 113
status_value http_status_miscellaneous_warning = 199
status_value http_status_ok = 200
status_value http_status_created = 201
status_value http_status_accepted = 202
status_value http_status_non_authoritative_information = 203
status_value http_status_no_content = 204
status_value http_status_reset_content = 205
status_value http_status_partial_content = 206
status_value http_status_multi_status = 207
status_value http_status_already_reported = 208
status_value http_status_transformation_applied = 214
status_value http_status_im_used = 226
status_value http_status_miscellaneous_persistent_warning = 299
status_value http_status_multiple_choices = 300
status_value http_status_moved_permanently = 301
status_value http_status_found = 302
status_value http_status_see_other = 303
status_value http_status_not_modified = 304
status_value http_status_use_proxy = 305
status_value http_status_switch_proxy = 306
status_value http_status_temporary_redirect = 307
status_value http_status_permanent_redirect = 308
status_value http_status_bad_request = 400
status_value http_status_unauthorized = 401
status_value http_status_payment_required = 402
status_value http_status_forbidden = 403
status_value http_status_not_found = 404
status_value http_status_method_not_allowed = 405
status_value http_status_not_acceptable = 406
status_value http_status_proxy_authentication_required = 407
status_value http_status_request_timeout = 408
status_value http_status_conflict = 409
status_value http_status_gone = 410
status_value http_status_length_required = 411
status_value http_status_precondition_failed = 412
status_value http_status_payload_too_large = 413
status_value http_status_uri_too_long = 414
status_value http_status_unsupported_media_type = 415
status_value http_status_range_not_satisfiable = 416
status_value http_status_expectation_failed = 417
status_value http_status_im_a_teapot = 418
status_value http_status_page_expired = 419
status_value http_status_enhance_your_calm = 420
status_value http_status_misdirected_request = 421
status_value http_status_unprocessable_entity = 422
status_value http_status_locked = 423
status_value http_status_failed_dependency = 424
status_value http_status_too_early = 425
status_value http_status_upgrade_required = 426
status_value http_status_precondition_required = 428
status_value http_status_too_many_requests = 429
status_value http_status_request_header_fields_too_large_unofficial = 430
status_value http_status_request_header_fields_too_large = 431
status_value http_status_login_timeout = 440
status_value http_status_no_response = 444
status_value http_status_retry_with = 449
status_value http_status_blocked_by_parental_control = 450
status_value http_status_unavailable_for_legal_reasons = 451
status_value http_status_client_closed_load_balanced_request = 460
status_value http_status_invalid_x_forwarded_for = 463
status_value http_status_request_header_too_large = 494
status_value http_status_ssl_certificate_error = 495
status_value http_status_ssl_certificate_required = 496
status_value http_status_http_request_sent_to_https_port = 497
status_value http_status_invalid_token = 498
status_value http_status_client_closed_request = 499
status_value http_status_internal_server_error = 500
status_value http_status_not_implemented = 501
status_value http_status_bad_gateway = 502
status_value http_status_service_unavailable = 503
status_value http_status_gateway_timeout = 504
status_value http_status_http_version_not_supported = 505
status_value http_status_variant_also_negotiates = 506
status_value http_status_insufficient_storage = 507
status_value http_status_loop_detected = 508
status_value http_status_bandwidth_limit_exceeded = 509
status_value http_status_not_extended = 510
status_value http_status_network_authentication_required = 511
status_value http_status_web_server_unknown_error = 520
status_value http_status_web_server_is_down = 521
status_value http_status_connection_timeout = 522
status_value http_status_origin_is_unreachable = 523
status_value http_status_timeout_occured = 524
status_value http_status_ssl_handshake_failed = 525
status_value http_status_invalid_ssl_certificate = 526
status_value http_status_railgun_error = 527
status_value http_status_site_is_overloaded = 529
status_value http_status_site_is_frozen = 530
status_value http_status_identity_provider_authentication_error = 561
status_value http_status_network_read_timeout = 598
status_value http_status_network_connect_timeout = 599

-- HTTP_STATUS_MAP
abbrev pub http_status_map : List Row
http_status_map =
    row 100 (codes "CONTINUE") (codes "CONTINUE")
    ∷ row 101 (codes "SWITCHING_PROTOCOLS") (codes "SWITCHING_PROTOCOLS")
    ∷ row 102 (codes "PROCESSING") (codes "PROCESSING")
    ∷ row 103 (codes "EARLY_HINTS") (codes "EARLY_HINTS")
    ∷ row 110 (codes "RESPONSE_IS_STALE") (codes "RESPONSE_IS_STALE")
    ∷ row 111 (codes "REVALIDATION_FAILED") (codes "REVALIDATION_FAILED")
    ∷ row 112 (codes "DISCONNECTED_OPERATION") (codes "DISCONNECTED_OPERATION")
    ∷ row 113 (codes "HEURISTIC_EXPIRATION") (codes "HEURISTIC_EXPIRATION")
    ∷ row 199 (codes "MISCELLANEOUS_WARNING") (codes "MISCELLANEOUS_WARNING")
    ∷ row 200 (codes "OK") (codes "OK")
    ∷ row 201 (codes "CREATED") (codes "CREATED")
    ∷ row 202 (codes "ACCEPTED") (codes "ACCEPTED")
    ∷ row 203 (codes "NON_AUTHORITATIVE_INFORMATION") (codes "NON_AUTHORITATIVE_INFORMATION")
    ∷ row 204 (codes "NO_CONTENT") (codes "NO_CONTENT")
    ∷ row 205 (codes "RESET_CONTENT") (codes "RESET_CONTENT")
    ∷ row 206 (codes "PARTIAL_CONTENT") (codes "PARTIAL_CONTENT")
    ∷ row 207 (codes "MULTI_STATUS") (codes "MULTI_STATUS")
    ∷ row 208 (codes "ALREADY_REPORTED") (codes "ALREADY_REPORTED")
    ∷ row 214 (codes "TRANSFORMATION_APPLIED") (codes "TRANSFORMATION_APPLIED")
    ∷ row 226 (codes "IM_USED") (codes "IM_USED")
    ∷ row 299 (codes "MISCELLANEOUS_PERSISTENT_WARNING") (codes "MISCELLANEOUS_PERSISTENT_WARNING")
    ∷ row 300 (codes "MULTIPLE_CHOICES") (codes "MULTIPLE_CHOICES")
    ∷ row 301 (codes "MOVED_PERMANENTLY") (codes "MOVED_PERMANENTLY")
    ∷ row 302 (codes "FOUND") (codes "FOUND")
    ∷ row 303 (codes "SEE_OTHER") (codes "SEE_OTHER")
    ∷ row 304 (codes "NOT_MODIFIED") (codes "NOT_MODIFIED")
    ∷ row 305 (codes "USE_PROXY") (codes "USE_PROXY")
    ∷ row 306 (codes "SWITCH_PROXY") (codes "SWITCH_PROXY")
    ∷ row 307 (codes "TEMPORARY_REDIRECT") (codes "TEMPORARY_REDIRECT")
    ∷ row 308 (codes "PERMANENT_REDIRECT") (codes "PERMANENT_REDIRECT")
    ∷ row 400 (codes "BAD_REQUEST") (codes "BAD_REQUEST")
    ∷ row 401 (codes "UNAUTHORIZED") (codes "UNAUTHORIZED")
    ∷ row 402 (codes "PAYMENT_REQUIRED") (codes "PAYMENT_REQUIRED")
    ∷ row 403 (codes "FORBIDDEN") (codes "FORBIDDEN")
    ∷ row 404 (codes "NOT_FOUND") (codes "NOT_FOUND")
    ∷ row 405 (codes "METHOD_NOT_ALLOWED") (codes "METHOD_NOT_ALLOWED")
    ∷ row 406 (codes "NOT_ACCEPTABLE") (codes "NOT_ACCEPTABLE")
    ∷ row 407 (codes "PROXY_AUTHENTICATION_REQUIRED") (codes "PROXY_AUTHENTICATION_REQUIRED")
    ∷ row 408 (codes "REQUEST_TIMEOUT") (codes "REQUEST_TIMEOUT")
    ∷ row 409 (codes "CONFLICT") (codes "CONFLICT")
    ∷ row 410 (codes "GONE") (codes "GONE")
    ∷ row 411 (codes "LENGTH_REQUIRED") (codes "LENGTH_REQUIRED")
    ∷ row 412 (codes "PRECONDITION_FAILED") (codes "PRECONDITION_FAILED")
    ∷ row 413 (codes "PAYLOAD_TOO_LARGE") (codes "PAYLOAD_TOO_LARGE")
    ∷ row 414 (codes "URI_TOO_LONG") (codes "URI_TOO_LONG")
    ∷ row 415 (codes "UNSUPPORTED_MEDIA_TYPE") (codes "UNSUPPORTED_MEDIA_TYPE")
    ∷ row 416 (codes "RANGE_NOT_SATISFIABLE") (codes "RANGE_NOT_SATISFIABLE")
    ∷ row 417 (codes "EXPECTATION_FAILED") (codes "EXPECTATION_FAILED")
    ∷ row 418 (codes "IM_A_TEAPOT") (codes "IM_A_TEAPOT")
    ∷ row 419 (codes "PAGE_EXPIRED") (codes "PAGE_EXPIRED")
    ∷ row 420 (codes "ENHANCE_YOUR_CALM") (codes "ENHANCE_YOUR_CALM")
    ∷ row 421 (codes "MISDIRECTED_REQUEST") (codes "MISDIRECTED_REQUEST")
    ∷ row 422 (codes "UNPROCESSABLE_ENTITY") (codes "UNPROCESSABLE_ENTITY")
    ∷ row 423 (codes "LOCKED") (codes "LOCKED")
    ∷ row 424 (codes "FAILED_DEPENDENCY") (codes "FAILED_DEPENDENCY")
    ∷ row 425 (codes "TOO_EARLY") (codes "TOO_EARLY")
    ∷ row 426 (codes "UPGRADE_REQUIRED") (codes "UPGRADE_REQUIRED")
    ∷ row 428 (codes "PRECONDITION_REQUIRED") (codes "PRECONDITION_REQUIRED")
    ∷ row 429 (codes "TOO_MANY_REQUESTS") (codes "TOO_MANY_REQUESTS")
    ∷ row 430 (codes "REQUEST_HEADER_FIELDS_TOO_LARGE_UNOFFICIAL")
        (codes "REQUEST_HEADER_FIELDS_TOO_LARGE_UNOFFICIAL")
    ∷ row 431 (codes "REQUEST_HEADER_FIELDS_TOO_LARGE") (codes "REQUEST_HEADER_FIELDS_TOO_LARGE")
    ∷ row 440 (codes "LOGIN_TIMEOUT") (codes "LOGIN_TIMEOUT")
    ∷ row 444 (codes "NO_RESPONSE") (codes "NO_RESPONSE")
    ∷ row 449 (codes "RETRY_WITH") (codes "RETRY_WITH")
    ∷ row 450 (codes "BLOCKED_BY_PARENTAL_CONTROL") (codes "BLOCKED_BY_PARENTAL_CONTROL")
    ∷ row 451 (codes "UNAVAILABLE_FOR_LEGAL_REASONS") (codes "UNAVAILABLE_FOR_LEGAL_REASONS")
    ∷ row 460 (codes "CLIENT_CLOSED_LOAD_BALANCED_REQUEST")
        (codes "CLIENT_CLOSED_LOAD_BALANCED_REQUEST")
    ∷ row 463 (codes "INVALID_X_FORWARDED_FOR") (codes "INVALID_X_FORWARDED_FOR")
    ∷ row 494 (codes "REQUEST_HEADER_TOO_LARGE") (codes "REQUEST_HEADER_TOO_LARGE")
    ∷ row 495 (codes "SSL_CERTIFICATE_ERROR") (codes "SSL_CERTIFICATE_ERROR")
    ∷ row 496 (codes "SSL_CERTIFICATE_REQUIRED") (codes "SSL_CERTIFICATE_REQUIRED")
    ∷ row 497 (codes "HTTP_REQUEST_SENT_TO_HTTPS_PORT") (codes "HTTP_REQUEST_SENT_TO_HTTPS_PORT")
    ∷ row 498 (codes "INVALID_TOKEN") (codes "INVALID_TOKEN")
    ∷ row 499 (codes "CLIENT_CLOSED_REQUEST") (codes "CLIENT_CLOSED_REQUEST")
    ∷ row 500 (codes "INTERNAL_SERVER_ERROR") (codes "INTERNAL_SERVER_ERROR")
    ∷ row 501 (codes "NOT_IMPLEMENTED") (codes "NOT_IMPLEMENTED")
    ∷ row 502 (codes "BAD_GATEWAY") (codes "BAD_GATEWAY")
    ∷ row 503 (codes "SERVICE_UNAVAILABLE") (codes "SERVICE_UNAVAILABLE")
    ∷ row 504 (codes "GATEWAY_TIMEOUT") (codes "GATEWAY_TIMEOUT")
    ∷ row 505 (codes "HTTP_VERSION_NOT_SUPPORTED") (codes "HTTP_VERSION_NOT_SUPPORTED")
    ∷ row 506 (codes "VARIANT_ALSO_NEGOTIATES") (codes "VARIANT_ALSO_NEGOTIATES")
    ∷ row 507 (codes "INSUFFICIENT_STORAGE") (codes "INSUFFICIENT_STORAGE")
    ∷ row 508 (codes "LOOP_DETECTED") (codes "LOOP_DETECTED")
    ∷ row 509 (codes "BANDWIDTH_LIMIT_EXCEEDED") (codes "BANDWIDTH_LIMIT_EXCEEDED")
    ∷ row 510 (codes "NOT_EXTENDED") (codes "NOT_EXTENDED")
    ∷ row 511 (codes "NETWORK_AUTHENTICATION_REQUIRED") (codes "NETWORK_AUTHENTICATION_REQUIRED")
    ∷ row 520 (codes "WEB_SERVER_UNKNOWN_ERROR") (codes "WEB_SERVER_UNKNOWN_ERROR")
    ∷ row 521 (codes "WEB_SERVER_IS_DOWN") (codes "WEB_SERVER_IS_DOWN")
    ∷ row 522 (codes "CONNECTION_TIMEOUT") (codes "CONNECTION_TIMEOUT")
    ∷ row 523 (codes "ORIGIN_IS_UNREACHABLE") (codes "ORIGIN_IS_UNREACHABLE")
    ∷ row 524 (codes "TIMEOUT_OCCURED") (codes "TIMEOUT_OCCURED")
    ∷ row 525 (codes "SSL_HANDSHAKE_FAILED") (codes "SSL_HANDSHAKE_FAILED")
    ∷ row 526 (codes "INVALID_SSL_CERTIFICATE") (codes "INVALID_SSL_CERTIFICATE")
    ∷ row 527 (codes "RAILGUN_ERROR") (codes "RAILGUN_ERROR")
    ∷ row 529 (codes "SITE_IS_OVERLOADED") (codes "SITE_IS_OVERLOADED")
    ∷ row 530 (codes "SITE_IS_FROZEN") (codes "SITE_IS_FROZEN")
    ∷ row 561 (codes "IDENTITY_PROVIDER_AUTHENTICATION_ERROR")
        (codes "IDENTITY_PROVIDER_AUTHENTICATION_ERROR")
    ∷ row 598 (codes "NETWORK_READ_TIMEOUT") (codes "NETWORK_READ_TIMEOUT")
    ∷ row 599 (codes "NETWORK_CONNECT_TIMEOUT") (codes "NETWORK_CONNECT_TIMEOUT")
    ∷ []
