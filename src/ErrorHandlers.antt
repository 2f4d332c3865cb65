-- ===== src/ErrorHandlers.antt =====
-- app/error_handlers.py (exceptions become JSON responses) and the request id of
-- app/logging_config.py that those responses carry.
pub mod Responses
mod Tests
use ssh_reports_hub_fast_api.Prelude.{
  ℕ, String, Bool, true, false, Option, none, some, str_eq, if◌then◌else◌,
}
use ssh_reports_hub_fast_api.Exceptions.{Headers, AppException, Exc, app, http, other}

-- What the handlers read: the context variable `request_id_ctx`, the client's header
-- `x-request-id`, and the fresh identifiers that `uuid.uuid4()` would give.
pub record RequestInfo : Type 0 where
  pub request_id_ctx : String
  pub x_request_id : Option String

abbrev pub header_or_empty : Option String → String
header_or_empty none = ""
header_or_empty (some v) = v

unfoldable pub extract_request_id : RequestInfo → String → String
extract_request_id req fresh =
    if str_eq req.request_id_ctx ""
    then (if str_eq (header_or_empty req.x_request_id) ""
        then fresh
        else header_or_empty req.x_request_id)
    else req.request_id_ctx

pub record Response : Type 0 where
  pub status_code : ℕ
  pub detail : String
  pub error_code : String
  pub request_id : String
  pub headers : Option Headers

unfoldable pub error_response : ℕ → String → String → String → Option Headers → Response
error_response status detail error_code rid headers = record {
  status_code = status;
  detail = detail;
  error_code = error_code;
  request_id = rid;
  headers = headers;
}

unfoldable pub app_base_exception_handler : RequestInfo → String → AppException → Response
unfolding extract_request_id error_response
app_base_exception_handler req fresh exc =
    error_response exc.status_code exc.detail exc.error_code (extract_request_id req fresh)
      exc.headers

unfoldable pub http_exception_handler :
    RequestInfo → String → ℕ → String → Option Headers → Response
unfolding extract_request_id error_response
http_exception_handler req fresh status detail headers =
    error_response status detail "HTTP_ERROR" (extract_request_id req fresh) headers

unfoldable pub unhandled_exception_handler : RequestInfo → String → String → Response
unfolding extract_request_id error_response
unhandled_exception_handler req fresh text =
    error_response 500 "Internal Server Error" "INTERNAL_ERROR" (extract_request_id req fresh) none

-- `register_exception_handlers`: each exception goes to the handler of its nearest class.
unfoldable pub handle : RequestInfo → String → Exc → Response
unfolding app_base_exception_handler http_exception_handler unhandled_exception_handler
handle req fresh (app exc) = app_base_exception_handler req fresh exc
handle req fresh (http status detail headers) =
    http_exception_handler req fresh status detail headers
handle req fresh (other text) = unhandled_exception_handler req fresh text

-- `RequestIDMiddleware.dispatch`: the id is the client's header or a fresh one; it is put in the
-- context variable before the handler runs.
abbrev pub assigned_id : Option String → String → String
assigned_id none fresh = fresh
assigned_id (some v) fresh = v

-- The request as the exception handlers see it.
abbrev pub identified : Option String → String → RequestInfo
identified header fresh = record {
  request_id_ctx = assigned_id header fresh;
  x_request_id = header;
}

-- The handlers of the application and of HTTP exceptions answer inside of the middleware, which then sets
-- the header; the one of `Exception` answers outside of it, where `call_next` has raised.
unfoldable pub is_handled_inside : Exc → Bool
is_handled_inside (other text) = false
is_handled_inside _ = true

-- What the handler of an exception sees. Outside of the middleware the context variable holds `outer_ctx`,
-- which is an argument: a middleware further out may run the inner application in a task of its own.
unfoldable pub seen_by : Exc → Option String → String → String → RequestInfo
unfolding is_handled_inside
seen_by exc header fresh outer_ctx =
    if is_handled_inside exc
    then identified header fresh
    else record { request_id_ctx = outer_ctx; x_request_id = header }

-- The error response with its `X-Request-ID` header.
unfoldable pub dispatch_error :
    Option String → String → String → String → Exc → Response × Option String
unfolding handle seen_by
dispatch_error header fresh fresh' outer_ctx exc = (
  handle (seen_by exc header fresh outer_ctx) fresh' exc,
  if is_handled_inside exc then some (assigned_id header fresh) else none,
)
