-- ===== src/ErrorHandlers/Tests.antt =====
-- The theorems about the error responses at concrete requests.
use ssh_reports_hub_fast_api.Prelude.{◌≡◌, refl, none}
use ssh_reports_hub_fast_api.Exceptions.{other}
use ssh_reports_hub_fast_api.ErrorHandlers.{
  RequestInfo, handle, dispatch_error, is_handled_inside, seen_by, extract_request_id,
}
use ssh_reports_hub_fast_api.ErrorHandlers.Responses.{handle-other}

abbrev request : RequestInfo
request = record { request_id_ctx = "r-1"; x_request_id = none }

handle-other_example :
    (handle request "f" (other "password=1") ≡ handle request "f" (other "KeyError"))
    × ((handle request "f" (other "password=1")).status_code ≡ 500)
handle-other_example = handle-other request "f" "password=1" "KeyError"

-- An exception that no handler knows is answered without the header, and with another identifier than the
-- one that the middleware assigned.
unhandled_has_no_header :
    ((dispatch_error none "a" "b" "" (other "KeyError")).0.request_id ≡ "b")
    × ((dispatch_error none "a" "b" "" (other "KeyError")).1 ≡ none)
unfolding dispatch_error seen_by is_handled_inside handle extract_request_id
unhandled_has_no_header = (refl, refl)
