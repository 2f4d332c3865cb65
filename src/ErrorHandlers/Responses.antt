-- ===== src/ErrorHandlers/Responses.antt =====
-- What a client sees of an exception (app/error_handlers.py, app/exceptions.py).
use ssh_reports_hub_fast_api.Prelude.{
  String, ◌≡◌, refl, sym, ◌∙◌, ◌≢◌, none, some, str_eq, true, if◌then◌else◌, ◌⊎◌, inl, inr, [], ◌∷◌,
}
use ssh_reports_hub_fast_api.Exceptions.{
  ExceptionClass, authentication, class_status, class_code, make, no_overrides, app, other, http,
  Exc,
}
use ssh_reports_hub_fast_api.ErrorHandlers.{
  RequestInfo, extract_request_id, handle, identified, is_handled_inside, dispatch_error, seen_by,
}

-- An exception of the application that is raised without overrides reaches the client with the
-- status and the error code of its class and its own detail; one of class
-- `AuthenticationException` carries the Bearer challenge, and one of any other class no headers.
pub handle-make :
    (req : RequestInfo) (fresh : String) (cls : ExceptionClass) (detail : String)
    → let r = handle req fresh (app (make cls detail no_overrides)) in
      (r.status_code ≡ class_status cls)
      × (r.error_code ≡ class_code cls)
      × (r.detail ≡ detail)
      × ((cls ≡ authentication) × (r.headers ≡ some (("WWW-Authenticate", "Bearer") ∷ []))
          ⊎ (cls ≢ authentication) × (r.headers ≡ none))
unfolding handle make
handle-make req fresh authentication detail = (refl, refl, refl, inl (refl, refl))
handle-make req fresh _ detail = (refl, refl, refl, inr ((λ e. cc), refl))

-- An exception that no handler knows gives a 500 whose body and headers do not depend on the
-- exception: its text never reaches the client.
pub handle-other :
    (req : RequestInfo) (fresh text text' : String)
    → (handle req fresh (other text) ≡ handle req fresh (other text'))
      × ((handle req fresh (other text)).status_code ≡ 500)
unfolding handle
handle-other req fresh text text' = (refl, refl)

request_id-handle :
    (req : RequestInfo) (fresh : String) (exc : Exc)
    → (handle req fresh exc).request_id ≡ extract_request_id req fresh
unfolding handle
request_id-handle req fresh (app exc) = refl
request_id-handle req fresh (http status detail headers) = refl
request_id-handle req fresh (other text) = refl

-- `s or default`
abbrev pub or_given : String → String → String
or_given s default = if str_eq s "" then default else s

-- A client that sends an empty `x-request-id` gets, for an exception that is answered inside of the
-- middleware, a response header and an error body that name two different requests: the header is empty,
-- and the body carries another identifier.
pub dispatch_error_empty :
    (fresh fresh' outer_ctx : String) (exc : Exc)
    → fresh' ≢ ""
    → is_handled_inside exc ≡ true
    → ((dispatch_error (some "") fresh fresh' outer_ctx exc).1 ≡ some "")
      × ((dispatch_error (some "") fresh fresh' outer_ctx exc).0.request_id ≢ "")
unfolding dispatch_error seen_by
dispatch_error_empty fresh fresh' outer_ctx exc h inside =
    (rw inside refl, rw inside (λ e. h (sym body-id ∙ e)))
  where
    body-id : (handle (identified (some "") fresh) fresh' exc).request_id ≡ fresh'
    body-id =
        request_id-handle (identified (some "") fresh) fresh' exc
        ∙ (unfold extract_request_id in refl)
