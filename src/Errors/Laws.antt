-- ===== src/Errors/Laws.antt =====
-- The error responses of flydesk/common/exceptions.py.
use fly_desk.Prelude.{
  ◌≤◌, ◌<◌, String, ◌≡◌, refl, ap, sym, ◌∙◌, Option, none, some, str_eq, if◌then◌else◌, arith,
}
use mathlib.Core.Option.{some-injective}
use fly_desk.Errors.{
  ErrorClass, flydesk, provider, provider_timeout, offer_not_found, offer_expired,
  booking_not_found, booking_in_progress, status_code, code, FlyDeskError, Exception, domain,
  validation, ErrorResponse, drf_exception_handler,
}

-- The class that a machine-readable code names.
class_of_code : String → Option ErrorClass
class_of_code s =
    if str_eq s "internal_error"
    then some flydesk
    else if str_eq s "provider_error"
    then some provider
    else if str_eq s "provider_timeout"
    then some provider_timeout
    else if str_eq s "offer_not_found"
    then some offer_not_found
    else if str_eq s "offer_expired"
    then some offer_expired
    else if str_eq s "booking_not_found"
    then some booking_not_found
    else if str_eq s "booking_in_progress"
    then some booking_in_progress
    else none

class_of_code-code : (c : ErrorClass) → class_of_code (code c) ≡ some c
unfolding class_of_code code
class_of_code-code flydesk = refl
class_of_code-code provider = refl
class_of_code-code provider_timeout = refl
class_of_code-code offer_not_found = refl
class_of_code-code offer_expired = refl
class_of_code-code booking_not_found = refl
class_of_code-code booking_in_progress = refl

-- Two error classes with the same code are the same class, so a client can tell them apart.
pub code-injective : (c d : ErrorClass) → code c ≡ code d → c ≡ d
code-injective c d e =
    some-injective c d (sym (class_of_code-code c) ∙ ap class_of_code e ∙ class_of_code-code d)

status-is_error : (c : ErrorClass) → (400 ≤ status_code c) × (status_code c < 600)
unfolding status_code
status-is_error flydesk = omega arith
status-is_error _ = omega arith

-- Whatever the framework's handler does: a domain error is answered with its own code and message
-- and an error status from 400 to 599, and a validation error with the status 400 and its details.
pub handler-answers :
    (default : Exception → Option ErrorResponse) (e : FlyDeskError) (errors : String)
    → (r v : ErrorResponse) × (drf_exception_handler default (domain e) ≡ some r)
      × (r.error_code ≡ code e.cls)
      × (r.message ≡ e.message)
      × (400 ≤ r.status)
      × (r.status < 600)
      × (drf_exception_handler default (validation errors) ≡ some v)
      × (v.status ≡ 400)
      × (v.details ≡ some errors)
unfolding drf_exception_handler
handler-answers default e errors = (
  record {
    error_code = code e.cls;
    message = e.message;
    details = none;
    status = status_code e.cls;
  },
  record {
    error_code = "validation_error";
    message = "request failed domain validation";
    details = some errors;
    status = 400;
  },
  refl,
  refl,
  refl,
  (status-is_error e.cls).0,
  (status-is_error e.cls).1,
  refl,
  refl,
  refl,
)
