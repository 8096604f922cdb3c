-- ===== src/Errors.antt =====
-- flydesk/common/exceptions.py: the domain exceptions and the handler that renders them. The
-- framework's own handler is a parameter.
pub mod Laws
pub mod Actions
use fly_desk.Prelude.{ℕ, String, Bool, true, false, Option, none, some, str_eq, if◌then◌else◌}

-- The class `FlyDeskError` and its subclasses.
pub data ErrorClass : Type 0 where
  flydesk provider provider_timeout offer_not_found offer_expired booking_not_found
        booking_in_progress :
      ErrorClass

unfoldable pub status_code : ErrorClass → ℕ
status_code flydesk = 500
status_code provider = 502
status_code provider_timeout = 504
status_code offer_not_found = 404
status_code offer_expired = 409
status_code booking_not_found = 404
status_code booking_in_progress = 409

unfoldable pub code : ErrorClass → String
code flydesk = "internal_error"
code provider = "provider_error"
code provider_timeout = "provider_timeout"
code offer_not_found = "offer_not_found"
code offer_expired = "offer_expired"
code booking_not_found = "booking_not_found"
code booking_in_progress = "booking_in_progress"

-- The docstrings, the messages of errors raised with none.
unfoldable pub doc : ErrorClass → String
doc flydesk = "Base class for expected domain errors."
doc provider = "The upstream flight provider returned an error."
doc provider_timeout = "The upstream flight provider timed out."
doc offer_not_found = "The requested offer does not exist."
doc offer_expired = "The offer is no longer valid; search again before booking."
doc booking_not_found = "No booking exists with that id."
doc booking_in_progress = "A booking with this idempotency key is already being processed."

-- `isinstance(exc, ProviderError)` on the class: `ProviderTimeoutError` is a subclass of it.
unfoldable pub is_provider_error : ErrorClass → Bool
is_provider_error provider = true
is_provider_error provider_timeout = true
is_provider_error _ = false

pub record FlyDeskError : Type 0 where
  pub cls : ErrorClass
  pub message : String

-- `FlyDeskError.__init__`: an absent or empty message is replaced by the docstring.
unfoldable pub init : ErrorClass → Option String → FlyDeskError
init c none = record { cls = c; message = doc c }
init c (some m) = record { cls = c; message = if str_eq m "" then doc c else m }

-- The exceptions that the modelled code raises or lets through; `other` is any further subclass
-- of `Exception`.
pub data Exception : Type 0 where
  domain : FlyDeskError → Exception
  circuit_open : String → Exception
  timeout : Exception
  validation : String → Exception
  value_error : String → Exception
  not_implemented : Exception
  duplicate_key : Exception
  cancelled : Exception
  other : String → Exception

-- `isinstance(exc, Exception)`: a cancellation is a `BaseException` only.
unfoldable pub is_exception : Exception → Bool
is_exception cancelled = false
is_exception _ = true

-- What a call ends with.
pub data Outcome {ℓ} (A : Type ℓ) : Type ℓ where
  returned : A → Outcome A
  raised : Exception → Outcome A

-- A JSON error response. `details` is what pydantic says of a validation error.
pub record ErrorResponse : Type 0 where
  pub error_code : String
  pub message : String
  pub details : Option String
  pub status : ℕ

module _ (drf_default_handler : Exception → Option ErrorResponse) where
  unfoldable pub drf_exception_handler : Exception → Option ErrorResponse
  drf_exception_handler (domain e) = some (record {
    error_code = code e.cls;
    message = e.message;
    details = none;
    status = status_code e.cls;
  })
  drf_exception_handler (validation errors) = some (record {
    error_code = "validation_error";
    message = "request failed domain validation";
    details = some errors;
    status = 400;
  })
  drf_exception_handler exc = drf_default_handler exc
