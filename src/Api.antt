-- ===== src/Api.antt =====
-- The HTTP layer: how Django REST framework runs a view and answers what it raises through the handler
-- of flydesk/common/exceptions.py. The framework's serializers are parameters of the views.
pub mod Bookings
pub mod Searches
pub mod Middleware
use fly_desk.Prelude.{ℕ, Option, none, some}
use fly_desk.Errors.{Exception, ErrorResponse, drf_exception_handler, Outcome, returned, raised}

-- The answer to a request; an exception that the handler has no answer for is raised again.
pub data HttpReply (Body : Type 0) : Type 0 where
  answered : ℕ → Body → HttpReply Body
  failed : ErrorResponse → HttpReply Body
  unhandled : Exception → HttpReply Body

abbrev pub rendered : {Body : Type 0} → Exception → Option ErrorResponse → HttpReply Body
rendered e none = unhandled e
rendered e (some r) = failed r

-- `APIView.dispatch`: a view that returns gives its response with a status, and one that raises what
-- the handler makes of the exception.
abbrev pub dispatch :
    {A Body S : Type 0}
    → (Exception → Option ErrorResponse)
    → ℕ
    → (A → Body)
    → Outcome A × S
    → HttpReply Body × S
dispatch default status show (returned a, s) = (answered status (show a), s)
dispatch default status show (raised e, s) = (rendered e (drf_exception_handler default e), s)
