-- ===== src/Api/Middleware.antt =====
-- flydesk/common/middleware.py and the correlation id of flydesk/common/logging.py. `uuid4` and the
-- application behind the middleware are parameters, as is the clock. The headers are those of the
-- framework with their names in one spelling.
pub mod Correlation
use fly_desk.Prelude.{ℕ, ◌-◌, String, Option, none, some, List, [], ◌∷◌, ◌++◌}
use fly_desk.Prelude.Dicts.{Dict, lookup, insert}
use fly_desk.Prelude.Options.{or_default, ◌>>=◌}
use fly_desk.Errors.{Outcome, returned, raised}
use fly_desk.Errors.Actions.{Action}
use fly_desk.Bookings.Service.{truthy}

abbrev pub correlation_header : String
correlation_header = "X-Correlation-ID"

pub record HttpRequest : Type 0 where
  pub method : String
  pub path : String
  pub headers : Dict String
  pub correlation_id : Option String
  -- the name of the view that the resolver has found
  pub view_name : Option String

pub record HttpResponse : Type 0 where
  pub status_code : ℕ
  pub headers : Dict String

-- One sample of the counters `flydesk_http_requests_total` and of its latency histogram.
pub record Sample : Type 0 where
  pub method : String
  pub view : String
  pub status : ℕ
  pub elapsed : ℕ

-- The `ContextVar`, the samples taken, and the rest of the world.
pub record Context (E : Type 0) : Type 0 where
  pub correlation_id : Option String
  pub samples : List Sample
  pub env : E

-- `CorrelationIdFilter.filter`: what a log record gets.
unfoldable pub logged_id : {E : Type 0} → Context E → String
logged_id s = or_default (s.correlation_id >>= λ cid. truthy (some cid)) "-"

-- What `JsonFormatter.format` reads of a record; an attribute that is missing is `none`.
pub record LogRecord : Type 0 where
  pub levelname : String
  pub name : String
  pub message : String
  pub correlation_id : Option String
  -- the text of the exception
  pub exc_info : Option String

abbrev pub exception_entry : Option String → Dict String
exception_entry none = []
exception_entry (some text) = ("exc_info", text) ∷ []

-- The payload of `JsonFormatter.format`, with the time as text.
unfoldable pub log_payload : String → LogRecord → Dict String
log_payload ts r =
    ("ts", ts)
    ∷ ("level", r.levelname)
    ∷ ("logger", r.name)
    ∷ ("message", r.message)
    ∷ ("correlation_id", or_default r.correlation_id "-")
    ∷ exception_entry r.exc_info

module _ {E : Type 0} (uuid4 : E → String × E) (clock : E → ℕ)
    (get_response : HttpRequest → Action (Context E) HttpResponse) where
  -- The id of the request: that of its header, or a new one.
  unfoldable pub id_of : HttpRequest → E → String × E
  id_of request env = elim (truthy (lookup correlation_header request.headers)) [
    | some cid ↦ (cid, env)
    | none ↦ uuid4 env
  ]

  abbrev pub echo : String → Outcome HttpResponse → Outcome HttpResponse
  echo cid (returned r) = returned (record r { headers = insert correlation_header cid r.headers })
  echo cid (raised e) = raised e

  -- `CorrelationIdMiddleware.__call__`; `finally` resets the variable to what it was before.
  unfoldable pub correlate : HttpRequest → Action (Context E) HttpResponse
  unfolding id_of
  correlate request s =
      let (cid, env) = id_of request s.env in
      let (res, s') =
        get_response (record request { correlation_id = some cid })
          (record s { correlation_id = some cid; env = env }) in
      (echo cid res, record s' { correlation_id = s.correlation_id })

  -- What is recorded of an answer. A request that raised is not recorded.
  abbrev pub sampled : HttpRequest → ℕ → Outcome HttpResponse → Context E → Context E
  sampled request start (raised e) s = s
  sampled request start (returned r) s = record s {
    samples =
        s.samples
        ++ record {
          method = request.method;
          view = or_default request.view_name request.path;
          status = r.status_code;
          elapsed = clock s.env - start;
        }
          ∷ [];
  }

  -- `MetricsMiddleware.__call__`
  unfoldable pub measure : HttpRequest → Action (Context E) HttpResponse
  measure request s =
      let (res, s') = get_response request s in (res, sampled request (clock s.env) res s')
