-- ===== src/Search/FanOut.antt =====
-- `search_all` of flydesk/search/async_service.py with the breakers and retries of
-- flydesk/common/resilience.py. The tasks run one after another, as they do for `max_concurrency=1`.
-- The event loop is a parameter. Times are in milliseconds.
pub mod Asked
pub mod Calls
pub mod Failing
use fly_desk.Prelude.{ℕ, String, List, [], ◌∷◌, true, false, Bool}
use fly_desk.Prelude.Dicts.{insert}
use fly_desk.Errors.{
  Exception, domain, circuit_open, timeout, validation, value_error, not_implemented, duplicate_key,
  cancelled, other, is_provider_error, Outcome, returned, raised,
}
use fly_desk.Errors.Actions.{Action}
use fly_desk.Domain.Models.{Offer}
use fly_desk.Domain.Criteria.{SearchCriteria}
use fly_desk.Resilience.{CircuitBreaker, Breakers, get_breaker, call}
use fly_desk.Resilience.Retry.{Policy, retry_async}
use fly_desk.Search.{Answer, combine}

-- The event loop: `time.monotonic`, `random.random` as a fraction of `unit`, `asyncio.sleep` for a
-- number of `1 / (2 * unit)` milliseconds, and `asyncio.timeout`.
pub record Loop : Type 1 where
  pub W : Type 0
  pub clock : W → ℕ
  pub unit : ℕ
  pub random : W → ℕ × W
  pub sleep : ℕ → W → W
  pub within : ℕ → Action W (List Offer) → Action W (List Offer)

pub record AsyncFlightProvider (l : Loop) : Type 0 where
  pub name : String
  pub search : SearchCriteria → Action l.W (List Offer)

abbrev pub per_provider_timeout : ℕ
per_provider_timeout = 8000

abbrev pub reset_timeout : ℕ
reset_timeout = 30000

-- `retry_on=(ProviderError, TimeoutError)`
unfoldable pub is_transient : Exception → Bool
unfolding is_provider_error
is_transient (domain e) = is_provider_error e.cls
is_transient timeout = true
is_transient _ = false

module _ (l : Loop) where
  -- The breakers of the process, and the world.
  abbrev pub Process : Type 0
  Process = Breakers × l.W

  -- `attempts=2` with the defaults of `retry_async`
  unfoldable pub policy : Policy
  policy = record {
    attempts = 2;
    base_delay = 100;
    max_delay = 2000;
    unit = l.unit;
    retry_on = is_transient;
  }

  module _ (criteria : SearchCriteria) where
    -- `_attempt`
    unfoldable pub attempt : AsyncFlightProvider l → Action l.W (List Offer)
    attempt p = l.within per_provider_timeout (p.search criteria)

    unfoldable pub retried : AsyncFlightProvider l → Action l.W (List Offer)
    unfolding attempt
    retried p = retry_async l.random l.sleep (policy) (attempt p)

    -- `_search_one`
    unfoldable pub search_one : AsyncFlightProvider l → Action Process (List Offer)
    search_one p (breakers, w) =
        let (b, known) = get_breaker reset_timeout p.name breakers in
        let (r, b', w') = call l.clock (retried p) b w in (r, (insert p.name b' known, w'))

    -- `asyncio.gather`, with the name of each provider beside its result
    unfoldable pub gather : List (AsyncFlightProvider l) → Process → List Answer × Process
    gather [] s = ([], s)
    gather (p ∷ providers) s =
        let (r, s') = search_one p s in
        let (rest, s'') = gather providers s' in ((p.name, r) ∷ rest, s'')

    unfoldable pub search_all :
        List (AsyncFlightProvider l) → Action Process (List Offer × List String)
    search_all providers s = let (answers, s') = gather providers s in (combine answers, s')
