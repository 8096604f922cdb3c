-- ===== src/Resilience.antt =====
-- flydesk/common/resilience.py: bounded retries and the circuit breaker. Times are natural
-- numbers of clock ticks. A call into other code is a function on a state of the world, which
-- also answers the clock.
pub mod Retry
pub mod RetryLaws
pub mod Breaker
pub mod Probe
pub mod Rounds
use fly_desk.Prelude.{ℕ, zero, suc, ◌+◌, String, Bool, Option, none, some, leb, ltb, if◌then◌else◌}
use fly_desk.Prelude.Dicts.{Dict, lookup, insert}
use fly_desk.Prelude.{List, []}
use fly_desk.Errors.{Exception, circuit_open, is_exception, Outcome, returned, raised}

pub data BreakerState : Type 0 where
  closed half_open open_circuit : BreakerState

pub record CircuitBreaker : Type 0 where
  pub name : String
  pub failure_threshold : ℕ
  pub reset_timeout : ℕ
  pub failures : ℕ
  pub opened_at : Option ℕ

-- `CircuitBreaker.__init__`
unfoldable pub new_breaker : String → ℕ → ℕ → CircuitBreaker
new_breaker name failure_threshold reset_timeout = record {
  name = name;
  failure_threshold = failure_threshold;
  reset_timeout = reset_timeout;
  failures = 0;
  opened_at = none;
}

-- `CircuitBreaker.state` at the time `now`; the test is `now - opened_at >= reset_timeout`.
unfoldable pub state : ℕ → CircuitBreaker → BreakerState
state now b = elim b.opened_at [
  | none ↦ closed
  | some t ↦ if leb (t + b.reset_timeout) now then half_open else open_circuit
]

unfoldable pub on_success : CircuitBreaker → CircuitBreaker
on_success b = record b { failures = 0; opened_at = none }

unfoldable pub on_failure : ℕ → CircuitBreaker → CircuitBreaker
on_failure now b = record b {
  failures = b.failures + 1;
  opened_at = if leb b.failure_threshold (b.failures + 1) then some now else b.opened_at;
}

-- `state == "open"`, the test that rejects a call
unfoldable pub is_open : ℕ → CircuitBreaker → Bool
unfolding state
is_open now b = elim (state now b) [ open_circuit ↦ Bool.true | _ ↦ Bool.false ]

module _ {W A : Type 0} (clock : W → ℕ) where
  -- What `call` does to the breaker when the function has ended.
  unfoldable pub settle : Outcome A → CircuitBreaker → W → Outcome A × CircuitBreaker × W
  settle (returned a) b w = (returned a, on_success b, w)
  settle (raised e) b w = (raised e, (if is_exception e then on_failure (clock w) b else b), w)

  -- `CircuitBreaker.call`
  unfoldable pub call : (W → Outcome A × W) → CircuitBreaker → W → Outcome A × CircuitBreaker × W
  unfolding is_open settle
  call func b w =
      if is_open (clock w) b
      then (raised (circuit_open b.name), b, w)
      else let (r, w') = func w in settle r b w'

-- The process-level `_breakers` with the defaults that `get_breaker` gives a new one; times are
-- in seconds here.
abbrev pub Breakers : Type 0
Breakers = Dict CircuitBreaker

unfoldable pub get_breaker : ℕ → String → Breakers → CircuitBreaker × Breakers
unfolding new_breaker
get_breaker reset_timeout name d = elim (lookup name d) [
  | some b ↦ (b, d)
  | none ↦
      let fresh : CircuitBreaker = new_breaker name 3 reset_timeout in (fresh, insert name fresh d)
]

unfoldable pub reset_breakers : Breakers → Breakers
reset_breakers d = []
