-- ===== src/Resilience/Probe.antt =====
-- The probe of the circuit breaker of flydesk/common/resilience.py: the first call after the reset
-- time.
use fly_desk.Prelude.{ℕ, ◌≤◌, ◌<◌, ◌≡◌, refl, true, false, some, arith}
use fly_desk.Errors.{is_exception, Outcome, returned, raised}
use fly_desk.Resilience.{
  CircuitBreaker, closed, half_open, open_circuit, state, is_open, on_success, on_failure, settle,
  call,
}
use fly_desk.Resilience.Breaker.{IsSound}

-- What the probe of a half-open breaker leaves: shut with no failures after a success, open since
-- the end of the call after a failure, and unchanged after a cancellation.
abbrev pub Probed : {A : Type 0} → Outcome A → CircuitBreaker → ℕ → CircuitBreaker → Type 0
Probed (returned _) b now b' =
    (state now b' ≡ closed) × (b'.failures ≡ 0) × (b'.failure_threshold ≡ b.failure_threshold)
Probed (raised e) b now b' = elim (is_exception e) [
  | true ↦ (state now b' ≡ open_circuit) × (b'.opened_at ≡ some now)
  | false ↦ b' ≡ b
]

half_open-failures :
    (b : CircuitBreaker) (now : ℕ)
    → IsSound b now
    → state now b ≡ half_open
    → b.failure_threshold ≤ b.failures
unfolding state
half_open-failures b now h e = ground arith

half_open-not_open :
    (b : CircuitBreaker) (now : ℕ) → state now b ≡ half_open → is_open now b ≡ false
unfolding is_open
half_open-not_open b now e = ground arith

module _ {W A : Type 0} (clock : W → ℕ) where
  call-half_open :
      (func : W → Outcome A × W) (b : CircuitBreaker) (w : W)
      → state (clock w) b ≡ half_open
      → call clock func b w ≡ settle clock (func w).0 b (func w).1
  unfolding call
  call-half_open func b w e = rw (half_open-not_open b (clock w) e)

  settle-outcome : (r : Outcome A) (b : CircuitBreaker) (w : W) → (settle clock r b w).0 ≡ r
  unfolding settle
  settle-outcome (returned a) b w = refl
  settle-outcome (raised e) b w = refl

  settle-world : (r : Outcome A) (b : CircuitBreaker) (w : W) → (settle clock r b w).2 ≡ w
  unfolding settle
  settle-world (returned a) b w = refl
  settle-world (raised e) b w = refl

  settle-Probed :
      (r : Outcome A) (b : CircuitBreaker) (w : W)
      → b.failure_threshold ≤ b.failures
      → 0 < b.reset_timeout
      → Probed r b (clock w) (settle clock r b w).1
  unfolding settle on_success on_failure state
  settle-Probed (returned a) b w m p = (refl, refl, refl)
  settle-Probed (raised e) b w m p = ground arith

  -- When the reset time has passed, the next call of a sound breaker is let through, has the
  -- outcome of the function, and decides alone whether the breaker shuts or opens again.
  pub half_open_probe :
      (func : W → Outcome A × W) (b : CircuitBreaker) (w : W)
      → IsSound b (clock w)
      → 0 < b.reset_timeout
      → state (clock w) b ≡ half_open
      → let (r, b', w') = call clock func b w in
        (r ≡ (func w).0) × (w' ≡ (func w).1) × Probed (func w).0 b (clock w') b'
  half_open_probe func b w h p e = rw (call-half_open func b w e) (
    settle-outcome (func w).0 b (func w).1,
    settle-world (func w).0 b (func w).1,
    rw (settle-world (func w).0 b (func w).1)
        (settle-Probed (func w).0 b (func w).1 (half_open-failures b (clock w) h e) p),
  )
