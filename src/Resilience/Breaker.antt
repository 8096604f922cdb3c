-- ===== src/Resilience/Breaker.antt =====
-- Laws of the circuit breaker of flydesk/common/resilience.py: calls one after another, and calls
-- that overlap on one event loop.
use fly_desk.Prelude.{
  ℕ, zero, suc, ◌+◌, ◌-◌, ◌≤◌, ◌<◌, ◌≡◌, true, false, Option, none, some, arith, ap, ◌∙◌,
}
use fly_desk.Errors.{circuit_open, is_exception, Outcome, returned, raised}
use fly_desk.Resilience.{CircuitBreaker, is_open, on_success, on_failure, settle, call}

-- The breaker is shut exactly below the threshold, and never opened in the future.
abbrev pub OpenedAt : CircuitBreaker → ℕ → Option ℕ → Type 0
OpenedAt b now none = b.failures < b.failure_threshold
OpenedAt b now (some t) = (b.failure_threshold ≤ b.failures) × (t ≤ now)

abbrev pub IsSound : CircuitBreaker → ℕ → Type 0
IsSound b now = (0 < b.failure_threshold) × OpenedAt b now b.opened_at

-- A breaker that several tasks share: calls have begun and not ended yet.
pub record Shared : Type 0 where
  pub breaker : CircuitBreaker
  pub now : ℕ
  pub in_flight : ℕ

-- Time passes, a call is let in, or a call that is in flight ends, in any order.
pub data Step : Shared → Shared → Type 0 where
  tick : (s : Shared) (n : ℕ) → Step s (record s { now = s.now + n })
  admit :
      (s : Shared)
      → is_open s.now s.breaker ≡ false
      → Step s (record s { in_flight = s.in_flight + 1 })
  finish :
      (s : Shared) (r : Outcome Unit)
      → 0 < s.in_flight
      → Step s (record s {
        breaker = (settle (λ n. n) r s.breaker s.now).1;
        in_flight = s.in_flight - 1;
      })

pub data Reach (s : Shared) : Shared → Type 0 where
  here : Reach s s
  next : {t u : Shared} → Reach s t → Step t u → Reach s u

settle-IsSound :
    (r : Outcome Unit) (b : CircuitBreaker) (now : ℕ)
    → IsSound b now
    → IsSound (settle (λ n. n) r b now).1 now
unfolding settle on_success on_failure
settle-IsSound (returned a) b now h = ground arith
settle-IsSound (raised e) b now h = ground arith

OpenedAt-later :
    (b : CircuitBreaker) (now n : ℕ) (o : Option ℕ) → OpenedAt b now o → OpenedAt b (now + n) o
OpenedAt-later b now n none h = h
OpenedAt-later b now n (some t) h = omega arith

Step-IsSound : {s t : Shared} → Step s t → IsSound s.breaker s.now → IsSound t.breaker t.now
Step-IsSound (tick s n) h = (h.0, OpenedAt-later s.breaker s.now n s.breaker.opened_at h.1)
Step-IsSound (admit s o) h = h
Step-IsSound (finish s r p) h = settle-IsSound r s.breaker s.now h

-- From a sound breaker every interleaving of calls and time keeps it sound: it has no opening time
-- exactly while the failures are below the threshold, and one that is not in the future otherwise.
pub Reach-IsSound : {s t : Shared} → Reach s t → IsSound s.breaker s.now → IsSound t.breaker t.now
Reach-IsSound here h = h
Reach-IsSound (next r st) h = Step-IsSound st (Reach-IsSound r h)

-- What `n` runs of a function leave of the world.
pub run_times : {W A : Type 0} → (W → Outcome A × W) → ℕ → W → W
run_times func zero w = w
run_times func (suc n) w = run_times func n (func w).1

-- The outcome is one that `except Exception` catches.
abbrev pub IsFailure : {A : Type 0} → Outcome A → Type 0
IsFailure (returned _) = ⊥
IsFailure (raised e) = is_exception e ≡ true

is_open-none : (b : CircuitBreaker) (now : ℕ) → b.opened_at ≡ none → is_open now b ≡ false
unfolding is_open
is_open-none b now e = ground arith

is_open-early :
    (b : CircuitBreaker) (t now : ℕ)
    → b.opened_at ≡ some t
    → now < t + b.reset_timeout
    → is_open now b ≡ true
unfolding is_open
is_open-early b t now e early = ground arith

not_yet :
    (b : CircuitBreaker) (now n : ℕ)
    → b.opened_at ≡ none
    → b.failures + suc (suc n) ≡ b.failure_threshold
    → (on_failure now b).opened_at ≡ none
unfolding on_failure
not_yet b now n e m = ground arith

last_one :
    (b : CircuitBreaker) (now : ℕ)
    → b.failures + 1 ≡ b.failure_threshold
    → on_failure now b ≡ record b { failures = b.failure_threshold; opened_at = some now }
unfolding on_failure
last_one b now m = ground arith

module _ {W A : Type 0} (clock : W → ℕ) where
  -- The same call made `n` times, one after another.
  unfoldable pub call_times : (W → Outcome A × W) → ℕ → CircuitBreaker → W → CircuitBreaker × W
  call_times func zero b w = (b, w)
  call_times func (suc n) b w = let (_, b', w') = call clock func b w in call_times func n b' w'

  call-failure :
      (func : W → Outcome A × W) (b : CircuitBreaker) (w : W)
      → is_open (clock w) b ≡ false
      → IsFailure (func w).0
      → call clock func b w ≡ ((func w).0, on_failure (clock (func w).1) b, (func w).1)
  unfolding call
  call-failure func b w shut h = rw shut (settle-failure (func w).0 (func w).1 h)
    where
      settle-failure :
          (r : Outcome A) (v : W)
          → IsFailure r
          → settle clock r b v ≡ (r, on_failure (clock v) b, v)
      settle-failure (returned a) v f = absurd f
      settle-failure (raised e) v f = rw f

  -- The calls of a function that always fails, from a shut breaker with exactly that many
  -- failures to go: the last one opens it, at the time at which that call ends.
  call_times-trips :
      (func : W → Outcome A × W) (n : ℕ) (b : CircuitBreaker) (w : W)
      → ((v : W) → IsFailure (func v).0)
      → b.opened_at ≡ none
      → b.failures + suc n ≡ b.failure_threshold
      → call_times func (suc n) b w ≡ (
        record b {
          failures = b.failure_threshold;
          opened_at = some (clock (run_times func (suc n) w));
        },
        run_times func (suc n) w,
      )
  unfolding call_times run_times on_failure
  call_times-trips func zero b w fails e m =
      rw (call-failure func b w (is_open-none b (clock w) e) (fails w))
        (rw (last_one b (clock (func w).1) (omega arith)))
  call_times-trips func (suc n) b w fails e m =
      rw (call-failure func b w (is_open-none b (clock w) e) (fails w)) (
        call_times-trips func n (on_failure (clock (func w).1) b) (func w).1 fails
          (not_yet b (clock (func w).1) n e m) (omega arith))

  open_rejects :
      (func : W → Outcome A × W) (b : CircuitBreaker) (t : ℕ) (v : W)
      → b.opened_at ≡ some t
      → clock v < t + b.reset_timeout
      → call clock func b v ≡ (raised (circuit_open b.name), b, v)
  unfolding call
  open_rejects func b t v e early = simp is_open_early
    where
      is_open_early : is_open (clock v) b ≡ true
      is_open_early = is_open-early b t (clock v) e early

  -- Once as many calls in a row have failed as were left to the threshold, a call of any function
  -- before the reset time has passed fails at once: the function is not run, and nothing changes.
  pub trip_rejects :
      (func other_func : W → Outcome A × W) (n : ℕ) (b : CircuitBreaker) (w v : W)
      → ((u : W) → IsFailure (func u).0)
      → b.opened_at ≡ none
      → b.failures + suc n ≡ b.failure_threshold
      → let (b', w') = call_times func (suc n) b w in
        clock v < clock w' + b.reset_timeout
        → call clock other_func b' v ≡ (raised (circuit_open b.name), b', v)
  trip_rejects func other_func n b w v fails e m early =
      let trips = call_times-trips func n b w fails e m in
      let (b', w') = call_times func (suc n) b w in
      open_rejects other_func b' (clock (run_times func (suc n) w)) v
        (ap (λ p. p.0.opened_at) trips)
        (omega (
          arith,
          ap (λ (p : CircuitBreaker × W). clock p.1) trips,
          ap (λ (p : CircuitBreaker × W). p.0.reset_timeout) trips,
        ))
      ∙ ap (λ (p : CircuitBreaker × W). (raised (circuit_open p.0.name), b', v)) trips
