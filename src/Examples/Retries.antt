-- ===== src/Examples/Retries.antt =====
-- The theorems on retries and the circuit breaker at sample runs.
use fly_desk.Prelude.{ℕ, zero, suc, ◌+◌, ◌≡◌, refl, true, false, inl, none, some, arith}
use fly_desk.Errors.{timeout, circuit_open, is_exception, Outcome, returned, raised}
use fly_desk.Resilience.{CircuitBreaker, half_open, state, is_open, settle, call}
use fly_desk.Resilience.Retry.{Policy, retry_async}
use fly_desk.Resilience.RetryLaws.{start, rand, sleep, attempt, pauses, retry_async_lem}
use fly_desk.Resilience.Breaker.{
  Shared, Reach, here, next, admit, finish, IsSound, Reach-IsSound, call_times, trip_rejects,
}

abbrev thrice : Policy
thrice = record {
  attempts = 3;
  base_delay = 100;
  max_delay = 2000;
  unit = 10;
  retry_on = λ e. true;
}

-- The first attempt times out and the second one succeeds.
abbrev flaky : ℕ → Outcome ℕ
flaky zero = raised timeout
flaky (suc n) = returned n

retry_async_lem_example :
    retry_async
      (rand flaky (λ n. 5) thrice)
      (sleep flaky (λ n. 5) thrice)
      thrice
      (attempt flaky (λ n. 5) thrice)
      start
    ≡ (returned 0, record { calls = 2; slept = pauses flaky (λ n. 5) thrice 0 1 })
retry_async_lem_example =
    retry_async_lem flaky (λ n. 5) thrice 1 (omega arith) (refl, tt) (inl refl)

abbrev fresh : CircuitBreaker
fresh = record {
  name = "duffel";
  failure_threshold = 3;
  reset_timeout = 30;
  failures = 0;
  opened_at = none;
}

abbrev tripped : CircuitBreaker
tripped = record fresh { failures = 3; opened_at = some 10 }

abbrev idle : Shared
idle = record { breaker = fresh; now = 0; in_flight = 0 }

fresh-IsSound : IsSound fresh 0
fresh-IsSound = (omega arith, omega arith)

fresh-shut : is_open 0 fresh ≡ false
unfolding is_open state
fresh-shut = refl

Reach-IsSound_example : IsSound (settle {A = Unit} (λ n. n) (raised timeout) fresh 0).1 0
Reach-IsSound_example =
    let begun : Reach idle (record idle { in_flight = 1 }) = next here (admit idle fresh-shut) in
    Reach-IsSound
      (next begun (finish (record idle { in_flight = 1 }) (raised timeout) (omega arith)))
      fresh-IsSound

abbrev failing : ℕ → Outcome ℕ × ℕ
failing n = (raised timeout, n + 1)

abbrev fine : ℕ → Outcome ℕ × ℕ
fine n = (returned n, n)

failing-fails : is_exception timeout ≡ true
unfolding is_exception
failing-fails = refl

trip_rejects_example :
    let b = (call_times (λ n. n) failing 3 fresh 0).0 in
    call (λ n. n) fine b 7 ≡ (raised (circuit_open "duffel"), b, 7)
trip_rejects_example =
    trip_rejects (λ n. n) failing fine 2 fresh 0 7 (λ n. failing-fails) refl refl (omega arith)

tripped-half_open : state 50 tripped ≡ half_open
unfolding state
tripped-half_open = refl
