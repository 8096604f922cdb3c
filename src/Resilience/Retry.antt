-- ===== src/Resilience/Retry.antt =====
-- `retry_async` of flydesk/common/resilience.py.
use fly_desk.Prelude.{ℕ, zero, suc, ◌+◌, ◌*◌, ◌^◌, min, Bool, Option, none, some, ◌-◌, ◌==◌}
use fly_desk.Errors.{Exception, Outcome, returned, raised, other}

-- The delay before the attempt after `i`: `min(max_delay, base_delay * 2**i)` times a factor
-- of 1/2 to 3/2. The random fraction is `r / unit`, so the delay counts in `1 / (2 * unit)` of a
-- tick and is exact.
unfoldable pub backoff : (base_delay max_delay unit r i : ℕ) → ℕ
backoff base_delay max_delay unit r i = min max_delay (base_delay * 2 ^ i) * (unit + 2 * r)

pub record Policy : Type 0 where
  pub attempts : ℕ
  pub base_delay : ℕ
  pub max_delay : ℕ
  pub unit : ℕ
  pub retry_on : Exception → Bool

-- `random` is the world's next random number and `sleep` passes time.
module _ {W A : Type 0} (random : W → ℕ × W) (sleep : ℕ → W → W) (p : Policy)
    (func : W → Outcome A × W) where
  unfoldable pub pause : ℕ → W → W
  unfolding backoff
  pause i w = let (r, w') = random w in sleep (backoff p.base_delay p.max_delay p.unit r i) w'

  -- `raise last_exc`, after the assertion that there is one
  unfoldable pub give_up : Option Exception → W → Outcome A × W
  give_up none w = (raised (other "AssertionError"), w)
  give_up (some e) w = (raised e, w)

  -- The rounds that are left of `for i in range(attempts)`.
  unfoldable pub retry_from : ℕ → ℕ → Option Exception → W → Outcome A × W
  unfolding pause give_up
  retry_from zero i last w = give_up last w
  retry_from (suc left) i last w =
      let (r, w') = func w in
      elim r [
        | returned a ↦ (returned a, w')
        | raised e ↦ elim (p.retry_on e) [
          | Bool.false ↦ (raised e, w')
          | Bool.true ↦ elim (i == p.attempts - 1) [
            | Bool.true ↦ give_up (some e) w'
            | Bool.false ↦ retry_from left (suc i) (some e) (pause i w')
          ]
        ]
      ]

  unfoldable pub retry_async : W → Outcome A × W
  unfolding retry_from
  retry_async w = retry_from p.attempts 0 none w
