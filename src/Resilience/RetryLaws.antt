-- ===== src/Resilience/RetryLaws.antt =====
-- What `retry_async` of flydesk/common/resilience.py does against any sequence of outcomes.
use fly_desk.Prelude.{
  ℕ, zero, suc, ◌+◌, ◌-◌, ◌<◌, ◌≡◌, refl, Bool, true, false, ◌⊎◌, Option, none, some, ◌≢◌, List, [],
  ◌∷◌, ◌++◌, arith, ap, ◌∙◌,
}
use mathlib.Core.List.{append-nil, append_assoc}
use native.Mathlib.Nat.{add-zero, zero-add}
use native.Mathlib.Numerals.{add-one}
use fly_desk.Errors.{Exception, Outcome, returned, raised}
use fly_desk.Resilience.Retry.{Policy, backoff, retry_from, retry_async}

-- A world that counts the attempts and notes the pauses between them.
pub record Run : Type 0 where
  pub calls : ℕ
  pub slept : List ℕ

abbrev pub start : Run
start = record { calls = 0; slept = [] }

shift : (i m : ℕ) → i + suc m ≡ suc i + m
shift i m = omega arith

module _ {A : Type 0} (script : ℕ → Outcome A) (roll : ℕ → ℕ) (p : Policy) where
  -- The `k`-th attempt ends with `script k`.
  abbrev pub attempt : Run → Outcome A × Run
  attempt w = (script w.calls, record w { calls = suc w.calls })

  abbrev pub rand : Run → ℕ × Run
  rand w = (roll w.calls, w)

  abbrev pub sleep : ℕ → Run → Run
  sleep d w = record w { slept = w.slept ++ d ∷ [] }

  -- The pauses after the attempts `i`, `i + 1`, … , `m` in number.
  pub pauses : ℕ → ℕ → List ℕ
  pauses i zero = []
  pauses i (suc m) = backoff p.base_delay p.max_delay p.unit (roll (suc i)) i ∷ pauses (suc i) m

  abbrev pub is_retried : Outcome A → Bool
  is_retried (returned _) = false
  is_retried (raised e) = p.retry_on e

  -- The attempts `i`, `i + 1`, … , `m` in number, fail with exceptions of `retry_on`.
  abbrev pub AllRetried : ℕ → ℕ → Type 0
  AllRetried i zero = Unit {0}
  AllRetried i (suc m) = (is_retried (script i) ≡ true) × AllRetried (suc i) m

  -- The state of the world after `i` attempts.
  abbrev pub after : ℕ → List ℕ → Run
  after i slept = record { calls = i; slept = slept }

  retry_from-final :
      (left i : ℕ) (last : Option Exception) (slept : List ℕ)
      → (is_retried (script i) ≡ false) ⊎ (i ≡ p.attempts - 1)
      → retry_from rand sleep p attempt (suc left) i last (after i slept)
        ≡ (script i, after (suc i) slept)
  unfolding retry_from
  retry_from-final left i last slept done = ground arith

  retry_from-again :
      (left i : ℕ) (last : Option Exception) (slept : List ℕ)
      → is_retried (script i) ≡ true
      → i ≢ p.attempts - 1
      → (e : Exception) × (retry_from rand sleep p attempt (suc left) i last (after i slept)
          ≡ retry_from rand sleep p attempt left (suc i) (some e) (
              after
                (suc i)
                (slept ++ backoff p.base_delay p.max_delay p.unit (roll (suc i)) i ∷ [])))
  unfolding retry_from
  retry_from-again left i last slept fails more = go (script i) refl
    where
      go :
          (r : Outcome A)
          → script i ≡ r
          → (e : Exception) × (retry_from rand sleep p attempt (suc left) i last (after i slept)
              ≡ retry_from rand sleep p attempt left (suc i) (some e) (
                  after
                    (suc i)
                    (slept ++ backoff p.base_delay p.max_delay p.unit (roll (suc i)) i ∷ [])))
      go (returned a) q = absurd (cc (ap is_retried q))
      go (raised e) q = (e, ground arith)

  retry_from_lem :
      (m left i : ℕ) (last : Option Exception) (slept : List ℕ)
      → i + suc left ≡ p.attempts
      → m < suc left
      → AllRetried i m
      → (is_retried (script (i + m)) ≡ false) ⊎ (i + m ≡ p.attempts - 1)
      → retry_from rand sleep p attempt (suc left) i last (after i slept)
        ≡ (script (i + m), after (i + suc m) (slept ++ pauses i m))
  unfolding pauses
  retry_from_lem zero left i last slept total room all done =
      rw (add-zero, add-one, append-nil) (retry_from-final left i last slept (rw add-zero at done))
  retry_from_lem (suc m) zero i last slept total room all done = absurd (omega arith)
  retry_from_lem (suc m) (suc left) i last slept total room all done =
      let (e, again) = retry_from-again (suc left) i last slept all.0 (omega arith) in
      rw (shift i m, shift i (suc m))
        (again
          ∙ simp append_assoc at (
              retry_from_lem m left (suc i) (some e)
                (slept ++ backoff p.base_delay p.max_delay p.unit (roll (suc i)) i ∷ [])
                (omega arith) (omega arith) all.1 (rw (shift i m) at done)))

  -- Against any sequence of outcomes: if the first `m` attempts fail with exceptions to retry on,
  -- and the next one does not or is the last one allowed, then exactly these `m + 1` attempts are
  -- made, the outcome is that of the last of them, and the pauses between them are the backoffs.
  pub retry_async_lem :
      (m : ℕ)
      → m < p.attempts
      → AllRetried 0 m
      → (is_retried (script m) ≡ false) ⊎ (m ≡ p.attempts - 1)
      → retry_async rand sleep p attempt start
        ≡ (script m, record { calls = suc m; slept = pauses 0 m })
  unfolding retry_async
  retry_async_lem m room all done =
      let positive : p.attempts ≡ suc (p.attempts - 1) = omega arith in
      ap (λ n. retry_from rand sleep p attempt n 0 none start) positive
      ∙ (simp zero-add at (
          retry_from_lem m (p.attempts - 1) 0 none [] (omega arith) (omega arith) all
            (rw zero-add done)))
