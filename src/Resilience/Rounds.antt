-- ===== src/Resilience/Rounds.antt =====
-- How `retry_async` and `CircuitBreaker.call` of flydesk/common/resilience.py pass on what is known of
-- every attempt.
use mathlib.Core.Path.{subst}
use fly_desk.Prelude.{
  ℕ, zero, suc, ◌+◌, ◌*◌, ◌-◌, ◌≤◌, ◌≡◌, refl, ◌∙◌, ◌⊎◌, inl, inr, Option, none, some, arith,
  Bool-cases, ◌==◌,
}
use fly_desk.Errors.{Exception, other, circuit_open, Outcome, returned, raised}
use fly_desk.Resilience.{CircuitBreaker, is_open, settle, call}
use fly_desk.Resilience.Retry.{Policy, retry_from, retry_async, give_up, pause, backoff}

pub Outcome-cases :
    {A : Type 0} (r : Outcome A) → ((a : A) × (r ≡ returned a)) ⊎ ((e : Exception) × (r ≡ raised e))
Outcome-cases (returned a) = inl (a, refl)
Outcome-cases (raised e) = inr (e, refl)

module _ {W A : Type 0} (random : W → ℕ × W) (sleep : ℕ → W → W) (p : Policy)
    (func : W → Outcome A × W) where
  -- What holds of the outcome of each attempt holds of the outcome of all.
  retry_from-outcome {ℓ} :
      (Q : Outcome A → Type ℓ) (left i : ℕ) (last : Option Exception) (w : W)
      → ((v : W) → Q (func v).0)
      → Q (give_up random sleep p func last w).0
      → Q (retry_from random sleep p func left i last w).0
  unfolding retry_from give_up
  retry_from-outcome Q zero i last w h k = k
  retry_from-outcome Q (suc left) i last w h k = elim (Outcome-cases (func w).0) [
    | inl (a, ended) ↦ rw (ended, retry_from) (subst Q ended (h w))
    | inr (e, ended) ↦
        let ends : Q (raised e) = subst Q ended (h w) in
        elim (Bool-cases (p.retry_on e)) [
          | inl again ↦ elim (Bool-cases (i == p.attempts - 1)) [
            | inl final ↦ rw (ended, retry_from, again, final) ends
            | inr more ↦
                rw (ended, retry_from, again, more)
                  (retry_from-outcome Q left (suc i) (some e)
                    (pause random sleep p func i (func w).1) h ends)
          ]
          | inr fatal ↦ rw (ended, retry_from, fatal) ends
        ]
  ]

  pub retry_async-outcome {ℓ} :
      (Q : Outcome A → Type ℓ) (w : W)
      → ((v : W) → Q (func v).0)
      → Q (raised (other "AssertionError"))
      → Q (retry_async random sleep p func w).0
  unfolding retry_async give_up
  retry_async-outcome Q w h k = retry_from-outcome Q p.attempts 0 none w h k

  paused :
      (count : W → ℕ) (i : ℕ) (w : W)
      → ((v : W) → count (random v).1 ≡ count v)
      → ((n : ℕ) (v : W) → count (sleep n v) ≡ count v)
      → count (pause random sleep p func i w) ≡ count w
  unfolding pause
  paused count i w hr hs =
      let (r, w') = random w in hs (backoff p.base_delay p.max_delay p.unit r i) w' ∙ hr w

  -- Each round of the loop raises a measure by at most what an attempt does.
  retry_from-count :
      (count : W → ℕ) (m left i : ℕ) (last : Option Exception) (w : W)
      → ((v : W) → count (random v).1 ≡ count v)
      → ((n : ℕ) (v : W) → count (sleep n v) ≡ count v)
      → ((v : W) → count (func v).1 ≤ count v + m)
      → count (retry_from random sleep p func left i last w).1 ≤ count w + left * m
  unfolding retry_from give_up
  retry_from-count count m zero i none w hr hs hf = omega arith
  retry_from-count count m zero i (some e) w hr hs hf = omega arith
  retry_from-count count m (suc left) i last w hr hs hf = elim (Outcome-cases (func w).0) [
    | inl (a, ended) ↦ rw (ended, retry_from) (omega (arith, hf w))
    | inr (e, ended) ↦ elim (Bool-cases (p.retry_on e)) [
      | inl again ↦ elim (Bool-cases (i == p.attempts - 1)) [
        | inl final ↦ rw (ended, retry_from, again, final) (omega (arith, hf w))
        | inr more ↦
            rw (ended, retry_from, again, more)
              (omega (
                arith,
                hf w,
                paused count i (func w).1 hr hs,
                retry_from-count count m left (suc i) (some e)
                    (pause random sleep p func i (func w).1) hr hs hf,
              ))
      ]
      | inr fatal ↦ rw (ended, retry_from, fatal) (omega (arith, hf w))
    ]
  ]

  pub retry_async-count :
      (count : W → ℕ) (m : ℕ) (w : W)
      → ((v : W) → count (random v).1 ≡ count v)
      → ((n : ℕ) (v : W) → count (sleep n v) ≡ count v)
      → ((v : W) → count (func v).1 ≤ count v + m)
      → count (retry_async random sleep p func w).1 ≤ count w + p.attempts * m
  unfolding retry_async
  retry_async-count count m w hr hs hf = retry_from-count count m p.attempts 0 none w hr hs hf

module _ {W A : Type 0} (clock : W → ℕ) (func : W → Outcome A × W) (b : CircuitBreaker) where
  pub call-outcome {ℓ} :
      (Q : Outcome A → Type ℓ) (w : W)
      → Q (func w).0
      → Q (raised (circuit_open b.name))
      → Q (call clock func b w).0
  unfolding call settle
  call-outcome Q w h k = elim (Bool-cases (is_open (clock w) b)) [
    | inl rejected ↦ rw (call, rejected) k
    | inr admitted ↦
        rw (call, admitted)
          (elim (Outcome-cases (func w).0) [
            | inl (a, ended) ↦ rw (settle, ended) (subst Q ended h)
            | inr (e, ended) ↦ rw (settle, ended) (subst Q ended h)
          ])
  ]

  pub call-count :
      (count : W → ℕ) (w : W) (n : ℕ)
      → count (func w).1 ≤ count w + n
      → count (call clock func b w).2 ≤ count w + n
  unfolding call settle
  call-count count w n h = elim (Bool-cases (is_open (clock w) b)) [
    | inl rejected ↦ rw (call, rejected) (omega arith)
    | inr admitted ↦
        rw (call, admitted)
          (elim (Outcome-cases (func w).0) [
            | inl (a, ended) ↦ rw (settle, ended) h
            | inr (e, ended) ↦ rw (settle, ended) h
          ])
  ]
