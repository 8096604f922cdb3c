-- ===== src/Search/FanOut/Failing.antt =====
-- How flydesk/search/async_service.py leaves a failing provider alone.
use fly_desk.Prelude.{
  ℕ, zero, suc, ◌+◌, ◌<◌, ◌≡◌, refl, ap, ◌∙◌, String, none, some, List, arith, eq_refl,
}
use fly_desk.Prelude.Dicts.{lookup, insert, lookup-insert}
use fly_desk.Errors.{is_exception, circuit_open, Outcome, raised}
use fly_desk.Domain.Models.{Offer}
use fly_desk.Domain.Criteria.{SearchCriteria}
use fly_desk.Resilience.{CircuitBreaker, new_breaker, Breakers, get_breaker, call}
use fly_desk.Resilience.Breaker.{IsFailure, call_times, trip_rejects}
use fly_desk.Resilience.Rounds.{retry_async-outcome}
use fly_desk.Search.FanOut.{
  Loop, AsyncFlightProvider, Process, policy, attempt, retried, search_one, reset_timeout,
}

-- The breaker that a search finds under a name.
abbrev breaker_of : String → Breakers → CircuitBreaker
breaker_of name d = (get_breaker reset_timeout name d).0

get_breaker-found :
    (name : String) (b : CircuitBreaker) (d : Breakers)
    → lookup name d ≡ some b
    → breaker_of name d ≡ b
unfolding get_breaker
get_breaker-found name b d h = rw (breaker_of, get_breaker, h) refl

get_breaker-fresh :
    (name : String) (d : Breakers)
    → lookup name d ≡ none
    → breaker_of name d ≡ new_breaker name 3 reset_timeout
unfolding get_breaker
get_breaker-fresh name d h = rw (breaker_of, get_breaker, h) refl

breaker_of-insert :
    (name : String) (b : CircuitBreaker) (d : Breakers) → breaker_of name (insert name b d) ≡ b
breaker_of-insert name b d =
    get_breaker-found name b (insert name b d)
      (lookup-insert name name b d ∙ rw (eq_refl name) refl)

module _ (l : Loop) (criteria : SearchCriteria) (p : AsyncFlightProvider l) where
  -- What `n` searches at the provider leave, one after another.
  pub search_times : ℕ → Process l → Process l
  search_times zero s = s
  search_times (suc n) s = search_times n (search_one l criteria p s).1

  -- The breaker of the provider, and the world.
  abbrev view : Process l → CircuitBreaker × l.W
  view (breakers, w) = (breaker_of p.name breakers, w)

  called :
      (breakers : Breakers) (w : l.W)
      → let (r, b', w') = call l.clock (retried l criteria p) (breaker_of p.name breakers) w in
        ((search_one l criteria p (breakers, w)).0 ≡ r)
        × (view (search_one l criteria p (breakers, w)).1 ≡ (b', w'))
  unfolding search_one
  called breakers w =
      let (r, b', w') = call l.clock (retried l criteria p) (breaker_of p.name breakers) w in
      (
        refl,
        ap (λ b. (b, w'))
            (breaker_of-insert p.name b' (get_breaker reset_timeout p.name breakers).1),
      )

  view-search_times :
      (n : ℕ) (s : Process l)
      → view (search_times n s) ≡ call_times l.clock (retried l criteria p) n (view s).0 (view s).1
  unfolding search_times call_times
  view-search_times zero s = refl
  view-search_times (suc n) (breakers, w) =
      view-search_times n (search_one l criteria p (breakers, w)).1
      ∙ ap (λ (x : CircuitBreaker × l.W). call_times l.clock (retried l criteria p) n x.0 x.1)
          (called breakers w).1

  retried-IsFailure :
      ((u : l.W) → IsFailure (attempt l criteria p u).0)
      → (u : l.W) → IsFailure (retried l criteria p u).0
  unfolding retried is_exception
  retried-IsFailure fails u =
      retry_async-outcome l.random l.sleep (policy l) (attempt l criteria p) IsFailure u fails refl

  -- A provider without a breaker yet, whose every attempt fails, is searched three times. Any search
  -- in the 30 seconds after that fails at once, without a call of the provider or any other effect on
  -- the world.
  pub failing_provider_rested :
      ((u : l.W) → IsFailure (attempt l criteria p u).0)
      → (breakers : Breakers) (w v : l.W) → lookup p.name breakers ≡ none
      → let (breakers', w') = search_times 3 (breakers, w) in
        l.clock v < l.clock w' + reset_timeout
        → ((search_one l criteria p (breakers', v)).0 ≡ raised (circuit_open p.name))
          × ((search_one l criteria p (breakers', v)).1.1 ≡ v)
  unfolding new_breaker
  failing_provider_rested fails breakers w v unknown early =
      let (breakers', w') = search_times 3 (breakers, w) in
      let met : view (breakers', w') ≡ call_times l.clock (retried l criteria p) 3 fresh w =
        view-search_times 3 (breakers, w)
        ∙ ap (λ b. call_times l.clock (retried l criteria p) 3 b w)
            (get_breaker-fresh p.name breakers unknown) in
      let rejected =
        ap (λ (x : CircuitBreaker × l.W). call l.clock (retried l criteria p) x.0 v) met
        ∙ trip_rejects l.clock (retried l criteria p) (retried l criteria p) 2 fresh w v
            (retried-IsFailure fails) refl refl
            (omega (arith, early, ap (λ (x : CircuitBreaker × l.W). l.clock x.1) met)) in
      let (same, left) = called breakers' v in
      (
        same ∙ ap (λ (x : Outcome (List Offer) × CircuitBreaker × l.W). x.0) rejected,
        ap (λ (x : CircuitBreaker × l.W). x.1) left
            ∙ ap (λ (x : Outcome (List Offer) × CircuitBreaker × l.W). x.2) rejected,
      )
    where
      fresh : CircuitBreaker
      fresh = new_breaker p.name 3 reset_timeout
