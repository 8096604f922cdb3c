-- ===== src/Search/FanOut/Asked.antt =====
-- What becomes of each provider in a search of flydesk/search/async_service.py.
use mathlib.Core.Path.{subst}
use fly_desk.Prelude.{
  ◌≡◌, refl, sym, ap, ◌∙◌, true, false, inl, inr, Option, some, List, [], ◌∷◌, Bool-cases,
}
use fly_desk.Prelude.Dicts.{insert}
use fly_desk.Errors.{Exception, circuit_open, Outcome, returned, raised}
use fly_desk.Errors.Actions.{Action}
use fly_desk.Domain.Models.{Offer}
use fly_desk.Domain.Criteria.{SearchCriteria}
use fly_desk.Resilience.{CircuitBreaker, get_breaker, is_open, settle, call}
use fly_desk.Resilience.Retry.{backoff, pause, give_up, retry_from, retry_async}
use fly_desk.Resilience.Rounds.{Outcome-cases}
use fly_desk.Search.{Answer}
use fly_desk.Search.FanOut.{
  Loop, AsyncFlightProvider, Process, policy, attempt, retried, search_one, gather, reset_timeout,
  is_transient,
}

module _ (l : Loop) (criteria : SearchCriteria) where
  -- A call of a provider: its own search, with eight seconds for it.
  abbrev pub asked_once : AsyncFlightProvider l → Action l.W (List Offer)
  asked_once p = l.within 8000 (p.search criteria)

  -- The pause before a second call.
  abbrev pub paused : l.W → l.W
  paused w = let (r, w') = l.random w in l.sleep (backoff 100 2000 l.unit r 0) w'

  -- The calls of a provider: a second one only after a pause and a first one that has failed with an
  -- error of a provider or a timeout.
  abbrev pub after_first :
      AsyncFlightProvider l → Outcome (List Offer) × l.W → Outcome (List Offer) × l.W
  after_first p (returned found, w) = (returned found, w)
  after_first p (raised e, w) = elim (is_transient e) [
    | true ↦ asked_once p (paused w)
    | false ↦ (raised e, w)
  ]

  abbrev pub tries : AsyncFlightProvider l → Action l.W (List Offer)
  tries p w = after_first p (asked_once p w)

  second-asked_once :
      (p : AsyncFlightProvider l) (last : Option Exception) (w : l.W)
      → retry_from l.random l.sleep (policy l) (asked_once p) 1 1 last w ≡ asked_once p w
  unfolding retry_from policy give_up
  second-asked_once p last w =
      let whole : Outcome (List Offer) → Outcome (List Offer) × l.W =
        λ r. (r, (asked_once p w).1) in
      elim (Outcome-cases (asked_once p w).0) [
        | inl (found, ended) ↦ rw (ended, retry_from) (sym (ap whole ended))
        | inr (e, ended) ↦ elim (Bool-cases (is_transient e)) [
          | inl again ↦ rw (ended, retry_from, again) (sym (ap whole ended))
          | inr fatal ↦ rw (ended, retry_from, fatal) (sym (ap whole ended))
        ]
      ]

  retried-tries : (p : AsyncFlightProvider l) (w : l.W) → retried l criteria p w ≡ tries p w
  unfolding retried attempt retry_async retry_from policy pause
  retried-tries p w =
      let whole : Outcome (List Offer) → Outcome (List Offer) × l.W =
        λ r. after_first p (r, (asked_once p w).1) in
      elim (Outcome-cases (asked_once p w).0) [
        | inl (found, ended) ↦ rw (ended, retry_from) (sym (ap whole ended))
        | inr (e, ended) ↦ elim (Bool-cases (is_transient e)) [
          | inl again ↦
              rw (ended, retry_from, again)
                (second-asked_once p (some e) (paused (asked_once p w).1)
                  ∙ sym (ap whole ended ∙ rw (after_first, again) refl))
          | inr fatal ↦
              rw (ended, retry_from, fatal) (sym (ap whole ended ∙ rw (after_first, fatal) refl))
        ]
      ]

  abbrev pub breaker_of : AsyncFlightProvider l → Process l → CircuitBreaker
  breaker_of p s = (get_breaker reset_timeout p.name s.0).0

  abbrev pub noted : AsyncFlightProvider l → Process l → CircuitBreaker → l.W → Process l
  noted p s b w = (insert p.name b (get_breaker reset_timeout p.name s.0).1, w)

  -- After the calls of a provider: its breaker has seen what came of them.
  abbrev pub ended : AsyncFlightProvider l → Process l → Process l
  ended p s = let (r, w) = tries p s.1 in noted p s (settle l.clock r (breaker_of p s) w).1 w

  -- From the breakers and the world before, the providers have in their order got the answers, one
  -- each, and left the breakers and the world after. A provider whose breaker is open has failed
  -- with its breaker's error and was not called; any other has been called, and the answer is what
  -- came of the calls.
  pub data Asked : List (AsyncFlightProvider l) → Process l → List Answer → Process l → Type 0 where
    all_asked : {s : Process l} → Asked [] s [] s
    resting :
        {p : AsyncFlightProvider l} {rest : List (AsyncFlightProvider l)} {s s' : Process l}
        {answers : List Answer}
        → is_open (l.clock s.1) (breaker_of p s) ≡ true
        → Asked rest (noted p s (breaker_of p s) s.1) answers s'
        → Asked (p ∷ rest) s ((p.name, raised (circuit_open (breaker_of p s).name)) ∷ answers) s'
    called :
        {p : AsyncFlightProvider l} {rest : List (AsyncFlightProvider l)} {s s' : Process l}
        {answers : List Answer}
        → is_open (l.clock s.1) (breaker_of p s) ≡ false
        → Asked rest (ended p s) answers s'
        → Asked (p ∷ rest) s ((p.name, (tries p s.1).0) ∷ answers) s'

  settle-eq :
      (r : Outcome (List Offer)) (b : CircuitBreaker) (w : l.W)
      → settle l.clock r b w ≡ (r, (settle l.clock r b w).1, w)
  unfolding settle
  settle-eq (returned a) b w = refl
  settle-eq (raised e) b w = refl

  call-stopped :
      (f : Action l.W (List Offer)) (b : CircuitBreaker) (w : l.W)
      → is_open (l.clock w) b ≡ true
      → call l.clock f b w ≡ (raised (circuit_open b.name), b, w)
  unfolding call
  call-stopped f b w stop = rw stop refl

  call-shut :
      (f : Action l.W (List Offer)) (b : CircuitBreaker) (w : l.W)
      → is_open (l.clock w) b ≡ false
      → call l.clock f b w ≡ settle l.clock (f w).0 b (f w).1
  unfolding call
  call-shut f b w shut = rw shut refl

  -- Each provider of a search has an answer, in the order of the providers.
  pub gather-Asked :
      (providers : List (AsyncFlightProvider l)) (s : Process l)
      → let (answers, s') = gather l criteria providers s in Asked providers s answers s'
  unfolding gather search_one
  gather-Asked [] s = all_asked
  gather-Asked (p ∷ rest) s =
      let (b, known) = get_breaker reset_timeout p.name s.0 in
      elim (Bool-cases (is_open (l.clock s.1) b)) [
        | inl stop ↦
            subst (After p rest s) (sym (call-stopped (retried l criteria p) b s.1 stop))
              (resting stop (gather-Asked rest (insert p.name b known, s.1)))
        | inr shut ↦
            let (r, w) = tries p s.1 in
            subst (After p rest s)
              (sym (
                call-shut (retried l criteria p) b s.1 shut
                ∙ ap (λ (x : Outcome (List Offer) × l.W). settle l.clock x.0 b x.1)
                    (retried-tries p s.1)
                ∙ settle-eq r b w))
              (called shut (gather-Asked rest (insert p.name (settle l.clock r b w).1 known, w)))
      ]
    where
      -- What is to be shown once the breaker of the first provider has let the call end so.
      After :
          AsyncFlightProvider l
          → List (AsyncFlightProvider l)
          → Process l
          → Outcome (List Offer) × CircuitBreaker × l.W
          → Type 0
      After p rest s (r, b, w) =
          let s1 : Process l = (insert p.name b (get_breaker reset_timeout p.name s.0).1, w) in
          let (answers, s') = gather l criteria rest s1 in
          Asked (p ∷ rest) s ((p.name, r) ∷ answers) s'
