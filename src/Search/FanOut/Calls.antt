-- ===== src/Search/FanOut/Calls.antt =====
-- How often flydesk/search/async_service.py calls a provider, and what comes of its failures.
use fly_desk.Prelude.{
  ℕ, ◌+◌, ◌*◌, ◌≤◌, ◌≡◌, refl, ap, true, ◌⊎◌, inl, inr, List, [], ◌∷◌, ◌++◌, arith,
}
use mathlib.Core.List.{Perm}
use fly_desk.Prelude.Lists.{All}
use fly_desk.Errors.{Exception, is_exception, timeout, Outcome, returned, raised}
use fly_desk.Errors.Actions.{Action, OnlyRaises}
use fly_desk.Domain.Models.{Offer}
use fly_desk.Domain.Criteria.{SearchCriteria}
use fly_desk.Domain.Sorting.Laws.{IsSorted}
use fly_desk.Resilience.{get_breaker}
use fly_desk.Resilience.Rounds.{retry_async-outcome, retry_async-count, call-outcome, call-count}
use fly_desk.Search.{Answer}
use fly_desk.Search.Answers.{AllSeen, all_found, all_failed, combine_lem}
use fly_desk.Search.FanOut.Asked.{Asked, gather-Asked}
use fly_desk.Search.FanOut.{
  Loop, AsyncFlightProvider, Process, policy, attempt, retried, search_one, gather, search_all,
  per_provider_timeout, reset_timeout,
}

abbrev pub IsSeen : Exception → Type 0
IsSeen e = is_exception e ≡ true

-- `asyncio.timeout` lets the outcome of its body through, or raises `TimeoutError`.
abbrev pub IsTimeout : Loop → Type 0
IsTimeout l =
    (n : ℕ) (f : Action l.W (List Offer)) (w : l.W)
    → (l.within n f w ≡ f w) ⊎ ((l.within n f w).0 ≡ raised timeout)

-- The search of a provider ends, or raises an `Exception`.
abbrev pub IsOrdinary : (l : Loop) → AsyncFlightProvider l → Type 0
IsOrdinary l p = (c : SearchCriteria) (w : l.W) → OnlyRaises IsSeen (p.search c w)

-- A measure of the world that only the searches of providers raise: a time limit lets its body raise
-- it by no more than without.
pub record CountsSearches (l : Loop) (count : l.W → ℕ) : Type 0 where
  pub random_apart : (w : l.W) → count (l.random w).1 ≡ count w
  pub sleep_apart : (n : ℕ) (w : l.W) → count (l.sleep n w) ≡ count w
  pub within_apart :
      (n m : ℕ) (f : Action l.W (List Offer)) (w : l.W)
      → ((v : l.W) → count (f v).1 ≤ count v + m)
      → count (l.within n f w).1 ≤ count w + m

module _ (l : Loop) (criteria : SearchCriteria) where
  -- A provider's outcome that the search can report.
  abbrev IsReported : Outcome (List Offer) → Type 0
  IsReported (returned found) = Unit
  IsReported (raised e) = IsSeen e

  attempt-IsReported :
      IsTimeout l
      → (p : AsyncFlightProvider l) → IsOrdinary l p
      → (w : l.W) → IsReported (attempt l criteria p w).0
  unfolding attempt is_exception
  attempt-IsReported timed p h w = elim (timed per_provider_timeout (p.search criteria) w) [
    | inl same ↦ rw same (reported (p.search criteria w) (h criteria w))
    | inr late ↦ rw late refl
  ]
    where
      reported : (x : Outcome (List Offer) × l.W) → OnlyRaises IsSeen x → IsReported x.0
      reported (returned found, v) k = tt
      reported (raised e, v) k = k

  search_one-IsReported :
      IsTimeout l
      → (p : AsyncFlightProvider l) → IsOrdinary l p
      → (s : Process l) → IsReported (search_one l criteria p s).0
  unfolding search_one retried is_exception
  search_one-IsReported timed p h (breakers, w) =
      call-outcome l.clock (retried l criteria p) (get_breaker reset_timeout p.name breakers).0
        IsReported w
        (retry_async-outcome l.random l.sleep (policy l) (attempt l criteria p) IsReported w
          (attempt-IsReported timed p h) refl)
        refl

  gather-AllSeen :
      IsTimeout l
      → (providers : List (AsyncFlightProvider l)) → All (IsOrdinary l) providers
      → (s : Process l) → AllSeen (gather l criteria providers s).0
  unfolding gather
  gather-AllSeen timed [] h s = tt
  gather-AllSeen timed (p ∷ providers) (first, others) s =
      seen (search_one l criteria p s).0 _ (search_one-IsReported timed p first s)
        (gather-AllSeen timed providers others (search_one l criteria p s).1)
    where
      seen :
          (r : Outcome (List Offer)) (rest : List Answer)
          → IsReported r
          → AllSeen rest
          → AllSeen ((p.name, r) ∷ rest)
      seen (returned found) rest a b = b
      seen (raised e) rest a b = (a, b)

  -- Providers fail with an `Exception` only, and the time limit lets an outcome through or raises a
  -- timeout. Then, whatever state the breakers are in and however many providers fail, a search ends
  -- well, and each provider gets an answer in its turn: its breaker's error, if that is open, and
  -- otherwise what comes of calling it. The result has the offers of exactly those whose answer is a
  -- list, the cheapest first, and the names of exactly the others, in their order.
  pub search_all_returns :
      IsTimeout l
      → (providers : List (AsyncFlightProvider l)) → All (IsOrdinary l) providers
      → (s : Process l)
      → (answers : List Answer) × (offers : List Offer) × (s' : Process l) × Asked l criteria
          providers s answers s'
        × (search_all l criteria providers s ≡ (returned (offers, all_failed answers), s'))
        × IsSorted offers
        × Perm offers (all_found answers)
  unfolding search_all
  search_all_returns timed providers h s =
      let (answers, s') = gather l criteria providers s in
      let (offers, found, sorted, same) =
        combine_lem answers (gather-AllSeen timed providers h s) in
      (
        answers,
        offers,
        s',
        gather-Asked l criteria providers s,
        ap (λ r. (r, s')) found,
        sorted,
        same,
      )

  module _ (count : l.W → ℕ) (counts : CountsSearches l count) where
    -- The search of the provider raises the measure by at most `m`.
    abbrev pub RaisesBy : ℕ → AsyncFlightProvider l → Type 0
    RaisesBy m p = (c : SearchCriteria) (w : l.W) → count (p.search c w).1 ≤ count w + m

    retried-count :
        (p : AsyncFlightProvider l) (m : ℕ) (w : l.W)
        → RaisesBy m p
        → count (retried l criteria p w).1 ≤ count w + 2 * m
    unfolding retried attempt policy
    retried-count p m w h =
        retry_async-count l.random l.sleep (policy l) (attempt l criteria p) count m w
          counts.random_apart counts.sleep_apart
          (λ v. counts.within_apart per_provider_timeout m (p.search criteria) v (h criteria))

    search_one-count :
        (p : AsyncFlightProvider l) (m : ℕ) (s : Process l)
        → RaisesBy m p
        → count (search_one l criteria p s).1.1 ≤ count s.1 + 2 * m
    unfolding search_one
    search_one-count p m (breakers, w) h =
        call-count l.clock (retried l criteria p) (get_breaker reset_timeout p.name breakers).0
          count w (2 * m) (retried-count p m w h)

    gather-apart :
        (providers : List (AsyncFlightProvider l)) (s : Process l)
        → All (RaisesBy 0) providers
        → count (gather l criteria providers s).1.1 ≤ count s.1
    unfolding gather
    gather-apart [] s h = omega arith
    gather-apart (p ∷ providers) s (first, others) = omega (
      arith,
      gather-apart providers (search_one l criteria p s).1 others,
      search_one-count p 0 s first,
    )

    gather-count :
        (before after : List (AsyncFlightProvider l)) (p : AsyncFlightProvider l) (s : Process l)
        → All (RaisesBy 0) before
        → RaisesBy 1 p
        → All (RaisesBy 0) after
        → count (gather l criteria (before ++ p ∷ after) s).1.1 ≤ count s.1 + 2
    unfolding gather
    gather-count [] after p s hb hp ha =
        omega
          (arith, gather-apart after (search_one l criteria p s).1 ha, search_one-count p 1 s hp)
    gather-count (q ∷ before) after p s (first, others) hp ha = omega (
      arith,
      gather-count before after p (search_one l criteria q s).1 others hp ha,
      search_one-count q 0 s first,
    )

    -- A search asks each provider at most twice, whatever the providers answer. That is: let the
    -- search of one of them raise a measure of the world by at most one, and let those of the others,
    -- pauses, random numbers and the time limit raise it no further; then the whole search raises it
    -- by at most two.
    pub search_all_bounded :
        (before after : List (AsyncFlightProvider l)) (p : AsyncFlightProvider l) (s : Process l)
        → All (RaisesBy 0) before
        → RaisesBy 1 p
        → All (RaisesBy 0) after
        → count (search_all l criteria (before ++ p ∷ after) s).1.1 ≤ count s.1 + 2
    unfolding search_all
    search_all_bounded before after p s hb hp ha = gather-count before after p s hb hp ha
