-- ===== src/Examples/Searched.antt =====
-- The theorems on the search at two providers, of which one always times out, and a Redis that keeps
-- what it is told.
use mathlib.Core.List.{Perm}
use fly_desk.Prelude.{
  ℕ, ◌+◌, ◌≤◌, ◌≡◌, refl, ap, ◌∙◌, String, true, false, none, some, List, [], ◌∷◌, arith, eq_refl,
  inl,
}
use fly_desk.Prelude.Dicts.{Dict, lookup, insert, lookup-insert}
use fly_desk.Errors.{is_exception, timeout, circuit_open, Outcome, returned, raised}
use fly_desk.Domain.Enums.{duffel, economy}
use fly_desk.Domain.Models.{Offer}
use fly_desk.Domain.Criteria.{SearchCriteria}
use fly_desk.Domain.Sorting.{sort_offers}
use fly_desk.Domain.Sorting.Laws.{IsSorted}
use fly_desk.Search.Answers.{all_found, all_failed}
use fly_desk.Search.FanOut.{
  Loop, AsyncFlightProvider, Process, gather, search_all, search_one, attempt, retried, policy,
  is_transient,
}
use fly_desk.Search.FanOut.Asked.{Asked}
use fly_desk.Search.FanOut.Calls.{
  IsOrdinary, IsTimeout, CountsSearches, search_all_returns, search_all_bounded,
}
use fly_desk.Search.FanOut.Failing.{search_times, failing_provider_rested}
use fly_desk.Search.Document.{OfferDoc, IsNormalOffer, reload_offers}
use fly_desk.Search.Cache.{
  Platform, State, read, read_error, cache_key, hit_of, look_up, search_live, finish, cached_search,
}
use fly_desk.Search.{Answer, combine}
use fly_desk.Resilience.{get_breaker, call}
use fly_desk.Resilience.Retry.{retry_async}
use fly_desk.Domain.Money.{le_decimal}
use fly_desk.Domain.Text.{upper, lstrip, rstrip, strip, isalnum, all}
use fly_desk.Domain.Codes.{carrier_code}
use fly_desk.Search.Cache.Laws.{IsJson, KeepsWrites, degraded_not_cached, cached_search_replay}
use fly_desk.Examples.Fixtures.{ascii, letter, digit, lot, journey, order_of-IsNormal}

abbrev pub priced : ℕ → Offer
priced n = record {
  id = "off";
  provider = duffel;
  owner = lot;
  total = record { amount = record { negative = false; digits = n; places = 0 }; currency = "PLN" };
  slices = journey ∷ [];
  passenger_types = [];
  cabin_class = none;
  expires_at = none;
}

-- The calls of providers, the time, and what Redis holds.
pub record Life : Type 0 where
  pub calls : ℕ
  pub time : ℕ
  pub kept : Dict (List OfferDoc)

abbrev pub loop : Loop
loop = record {
  W = Life;
  clock = λ w. w.time;
  unit = 10;
  random = λ w. (5, w);
  sleep = λ n w. record { calls = w.calls; time = w.time + n; kept = w.kept };
  within = λ n f w. f w;
}

abbrev provider_of : String → Outcome (List Offer) → AsyncFlightProvider loop
provider_of name result = record {
  name = name;
  search = λ c w. (result, record { calls = w.calls + 1; time = w.time; kept = w.kept });
}

abbrev pub healthy : AsyncFlightProvider loop
healthy = provider_of "a" (returned (priced 300 ∷ priced 200 ∷ []))

abbrev pub failing : AsyncFlightProvider loop
failing = provider_of "b" (raised timeout)

abbrev pub begun : Process loop
begun = ([], record { calls = 0; time = 0; kept = [] })

abbrev pub trip : SearchCriteria
trip = record {
  origin = "WAW";
  destination = "LIS";
  departure_date = record { year = 2026; month = 8; day = 15 };
  return_date = none;
  cabin_class = economy;
  passengers = [];
  max_connections = 1;
}

pub loop-IsTimeout : IsTimeout loop
loop-IsTimeout n f w = inl refl

pub failing-IsOrdinary : IsOrdinary loop failing
unfolding is_exception
failing-IsOrdinary c w = refl

search_all_returns_example :
    (answers : List Answer) × (offers : List Offer) × (s' : Process loop) × Asked loop trip
      (healthy ∷ failing ∷ [])
      begun
      answers
      s'
    × (search_all loop trip (healthy ∷ failing ∷ []) begun
        ≡ (returned (offers, all_failed answers), s'))
    × IsSorted offers
    × Perm offers (all_found answers)
search_all_returns_example =
    search_all_returns loop trip loop-IsTimeout (healthy ∷ failing ∷ [])
      ((λ c w. tt), (failing-IsOrdinary, tt)) begun

calls-CountsSearches : CountsSearches loop (λ w. w.calls)
calls-CountsSearches = record {
  random_apart = λ w. refl;
  sleep_apart = λ n w. refl;
  within_apart = λ n m f w h. h w;
}

-- A provider that answers without a call.
abbrev silent : AsyncFlightProvider loop
silent = record { name = "c"; search = λ c w. (returned [], w) }

search_all_bounded_example :
    (search_all loop trip (silent ∷ failing ∷ silent ∷ []) begun).1.1.calls ≤ 0 + 2
search_all_bounded_example =
    search_all_bounded loop trip (λ w. w.calls) calls-CountsSearches (silent ∷ []) (silent ∷ [])
      failing begun ((λ c w. omega arith), tt) (λ c w. omega arith) ((λ c w. omega arith), tt)

attempt-fails : is_exception timeout ≡ true
unfolding is_exception
attempt-fails = refl

abbrev tried : Process loop
tried = search_times loop trip failing 3 begun

failing_provider_rested_example :
    ((search_one loop trip failing (tried.0, tried.1)).0 ≡ raised (circuit_open "b"))
    × ((search_one loop trip failing (tried.0, tried.1)).1.1 ≡ tried.1)
unfolding attempt lookup
failing_provider_rested_example =
    failing_provider_rested loop trip failing (λ u. attempt-fails) [] begun.1 tried.1 refl
      (omega arith)

abbrev pub store_of : List (AsyncFlightProvider loop) → Platform loop
store_of providers = record {
  Text = List OfferDoc;
  is_empty = λ text. false;
  get = λ k w. (read (lookup k w.kept), w);
  set = λ k v ttl w. (true, record { calls = w.calls; time = w.time; kept = insert k v w.kept });
  model_dump_json = λ c. c.origin;
  sha1 = λ s. s;
  dumps = λ docs. docs;
  loads = λ text. some text;
  offer_cache_ttl = 60;
  providers = providers;
}

abbrev pub idle : State loop
idle = record { process = begun; searches_cached = 0; searches_live = 0; provider_degraded = [] }

abbrev pub down : Platform loop
down = record (store_of (healthy ∷ failing ∷ [])) { get = λ k w. (read_error, w) }

abbrev mixed : Platform loop
mixed = store_of (healthy ∷ failing ∷ [])

abbrev mixed_after : State loop
mixed_after = (cached_search ascii loop mixed trip idle).1

abbrev cheap_first : List Offer
cheap_first = priced 200 ∷ priced 300 ∷ []

degraded_run :
    cached_search ascii loop mixed trip idle
    ≡ (returned (cheap_first, "b" ∷ [], false), mixed_after)
unfolding cached_search look_up hit_of cache_key search_live search_all gather search_one attempt
    retried policy get_breaker call retry_async combine sort_offers finish lookup insert le_decimal
    is_exception is_transient
degraded_run = refl

degraded_not_cached_example :
    search_all loop trip (healthy ∷ failing ∷ []) idle.process
    ≡ (returned (cheap_first, "b" ∷ []), mixed_after.process)
degraded_not_cached_example =
    degraded_not_cached ascii loop mixed trip idle mixed_after cheap_first "b" [] degraded_run

abbrev pub whole : Platform loop
whole = store_of (healthy ∷ [])

abbrev whole_after : State loop
whole_after = (cached_search ascii loop whole trip idle).1

whole_run :
    cached_search ascii loop whole trip idle ≡ (returned (cheap_first, [], false), whole_after)
unfolding cached_search look_up hit_of cache_key search_live search_all gather search_one attempt
    retried policy get_breaker call retry_async combine sort_offers finish lookup le_decimal
    is_exception is_transient
whole_run = refl

pub priced-IsNormalOffer : (n : ℕ) → IsNormalOffer ascii (priced n)
unfolding carrier_code strip lstrip rstrip upper isalnum all letter digit
priced-IsNormalOffer n = record {
  owner = refl;
  currency = (order_of-IsNormal "o").currency;
  slices = (order_of-IsNormal "o").slices;
  nonempty = λ h. cc;
}

pub whole-IsJson : IsJson whole
whole-IsJson = record { loads-dumps = λ docs. refl; some_text = λ docs. refl }

pub whole-KeepsWrites : KeepsWrites whole
whole-KeepsWrites k v ttl w =
    ap (λ found. (read found, (whole.set k v ttl w).1))
      (lookup-insert k k v w.kept ∙ rw (eq_refl k) refl)

cached_search_replay_example : cached_search ascii loop whole trip whole_after ≡ (
  returned (reload_offers cheap_first, [], true),
  record whole_after { searches_cached = whole_after.searches_cached + 1 },
)
cached_search_replay_example =
    cached_search_replay ascii loop whole whole-IsJson whole-KeepsWrites trip trip idle whole_after
      cheap_first (priced-IsNormalOffer 200, (priced-IsNormalOffer 300, tt)) refl whole_run
