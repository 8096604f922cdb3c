-- ===== src/Search.antt =====
-- flydesk/search/async_service.py: what `search_all` makes of the answers of the providers, which
-- the tasks of `asyncio.gather` have left in the order of the providers.
pub mod Answers
pub mod Cache
pub mod Document
pub mod FanOut
use fly_desk.Prelude.{String, Bool, true, false, List, [], ◌∷◌, ◌++◌, if◌then◌else◌}
use fly_desk.Errors.{Exception, is_exception, other, Outcome, returned, raised}
use fly_desk.Domain.Sorting.{sort_offers}
use fly_desk.Domain.Models.{Offer}

abbrev pub Answer : Type 0
Answer = String × Outcome (List Offer)

-- The loop over the results. What is no `Exception` and no list cannot be added to the offers.
unfoldable pub collect : List Answer → List Offer → List String → Outcome (List Offer × List String)
collect [] offers degraded = returned (offers, degraded)
collect ((name, returned found) ∷ rest) offers degraded = collect rest (offers ++ found) degraded
collect ((name, raised e) ∷ rest) offers degraded = elim (is_exception e) [
  | true ↦ collect rest offers (degraded ++ name ∷ [])
  | false ↦ raised (other "TypeError")
]

abbrev pub sorted : Outcome (List Offer × List String) → Outcome (List Offer × List String)
sorted (returned (offers, degraded)) = returned (sort_offers offers, degraded)
sorted (raised e) = raised e

unfoldable pub combine : List Answer → Outcome (List Offer × List String)
unfolding collect
combine answers = sorted (collect answers [] [])
