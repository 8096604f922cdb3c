-- ===== src/Search/Answers.antt =====
-- What a search of flydesk/search/async_service.py returns.
use mathlib.Core.List.{append_assoc, append-nil}
use mathlib.Core.List.{Perm}
use fly_desk.Prelude.{◌≡◌, ap, ◌∙◌, String, true, List, [], ◌∷◌, ◌++◌}
use fly_desk.Errors.{is_exception, returned, raised}
use fly_desk.Domain.Models.{Offer}
use fly_desk.Domain.Sorting.{sort_offers}
use fly_desk.Domain.Sorting.Laws.{IsSorted, sort_offers-IsSorted, sort_offers-Perm}
use fly_desk.Search.{Answer, collect, sorted, combine}

-- All failures are such as `isinstance(result, Exception)` sees.
abbrev pub AllSeen : List Answer → Type 0
AllSeen [] = Unit
AllSeen ((name, returned found) ∷ rest) = AllSeen rest
AllSeen ((name, raised e) ∷ rest) = (is_exception e ≡ true) × AllSeen rest

pub all_found : List Answer → List Offer
all_found [] = []
all_found ((name, returned found) ∷ rest) = found ++ all_found rest
all_found ((name, raised e) ∷ rest) = all_found rest

pub all_failed : List Answer → List String
all_failed [] = []
all_failed ((name, returned found) ∷ rest) = all_failed rest
all_failed ((name, raised e) ∷ rest) = name ∷ all_failed rest

collect_lem :
    (l : List Answer) (offers : List Offer) (degraded : List String)
    → AllSeen l
    → collect l offers degraded ≡ returned (offers ++ all_found l, degraded ++ all_failed l)
unfolding collect all_found all_failed
collect_lem [] offers degraded h = simp append-nil
collect_lem ((name, returned found) ∷ l) offers degraded h =
    collect_lem l (offers ++ found) degraded h ∙ simp append_assoc
collect_lem ((name, raised e) ∷ l) offers degraded (seen, h) =
    rw (seen, collect) (collect_lem l offers (degraded ++ name ∷ []) h ∙ simp append_assoc)

-- When every provider has answered or failed with an `Exception`, the search returns exactly the
-- offers of those that answered, the cheapest first, and the names of exactly those that failed, in
-- their order.
pub combine_lem :
    (l : List Answer)
    → AllSeen l
    → (offers : List Offer) × (combine l ≡ returned (offers, all_failed l))
      × IsSorted offers
      × Perm offers (all_found l)
unfolding combine
combine_lem l h = (
  sort_offers (all_found l),
  ap sorted (collect_lem l [] [] h),
  sort_offers-IsSorted (all_found l),
  sort_offers-Perm (all_found l),
)
