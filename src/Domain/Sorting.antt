-- ===== src/Domain/Sorting.antt =====
-- Offers in the order of their prices, as flydesk/search/async_service.py and
-- flydesk/providers/duffel/client.py sort them.
pub mod Laws
use fly_desk.Prelude.{Bool, List, [], ◌∷◌, if◌then◌else◌}
use fly_desk.Domain.Money.{le_decimal}
use fly_desk.Domain.Models.{Offer}

abbrev pub cheaper : Offer → Offer → Bool
cheaper a b = le_decimal a.total.amount b.total.amount

-- `offers.sort(key=...)`, a stable sort: an offer goes before the later ones of its price.
unfoldable pub place_offer : Offer → List Offer → List Offer
place_offer o [] = o ∷ []
place_offer o (p ∷ rest) =
    let later = place_offer o rest in if cheaper o p then o ∷ p ∷ rest else p ∷ later

unfoldable pub sort_offers : List Offer → List Offer
unfolding place_offer
sort_offers [] = []
sort_offers (o ∷ rest) = place_offer o (sort_offers rest)
