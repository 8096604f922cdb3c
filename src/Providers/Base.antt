-- ===== src/Providers/Base.antt =====
-- flydesk/providers/base.py, amadeus/provider.py and mock.py: the choice of a provider, the provider
-- that makes no calls, and the one for tests. `str.lower` and `repr` are parameters.
use Prim.Native.String.{◌++◌}
use fly_desk.Prelude.{ℕ, String, Option, none, some, List, ◌==◌, str_eq, if◌then◌else◌}
use fly_desk.Prelude.Options.{◌>>=◌, or_default}
use fly_desk.Errors.{Exception, not_implemented, value_error, Outcome, returned, raised}
use fly_desk.Errors.Actions.{Action}
use fly_desk.Domain.Enums.{Provider, duffel, amadeus, provider_value}
use fly_desk.Domain.Text.{CharTable}
use fly_desk.Domain.Models.{BookingPassenger, Offer, Order}
use fly_desk.Domain.Criteria.{SearchCriteria}
use fly_desk.Providers.Duffel.Mapper.{non_empty}
use fly_desk.Providers.Amadeus.{AmadeusFlightOffer, AmadeusDictionaries}
use fly_desk.Providers.Amadeus.Mapper.{map_offers}

-- `get_provider`: the class of the given name, or of the one in the settings.
unfoldable pub get_provider :
    (String → String) → (String → String) → String → Option String → Outcome Provider
get_provider lower repr configured name =
    let resolved = lower (or_default (non_empty name) configured) in
    if str_eq resolved (provider_value duffel)
    then returned duffel
    else if str_eq resolved (provider_value amadeus)
    then returned amadeus
    else raised (value_error ("unknown provider: " ++ repr resolved))

-- `AmadeusProvider.search`, `get_offer` and `create_order`
module _ {S : Type 0} where
  abbrev pub live_disabled : {A : Type 0} → Action S A
  live_disabled s = (raised not_implemented, s)

  unfoldable pub amadeus_search : SearchCriteria → Action S (List Offer)
  amadeus_search criteria = live_disabled

  unfoldable pub amadeus_get_offer : String → Action S Offer
  amadeus_get_offer offer_id = live_disabled

  unfoldable pub amadeus_create_order : String → List BookingPassenger → Action S Order
  amadeus_create_order offer_id passengers = live_disabled

-- `AmadeusProvider.map_payload`; the reading of the payload is a parameter.
unfoldable pub map_payload :
    {Json : Type 0}
    → CharTable
    → (String → String)
    → (ℕ → String)
    → (String → Option ℕ)
    → (Json → Option (List AmadeusFlightOffer × Option AmadeusDictionaries))
    → Json
    → Option (List Offer)
map_payload t lower digits iso_duration read raw = do
  (offers, dictionaries) ← read raw
  map_offers t lower digits iso_duration dictionaries offers

pub record MockProvider : Type 0 where
  pub name : String
  pub offers : List Offer
  pub delay : ℕ
  pub fail : Option Exception

abbrev pub answer_of : Option Exception → List Offer → Outcome (List Offer)
answer_of none offers = returned offers
answer_of (some e) offers = raised e

-- `MockProvider.search`; `sleep` passes time.
unfoldable pub mock_search :
    {S : Type 0} → (ℕ → S → S) → MockProvider → SearchCriteria → Action S (List Offer)
mock_search sleep m criteria s =
    (answer_of m.fail m.offers, if m.delay == 0 then s else sleep m.delay s)
