-- ===== src/Providers/Duffel/Client.antt =====
-- flydesk/providers/duffel/client.py and async_client.py. The HTTP library, and pydantic's reading of
-- an answer, are parameters.
pub mod Failures
pub mod Posts
use Prim.Native.String.{◌++◌}
use fly_desk.Prelude.{ℕ, String, Option, none, some, List, [], ◌∷◌, ◌==◌, leb, if◌then◌else◌}
use fly_desk.Prelude.{◌++◌ as ◌+++◌}
use fly_desk.Prelude.Options.{traverse}
use fly_desk.Errors.{
  Exception, domain, init, provider, provider_timeout, offer_not_found, validation, value_error,
  Outcome, returned, raised,
}
use fly_desk.Errors.Actions.{Action, pure, or_raise, ◌>>=◌}
use fly_desk.Domain.Text.{CharTable}
use fly_desk.Domain.Time.{Datetime}
use fly_desk.Domain.Models.{BookingPassenger, Offer, Order}
use fly_desk.Domain.Criteria.{SearchCriteria}
use fly_desk.Domain.Sorting.{sort_offers}
use fly_desk.Providers.Duffel.{DuffelOffer, DuffelOrderData}
use fly_desk.Providers.Duffel.Mapper.{map_offer, map_order}
use fly_desk.Providers.Duffel.Payloads.{
  Call, search_call, offer_call, order_call, search_payload, order_payload,
}

-- How a call ends. An answer that is no JSON has no content.
pub data Reply (Json : Type 0) : Type 0 where
  timed_out : Reply Json
  transport_error : String → Reply Json
  answered : ℕ → Option Json → Reply Json

-- httpx, the clock, and the models of the answers that pydantic validates.
pub record Http : Type 1 where
  pub Json : Type 0
  pub Env : Type 0
  pub request : Call → Env → Reply Json × Env
  pub now : Env → Datetime
  pub offers_of : Json → Option (List DuffelOffer)
  pub offer_of : Json → Option DuffelOffer
  pub order_of : Json → Option DuffelOrderData
  -- the text of an `int`, and an ISO 8601 duration
  pub digits : ℕ → String
  pub iso_duration : String → Option ℕ

-- The world, with the calls made so far.
pub record World (h : Http) : Type 0 where
  pub env : h.Env
  pub sent : List Call

module _ (h : Http) where
  abbrev pub provider_error : String → Exception
  provider_error message = domain (init provider (some message))

  abbrev pub json_of : Option h.Json → Outcome h.Json
  json_of none = raised (value_error "JSONDecodeError")
  json_of (some json) = returned json

  -- What `_request` makes of a reply.
  unfoldable pub outcome_of : Call → Reply h.Json → Outcome h.Json
  outcome_of c timed_out =
      raised (
        domain (init provider_timeout (some ("Duffel timed out on " ++ c.method ++ " " ++ c.path))))
  outcome_of c (transport_error exc) = raised (provider_error ("Duffel transport error: " ++ exc))
  outcome_of c (answered status content) =
      if status == 404
      then raised (domain (init offer_not_found none))
      else if leb 400 status
      then raised (provider_error ("Duffel returned HTTP " ++ h.digits status))
      else json_of content

  -- The call to the HTTP library, which is noted.
  abbrev pub send : Call → World h → Reply h.Json × World h
  send c w =
      let (reply, env) = h.request c w.env in
      (reply, record { env = env; sent = w.sent +++ c ∷ [] })

  -- `DuffelProvider._request`
  unfoldable pub request : Call → Action (World h) h.Json
  unfolding outcome_of
  request c w = let (reply, w') = send c w in (outcome_of c reply, w')

  -- The reading of `AsyncDuffelProvider`, which does not tell a 404 from other errors.
  unfoldable pub async_outcome_of : Reply h.Json → Outcome h.Json
  async_outcome_of timed_out =
      raised (domain (init provider_timeout (some "Duffel timed out on search")))
  async_outcome_of (transport_error exc) =
      raised (provider_error ("Duffel transport error: " ++ exc))
  async_outcome_of (answered status content) =
      if leb 400 status
      then raised (provider_error ("Duffel returned HTTP " ++ h.digits status))
      else json_of content

  unfoldable pub async_request : Call → Action (World h) h.Json
  unfolding async_outcome_of
  async_request c w = let (reply, w') = send c w in (async_outcome_of reply, w')

module _ (t : CharTable) (h : Http) where
  -- The offers of an answer, the cheapest first.
  unfoldable pub read_offers : h.Json → Action (World h) (List Offer)
  read_offers json = do
    raw ← or_raise (validation "DuffelOfferRequestResponse") (h.offers_of json)
    offers ← or_raise (validation "Offer") (traverse (map_offer t h.iso_duration) raw)
    pure (sort_offers offers)

  -- `DuffelProvider.search`
  unfoldable pub search : SearchCriteria → Action (World h) (List Offer)
  search criteria = do raw ← request h (search_call (search_payload criteria)); read_offers raw

  -- `AsyncDuffelProvider.search`
  unfoldable pub async_search : SearchCriteria → Action (World h) (List Offer)
  async_search criteria = do
    raw ← async_request h (search_call (search_payload criteria))
    read_offers raw

  -- An offer as Duffel has it now.
  unfoldable pub fetch_offer : String → Action (World h) DuffelOffer
  fetch_offer offer_id = do
    raw ← request h (offer_call offer_id)
    or_raise (validation "DuffelOfferResponse") (h.offer_of raw)

  -- `DuffelProvider.get_offer`
  unfoldable pub get_offer : String → Action (World h) Offer
  get_offer offer_id = do
    raw ← fetch_offer offer_id
    or_raise (validation "Offer") (map_offer t h.iso_duration raw)

  -- The order in Duffel's answer. The event and the order take their times one after the other.
  unfoldable pub read_order : List BookingPassenger → h.Json → Action (World h) Order
  read_order passengers json = do
    made ← or_raise (validation "DuffelOrderResponse") (h.order_of json)
    λ w.
        or_raise (validation "Order")
          (map_order t h.iso_duration (h.now w.env) (h.now w.env) made passengers) w

  unfoldable pub post_order : List BookingPassenger → DuffelOffer → Action (World h) Order
  post_order passengers offer = do
    raw ← request h (order_call (order_payload offer passengers))
    read_order passengers raw

  -- `DuffelProvider.create_order`
  unfoldable pub create_order : String → List BookingPassenger → Action (World h) Order
  create_order offer_id passengers = do offer ← fetch_offer offer_id; post_order passengers offer
