-- ===== src/Providers/Duffel/Payloads.antt =====
-- What flydesk/providers/duffel/client.py sends to Duffel.
use Prim.Native.String.{◌++◌}
use fly_desk.Prelude.{
  ℕ, String, Bool, true, false, Option, none, some, List, [], ◌∷◌, if◌then◌else◌,
}
use fly_desk.Prelude.Options.{or_default}
use fly_desk.Domain.Enums.{
  adult, child, infant_without_seat, PassengerType, passenger_value, cabin_value,
}
use fly_desk.Domain.Money.{Decimal}
use fly_desk.Domain.Time.{Date}
use fly_desk.Domain.Models.{BookingPassenger}
use fly_desk.Domain.Criteria.{PassengerSpec, SearchCriteria}
use fly_desk.Providers.Duffel.{DuffelOffer, DuffelOfferPassenger}
use fly_desk.Providers.Duffel.Mapper.{OfferRequestPayload, build_offer_request_payload, non_empty}

-- A passenger of a search: by type, or by age.
pub data RequestPassenger : Type 0 where
  typed : String → RequestPassenger
  aged : ℕ → RequestPassenger

abbrev pub is_adult : PassengerType → Bool
is_adult adult = true
is_adult child = false
is_adult infant_without_seat = false

abbrev pub by_age : PassengerType → Option ℕ → RequestPassenger
by_age kind none = typed (passenger_value kind)
by_age kind (some age) = aged age

unfoldable pub request_passenger : PassengerSpec → RequestPassenger
request_passenger p = if is_adult p.kind then typed "adult" else by_age p.kind p.age

-- `_passengers_for_request`
unfoldable pub passengers_for_request : List PassengerSpec → List RequestPassenger
unfolding request_passenger
passengers_for_request [] = []
passengers_for_request (p ∷ rest) = request_passenger p ∷ passengers_for_request rest

-- A passenger of an order, in a slot of the offer.
pub record OrderPassenger : Type 0 where
  pub id : String
  pub title : String
  pub gender : String
  pub given_name : String
  pub family_name : String
  pub born_on : Date
  pub email : String
  pub phone_number : String

unfoldable pub order_passenger : DuffelOfferPassenger → BookingPassenger → OrderPassenger
order_passenger slot person = record {
  id = slot.id;
  title = or_default (non_empty person.title) "mr";
  gender = or_default (non_empty person.gender) "m";
  given_name = person.given_name;
  family_name = person.family_name;
  born_on = person.born_on;
  email = person.email;
  phone_number = person.phone_number;
}

-- The loop over `zip(..., strict=False)`, which ends with the shorter list.
unfoldable pub order_passengers :
    List DuffelOfferPassenger → List BookingPassenger → List OrderPassenger
unfolding order_passenger
order_passengers [] persons = []
order_passengers (slot ∷ slots) [] = []
order_passengers (slot ∷ slots) (person ∷ persons) =
    order_passenger slot person ∷ order_passengers slots persons

-- The body of POST /air/orders; an amount stands for its text.
pub record OrderPayload : Type 0 where
  pub selected_offers : List String
  pub currency : String
  pub amount : Decimal
  pub passengers : List OrderPassenger

unfoldable pub order_payload : DuffelOffer → List BookingPassenger → OrderPayload
unfolding order_passengers
order_payload offer passengers = record {
  selected_offers = offer.id ∷ [];
  currency = offer.total_currency;
  amount = offer.total_amount;
  passengers = order_passengers offer.passengers passengers;
}

-- What is sent: without a body, a search or an order.
pub data Body : Type 0 where
  no_body : Body
  search_body : OfferRequestPayload RequestPassenger → Body
  order_body : OrderPayload → Body

pub record Call : Type 0 where
  pub method : String
  pub path : String
  pub body : Body

abbrev pub search_call : OfferRequestPayload RequestPassenger → Call
search_call payload = record {
  method = "POST";
  path = "/air/offer_requests?return_offers=true";
  body = search_body payload;
}

abbrev pub offer_call : String → Call
offer_call offer_id = record { method = "GET"; path = "/air/offers/" ++ offer_id; body = no_body }

abbrev pub order_call : OrderPayload → Call
order_call payload = record { method = "POST"; path = "/air/orders"; body = order_body payload }

-- The body of a search for these criteria.
unfoldable pub search_payload : SearchCriteria → OfferRequestPayload RequestPassenger
unfolding build_offer_request_payload passengers_for_request
search_payload c =
    build_offer_request_payload c.origin c.destination c.departure_date c.return_date
      (cabin_value c.cabin_class) (passengers_for_request c.passengers) c.max_connections
