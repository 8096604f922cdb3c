-- ===== src/Providers/Duffel/Mapper.antt =====
-- flydesk/providers/duffel/mapper.py. `none` is a `ValidationError`; pydantic's reading of an ISO
-- 8601 duration is a parameter.
use Prim.Native.String.{◌++◌}
use fly_desk.Prelude.{ℕ, String, Option, none, some, List, [], ◌∷◌, map, str_eq, if◌then◌else◌}
use fly_desk.Prelude.Options.{◌>>=◌, or_default, traverse}
use fly_desk.Domain.Enums.{
  duffel, CabinClass, cabin_of, PassengerType, adult, passenger_of, PlaceType, airport, place_of,
  confirmed,
}
use fly_desk.Domain.Text.{CharTable}
use fly_desk.Domain.Money.{make_money}
use fly_desk.Domain.Time.{Date, Datetime}
use fly_desk.Domain.Models.{
  Place, make_place, Carrier, make_carrier, Segment, Slice, make_slice, Offer, some_slice,
  BookingPassenger, Order,
}
use fly_desk.Providers.Duffel.{
  DuffelPlace, DuffelCarrier, DuffelAircraft, DuffelSegmentPassenger, DuffelSegment, DuffelSlice,
  DuffelOffer, DuffelOrderData,
}

-- `if value`: an empty text counts as none.
abbrev pub non_empty : Option String → Option String
non_empty none = none
non_empty (some v) = if str_eq v "" then none else some v

-- An absent or unknown cabin is none.
unfoldable pub cabin : Option String → Option CabinClass
cabin value = non_empty value >>= cabin_of

-- An absent or unknown type is the default.
unfoldable pub passenger_type : Option String → PassengerType
passenger_type value = or_default (non_empty value >>= passenger_of) adult

unfoldable pub place_type : Option String → PlaceType
place_type value = or_default (non_empty value >>= place_of) airport

-- The cabin of the first passenger.
abbrev pub first_cabin : List DuffelSegmentPassenger → Option CabinClass
first_cabin [] = none
first_cabin (p ∷ ps) = cabin p.cabin_class

abbrev pub aircraft_name : Option DuffelAircraft → Option String
aircraft_name none = none
aircraft_name (some a) = a.name

-- `first_segment` of `map_offer`, and its cabin.
abbrev pub segment_cabin : List DuffelSegment → Option CabinClass
segment_cabin [] = none
segment_cabin (s ∷ rest) = first_cabin s.passengers

abbrev pub offer_cabin : List DuffelSlice → Option CabinClass
offer_cabin [] = none
offer_cabin (s ∷ rest) = segment_cabin s.segments

-- A text in an f-string
abbrev pub shown : Option String → String
shown none = "None"
shown (some s) = s

module _ (t : CharTable) (iso_duration : String → Option ℕ) where
  -- A field with an optional duration
  abbrev pub duration_of : Option String → Option (Option ℕ)
  duration_of none = some none
  duration_of (some d) = iso_duration d >>= λ n. some (some n)

  -- A place needs a code.
  unfoldable pub place : DuffelPlace → Option Place
  place p = do code ← p.iata_code; make_place t code p.name p.city_name (place_type p.kind)

  unfoldable pub carrier : DuffelCarrier → Option Carrier
  carrier c = make_carrier t c.iata_code c.name

  abbrev pub operating : Option DuffelCarrier → Option (Option Carrier)
  operating none = some none
  operating (some c) = carrier c >>= λ c'. some (some c')

  unfoldable pub segment : DuffelSegment → Option Segment
  segment s = do
    origin ← place s.origin
    destination ← place s.destination
    marketing ← carrier s.marketing_carrier
    operated ← operating s.operating_carrier
    duration ← duration_of s.duration
    some (record {
      id = s.id;
      origin = origin;
      destination = destination;
      departing_at = s.departing_at;
      arriving_at = s.arriving_at;
      marketing_carrier = marketing;
      operating_carrier = operated;
      flight_number = s.marketing_carrier.iata_code ++ s.marketing_carrier_flight_number;
      aircraft = aircraft_name s.aircraft;
      cabin_class = first_cabin s.passengers;
      duration = duration;
    })

  unfoldable pub slice : DuffelSlice → Option Slice
  slice sl = do
    origin ← place sl.origin
    destination ← place sl.destination
    duration ← duration_of sl.duration
    segments ← traverse segment sl.segments
    make_slice sl.id origin destination duration segments

  unfoldable pub map_offer : DuffelOffer → Option Offer
  map_offer o = do
    owner ← carrier o.owner
    total ← make_money t o.total_amount o.total_currency
    mapped ← traverse slice o.slices
    slices ← some_slice mapped
    some (record {
      id = o.id;
      provider = duffel;
      owner = owner;
      total = total;
      slices = slices;
      passenger_types = map (λ p. passenger_type p.kind) o.passengers;
      cabin_class = offer_cabin o.slices;
      expires_at = o.expires_at;
    })

  -- The two times are those at which the event and the order are made.
  unfoldable pub map_order :
      Datetime → Datetime → DuffelOrderData → List BookingPassenger → Option Order
  map_order event_at order_at data_of passengers = do
    total ← make_money t data_of.total_amount data_of.total_currency
    slices ← traverse slice data_of.slices
    some (record {
      id = data_of.id;
      provider = duffel;
      provider_order_id = data_of.id;
      booking_reference = data_of.booking_reference;
      status = confirmed;
      total = total;
      slices = slices;
      passengers = passengers;
      idempotency_key = none;
      created_at = order_at;
      events =
          record {
            kind = "order.created";
            at_time = event_at;
            detail = some (
                "Duffel order "
                ++ data_of.id
                ++ " (PNR "
                ++ shown data_of.booking_reference
                ++ ")");
          }
          ∷ [];
      outbox = [];
    })

-- One direction of a journey in an offer request; a date stands for its ISO 8601 text.
pub record Leg : Type 0 where
  pub origin : String
  pub destination : String
  pub departure_date : Date

pub record OfferRequestPayload (Passenger : Type 0) : Type 0 where
  pub slices : List Leg
  pub passengers : List Passenger
  pub cabin_class : String
  pub max_connections : ℕ

abbrev pub way_back : String → String → Option Date → List Leg
way_back origin destination none = []
way_back origin destination (some return_date) =
    record { origin = destination; destination = origin; departure_date = return_date } ∷ []

unfoldable pub build_offer_request_payload :
    {Passenger : Type 0}
    → String
    → String
    → Date
    → Option Date
    → String
    → List Passenger
    → ℕ
    → OfferRequestPayload Passenger
build_offer_request_payload origin destination departure_date return_date cabin_class passengers
      max_connections =
    record {
      slices =
          record { origin = origin; destination = destination; departure_date = departure_date }
          ∷ way_back origin destination return_date;
      passengers = passengers;
      cabin_class = cabin_class;
      max_connections = max_connections;
    }
