-- ===== src/Domain/Models.antt =====
-- The records of flydesk/domain/models.py. A model that pydantic checks on construction has a
-- constructor function beside it, where `none` is the `ValidationError`.
use fly_desk.Prelude.{ℕ, ◌+◌, ◌-◌, String, Bool, false, Option, none, some, List, [], ◌∷◌}
use fly_desk.Prelude.Lists.{length}
use fly_desk.Prelude.Options.{◌>>=◌}
use fly_desk.Domain.Enums.{Provider, CabinClass, PassengerType, PlaceType, OrderStatus}
use fly_desk.Domain.Text.{CharTable}
use fly_desk.Domain.Codes.{airport_code, carrier_code}
use fly_desk.Domain.Money.{Money, MoneyDoc}
use fly_desk.Domain.Time.{Date, Datetime, naive, aware, drop_tzinfo, datetime_lt}

pub record Place : Type 0 where
  pub iata_code : String
  pub name : Option String
  pub city_name : Option String
  pub kind : PlaceType

unfoldable pub make_place :
    CharTable → String → Option String → Option String → PlaceType → Option Place
make_place t iata_code name city_name kind = do
  c ← airport_code t iata_code
  some (record { iata_code = c; name = name; city_name = city_name; kind = kind })

pub record Carrier : Type 0 where
  pub iata_code : String
  pub name : Option String

unfoldable pub make_carrier : CharTable → String → Option String → Option Carrier
make_carrier t iata_code name = do
  c ← carrier_code t iata_code
  some (record { iata_code = c; name = name })

-- Durations count microseconds.
pub record Segment : Type 0 where
  pub id : String
  pub origin : Place
  pub destination : Place
  pub departing_at : Datetime
  pub arriving_at : Datetime
  pub marketing_carrier : Carrier
  pub operating_carrier : Option Carrier
  pub flight_number : String
  pub aircraft : Option String
  pub cabin_class : Option CabinClass
  pub duration : Option ℕ

pub record Slice : Type 0 where
  pub id : String
  pub origin : Place
  pub destination : Place
  pub duration : Option ℕ
  pub segments : List Segment

-- `Slice(...)`: at least one segment.
unfoldable pub make_slice : String → Place → Place → Option ℕ → List Segment → Option Slice
make_slice id origin destination duration [] = none
make_slice id origin destination duration (s ∷ rest) = some (record {
  id = id;
  origin = origin;
  destination = destination;
  duration = duration;
  segments = s ∷ rest;
})

-- `Slice.stops`; a slice has a segment, so nothing is cut off at 0.
unfoldable pub stops : Slice → ℕ
stops s = length s.segments - 1

pub record Offer : Type 0 where
  pub id : String
  pub provider : Provider
  pub owner : Carrier
  pub total : Money
  pub slices : List Slice
  pub passenger_types : List PassengerType
  pub cabin_class : Option CabinClass
  pub expires_at : Option Datetime

-- The slices of an offer: `Field(min_length=1)`.
abbrev pub some_slice : List Slice → Option (List Slice)
some_slice [] = none
some_slice (s ∷ rest) = some (s ∷ rest)

-- `Offer.total_stops`
unfoldable pub stops_of : List Slice → ℕ
unfolding stops
stops_of [] = 0
stops_of (s ∷ rest) = stops s + stops_of rest

unfoldable pub total_stops : Offer → ℕ
unfolding stops_of
total_stops o = stops_of o.slices

-- `Offer.is_expired` at the time `now`; `none` is the `TypeError` of a comparison.
unfoldable pub is_expired : Datetime → Offer → Option Bool
unfolding datetime_lt drop_tzinfo
is_expired now o = elim o.expires_at [
  | none ↦ some false
  | some (naive w) ↦ datetime_lt (naive w) (drop_tzinfo now)
  | some (aware w u) ↦ datetime_lt (aware w u) now
]

pub record BookingPassenger : Type 0 where
  pub kind : PassengerType
  pub title : Option String
  pub gender : Option String
  pub given_name : String
  pub family_name : String
  pub born_on : Date
  pub email : String
  pub phone_number : String
  pub provider_passenger_id : Option String

pub record OrderEvent : Type 0 where
  pub kind : String
  pub at_time : Datetime
  pub detail : Option String

-- The payload of an event, as far as the program reads it; `order_id` may be missing.
pub record Payload : Type 0 where
  pub order_id : Option String
  pub booking_reference : Option String
  pub provider : String
  pub total : MoneyDoc

pub record OutboxEvent : Type 0 where
  pub id : String
  pub kind : String
  pub payload : Payload
  pub created_at : Datetime
  pub published_at : Option Datetime

pub record Order : Type 0 where
  pub id : String
  pub provider : Provider
  pub provider_order_id : String
  pub booking_reference : Option String
  pub status : OrderStatus
  pub total : Money
  pub slices : List Slice
  pub passengers : List BookingPassenger
  pub idempotency_key : Option String
  pub created_at : Datetime
  pub events : List OrderEvent
  pub outbox : List OutboxEvent
