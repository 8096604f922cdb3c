-- ===== src/Providers/Duffel.antt =====
-- flydesk/providers/duffel/schemas.py: what is read of Duffel's payloads. A duration is still the
-- text that Duffel sends.
pub mod Mapper
pub mod Normal
pub mod Payloads
pub mod Client
use fly_desk.Prelude.{String, Option, List}
use fly_desk.Domain.Money.{Decimal}
use fly_desk.Domain.Time.{Datetime}

pub record DuffelPlace : Type 0 where
  pub iata_code : Option String
  pub name : Option String
  pub city_name : Option String
  pub kind : Option String

pub record DuffelCarrier : Type 0 where
  pub iata_code : String
  pub name : Option String

pub record DuffelAircraft : Type 0 where
  pub iata_code : Option String
  pub name : Option String

pub record DuffelSegmentPassenger : Type 0 where
  pub passenger_id : Option String
  pub cabin_class : Option String
  pub cabin_class_marketing_name : Option String
  pub fare_basis_code : Option String

pub record DuffelSegment : Type 0 where
  pub id : String
  pub origin : DuffelPlace
  pub destination : DuffelPlace
  pub departing_at : Datetime
  pub arriving_at : Datetime
  pub marketing_carrier : DuffelCarrier
  pub operating_carrier : Option DuffelCarrier
  pub marketing_carrier_flight_number : String
  pub aircraft : Option DuffelAircraft
  pub duration : Option String
  pub passengers : List DuffelSegmentPassenger

pub record DuffelSlice : Type 0 where
  pub id : String
  pub origin : DuffelPlace
  pub destination : DuffelPlace
  pub duration : Option String
  pub segments : List DuffelSegment

pub record DuffelOfferPassenger : Type 0 where
  pub id : String
  pub kind : Option String

pub record DuffelOffer : Type 0 where
  pub id : String
  pub owner : DuffelCarrier
  pub total_amount : Decimal
  pub total_currency : String
  pub base_amount : Option Decimal
  pub tax_amount : Option Decimal
  pub slices : List DuffelSlice
  pub passengers : List DuffelOfferPassenger
  pub expires_at : Option Datetime

pub record DuffelOrderData : Type 0 where
  pub id : String
  pub booking_reference : Option String
  pub total_amount : Decimal
  pub total_currency : String
  pub slices : List DuffelSlice
