-- ===== src/Providers/Amadeus.antt =====
-- flydesk/providers/amadeus/schemas.py: what is read of Amadeus's payloads.
pub mod Mapper
pub mod Normal
use fly_desk.Prelude.{ℕ, String, Option, List}
use fly_desk.Prelude.Dicts.{Dict}
use fly_desk.Domain.Money.{Decimal}
use fly_desk.Domain.Time.{Datetime}

pub record AmadeusEndpoint : Type 0 where
  pub iata_code : String
  pub terminal : Option String
  pub at_time : Datetime

pub record AmadeusAircraft : Type 0 where
  pub code : Option String

pub record AmadeusOperating : Type 0 where
  pub carrier_code : Option String

pub record AmadeusSegment : Type 0 where
  pub id : String
  pub departure : AmadeusEndpoint
  pub arrival : AmadeusEndpoint
  pub carrier_code : String
  pub number : String
  pub aircraft : Option AmadeusAircraft
  pub operating : Option AmadeusOperating
  pub duration : Option String
  pub number_of_stops : ℕ

pub record AmadeusItinerary : Type 0 where
  pub duration : Option String
  pub segments : List AmadeusSegment

pub record AmadeusFee : Type 0 where
  pub amount : Decimal
  pub kind : String

pub record AmadeusPrice : Type 0 where
  pub currency : String
  pub total : Decimal
  pub base : Option Decimal
  pub grand_total : Option Decimal
  pub fees : List AmadeusFee

pub record AmadeusFareDetail : Type 0 where
  pub segment_id : String
  pub cabin : Option String
  pub fare_basis : Option String
  pub booking_class : Option String

pub record AmadeusTravelerPricing : Type 0 where
  pub traveler_id : String
  pub traveler_type : String
  pub fare_details_by_segment : List AmadeusFareDetail

pub record AmadeusFlightOffer : Type 0 where
  pub id : String
  pub source : Option String
  pub itineraries : List AmadeusItinerary
  pub price : AmadeusPrice
  pub validating_airline_codes : List String
  pub traveler_pricings : List AmadeusTravelerPricing

-- Of a location the `cityCode` is read.
pub record AmadeusDictionaries : Type 0 where
  pub carriers : Dict String
  pub aircraft : Dict String
  pub locations : Dict (Option String)
