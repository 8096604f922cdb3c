-- ===== src/Examples/Mapped.antt =====
-- The theorems on the providers at small payloads.
use fly_desk.Prelude.{ℕ, ◌≡◌, refl, false, String, Option, none, some, [], ◌∷◌}
use fly_desk.Prelude.Lists.{All, length}
use fly_desk.Prelude.Options.{or_default, traverse}
use fly_desk.Domain.Enums.{place_of, amadeus}
use fly_desk.Domain.Text.{upper, lstrip, rstrip, strip, isalpha, isalnum, all}
use fly_desk.Domain.Codes.{airport_code, carrier_code, currency_iso4217}
use fly_desk.Domain.Money.{make_money}
use fly_desk.Domain.Time.{aware}
use fly_desk.Domain.Models.{Order, Offer, make_place, make_carrier, make_slice}
use fly_desk.Bookings.Document.RoundTrip.{IsNormal, IsSlice, IsCarrier}
use fly_desk.Providers.Duffel.{DuffelPlace, DuffelCarrier, DuffelSegment, DuffelOrderData}
use fly_desk.Providers.Duffel.Mapper
use fly_desk.Providers.Duffel.Mapper.{map_order, place_type}
use fly_desk.Providers.Duffel.Normal.{map_order-IsNormal}
use fly_desk.Providers.Amadeus.{AmadeusFlightOffer, AmadeusSegment}
use fly_desk.Providers.Amadeus.Mapper as Translate
use fly_desk.Providers.Amadeus.Mapper.{slices_from, fill_cabins, amount_of}
use fly_desk.Providers.Amadeus.Normal.{map_offer-IsSlice}
use fly_desk.Examples.Fixtures.{ascii, ascii-IsUnicode, letter, digit, order_of, lot, traveller}

abbrev pub iso : String → Option ℕ
iso d = some 3600

abbrev pub here : DuffelPlace
here = record { iata_code = some "WAW"; name = none; city_name = none; kind = some "airport" }

abbrev pub there : DuffelPlace
there = record { iata_code = some "LIS"; name = none; city_name = none; kind = none }

abbrev pub line : DuffelCarrier
line = record { iata_code = "LO"; name = none }

abbrev leg : DuffelSegment
leg = record {
  id = "seg_1";
  origin = here;
  destination = there;
  departing_at = aware 0 0;
  arriving_at = aware 9 9;
  marketing_carrier = line;
  operating_carrier = some line;
  marketing_carrier_flight_number = "12";
  aircraft = none;
  duration = some "PT1H";
  passengers = [];
}

abbrev pub made : DuffelOrderData
made = record {
  id = "ord_1";
  booking_reference = none;
  total_amount = record { negative = false; digits = 100; places = 0 };
  total_currency = "PLN";
  slices =
      record {
        id = "sli_1";
        origin = here;
        destination = there;
        duration = none;
        segments = leg ∷ [];
      }
      ∷ [];
}

abbrev mapped_order : Order
mapped_order =
    or_default (map_order ascii iso (aware 0 0) (aware 1 1) made (traveller ∷ [])) (order_of "none")

order_mapped : map_order ascii iso (aware 0 0) (aware 1 1) made (traveller ∷ []) ≡ some mapped_order
unfolding map_order Mapper.slice Mapper.segment Mapper.place Mapper.carrier place_type place_of
    make_place make_carrier make_slice make_money airport_code carrier_code currency_iso4217 upper
    lstrip rstrip strip isalpha isalnum all letter digit traverse
order_mapped = refl

map_order-IsNormal_example :
    IsNormal ascii mapped_order
    × (mapped_order.id ≡ "ord_1")
    × (mapped_order.idempotency_key ≡ none)
    × (mapped_order.outbox ≡ [])
map_order-IsNormal_example =
    map_order-IsNormal ascii ascii-IsUnicode iso (aware 0 0) (aware 1 1) made (traveller ∷ [])
      mapped_order order_mapped

abbrev hop : AmadeusSegment
hop = record {
  id = "1";
  departure = record { iata_code = "WAW"; terminal = none; at_time = aware 0 0 };
  arrival = record { iata_code = "LIS"; terminal = none; at_time = aware 9 9 };
  carrier_code = "LO";
  number = "12";
  aircraft = some (record { code = some "73H" });
  operating = none;
  duration = some "PT1H";
  number_of_stops = 0;
}

abbrev offered : AmadeusFlightOffer
offered = record {
  id = "7";
  source = none;
  itineraries = record { duration = none; segments = hop ∷ [] } ∷ [];
  price = record {
    currency = "PLN";
    total = record { negative = false; digits = 100; places = 0 };
    base = none;
    grand_total = none;
    fees = [];
  };
  validating_airline_codes = [];
  traveler_pricings = [];
}

abbrev mapped_offer : Offer
mapped_offer = or_default (Translate.map_offer ascii (λ s. s) (λ n. "0") iso none offered) (record {
  id = "none";
  provider = amadeus;
  owner = lot;
  total = record { amount = record { negative = false; digits = 0; places = 0 }; currency = "PLN" };
  slices = [];
  passenger_types = [];
  cabin_class = none;
  expires_at = none;
})

offer_mapped : Translate.map_offer ascii (λ s. s) (λ n. "0") iso none offered ≡ some mapped_offer
unfolding Translate.map_offer Translate.slices_from Translate.slice Translate.segment
    Translate.place Translate.carrier Translate.amount_of make_place make_carrier make_slice
    make_money airport_code carrier_code currency_iso4217 upper lstrip rstrip strip isalpha isalnum
    all letter digit traverse
offer_mapped = refl

map_offer-IsSlice_example :
    All (IsSlice ascii) mapped_offer.slices
    × (length mapped_offer.slices ≡ 1)
    × IsCarrier ascii mapped_offer.owner
map_offer-IsSlice_example =
    map_offer-IsSlice ascii ascii-IsUnicode (λ s. s) (λ n. "0") iso none offered mapped_offer
      offer_mapped
