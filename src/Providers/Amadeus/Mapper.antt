-- ===== src/Providers/Amadeus/Mapper.antt =====
-- flydesk/providers/amadeus/mapper.py. `none` stands for what it raises: a `ValidationError`, or an
-- `IndexError` on an offer or an itinerary without segments. `str.lower`, the text of an `int` and
-- pydantic's reading of an ISO 8601 duration are parameters.
use Prim.Native.String.{◌++◌}
use fly_desk.Prelude.{
  ℕ, suc, ◌==◌, String, Option, none, some, List, [], ◌∷◌, map, str_eq, if◌then◌else◌,
}
use fly_desk.Prelude.Options.{◌>>=◌, traverse}
use fly_desk.Prelude.Dicts.{Dict, lookup, insert}
use fly_desk.Domain.Enums.{
  amadeus, CabinClass, cabin_of, PassengerType, adult, child, infant_without_seat, airport,
}
use fly_desk.Domain.Text.{CharTable}
use fly_desk.Domain.Money.{Decimal, make_money}
use fly_desk.Domain.Models.{
  Place, make_place, Carrier, make_carrier, Segment, Slice, make_slice, Offer, some_slice,
}
use fly_desk.Providers.Amadeus.{
  AmadeusAircraft, AmadeusOperating, AmadeusSegment, AmadeusItinerary, AmadeusPrice,
  AmadeusFareDetail, AmadeusTravelerPricing, AmadeusFlightOffer, AmadeusDictionaries,
}

-- `_TRAVELER_TYPE.get(..., PassengerType.ADULT)`
unfoldable pub traveler_type : String → PassengerType
traveler_type s =
    if str_eq s "CHILD"
    then child
    else if str_eq s "HELD_INFANT"
    then infant_without_seat
    else if str_eq s "SEATED_INFANT"
    then child
    else adult

-- `if value`: an empty text counts as none.
abbrev pub non_empty : Option String → Option String
non_empty none = none
non_empty (some v) = if str_eq v "" then none else some v

abbrev pub or_else : Option String → Option String → Option String
or_else none other = other
or_else (some v) other = some v

abbrev pub city_code : Option AmadeusDictionaries → String → Option String
city_code none iata_code = none
city_code (some d) iata_code = lookup iata_code d.locations >>= λ c. c

abbrev pub carrier_name : Option AmadeusDictionaries → String → Option String
carrier_name none code = none
carrier_name (some d) code = lookup code d.carriers

abbrev pub code_of : Option AmadeusAircraft → Option String
code_of none = none
code_of (some a) = a.code

abbrev pub operating_code : Option AmadeusOperating → Option String
operating_code none = none
operating_code (some o) = non_empty o.carrier_code

abbrev pub aircraft_name : Option AmadeusDictionaries → Option String → Option String
aircraft_name none code = none
aircraft_name (some d) code = code >>= λ c. lookup c d.aircraft

-- The dict that the loop over the fare details fills.
unfoldable pub fill_cabins : List AmadeusFareDetail → Dict (Option String) → Dict (Option String)
fill_cabins [] d = d
fill_cabins (fd ∷ rest) d = fill_cabins rest (insert fd.segment_id fd.cabin d)

abbrev pub cabin_by_segment : List AmadeusTravelerPricing → Dict (Option String)
cabin_by_segment [] = []
cabin_by_segment (tp ∷ rest) = fill_cabins tp.fare_details_by_segment []

-- `next(iter(cabin_by_segment.values()), None)`
abbrev pub first_cabin : Dict (Option String) → Option String
first_cabin [] = none
first_cabin ((k, c) ∷ rest) = c

-- `grand_total or total`: a grand total of zero counts as none.
unfoldable pub amount_of : AmadeusPrice → Decimal
amount_of p = elim p.grand_total [ none ↦ p.total | some g ↦ if g.digits == 0 then p.total else g ]

abbrev pub last : Segment → List Segment → Segment
last s [] = s
last s (r ∷ rest) = last r rest

abbrev pub first_carrier : List AmadeusItinerary → Option String
first_carrier [] = none
first_carrier (i ∷ rest) = elim i.segments [ [] ↦ none | s ∷ _ ↦ some s.carrier_code ]

abbrev pub owner_code : AmadeusFlightOffer → Option String
owner_code o = elim o.validating_airline_codes [ [] ↦ first_carrier o.itineraries | c ∷ _ ↦ some c ]

module _ (t : CharTable) (lower : String → String) (digits : ℕ → String)
    (iso_duration : String → Option ℕ) where
  abbrev pub duration_of : Option String → Option (Option ℕ)
  duration_of none = some none
  duration_of (some d) = iso_duration d >>= λ n. some (some n)

  unfoldable pub cabin : Option String → Option CabinClass
  cabin value = non_empty value >>= λ v. cabin_of (lower v)

  unfoldable pub place : Option AmadeusDictionaries → String → Option Place
  place d iata_code = make_place t iata_code none (city_code d iata_code) airport

  unfoldable pub carrier : Option AmadeusDictionaries → String → Option Carrier
  carrier d code = make_carrier t code (carrier_name d code)

  abbrev pub operating : Option AmadeusDictionaries → Option String → Option (Option Carrier)
  operating d none = some none
  operating d (some code) = carrier d code >>= λ c. some (some c)

  unfoldable pub segment :
      Dict (Option String) → Option AmadeusDictionaries → AmadeusSegment → Option Segment
  segment cabins d seg = do
    origin ← place d seg.departure.iata_code
    destination ← place d seg.arrival.iata_code
    marketing ← carrier d seg.carrier_code
    operated ← operating d (operating_code seg.operating)
    duration ← duration_of seg.duration
    some (record {
      id = seg.id;
      origin = origin;
      destination = destination;
      departing_at = seg.departure.at_time;
      arriving_at = seg.arrival.at_time;
      marketing_carrier = marketing;
      operating_carrier = operated;
      flight_number = seg.carrier_code ++ seg.number;
      aircraft =
          or_else (non_empty (aircraft_name d (non_empty (code_of seg.aircraft))))
            (code_of seg.aircraft);
      cabin_class = cabin (lookup seg.id cabins >>= λ c. c);
      duration = duration;
    })

  -- `Slice(...)` between the first and the last segment
  abbrev pub join : String → Option ℕ → List Segment → Option Slice
  join id duration [] = none
  join id duration (s ∷ rest) = make_slice id s.origin (last s rest).destination duration (s ∷ rest)

  unfoldable pub slice :
      Dict (Option String)
      → Option AmadeusDictionaries
      → String
      → ℕ
      → AmadeusItinerary
      → Option Slice
  slice cabins d offer_id idx itin = do
    segments ← traverse (segment cabins d) itin.segments
    duration ← duration_of itin.duration
    join (offer_id ++ "-itin-" ++ digits idx) duration segments

  -- The loop over `enumerate(offer.itineraries)`.
  unfoldable pub slices_from :
      Dict (Option String)
      → Option AmadeusDictionaries
      → String
      → ℕ
      → List AmadeusItinerary
      → Option (List Slice)
  slices_from cabins d offer_id idx [] = some []
  slices_from cabins d offer_id idx (itin ∷ rest) = do
    s ← slice cabins d offer_id idx itin
    ss ← slices_from cabins d offer_id (suc idx) rest
    some (s ∷ ss)

  unfoldable pub map_offer : Option AmadeusDictionaries → AmadeusFlightOffer → Option Offer
  map_offer d o = do
    mapped ← slices_from (cabin_by_segment o.traveler_pricings) d o.id 0 o.itineraries
    slices ← some_slice mapped
    code ← owner_code o
    owner ← carrier d code
    total ← make_money t (amount_of o.price) o.price.currency
    some (record {
      id = o.id;
      provider = amadeus;
      owner = owner;
      total = total;
      slices = slices;
      passenger_types = map (λ tp. traveler_type tp.traveler_type) o.traveler_pricings;
      cabin_class = cabin (first_cabin (cabin_by_segment o.traveler_pricings));
      expires_at = none;
    })

  unfoldable pub map_offers :
      Option AmadeusDictionaries → List AmadeusFlightOffer → Option (List Offer)
  map_offers d offers = traverse (map_offer d) offers
