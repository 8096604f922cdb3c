-- ===== src/Demo/Generate.antt =====
-- demo/generate.py: the generated offers. The generator of random numbers, its floating-point numbers
-- included, and the texts of numbers and dates are parameters. The payload is given as what the
-- schemas read of it.
pub mod Tables
pub mod Times
use Prim.Native.String.{◌++◌}
use fly_desk.Prelude.{
  ℕ, zero, suc, ◌+◌, ◌-◌, ◌*◌, ◌/◌, ◌%◌, String, Bool, true, false, ◌||◌, Option, none, some, List,
  [], ◌∷◌, leb, str_eq, if◌then◌else◌,
}
use fly_desk.Prelude.Dicts.{lookup}
use fly_desk.Demo.Generate.Tables.{carriers, aircraft, hubs, currency_by_airport}
use fly_desk.Prelude.Lists.{length}
use fly_desk.Prelude.Options.{or_default}
use fly_desk.Domain.Time.{Date, Datetime, naive}
use fly_desk.Providers.Duffel.{
  DuffelPlace, DuffelCarrier, DuffelAircraft, DuffelSegment, DuffelSlice, DuffelOfferPassenger,
  DuffelOffer,
}

-- `random.Random` and the conversions to text.
pub record Random : Type 1 where
  pub R : Type 0
  -- `random.Random(seed)`
  pub seeded : String → R
  -- the index of the element that `choice` takes of a list of this length
  pub choice : ℕ → R → ℕ × R
  pub randint : ℕ → ℕ → R → ℕ × R
  -- `random() < 0.55`
  pub direct : R → Bool × R
  -- `int(n * uniform(0.4, 0.6))`
  pub portion : ℕ → R → ℕ × R
  -- the rounded price in hundredths, of the minutes, for a direct flight or not, for passengers
  pub price : ℕ → Bool → ℕ → R → ℕ × R
  pub str : ℕ → String
  pub isoformat : Date → String
  -- `datetime(year, month, day)`, in microseconds
  pub midnight : Date → ℕ

-- The item at an index; the default stands for the `IndexError`, which `choice` does not run into on a
-- list that has items.
pub nth : {A : Type 0} → A → List A → ℕ → A
nth d [] i = d
nth d (x ∷ xs) zero = x
nth d (x ∷ xs) (suc i) = nth d xs i

-- `[h for h in HUBS if h not in (origin, destination)]`
pub hubs_between : String → String → List String → List String
hubs_between origin destination [] = []
hubs_between origin destination (h ∷ rest) =
    let others = hubs_between origin destination rest in
    if str_eq h origin || str_eq h destination then others else h ∷ others

abbrev pub minute : ℕ
minute = 60000000

-- Code that draws random numbers.
abbrev pub Rand : Type 0 → Type 0 → Type 0
Rand R A = R → A × R

module _ {R : Type 0} where
  infixl 5 ◌>>=◌
  abbrev pub ◌>>=◌ : {A B : Type 0} → Rand R A → (A → Rand R B) → Rand R B
  ◌>>=◌ m f r = let (a, r') = m r in f a r'

  abbrev pub pure : {A : Type 0} → A → Rand R A
  pure a r = (a, r)

module _ (g : Random) where
  -- `rng.choice`
  unfoldable pub choose : {A : Type 0} → A → List A → Rand g.R A
  choose d l = do i ← g.choice (length l); pure (nth d l i)

  -- `_iso_duration`
  unfoldable pub iso_duration : ℕ → String
  iso_duration minutes = "PT" ++ g.str (minutes / 60) ++ "H" ++ g.str (minutes % 60) ++ "M"

  abbrev pub airport_at : String → DuffelPlace
  airport_at code = record {
    iata_code = some code;
    name = none;
    city_name = none;
    kind = some "airport";
  }

  abbrev pub carrier_of : String × String → DuffelCarrier
  carrier_of (code, name) = record { iata_code = code; name = some name }

  abbrev pub craft_of : Option String → Option DuffelAircraft
  craft_of none = none
  craft_of (some name) = some (record { iata_code = none; name = some name })

  -- `_segment`, with its departure in microseconds
  unfoldable pub segment_from :
      String → String → String → ℕ → ℕ → String × String → String → Rand g.R DuffelSegment
  segment_from seg_id origin destination dep minutes carrier cabin = do
    craft ← choose none aircraft
    number ← g.randint 100 1999
    pure (record {
      id = seg_id;
      origin = airport_at origin;
      destination = airport_at destination;
      departing_at = naive dep;
      arriving_at = naive (dep + minutes * minute);
      marketing_carrier = carrier_of carrier;
      operating_carrier = some (carrier_of carrier);
      marketing_carrier_flight_number = g.str number;
      aircraft = craft_of craft;
      duration = some (iso_duration minutes);
      passengers =
          record {
            passenger_id = some "pas_demo";
            cabin_class = some cabin;
            cabin_class_marketing_name = none;
            fare_basis_code = none;
          }
          ∷ [];
    })

  abbrev pub at_least : ℕ → ℕ → ℕ
  at_least low n = if leb low n then n else low

  -- The segments of a direct flight and of one with a connection.
  unfoldable pub connecting :
      String → String → String → ℕ → ℕ → String × String → String → Rand g.R (List DuffelSegment)
  connecting idx origin destination dep total carrier cabin = do
    hub ← choose "" (hubs_between origin destination hubs)
    leg1 ← g.portion total
    layover ← g.randint 45 150
    seg1 ← segment_from ("seg_" ++ idx ++ "_0") origin hub dep leg1 carrier cabin
    seg2 ←
        segment_from ("seg_" ++ idx ++ "_1") hub destination (dep + (leg1 + layover) * minute)
          (at_least 60 (total - leg1)) carrier cabin
    pure (seg1 ∷ seg2 ∷ [])

  abbrev pub segments_of :
      Bool
      → String
      → String
      → String
      → ℕ
      → ℕ
      → String × String
      → String
      → Rand g.R (List DuffelSegment)
  segments_of true idx origin destination dep total carrier cabin = do
    seg ← segment_from ("seg_" ++ idx ++ "_0") origin destination dep total carrier cabin
    pure (seg ∷ [])
  segments_of false idx origin destination dep total carrier cabin =
      connecting idx origin destination dep total carrier cabin

  -- `range(n_passengers)` from `i` on
  pub passengers_from : ℕ → ℕ → List DuffelOfferPassenger
  passengers_from i zero = []
  passengers_from i (suc n) =
      record { id = "pas_" ++ g.str i; kind = some "adult" } ∷ passengers_from (i + 1) n

  -- `_offer`
  unfoldable pub offer_from : ℕ → String → String → Date → String → ℕ → Rand g.R DuffelOffer
  offer_from idx origin destination dep_date cabin n_passengers = do
    carrier ← choose ("", "") carriers
    is_direct ← g.direct
    total_minutes ← g.randint 90 620
    dep_hour ← g.randint 6 21
    dep_minute ← choose 0 (0 ∷ 15 ∷ 30 ∷ 45 ∷ [])
    let dep = g.midnight dep_date + (dep_hour * 60 + dep_minute) * minute
    segments ← segments_of is_direct (g.str idx) origin destination dep total_minutes carrier cabin
    total ← g.price total_minutes is_direct n_passengers
    number ← g.randint 1000 9999
    pure (record {
      id = "off_demo_" ++ origin ++ destination ++ "_" ++ g.str idx ++ "_" ++ g.str number;
      owner = carrier_of carrier;
      total_amount = record { negative = false; digits = total; places = 2 };
      total_currency = or_default (lookup origin currency_by_airport) "USD";
      base_amount = none;
      tax_amount = none;
      slices =
          record {
            id = "sli_" ++ g.str idx;
            origin = airport_at origin;
            destination = airport_at destination;
            duration = some (iso_duration total_minutes);
            segments = segments;
          }
          ∷ [];
      passengers = passengers_from 0 n_passengers;
      expires_at = none;
    })

  -- The offers `i`, `i + 1`, … , `n` in number.
  unfoldable pub offers_from :
      ℕ → ℕ → String → String → Date → String → ℕ → Rand g.R (List DuffelOffer)
  offers_from i zero origin destination dep_date cabin n_passengers = pure []
  offers_from i (suc n) origin destination dep_date cabin n_passengers = do
    offer ← offer_from i origin destination dep_date cabin n_passengers
    rest ← offers_from (i + 1) n origin destination dep_date cabin n_passengers
    pure (offer ∷ rest)

  abbrev pub offer_count : Option ℕ → Rand g.R ℕ
  offer_count none = g.randint 9 14
  offer_count (some n) = pure n

  -- `build_offer_request_payload`, with the offers of the payload
  unfoldable pub generate : String → String → Date → String → ℕ → Option ℕ → List DuffelOffer
  generate origin destination departure_date cabin_class n_passengers count =
      let seed =
        origin ++ "-" ++ destination ++ "-" ++ g.isoformat departure_date ++ "-" ++ cabin_class in
      let (n, r) = offer_count count (g.seeded seed) in
      (offers_from 0 n origin destination departure_date cabin_class n_passengers r).0
