-- ===== src/Examples/Fixtures.antt =====
-- Sample values: a character table, an order, a platform that keeps its reservations in a list.
use Prim.Native.Char.{Char, code}
use Prim.Native.String.append
use Prim.Native.String.{◌∷◌ as ◌∷s◌, ◌++◌ as ◌++s◌}
use fly_desk.Prelude.{
  ◌≡◌, refl, ap, ◌∙◌, String, Bool, true, false, ◌&&◌, ◌||◌, Option, none, some, List, [], ◌∷◌, leb,
  ◌==◌, str_eq, eq_iff, eq_refl, if◌then◌else◌, arith,
}
use fly_desk.Errors.{domain, init, offer_expired, Outcome, returned, raised}
use fly_desk.Domain.Enums.{airport, confirmed, adult, economy, duffel}
use fly_desk.Domain.Text.{CharTable, IsUnicode, upper, lstrip, rstrip, strip, isalpha, isalnum, all}
use fly_desk.Domain.Codes.{airport_code, carrier_code, currency_iso4217}
use fly_desk.Domain.Time.{aware}
use fly_desk.Domain.Models.{Place, Carrier, Segment, Slice, BookingPassenger, Order}
use fly_desk.Bookings.Document.RoundTrip.{IsNormal}
use fly_desk.Bookings.Service.Ports.{Platform, IsReliable, acquired, refused}

-- ASCII, where `a` is the only letter with an upper case of its own.
unfoldable pub letter : Char → Bool
letter c = (leb 65 (code c) && leb (code c) 90) || (leb 97 (code c) && leb (code c) 122)

unfoldable pub digit : Char → Bool
digit c = leb 48 (code c) && leb (code c) 57

abbrev pub cased : Bool → Char → String
cased true c = "A"
cased false c = c ∷s ""

abbrev pub ascii : CharTable
ascii = record {
  is_space = λ c. code c == 32;
  is_alpha = letter;
  is_alnum = λ c. letter c || digit c;
  upper = λ c. cased (code c == 97) c;
}

ascii-stable : (c : Char) (b : Bool) → (code c == 97) ≡ b → upper ascii (cased b c) ≡ cased b c
unfolding upper
ascii-stable c true h = refl
ascii-stable c false h = ap (λ b. cased b c ++s "") h ∙ simp (append.cons, append.nil)

pub ascii-IsUnicode : IsUnicode ascii
unfolding letter digit
ascii-IsUnicode = record {
  alpha_visible = λ c h. ground arith;
  alnum_visible = λ c h. ground arith;
  upper_stable = λ c. ascii-stable c (code c == 97) refl;
}

abbrev pub warsaw : Place
warsaw = record { iata_code = "WAW"; name = none; city_name = some "Warsaw"; kind = airport }

abbrev pub lisbon : Place
lisbon = record { iata_code = "LIS"; name = none; city_name = none; kind = airport }

abbrev pub lot : Carrier
lot = record { iata_code = "LO"; name = some "LOT" }

abbrev pub flight : Segment
flight = record {
  id = "seg_1";
  origin = warsaw;
  destination = lisbon;
  departing_at = aware 7200 0;
  arriving_at = aware 21600 14400;
  marketing_carrier = lot;
  operating_carrier = none;
  flight_number = "LO123";
  aircraft = none;
  cabin_class = some economy;
  duration = some 14400;
}

abbrev pub journey : Slice
journey = record {
  id = "sli_1";
  origin = warsaw;
  destination = lisbon;
  duration = none;
  segments = flight ∷ [];
}

abbrev pub traveller : BookingPassenger
traveller = record {
  kind = adult;
  title = none;
  gender = none;
  given_name = "Ada";
  family_name = "Nowak";
  born_on = record { year = 1990; month = 1; day = 2 };
  email = "ada@example.org";
  phone_number = "+48000";
  provider_passenger_id = none;
}

abbrev pub order_of : String → Order
order_of id = record {
  id = id;
  provider = duffel;
  provider_order_id = "ord_0";
  booking_reference = some "ABC123";
  status = confirmed;
  total = record {
    amount = record { negative = false; digits = 12345; places = 2 };
    currency = "PLN";
  };
  slices = journey ∷ [];
  passengers = traveller ∷ [];
  idempotency_key = none;
  created_at = aware 0 0;
  events = [];
  outbox = [];
}

pub order_of-IsNormal : (id : String) → IsNormal ascii (order_of id)
unfolding airport_code carrier_code currency_iso4217 strip lstrip rstrip upper isalpha isalnum all
    letter digit
order_of-IsNormal id = record {
  currency = refl;
  slices = (
    record {
      origin = refl;
      destination = refl;
      segments =
          (record { origin = refl; destination = refl; marketing = refl; operating = tt }, tt);
      some_segment = λ h. cc;
    },
    tt,
  );
}

abbrev pub member : String → List String → Bool
member k [] = false
member k (j ∷ l) = str_eq j k || member k l

-- An offer named `gone` has expired; a booking of any other one gets its id.
abbrev pub sold : Bool → String → Outcome Order
sold true offer_id = raised (domain (init offer_expired none))
sold false offer_id = returned (order_of offer_id)

abbrev pub desk : Platform
desk = record {
  Env = List String;
  PassengerData = Option BookingPassenger;
  set_nx = λ k ttl e. if member k e then (refused, e) else (acquired, k ∷ e);
  create_order = λ name offer_id ps e. (sold (str_eq offer_id "gone") offer_id, e);
  uuid = λ e. ("evt_1", e);
  now = λ e. aware 0 0;
  passenger = λ d. d;
}

pub desk-IsReliable : IsReliable desk
desk-IsReliable = record {
  held = member;
  never_down = λ k ttl e h. ground arith;
  granted = λ k ttl e h. ground (arith, eq_refl k);
  kept = λ k j ttl e h. ground (arith, eq_iff k j);
  others = λ k j ttl e h. ground (arith, eq_iff k j);
  refusal = λ k ttl e h. ground (arith, eq_refl k);
  provider_apart = λ name offer_id ps e j. refl;
  uuid_apart = λ e j. refl;
}
