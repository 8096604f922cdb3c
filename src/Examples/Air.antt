-- ===== src/Examples/Air.antt =====
-- The theorems on the calls to Duffel at a network that answers every call at once.
use fly_desk.Prelude.{
  ◌+◌, ◌≤◌, ◌<◌, ◌≡◌, refl, ap, String, Bool, true, false, Option, none, some, List, [], ◌∷◌, arith,
  if◌then◌else◌, eq_iff, eq_refl,
}
use fly_desk.Prelude.Lists.{length}
use fly_desk.Prelude.Options.{traverse}
use fly_desk.Errors.{Outcome, returned, raised}
use fly_desk.Errors.Actions.{OnlyRaises}
use fly_desk.Domain.Enums.{place_of, Provider, duffel, amadeus, economy}
use fly_desk.Domain.Text.{upper, lstrip, rstrip, strip, isalpha, isalnum, all}
use fly_desk.Domain.Codes.{airport_code, carrier_code, currency_iso4217}
use fly_desk.Domain.Criteria.{SearchCriteria}
use fly_desk.Domain.Money.{make_money}
use fly_desk.Domain.Time.{aware}
use fly_desk.Domain.Models.{BookingPassenger, Order, make_place, make_carrier, make_slice}
use fly_desk.Bookings.Service
use fly_desk.Bookings.Service.{Request, create_booking, truthy}
use fly_desk.Bookings.Service.Ports.{IsReliable, acquired, refused}
use fly_desk.Bookings.Service.Phases.{looking}
use fly_desk.Bookings.Schedule.{Thread, System, run}
use fly_desk.Bookings.Desk.{Backend, World, order_at, desk, orders_sent}
use fly_desk.Bookings.Desk as Desk
use fly_desk.Bookings.Desk.Orders.{booking_posts_once, crowd_posts_once}
use fly_desk.Providers.Base.{get_provider, amadeus_create_order}
use fly_desk.Providers.Duffel.{DuffelOffer, DuffelOrderData}
use fly_desk.Providers.Duffel.Mapper
use fly_desk.Providers.Duffel.Mapper.{map_order, place_type}
use fly_desk.Providers.Duffel.Payloads.{
  Body, OrderPayload, no_body, search_body, order_body, offer_call, order_call,
}
use fly_desk.Providers.Duffel.Client.{
  Http, answered, outcome_of, request, fetch_offer, read_order, post_order, create_order, search,
  async_search, get_offer,
}
use fly_desk.Providers.Duffel.Client.Failures.{IsExpected, IsOutage, client_failures}
use fly_desk.Providers.Duffel.Client.Posts.{Posted, create_order_posts, create_order_drops}
use fly_desk.Examples.Store.{orders, no_orders}
use fly_desk.Examples.Fixtures.{ascii, ascii-IsUnicode, letter, digit, member, order_of, traveller}
use fly_desk.Examples.Mapped.{line, made, iso}

-- An offer with one slot for a passenger.
abbrev single : DuffelOffer
single = record {
  id = "off_1";
  owner = line;
  total_amount = record { negative = false; digits = 100; places = 0 };
  total_currency = "PLN";
  base_amount = none;
  tax_amount = none;
  slices = made.slices;
  passengers = record { id = "pas_1"; kind = none } ∷ [];
  expires_at = none;
}

-- An answer holds the order if it is `true`, and the offer otherwise.
abbrev is_order : Body → Bool
is_order no_body = false
is_order (search_body _) = false
is_order (order_body _) = true

abbrev offer_in : Bool → Option DuffelOffer
offer_in true = none
offer_in false = some single

abbrev order_in : Bool → Option DuffelOrderData
order_in true = some made
order_in false = none

abbrev http : Http
http = record {
  Json = Bool;
  Env = List String;
  request = λ c e. (answered 200 (some (is_order c.body)), e);
  now = λ e. aware 0 0;
  offers_of = λ j. some [];
  offer_of = offer_in;
  order_of = order_in;
  digits = λ n. "500";
  iso_duration = iso;
}

abbrev still : World ascii http
still = record { env = []; sent = [] }

abbrev couple : List BookingPassenger
couple = traveller ∷ traveller ∷ []

abbrev trip : SearchCriteria
trip = record {
  origin = "WAW";
  destination = "LIS";
  departure_date = record { year = 2026; month = 8; day = 15 };
  return_date = none;
  cabin_class = economy;
  passengers = [];
  max_connections = 1;
}

client_failures_example :
    OnlyRaises IsExpected (search ascii http trip still)
    × OnlyRaises IsOutage (async_search ascii http trip still)
    × OnlyRaises IsExpected (get_offer ascii http "off_1" still)
    × OnlyRaises IsExpected (create_order ascii http "off_1" couple still)
client_failures_example = client_failures ascii http trip "off_1" couple still

create_order_posts_example :
    Posted ascii http "off_1" couple still (create_order ascii http "off_1" couple still)
create_order_posts_example = create_order_posts ascii http "off_1" couple still

abbrev order_or : Outcome Order → Order
order_or (returned o) = o
order_or (raised e) = order_of "none"

abbrev ordered : Outcome Order × World ascii http
ordered = create_order ascii http "off_1" couple still

abbrev asked : World ascii http
asked = record { env = []; sent = offer_call "off_1" ∷ [] }

fetched : fetch_offer ascii http "off_1" still ≡ (returned single, asked)
unfolding fetch_offer request outcome_of
fetched = refl

created : create_order ascii http "off_1" couple still ≡ (returned (order_or ordered.0), ordered.1)
unfolding create_order post_order read_order fetch_offer request outcome_of map_order Mapper.slice
    Mapper.segment Mapper.place Mapper.carrier place_type place_of make_place make_carrier
    make_slice make_money airport_code carrier_code currency_iso4217 upper lstrip rstrip strip
    isalpha isalnum all letter digit traverse
created = refl

create_order_drops_example :
    (payload : OrderPayload) × (ordered.1.sent ≡ offer_call "off_1" ∷ order_call payload ∷ [])
    × (length payload.passengers ≡ length single.passengers)
    × (length payload.passengers < length (order_or ordered.0).passengers)
    × ((order_or ordered.0).passengers ≡ couple)
create_order_drops_example =
    create_order_drops ascii http ascii-IsUnicode "off_1" couple still ordered.1 asked
      (order_or ordered.0) single fetched created (omega arith)

abbrev office : Backend http
office = record {
  PassengerData = BookingPassenger;
  set_nx = λ k ttl e. if member k e then (refused, e) else (acquired, k ∷ e);
  uuid = λ e. ("evt_1", e);
  passenger = λ d. some d;
  lower = λ s. s;
  repr = λ s. s;
  configured = "duffel";
}

abbrev ask : Request (desk ascii http office)
ask = record {
  offer_id = "off_1";
  passengers_data = couple;
  idempotency_key = some "k1";
  provider_name = none;
}

abbrev quiet : Service.World ascii orders (desk ascii http office)
quiet = record { orders = no_orders; env = still; bookings = 0 }

booking_posts_once_example :
    orders_sent (create_booking ascii orders (desk ascii http office) ask quiet).1.env.sent
    ≤ orders_sent [] + 1
booking_posts_once_example = booking_posts_once ascii http office orders ask quiet

order_at-env :
    (chosen : Outcome Provider) (id : String) (ps : List BookingPassenger) (w : World ascii http)
    → (order_at ascii http chosen id ps w).1.env ≡ w.env
unfolding create_order post_order read_order fetch_offer request outcome_of map_order Mapper.slice
    Mapper.segment Mapper.place Mapper.carrier place_type place_of make_place make_carrier
    make_slice make_money airport_code carrier_code currency_iso4217 upper lstrip rstrip strip
    isalpha isalnum all letter digit traverse amadeus_create_order
order_at-env (raised e) id ps w = refl
order_at-env (returned duffel) id ps w = refl
order_at-env (returned amadeus) id ps w = refl

office-IsReliable : IsReliable (desk ascii http office)
unfolding Desk.create_order
office-IsReliable = record {
  held = λ k w. member k w.env;
  never_down = λ k ttl w h. ground arith;
  granted = λ k ttl w h. ground (arith, eq_refl k);
  kept = λ k j ttl w h. ground (arith, eq_iff k j);
  others = λ k j ttl w h. ground (arith, eq_iff k j);
  refusal = λ k ttl w h. ground (arith, eq_refl k);
  provider_apart = λ name offer_id ps w j.
      ap (member j) (order_at-env (get_provider (λ s. s) (λ s. s) "duffel" name) offer_id ps w);
  uuid_apart = λ w j. refl;
}

abbrev waiting : Thread ascii orders (desk ascii http office)
waiting = record { request = ask; phase = looking }

abbrev crowd : System ascii orders (desk ascii http office)
crowd = record { world = quiet; threads = waiting ∷ waiting ∷ []; placed = [] }

crowd_posts_once_example :
    orders_sent
      (run ascii orders
        (desk ascii http office)
        (0 ∷ 1 ∷ 1 ∷ 0 ∷ 1 ∷ 0 ∷ 1 ∷ 0 ∷ [])
        crowd).world.env.sent
    ≤ orders_sent [] + 1
unfolding truthy
crowd_posts_once_example =
    crowd_posts_once ascii http office orders "k1" office-IsReliable
      (0 ∷ 1 ∷ 1 ∷ 0 ∷ 1 ∷ 0 ∷ 1 ∷ 0 ∷ []) crowd ((refl, (refl, tt)), refl) (refl, (refl, tt))
