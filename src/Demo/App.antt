-- ===== src/Demo/App.antt =====
-- demo/app.py: the endpoints of the demonstration. Bookings go through `create_booking` of
-- flydesk/bookings/services.py with the provider of demo/demo_provider.py in place of the real one.
-- FastAPI, Redis, MongoDB, the clock, `uuid` and pydantic's reading of a date are parameters; the
-- pages, the counters' page and the start of the process are not modelled.
pub mod Keyed
pub mod Sold
pub mod Priced
pub mod Twice
pub mod Shown
use Prim.Native.String.{◌++◌}
use fly_desk.Prelude.{ℕ, String, Option, none, some, List, [], ◌∷◌, map, if◌then◌else◌}
use fly_desk.Prelude.{◌++◌ as ◌+++◌}
use fly_desk.Prelude.Lists.{length}
use fly_desk.Prelude.Options.{◌>>=◌ as ◌>>=o◌, traverse}
use fly_desk.Errors.{
  Exception, is_exception, validation, value_error, other, Outcome, returned, raised,
}
use fly_desk.Errors.Actions.{Action, pure, raise, or_raise, ◌>>=◌}
use fly_desk.Domain.Enums.{adult, economy, passenger_of}
use fly_desk.Domain.Text.{CharTable}
use fly_desk.Domain.Time.{Date}
use fly_desk.Domain.Models.{BookingPassenger, Offer, Order}
use fly_desk.Domain.Criteria.{SearchCriteria, make_criteria}
use fly_desk.Mongo.{Collection}
use fly_desk.Bookings.Document.{OrderDoc, to_doc, to_order}
use fly_desk.Bookings.Repository.{id_of, index_field}
use fly_desk.Bookings.Service.{World, Request, truthy, create_booking}
use fly_desk.Bookings.Service.Ports as Ports
use fly_desk.Bookings.Service.Ports.{RedisReply}
use fly_desk.Search.Document.{OfferDoc, dump_offers}
use fly_desk.Search.FanOut.{Loop}
use fly_desk.Search.Cache.{Platform, Reading, read, read_error, hit_of}
use fly_desk.Demo.Cockpit.{
  BookAnswer, BookBody, BookingsAnswer, Bundle, Cockpit, PassengerDict, Reply, SearchAnswer,
  SearchBody, answered, crashed, default_search, demo_passenger, refused,
}
use fly_desk.Demo.Seed.{Shop, cache_key, create_order, seed}

-- `SearchCriteria` of a body, with the defaults of the model
unfoldable pub criteria_of : CharTable → SearchBody → Option SearchCriteria
criteria_of t body = make_criteria t (record {
  origin = body.origin;
  destination = body.destination;
  departure_date = body.departure_date;
  return_date = none;
  cabin_class = economy;
  passengers = record { kind = adult; age = none } ∷ [];
  max_connections = 1;
})

abbrev pub reply_of : {A Body S : Type 0} → (A → Body) → Outcome A × S → Reply Body × S
reply_of show (returned a, s) = (answered (show a), s)
reply_of show (raised e, s) = (crashed e, s)

-- A query of MongoDB for all orders, the newest first, and at most so many.
abbrev pub Newest : Collection id_of index_field → Type 0
Newest col = col.State → ℕ → List OrderDoc

module _ (t : CharTable) (l : Loop) (r : Platform l) (d : Shop l r) (a : Cockpit r) where
  -- `BookingPassenger(**p)`
  unfoldable pub passenger_from : PassengerDict → Option BookingPassenger
  passenger_from p = passenger_of p.kind >>=o λ kind. a.date_of p.born_on >>=o λ born_on.
      some (record {
        kind = kind;
        title = some p.title;
        gender = some p.gender;
        given_name = p.given_name;
        family_name = p.family_name;
        born_on = born_on;
        email = p.email;
        phone_number = p.phone_number;
        provider_passenger_id = none;
      })

  -- What `create_booking` calls in this process: `get_provider` gives the demonstration's provider,
  -- whatever the name.
  abbrev pub injected : Ports.Platform
  injected = record {
    Env = l.W;
    PassengerData = PassengerDict;
    set_nx = a.set_nx;
    create_order = λ name. create_order t l r d;
    uuid = a.event_id;
    now = d.now;
    passenger = passenger_from;
  }

  unfoldable pub search_answer : SearchCriteria → List Offer → SearchAnswer
  search_answer criteria offers = record {
    count = length offers;
    cache_key = cache_key t l r d criteria;
    ttl_seconds = d.offer_ttl;
    offers = dump_offers offers;
  }

  abbrev pub searched : SearchBody → Action l.W SearchAnswer
  searched body = do
    criteria ← or_raise (validation "SearchCriteria") (criteria_of t body)
    offers ← seed t l r d criteria
    pure (search_answer criteria offers)

  -- `/api/search`
  unfoldable pub search : SearchBody → l.W → Reply SearchAnswer × l.W
  unfolding search_answer criteria_of
  search body w = reply_of (λ answer. answer) (searched body w)

  abbrev pub or_redis_error : {A : Type 0} → Option A × l.W → Outcome A × l.W
  or_redis_error (none, w) = (raised (other "RedisError"), w)
  or_redis_error (some x, w) = (returned x, w)

  -- `r.get(key)`; an empty text counts as none.
  abbrev pub raw_of : Reading r.Text × l.W → Outcome (Option r.Text) × l.W
  raw_of (read_error, w) = (raised (other "RedisError"), w)
  raw_of (read text, w) = (returned (hit_of t l r (read text)), w)

  abbrev pub bundle_of : String → r.Text → Action l.W (Bundle a.Seconds)
  bundle_of key text = do
    offers ← or_raise (value_error "JSONDecodeError") (r.loads text)
    ttl_seconds ← λ w. or_redis_error (a.ttl key w)
    pure (record { key = key; ttl_seconds = ttl_seconds; count = length offers; offers = offers })

  -- One round of the loop: a key without a value is left out.
  abbrev pub listed : String → Option r.Text → Action l.W (List (Bundle a.Seconds))
  listed key none = pure []
  listed key (some text) = do bundle ← bundle_of key text; pure (bundle ∷ [])

  -- The loop of `list_cached`.
  unfoldable pub list_keys : List String → Action l.W (List (Bundle a.Seconds))
  list_keys [] = pure []
  list_keys (key ∷ keys) = do
    raw ← λ w. raw_of (r.get key w)
    first ← listed key raw
    rest ← list_keys keys
    pure (first +++ rest)

  -- `list_cached`
  unfoldable pub list_cached : Action l.W (List (Bundle a.Seconds))
  list_cached = do keys ← λ w. or_redis_error (a.scan "offers:*" w); list_keys keys

  -- `/api/cache`
  unfoldable pub cache : l.W → Reply (List (Bundle a.Seconds)) × l.W
  unfolding list_cached
  cache w = reply_of (λ bundles. bundles) (list_cached w)

  -- `body.idempotency_key or uuid.uuid4().hex`
  abbrev pub key_or_new : Option String → l.W → String × l.W
  key_or_new none w = a.hex w
  key_or_new (some key) w = (key, w)

  abbrev pub request_of : BookBody → String → Request injected
  request_of body key = record {
    offer_id = body.offer_id;
    passengers_data = demo_passenger ∷ [];
    idempotency_key = some key;
    provider_name = none;
  }

  -- `except Exception`
  abbrev pub surfaced : {Body : Type 0} → Exception → Reply Body
  surfaced e = if is_exception e then refused 400 (a.describe e) else crashed e

  abbrev pub booked : {S : Type 0} → String → Outcome Order × S → Reply BookAnswer × S
  booked key (returned order, s) =
      (answered (record { idempotency_key = key; order = to_doc order }), s)
  booked key (raised e, s) = (surfaced e, s)

  module _ (col : Collection id_of index_field) (newest : Newest col) where
    -- `/api/book`
    unfoldable pub book : BookBody → World t col injected → Reply BookAnswer × World t col injected
    book body w =
        let (key, env) = key_or_new (truthy body.idempotency_key) w.env in
        booked key (create_booking t col injected (request_of body key) (record w { env = env }))

    unfoldable pub bookings_answer : List Order → BookingsAnswer
    bookings_answer orders = record { count = length orders; bookings = map to_doc orders }

    -- `/api/bookings`
    unfoldable pub bookings : World t col injected → Reply BookingsAnswer × World t col injected
    bookings w =
        reply_of bookings_answer
          (or_raise (validation "Order") (traverse (to_order t) (newest w.orders 50)) w)
