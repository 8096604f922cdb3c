-- ===== src/Demo/Cockpit.antt =====
-- demo/app.py: the bodies of its requests and answers, and what its endpoints call outside the program.
use fly_desk.Prelude.{ℕ, String, Option, List}
use fly_desk.Errors.{Exception}
use fly_desk.Domain.Time.{Date}
use fly_desk.Bookings.Document.{OrderDoc}
use fly_desk.Bookings.Service.Ports.{RedisReply}
use fly_desk.Search.Document.{OfferDoc}
use fly_desk.Search.FanOut.{Loop}
use fly_desk.Search.Cache.{Platform}

-- `DEMO_PASSENGER`, as a dict of texts
pub record PassengerDict : Type 0 where
  pub kind : String
  pub title : String
  pub gender : String
  pub given_name : String
  pub family_name : String
  pub born_on : String
  pub email : String
  pub phone_number : String

abbrev pub demo_passenger : PassengerDict
demo_passenger = record {
  kind = "adult";
  title = "mr";
  gender = "m";
  given_name = "Tony";
  family_name = "Stark";
  born_on = "1980-07-24";
  email = "tony@stark.com";
  phone_number = "+442080160508";
}

-- What the endpoints call besides. `Seconds` is what Redis counts a time to live in.
pub record Cockpit {l : Loop} (r : Platform l) : Type 1 where
  pub Seconds : Type 0
  -- `SET key value NX EX ttl`
  pub set_nx : String → ℕ → l.W → RedisReply × l.W
  -- `list(r.scan_iter(pattern))`, and `r.ttl(key)`; `none` is an error of Redis
  pub scan : String → l.W → Option (List String) × l.W
  pub ttl : String → l.W → Option Seconds × l.W
  -- the id of an event, and `uuid.uuid4().hex`
  pub event_id : l.W → String × l.W
  pub hex : l.W → String × l.W
  -- pydantic's reading of a date
  pub date_of : String → Option Date
  -- `f"{type(exc).__name__}: {exc}"`
  pub describe : Exception → String

-- How FastAPI answers: with what the endpoint returns, with an `HTTPException`, or with an error that
-- was not caught.
pub data Reply (Body : Type 0) : Type 0 where
  answered : Body → Reply Body
  refused : ℕ → String → Reply Body
  crashed : Exception → Reply Body

pub record SearchBody : Type 0 where
  pub origin : String
  pub destination : String
  pub departure_date : Date

-- The body of a search that leaves all fields out.
abbrev pub default_search : SearchBody
default_search = record {
  origin = "LHR";
  destination = "JFK";
  departure_date = record { year = 2026; month = 8; day = 15 };
}

pub record BookBody : Type 0 where
  pub offer_id : String
  pub idempotency_key : Option String

pub record SearchAnswer : Type 0 where
  pub count : ℕ
  pub cache_key : String
  pub ttl_seconds : ℕ
  pub offers : List OfferDoc

pub record BookAnswer : Type 0 where
  pub idempotency_key : String
  pub order : OrderDoc

pub record BookingsAnswer : Type 0 where
  pub count : ℕ
  pub bookings : List OrderDoc

-- What the cache tab shows of one key.
pub record Bundle (Seconds : Type 0) : Type 0 where
  pub key : String
  pub ttl_seconds : Seconds
  pub count : ℕ
  pub offers : List OfferDoc
