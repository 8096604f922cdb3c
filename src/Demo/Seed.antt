-- ===== src/Demo/Seed.antt =====
-- demo/seed.py and demo/demo_provider.py: the offers that the demonstration writes to Redis, and the
-- bookings that it makes of them. Redis, the clock, `uuid`, the JSON library and the random numbers are
-- parameters. An error of Redis is not caught.
pub mod Store
pub mod Kept
pub mod Normal
pub mod Served
use Prim.Native.String.{◌++◌}
use fly_desk.Prelude.{
  ℕ, ◌+◌, String, Bool, true, false, Option, none, some, List, [], ◌∷◌, map, if◌then◌else◌,
}
use fly_desk.Prelude.Lists.{length}
use fly_desk.Prelude.Options.{traverse}
use fly_desk.Errors.{
  Exception, domain, init, offer_not_found, validation, value_error, not_implemented, other,
  is_exception, Outcome, returned, raised,
}
use fly_desk.Errors.Actions.{Action, pure, raise, or_raise, ◌>>=◌}
use fly_desk.Domain.Enums.{cabin_value, confirmed}
use fly_desk.Domain.Text.{CharTable}
use fly_desk.Domain.Time.{Datetime}
use fly_desk.Domain.Models.{BookingPassenger, OrderEvent, Offer, Order}
use fly_desk.Domain.Criteria.{SearchCriteria}
use fly_desk.Domain.Sorting.{sort_offers}
use fly_desk.Providers.Duffel.Mapper.{map_offer}
use fly_desk.Search.Document.{OfferDoc, dump_offer, dump_offers, load_offer}
use fly_desk.Search.FanOut.{Loop}
use fly_desk.Search.Cache.{Platform, Reading, read, read_error}
use fly_desk.Demo.Generate.{Random, generate}

-- What the demonstration calls besides.
pub record Shop (l : Loop) (r : Platform l) : Type 1 where
  pub random : Random
  pub iso_duration : String → Option ℕ
  -- `Offer.model_dump_json`, and `json.loads` of it
  pub dump_one : OfferDoc → r.Text
  pub load_one : r.Text → Option OfferDoc
  -- whether Redis has answered
  pub sadd : String → String → l.W → Bool × l.W
  pub expire : String → ℕ → l.W → Bool × l.W
  -- `DEMO_OFFER_TTL` and `LIVE_DUFFEL`
  pub offer_ttl : ℕ
  pub live_duffel : Bool
  -- `DuffelProvider().search`
  pub live_search : SearchCriteria → Action l.W (List Offer)
  -- `datetime.now(UTC)`, and the time `offer_ttl` seconds later
  pub now : l.W → Datetime
  pub fresh_expiry : l.W → Datetime
  -- `metrics.SEARCHES.labels(cached="false").inc()`
  pub count_search : l.W → l.W
  -- `uuid.uuid4().hex[:12]` and `_pnr()`
  pub order_suffix : l.W → String × l.W
  pub pnr : l.W → String × l.W

-- `OFFER_KEY`
abbrev pub offer_key : String → String
offer_key offer_id = "demo:offer:" ++ offer_id

abbrev pub answering : {S : Type 0} → Bool × S → Outcome (Unit {0}) × S
answering (true, s) = (returned tt, s)
answering (false, s) = (raised (other "RedisError"), s)

module _ (t : CharTable) (l : Loop) (r : Platform l) (d : Shop l r) where
  -- `cache_key` of the demonstration
  unfoldable pub cache_key : SearchCriteria → String
  cache_key criteria = "offers:" ++ r.sha1 (r.model_dump_json criteria)

  -- `_synthetic_offers`
  unfoldable pub synthetic_offers : SearchCriteria → Option (List Offer)
  synthetic_offers c = traverse (map_offer t d.iso_duration) (
      generate d.random c.origin c.destination c.departure_date (cabin_value c.cabin_class)
        (length c.passengers) none)

  -- `if not offers`
  abbrev pub or_synthetic : SearchCriteria → List Offer → Action l.W (List Offer)
  or_synthetic c [] = or_raise (validation "Offer") (synthetic_offers c)
  or_synthetic c (o ∷ rest) = pure (o ∷ rest)

  -- `except Exception`
  abbrev pub or_fallback : Outcome (List Offer) → Action l.W (List Offer)
  or_fallback (returned offers) = pure offers
  or_fallback (raised e) = if is_exception e then pure [] else raise e

  unfoldable pub live_offers : SearchCriteria → Action l.W (List Offer)
  live_offers c w =
      if d.live_duffel
      then (let (res, w') = d.live_search c w in or_fallback res w')
      else (returned [], w)

  abbrev pub expiring : Datetime → Offer → Offer
  expiring at_time o = record o { expires_at = some at_time }

  -- `_load_offers`
  unfoldable pub load_offers : SearchCriteria → Action l.W (List Offer)
  load_offers c = do
    live ← live_offers c
    offers ← or_synthetic c live
    λ w. (returned (sort_offers (map (expiring (d.fresh_expiry w)) offers)), w)

  -- One `r.set`
  abbrev pub put : String → r.Text → Action l.W (Unit {0})
  put key text w = answering (r.set key text d.offer_ttl w)

  -- The loop that writes each offer under its own key.
  unfoldable pub put_each : List Offer → Action l.W (Unit {0})
  put_each [] = pure tt
  put_each (o ∷ rest) = do _ ← put (offer_key o.id) (d.dump_one (dump_offer o)); put_each rest

  -- The bundle, and the note of it.
  unfoldable pub put_bundle : String → List Offer → Action l.W (Unit {0})
  put_bundle key offers = do
    _ ← put key (r.dumps (dump_offers offers))
    _ ← λ w. answering (d.sadd "demo:bundles" key w)
    λ w. answering (d.expire "demo:bundles" d.offer_ttl w)

  abbrev pub counted : List Offer → Action l.W (List Offer)
  counted offers w = (returned offers, d.count_search w)

  -- `seed`
  unfoldable pub seed : SearchCriteria → Action l.W (List Offer)
  unfolding cache_key
  seed c = do
    offers ← load_offers c
    _ ← put_bundle (cache_key c) offers
    _ ← put_each offers
    counted offers

  abbrev pub offer_read : String → Reading r.Text → Action l.W Offer
  offer_read offer_id read_error = raise (other "RedisError")
  offer_read offer_id (read none) = raise (
      domain
        (init offer_not_found (some ("offer " ++ offer_id ++ " not in demo cache (expired?)"))))
  offer_read offer_id (read (some text)) = do
    doc ← or_raise (value_error "JSONDecodeError") (d.load_one text)
    or_raise (validation "Offer") (load_offer t doc)

  -- `DemoProvider.get_offer`
  unfoldable pub get_offer : String → Action l.W Offer
  get_offer offer_id w =
      let (reading, w') = r.get (offer_key offer_id) w in offer_read offer_id reading w'

  -- The order of an offer, with its id, its PNR and its time.
  unfoldable pub order_from :
      String → String → String → Datetime → Datetime → Offer → List BookingPassenger → Order
  order_from offer_id order_id code event_at order_at offer passengers = record {
    id = order_id;
    provider = offer.provider;
    provider_order_id = order_id;
    booking_reference = some code;
    status = confirmed;
    total = offer.total;
    slices = offer.slices;
    passengers = passengers;
    idempotency_key = none;
    created_at = order_at;
    events =
        record {
          kind = "order.created";
          at_time = event_at;
          detail =
              some ("demo order " ++ order_id ++ " (PNR " ++ code ++ ") from offer " ++ offer_id);
        }
        ∷ [];
    outbox = [];
  }

  -- `DemoProvider.create_order`
  unfoldable pub create_order : String → List BookingPassenger → Action l.W Order
  create_order offer_id passengers = do
    offer ← get_offer offer_id
    λ w.
        let (suffix, w1) = d.order_suffix w in
        let (code, w2) = d.pnr w1 in
        (
          returned (
              order_from offer_id ("ord_demo_" ++ suffix) code (d.now w2) (d.now w2) offer
                passengers),
          w2,
        )
