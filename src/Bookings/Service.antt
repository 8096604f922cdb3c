-- ===== src/Bookings/Service.antt =====
-- flydesk/bookings/services.py: the booking use-case. What it calls outside the program (Redis, the
-- flight provider, the clock, `uuid`) is a parameter.
pub mod Ports
pub mod Effects
pub mod Kept
pub mod Replay
pub mod Refusal
pub mod Blocked
pub mod Calls
pub mod Phases
pub mod Fresh
use fly_desk.Prelude.{
  ℕ, ◌+◌, String, Bool, true, false, Option, none, some, List, [], ◌∷◌, str_eq, if◌then◌else◌,
}
use fly_desk.Prelude.Options.{traverse}
use fly_desk.Errors.{
  Exception, domain, validation, duplicate_key, init, booking_in_progress, booking_not_found,
  Outcome, returned, raised,
}
use fly_desk.Domain.Enums.{provider_value}
use fly_desk.Domain.Text.{CharTable}
use fly_desk.Domain.Money.{dump_money}
use fly_desk.Domain.Models.{BookingPassenger, Payload, OutboxEvent, Order}
use Prim.Native.String.{◌++◌}
use fly_desk.Domain.Time.{Datetime}
use fly_desk.Mongo.{Collection}
use fly_desk.Bookings.Repository.{id_of, index_field}
use fly_desk.Bookings.Repository
use Ports.{Platform, RedisReply, acquired, refused, redis_error}

-- `RESERVATION_TTL`, in seconds
abbrev pub reservation_ttl : ℕ
reservation_ttl = 120

-- `_booking_confirmed_event`, with its id and its time.
unfoldable pub booking_confirmed_event : String → Datetime → Order → OutboxEvent
booking_confirmed_event event_id at_time order = record {
  id = event_id;
  kind = "BookingConfirmed";
  payload = record {
    order_id = some order.id;
    booking_reference = order.booking_reference;
    provider = provider_value order.provider;
    total = dump_money order.total;
  };
  created_at = at_time;
  published_at = none;
}

-- `if idempotency_key`: an empty key counts as none.
unfoldable pub truthy : Option String → Option String
truthy none = none
truthy (some k) = if str_eq k "" then none else some k

-- The copy of the order with its event, and its key if there is one.
unfoldable pub stage : Option String → OutboxEvent → Order → Order
stage none event order = record order { outbox = event ∷ [] }
stage (some key) event order = record order { outbox = event ∷ []; idempotency_key = some key }

module _ (t : CharTable) (col : Collection id_of index_field) (p : Platform) where
  pub record World : Type 0 where
    pub orders : col.State
    pub env : p.Env
    -- the counter `flydesk_bookings_total`
    pub bookings : ℕ

  abbrev pub Action : Type 0 → Type 0
  Action A = World → Outcome A × World

module _ {t : CharTable} {col : Collection id_of index_field} {p : Platform} {A : Type 0} where
  abbrev pub pure : A → Action t col p A
  pure a w = (returned a, w)

  abbrev pub raise : Exception → Action t col p A
  raise e w = (raised e, w)

module _ {t : CharTable} {col : Collection id_of index_field} {p : Platform} {A B : Type 0} where
  abbrev pub continue :
      (A → Action t col p B) → Outcome A → World t col p → Outcome B × World t col p
  continue f (returned a) w = f a w
  continue f (raised e) w = (raised e, w)

  infixl 5 ◌>>=◌
  abbrev pub ◌>>=◌ : Action t col p A → (A → Action t col p B) → Action t col p B
  ◌>>=◌ m f w = let (r, w') = m w in continue f r w'

-- What a client asks of `create_booking`.
pub record Request (p : Platform) : Type 0 where
  pub offer_id : String
  pub passengers_data : List p.PassengerData
  pub idempotency_key : Option String
  pub provider_name : Option String

module _ (t : CharTable) (col : Collection id_of index_field) (p : Platform) where
  unfoldable pub find_key : String → Action t col p (Option Order)
  find_key key w = (Repository.find_by_idempotency_key t col w.orders key, w)

  abbrev pub granted_reply : RedisReply → Bool
  granted_reply acquired = true
  granted_reply refused = false
  granted_reply redis_error = true

  -- `_reserve`: a Redis that is down lets the booking through.
  unfoldable pub reserve : String → Action t col p Bool
  reserve key w =
      let (r, env) = p.set_nx ("idem:" ++ key) reservation_ttl w.env in
      (returned (granted_reply r), record w { env = env })

  abbrev pub checked : Option (List BookingPassenger) → Action t col p (List BookingPassenger)
  checked none = raise (validation "BookingPassenger")
  checked (some ps) = pure ps

  unfoldable pub call_provider :
      Option String → String → List BookingPassenger → Action t col p Order
  call_provider name offer_id ps w =
      let (r, env) = p.create_order name offer_id ps w.env in (r, record w { env = env })

  -- The event is made and staged in the order.
  unfoldable pub stage_event : Option String → Order → Action t col p Order
  stage_event key order w =
      let (event_id, env) = p.uuid w.env in
      (
        returned (stage key (booking_confirmed_event event_id (p.now env) order) order),
        record w { env = env },
      )

  -- The order that the provider has made, ready to be saved.
  unfoldable pub place_order : Request p → Option String → Action t col p Order
  unfolding call_provider stage_event
  place_order r key = do
    passengers ← checked (traverse p.passenger r.passengers_data)
    order ← call_provider r.provider_name r.offer_id passengers
    stage_event key order

  abbrev pub winner_or_raise : Option Order → Action t col p Order
  winner_or_raise none = raise duplicate_key
  winner_or_raise (some winner) = pure winner

  -- `except DuplicateKeyError`
  unfoldable pub resolve : Option String → Action t col p Order
  unfolding find_key
  resolve none = raise duplicate_key
  resolve (some key) = do winner ← find_key key; winner_or_raise winner

  abbrev pub saved : Option String → Order → Option col.State → Action t col p Order
  saved key order none w = resolve key w
  saved key order (some orders) w =
      (returned order, record w { orders = orders; bookings = w.bookings + 1 })

  unfoldable pub persist : Option String → Order → Action t col p Order
  persist key order w = saved key order (Repository.save t col w.orders order) w

  unfoldable pub book : Request p → Option String → Action t col p Order
  book r key = do order ← place_order r key; persist key order

  abbrev pub existing_or_in_progress : Option Order → Action t col p Order
  existing_or_in_progress none = raise (domain (init booking_in_progress none))
  existing_or_in_progress (some existing) = pure existing

  abbrev pub book_or_recheck : Request p → String → Bool → Action t col p Order
  book_or_recheck r key true = book r (some key)
  book_or_recheck r key false = do existing ← find_key key; existing_or_in_progress existing

  abbrev pub replay_or_reserve : Request p → String → Option Order → Action t col p Order
  replay_or_reserve r key (some existing) = pure existing
  replay_or_reserve r key none = do free ← reserve key; book_or_recheck r key free

  abbrev pub create_with : Request p → Option String → Action t col p Order
  create_with r none = book r none
  create_with r (some key) = do existing ← find_key key; replay_or_reserve r key existing

  unfoldable pub create_booking : Request p → Action t col p Order
  create_booking r = create_with r (truthy r.idempotency_key)

  abbrev pub found_or_raise : String → Option Order → Outcome Order
  found_or_raise order_id none =
      raised (domain (init booking_not_found (some ("no booking with id " ++ order_id))))
  found_or_raise order_id (some order) = returned order

  abbrev pub then_found : String → Outcome (Option Order) → Outcome Order
  then_found order_id (raised e) = raised e
  then_found order_id (returned o) = found_or_raise order_id o

  unfoldable pub get_booking : String → col.State → Outcome Order
  get_booking order_id s = then_found order_id (Repository.get t col s order_id)
