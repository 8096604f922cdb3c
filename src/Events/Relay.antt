-- ===== src/Events/Relay.antt =====
-- flydesk/events/relay.py: the outbox relay.
pub mod Laws
pub mod Settled
pub mod Sent
pub mod Taken
pub mod Waiting
pub mod Loading
pub mod Drained
use fly_desk.Prelude.{ℕ, zero, suc, ◌+◌, String, Option, none, some, List, [], ◌∷◌}
use fly_desk.Prelude.Options.{or_default}
use fly_desk.Errors.{Exception, duplicate_key, Outcome, returned, raised}
use fly_desk.Domain.Text.{CharTable}
use fly_desk.Domain.Time.{Datetime}
use fly_desk.Domain.Models.{OutboxEvent, Order}
use fly_desk.Mongo.{Collection}
use fly_desk.Bookings.Repository
use fly_desk.Bookings.Repository.{id_of, index_field}
use fly_desk.Events.{topic_for, outbox_value, Message, Ended, Broker}

-- An event without an order id in its payload is sent under the id of its order.
unfoldable pub message_of : Order → OutboxEvent → Message
message_of order event = record {
  topic = topic_for event.kind;
  key = or_default event.payload.order_id order.id;
  value = outbox_value event.id event.kind event.payload;
}

unfoldable pub stamp : Datetime → OutboxEvent → OutboxEvent
stamp now event = record event { published_at = some now }

module _ (col : Collection id_of index_field) (b : Broker) where
  pub record World : Type 0 where
    pub orders : col.State
    pub env : b.Env
    -- the counter `flydesk_outbox_published_total`
    pub sent : ℕ

  -- One `publish`, and the count of it.
  unfoldable pub send : Message → World → Ended × World
  send m w =
      let (r, env) = b.publish m w.env in
      elim r [
        | returned _ ↦ (returned tt, record w { env = env; sent = w.sent + 1 })
        | raised e ↦ (raised e, record w { env = env })
      ]

  abbrev pub Relayed : Type 0
  Relayed = Outcome (List OutboxEvent × ℕ) × World

  abbrev pub keep : OutboxEvent → ℕ → Relayed → Relayed
  keep event n (returned (events, published), w) = (returned (event ∷ events, n + published), w)
  keep event n (raised e, w) = (raised e, w)

  -- The loop over the outbox of an order: its events, and how many of them were published.
  unfoldable pub relay_events : Order → List OutboxEvent → World → Relayed
  unfolding send
  relay_events order [] w = (returned ([], 0), w)
  relay_events order (event ∷ rest) w = elim event.published_at [
    | some _ ↦ keep event 0 (relay_events order rest w)
    | none ↦
        let (r, w') = send (message_of order event) w in
        elim r [
          | returned _ ↦ keep (stamp (b.now w'.env) event) 1 (relay_events order rest w')
          | raised e ↦ (raised e, w')
        ]
  ]

  abbrev pub written : ℕ → Option col.State → World → Outcome ℕ × World
  written n none w = (raised duplicate_key, w)
  written n (some orders) w = (returned n, record w { orders = orders })

module _ (t : CharTable) (col : Collection id_of index_field) (b : Broker) where
  -- `if changed: repo.save(order)`
  abbrev pub save_changed : Order → Relayed col b → Outcome ℕ × World col b
  save_changed order (raised e, w) = (raised e, w)
  save_changed order (returned (events, zero), w) = (returned zero, w)
  save_changed order (returned (events, suc n), w) =
      written col b (suc n) (Repository.save t col w.orders (record order { outbox = events })) w

  unfoldable pub relay_order : Order → World col b → Outcome ℕ × World col b
  unfolding relay_events
  relay_order order w = save_changed order (relay_events col b order order.outbox w)

  unfoldable pub relay_orders : List Order → ℕ → World col b → Outcome ℕ × World col b
  unfolding relay_order
  relay_orders [] published w = (returned published, w)
  relay_orders (order ∷ rest) published w =
      let (r, w') = relay_order order w in
      elim r [ returned n ↦ relay_orders rest (published + n) w' | raised e ↦ (raised e, w') ]

  abbrev pub relay_found : Outcome (List Order) → World col b → Outcome ℕ × World col b
  relay_found (returned orders) w = relay_orders orders 0 w
  relay_found (raised e) w = (raised e, w)

  -- `relay_once` takes up to 100 orders.
  unfoldable pub relay_once : World col b → Outcome ℕ × World col b
  unfolding relay_orders
  relay_once w = relay_found (Repository.find_with_unpublished_outbox t col w.orders 100) w
