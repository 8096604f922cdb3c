-- ===== src/Events/Overlap.antt =====
-- flydesk/events/relay.py and flydesk/events/consumers.py at work on one order at a time: the ticketing
-- consumer takes the event when the relay has published it and has not yet saved the order.
pub mod Lost
use fly_desk.Prelude.{ℕ}
use fly_desk.Errors.{Outcome}
use fly_desk.Prelude.{Bool}
use fly_desk.Domain.Text.{CharTable}
use fly_desk.Domain.Models.{Order}
use fly_desk.Mongo.{Collection}
use fly_desk.Bookings.Repository.{id_of, index_field}
use fly_desk.Events.{Broker}
use fly_desk.Events.Dedupe.{Processed}
use fly_desk.Events.Relay
use fly_desk.Events.Relay.{relay_events, save_changed}
use fly_desk.Events.Consumers.{World, Event, handle_ticketing}

module _ (t : CharTable) (col : Collection id_of index_field) (p : Processed) (b : Broker) where
  -- What the relay sees of the shared state; it has published `sent` events before.
  abbrev pub relay_side : ℕ → World t col p b → Relay.World col b
  relay_side sent w = record { orders = w.orders; env = w.env; sent = sent }

  -- The relay has read the order and publishes its events; then the consumer handles the event; then
  -- the relay saves the order. The answers of the relay and of the consumer, and the state at the end.
  unfoldable pub overlap :
      ℕ → Order → Event → World t col p b → Outcome ℕ × Outcome Bool × World t col p b
  overlap sent order event w =
      let (result, v) = relay_events col b order order.outbox (relay_side sent w) in
      let (handled, w1) = handle_ticketing t col p b event (record w { env = v.env }) in
      let (saved, v1) = save_changed t col b order (result, relay_side v.sent w1) in
      (saved, handled, record w1 { orders = v1.orders; env = v1.env })
