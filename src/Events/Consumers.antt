-- ===== src/Events/Consumers.antt =====
-- flydesk/events/consumers.py, and the loop of flydesk/events/management/commands/consume_events.py.
pub mod Idempotence
pub mod Issued
use fly_desk.Prelude.{ℕ, ◌+◌, String, Bool, true, false, Option, none, some, List, [], ◌∷◌, ◌++◌}
use fly_desk.Errors.{Exception, duplicate_key, other, Outcome, returned, raised}
use fly_desk.Domain.Enums.{OrderStatus, ticketed}
use fly_desk.Domain.Text.{CharTable}
use fly_desk.Domain.Time.{Datetime}
use fly_desk.Domain.Models.{Payload, OrderEvent, Order}
use fly_desk.Mongo.{Collection}
use fly_desk.Bookings.Repository
use fly_desk.Bookings.Repository.{id_of, index_field}
use fly_desk.Events.{tickets_issued, Value, outbox_value, ticket_value, Message, Ended, Broker}
use fly_desk.Events.Dedupe.{Processed, mark_if_new}

-- The event that a message carries.
pub record Event : Type 0 where
  pub id : String
  pub kind : String
  pub payload : Payload

pub record AuditEntry : Type 0 where
  pub event_id : String
  pub kind : String
  pub payload : Payload
  pub at_time : Datetime

unfoldable pub is_ticketed : OrderStatus → Bool
is_ticketed ticketed = true
is_ticketed _ = false

-- The copy of the order with its ticket.
unfoldable pub issue : Datetime → Order → Order
issue now order = record order {
  status = ticketed;
  events =
      order.events
      ++ record { kind = "ticket.issued"; at_time = now; detail = some "e-ticket issued" } ∷ [];
}

module _ (t : CharTable) (col : Collection id_of index_field) (p : Processed) (b : Broker) where
  pub record World : Type 0 where
    pub orders : col.State
    pub processed : p.State
    pub env : b.Env
    pub audit : List AuditEntry
    -- the counter `flydesk_tickets_issued_total`
    pub tickets : ℕ

  abbrev pub Action : Type 0 → Type 0
  Action A = World → Outcome A × World

  abbrev pub published : World → Ended × b.Env → Outcome Bool × World
  published w (returned _, env) = (returned true, record w { env = env })
  published w (raised e, env) = (raised e, record w { env = env })

  unfoldable pub announce : String → Order → Action Bool
  announce order_id order w =
      let (id, env) = b.uuid w.env in
      published w (
        b.publish
          (record {
            topic = tickets_issued;
            key = order_id;
            value = ticket_value id order_id order.booking_reference;
          })
          env)

  abbrev pub stored : String → Order → Option col.State → Action Bool
  stored order_id order none w = (raised duplicate_key, w)
  stored order_id order (some orders) w =
      announce order_id order (record w { orders = orders; tickets = w.tickets + 1 })

  unfoldable pub ticket : String → Order → Bool → Action Bool
  ticket order_id order true w = announce order_id order w
  ticket order_id order false w =
      let copy = issue (b.now w.env) order in
      stored order_id copy (Repository.save t col w.orders copy) w

  abbrev pub with_order : String → Outcome (Option Order) → Action Bool
  with_order order_id (raised e) w = (raised e, w)
  with_order order_id (returned none) w = (returned false, w)
  with_order order_id (returned (some order)) w = ticket order_id order (is_ticketed order.status) w

  abbrev pub with_id : Option String → Action Bool
  with_id none w = (raised (other "KeyError"), w)
  with_id (some order_id) w = with_order order_id (Repository.get t col w.orders order_id) w

  abbrev pub when_new : Action Bool → Bool × p.State → Action Bool
  when_new work (true, processed) w = work (record w { processed = processed })
  when_new work (false, processed) w = (returned false, record w { processed = processed })

  -- Runs the work of a consumer unless the event is a duplicate for it.
  unfoldable pub once : String → String → Action Bool → Action Bool
  once event_id consumer work w = when_new work (mark_if_new p event_id consumer w.processed) w

  unfoldable pub handle_ticketing : Event → Action Bool
  unfolding once
  handle_ticketing event = once event.id "ticketing" (with_id event.payload.order_id)

  -- The notification is a log line.
  unfoldable pub handle_notification : Event → Action Bool
  unfolding once
  handle_notification event = once event.id "notifications" (λ w. (returned true, w))

  unfoldable pub audited : Event → Action Bool
  audited event w = (
    returned true,
    record w {
      audit =
          w.audit
          ++ record {
            event_id = event.id;
            kind = event.kind;
            payload = event.payload;
            at_time = b.now w.env;
          }
            ∷ [];
    },
  )

  unfoldable pub handle_audit : Event → Action Bool
  unfolding once
  handle_audit event = once event.id "audit" (audited event)

  abbrev pub after_done : Outcome Bool × World → Action Bool → Outcome Bool × World
  after_done (returned _, w) next = next w
  after_done (raised e, w) next = (raised e, w)

  -- One message of the worker's loop: the three consumers, then the commit of the offset, which an
  -- exception of a consumer skips.
  unfoldable pub consume : Event → Action Bool
  unfolding handle_ticketing handle_notification handle_audit
  consume event w =
      after_done (handle_ticketing event w)
        (λ v. after_done (handle_notification event v) (handle_audit event))
