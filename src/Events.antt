-- ===== src/Events.antt =====
-- flydesk/events: topics, the publisher port, the outbox relay and the consumers. The broker, the
-- clock and `uuid` are parameters.
pub mod Dedupe
pub mod Relay
pub mod Consumers
pub mod Overlap
pub mod Workers
pub mod Pipeline
use fly_desk.Prelude.{
  ℕ, ◌+◌, String, Option, none, some, List, [], ◌∷◌, ◌++◌, str_eq, if◌then◌else◌,
}
use fly_desk.Errors.{Outcome, returned, raised}
use fly_desk.Domain.Time.{Datetime}
use fly_desk.Domain.Models.{Payload}

-- flydesk/events/topics.py
abbrev pub bookings_confirmed : String
bookings_confirmed = "bookings.confirmed"

abbrev pub tickets_issued : String
tickets_issued = "tickets.issued"

unfoldable pub topic_for : String → String
topic_for event_type =
    if str_eq event_type "BookingConfirmed"
    then bookings_confirmed
    else if str_eq event_type "TicketIssued"
    then tickets_issued
    else "events.dead_letter"

-- The value of a message: an event of an outbox, or the ticketing's own event.
pub data Value : Type 0 where
  outbox_value : (id kind : String) → Payload → Value
  ticket_value : (id order_id : String) → Option String → Value

pub record Message : Type 0 where
  pub topic : String
  pub key : String
  pub value : Value

abbrev pub Ended : Type 0
Ended = Outcome (Unit {0})

-- The port `EventPublisher` with what surrounds it.
pub record Broker : Type 1 where
  pub Env : Type 0
  pub publish : Message → Env → Ended × Env
  pub now : Env → Datetime
  pub uuid : Env → String × Env

-- `InMemoryEventPublisher.publish`
unfoldable pub publish_in_memory : Message → List Message → Ended × List Message
publish_in_memory m published = (returned tt, published ++ m ∷ [])
