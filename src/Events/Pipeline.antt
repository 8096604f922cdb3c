-- ===== src/Events/Pipeline.antt =====
-- From a booking over the relay to the ticket: flydesk/bookings/services.py, flydesk/events/relay.py
-- and flydesk/events/consumers.py on one collection of orders.
use mathlib.Core.Path.{subst}
use fly_desk.Prelude.{
  ℕ, suc, ◌≤◌, ◌≡◌, refl, sym, ap, ◌∙◌, true, String, inl, inr, none, some, List, [], ◌∷◌, eq_refl,
}
use fly_desk.Prelude.Lists.{All, In, length}
use fly_desk.Errors.{Outcome, returned, raised}
use fly_desk.Domain.Enums.{ticketed}
use fly_desk.Domain.Text.{CharTable}
use fly_desk.Domain.Models.{OutboxEvent, Order}
use fly_desk.Mongo.{Collection}
use fly_desk.Bookings.Document.{to_doc}
use fly_desk.Bookings.Repository
use fly_desk.Bookings.Repository.{id_of, index_field, has_unpublished, HoldsNormal}
use fly_desk.Bookings.Repository.Keys.{find_by_key-none}
use fly_desk.Bookings.Repository.Laws.{by_id-save, by_id-get}
use fly_desk.Bookings.Service as Service
use fly_desk.Bookings.Service.{Request, truthy, create_booking}
use fly_desk.Bookings.Service.Effects.{Booked, Effect, create_booking-Effect}
use fly_desk.Bookings.Service.Ports.{Platform}
use fly_desk.Bookings.Service.Kept.{GivesNormal, create_booking-Kept}
use fly_desk.Events.{bookings_confirmed, topic_for, outbox_value, Message, Broker}
use fly_desk.Events.Dedupe.{Processed}
use fly_desk.Events.Relay as Relay
use fly_desk.Events.Relay.{relay_once}
use fly_desk.Events.Relay.Taken.{TakesAll}
use fly_desk.Events.Relay.Sent.{announcement, publish_all}
use fly_desk.Events.Relay.Loading.{FindsAll}
use fly_desk.Events.Relay.Drained.{relay_once-Waits}
use fly_desk.Events.Consumers as Consumers
use fly_desk.Events.Consumers.{Event, handle_ticketing}
use fly_desk.Events.Consumers.Issued.{ticket_issued}

-- The message about the confirmation of an order.
abbrev pub confirmation : Order → OutboxEvent → Message
confirmation o event = record {
  topic = bookings_confirmed;
  key = o.id;
  value = outbox_value event.id "BookingConfirmed" event.payload;
}

-- The event that this message carries.
abbrev pub event_of : OutboxEvent → Event
event_of event = record { id = event.id; kind = "BookingConfirmed"; payload = event.payload }

confirmed :
    (o : Order) (e : OutboxEvent)
    → e.kind ≡ "BookingConfirmed"
    → e.payload.order_id ≡ some o.id
    → announcement o.id e ≡ confirmation o e
unfolding topic_for
confirmed o e kind names = rw (kind, names) refl

abbrev returned_or : Order → Outcome Order → Order
returned_or d (returned o) = o
returned_or d (raised e) = d

module _ (t : CharTable) (col : Collection id_of index_field) (pl : Platform)
    (gives : GivesNormal t pl) (p : Processed) (b : Broker) (takes : TakesAll b) where
  -- The ticketing has not seen the event.
  abbrev pub IsNew : p.State → OutboxEvent → Type 0
  IsNew seen e = (seen' : p.State) × (p.insert_one seen "ticketing" e.id ≡ some seen')

  -- A booking under an unused key was saved, and with it its event.
  booking-Booked :
      (r : Request pl) (k : String) (w w' : Service.World t col pl) (o y : Order)
      → HoldsNormal t col w.orders
      → Repository.find_by_idempotency_key t col w.orders k ≡ returned none
      → create_booking t col pl r w ≡ (returned o, w')
      → Repository.get t col w'.orders o.id ≡ returned (some y)
      → y.idempotency_key ≡ some k
      → Booked t col pl w w' o
  booking-Booked r k w w' o y all unused made stored key =
      elim (subst (Effect t col pl w) made (create_booking-Effect t col pl r w)) [
        | inl (same, _) ↦ absurd (
            find_by_key-none t col w.orders k o.id y all unused
              (ap (λ s. Repository.get t col s o.id) (sym same) ∙ stored) key)
        | inr (x, is, booked) ↦ subst (Booked t col pl w w') (ap (returned_or o) (sym is)) booked
      ]

  saved_doc :
      (o : Order) (s s' : col.State)
      → Repository.save t col s o ≡ some s'
      → col.by_id s' o.id ≡ some (to_doc o)
  saved_doc o s s' saved = simp (eq_refl) at (by_id-save t col s s' o o.id saved)

  -- The stored orders and those that the provider hands out are well-formed, and a booking under a key
  -- that was not in use has returned an order. Fewer than a hundred orders have waiting events, of
  -- which a query finds all, the broker takes every message, and the ticketing has not seen the events
  -- of this order.
  -- Then the order has one event. A round of the relay ends without an error, and among the messages
  -- that it hands to the broker is the confirmation of this order, with that event. With the event of
  -- this message the ticketing does its work, and then the stored order is ticketed.
  pub booking_ticketed :
      (r : Request pl) (k : String) (w w' : Service.World t col pl) (o : Order) (env : b.Env)
      (sent tickets : ℕ) (seen : p.State) (audit : List Consumers.AuditEntry)
      → HoldsNormal t col w.orders
      → truthy r.idempotency_key ≡ some k
      → Repository.find_by_idempotency_key t col w.orders k ≡ returned none
      → create_booking t col pl r w ≡ (returned o, w')
      → FindsAll col
      → suc (length (col.find w'.orders (λ d. has_unpublished d.outbox) 100)) ≤ 100
      → All (IsNew seen) o.outbox
      → (event : OutboxEvent) × (o.outbox ≡ event ∷ [])
        × (n : ℕ) × (v : Relay.World col b) × (relay_once t col b
              (record { orders = w'.orders; env = env; sent = sent })
            ≡ (returned n, v))
        × (ms : List Message) × (v.env ≡ publish_all b ms env)
        × In (confirmation o event) ms
        × (u : Consumers.World t col p b) × (handle_ticketing t col p b (event_of event) (record {
          orders = v.orders;
          processed = seen;
          env = v.env;
          audit = audit;
          tickets = tickets;
        })
            ≡ (returned true, u))
        × (q : Order) × (Repository.get t col u.orders o.id ≡ returned (some q))
        × (q.status ≡ ticketed)
  booking_ticketed r k w w' o env sent tickets seen audit all keyed unused made finds few news =
      let (all', y, stored, key, _) =
        create_booking-Kept t col pl gives r k w w' o all keyed made in
      let done = booking-Booked r k w w' o y all unused made stored key in
      let at_id = saved_doc o w.orders w'.orders done.stored in
      let (n, v, relayed, rest, keeps, ms, published, _, told) =
        relay_once-Waits t col b takes (record { orders = w'.orders; env = env; sent = sent }) finds
          all' few in
      let (d', at_id') = keeps o.id (to_doc o) at_id in
      let (x, found) = by_id-get t col v.orders o.id d' rest.normal at_id' in
      let listed : In done.event o.outbox = subst (In done.event) (sym done.staged) (inl refl) in
      let (seen', new) : IsNew seen done.event =
        (subst (λ l. All (IsNew seen) l) done.staged news).0 in
      let (u, ended, issued) =
        ticket_issued t col p b takes (event_of done.event) o.id x
          (record {
            orders = v.orders;
            processed = seen;
            env = v.env;
            audit = audit;
            tickets = tickets;
          })
          seen' rest.normal done.announces new found in
      (
        done.event,
        done.staged,
        n,
        v,
        relayed,
        ms,
        published,
        subst (λ m. In m ms) (confirmed o done.event done.kind done.announces)
            (told o.id (to_doc o) done.event at_id (unfold to_doc in listed) done.unpublished),
        u,
        ended,
        issued.order,
        issued.found,
        issued.ticketed_now,
      )
