-- ===== src/Events/Relay/Laws.antt =====
-- What the relay of flydesk/events/relay.py sends and leaves behind.
use fly_desk.Prelude.{
  ◌+◌, ◌≡◌, refl, false, Option, none, some, List, [], ◌∷◌, map, arith, if◌then◌else◌,
}
use fly_desk.Prelude.Lists.{length}
use fly_desk.Prelude.Options.{or_default}
use fly_desk.Errors.{returned, raised}
use fly_desk.Domain.Time.{Datetime}
use fly_desk.Domain.Models.{OutboxEvent, Order}
use fly_desk.Mongo.{Collection}
use fly_desk.Bookings.Repository.{id_of, index_field, is_unpublished, has_unpublished}
use fly_desk.Events.{topic_for, outbox_value, Message, Ended, Broker}
use fly_desk.Events.Relay.{World, message_of, stamp, send, Relayed, keep, relay_events}

-- The events that wait, in order.
unfoldable pub pending : List OutboxEvent → List OutboxEvent
pending [] = []
pending (e ∷ l) = if is_unpublished e then e ∷ pending l else pending l

-- A published event is left as it is, and one that waited has got a time and nothing else.
abbrev pub IsStamped : OutboxEvent → Option Datetime → OutboxEvent → Type 0
IsStamped e (some _) e' = e' ≡ e
IsStamped e none e' = (at_time : Datetime) × (e' ≡ record e { published_at = some at_time })

abbrev pub AllStamped : List OutboxEvent → List OutboxEvent → Type 0
AllStamped [] [] = Unit
AllStamped [] (e' ∷ l') = ⊥
AllStamped (e ∷ l) [] = ⊥
AllStamped (e ∷ l) (e' ∷ l') = IsStamped e e.published_at e' × AllStamped l l'

-- The message tells of this event of the order.
abbrev pub IsAbout : Order → OutboxEvent → Message → Type 0
IsAbout o e m =
    (m.topic ≡ topic_for e.kind)
    × (m.key ≡ or_default e.payload.order_id o.id)
    × (m.value ≡ outbox_value e.id e.kind e.payload)

-- One message for each event, in order.
abbrev pub AllAbout : Order → List OutboxEvent → List Message → Type 0
AllAbout o [] [] = Unit
AllAbout o [] (m ∷ ms) = ⊥
AllAbout o (e ∷ l) [] = ⊥
AllAbout o (e ∷ l) (m ∷ ms) = IsAbout o e m × AllAbout o l ms

map-AllAbout : (o : Order) (l : List OutboxEvent) → AllAbout o l (map (message_of o) l)
unfolding message_of
map-AllAbout o [] = tt
map-AllAbout o (e ∷ l) = ((refl, refl, refl), map-AllAbout o l)

module _ (col : Collection id_of index_field) (b : Broker) where
  -- Hands messages to the broker one after another and counts them, up to a failure.
  unfoldable pub send_all : List Message → World col b → Ended × World col b
  send_all [] w = (returned tt, w)
  send_all (m ∷ rest) w =
      let (r, env) = b.publish m w.env in
      elim r [
        | returned _ ↦ send_all rest (record w { env = env; sent = w.sent + 1 })
        | raised e ↦ (raised e, record w { env = env })
      ]

  -- A relay of the events `l` that has sent with this result.
  abbrev pub Did : List OutboxEvent → Relayed col b → Ended × World col b → Type 0
  Did l (returned (l', n), w) (returned _, v) = (w ≡ v) × (n ≡ length (pending l)) × AllStamped l l'
  Did l (raised e, w) (raised e', v) = (w ≡ v) × (e ≡ e')
  Did l (returned _, w) (raised e, v) = ⊥
  Did l (raised e, w) (returned _, v) = ⊥

  abbrev old : OutboxEvent → Datetime → OutboxEvent
  old e d = record e { published_at = some d }

  abbrev new : OutboxEvent → OutboxEvent
  new e = record e { published_at = none }

  Did-old :
      (e : OutboxEvent) (d : Datetime) (l : List OutboxEvent) (x : Relayed col b)
      (y : Ended × World col b)
      → Did l x y
      → Did (old e d ∷ l) (keep col b (old e d) 0 x) y
  unfolding pending
  Did-old e d l (returned (l', n), w) (returned _, v) (same, counted, stamped) =
      (same, omega (arith, counted), (refl, stamped))
  Did-old e d l (returned _, w) (raised e', v) h = h
  Did-old e d l (raised e', w) (returned _, v) h = h
  Did-old e d l (raised e', w) (raised e'', v) h = h

  Did-new :
      (e : OutboxEvent) (d : Datetime) (l : List OutboxEvent) (x : Relayed col b)
      (y : Ended × World col b)
      → Did l x y
      → Did (new e ∷ l) (keep col b (stamp d (new e)) 1 x) y
  unfolding pending stamp
  Did-new e d l (returned (l', n), w) (returned _, v) (same, counted, stamped) =
      (same, omega (arith, counted), ((d, refl), stamped))
  Did-new e d l (returned _, w) (raised e', v) h = h
  Did-new e d l (raised e', w) (returned _, v) h = h
  Did-new e d l (raised e', w) (raised e'', v) h = h

  pub relay_events-Did :
      (o : Order) (l : List OutboxEvent) (w : World col b)
      → Did l (relay_events col b o l w) (send_all (map (message_of o) (pending l)) w)
  unfolding relay_events send_all pending send
  relay_events-Did o [] w = (refl, refl, tt)
  relay_events-Did o (e ∷ l) w = go (relay_events-Did o l) e.published_at
    where
      sent :
          ((v : World col b)
            → Did l (relay_events col b o l v) (send_all (map (message_of o) (pending l)) v))
          → (x : Ended × b.Env)
          → let (r, env) = x in
            let v : World col b = record w { env = env; sent = w.sent + 1 } in
            let failed : World col b = record w { env = env } in
            let answered : Ended × World col b = elim r [
              | returned _ ↦ (returned tt, v)
              | raised exc ↦ (raised exc, failed)
            ] in
            Did
              (new e ∷ l)
              (elim answered.0 [
                | returned _ ↦
                    keep col b
                      (stamp (b.now answered.1.env) (new e))
                      1
                      (relay_events col b o l answered.1)
                | raised exc ↦ (raised exc, answered.1)
              ])
              (elim r [
                | returned _ ↦ send_all (map (message_of o) (pending l)) v
                | raised exc ↦ (raised exc, failed)
              ])
      sent ih (returned _, env) =
          let v : World col b = record w { env = env; sent = w.sent + 1 } in
          Did-new e (b.now env) l (relay_events col b o l v)
            (send_all (map (message_of o) (pending l)) v) (ih v)
      sent ih (raised exc, env) = (refl, refl)

      go :
          ((v : World col b)
            → Did l (relay_events col b o l v) (send_all (map (message_of o) (pending l)) v))
          → (p : Option Datetime)
          → let e' : OutboxEvent = record e { published_at = p } in
            Did
              (e' ∷ l)
              (relay_events col b o (e' ∷ l) w)
              (send_all (map (message_of o) (pending (e' ∷ l))) w)
      go ih (some d) =
          Did-old e d l (relay_events col b o l w) (send_all (map (message_of o) (pending l)) w)
            (ih w)
      go ih none = sent ih (b.publish (message_of o (new e)) w.env)

  -- The relay of an order hands one message to the broker for each waiting event, in order and about
  -- that event, and no other, up to the first failure, which it passes on. If none fails, it counts
  -- the messages, and each event that waited has got a time and is otherwise unchanged.
  pub relay_events_lem :
      (o : Order) (l : List OutboxEvent) (w : World col b)
      → (ms : List Message) × AllAbout o (pending l) ms
        × Did l (relay_events col b o l w) (send_all ms w)
  relay_events_lem o l w =
      (map (message_of o) (pending l), map-AllAbout o (pending l), relay_events-Did o l w)

stamped-published :
    (e : OutboxEvent) (p : Option Datetime) (e' : OutboxEvent)
    → e.published_at ≡ p
    → IsStamped e p e'
    → is_unpublished e' ≡ false
unfolding stamp
stamped-published e (some d) e' q h = rw (h, q) refl
stamped-published e none e' q (d, h) = rw h refl

pub AllStamped-published : (l l' : List OutboxEvent) → AllStamped l l' → has_unpublished l' ≡ false
unfolding has_unpublished
AllStamped-published [] [] h = refl
AllStamped-published [] (e' ∷ l') h = elim h [ ]
AllStamped-published (e ∷ l) [] h = elim h [ ]
AllStamped-published (e ∷ l) (e' ∷ l') (first, rest) =
    rw (stamped-published e e.published_at e' refl first) (AllStamped-published l l' rest)

-- The order with the events `l`.
abbrev pub with_outbox : Order → List OutboxEvent → Order
with_outbox o l = record o { outbox = l }
