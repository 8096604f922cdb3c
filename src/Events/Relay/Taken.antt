-- ===== src/Events/Relay/Taken.antt =====
-- A relay over a broker that takes every message.
use mathlib.Core.Path.{subst}
use fly_desk.Prelude.{
  ℕ, ◌+◌, ◌≡◌, ◌≢◌, refl, ap, ◌∙◌, true, false, inl, inr, List, [], ◌∷◌, map, Bool-cases,
}
use fly_desk.Prelude.Lists.{length}
use fly_desk.Errors.{returned, raised}
use fly_desk.Domain.Text.{CharTable}
use fly_desk.Domain.Models.{OutboxEvent, Order}
use fly_desk.Mongo.{Collection}
use fly_desk.Bookings.Repository.{id_of, index_field, is_unpublished, has_unpublished}
use fly_desk.Events.{Message, Ended, Broker}
use fly_desk.Events.Relay.{World, message_of, Relayed, relay_events}
use fly_desk.Events.Relay.Laws.{pending, send_all, Did, AllStamped-published, relay_events-Did}
use fly_desk.Events.Relay.Sent.{publish_all, messages}

-- The broker takes every message.
abbrev pub TakesAll : Broker → Type 0
TakesAll b = (m : Message) (e : b.Env) → (b.publish m e).0 ≡ returned tt

pub pending-some : (l : List OutboxEvent) → has_unpublished l ≡ true → length (pending l) ≢ 0
unfolding has_unpublished pending
pending-some [] h q = cc
pending-some (e ∷ l) h q = elim (Bool-cases (is_unpublished e)) [
  | inl waits ↦ cc (simp waits at q)
  | inr done ↦ pending-some l (simp done at h) (simp done at q)
]

module _ (t : CharTable) (col : Collection id_of index_field) (b : Broker)
    (takes : TakesAll b) where
  send_all-returns :
      (ms : List Message) (w : World col b)
      → (v : World col b) × (send_all col b ms w ≡ (returned tt, v))
        × (v.orders ≡ w.orders)
        × (v.env ≡ publish_all b ms w.env)
  unfolding send_all publish_all
  send_all-returns [] w = (w, refl, refl, refl)
  send_all-returns (m ∷ ms) w =
      let env = (b.publish m w.env).1 in
      let after : World col b = record w { env = env; sent = w.sent + 1 } in
      let (v, sent, same, published) = send_all-returns ms after in
      (
        v,
        ap
              (λ (r : Ended). elim r [
                | returned _ ↦ send_all col b ms after
                | raised e ↦ (raised e, record w { env = env })
              ])
              (takes m w.env)
            ∙ sent,
        same,
        published,
      )

  -- The relay of an order ends well, with all its events published.
  abbrev pub Relays : Order → World col b → Type 0
  Relays o w =
      (l : List OutboxEvent) × (n : ℕ) × (v : World col b) × (relay_events col b o o.outbox w
        ≡ (returned (l, n), v))
      × (v.orders ≡ w.orders)
      × (v.env ≡ publish_all b (messages o) w.env)
      × (n ≡ length (pending o.outbox))
      × (has_unpublished l ≡ false)

  pub events_relayed : (o : Order) (w : World col b) → Relays o w
  events_relayed o w =
      let (v, sent, same, published) = send_all-returns (map (message_of o) (pending o.outbox)) w in
      go (relay_events col b o o.outbox w) refl v same published (
        subst (Did col b o.outbox (relay_events col b o o.outbox w)) sent
          (relay_events-Did col b o o.outbox w))
    where
      go :
          (x : Relayed col b)
          → relay_events col b o o.outbox w ≡ x
          → (v : World col b) → v.orders ≡ w.orders
          → v.env ≡ publish_all b (messages o) w.env
          → Did col b o.outbox x (returned tt, v)
          → Relays o w
      go (returned (l, n), u) e v same published (at_v, counted, stamped) = (
        l,
        n,
        u,
        e,
        ap (λ (x : World col b). x.orders) at_v ∙ same,
        ap (λ (x : World col b). x.env) at_v ∙ published,
        counted,
        AllStamped-published o.outbox l stamped,
      )
      go (raised e, u) q v same published h = elim h [ ]
