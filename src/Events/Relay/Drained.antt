-- ===== src/Events/Relay/Drained.antt =====
-- A relay over a broker that takes every message leaves no event waiting.
use mathlib.Core.Path.{subst}
use fly_desk.Prelude.{
  ℕ, zero, suc, ◌+◌, ◌≤◌, ◌≡◌, ◌≢◌, refl, sym, ap, ◌∙◌, some, List, [], ◌∷◌, arith,
}
use fly_desk.Prelude.Lists.{In, length, length-append}
use fly_desk.Errors.{Outcome, returned, raised}
use fly_desk.Domain.Text.{CharTable}
use fly_desk.Domain.Models.{OutboxEvent, Order}
use fly_desk.Mongo.{Collection}
use fly_desk.Bookings.Document.{OrderDoc}
use fly_desk.Bookings.Repository
use fly_desk.Bookings.Repository.{id_of, index_field, is_unpublished, has_unpublished, HoldsNormal}
use fly_desk.Events.{Message, Broker}
use fly_desk.Events.Relay.{
  World, written, save_changed, relay_order, relay_orders, relay_found, relay_once,
}
use fly_desk.Events.Relay.Laws.{pending, with_outbox}
use fly_desk.Events.Relay.Taken.{TakesAll, pending-some, events_relayed}
use fly_desk.Events.Relay.Sent.{
  announcement, publish_all, publish_all-append, messages, all_messages, length-messages,
  AllAnnounced, In-waits, In-all_messages,
}
use fly_desk.Events.Relay.Loading.{
  FindsAll, In-HasId, load_all, none-Waits, NoneWaits, Waits-NoneWaits,
}
use fly_desk.Events.Relay.Waiting.{Waits, save-same_key, saved-Waits, KeepsIds, save-KeepsIds}

module _ (t : CharTable) (col : Collection id_of index_field) (b : Broker)
    (takes : TakesAll b) where
  -- The relay of the next order ends well.
  Next : Order → List Order → World col b → Type 0
  Next o rest w =
      (n : ℕ) × (v : World col b) × (relay_order t col b o w ≡ (returned n, v))
      × Waits t col rest v.orders
      × KeepsIds t col w.orders v.orders
      × (v.env ≡ publish_all b (messages o) w.env)
      × (n ≡ length (messages o))

  relay_order-Next :
      (o : Order) (rest : List Order) (w : World col b)
      → Waits t col (o ∷ rest) w.orders
      → Next o rest w
  unfolding relay_order Next
  relay_order-Next o rest w h =
      let (l, n, v, relayed, same, sent, counted, published) = events_relayed t col b takes o w in
      let (_, waits, d, stored, keyed) = h.todo.0 in
      let (s, saved) = save-same_key t col w.orders (with_outbox o l) d stored keyed in
      (
        n,
        record v { orders = s },
        ap (save_changed t col b o) relayed
            ∙ write n l v s (λ q. pending-some o.outbox waits (sym counted ∙ q))
                (ap (λ x. Repository.save t col x (with_outbox o l)) same ∙ saved),
        saved-Waits t col o rest l w.orders s h published saved,
        save-KeepsIds t col w.orders s (with_outbox o l) saved,
        sent,
        counted ∙ sym (length-messages o (pending o.outbox)),
      )
    where
      write :
          (n : ℕ) (l : List OutboxEvent) (v : World col b) (s : col.State)
          → n ≢ 0
          → Repository.save t col v.orders (with_outbox o l) ≡ some s
          → save_changed t col b o (returned (l, n), v) ≡ (returned n, record v { orders = s })
      write zero l v s some_sent saved = absurd (some_sent refl)
      write (suc n) l v s some_sent saved = ap (λ x. written col b (suc n) x v) saved

  relay_orders-Waits :
      (rest : List Order) (k : ℕ) (w : World col b)
      → Waits t col rest w.orders
      → (n : ℕ) × (v : World col b) × (relay_orders t col b rest k w ≡ (returned n, v))
        × Waits t col [] v.orders
        × KeepsIds t col w.orders v.orders
        × (v.env ≡ publish_all b (all_messages rest) w.env)
        × (n ≡ k + length (all_messages rest))
  unfolding relay_orders Next publish_all
  relay_orders-Waits [] k w h = (k, w, refl, h, (λ i d stored. (d, stored)), refl, omega arith)
  relay_orders-Waits (o ∷ rest) k w h =
      let (n, v, relayed, h', keeps, sent, counted) = relay_order-Next o rest w h in
      let (m, u, ended, h'', keeps', sent', counted') = relay_orders-Waits rest (k + n) v h' in
      (
        m,
        u,
        ap
              (λ (x : Outcome ℕ × World col b). elim x.0 [
                | returned n ↦ relay_orders t col b rest (k + n) x.1
                | raised e ↦ (raised e, x.1)
              ])
              relayed
            ∙ ended,
        h'',
        (λ i d stored. let (d', stored') = keeps i d stored in keeps' i d' stored'),
        sent'
            ∙ ap (publish_all b (all_messages rest)) sent
            ∙ sym (publish_all-append b (messages o) (all_messages rest) w.env),
        omega (arith, counted, counted', length-append (messages o) (all_messages rest)),
      )

  -- A round of the relay over fewer than a hundred waiting orders.
  pub relay_once-Waits :
      (w : World col b)
      → FindsAll col
      → HoldsNormal t col w.orders
      → suc (length (col.find w.orders (λ d. has_unpublished d.outbox) 100)) ≤ 100
      → (n : ℕ) × (v : World col b) × (relay_once t col b w ≡ (returned n, v))
        × Waits t col [] v.orders
        × KeepsIds t col w.orders v.orders
        × (ms : List Message) × (v.env ≡ publish_all b ms w.env)
        × (n ≡ length ms)
        × AllAnnounced col w.orders ms
  unfolding relay_once Repository.find_with_unpublished_outbox
  relay_once-Waits w finds all few =
      let q = λ (d : OrderDoc). has_unpublished d.outbox in
      let docs = col.find w.orders q 100 in
      let found = load_all t col w.orders docs all (col.find-stored w.orders q 100) in
      let (n, v, relayed, rest, keeps, sent, counted) =
        relay_orders-Waits found.orders 0 w (record {
          normal = all;
          todo = found.todo;
          covered = λ i d stored waits.
              let (o, listed, same, _) =
                found.found d (finds w.orders q 100 i d few stored waits) in
              In-HasId i o found.orders listed (same ∙ col.by_id_lem w.orders i d stored);
        }) in
      (
        n,
        v,
        ap (λ l. relay_found t col b (Repository.all_loaded l) w) found.loaded ∙ relayed,
        rest,
        keeps,
        all_messages found.orders,
        sent,
        omega (arith, counted),
        λ i d e stored listed waits.
            let some_waits = In-waits d.outbox e listed waits in
            let (o, there, same, outbox) =
              found.found d (finds w.orders q 100 i d few stored some_waits) in
            subst (λ j. In (announcement j e) (all_messages found.orders))
              (same ∙ col.by_id_lem w.orders i d stored)
              (In-all_messages found.orders o e there (subst (λ l. In e l) (sym outbox) listed)
                waits),
      )

  -- The stored orders are well-formed, fewer than a hundred of them have waiting events, of which a
  -- query finds all, and the broker takes every message. Then a round of the relay ends without an error. It hands the broker a message about each event that waited in
  -- a stored order, and returns their number; after it no event of a stored order waits: each has a
  -- time, and the next round publishes nothing. The stored orders stay well-formed.
  pub relay_once_drains :
      (w : World col b)
      → FindsAll col
      → HoldsNormal t col w.orders
      → suc (length (col.find w.orders (λ d. has_unpublished d.outbox) 100)) ≤ 100
      → (n : ℕ) × (v : World col b) × (relay_once t col b w ≡ (returned n, v))
        × (ms : List Message) × (v.env ≡ publish_all b ms w.env)
        × (n ≡ length ms)
        × AllAnnounced col w.orders ms
        × NoneWaits t col v.orders
        × (relay_once t col b v ≡ (returned 0, v))
        × HoldsNormal t col v.orders
  unfolding relay_once relay_orders
  relay_once_drains w finds all few =
      let (n, v, relayed, rest, _, ms, sent, counted, told) = relay_once-Waits w finds all few in
      (
        n,
        v,
        relayed,
        ms,
        sent,
        counted,
        told,
        Waits-NoneWaits t col v.orders rest,
        ap (λ x. relay_found t col b x v) (none-Waits t col v.orders rest),
        rest.normal,
      )
