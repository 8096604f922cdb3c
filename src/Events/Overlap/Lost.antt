-- ===== src/Events/Overlap/Lost.antt =====
-- What is left of a ticket that flydesk/events/consumers.py has issued while flydesk/events/relay.py was
-- between its publication and its save.
use mathlib.Core.Path.{subst}
use fly_desk.Prelude.{ℕ, zero, suc, ◌≡◌, refl, ap, false, Option, none, some, List, eq_refl, arith}
use fly_desk.Errors.{Outcome, returned, raised}
use fly_desk.Domain.Text.{CharTable}
use fly_desk.Domain.Models.{OutboxEvent, Order}
use fly_desk.Mongo.{Collection}
use fly_desk.Bookings.Document.{reload}
use fly_desk.Bookings.Document.RoundTrip.{IsNormal}
use fly_desk.Bookings.Repository
use fly_desk.Bookings.Repository.{id_of, index_field}
use fly_desk.Bookings.Repository.Laws.{get-save}
use fly_desk.Events.{Broker}
use fly_desk.Events.Dedupe.{Processed}
use fly_desk.Events.Relay
use fly_desk.Events.Relay.{Relayed, relay_events, save_changed, written}
use fly_desk.Events.Relay.Laws.{with_outbox}
use fly_desk.Events.Relay.Settled.{with_outbox-IsNormal}
use fly_desk.Events.Consumers.{World, Event, handle_ticketing}
use fly_desk.Events.Consumers.Idempotence.{ticketing_seen, seen_ignored}
use fly_desk.Events.Overlap.{relay_side, overlap}

module _ (t : CharTable) (col : Collection id_of index_field) (p : Processed) (b : Broker) where
  -- The stored order is as the relay had read it, but for its outbox.
  abbrev pub AsRead : Order → col.State → Type 0
  AsRead o orders =
      (o' : Order) × (Repository.get t col orders o.id ≡ returned (some o'))
      × (o'.status ≡ o.status)
      × (o'.events ≡ o.events)

  written-AsRead :
      (o : Order) (l : List OutboxEvent) (n m : ℕ) (w w' : Relay.World col b) (s : Option col.State)
      → IsNormal t o
      → Repository.save t col w.orders (with_outbox o l) ≡ s
      → written col b m s w ≡ (returned n, w')
      → AsRead o w'.orders
  unfolding reload
  written-AsRead o l n m w w' none h e r =
      let bad : ◌≡◌ {A = Outcome ℕ} (raised _) (returned n) =
        ap (λ (x : Outcome ℕ × Relay.World col b). x.0) r in
      cc
  written-AsRead o l n m w w' (some s) h e r =
      subst (AsRead o) (ap (λ (x : Outcome ℕ × Relay.World col b). x.1.orders) r) (
        reload (with_outbox o l),
        simp (eq_refl) at (
            get-save t col w.orders s (with_outbox o l) o.id (with_outbox-IsNormal t col b o l h)
              e),
        refl,
        refl,
      )

  saved-AsRead :
      (o : Order) (x : Outcome (List OutboxEvent × ℕ)) (n : ℕ) (w w' : Relay.World col b)
      → IsNormal t o
      → save_changed t col b o (x, w) ≡ (returned (suc n), w')
      → AsRead o w'.orders
  saved-AsRead o (raised e) n w w' h r =
      let bad : ◌≡◌ {A = Outcome ℕ} (raised e) (returned (suc n)) =
        ap (λ (x : Outcome ℕ × Relay.World col b). x.0) r in
      cc
  saved-AsRead o (returned (l, zero)) n w w' h r =
      let bad : ◌≡◌ {A = Outcome ℕ} (returned zero) (returned (suc n)) =
        ap (λ (x : Outcome ℕ × Relay.World col b). x.0) r in
      absurd (ground arith)
  saved-AsRead o (returned (l, suc m)) n w w' h r =
      written-AsRead o l (suc n) (suc m) w w' (Repository.save t col w.orders (with_outbox o l)) h
        refl r

  -- The relay and the ticketing of an event overlap on one order, and the relay ends well after it has
  -- published something. Then, whatever the ticketing has done, the stored order has the status and
  -- the history that the relay had read before; and the event is not handled again.
  pub overlap_loses_ticket :
      (sent n : ℕ) (o : Order) (e : Event) (w : World t col p b)
      → IsNormal t o
      → (overlap t col p b sent o e w).0 ≡ returned (suc n)
      → let w' = (overlap t col p b sent o e w).2 in
        AsRead o w'.orders × (handle_ticketing t col p b e w' ≡ (returned false, w'))
  unfolding overlap
  overlap_loses_ticket sent n o e w h r =
      let (result, v) = relay_events col b o o.outbox (relay_side t col p b sent w) in
      let w1 = (handle_ticketing t col p b e (record w { env = v.env })).1 in
      let x = save_changed t col b o (result, relay_side t col p b v.sent w1) in
      (
        saved-AsRead o result n (relay_side t col p b v.sent w1) x.1 h (ap (λ y. (y, x.1)) r),
        seen_ignored t col p b e (overlap t col p b sent o e w).2
            (ticketing_seen t col p b e (record w { env = v.env })),
      )
