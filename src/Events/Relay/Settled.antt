-- ===== src/Events/Relay/Settled.antt =====
-- What the relay of an order of flydesk/events/relay.py leaves in the collection.
use mathlib.Core.Path.{subst}
use fly_desk.Prelude.{ℕ, zero, suc, ◌≡◌, refl, false, Option, none, some, List, map, eq_refl}
use fly_desk.Errors.{Outcome, returned, raised}
use fly_desk.Domain.Text.{CharTable}
use fly_desk.Domain.Models.{OutboxEvent, Order}
use fly_desk.Mongo.{Collection}
use fly_desk.Bookings.Document.{reload}
use fly_desk.Bookings.Document.RoundTrip.{IsNormal}
use fly_desk.Bookings.Repository
use fly_desk.Bookings.Repository.{id_of, index_field, has_unpublished}
use fly_desk.Bookings.Repository.Laws.{get-save}
use fly_desk.Events.{Ended, Broker}
use fly_desk.Events.Relay.{
  World, message_of, Relayed, relay_events, written, save_changed, relay_order,
}
use fly_desk.Events.Relay.Laws.{
  pending, send_all, Did, relay_events-Did, AllStamped, AllStamped-published, with_outbox,
}

module _ (t : CharTable) (col : Collection id_of index_field) (b : Broker) where
  pub with_outbox-IsNormal :
      (o : Order) (l : List OutboxEvent) → IsNormal t o → IsNormal t (with_outbox o l)
  with_outbox-IsNormal o l h = record { currency = h.currency; slices = h.slices }

  -- What a relayed order leaves in the collection.
  abbrev Settled : Order → Outcome ℕ × World col b → Type 0
  Settled o (returned zero, w') = Unit
  Settled o (returned (suc n), w') =
      (o' : Order) × (Repository.get t col w'.orders o.id ≡ returned (some o'))
      × (has_unpublished o'.outbox ≡ false)
      × AllStamped o.outbox o'.outbox
  Settled o (raised e, w') = Unit

  written-Settled :
      (o : Order) (l : List OutboxEvent) (n : ℕ) (w : World col b) (s : Option col.State)
      → Repository.save t col w.orders (with_outbox o l) ≡ s
      → IsNormal t o
      → AllStamped o.outbox l
      → Settled o (written col b (suc n) s w)
  unfolding reload
  written-Settled o l n w none e h st = tt
  written-Settled o l n w (some s) e h st = (
    reload (with_outbox o l),
    simp (eq_refl) at
        (get-save t col w.orders s (with_outbox o l) o.id (with_outbox-IsNormal o l h) e),
    AllStamped-published o.outbox l st,
    st,
  )

  saved-Settled :
      (o : Order) (x : Relayed col b) (y : Ended × World col b)
      → IsNormal t o
      → Did col b o.outbox x y
      → Settled o (save_changed t col b o x)
  saved-Settled o (returned (l, zero), w) (returned _, v) h d = tt
  saved-Settled o (returned (l, suc n), w) (returned _, v) h (same, counted, st) =
      written-Settled o l n w (Repository.save t col w.orders (with_outbox o l)) refl h st
  saved-Settled o (returned _, w) (raised e, v) h d = elim d [ ]
  saved-Settled o (raised e, w) y h d = tt

  -- When the relay of an order has published something and ended well, the stored order has no
  -- waiting event any more: each one has got its time, and nothing else of the outbox has changed.
  pub relay_order_settled :
      (o : Order) (w w' : World col b) (n : ℕ)
      → IsNormal t o
      → relay_order t col b o w ≡ (returned (suc n), w')
      → (o' : Order) × (Repository.get t col w'.orders o.id ≡ returned (some o'))
        × (has_unpublished o'.outbox ≡ false)
        × AllStamped o.outbox o'.outbox
  unfolding relay_order
  relay_order_settled o w w' n h e = subst (Settled o) e (
      saved-Settled o (relay_events col b o o.outbox w)
        (send_all col b (map (message_of o) (pending o.outbox)) w) h
        (relay_events-Did col b o o.outbox w))
