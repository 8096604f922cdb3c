-- ===== src/Bookings/Service/Replay.antt =====
-- Repeating a booking with the same idempotency key.
use fly_desk.Prelude.{◌≡◌, sym, ap, ◌∙◌, String, Option, none, some}
use mathlib.Core.Path.{subst}
use fly_desk.Errors.{Outcome, returned}
use fly_desk.Domain.Text.{CharTable}
use fly_desk.Domain.Models.{Order}
use fly_desk.Mongo.{Collection}
use fly_desk.Bookings.Repository
use fly_desk.Bookings.Repository.{id_of, index_field, HoldsNormal}
use fly_desk.Bookings.Repository.Keys.{
  find_by_key_sound, find_by_key-none, find_by_key_total, key_unique,
}
use fly_desk.Bookings.Service.Kept.{
  GivesNormal, IsStoredAs, Kept, create_with-Kept, create_booking-Kept,
}
use fly_desk.Bookings.Service.Ports.{Platform}
use fly_desk.Bookings.Service.{
  World, Request, truthy, continue, find_key, create_with, create_booking, replay_or_reserve,
}

abbrev found_or : Order → Outcome (Option Order) → Order
found_or d (returned (some o)) = o
found_or d _ = d

module _ (t : CharTable) (col : Collection id_of index_field) (p : Platform)
    (normal : GivesNormal t p) where
  kept_found :
      (k : String) (w : World t col p) (o y : Order)
      → HoldsNormal t col w.orders
      → Repository.get t col w.orders o.id ≡ returned (some y)
      → y.idempotency_key ≡ some k
      → (x : Order) × (Repository.find_by_idempotency_key t col w.orders k ≡ returned (some x))
        × (x.id ≡ o.id)
        × (x ≡ y)
  kept_found k w o y all stored key =
      go (find_by_key_total t col w.orders k all).0 (find_by_key_total t col w.orders k all).1
    where
      go :
          (found : Option Order)
          → Repository.find_by_idempotency_key t col w.orders k ≡ returned found
          → (x : Order) × (Repository.find_by_idempotency_key t col w.orders k ≡ returned (some x))
            × (x.id ≡ o.id)
            × (x ≡ y)
      go none e = absurd (find_by_key-none t col w.orders k o.id y all e stored key)
      go (some x) e =
          let (has_key, there) = find_by_key_sound t col w.orders k x all e in
          let same = key_unique t col w.orders x.id o.id x y all there stored (has_key ∙ sym key) in
          (
            x,
            e,
            same,
            ap (found_or y) (sym there ∙ ap (Repository.get t col w.orders) same ∙ stored),
          )

  found_replays :
      (q : Request p) (k : String) (w : World t col p) (x : Order)
      → Repository.find_by_idempotency_key t col w.orders k ≡ returned (some x)
      → create_with t col p q (some k) w ≡ (returned x, w)
  unfolding find_key
  found_replays q k w x e = ap (λ f. continue (replay_or_reserve t col p q k) f w) e

  -- A booking that has returned an order under a key: any later booking request with that key, for
  -- whatever offer, returns an order with the same id and changes nothing at all.
  pub create_booking_replay :
      (r q : Request p) (k : String) (w w' : World t col p) (o : Order)
      → HoldsNormal t col w.orders
      → truthy r.idempotency_key ≡ some k
      → truthy q.idempotency_key ≡ some k
      → create_booking t col p r w ≡ (returned o, w')
      → (x : Order) × (create_booking t col p q w' ≡ (returned x, w')) × (x.id ≡ o.id)
  unfolding create_booking
  create_booking_replay r q k w w' o all er eq e =
      let run : create_with t col p r (some k) w ≡ (returned o, w') =
        ap (λ m. create_with t col p r m w) (sym er) ∙ e in
      let (all', y, stored, key, _) =
        subst (Kept t col p normal k) run (create_with-Kept t col p normal r k w all) in
      let (x, found, same, _) = kept_found k w' o y all' stored key in
      (x, ap (λ m. create_with t col p q m w') eq ∙ found_replays q k w' x found, same)

  -- The order that was returned under a key is what is stored, and what a repeated request gets.
  pub create_booking-again :
      (r q : Request p) (k : String) (w w' : World t col p) (o : Order)
      → HoldsNormal t col w.orders
      → truthy r.idempotency_key ≡ some k
      → truthy q.idempotency_key ≡ some k
      → create_booking t col p r w ≡ (returned o, w')
      → (y : Order) × (Repository.get t col w'.orders o.id ≡ returned (some y))
        × (create_booking t col p q w' ≡ (returned y, w'))
        × IsStoredAs t col p normal o y
  unfolding create_booking
  create_booking-again r q k w w' o all er eq e =
      let (all', y, stored, key, kept) =
        create_booking-Kept t col p normal r k w w' o all er (unfold create_booking in e) in
      let (x, found, _, same) = kept_found k w' o y all' stored key in
      (
        y,
        stored,
        ap (λ m. create_with t col p q m w') eq
            ∙ found_replays q k w' x found
            ∙ ap (λ z. (returned z, w')) same,
        kept,
      )
