-- ===== src/Bookings/Service/Fresh.antt =====
-- A booking with a key that is not in use yet.
use Prim.Native.String.{◌++◌}
use fly_desk.Prelude.{◌+◌, ◌≡◌, refl, ap, ◌∙◌, String, true, Option, none, some, List, [], ◌∷◌}
use fly_desk.Prelude.Options.{traverse}
use fly_desk.Errors.{Outcome, returned}
use fly_desk.Domain.Text.{CharTable}
use fly_desk.Domain.Models.{BookingPassenger, Order}
use fly_desk.Mongo.{Collection}
use fly_desk.Bookings.Repository.Fresh.{save-fresh}
use fly_desk.Bookings.Repository
use fly_desk.Bookings.Repository.{id_of, index_field}
use fly_desk.Bookings.Service.Ports.{Platform}
use fly_desk.Bookings.Service.{
  World, Request, booking_confirmed_event, truthy, stage, continue, find_key, reserve, checked,
  call_provider, stage_event, place_order, persist, saved, book, create_with, create_booking,
  replay_or_reserve, book_or_recheck, granted_reply, reservation_ttl, ◌>>=◌,
}

module _ (t : CharTable) (col : Collection id_of index_field) (p : Platform) where
  -- The world of a platform after the reservation of a key.
  abbrev pub reserved_env : String → p.Env → p.Env
  reserved_env k e = (p.set_nx ("idem:" ++ k) reservation_ttl e).1

  -- When the key is not in use and Redis does not refuse it, the passengers are valid and the provider
  -- makes an order, the booking is made: the order is returned, with its event and its key, and saved.
  pub create_booking-fresh :
      (r : Request p) (k : String) (ps : List BookingPassenger) (o : Order) (w : World t col p)
      (e : p.Env)
      → truthy r.idempotency_key ≡ some k
      → Repository.find_by_idempotency_key t col w.orders k ≡ returned none
      → granted_reply t col p (p.set_nx ("idem:" ++ k) reservation_ttl w.env).0 ≡ true
      → traverse p.passenger r.passengers_data ≡ some ps
      → p.create_order r.provider_name r.offer_id ps (reserved_env k w.env) ≡ (returned o, e)
      → let (event_id, e') = p.uuid e in
        let made = stage (some k) (booking_confirmed_event event_id (p.now e') o) o in
        (s : col.State) × (Repository.save t col w.orders made ≡ some s)
        × (create_booking t col p r w
            ≡ (returned made, record { orders = s; env = e'; bookings = w.bookings + 1 }))
  unfolding create_booking find_key reserve book place_order call_provider stage_event persist stage
  create_booking-fresh r k ps o w e keyed unused granted valid made =
      let w1 = record w { env = reserved_env k w.env } in
      let booked_order = order_made o e k in
      let (s, stored) = save-fresh t col w.orders k booked_order unused refl in
      (
        s,
        stored,
        ap (λ m. create_with t col p r m w) keyed
            ∙ ap (λ found. continue (replay_or_reserve t col p r k) found w) unused
            ∙ ap (λ free. book_or_recheck t col p r k free w1) granted
            ∙ ap (λ l. book_with r k l w1) valid
            ∙ ap (λ x. with_order r k w1 x) made
            ∙ ap (λ x. saved t col p (some k) booked_order x (record w { env = (p.uuid e).1 }))
                stored,
      )
    where
      order_made : Order → p.Env → String → Order
      order_made o e k = record o {
        outbox = booking_confirmed_event (p.uuid e).0 (p.now (p.uuid e).1) o ∷ [];
        idempotency_key = some k;
      }

      with_order :
          Request p → String → World t col p → Outcome Order × p.Env → Outcome Order × World t col p
      with_order r k v (x, e) =
          let (y, v') = continue (stage_event t col p (some k)) x (record v { env = e }) in
          continue (persist t col p (some k)) y v'

      book_with :
          Request p
          → String
          → Option (List BookingPassenger)
          → World t col p
          → Outcome Order × World t col p
      book_with r k l v =
          let (ps, v1) = checked t col p l v in
          let (y, v') =
            continue
              (λ qs.
                call_provider t col p r.provider_name r.offer_id qs
                >>= stage_event t col p (some k))
              ps v1 in
          continue (persist t col p (some k)) y v'
