-- ===== src/Bookings/Desk/Orders.antt =====
-- What a booking of flydesk/bookings/services.py sends to Duffel through
-- flydesk/providers/duffel/client.py.
use fly_desk.Prelude.{
  ℕ, ◌+◌, ◌≤◌, ◌≡◌, refl, ap, String, inl, inr, some, List, [], ◌∷◌, ◌++◌, arith,
}
use fly_desk.Errors.{Outcome, returned, raised}
use fly_desk.Domain.Enums.{Provider, duffel, amadeus}
use fly_desk.Domain.Text.{CharTable, IsUnicode}
use fly_desk.Domain.Models.{BookingPassenger, Order}
use fly_desk.Mongo.{Collection}
use fly_desk.Bookings.Repository.{id_of, index_field}
use fly_desk.Providers.Base.{get_provider, amadeus_create_order}
use fly_desk.Providers.Duffel.Payloads.{Call}
use fly_desk.Providers.Duffel.Client
use fly_desk.Providers.Duffel.Client.{Http}
use fly_desk.Providers.Duffel.Client.Posts.{Posted, create_order_posts, Made, create_order-Made}
use fly_desk.Bookings.Service
use fly_desk.Bookings.Service.{Request, create_booking, truthy}
use fly_desk.Bookings.Service.Ports.{IsReliable}
use fly_desk.Bookings.Schedule.{System, run, IsStart}
use fly_desk.Bookings.Schedule.Same.{same_key_orders_once}
use fly_desk.Prelude.Lists.{All}
use fly_desk.Bookings.Service.Calls.{CountsOrders, create_booking-count}
use fly_desk.Bookings.Service.Kept.{GivesNormal}
use fly_desk.Bookings.Desk.{Backend, World, order_at, create_order, desk, orders_sent}

orders_sent-append : (a b : List Call) → orders_sent (a ++ b) ≡ orders_sent a + orders_sent b
unfolding orders_sent
orders_sent-append [] b = omega arith
orders_sent-append (c ∷ a) b = omega (arith, orders_sent-append a b)

module _ (t : CharTable) (h : Http) where
  abbrev orders_of : World t h → ℕ
  orders_of w = orders_sent w.sent

  Posted-one :
      (id : String) (ps : List BookingPassenger) (w : World t h) (x : Outcome Order × World t h)
      → Posted t h id ps w x
      → orders_of x.1 ≤ orders_of w + 1
  unfolding orders_sent
  Posted-one id ps w (res, w') (inl (e, fetched, failed, sent)) =
      rw sent (omega (arith, orders_sent-append w.sent _))
  Posted-one id ps w (res, w') (inr (offer, v, fetched, payload, sent, _)) =
      rw sent (omega (arith, orders_sent-append w.sent _))

  order_at-one :
      (chosen : Outcome Provider) (id : String) (ps : List BookingPassenger) (w : World t h)
      → orders_of (order_at t h chosen id ps w).1 ≤ orders_of w + 1
  order_at-one (raised e) id ps w = omega arith
  order_at-one (returned duffel) id ps w =
      Posted-one id ps w (Client.create_order t h id ps w) (create_order_posts t h id ps w)
  order_at-one (returned amadeus) id ps w = unfold amadeus_create_order in omega arith

  module _ (b : Backend h) where
    desk-CountsOrders : CountsOrders (desk t h b) orders_of
    unfolding create_order
    desk-CountsOrders = record {
      redis_apart = λ k ttl w. refl;
      uuid_apart = λ w. refl;
      one_order =
          λ name id ps w. order_at-one (get_provider b.lower b.repr b.configured name) id ps w;
    }

    -- However a booking ends, and whatever Redis, the database and Duffel answer, it has sent at most
    -- one order to Duffel.
    pub booking_posts_once :
        (col : Collection id_of index_field) (r : Request (desk t h b))
        (w : Service.World t col (desk t h b))
        → orders_sent (create_booking t col (desk t h b) r w).1.env.sent
          ≤ orders_sent w.env.sent + 1
    booking_posts_once col r w =
        create_booking-count t col (desk t h b) orders_of desk-CountsOrders r w

    -- Requests with one idempotency key that start together send at most one order to Duffel, however
    -- many they are, however their steps interleave and however they end, as long as Redis answers
    -- and keeps its keys.
    pub crowd_posts_once :
        (col : Collection id_of index_field) (k : String)
        → IsReliable (desk t h b)
        → (schedule : List ℕ) (s : System t col (desk t h b)) → IsStart t col (desk t h b) s
        → All (λ th. truthy th.request.idempotency_key ≡ some k) s.threads
        → orders_sent (run t col (desk t h b) schedule s).world.env.sent
          ≤ orders_sent s.world.env.sent + 1
    crowd_posts_once col k redis schedule s fresh keys =
        same_key_orders_once t col (desk t h b) orders_of desk-CountsOrders k redis schedule s fresh
          keys

    order_at-Made :
        IsUnicode t
        → (chosen : Outcome Provider) (id : String) (ps : List BookingPassenger) (w : World t h)
          (o : Order)
        → (order_at t h chosen id ps w).0 ≡ returned o
        → Made t h ps o
    order_at-Made u (raised e) id ps w o eq = cc
    order_at-Made u (returned duffel) id ps w o eq =
        create_order-Made t h u id ps w (Client.create_order t h id ps w).1 o
          (ap (λ res. (res, (Client.create_order t h id ps w).1)) eq)
    order_at-Made u (returned amadeus) id ps w o eq = absurd (unfold amadeus_create_order in cc)

    -- The orders that reach the database are well-formed.
    pub desk-GivesNormal : IsUnicode t → GivesNormal t (desk t h b)
    unfolding create_order
    desk-GivesNormal u name id ps w o e =
        (order_at-Made u (get_provider b.lower b.repr b.configured name) id ps w o e).normal
