-- ===== src/Bookings/Desk.antt =====
-- flydesk/bookings/services.py on the provider that flydesk/providers/base.py chooses, which for Duffel
-- is flydesk/providers/duffel/client.py: the booking use-case down to the calls that leave the program.
pub mod Orders
use fly_desk.Prelude.{ℕ, ◌+◌, String, Option, List, [], ◌∷◌}
use fly_desk.Errors.{Outcome, returned, raised}
use fly_desk.Errors.Actions.{Action, raise}
use fly_desk.Domain.Enums.{Provider, duffel, amadeus}
use fly_desk.Domain.Text.{CharTable}
use fly_desk.Domain.Models.{BookingPassenger, Order}
use fly_desk.Providers.Base.{get_provider, amadeus_create_order}
use fly_desk.Providers.Duffel.Payloads.{Body, no_body, search_body, order_body, Call}
use fly_desk.Providers.Duffel.Client
use fly_desk.Providers.Duffel.Client.{Http}
use fly_desk.Bookings.Service.Ports.{Platform, RedisReply}

-- Redis, `uuid`, the text functions of Python, pydantic's check of a passenger, and the settings.
pub record Backend (h : Http) : Type 1 where
  pub PassengerData : Type 0
  pub set_nx : String → ℕ → h.Env → RedisReply × h.Env
  pub uuid : h.Env → String × h.Env
  pub passenger : PassengerData → Option BookingPassenger
  pub lower : String → String
  pub repr : String → String
  -- `get_settings().provider`
  pub configured : String

module _ (t : CharTable) (h : Http) where
  abbrev pub World : Type 0
  World = Client.World h

  -- The method of the class that `get_provider` has chosen.
  abbrev pub order_at : Outcome Provider → String → List BookingPassenger → Action World Order
  order_at (raised e) id ps = raise e
  order_at (returned duffel) id ps = Client.create_order t h id ps
  order_at (returned amadeus) id ps = amadeus_create_order id ps

  module _ (b : Backend h) where
    -- `get_provider(name).create_order(offer_id, passengers)`
    unfoldable pub create_order :
        Option String → String → List BookingPassenger → Action World Order
    create_order name id ps = order_at (get_provider b.lower b.repr b.configured name) id ps

    -- What the booking use-case runs on.
    abbrev pub desk : Platform
    desk = record {
      Env = World;
      PassengerData = b.PassengerData;
      set_nx = λ k ttl w.
          let (reply, env) = b.set_nx k ttl w.env in (reply, record { env = env; sent = w.sent });
      create_order = create_order;
      uuid = λ w. let (id, env) = b.uuid w.env in (id, record { env = env; sent = w.sent });
      now = λ w. h.now w.env;
      passenger = b.passenger;
    }

-- How many orders a list of calls sends.
abbrev pub order_count : Body → ℕ
order_count no_body = 0
order_count (search_body _) = 0
order_count (order_body _) = 1

pub orders_sent : List Call → ℕ
orders_sent [] = 0
orders_sent (c ∷ rest) = order_count c.body + orders_sent rest
