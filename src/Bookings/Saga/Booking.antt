-- ===== src/Bookings/Saga/Booking.antt =====
-- The booking saga of flydesk/bookings/saga.py: reserve, pay, ticket. The three services are
-- parameters, and so is the world that they act on.
pub mod Undone
use fly_desk.Prelude.{String, Option, none, some, List, [], ◌∷◌}
use fly_desk.Errors.{Exception, other, Outcome, returned, raised}
use fly_desk.Domain.Money.{Money}
use fly_desk.Domain.Models.{BookingPassenger, Order}
use fly_desk.Bookings.Saga.{Ended, Action, SagaStep}

pub record Services : Type 1 where
  pub Env : Type 0
  pub reserve : String → List BookingPassenger → Env → Outcome Order × Env
  pub void : String → Env → Ended × Env
  -- `charge(amount, reference=...)`
  pub charge : Money → String → Env → Outcome String × Env
  pub refund : String → Env → Ended × Env
  pub issue : Order → Env → Outcome Order × Env

-- The keys of the context that the steps use.
pub record Context (v : Services) : Type 0 where
  pub offer_id : String
  pub passengers : List BookingPassenger
  pub order : Option Order
  pub payment_id : Option String
  -- the world beside the context
  pub env : v.Env

module _ (v : Services) where
  abbrev pub set_order : Context v → Outcome Order × v.Env → Ended × Context v
  set_order ctx (returned o, env) = (returned tt, record ctx { order = some o; env = env })
  set_order ctx (raised e, env) = (raised e, record ctx { env = env })

  abbrev pub set_payment : Context v → Outcome String × v.Env → Ended × Context v
  set_payment ctx (returned i, env) = (returned tt, record ctx { payment_id = some i; env = env })
  set_payment ctx (raised e, env) = (raised e, record ctx { env = env })

  abbrev pub ended : Context v → Ended × v.Env → Ended × Context v
  ended ctx (r, env) = (r, record ctx { env = env })

  -- `ctx["order"]` on a context without an order
  abbrev pub key_error : Context v → Ended × Context v
  key_error ctx = (raised (other "KeyError"), ctx)

  unfoldable pub reserve : Action (Context v)
  reserve ctx = set_order ctx (v.reserve ctx.offer_id ctx.passengers ctx.env)

  unfoldable pub void : Action (Context v)
  void ctx = elim ctx.order [
    | none ↦ (returned tt, ctx)
    | some order ↦ ended ctx (v.void order.provider_order_id ctx.env)
  ]

  unfoldable pub pay : Action (Context v)
  pay ctx = elim ctx.order [
    | none ↦ key_error ctx
    | some order ↦ set_payment ctx (v.charge order.total order.id ctx.env)
  ]

  unfoldable pub refund : Action (Context v)
  refund ctx = elim ctx.payment_id [
    | none ↦ (returned tt, ctx)
    | some payment_id ↦ ended ctx (v.refund payment_id ctx.env)
  ]

  unfoldable pub ticket : Action (Context v)
  ticket ctx = elim ctx.order [
    | none ↦ key_error ctx
    | some order ↦ set_order ctx (v.issue order ctx.env)
  ]

  unfoldable pub build_booking_saga : List (SagaStep (Context v))
  build_booking_saga =
      record { name = "reserve"; action = reserve; compensation = some void }
      ∷ record { name = "pay"; action = pay; compensation = some refund }
      ∷ record { name = "ticket"; action = ticket; compensation = none }
      ∷ []
