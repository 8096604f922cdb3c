-- ===== src/Bookings/Saga/Booking/Undone.antt =====
-- What the booking saga of flydesk/bookings/saga.py leaves behind when a step fails.
use fly_desk.Prelude.{◌≡◌, refl, ap, ◌∙◌, String, true, none, some, [], ◌∷◌}
use fly_desk.Errors.{Exception, is_exception, returned, raised}
use fly_desk.Domain.Models.{Order}
use fly_desk.Bookings.Saga.{Ended, SagaStep, saga_error, run, compensate, failed}
use fly_desk.Bookings.Saga.Steps.{IsCaught, round_done, round_failed, compensated}
use fly_desk.Bookings.Saga.Booking.{
  Services, Context, set_order, set_payment, ended, reserve, void, pay, refund, ticket,
  build_booking_saga,
}

module _ (v : Services) (ctx : Context v) (o : Order) (env1 : v.Env) (e : Exception)
    (reserved : v.reserve ctx.offer_id ctx.passengers ctx.env ≡ (returned o, env1))
    (caught : is_exception e ≡ true) where
  abbrev with_order : v.Env → Context v
  with_order env = record ctx { order = some o; env = env }

  abbrev with_payment : String → v.Env → Context v
  with_payment i env = record ctx { order = some o; payment_id = some i; env = env }

  abbrev first : SagaStep (Context v)
  first = record { name = "reserve"; action = reserve v; compensation = some (void v) }

  abbrev second : SagaStep (Context v)
  second = record { name = "pay"; action = pay v; compensation = some (refund v) }

  abbrev third : SagaStep (Context v)
  third = record { name = "ticket"; action = ticket v; compensation = none }

  -- A reservation was made and the charge fails: the saga voids that reservation, refunds nothing,
  -- and reports the step, also when the void itself fails.
  pub pay_failure_voided :
      (env2 env3 : v.Env) (r : Ended)
      → v.charge o.total o.id env1 ≡ (raised e, env2)
      → v.void o.provider_order_id env2 ≡ (r, env3)
      → IsCaught r
      → run (build_booking_saga v) ctx ≡ (saga_error "pay" e, with_order env3)
  unfolding build_booking_saga reserve pay void run compensate
  pay_failure_voided env2 env3 r charged voided fine =
      round_done first (second ∷ third ∷ []) [] ctx (with_order env1)
        (ap (set_order v ctx) reserved)
      ∙ round_failed second (third ∷ []) (first ∷ []) (with_order env1) (with_order env2) e
          (ap (set_payment v (with_order env1)) charged) caught
      ∙ ap (λ (x : Ended × Context v). (failed "pay" e x.0, x.1))
          (compensated first [] (void v) (with_order env2) (with_order env3) r refl
            (ap (ended v (with_order env2)) voided) fine)

  -- A reservation was made and paid, and the ticket cannot be issued: the saga refunds that payment,
  -- then voids that reservation, and reports the step, also when either of the two fails.
  pub ticket_failure_undone :
      (i : String) (env2 env3 env4 env5 : v.Env) (q r : Ended)
      → v.charge o.total o.id env1 ≡ (returned i, env2)
      → v.issue o env2 ≡ (raised e, env3)
      → v.refund i env3 ≡ (q, env4)
      → IsCaught q
      → v.void o.provider_order_id env4 ≡ (r, env5)
      → IsCaught r
      → run (build_booking_saga v) ctx ≡ (saga_error "ticket" e, with_payment i env5)
  unfolding build_booking_saga reserve pay ticket refund void run compensate
  ticket_failure_undone i env2 env3 env4 env5 q r charged issued refunded fine_q voided fine_r =
      round_done first (second ∷ third ∷ []) [] ctx (with_order env1)
        (ap (set_order v ctx) reserved)
      ∙ round_done second (third ∷ []) (first ∷ []) (with_order env1) (with_payment i env2)
          (ap (set_payment v (with_order env1)) charged)
      ∙ round_failed third [] (first ∷ second ∷ []) (with_payment i env2) (with_payment i env3) e
          (ap (set_order v (with_payment i env2)) issued) caught
      ∙ ap (λ (x : Ended × Context v). (failed "ticket" e x.0, x.1))
          (compensated second (first ∷ []) (refund v) (with_payment i env3) (with_payment i env4) q
              refl (ap (ended v (with_payment i env3)) refunded) fine_q
            ∙ compensated first [] (void v) (with_payment i env4) (with_payment i env5) r refl
                (ap (ended v (with_payment i env4)) voided) fine_r)
