-- ===== src/Examples/Sagas.antt =====
-- The theorems on the saga at services that keep a journal.
use fly_desk.Prelude.{◌≡◌, refl, String, none, some, List, [], ◌∷◌, true}
use fly_desk.Errors.{timeout, is_exception, Outcome, returned, raised}
use fly_desk.Bookings.Saga.{saga_error, run}
use fly_desk.Bookings.Saga.Laws.{nested, run-nested}
use fly_desk.Bookings.Saga.Booking.{Services, Context, build_booking_saga}
use fly_desk.Bookings.Saga.Booking.Undone.{ticket_failure_undone}
use fly_desk.Examples.Fixtures.{order_of, traveller}

-- Payment works if the last argument says so; tickets cannot be issued.
abbrev services : Outcome String → Services
services payment = record {
  Env = List String;
  reserve = λ offer_id ps env. (returned (order_of offer_id), "reserve" ∷ env);
  void = λ i env. (returned tt, "void" ∷ env);
  charge = λ m r env. (payment, "charge" ∷ env);
  refund = λ i env. (raised timeout, "refund" ∷ env);
  issue = λ o env. (raised timeout, "issue" ∷ env);
}

abbrev context : (payment : Outcome String) → Context (services payment)
context payment = record {
  offer_id = "off_1";
  passengers = traveller ∷ [];
  order = none;
  payment_id = none;
  env = [];
}

timeout-caught : is_exception timeout ≡ true
unfolding is_exception
timeout-caught = refl

abbrev paid : Outcome String
paid = returned "pay_1"

abbrev refused : Outcome String
refused = raised timeout

run-nested_example :
    run (build_booking_saga (services paid)) (context paid)
    ≡ nested (build_booking_saga (services paid)) (context paid)
run-nested_example = run-nested (build_booking_saga (services paid)) (context paid)

ticket_failure_undone_example : run (build_booking_saga (services paid)) (context paid) ≡ (
  saga_error "ticket" timeout,
  record (context paid) {
    order = some (order_of "off_1");
    payment_id = some "pay_1";
    env = "void" ∷ "refund" ∷ "issue" ∷ "charge" ∷ "reserve" ∷ [];
  },
)
ticket_failure_undone_example =
    ticket_failure_undone (services paid) (context paid) (order_of "off_1") ("reserve" ∷ []) timeout
      refl timeout-caught "pay_1" ("charge" ∷ "reserve" ∷ []) ("issue" ∷ "charge" ∷ "reserve" ∷ [])
      ("refund" ∷ "issue" ∷ "charge" ∷ "reserve" ∷ [])
      ("void" ∷ "refund" ∷ "issue" ∷ "charge" ∷ "reserve" ∷ []) (raised timeout) (returned tt) refl
      refl refl timeout-caught refl tt
