-- ===== src/Examples/Booking.antt =====
-- The theorems on bookings at sample requests.
use mathlib.Core.Path.{subst}
use fly_desk.Prelude.{
  ◌≡◌, refl, String, Bool, true, false, Option, none, some, [], ◌∷◌, str_eq, eq_iff,
}
use fly_desk.Prelude.Options.{traverse}
use fly_desk.Errors.{
  domain, init, offer_expired, booking_in_progress, duplicate_key, returned, raised,
}
use fly_desk.Domain.Models.{Order}
use fly_desk.Bookings.Document.{to_doc, to_order, reload}
use fly_desk.Bookings.Document.RoundTrip.{IsNormal, to_order-to_doc}
use fly_desk.Bookings.Repository
use fly_desk.Bookings.Repository.{HoldsNormal}
use fly_desk.Bookings.Repository.Laws.{get-save, save-HoldsNormal}
use fly_desk.Bookings.Service.{
  World, Request, truthy, find_key, reserve, stage, booking_confirmed_event, call_provider,
  stage_event, place_order, persist, book, create_booking,
}
use fly_desk.Bookings.Service.Effects.{create_booking-Effect, Effect}
use fly_desk.Bookings.Service.Kept.{GivesNormal}
use fly_desk.Bookings.Service.Replay.{create_booking_replay}
use fly_desk.Bookings.Service.Refusal.{keyless_refused}
use fly_desk.Bookings.Service.Blocked.{failed_booking_blocks, reserved}
use fly_desk.Bookings.Service.Phases.{looking}
use fly_desk.Bookings.Schedule.{Thread, System}
use fly_desk.Examples.Store.{orders, no_orders}
use fly_desk.Examples.Fixtures.{
  ascii, order_of, order_of-IsNormal, desk, desk-IsReliable, traveller, sold,
}

abbrev pub quiet : World ascii orders desk
quiet = record { orders = no_orders; env = []; bookings = 0 }

abbrev pub ask : String → Option String → Request desk
ask offer_id key = record {
  offer_id = offer_id;
  passengers_data = some traveller ∷ [];
  idempotency_key = key;
  provider_name = none;
}

pub none-HoldsNormal : HoldsNormal ascii orders no_orders
none-HoldsNormal i d h = cc

create_booking-Effect_example :
    Effect ascii orders desk quiet
      (create_booking ascii orders desk (ask "off_1" (some "k1")) quiet)
create_booking-Effect_example =
    create_booking-Effect ascii orders desk (ask "off_1" (some "k1")) quiet

sold-IsNormal :
    (gone : Bool) (offer_id : String) (o : Order)
    → sold gone offer_id ≡ returned o
    → IsNormal ascii o
sold-IsNormal true offer_id o h = cc
sold-IsNormal false offer_id o h =
    let same : order_of offer_id ≡ o = cc in
    subst (IsNormal ascii) same (order_of-IsNormal offer_id)

pub desk-GivesNormal : GivesNormal ascii desk
desk-GivesNormal name offer_id ps e o h = sold-IsNormal (str_eq offer_id "gone") offer_id o h

abbrev pub after : World ascii orders desk
after = (create_booking ascii orders desk (ask "off_1" (some "k1")) quiet).1

abbrev pub booked : Order
booked =
    stage (some "k1") (booking_confirmed_event "evt_1" (desk.now []) (order_of "off_1"))
      (order_of "off_1")

pub first_booking :
    create_booking ascii orders desk (ask "off_1" (some "k1")) quiet ≡ (returned booked, after)
unfolding create_booking truthy find_key reserve book place_order call_provider stage_event persist
    traverse Repository.save Repository.load Repository.find_by_idempotency_key
first_booking = refl

create_booking_replay_example :
    (x : Order) × (create_booking ascii orders desk (ask "off_2" (some "k1")) after
      ≡ (returned x, after))
    × (x.id ≡ booked.id)
unfolding truthy
create_booking_replay_example =
    create_booking_replay ascii orders desk desk-GivesNormal (ask "off_1" (some "k1"))
      (ask "off_2" (some "k1")) "k1" quiet after booked none-HoldsNormal refl refl first_booking

failed_booking_blocks_example :
    (create_booking ascii orders desk (ask "gone" (some "k1")) quiet ≡ (
      raised (domain (init offer_expired none)),
      reserved ascii orders desk desk-IsReliable "k1" quiet,
    ))
    × (create_booking ascii orders desk
          (ask "off_1" (some "k1"))
          (reserved ascii orders desk desk-IsReliable "k1" quiet)
        ≡ (
          raised (domain (init booking_in_progress none)),
          reserved ascii orders desk desk-IsReliable "k1"
              (reserved ascii orders desk desk-IsReliable "k1" quiet),
        ))
unfolding truthy place_order call_provider traverse Repository.find_by_idempotency_key
    Repository.load
failed_booking_blocks_example =
    failed_booking_blocks ascii orders desk desk-IsReliable (ask "gone" (some "k1"))
      (ask "off_1" (some "k1")) "k1" quiet (reserved ascii orders desk desk-IsReliable "k1" quiet)
      (domain (init offer_expired none)) refl refl refl refl refl

abbrev keyless : Order
keyless =
    stage none (booking_confirmed_event "evt_1" (desk.now []) (order_of "off_2")) (order_of "off_2")

abbrev first_keyless : World ascii orders desk
first_keyless = (create_booking ascii orders desk (ask "off_1" none) quiet).1

abbrev placed_keyless : Order
placed_keyless =
    stage none (booking_confirmed_event "evt_1" (desk.now []) (order_of "off_1")) (order_of "off_1")

first_keyless-saved :
    Repository.save ascii orders no_orders placed_keyless ≡ some first_keyless.orders
unfolding create_booking truthy book place_order call_provider stage_event persist traverse
    Repository.save
first_keyless-saved = refl

stage-IsNormal :
    (id : String)
    → IsNormal ascii
        (stage none (booking_confirmed_event "evt_1" (desk.now []) (order_of id)) (order_of id))
unfolding stage
stage-IsNormal id = record {
  currency = (order_of-IsNormal id).currency;
  slices = (order_of-IsNormal id).slices;
}

keyless_refused_example :
    create_booking ascii orders desk (ask "off_2" none) first_keyless
    ≡ (raised duplicate_key, first_keyless)
unfolding truthy place_order call_provider stage_event traverse stage reload
keyless_refused_example =
    keyless_refused ascii orders desk (ask "off_2" none) first_keyless first_keyless "off_1"
      (reload placed_keyless) keyless
      (save-HoldsNormal ascii orders no_orders first_keyless.orders placed_keyless none-HoldsNormal
        (stage-IsNormal "off_1") first_keyless-saved)
      (get-save ascii orders no_orders first_keyless.orders placed_keyless "off_1"
        (stage-IsNormal "off_1") first_keyless-saved)
      refl refl refl (stage-IsNormal "off_2") refl
      (λ h. let bad : false ≡ true = (eq_iff "off_2" "off_1").1 h in cc)

get-save_example :
    Repository.get ascii orders first_keyless.orders "off_1"
    ≡ returned (some (reload placed_keyless))
unfolding stage
get-save_example =
    get-save ascii orders no_orders first_keyless.orders placed_keyless "off_1"
      (stage-IsNormal "off_1") first_keyless-saved

to_order-to_doc_example :
    to_order ascii (to_doc (order_of "off_1")) ≡ some (reload (order_of "off_1"))
to_order-to_doc_example = to_order-to_doc ascii (order_of "off_1") (order_of-IsNormal "off_1")

abbrev waiting_for : String → Thread ascii orders desk
waiting_for offer_id = record { request = ask offer_id (some "k1"); phase = looking }

abbrev crowd : System ascii orders desk
crowd = record {
  world = quiet;
  threads = waiting_for "off_1" ∷ waiting_for "off_2" ∷ [];
  placed = [];
}
