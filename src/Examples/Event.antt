-- ===== src/Examples/Event.antt =====
-- The theorems on events at a small outbox, with a broker in memory.
use mathlib.Core.Option.{some-injective}
use fly_desk.Prelude.{
  ℕ, true, Bool, ◌≡◌, refl, sym, ap, ◌∙◌, String, false, ◌&&◌, ◌||◌, none, some, List, [], ◌∷◌,
  str_eq, eq_refl, if◌then◌else◌, Bool-cases, inl, inr,
}
use fly_desk.Errors.{timeout, Outcome, returned, raised}
use fly_desk.Domain.Time.{aware}
use fly_desk.Domain.Models.{Order}
use fly_desk.Bookings.Document.RoundTrip.{IsNormal}
use fly_desk.Bookings.Repository
use fly_desk.Bookings.Document.{reload, to_doc}
use fly_desk.Bookings.Repository.{has_unpublished}
use fly_desk.Bookings.Repository.Laws.{get-save}
use fly_desk.Bookings.Service.{booking_confirmed_event}
use fly_desk.Events.{Message, Broker, publish_in_memory}
use fly_desk.Events.Dedupe.{Processed, mark_if_new}
use fly_desk.Events.Relay
use fly_desk.Events.Relay.{message_of, stamp, send, relay_events, relay_order}
use fly_desk.Events.Relay.Laws.{pending, AllAbout, send_all, Did, relay_events_lem}
use fly_desk.Events.Consumers
use fly_desk.Events.Consumers.{
  Event, once, handle_ticketing, handle_notification, handle_audit, consume, issue, is_ticketed,
  ticket, announce, with_order,
}
use fly_desk.Events.Consumers.Idempotence.{redelivery_ignored, failed_ticketing_lost}
use fly_desk.Events.Overlap.{overlap}
use fly_desk.Events.Overlap.Lost.{AsRead, overlap_loses_ticket}
use fly_desk.Prelude.Options.{traverse}
use fly_desk.Bookings.Document.{
  load_slice, load_place, load_segment, load_carrier, load_operating, dump_slice, dump_slices,
  to_order,
}
use fly_desk.Domain.Models.{stops, make_carrier, make_place, make_slice}
use fly_desk.Domain.Codes.{airport_code, carrier_code, currency_iso4217}
use fly_desk.Domain.Text.{strip, lstrip, rstrip, upper, isalpha, isalnum, all}
use fly_desk.Domain.Money.{
  make_money, dump_money, load_money, amount_as_str, decimal_of, round_half_even,
}
use fly_desk.Domain.Enums.{provider_value}
use fly_desk.Events.{topic_for}
use fly_desk.Examples.Store.{orders, no_orders}
use fly_desk.Examples.Fixtures.{ascii, letter, digit, order_of, order_of-IsNormal}

abbrev pub memory : Broker
memory = record {
  Env = List Message;
  publish = publish_in_memory;
  now = λ e. aware 60 60;
  uuid = λ e. ("evt_2", e);
}

-- A broker that cannot be reached.
abbrev down : Broker
down = record {
  Env = List Message;
  publish = λ m e. (raised timeout, e);
  now = λ e. aware 60 60;
  uuid = λ e. ("evt_2", e);
}

abbrev is_seen : List (String × String) → String → String → Bool
is_seen [] consumer event_id = false
is_seen ((c, i) ∷ l) consumer event_id =
    (str_eq c consumer && str_eq i event_id) || is_seen l consumer event_id

abbrev pub processed : Processed
processed = record {
  State = List (String × String);
  seen = is_seen;
  insert_one = λ s c i. if is_seen s c i then none else some ((c, i) ∷ s);
  insert_one-some = λ s s' c i h. elim (Bool-cases (is_seen s c i)) [
    | inl hit ↦ let bad : none ≡ some s' = simp hit at h in cc
    | inr miss ↦
        let same : (c, i) ∷ s ≡ s' = some-injective _ _ (simp miss at h) in
        ap (λ u. is_seen u c i) (sym same) ∙ simp (eq_refl c, eq_refl i)
  ];
  insert_one-none = λ s c i h. elim (Bool-cases (is_seen s c i)) [
    | inl hit ↦ hit
    | inr miss ↦ let bad : some ((c, i) ∷ s) ≡ none = simp miss at h in cc
  ];
  insert_one-seen = λ s c i h. simp h;
}

abbrev pub booked : Order
booked = record (order_of "off_1") {
  outbox = booking_confirmed_event "evt_1" (aware 0 0) (order_of "off_1") ∷ [];
}

pub booked-IsNormal : IsNormal ascii booked
booked-IsNormal = record {
  currency = (order_of-IsNormal "off_1").currency;
  slices = (order_of-IsNormal "off_1").slices;
}

abbrev idle : Relay.World orders memory
idle = record { orders = no_orders; env = []; sent = 0 }

relay_events_lem_example :
    (ms : List Message) × AllAbout booked (pending booked.outbox) ms
    × Did orders memory booked.outbox
        (relay_events orders memory booked booked.outbox idle)
        (send_all orders memory ms idle)
relay_events_lem_example = relay_events_lem orders memory booked booked.outbox idle

abbrev relayed : Relay.World orders memory
relayed = (relay_order ascii orders memory booked idle).1

first_relay : relay_order ascii orders memory booked idle ≡ (returned 1, relayed)
unfolding relay_order relay_events send publish_in_memory booking_confirmed_event Repository.save
first_relay = refl

abbrev confirmed_event : Event
confirmed_event = record {
  id = "evt_1";
  kind = "BookingConfirmed";
  payload = (booking_confirmed_event "evt_1" (aware 0 0) (order_of "off_1")).payload;
}

abbrev desk_world : Consumers.World ascii orders processed memory
desk_world = record { orders = no_orders; processed = []; env = []; audit = []; tickets = 0 }

redelivery_ignored_example :
    (let w = (handle_ticketing ascii orders processed memory confirmed_event desk_world).1 in
      handle_ticketing ascii orders processed memory confirmed_event w ≡ (returned false, w))
    × (let w = (handle_notification ascii orders processed memory confirmed_event desk_world).1 in
        handle_notification ascii orders processed memory confirmed_event w ≡ (returned false, w))
    × (let w = (handle_audit ascii orders processed memory confirmed_event desk_world).1 in
        handle_audit ascii orders processed memory confirmed_event w ≡ (returned false, w))
redelivery_ignored_example =
    redelivery_ignored ascii orders processed memory confirmed_event confirmed_event desk_world refl

abbrev with_booked : Consumers.World ascii orders processed down
with_booked = record { orders = relayed.orders; processed = []; env = []; audit = []; tickets = 0 }

abbrev stamped : Order
stamped = record booked {
  outbox =
      stamp (aware 60 60) (booking_confirmed_event "evt_1" (aware 0 0) (order_of "off_1")) ∷ [];
}

stamped-IsNormal : IsNormal ascii stamped
stamped-IsNormal = record {
  currency = (order_of-IsNormal "off_1").currency;
  slices = (order_of-IsNormal "off_1").slices;
}

stamped-saved : Repository.save ascii orders no_orders stamped ≡ some relayed.orders
unfolding relay_order relay_events send publish_in_memory booking_confirmed_event Repository.save
stamped-saved = refl

abbrev after_failure : Consumers.World ascii orders processed down
after_failure =
    (ticket ascii orders processed down "off_1" (reload stamped) false
      (record with_booked { processed = ("ticketing", "evt_1") ∷ [] })).1

announcement_fails :
    handle_ticketing ascii orders processed down confirmed_event with_booked
    ≡ (raised timeout, after_failure)
unfolding handle_ticketing once mark_if_new ticket announce issue is_ticketed
    booking_confirmed_event Repository.save reload relay_order publish_in_memory to_doc
announcement_fails =
    ap
      (λ r.
        with_order ascii orders processed down "off_1" r
          (record with_booked { processed = ("ticketing", "evt_1") ∷ [] }))
      (get-save ascii orders no_orders relayed.orders stamped "off_1" stamped-IsNormal
        stamped-saved)

failed_ticketing_lost_example :
    (consume ascii orders processed down confirmed_event with_booked
      ≡ (raised timeout, after_failure))
    × ((consume ascii orders processed down confirmed_event after_failure).1.env
        ≡ after_failure.env)
failed_ticketing_lost_example =
    failed_ticketing_lost ascii orders processed down confirmed_event with_booked after_failure
      timeout announcement_fails

abbrev booked_world : Consumers.World ascii orders processed memory
booked_world = record {
  orders = (relay_order ascii orders memory booked idle).1.orders;
  processed = [];
  env = [];
  audit = [];
  tickets = 0;
}

abbrev overlapped : Outcome ℕ × Outcome Bool × Consumers.World ascii orders processed memory
overlapped = overlap ascii orders processed memory 0 booked confirmed_event booked_world

relay_ends_well : overlapped.0 ≡ returned 1
unfolding overlap relay_order relay_events message_of stamp topic_for send publish_in_memory
    booking_confirmed_event Repository.save Repository.get Repository.load handle_ticketing
    mark_if_new once ticket announce is_ticketed issue traverse load_slice load_place load_segment
    load_carrier load_operating dump_slice dump_slices stops make_carrier make_place make_slice
    airport_code carrier_code currency_iso4217 letter digit strip lstrip rstrip upper isalpha
    isalnum all provider_value make_money dump_money load_money amount_as_str decimal_of
    round_half_even to_doc to_order
relay_ends_well = refl

overlap_loses_ticket_example :
    AsRead ascii orders processed memory booked overlapped.2.orders
    × (handle_ticketing ascii orders processed memory confirmed_event overlapped.2
        ≡ (returned false, overlapped.2))
overlap_loses_ticket_example =
    overlap_loses_ticket ascii orders processed memory 0 0 booked confirmed_event booked_world
      booked-IsNormal relay_ends_well

-- One ticket has been issued and announced in this run.
ticket_was_issued : (overlapped.1 ≡ returned true) × (overlapped.2.tickets ≡ 1)
unfolding overlap relay_order relay_events message_of stamp topic_for send publish_in_memory
    booking_confirmed_event Repository.save Repository.get Repository.load handle_ticketing
    mark_if_new once ticket announce is_ticketed issue traverse load_slice load_place load_segment
    load_carrier load_operating dump_slice dump_slices stops make_carrier make_place make_slice
    airport_code carrier_code currency_iso4217 letter digit strip lstrip rstrip upper isalpha
    isalnum all provider_value make_money dump_money load_money amount_as_str decimal_of
    round_half_even to_doc to_order
ticket_was_issued = (refl, refl)
