-- ===== src/Examples/Relays.antt =====
-- The theorems on a whole round of the relay and on the ticketing after it, at a stored order with a
-- waiting event.
use fly_desk.Prelude.{
  ℕ, zero, suc, none, some, ◌≤◌, ◌≡◌, refl, arith, Bool, true, inl, inr, List, [], ◌∷◌, Bool-cases,
}
use fly_desk.Prelude.Lists.{In, length}
use fly_desk.Errors.{returned}
use fly_desk.Bookings.Document.{OrderDoc, to_doc, reload}
use fly_desk.Bookings.Repository
use fly_desk.Bookings.Repository.{HoldsNormal, has_unpublished, is_unpublished}
use fly_desk.Bookings.Repository.Laws.{save-HoldsNormal, get-save}
use fly_desk.Bookings.Service as Service
use fly_desk.Bookings.Service.{
  booking_confirmed_event, truthy, create_booking, find_key, reserve, place_order, call_provider,
  stage_event, persist, stage,
}
use fly_desk.Prelude.Options.{traverse}
use fly_desk.Domain.Enums.{ticketed}
use fly_desk.Domain.Models.{OutboxEvent, Order}
use fly_desk.Events.Consumers as Consumers
use fly_desk.Events.Consumers.{Event, handle_ticketing}
use fly_desk.Events.Consumers.Issued.{Ticketed, ticket_issued}
use fly_desk.Events.Pipeline.{confirmation, event_of, booking_ticketed}
use fly_desk.Events.{Message, publish_in_memory}
use fly_desk.Events.Relay as Relay
use fly_desk.Events.Relay.{relay_once}
use fly_desk.Events.Relay.Taken.{TakesAll}
use fly_desk.Events.Relay.Sent.{publish_all, AllAnnounced}
use fly_desk.Events.Relay.Loading.{FindsAll, NoneWaits}
use fly_desk.Events.Relay.Drained.{relay_once_drains}
use fly_desk.Examples.Fixtures.{ascii, desk}
use fly_desk.Examples.Docs.{find_docs}
use fly_desk.Examples.Store.{Stored, orders, no_orders, found-In}
use fly_desk.Examples.Booking as Booking
use fly_desk.Examples.Booking.{none-HoldsNormal}
use fly_desk.Examples.Event.{booked, booked-IsNormal, memory, processed}

memory-TakesAll : TakesAll memory
unfolding publish_in_memory
memory-TakesAll m e = refl

-- A query that stops before its limit has gone through the whole list.
find_docs-all :
    (q : OrderDoc → Bool) (n : ℕ) (l : List OrderDoc) (d : OrderDoc)
    → suc (length (find_docs q n l)) ≤ n
    → In d l
    → q d ≡ true
    → In d (find_docs q n l)
find_docs-all q zero l d few i hit = absurd (omega (arith, few))
find_docs-all q (suc n) [] d few i hit = i
find_docs-all q (suc n) (e ∷ l) d few i hit = elim (Bool-cases (q e)) [
  | inl fits ↦ elim i [
    | inl same ↦ rw fits (inl same)
    | inr later ↦ rw fits (inr (find_docs-all q n l d (omega (arith, simp fits at few)) later hit))
  ]
  | inr misses ↦ elim i [
    | inl same ↦ cc (misses, hit, same)
    | inr later ↦ rw misses (find_docs-all q (suc n) l d (simp misses at few) later hit)
  ]
]

orders-FindsAll : FindsAll orders
orders-FindsAll s q n i d few stored hit =
    find_docs-all q n s.docs d few (found-In s i d stored).0 hit

abbrev waiting : Stored
waiting = record { docs = to_doc booked ∷ []; apart = (tt, tt) }

waiting-HoldsNormal : HoldsNormal ascii orders waiting
unfolding Repository.save to_doc
waiting-HoldsNormal =
    save-HoldsNormal ascii orders no_orders waiting booked none-HoldsNormal booked-IsNormal refl

abbrev idle : Relay.World orders memory
idle = record { orders = waiting; env = []; sent = 0 }

relay_once_drains_example :
    (n : ℕ) × (v : Relay.World orders memory) × (relay_once ascii orders memory idle
      ≡ (returned n, v))
    × (ms : List Message) × (v.env ≡ publish_all memory ms [])
    × (n ≡ length ms)
    × AllAnnounced orders waiting ms
    × NoneWaits ascii orders v.orders
    × (relay_once ascii orders memory v ≡ (returned 0, v))
    × HoldsNormal ascii orders v.orders
unfolding has_unpublished booking_confirmed_event to_doc
relay_once_drains_example =
    relay_once_drains ascii orders memory memory-TakesAll idle orders-FindsAll waiting-HoldsNormal
      (omega arith)

-- The event of the booking, as the consumers read it.
abbrev announced : Event
announced = record {
  id = "evt_1";
  kind = "BookingConfirmed";
  payload = (booking_confirmed_event "evt_1" (desk.now []) Booking.booked).payload;
}

one_waits :
    suc (length (orders.find Booking.after.orders (λ d. has_unpublished d.outbox) 100)) ≤ 100
unfolding create_booking truthy find_key reserve Service.book place_order call_provider stage_event
    persist traverse Repository.save Repository.load Repository.find_by_idempotency_key
    has_unpublished booking_confirmed_event to_doc stage
one_waits = omega arith

key_unused :
    Repository.find_by_idempotency_key ascii orders Booking.quiet.orders "k1" ≡ returned none
unfolding Repository.find_by_idempotency_key Repository.load
key_unused = refl

booking_ticketed_example :
    (event : OutboxEvent) × (Booking.booked.outbox ≡ event ∷ [])
    × (n : ℕ) × (v : Relay.World orders memory) × (relay_once ascii orders memory
          (record { orders = Booking.after.orders; env = []; sent = 0 })
        ≡ (returned n, v))
    × (ms : List Message) × (v.env ≡ publish_all memory ms [])
    × In (confirmation Booking.booked event) ms
    × (u : Consumers.World ascii orders processed memory) × (handle_ticketing ascii orders processed
          memory
          (event_of event)
          (record { orders = v.orders; processed = []; env = v.env; audit = []; tickets = 0 })
        ≡ (returned true, u))
    × (q : Order) × (Repository.get ascii orders u.orders Booking.booked.id ≡ returned (some q))
    × (q.status ≡ ticketed)
unfolding truthy booking_confirmed_event stage
booking_ticketed_example =
    booking_ticketed ascii orders desk Booking.desk-GivesNormal processed memory memory-TakesAll
      (Booking.ask "off_1" (some "k1")) "k1" Booking.quiet Booking.after Booking.booked [] 0 0 [] []
      none-HoldsNormal refl key_unused Booking.first_booking orders-FindsAll one_waits
      (((("ticketing", "evt_1") ∷ []), refl), tt)

waiting_found : Repository.get ascii orders waiting "off_1" ≡ returned (some (reload booked))
unfolding Repository.save to_doc
waiting_found = get-save ascii orders no_orders waiting booked "off_1" booked-IsNormal refl

abbrev before : Consumers.World ascii orders processed memory
before = record { orders = waiting; processed = []; env = []; audit = []; tickets = 0 }

ticket_issued_example :
    (v : Consumers.World ascii orders processed memory) × (handle_ticketing ascii orders processed
        memory announced before
      ≡ (returned true, v))
    × Ticketed ascii orders processed memory memory-TakesAll "off_1"
        (reload booked)
        (record before { processed = ("ticketing", "evt_1") ∷ [] })
        v
unfolding booking_confirmed_event stage
ticket_issued_example =
    ticket_issued ascii orders processed memory memory-TakesAll announced "off_1" (reload booked)
      before (("ticketing", "evt_1") ∷ []) waiting-HoldsNormal refl refl waiting_found
