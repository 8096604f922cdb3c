-- ===== src/Bookings/Document.antt =====
-- The document that an order is stored as: `Order.model_dump(mode="json")` with `id` renamed to
-- `_id`, and `Order.model_validate` of it, of flydesk/bookings/repository.py and
-- flydesk/domain/models.py. A member of an enum stands for its text, and a time or a duration for
-- its ISO 8601 text.
pub mod RoundTrip
use fly_desk.Prelude.{ℕ, String, Option, none, some, List, [], ◌∷◌}
use fly_desk.Prelude.Options.{◌>>=◌, traverse}
use fly_desk.Domain.Enums.{Provider, OrderStatus}
use fly_desk.Domain.Text.{CharTable}
use fly_desk.Domain.Money.{MoneyDoc, dump_money, load_money, reload_amount}
use fly_desk.Domain.Time.{Datetime}
use fly_desk.Domain.Models.{
  Place, make_place, Carrier, make_carrier, Segment, Slice, make_slice, stops, BookingPassenger,
  OrderEvent, OutboxEvent, Order,
}

-- `Slice.model_dump` adds the computed field.
pub record SliceDoc : Type 0 where
  pub id : String
  pub origin : Place
  pub destination : Place
  pub duration : Option ℕ
  pub segments : List Segment
  pub stops : ℕ

pub record OrderDoc : Type 0 where
  pub doc_id : String
  pub provider : Provider
  pub provider_order_id : String
  pub booking_reference : Option String
  pub status : OrderStatus
  pub total : MoneyDoc
  pub slices : List SliceDoc
  pub passengers : List BookingPassenger
  pub idempotency_key : Option String
  pub created_at : Datetime
  pub events : List OrderEvent
  pub outbox : List OutboxEvent

unfoldable pub dump_slice : Slice → SliceDoc
unfolding stops
dump_slice s = record {
  id = s.id;
  origin = s.origin;
  destination = s.destination;
  duration = s.duration;
  segments = s.segments;
  stops = stops s;
}

unfoldable pub dump_slices : List Slice → List SliceDoc
unfolding dump_slice
dump_slices [] = []
dump_slices (s ∷ rest) = dump_slice s ∷ dump_slices rest

unfoldable pub to_doc : Order → OrderDoc
unfolding dump_slices dump_money
to_doc o = record {
  doc_id = o.id;
  provider = o.provider;
  provider_order_id = o.provider_order_id;
  booking_reference = o.booking_reference;
  status = o.status;
  total = dump_money o.total;
  slices = dump_slices o.slices;
  passengers = o.passengers;
  idempotency_key = o.idempotency_key;
  created_at = o.created_at;
  events = o.events;
  outbox = o.outbox;
}

module _ (t : CharTable) where
  unfoldable pub load_place : Place → Option Place
  unfolding make_place
  load_place p = make_place t p.iata_code p.name p.city_name p.kind

  unfoldable pub load_carrier : Carrier → Option Carrier
  unfolding make_carrier
  load_carrier c = make_carrier t c.iata_code c.name

  unfoldable pub load_operating : Option Carrier → Option (Option Carrier)
  load_operating none = some none
  load_operating (some c) = load_carrier c >>= λ c'. some (some c')

  unfoldable pub load_segment : Segment → Option Segment
  load_segment s = do
    origin ← load_place s.origin
    destination ← load_place s.destination
    marketing ← load_carrier s.marketing_carrier
    operating ← load_operating s.operating_carrier
    some (record s {
      origin = origin;
      destination = destination;
      marketing_carrier = marketing;
      operating_carrier = operating;
    })

  -- `stops` is ignored.
  unfoldable pub load_slice : SliceDoc → Option Slice
  load_slice d = do
    origin ← load_place d.origin
    destination ← load_place d.destination
    segments ← traverse load_segment d.segments
    make_slice d.id origin destination d.duration segments

  -- `OrderRepository._to_order`; `none` is the `ValidationError`.
  unfoldable pub to_order : OrderDoc → Option Order
  to_order d = do
    total ← load_money t d.total
    slices ← traverse load_slice d.slices
    some (record {
      id = d.doc_id;
      provider = d.provider;
      provider_order_id = d.provider_order_id;
      booking_reference = d.booking_reference;
      status = d.status;
      total = total;
      slices = slices;
      passengers = d.passengers;
      idempotency_key = d.idempotency_key;
      created_at = d.created_at;
      events = d.events;
      outbox = d.outbox;
    })

-- What an order is after it has been stored and read back.
unfoldable pub reload : Order → Order
reload o = record o { total = record o.total { amount = reload_amount o.total.amount } }
