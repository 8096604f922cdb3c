-- ===== src/Api/Bookings.antt =====
-- flydesk/bookings/views.py. What `CreateBookingSerializer` makes of a body is a parameter.
pub mod Twice
use fly_desk.Prelude.{String, Option, none, List}
use fly_desk.Errors.{Exception, ErrorResponse, Outcome, returned, raised}
use fly_desk.Domain.Text.{CharTable}
use fly_desk.Domain.Models.{Order}
use fly_desk.Mongo.{Collection}
use fly_desk.Bookings.Document.{OrderDoc, to_doc}
use fly_desk.Bookings.Repository.{id_of, index_field}
use fly_desk.Bookings.Service
use fly_desk.Bookings.Service.{World, Request, create_booking, get_booking}
use fly_desk.Bookings.Service.Ports.{Platform}
use fly_desk.Api.{HttpReply, dispatch}

-- The body of a booking request, after validation.
pub record BookingForm (p : Platform) : Type 0 where
  pub offer_id : String
  pub passengers : List p.PassengerData

module _ (t : CharTable) (col : Collection id_of index_field) (p : Platform)
    (default : Exception → Option ErrorResponse) where
  -- What the view asks of the use-case.
  abbrev pub request_of : BookingForm p → Option String → Request p
  request_of form key = record {
    offer_id = form.offer_id;
    passengers_data = form.passengers;
    idempotency_key = key;
    provider_name = none;
  }

  abbrev pub booked :
      Outcome (BookingForm p) → Option String → World t col p → Outcome Order × World t col p
  booked (raised e) key w = (raised e, w)
  booked (returned form) key w = create_booking t col p (request_of form key) w

  -- `BookingsView.post` on a validated body and the header `Idempotency-Key`
  unfoldable pub post :
      Outcome (BookingForm p) → Option String → World t col p → HttpReply OrderDoc × World t col p
  post validated key w = dispatch default 201 to_doc (booked validated key w)

  -- `BookingDetailView.get`. A response holds the document of the order with its id.
  unfoldable pub get : String → World t col p → HttpReply OrderDoc × World t col p
  get order_id w = dispatch default 200 to_doc (get_booking t col p order_id w.orders, w)
