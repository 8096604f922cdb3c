-- ===== src/Api/Bookings/Twice.antt =====
-- What a client of flydesk/bookings/views.py sees of idempotency.
use fly_desk.Prelude.{◌≡◌, sym, ap, ◌∙◌, ℕ, String, inl, inr, Option, none, some}
use fly_desk.Errors.{Exception, ErrorResponse, drf_exception_handler, Outcome, returned, raised}
use fly_desk.Domain.Text.{CharTable}
use fly_desk.Domain.Money.{MoneyDoc, dump_money-reload}
use fly_desk.Domain.Models.{Order}
use fly_desk.Mongo.{Collection}
use fly_desk.Bookings.Document.{OrderDoc, to_doc, reload}
use fly_desk.Bookings.Repository.{id_of, index_field, HoldsNormal}
use fly_desk.Bookings.Service.{World, truthy, create_booking, get_booking, then_found}
use fly_desk.Bookings.Service.Ports.{Platform}
use fly_desk.Bookings.Service.Kept.{GivesNormal, IsStoredAs}
use fly_desk.Bookings.Service.Replay.{create_booking-again}
use fly_desk.Api.{HttpReply, answered, failed, unhandled, rendered, dispatch}
use fly_desk.Api.Bookings.{BookingForm, request_of, post, get}

abbrev body_or : {Body : Type 0} → Body → HttpReply Body → Body
body_or d (answered n body) = body
body_or d (failed r) = d
body_or d (unhandled e) = d

-- Only a view that has returned answers with a body.
dispatch-eq-answered :
    {A Body S : Type 0} (default : Exception → Option ErrorResponse) (n m : ℕ) (show : A → Body)
    (x : Outcome A × S) (body : Body) (s : S)
    → dispatch default n show x ≡ (answered m body, s)
    → (a : A) × (x ≡ (returned a, s)) × (show a ≡ body)
dispatch-eq-answered default n m show (returned a, s0) body s e =
    (a, ap (λ y. (returned a, y.1)) e, ap (λ y. body_or body y.0) e)
dispatch-eq-answered default n m show (raised x, s0) body s e =
    absurd (rendered-ne x (drf_exception_handler default x) m body (ap (λ y. y.0) e))
  where
    rendered-ne :
        {Body : Type 0} (x : Exception) (r : Option ErrorResponse) (m : ℕ) (body : Body)
        → rendered x r ≡ answered m body
        → ⊥
    rendered-ne x none m body e = cc
    rendered-ne x (some r) m body e = cc

-- An order is shown as before when it has been stored and read back.
to_doc-reload : (o : Order) → to_doc (reload o) ≡ to_doc o
unfolding to_doc reload
to_doc-reload o = ap (λ (m : MoneyDoc). record (to_doc o) { total = m }) (dump_money-reload o.total)

module _ (t : CharTable) (col : Collection id_of index_field) (p : Platform)
    (default : Exception → Option ErrorResponse) (normal : GivesNormal t p) where
  -- The stored orders and those that the provider hands out are well-formed, and a booking request with
  -- an idempotency key was answered with 201 and a booking. Then the same booking is found under its
  -- id, and any valid request with that key, repeated, is answered with 201 and again that booking, and
  -- changes nothing.
  pub post_twice :
      (form form2 : BookingForm p) (key : Option String) (k : String) (w w' : World t col p)
      (doc : OrderDoc)
      → HoldsNormal t col w.orders
      → truthy key ≡ some k
      → post t col p default (returned form) key w ≡ (answered 201 doc, w')
      → (get t col p default doc.doc_id w' ≡ (answered 200 doc, w'))
        × (post t col p default (returned form2) key w' ≡ (answered 201 doc, w'))
  unfolding post get get_booking
  post_twice form form2 key k w w' doc all keyed e =
      let (o, created, shown) =
        dispatch-eq-answered default 201 201 to_doc
          (create_booking t col p (request_of t col p default form key) w) doc w' e in
      let (y, stored, replayed, kept) =
        create_booking-again t col p normal (request_of t col p default form key)
          (request_of t col p default form2 key) k w w' o all keyed keyed created in
      let id : doc.doc_id ≡ o.id = unfold to_doc in ap (λ (d : OrderDoc). d.doc_id) (sym shown) in
      let same : to_doc y ≡ doc = as_stored o y kept ∙ shown in
      (
        ap (λ i. dispatch default 200 to_doc (get_booking t col p i w'.orders, w')) id
            ∙ ap (λ r. dispatch default 200 to_doc (then_found t col p o.id r, w')) stored
            ∙ ap (λ d. (answered 200 d, w')) same,
        ap (dispatch default 201 to_doc) replayed ∙ ap (λ d. (answered 201 d, w')) same,
      )
    where
      as_stored : (o y : Order) → IsStoredAs t col p normal o y → to_doc y ≡ to_doc o
      as_stored o y (inl same) = ap to_doc same
      as_stored o y (inr same) = ap to_doc same ∙ to_doc-reload o
