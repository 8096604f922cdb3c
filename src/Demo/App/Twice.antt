-- ===== src/Demo/App/Twice.antt =====
-- Bookings of demo/app.py with one idempotency key.
use mathlib.Core.Path.{subst}
use fly_desk.Prelude.{arith, ◌≡◌, refl, sym, ap, ◌∙◌, String, none, some, List}
use fly_desk.Errors.{Exception, validation, value_error, Outcome, returned, raised}
use fly_desk.Errors.Actions.{or_raise, continue-eq-returned, or_raise-eq-returned}
use fly_desk.Domain.Text.{CharTable, IsUnicode}
use fly_desk.Domain.Models.{BookingPassenger, Offer, Order}
use fly_desk.Mongo.{Collection}
use fly_desk.Bookings.Document.{to_doc}
use fly_desk.Bookings.Document.RoundTrip.{IsNormal}
use fly_desk.Bookings.Repository.{id_of, index_field, HoldsNormal}
use fly_desk.Bookings.Service.{World, truthy, create_booking}
use fly_desk.Bookings.Service.Kept.{GivesNormal}
use fly_desk.Bookings.Service.Replay.{create_booking_replay}
use fly_desk.Search.Document.{load_offer, IsNormalOffer}
use fly_desk.Search.Document.Loaded.{load_offer-IsNormalOffer}
use fly_desk.Search.FanOut.{Loop}
use fly_desk.Search.Cache.{Platform, Reading, read, read_error}
use fly_desk.Demo.Seed.{Shop, offer_key, offer_read, get_offer, order_from, create_order}
use fly_desk.Demo.App.Keyed.{truthy_again, as_keyed}
use fly_desk.Demo.App.{Newest, injected, request_of, booked, surfaced, book}
use fly_desk.Demo.Cockpit.{Cockpit, Reply, answered, refused, crashed, BookBody, BookAnswer}

module _ (t : CharTable) (u : IsUnicode t) (l : Loop) (r : Platform l) (d : Shop l r) where
  offer_read-IsNormalOffer :
      (offer_id : String) (reading : Reading r.Text) (w w' : l.W) (o : Offer)
      → offer_read t l r d offer_id reading w ≡ (returned o, w')
      → IsNormalOffer t o
  offer_read-IsNormalOffer offer_id read_error w w' o e =
      let bad : raised _ ≡ returned o = ap (λ (x : Outcome Offer × l.W). x.0) e in cc
  offer_read-IsNormalOffer offer_id (read none) w w' o e =
      let bad : raised _ ≡ returned o = ap (λ (x : Outcome Offer × l.W). x.0) e in cc
  offer_read-IsNormalOffer offer_id (read (some text)) w w' o e =
      let (doc, w1, _, e1) =
        continue-eq-returned _ (or_raise (value_error "JSONDecodeError") (d.load_one text) w) o w'
          e in
      let (loaded, _) = or_raise-eq-returned (validation "Offer") (load_offer t doc) w1 w' o e1 in
      load_offer-IsNormalOffer t u doc o loaded

  -- An order of the demonstration is well-formed.
  pub create_order-IsNormal :
      (offer_id : String) (ps : List BookingPassenger) (w : l.W) (o : Order)
      → (create_order t l r d offer_id ps w).0 ≡ returned o
      → IsNormal t o
  unfolding create_order get_offer order_from
  create_order-IsNormal offer_id ps w o e =
      let w' = (create_order t l r d offer_id ps w).1 in
      let (offer, w1, found, made) =
        continue-eq-returned _ (get_offer t l r d offer_id w) o w' (ap (λ x. (x, w')) e) in
      let normal =
        offer_read-IsNormalOffer offer_id (r.get (offer_key offer_id) w).0
          (r.get (offer_key offer_id) w).1 w1 offer found in
      subst (λ (x : Outcome Order). NormalOrder x) (ap (λ (x : Outcome Order × l.W). x.0) made)
        (record { currency = normal.currency; slices = normal.slices })
    where
      NormalOrder : Outcome Order → Type 0
      NormalOrder (returned o) = IsNormal t o
      NormalOrder (raised e) = Unit

  module _ (a : Cockpit r) (col : Collection id_of index_field) (newest : Newest col) where
    abbrev App : Type 0
    App = World t col (injected t l r d a)

    injected-GivesNormal : GivesNormal t (injected t l r d a)
    injected-GivesNormal name offer_id ps w o e = create_order-IsNormal offer_id ps w o e

    order_in : BookAnswer → Reply BookAnswer → BookAnswer
    order_in default (answered b) = b
    order_in default (refused n m) = default
    order_in default (crashed e) = default

    -- Only a booking that was made is answered.
    booked-eq-answered :
        (key : String) (x : Outcome Order × App) (b : BookAnswer) (w' : App)
        → booked t l r d a key x ≡ (answered b, w')
        → (o : Order) × (x ≡ (returned o, w'))
          × (b ≡ record { idempotency_key = key; order = to_doc o })
    booked-eq-answered key (returned o, s) b w' e =
        unfold order_in in
        (
          o,
          ap (λ (y : Reply BookAnswer × App). (returned o, y.1)) e,
          ap (λ (y : Reply BookAnswer × App). order_in b y.0) (sym e),
        )
    booked-eq-answered key (raised x, s) b w' e =
        absurd (surfaced-ne x b (ap (λ (y : Reply BookAnswer × App). y.0) e))
      where
        surfaced-ne : (x : Exception) (b : BookAnswer) → surfaced t l r d a x ≡ answered b → ⊥
        surfaced-ne x b e = ground arith

    -- A booking with an idempotency key was answered. Then every later booking with that key is
    -- answered with that key and with a booking of the same id, and changes nothing.
    pub book_twice :
        (body body2 : BookBody) (k : String) (w w' : App) (b : BookAnswer)
        → HoldsNormal t col w.orders
        → truthy body.idempotency_key ≡ some k
        → truthy body2.idempotency_key ≡ some k
        → book t l r d a col newest body w ≡ (answered b, w')
        → (again : BookAnswer) × (book t l r d a col newest body2 w' ≡ (answered again, w'))
          × (again.idempotency_key ≡ k)
          × (again.order.doc_id ≡ b.order.doc_id)
    unfolding to_doc
    book_twice body body2 k w w' b all keyed keyed2 e =
        let (o, created, shown) =
          booked-eq-answered k
            (create_booking t col (injected t l r d a) (request_of t l r d a body k) w) b w'
            (sym (as_keyed t l r d a col newest body w k keyed) ∙ e) in
        let key = truthy_again body.idempotency_key k keyed in
        let (x, replayed, same) =
          create_booking_replay t col (injected t l r d a) injected-GivesNormal
            (request_of t l r d a body k) (request_of t l r d a body2 k) k w w' o all key key
            created in
        (
          record { idempotency_key = k; order = to_doc x },
          as_keyed t l r d a col newest body2 w' k keyed2 ∙ ap (booked t l r d a k) replayed,
          refl,
          same ∙ ap (λ (c : BookAnswer). c.order.doc_id) (sym shown),
        )
