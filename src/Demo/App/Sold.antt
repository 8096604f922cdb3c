-- ===== src/Demo/App/Sold.antt =====
-- A booking through demo/app.py of an offer that Redis holds.
use Prim.Native.String.{◌++◌}
use Prim.Native.Char.{Char, code}
use text.Mathlib.TextLemmas.{cons-append, head-eq_of_cons-eq}
use fly_desk.Prelude.{
  ℕ, ◌+◌, ◌≡◌, ◌≢◌, refl, sym, ap, ◌∙◌, arith, true, String, none, some, List, [], ◌∷◌,
}
use fly_desk.Errors.{returned, value_error, validation}
use fly_desk.Errors.Actions.{continue, or_raise}
use fly_desk.Domain.Enums.{adult, passenger_of}
use fly_desk.Domain.Money.{Decimal, amount_as_str, decimal_of, dump_money, reload_amount}
use fly_desk.Domain.Text.{CharTable}
use fly_desk.Domain.Time.{Date}
use fly_desk.Domain.Models.{BookingPassenger, OutboxEvent, Offer, Order}
use fly_desk.Mongo.{Collection}
use fly_desk.Bookings.Document.{to_doc, dump_slices}
use fly_desk.Bookings.Repository
use fly_desk.Bookings.Repository.{id_of, index_field}
use fly_desk.Bookings.Service.{
  booking_confirmed_event, World, truthy, stage, granted_reply, reservation_ttl,
}
use fly_desk.Bookings.Service.Fresh.{reserved_env, create_booking-fresh}
use fly_desk.Search.Document.{
  OfferDoc, dump_offer, load_offer, reload_offer, IsNormalOffer, load_offer-dump_offer,
}
use fly_desk.Search.FanOut.{Loop}
use fly_desk.Search.Cache.{Platform, read}
use fly_desk.Demo.Seed.{Shop, offer_key, offer_read, get_offer, order_from, create_order}
use fly_desk.Prelude.Options.{traverse}
use fly_desk.Demo.App as Demo
use fly_desk.Demo.App.{
  Newest, criteria_of, injected, passenger_from, request_of, searched, search_answer, search, book,
}
use fly_desk.Demo.Cockpit.{Cockpit, answered, BookBody, BookAnswer, demo_passenger}
use fly_desk.Demo.App.Keyed.{as_keyed}

-- The process and Redis: a reservation leaves other keys alone, and JSON is read as it was written.
pub record IsCockpit {l : Loop} {r : Platform l} (d : Shop l r) (a : Cockpit r) : Type 0 where
  pub reserving :
      (k j : String) (ttl : ℕ) (w : l.W) → j ≢ k → (r.get k (a.set_nx j ttl w).1).0 ≡ (r.get k w).0
  pub load-dump : (doc : OfferDoc) → d.load_one (d.dump_one doc) ≡ some doc

module _ (t : CharTable) (l : Loop) (r : Platform l) (d : Shop l r) where
  -- An offer that Redis holds is read as it was written, with its price in hundredths.
  get_offer-holds :
      (o : Offer) (w : l.W)
      → d.load_one (d.dump_one (dump_offer o)) ≡ some (dump_offer o)
      → IsNormalOffer t o
      → (r.get (offer_key o.id) w).0 ≡ read (some (d.dump_one (dump_offer o)))
      → get_offer t l r d o.id w ≡ (returned (reload_offer o), (r.get (offer_key o.id) w).1)
  unfolding get_offer
  get_offer-holds o w json normal has =
      let w1 = (r.get (offer_key o.id) w).1 in
      ap (λ x. offer_read t l r d o.id x w1) has
      ∙ ap
          (λ m.
            continue (λ doc. or_raise (validation "Offer") (load_offer t doc))
              (or_raise (value_error "JSONDecodeError") m w1))
          json
      ∙ ap (λ m. or_raise (validation "Offer") m w1) (load_offer-dump_offer t o normal)

  -- An offer that Redis holds is sold at its price.
  pub create_order-holds :
      (o : Offer) (ps : List BookingPassenger) (w : l.W)
      → d.load_one (d.dump_one (dump_offer o)) ≡ some (dump_offer o)
      → IsNormalOffer t o
      → (r.get (offer_key o.id) w).0 ≡ read (some (d.dump_one (dump_offer o)))
      → (q : Order) × (w' : l.W) × (create_order t l r d o.id ps w ≡ (returned q, w'))
        × (q.total ≡ (reload_offer o).total)
        × (q.slices ≡ o.slices)
        × (q.passengers ≡ ps)
  unfolding create_order get_offer order_from reload_offer
  create_order-holds o ps w json normal has =
      let w1 = (r.get (offer_key o.id) w).1 in
      let (suffix, w2) = d.order_suffix w1 in
      let (pnr, w3) = d.pnr w2 in
      (
        order_from t l r d o.id ("ord_demo_" ++ suffix) pnr (d.now w3) (d.now w3) (reload_offer o)
            ps,
        w3,
        ap (continue _) (get_offer-holds o w json normal has),
        refl,
        refl,
        refl,
      )

-- A key of a reservation is no key of an offer.
idem-ne : (k id : String) → "idem:" ++ k ≢ offer_key id
idem-ne k id h =
    let i : Char = "i" in
    let d : Char = "d" in
    let same : i ≡ d =
      head-eq_of_cons-eq (sym (cons-append i "dem:" k) ∙ h ∙ cons-append d "emo:offer:" id) in
    absurd (omega (arith, ap code same))

-- A price that has been read back is written as before.
rewritten : (v : Decimal) → amount_as_str (reload_amount v) ≡ amount_as_str v
unfolding reload_amount decimal_of amount_as_str
rewritten v = ground arith

dump_money-reload_offer : (o : Offer) → dump_money (reload_offer o).total ≡ dump_money o.total
unfolding dump_money reload_offer
dump_money-reload_offer o =
    ap (λ x. record { amount = x; currency = o.total.currency }) (rewritten o.total.amount)

module _ (t : CharTable) (l : Loop) (r : Platform l) (d : Shop l r) (a : Cockpit r)
    (col : Collection id_of index_field) (newest : Newest col) (cockpit : IsCockpit d a) where
  -- A booking of the offer that a document shows is answered, at its price and with its flights.
  abbrev pub IsSold : String → World t col (injected t l r d a) → OfferDoc → Type 0
  IsSold k w doc =
      (b : BookAnswer) × (w' : World t col (injected t l r d a)) × (book t l r d a col newest
          (record { offer_id = doc.id; idempotency_key = some k }) w
        ≡ (answered b, w'))
      × (b.idempotency_key ≡ k)
      × (b.order.total ≡ doc.total)
      × (b.order.slices ≡ doc.slices)
      × (w'.bookings ≡ w.bookings + 1)

  event_of : l.W → Order → OutboxEvent
  event_of w q = booking_confirmed_event (a.event_id w).0 (d.now (a.event_id w).1) q

  demo_passenger-valid :
      (born_on : Date)
      → a.date_of "1980-07-24" ≡ some born_on
      → (traveller : BookingPassenger) × (traverse (passenger_from t l r d a) (demo_passenger ∷ [])
          ≡ some (traveller ∷ []))
  unfolding traverse passenger_from passenger_of
  demo_passenger-valid born_on e = (
    record {
      kind = adult;
      title = some "mr";
      gender = some "m";
      given_name = "Tony";
      family_name = "Stark";
      born_on = born_on;
      email = "tony@stark.com";
      phone_number = "+442080160508";
      provider_passenger_id = none;
    },
    simp e,
  )

  pub offer-IsSold :
      (k : String) (w : World t col (injected t l r d a)) (born_on : Date) (o : Offer)
      → truthy (some k) ≡ some k
      → Repository.find_by_idempotency_key t col w.orders k ≡ returned none
      → granted_reply t col (injected t l r d a) (a.set_nx ("idem:" ++ k) reservation_ttl w.env).0
        ≡ true
      → a.date_of "1980-07-24" ≡ some born_on
      → IsNormalOffer t o
      → (r.get (offer_key o.id) w.env).0 ≡ read (some (d.dump_one (dump_offer o)))
      → IsSold k w (dump_offer o)
  unfolding stage dump_offer to_doc event_of
  offer-IsSold k w born_on o keyed unused granted born normal has =
      let p = injected t l r d a in
      let body : BookBody = record { offer_id = o.id; idempotency_key = some k } in
      let env = reserved_env t col p k w.env in
      let (traveller, valid) = demo_passenger-valid born_on born in
      let ps = traveller ∷ [] in
      let (q, env', made, price, slices, _) =
        create_order-holds t l r d o ps env (cockpit.load-dump (dump_offer o)) normal (
          cockpit.reserving (offer_key o.id) ("idem:" ++ k) reservation_ttl w.env (idem-ne k o.id)
          ∙ has) in
      let (s, _, booked) =
        create_booking-fresh t col p (request_of t l r d a body k) k ps q w env' keyed unused
          granted valid made in
      (
        record { idempotency_key = k; order = to_doc (stage (some k) (event_of env' q) q) },
        _,
        as_keyed t l r d a col newest body w k keyed ∙ ap (Demo.booked t l r d a k) booked,
        refl,
        ap dump_money price ∙ dump_money-reload_offer o,
        ap dump_slices slices,
        refl,
      )
