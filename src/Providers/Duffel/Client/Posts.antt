-- ===== src/Providers/Duffel/Client/Posts.antt =====
-- What flydesk/providers/duffel/client.py sends for a booking, and what comes of it.
use mathlib.Core.List.{append_assoc}
use fly_desk.Prelude.{
  ◌≤◌, ◌<◌, ◌≡◌, refl, sym, ap, ◌∙◌, String, ◌⊎◌, inl, inr, none, List, [], ◌∷◌, ◌++◌, arith,
}
use fly_desk.Prelude.Lists.{length}
use fly_desk.Errors.{Exception, validation, Outcome, returned, raised}
use fly_desk.Errors.Actions.{
  or_raise, continue, continue-eq-returned, or_raise-eq-returned, continue-state, or_raise-state,
}
use fly_desk.Domain.Text.{CharTable, IsUnicode}
use fly_desk.Domain.Models.{BookingPassenger, Order}
use fly_desk.Bookings.Document.RoundTrip.{IsNormal}
use fly_desk.Providers.Duffel.{DuffelOffer, DuffelOfferPassenger}
use fly_desk.Providers.Duffel.Mapper.{map_order}
use fly_desk.Providers.Duffel.Normal.{map_order-IsNormal, map_order-passengers}
use fly_desk.Providers.Duffel.Payloads.{
  OrderPayload, offer_call, order_call, order_payload, order_passengers,
}
use fly_desk.Providers.Duffel.Client.{
  Http, World, request, fetch_offer, read_order, post_order, create_order,
}

length-order_passengers :
    (slots : List DuffelOfferPassenger) (ps : List BookingPassenger)
    → length slots ≤ length ps
    → length (order_passengers slots ps) ≡ length slots
unfolding order_passengers
length-order_passengers [] ps h = refl
length-order_passengers (s ∷ slots) [] h = absurd (omega arith)
length-order_passengers (s ∷ slots) (q ∷ ps) h =
    omega (arith, length-order_passengers slots ps (omega arith))

filled_slots :
    (offer : DuffelOffer) (ps : List BookingPassenger)
    → length offer.passengers < length ps
    → length (order_payload offer ps).passengers ≡ length offer.passengers
unfolding order_payload
filled_slots offer ps fewer = length-order_passengers offer.passengers ps (omega arith)

-- The order sent is for this one offer, at its price in its currency.
pub record Orders (offer : DuffelOffer) (payload : OrderPayload) : Type 0 where
  pub for_offer : payload.selected_offers ≡ offer.id ∷ []
  pub at_price : payload.amount ≡ offer.total_amount
  pub in_currency : payload.currency ≡ offer.total_currency

order_payload-Orders :
    (offer : DuffelOffer) (ps : List BookingPassenger) → Orders offer (order_payload offer ps)
unfolding order_payload
order_payload-Orders offer ps = record { for_offer = refl; at_price = refl; in_currency = refl }

module _ (t : CharTable) (h : Http) where
  fetch_offer-sent :
      (id : String) (w : World h) → (fetch_offer t h id w).1.sent ≡ w.sent ++ offer_call id ∷ []
  unfolding fetch_offer request
  fetch_offer-sent id w =
      ap (λ (v : World h). v.sent)
        (continue-state _ (request h (offer_call id) w)
          (λ raw v. or_raise-state _ (h.offer_of raw) v))

  read_order-state :
      (ps : List BookingPassenger) (json : h.Json) (w : World h) → (read_order t h ps json w).1 ≡ w
  unfolding read_order
  read_order-state ps json w =
      continue-state _ (or_raise (validation "DuffelOrderResponse") (h.order_of json) w) (λ made v.
        or_raise-state _ (map_order t h.iso_duration (h.now v.env) (h.now v.env) made ps) v)
      ∙ or_raise-state _ (h.order_of json) w

  post_order-sent :
      (ps : List BookingPassenger) (offer : DuffelOffer) (w : World h)
      → (post_order t h ps offer w).1.sent ≡ w.sent ++ order_call (order_payload offer ps) ∷ []
  unfolding post_order request
  post_order-sent ps offer w =
      ap (λ (v : World h). v.sent)
        (continue-state (read_order t h ps) (request h (order_call (order_payload offer ps)) w)
          (read_order-state ps))

  ordered :
      (ps : List BookingPassenger) (offer : DuffelOffer) (w v : World h) (id : String)
      → v.sent ≡ w.sent ++ offer_call id ∷ []
      → (post_order t h ps offer v).1.sent
        ≡ w.sent ++ offer_call id ∷ order_call (order_payload offer ps) ∷ []
  ordered ps offer w v id asked =
      post_order-sent ps offer v
      ∙ ap (λ l. l ++ order_call (order_payload offer ps) ∷ []) asked
      ∙ append_assoc w.sent (offer_call id ∷ []) (order_call (order_payload offer ps) ∷ [])

  -- Without the offer nothing is ordered; with it, exactly one order is sent.
  abbrev pub Posted : String → List BookingPassenger → World h → Outcome Order × World h → Type 0
  Posted id ps w (res, w') =
      ((e : Exception) × (fetch_offer t h id w ≡ (raised e, w'))
        × (res ≡ raised e)
        × (w'.sent ≡ w.sent ++ offer_call id ∷ []))
      ⊎ ((offer : DuffelOffer) × (v : World h) × (fetch_offer t h id w ≡ (returned offer, v))
          × (payload : OrderPayload) × (w'.sent ≡ w.sent ++ offer_call id ∷ order_call payload ∷ [])
          × Orders offer payload)

  -- However a booking at Duffel ends, it has first asked for the offer. Only if Duffel gave one it
  -- has sent an order, for that offer at its present price and currency, and no second one.
  pub create_order_posts :
      (id : String) (ps : List BookingPassenger) (w : World h)
      → Posted id ps w (create_order t h id ps w)
  unfolding create_order
  create_order_posts id ps w = go (fetch_offer t h id w) refl (fetch_offer-sent id w)
    where
      go :
          (x : Outcome DuffelOffer × World h)
          → fetch_offer t h id w ≡ x
          → x.1.sent ≡ w.sent ++ offer_call id ∷ []
          → Posted id ps w (continue (post_order t h ps) x)
      go (raised e, v) fetched asked = inl (e, fetched, refl, asked)
      go (returned offer, v) fetched asked = inr (
        offer,
        v,
        fetched,
        order_payload offer ps,
        ordered ps offer w v id asked,
        order_payload-Orders offer ps,
      )

  -- What is known of a booked order.
  pub record Made (ps : List BookingPassenger) (o : Order) : Type 0 where
    pub normal : IsNormal t o
    pub passengers : o.passengers ≡ ps
    pub keyless : o.idempotency_key ≡ none
    pub nothing_staged : o.outbox ≡ []

  pub create_order-Made :
      IsUnicode t
      → (id : String) (ps : List BookingPassenger) (w w' : World h) (o : Order)
      → create_order t h id ps w ≡ (returned o, w')
      → Made ps o
  unfolding create_order post_order read_order
  create_order-Made u id ps w w' o e =
      let (offer, v, _, e1) =
        continue-eq-returned (post_order t h ps) (fetch_offer t h id w) o w' e in
      let (json, v1, _, e2) =
        continue-eq-returned (read_order t h ps) (request h (order_call (order_payload offer ps)) v)
          o w' e1 in
      let (made, v2, _, e3) =
        continue-eq-returned _ (or_raise (validation "DuffelOrderResponse") (h.order_of json) v1) o
          w' e2 in
      let mapped =
        (or_raise-eq-returned _ (map_order t h.iso_duration (h.now v2.env) (h.now v2.env) made ps)
          v2 w' o e3).0 in
      let (normal, _, keyless, nothing) =
        map_order-IsNormal t u h.iso_duration _ _ made ps o mapped in
      record {
        normal = normal;
        passengers = map_order-passengers t h.iso_duration _ _ made ps o mapped;
        keyless = keyless;
        nothing_staged = nothing;
      }

  -- When the offer has fewer passenger slots than there are passengers, a booking that succeeds has
  -- ordered for as many passengers only as there are slots, but its order names them all.
  pub create_order_drops :
      (u : IsUnicode t) (id : String) (ps : List BookingPassenger) (w w' v : World h) (o : Order)
      (offer : DuffelOffer)
      → fetch_offer t h id w ≡ (returned offer, v)
      → create_order t h id ps w ≡ (returned o, w')
      → length offer.passengers < length ps
      → (payload : OrderPayload) × (w'.sent ≡ w.sent ++ offer_call id ∷ order_call payload ∷ [])
        × (length payload.passengers ≡ length offer.passengers)
        × (length payload.passengers < length o.passengers)
        × (o.passengers ≡ ps)
  unfolding create_order
  create_order_drops u id ps w w' v o offer fetched e fewer =
      let same = (create_order-Made u id ps w w' o (unfold create_order in e)).passengers in
      let asked : v.sent ≡ w.sent ++ offer_call id ∷ [] =
        ap (λ (x : Outcome DuffelOffer × World h). x.1.sent) (sym fetched)
        ∙ fetch_offer-sent id w in
      let filled = filled_slots offer ps fewer in
      (
        order_payload offer ps,
        ap (λ (x : Outcome Order × World h). x.1.sent) (sym e)
            ∙ ap (λ (x : Outcome DuffelOffer × World h). (continue (post_order t h ps) x).1.sent)
                fetched
            ∙ ordered ps offer w v id asked,
        filled,
        omega (arith, filled, ap length same),
        same,
      )
