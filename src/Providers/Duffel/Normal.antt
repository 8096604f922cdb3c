-- ===== src/Providers/Duffel/Normal.antt =====
-- What flydesk/providers/duffel/mapper.py makes is well-formed.
use fly_desk.Prelude.{ap, sym, ℕ, ◌≡◌, refl, String, Option, none, some, List, []}
use mathlib.Core.Option.{some-injective}
use mathlib.Core.Path.{subst}
use fly_desk.Prelude.Options.{>>=-eq-some, traverse}
use fly_desk.Domain.Text.{CharTable, IsUnicode}
use fly_desk.Domain.Money.{make_money}
use fly_desk.Domain.Time.{Datetime}
use fly_desk.Domain.Models.{
  Place, Carrier, Segment, Slice, Offer, some_slice, Order, BookingPassenger,
}
use fly_desk.Bookings.Document.RoundTrip.{
  IsPlace, IsCarrier, IsOperating, IsSegment, IsSlice, IsNormal,
}
use fly_desk.Search.Document.{IsNormalOffer}
use fly_desk.Prelude.Lists.{All}
use fly_desk.Providers.Normal.{
  traverse-All, make_place-IsPlace, make_carrier-IsCarrier, make_slice-IsSlice, make_money-code,
  some_slice-eq-some,
}
use fly_desk.Providers.Duffel.{
  DuffelPlace, DuffelCarrier, DuffelSegment, DuffelSlice, DuffelOffer, DuffelOrderData,
}
use fly_desk.Providers.Duffel.Mapper.{
  place, place_type, carrier, operating, duration_of, segment, slice, map_offer, map_order,
}

module _ (t : CharTable) (u : IsUnicode t) (iso : String → Option ℕ) where
  place-IsPlace : (p : DuffelPlace) (q : Place) → place t iso p ≡ some q → IsPlace t q
  unfolding place
  place-IsPlace p q e =
      let (code, _, e1) = >>=-eq-some p.iata_code _ e in
      make_place-IsPlace t u code p.name p.city_name (place_type p.kind) q e1

  carrier-IsCarrier : (c : DuffelCarrier) (d : Carrier) → carrier t iso c ≡ some d → IsCarrier t d
  unfolding carrier
  carrier-IsCarrier c d e = make_carrier-IsCarrier t u c.iata_code c.name d e

  operating-IsOperating :
      (c : Option DuffelCarrier) (d : Option Carrier) → operating t iso c ≡ some d → IsOperating t d
  operating-IsOperating none d e = subst (IsOperating t) (some-injective _ _ e) tt
  operating-IsOperating (some c) d e =
      let (k, ek, e1) = >>=-eq-some (carrier t iso c) _ e in
      subst (IsOperating t) (some-injective _ _ e1) (carrier-IsCarrier c k ek)

  segment-IsSegment : (s : DuffelSegment) (r : Segment) → segment t iso s ≡ some r → IsSegment t r
  unfolding segment
  segment-IsSegment s r e =
      let (o, eo, e1) = >>=-eq-some (place t iso s.origin) _ e in
      let (d, ed, e2) = >>=-eq-some (place t iso s.destination) _ e1 in
      let (m, em, e3) = >>=-eq-some (carrier t iso s.marketing_carrier) _ e2 in
      let (q, eq, e4) = >>=-eq-some (operating t iso s.operating_carrier) _ e3 in
      let (n, _, e5) = >>=-eq-some (duration_of t iso s.duration) _ e4 in
      subst (IsSegment t) (some-injective _ _ e5) (record {
        origin = place-IsPlace s.origin o eo;
        destination = place-IsPlace s.destination d ed;
        marketing = carrier-IsCarrier s.marketing_carrier m em;
        operating = operating-IsOperating s.operating_carrier q eq;
      })

  slice-IsSlice : (s : DuffelSlice) (r : Slice) → slice t iso s ≡ some r → IsSlice t r
  unfolding slice
  slice-IsSlice s r e =
      let (o, eo, e1) = >>=-eq-some (place t iso s.origin) _ e in
      let (d, ed, e2) = >>=-eq-some (place t iso s.destination) _ e1 in
      let (n, _, e3) = >>=-eq-some (duration_of t iso s.duration) _ e2 in
      let (ss, es, e4) = >>=-eq-some (traverse (segment t iso) s.segments) _ e3 in
      make_slice-IsSlice t u s.id o d n ss r (place-IsPlace s.origin o eo)
        (place-IsPlace s.destination d ed)
        (traverse-All (segment t iso) (IsSegment t) segment-IsSegment s.segments ss es) e4

  -- What the mapper makes of an offer of Duffel is a well-formed offer with the same id.
  pub map_offer-IsNormalOffer :
      (d : DuffelOffer) (o : Offer) → map_offer t iso d ≡ some o → IsNormalOffer t o × (o.id ≡ d.id)
  unfolding map_offer
  map_offer-IsNormalOffer d o e =
      let (c, ec, e1) = >>=-eq-some (carrier t iso d.owner) _ e in
      let (m, em, e2) = >>=-eq-some (make_money t d.total_amount d.total_currency) _ e1 in
      let (ss, es, e3) = >>=-eq-some (traverse (slice t iso) d.slices) _ e2 in
      let (kept, ek, e4) = >>=-eq-some (some_slice ss) _ e3 in
      let (same, nonempty) = some_slice-eq-some ss kept ek in
      subst (λ (x : Offer). IsNormalOffer t x × (x.id ≡ d.id)) (some-injective _ _ e4)
        (
          record {
            owner = carrier-IsCarrier d.owner c ec;
            currency = make_money-code t u d.total_amount d.total_currency m em;
            slices =
                subst (All (IsSlice t)) same
                  (traverse-All (slice t iso) (IsSlice t) slice-IsSlice d.slices ss es);
            nonempty = nonempty;
          },
          refl,
        )

  -- An order that the mapper makes of Duffel's answer is well-formed, as the storage of orders
  -- supposes: each code is a normalised one and each slice has a segment. Its id is Duffel's, and it
  -- has neither a key nor an event to publish yet.
  pub map_order-IsNormal :
      (event_at order_at : Datetime) (d : DuffelOrderData) (ps : List BookingPassenger) (o : Order)
      → map_order t iso event_at order_at d ps ≡ some o
      → IsNormal t o × (o.id ≡ d.id) × (o.idempotency_key ≡ none) × (o.outbox ≡ [])
  unfolding map_order
  map_order-IsNormal event_at order_at d ps o e =
      let (m, em, e1) = >>=-eq-some (make_money t d.total_amount d.total_currency) _ e in
      let (ss, es, e2) = >>=-eq-some (traverse (slice t iso) d.slices) _ e1 in
      subst
        (λ (x : Order). IsNormal t x × (x.id ≡ d.id) × (x.idempotency_key ≡ none) × (x.outbox ≡ []))
        (some-injective _ _ e2)
        (
          record {
            currency = make_money-code t u d.total_amount d.total_currency m em;
            slices = traverse-All (slice t iso) (IsSlice t) slice-IsSlice d.slices ss es;
          },
          refl,
          refl,
          refl,
        )

-- The order of the mapper has the passengers that it was given.
pub map_order-passengers :
    (t : CharTable) (iso : String → Option ℕ) (event_at order_at : Datetime) (d : DuffelOrderData)
    (ps : List BookingPassenger) (o : Order)
    → map_order t iso event_at order_at d ps ≡ some o
    → o.passengers ≡ ps
unfolding map_order
map_order-passengers t iso event_at order_at d ps o e =
    let (m, em, e1) = >>=-eq-some (make_money t d.total_amount d.total_currency) _ e in
    let (ss, es, e2) = >>=-eq-some (traverse (slice t iso) d.slices) _ e1 in
    ap (λ (x : Order). x.passengers) (sym (some-injective _ _ e2))
