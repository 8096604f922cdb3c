-- ===== src/Search/Document/Loaded.antt =====
-- What the validators of flydesk/domain/models.py accept is well-formed, wherever the document comes
-- from.
use mathlib.Core.Path.{subst}
use mathlib.Core.Option.{some-injective}
use fly_desk.Prelude.{◌≡◌, Option, none, some}
use fly_desk.Prelude.Lists.{All}
use fly_desk.Prelude.Options.{>>=-eq-some, traverse}
use fly_desk.Domain.Text.{CharTable, IsUnicode}
use fly_desk.Domain.Money.{Money, MoneyDoc, load_money, decimal_of}
use fly_desk.Domain.Codes.{currency_iso4217}
use fly_desk.Domain.Models.{Place, Carrier, Segment, Slice, Offer, some_slice}
use fly_desk.Bookings.Document.{
  SliceDoc, load_place, load_carrier, load_operating, load_segment, load_slice,
}
use fly_desk.Bookings.Document.RoundTrip.{IsPlace, IsCarrier, IsOperating, IsSegment, IsSlice}
use fly_desk.Providers.Normal.{
  traverse-All, make_place-IsPlace, make_carrier-IsCarrier, make_slice-IsSlice, make_money-code,
  some_slice-eq-some,
}
use fly_desk.Search.Document.{OfferDoc, load_offer, IsNormalOffer}

module _ (t : CharTable) (u : IsUnicode t) where
  load_place-IsPlace : (p q : Place) → load_place t p ≡ some q → IsPlace t q
  unfolding load_place
  load_place-IsPlace p q e = make_place-IsPlace t u p.iata_code p.name p.city_name p.kind q e

  load_carrier-IsCarrier : (c d : Carrier) → load_carrier t c ≡ some d → IsCarrier t d
  unfolding load_carrier
  load_carrier-IsCarrier c d e = make_carrier-IsCarrier t u c.iata_code c.name d e

  load_operating-IsOperating :
      (c d : Option Carrier) → load_operating t c ≡ some d → IsOperating t d
  unfolding load_operating
  load_operating-IsOperating none d e = subst (IsOperating t) (some-injective _ _ e) tt
  load_operating-IsOperating (some c) d e =
      let (k, ek, e1) = >>=-eq-some (load_carrier t c) _ e in
      subst (IsOperating t) (some-injective _ _ e1) (load_carrier-IsCarrier c k ek)

  load_segment-IsSegment : (s r : Segment) → load_segment t s ≡ some r → IsSegment t r
  unfolding load_segment
  load_segment-IsSegment s r e =
      let (o, eo, e1) = >>=-eq-some (load_place t s.origin) _ e in
      let (d, ed, e2) = >>=-eq-some (load_place t s.destination) _ e1 in
      let (m, em, e3) = >>=-eq-some (load_carrier t s.marketing_carrier) _ e2 in
      let (q, eq, e4) = >>=-eq-some (load_operating t s.operating_carrier) _ e3 in
      subst (IsSegment t) (some-injective _ _ e4) (record {
        origin = load_place-IsPlace s.origin o eo;
        destination = load_place-IsPlace s.destination d ed;
        marketing = load_carrier-IsCarrier s.marketing_carrier m em;
        operating = load_operating-IsOperating s.operating_carrier q eq;
      })

  load_slice-IsSlice : (d : SliceDoc) (r : Slice) → load_slice t d ≡ some r → IsSlice t r
  unfolding load_slice
  load_slice-IsSlice d r e =
      let (o, eo, e1) = >>=-eq-some (load_place t d.origin) _ e in
      let (a, ea, e2) = >>=-eq-some (load_place t d.destination) _ e1 in
      let (ss, es, e3) = >>=-eq-some (traverse (load_segment t) d.segments) _ e2 in
      make_slice-IsSlice t u d.id o a d.duration ss r (load_place-IsPlace d.origin o eo)
        (load_place-IsPlace d.destination a ea)
        (traverse-All (load_segment t) (IsSegment t) load_segment-IsSegment d.segments ss es) e3

  load_money-code :
      (d : MoneyDoc) (m : Money)
      → load_money t d ≡ some m
      → currency_iso4217 t m.currency ≡ some m.currency
  unfolding load_money
  load_money-code d m e = make_money-code t u (decimal_of d.amount) d.currency m e

  -- An offer that is read from the cache is well-formed.
  pub load_offer-IsNormalOffer :
      (d : OfferDoc) (o : Offer) → load_offer t d ≡ some o → IsNormalOffer t o
  unfolding load_offer
  load_offer-IsNormalOffer d o e =
      let (c, ec, e1) = >>=-eq-some (load_carrier t d.owner) _ e in
      let (m, em, e2) = >>=-eq-some (load_money t d.total) _ e1 in
      let (ss, es, e3) = >>=-eq-some (traverse (load_slice t) d.slices) _ e2 in
      let (kept, ek, e4) = >>=-eq-some (some_slice ss) _ e3 in
      let (same, nonempty) = some_slice-eq-some ss kept ek in
      subst (IsNormalOffer t) (some-injective _ _ e4) (record {
        owner = load_carrier-IsCarrier d.owner c ec;
        currency = load_money-code d.total m em;
        slices =
            subst (All (IsSlice t)) same
              (traverse-All (load_slice t) (IsSlice t) load_slice-IsSlice d.slices ss es);
        nonempty = nonempty;
      })
