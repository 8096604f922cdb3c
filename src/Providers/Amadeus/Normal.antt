-- ===== src/Providers/Amadeus/Normal.antt =====
-- What flydesk/providers/amadeus/mapper.py makes is well-formed.
use fly_desk.Prelude.{ℕ, suc, ◌≡◌, refl, ap, sym, ◌∙◌, String, Option, none, some, List, [], ◌∷◌}
use mathlib.Core.Option.{some-injective}
use mathlib.Core.Path.{subst}
use fly_desk.Prelude.Lists.{All, length}
use fly_desk.Prelude.Options.{>>=-eq-some, traverse}
use fly_desk.Prelude.Dicts.{Dict}
use fly_desk.Domain.Text.{CharTable, IsUnicode}
use fly_desk.Domain.Enums.{airport}
use fly_desk.Domain.Money.{make_money}
use fly_desk.Domain.Models.{Carrier, Segment, Slice, Offer, some_slice}
use fly_desk.Bookings.Document.RoundTrip.{IsPlace, IsCarrier, IsOperating, IsSegment, IsSlice}
use fly_desk.Search.Document.{IsNormalOffer}
use fly_desk.Providers.Normal.{
  traverse-All, make_place-IsPlace, make_carrier-IsCarrier, make_slice-IsSlice, make_money-code,
  some_slice-eq-some,
}
use fly_desk.Providers.Amadeus.{
  AmadeusSegment, AmadeusItinerary, AmadeusDictionaries, AmadeusFlightOffer,
}
use fly_desk.Providers.Amadeus.Mapper.{
  place, carrier, operating, operating_code, duration_of, segment, last, join, slice, slices_from,
  map_offer, cabin_by_segment, city_code, carrier_name, owner_code, amount_of,
}

module _ (t : CharTable) (u : IsUnicode t) (lower : String → String) (digits : ℕ → String)
    (iso : String → Option ℕ) where
  operating-IsOperating :
      (d : Option AmadeusDictionaries) (code : Option String) (c : Option Carrier)
      → operating t lower digits iso d code ≡ some c
      → IsOperating t c
  unfolding carrier
  operating-IsOperating d none c e = subst (IsOperating t) (some-injective _ _ e) tt
  operating-IsOperating d (some code) c e =
      let (k, ek, e1) = >>=-eq-some (carrier t lower digits iso d code) _ e in
      subst (IsOperating t) (some-injective _ _ e1)
        (make_carrier-IsCarrier t u code (carrier_name d code) k ek)

  segment-IsSegment :
      (cabins : Dict (Option String)) (d : Option AmadeusDictionaries) (s : AmadeusSegment)
      (r : Segment)
      → segment t lower digits iso cabins d s ≡ some r
      → IsSegment t r
  unfolding segment place carrier
  segment-IsSegment cabins d s r e =
      let (o, eo, e1) = >>=-eq-some (place t lower digits iso d s.departure.iata_code) _ e in
      let (a, ea, e2) = >>=-eq-some (place t lower digits iso d s.arrival.iata_code) _ e1 in
      let (m, em, e3) = >>=-eq-some (carrier t lower digits iso d s.carrier_code) _ e2 in
      let (q, eq, e4) =
        >>=-eq-some (operating t lower digits iso d (operating_code s.operating)) _ e3 in
      let (n, _, e5) = >>=-eq-some (duration_of t lower digits iso s.duration) _ e4 in
      subst (IsSegment t) (some-injective _ _ e5) (record {
        origin =
            make_place-IsPlace t u s.departure.iata_code none (city_code d s.departure.iata_code)
              airport o eo;
        destination =
            make_place-IsPlace t u s.arrival.iata_code none (city_code d s.arrival.iata_code)
              airport a ea;
        marketing = make_carrier-IsCarrier t u s.carrier_code (carrier_name d s.carrier_code) m em;
        operating = operating-IsOperating d (operating_code s.operating) q eq;
      })

  last-IsPlace :
      (s : Segment) (rest : List Segment)
      → All (IsSegment t) (s ∷ rest)
      → IsPlace t (last s rest).destination
  last-IsPlace s [] h = h.0.destination
  last-IsPlace s (r ∷ rest) h = last-IsPlace r rest h.1

  join-IsSlice :
      (id : String) (n : Option ℕ) (segments : List Segment) (r : Slice)
      → All (IsSegment t) segments
      → join t lower digits iso id n segments ≡ some r
      → IsSlice t r
  join-IsSlice id n [] r h e = cc
  join-IsSlice id n (s ∷ rest) r h e =
      make_slice-IsSlice t u id s.origin (last s rest).destination n (s ∷ rest) r h.0.origin
        (last-IsPlace s rest h) h e

  slices_from-All :
      (cabins : Dict (Option String)) (d : Option AmadeusDictionaries) (id : String) (idx : ℕ)
      (l : List AmadeusItinerary) (r : List Slice)
      → slices_from t lower digits iso cabins d id idx l ≡ some r
      → All (IsSlice t) r × (length r ≡ length l)
  unfolding slices_from slice
  slices_from-All cabins d id idx [] r e =
      subst (λ x. All (IsSlice t) x × (length x ≡ 0)) (some-injective _ _ e) (tt, refl)
  slices_from-All cabins d id idx (i ∷ l) r e =
      let (s, es, e1) = >>=-eq-some (slice t lower digits iso cabins d id idx i) _ e in
      let (ss, ess, e2) =
        >>=-eq-some (slices_from t lower digits iso cabins d id (suc idx) l) _ e1 in
      let (segs, eg, e3) =
        >>=-eq-some (traverse (segment t lower digits iso cabins d) i.segments) _ es in
      let (n, _, e4) = >>=-eq-some (duration_of t lower digits iso i.duration) _ e3 in
      let (rest, count) = slices_from-All cabins d id (suc idx) l ss ess in
      subst (λ x. All (IsSlice t) x × (length x ≡ suc (length l))) (some-injective _ _ e2)
        (
          (
            join-IsSlice _ n segs s
                (traverse-All (segment t lower digits iso cabins d) (IsSegment t)
                  (segment-IsSegment cabins d) i.segments segs eg)
                e4,
            rest,
          ),
          ap suc count,
        )

  -- What the mapper makes of an answer of Amadeus is a well-formed offer, with one slice for each
  -- itinerary.
  pub map_offer-IsNormalOffer :
      (d : Option AmadeusDictionaries) (o : AmadeusFlightOffer) (r : Offer)
      → map_offer t lower digits iso d o ≡ some r
      → IsNormalOffer t r × (length r.slices ≡ length o.itineraries)
  unfolding map_offer carrier
  map_offer-IsNormalOffer d o r e =
      let cabins = cabin_by_segment o.traveler_pricings in
      let (ss, es, e1) =
        >>=-eq-some (slices_from t lower digits iso cabins d o.id 0 o.itineraries) _ e in
      let (kept, ek, e2) = >>=-eq-some (some_slice ss) _ e1 in
      let (code, _, e3) = >>=-eq-some (owner_code o) _ e2 in
      let (c, ec, e4) = >>=-eq-some (carrier t lower digits iso d code) _ e3 in
      let (m, em, e5) = >>=-eq-some (make_money t (amount_of o.price) o.price.currency) _ e4 in
      let (all, count) = slices_from-All cabins d o.id 0 o.itineraries ss es in
      let (same, nonempty) = some_slice-eq-some ss kept ek in
      subst (λ (x : Offer). IsNormalOffer t x × (length x.slices ≡ length o.itineraries))
        (some-injective _ _ e5)
        (
          record {
            owner = make_carrier-IsCarrier t u code (carrier_name d code) c ec;
            currency = make_money-code t u (amount_of o.price) o.price.currency m em;
            slices = subst (All (IsSlice t)) same all;
            nonempty = nonempty;
          },
          ap length (sym same) ∙ count,
        )

  -- An offer that the mapper makes of Amadeus's answer has one slice for each itinerary, and each is
  -- well-formed: it has a segment, and all its airports and airlines have normalised codes. So has
  -- the airline that owns the offer.
  pub map_offer-IsSlice :
      (d : Option AmadeusDictionaries) (o : AmadeusFlightOffer) (r : Offer)
      → map_offer t lower digits iso d o ≡ some r
      → All (IsSlice t) r.slices × (length r.slices ≡ length o.itineraries) × IsCarrier t r.owner
  map_offer-IsSlice d o r e =
      let (normal, count) = map_offer-IsNormalOffer d o r e in (normal.slices, count, normal.owner)
