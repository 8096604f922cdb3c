-- ===== src/Bookings/Document/RoundTrip.antt =====
-- Storing an order and reading it back.
use fly_desk.Prelude.{◌≡◌, ◌≢◌, refl, arith, Option, none, some, List, [], ◌∷◌}
use fly_desk.Prelude.Lists.{All}
use fly_desk.Prelude.Options.{traverse}
use fly_desk.Domain.Text.{CharTable}
use fly_desk.Domain.Codes.{airport_code, carrier_code, currency_iso4217}
use fly_desk.Domain.Money.{Money, dump_money, load_money, reload_amount}
use fly_desk.Domain.Models.{Place, Carrier, Segment, Slice, make_slice, Order}
use fly_desk.Bookings.Document.{
  dump_slice, dump_slices, to_doc, load_place, load_carrier, load_operating, load_segment,
  load_slice, to_order, reload,
}

-- What the validators leave: every code of the order is in its normal form, and every slice has a
-- segment.
module _ (t : CharTable) where
  abbrev pub IsPlace : Place → Type 0
  IsPlace p = airport_code t p.iata_code ≡ some p.iata_code

  abbrev pub IsCarrier : Carrier → Type 0
  IsCarrier c = carrier_code t c.iata_code ≡ some c.iata_code

  abbrev pub IsOperating : Option Carrier → Type 0
  IsOperating none = Unit
  IsOperating (some c) = IsCarrier c

  pub record IsSegment (s : Segment) : Type 0 where
    pub origin : IsPlace s.origin
    pub destination : IsPlace s.destination
    pub marketing : IsCarrier s.marketing_carrier
    pub operating : IsOperating s.operating_carrier

  pub record IsSlice (s : Slice) : Type 0 where
    pub origin : IsPlace s.origin
    pub destination : IsPlace s.destination
    pub segments : All IsSegment s.segments
    pub some_segment : s.segments ≢ []

  pub record IsNormal (o : Order) : Type 0 where
    pub currency : currency_iso4217 t o.total.currency ≡ some o.total.currency
    pub slices : All IsSlice o.slices

  place_back : (p : Place) → IsPlace p → load_place t p ≡ some p
  unfolding load_place
  place_back p h = simp h

  pub carrier_back : (c : Carrier) → IsCarrier c → load_carrier t c ≡ some c
  unfolding load_carrier
  carrier_back c h = simp h

  operating_back : (o : Option Carrier) → IsOperating o → load_operating t o ≡ some o
  unfolding load_operating
  operating_back none h = refl
  operating_back (some c) h = simp (carrier_back c h)

  segment_back : (s : Segment) → IsSegment s → load_segment t s ≡ some s
  unfolding load_segment
  segment_back s h = simp (
    place_back s.origin h.origin,
    place_back s.destination h.destination,
    carrier_back s.marketing_carrier h.marketing,
    operating_back s.operating_carrier h.operating,
  )

  segments_back : (l : List Segment) → All IsSegment l → traverse (load_segment t) l ≡ some l
  unfolding traverse
  segments_back [] h = refl
  segments_back (s ∷ l) h = simp (segment_back s h.0, segments_back l h.1)

  make_slice_back :
      (s : Slice)
      → s.segments ≢ []
      → make_slice s.id s.origin s.destination s.duration s.segments ≡ some s
  unfolding make_slice
  make_slice_back s h = ground arith

  slice_back : (s : Slice) → IsSlice s → load_slice t (dump_slice s) ≡ some s
  unfolding load_slice dump_slice
  slice_back s h =
      simp
        (
          place_back s.origin h.origin,
          place_back s.destination h.destination,
          segments_back s.segments h.segments,
        )
        (make_slice_back s h.some_segment)

  pub slices_back :
      (l : List Slice) → All IsSlice l → traverse (load_slice t) (dump_slices l) ≡ some l
  unfolding traverse dump_slices
  slices_back [] h = refl
  slices_back (s ∷ l) h = simp (slice_back s h.0, slices_back l h.1)

  pub money_back :
      (m : Money)
      → currency_iso4217 t m.currency ≡ some m.currency
      → load_money t (dump_money m) ≡ some (record m { amount = reload_amount m.amount })
  unfolding load_money dump_money reload_amount
  money_back m h = simp h

  -- An order whose codes are normal is read back with every field as it was stored, but for the
  -- total, which has been rounded to hundredths.
  pub to_order-to_doc : (o : Order) → IsNormal o → to_order t (to_doc o) ≡ some (reload o)
  unfolding to_order to_doc reload
  to_order-to_doc o h = simp (money_back o.total h.currency, slices_back o.slices h.slices)
