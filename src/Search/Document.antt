-- ===== src/Search/Document.antt =====
-- The document of an offer, `Offer.model_dump(mode="json")`, and `Offer.model_validate` of it, as
-- flydesk/search/cache.py uses them.
pub mod Loaded
use fly_desk.Prelude.{ℕ, ◌≡◌, ◌≢◌, refl, Option, none, some, String, List, [], ◌∷◌}
use fly_desk.Prelude.Lists.{All}
use fly_desk.Prelude.Options.{◌>>=◌, traverse}
use fly_desk.Domain.Enums.{Provider, PassengerType, CabinClass}
use fly_desk.Domain.Text.{CharTable}
use fly_desk.Domain.Codes.{currency_iso4217}
use fly_desk.Domain.Money.{MoneyDoc, dump_money, load_money, reload_amount}
use fly_desk.Domain.Time.{Datetime}
use fly_desk.Domain.Models.{Carrier, Slice, Offer, some_slice, total_stops}
use fly_desk.Bookings.Document.{SliceDoc, dump_slices, load_carrier, load_slice}
use fly_desk.Bookings.Document.RoundTrip.{IsCarrier, IsSlice, carrier_back, slices_back, money_back}

pub record OfferDoc : Type 0 where
  pub id : String
  pub provider : Provider
  pub owner : Carrier
  pub total : MoneyDoc
  pub slices : List SliceDoc
  pub passenger_types : List PassengerType
  pub cabin_class : Option CabinClass
  pub expires_at : Option Datetime
  pub total_stops : ℕ

unfoldable pub dump_offer : Offer → OfferDoc
unfolding dump_slices dump_money total_stops
dump_offer o = record {
  id = o.id;
  provider = o.provider;
  owner = o.owner;
  total = dump_money o.total;
  slices = dump_slices o.slices;
  passenger_types = o.passenger_types;
  cabin_class = o.cabin_class;
  expires_at = o.expires_at;
  total_stops = total_stops o;
}

-- `[o.model_dump(mode="json") for o in offers]`
unfoldable pub dump_offers : List Offer → List OfferDoc
unfolding dump_offer
dump_offers [] = []
dump_offers (o ∷ rest) = dump_offer o ∷ dump_offers rest

-- `Offer.model_validate`; `total_stops` is ignored.
unfoldable pub load_offer : CharTable → OfferDoc → Option Offer
load_offer t d = do
  owner ← load_carrier t d.owner
  total ← load_money t d.total
  loaded ← traverse (load_slice t) d.slices
  slices ← some_slice loaded
  some (record {
    id = d.id;
    provider = d.provider;
    owner = owner;
    total = total;
    slices = slices;
    passenger_types = d.passenger_types;
    cabin_class = d.cabin_class;
    expires_at = d.expires_at;
  })

-- What an offer is after it has been cached.
unfoldable pub reload_offer : Offer → Offer
reload_offer o = record o { total = record o.total { amount = reload_amount o.total.amount } }

pub reload_offers : List Offer → List Offer
reload_offers [] = []
reload_offers (o ∷ rest) = reload_offer o ∷ reload_offers rest

module _ (t : CharTable) where
  -- What the validators leave of an offer.
  pub record IsNormalOffer (o : Offer) : Type 0 where
    pub owner : IsCarrier t o.owner
    pub currency : currency_iso4217 t o.total.currency ≡ some o.total.currency
    pub slices : All (IsSlice t) o.slices
    pub nonempty : o.slices ≢ []

  some_slice_back : (l : List Slice) → l ≢ [] → some_slice l ≡ some l
  some_slice_back [] h = absurd (h refl)
  some_slice_back (s ∷ rest) h = refl

  -- A well-formed offer is read back as it was, but for its price, which has been rounded to
  -- hundredths.
  pub load_offer-dump_offer :
      (o : Offer) → IsNormalOffer o → load_offer t (dump_offer o) ≡ some (reload_offer o)
  unfolding load_offer dump_offer reload_offer
  load_offer-dump_offer o h = simp (
    carrier_back t o.owner h.owner,
    money_back t o.total h.currency,
    slices_back t o.slices h.slices,
    some_slice_back o.slices h.nonempty,
  )

  pub load_offers-dump_offers :
      (l : List Offer)
      → All IsNormalOffer l
      → traverse (load_offer t) (dump_offers l) ≡ some (reload_offers l)
  unfolding traverse dump_offers reload_offers
  load_offers-dump_offers [] h = refl
  load_offers-dump_offers (o ∷ l) h =
      simp (load_offer-dump_offer o h.0, load_offers-dump_offers l h.1)
