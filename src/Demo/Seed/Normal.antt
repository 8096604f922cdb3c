-- ===== src/Demo/Seed/Normal.antt =====
-- The offers of demo/seed.py are well-formed.
use mathlib.Core.Path.{subst}
use fly_desk.Prelude.{refl, Bool-cases, inl, inr, ◌≡◌, ap, Option, none, some, List, [], ◌∷◌, map}
use fly_desk.Prelude.Lists.{All}
use fly_desk.Errors.{is_exception, Outcome, returned, raised, validation}
use fly_desk.Errors.Actions.{Action, continue, or_raise}
use fly_desk.Domain.Text.{CharTable, IsUnicode}
use fly_desk.Domain.Time.{Datetime}
use fly_desk.Domain.Models.{Offer}
use fly_desk.Domain.Criteria.{SearchCriteria}
use fly_desk.Domain.Sorting.Laws.{sort_offers-All}
use fly_desk.Providers.Normal.{traverse-All}
use fly_desk.Providers.Duffel.Mapper.{map_offer}
use fly_desk.Providers.Duffel.Normal.{map_offer-IsNormalOffer}
use fly_desk.Search.Document.{IsNormalOffer}
use fly_desk.Search.FanOut.{Loop}
use fly_desk.Search.Cache.{Platform}
use fly_desk.Demo.Seed.{
  Shop, synthetic_offers, or_synthetic, or_fallback, live_offers, expiring, load_offers, seed,
}
use fly_desk.Demo.Seed.Store.{IsStore}
use fly_desk.Demo.Seed.Kept.{seed-Seeded}

-- The offers of a call that returns are well-formed.
abbrev pub GivesNormalOffers : CharTable → Outcome (List Offer) → Type 0
GivesNormalOffers t (returned offers) = All (IsNormalOffer t) offers
GivesNormalOffers t (raised e) = Unit

-- The live search builds its offers by the domain models.
abbrev pub FindsNormal : CharTable → {l : Loop} {r : Platform l} → Shop l r → Type 0
FindsNormal t {l} {r} d = (c : SearchCriteria) (w : l.W) → GivesNormalOffers t (d.live_search c w).0

module _ (t : CharTable) (u : IsUnicode t) (l : Loop) (r : Platform l) (d : Shop l r)
    (finds : FindsNormal t d) where
  fallback-Normal :
      (x : Outcome (List Offer)) (w : l.W)
      → GivesNormalOffers t x
      → GivesNormalOffers t (or_fallback t l r d x w).0
  fallback-Normal (returned offers) w h = h
  fallback-Normal (raised e) w h = elim (Bool-cases (is_exception e)) [
    | inl caught ↦ rw caught tt
    | inr past ↦ rw past tt
  ]

  live-Normal : (c : SearchCriteria) (w : l.W) → GivesNormalOffers t (live_offers t l r d c w).0
  unfolding live_offers
  live-Normal c w = elim (Bool-cases d.live_duffel) [
    | inl on ↦ rw on (fallback-Normal (d.live_search c w).0 (d.live_search c w).1 (finds c w))
    | inr off ↦ rw off tt
  ]

  synthetic-Normal :
      (c : SearchCriteria) (o : Option (List Offer)) (w : l.W)
      → synthetic_offers t l r d c ≡ o
      → GivesNormalOffers t (or_raise {S = l.W} (validation "Offer") o w).0
  unfolding synthetic_offers
  synthetic-Normal c none w e = tt
  synthetic-Normal c (some offers) w e =
      traverse-All (map_offer t d.iso_duration) (IsNormalOffer t)
        (λ x o h. (map_offer-IsNormalOffer t u d.iso_duration x o h).0) _ offers e

  or_synthetic-Normal :
      (c : SearchCriteria) (live : List Offer) (w : l.W)
      → All (IsNormalOffer t) live
      → GivesNormalOffers t (or_synthetic t l r d c live w).0
  or_synthetic-Normal c [] w h = synthetic-Normal c (synthetic_offers t l r d c) w refl
  or_synthetic-Normal c (o ∷ rest) w h = h

  expiring-Normal :
      (at_time : Datetime) (offers : List Offer)
      → All (IsNormalOffer t) offers
      → All (IsNormalOffer t) (map (expiring t l r d at_time) offers)
  expiring-Normal at_time [] h = tt
  expiring-Normal at_time (o ∷ rest) h = (
    record {
      owner = h.0.owner;
      currency = h.0.currency;
      slices = h.0.slices;
      nonempty = h.0.nonempty;
    },
    expiring-Normal at_time rest h.1,
  )

  -- A step that keeps what holds of the offers.
  continue-Normal :
      (f : List Offer → Action l.W (List Offer)) (x : Outcome (List Offer) × l.W)
      → GivesNormalOffers t x.0
      → ((offers : List Offer) (w : l.W)
          → All (IsNormalOffer t) offers
          → GivesNormalOffers t (f offers w).0)
      → GivesNormalOffers t (continue f x).0
  continue-Normal f (returned offers, w) h k = k offers w h
  continue-Normal f (raised e, w) h k = tt

  load_offers-Normal :
      (c : SearchCriteria) (w : l.W) → GivesNormalOffers t (load_offers t l r d c w).0
  unfolding load_offers
  load_offers-Normal c w =
      continue-Normal _ (live_offers t l r d c w) (live-Normal c w) (λ live v h.
        continue-Normal _ (or_synthetic t l r d c live v) (or_synthetic-Normal c live v h)
          (λ offers v' h'.
            sort_offers-All (IsNormalOffer t) (map (expiring t l r d (d.fresh_expiry v')) offers)
              (expiring-Normal (d.fresh_expiry v') offers h')))

  -- What `seed` returns is well-formed.
  pub seed-IsNormalOffer :
      (store : IsStore d) (c : SearchCriteria) (w w' : l.W) (offers : List Offer)
      → seed t l r d c w ≡ (returned offers, w')
      → All (IsNormalOffer t) offers
  seed-IsNormalOffer store c w w' offers e =
      let s = seed-Seeded t l r d store c w w' offers e in
      subst (GivesNormalOffers t) (ap (λ (x : Outcome (List Offer) × l.W). x.0) s.from_load)
        (load_offers-Normal c w)
