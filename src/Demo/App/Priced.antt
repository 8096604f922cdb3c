-- ===== src/Demo/App/Priced.antt =====
-- What demo/app.py shows in a search is what it sells.
use Prim.Native.String.{◌++◌}
use mathlib.Core.Path.{subst}
use fly_desk.Prelude.{◌≡◌, ◌≢◌, sym, ap, ◌∙◌, true, String, none, some, List, [], ◌∷◌}
use fly_desk.Prelude.Lists.{All}
use fly_desk.Errors.{Outcome, returned, raised, validation}
use fly_desk.Errors.Actions.{or_raise, continue-eq-returned, or_raise-eq-returned}
use fly_desk.Domain.Text.{CharTable, IsUnicode}
use fly_desk.Domain.Time.{Date}
use fly_desk.Domain.Models.{Offer}
use fly_desk.Domain.Criteria.{SearchCriteria}
use fly_desk.Mongo.{Collection}
use fly_desk.Bookings.Repository
use fly_desk.Bookings.Repository.{id_of, index_field}
use fly_desk.Bookings.Service.{World, truthy, granted_reply, reservation_ttl}
use fly_desk.Search.Document.{OfferDoc, dump_offer, dump_offers, IsNormalOffer}
use fly_desk.Search.FanOut.{Loop}
use fly_desk.Search.Cache.{Platform, read}
use fly_desk.Demo.Seed.{Shop, offer_key, seed}
use fly_desk.Demo.Seed.Store.{HaveOwnIds, IsStore}
use fly_desk.Demo.Seed.Kept.{seed-All}
use fly_desk.Demo.Seed.Normal.{FindsNormal, seed-IsNormalOffer}
use fly_desk.Demo.App as Demo
use fly_desk.Demo.App.{
  Newest, criteria_of, injected, passenger_from, request_of, searched, search_answer, search, book,
}
use fly_desk.Demo.Cockpit.{Cockpit, Reply, answered, refused, crashed, SearchBody, SearchAnswer}
use fly_desk.Demo.App.Sold.{IsCockpit, IsSold, offer-IsSold}

module _ (t : CharTable) (u : IsUnicode t) (l : Loop) (r : Platform l) (d : Shop l r)
    (a : Cockpit r) (col : Collection id_of index_field) (newest : Newest col) (store : IsStore d)
    (cockpit : IsCockpit d a) (finds : FindsNormal t d) where
  -- Documents with ids of their own are of offers with ids of their own.
  ids_apart :
      (o : Offer) (rest : List Offer)
      → All (λ (c : OfferDoc). c.id ≢ o.id) (dump_offers rest)
      → All (λ (p : Offer). p.id ≢ o.id) rest
  unfolding dump_offers dump_offer
  ids_apart o [] h = tt
  ids_apart o (p ∷ rest) h = (h.0, ids_apart o rest h.1)

  own_ids :
      (offers : List Offer)
      → HaveOwnIds (λ (c : OfferDoc). c.id) (dump_offers offers)
      → HaveOwnIds (λ (o : Offer). o.id) offers
  unfolding dump_offers dump_offer
  own_ids [] h = tt
  own_ids (o ∷ rest) h = (ids_apart o rest h.0, own_ids rest h.1)

  all-IsSold :
      (k : String) (w : World t col (injected t l r d a)) (offers : List Offer)
      → ((o : Offer)
          → IsNormalOffer t o
          → (r.get (offer_key o.id) w.env).0 ≡ read (some (d.dump_one (dump_offer o)))
          → IsSold t l r d a col newest cockpit k w (dump_offer o))
      → All (IsNormalOffer t) offers
      → All
          (λ (o : Offer).
            (r.get (offer_key o.id) w.env).0 ≡ read (some (d.dump_one (dump_offer o))))
          offers
      → All (IsSold t l r d a col newest cockpit k w) (dump_offers offers)
  unfolding dump_offers
  all-IsSold k w [] sells normal has = tt
  all-IsSold k w (o ∷ rest) sells normal has =
      (sells o normal.0 has.0, all-IsSold k w rest sells normal.1 has.1)

  answer_in : SearchAnswer → Reply SearchAnswer → SearchAnswer
  answer_in default (answered b) = b
  answer_in default (refused n m) = default
  answer_in default (crashed e) = default

  returned_in : SearchAnswer → Outcome SearchAnswer → SearchAnswer
  returned_in default (returned b) = b
  returned_in default (raised e) = default

  reply-eq-answered :
      (x : Outcome SearchAnswer × l.W) (b : SearchAnswer) (w' : l.W)
      → Demo.reply_of (λ (c : SearchAnswer). c) x ≡ (answered b, w')
      → x ≡ (returned b, w')
  unfolding answer_in
  reply-eq-answered (returned c, v) b w' e =
      ap (λ (y : Reply SearchAnswer × l.W). (returned (answer_in b y.0), y.1)) e
  reply-eq-answered (raised x, v) b w' e =
      let bad : crashed x ≡ answered b = ap (λ (y : Reply SearchAnswer × l.W). y.0) e in cc

  -- The offers behind an answer to a search.
  search-offers :
      (body : SearchBody) (w w' : l.W) (b : SearchAnswer)
      → search t l r d a body w ≡ (answered b, w')
      → (c : SearchCriteria) × (offers : List Offer) × (seed t l r d c w ≡ (returned offers, w'))
        × (b.offers ≡ dump_offers offers)
  unfolding search search_answer returned_in
  search-offers body w w' b e =
      let run = reply-eq-answered (searched t l r d a body w) b w' e in
      let (c, w1, valid, e1) =
        continue-eq-returned _ (or_raise (validation "SearchCriteria") (criteria_of t body) w) b w'
          run in
      let (offers, w2, seeded, e2) = continue-eq-returned _ (seed t l r d c w1) b w' e1 in
      let same =
        (or_raise-eq-returned (validation "SearchCriteria") (criteria_of t body) w w1 c valid).1 in
      (
        c,
        offers,
        ap (seed t l r d c) same
            ∙ seeded
            ∙ ap (λ (y : Outcome SearchAnswer × l.W). (returned offers, y.1)) e2,
        ap (λ (y : Outcome SearchAnswer × l.W). (returned_in b y.0).offers) (sym e2),
      )

  -- A search of the demonstration was answered with offers of distinct ids. Then each offer of the
  -- answer can be booked with a key that is not in use, if Redis does not refuse the key: the booking
  -- is answered with the price and the flights that the search has shown, and is counted.
  pub search_then_book :
      (body : SearchBody) (w : World t col (injected t l r d a)) (e : l.W) (shown : SearchAnswer)
      (k : String) (born_on : Date)
      → search t l r d a body w.env ≡ (answered shown, e)
      → HaveOwnIds (λ (c : OfferDoc). c.id) shown.offers
      → truthy (some k) ≡ some k
      → Repository.find_by_idempotency_key t col w.orders k ≡ returned none
      → granted_reply t col (injected t l r d a) (a.set_nx ("idem:" ++ k) reservation_ttl e).0
        ≡ true
      → a.date_of "1980-07-24" ≡ some born_on
      → All (IsSold t l r d a col newest cockpit k (record w { env = e })) shown.offers
  search_then_book body w e shown k born_on found own keyed unused granted born =
      let (c, offers, seeded, same) = search-offers body w.env e shown found in
      let v = record w { env = e } in
      let own' = own_ids offers (subst (HaveOwnIds (λ (x : OfferDoc). x.id)) same own) in
      subst (All (IsSold t l r d a col newest cockpit k v)) (sym same) (
        all-IsSold k v offers
          (λ o normal has.
            offer-IsSold t l r d a col newest cockpit k v born_on o keyed unused granted born normal
              has)
          (seed-IsNormalOffer t u l r d finds store c w.env e offers seeded)
          (seed-All t l r d store c w.env e offers own' seeded))
