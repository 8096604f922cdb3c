-- ===== src/Demo/Seed/Kept.antt =====
-- What Redis holds after flydesk/demo writes to it.
use Prim.Native.String.{◌++◌}
use fly_desk.Prelude.{◌≡◌, ◌≢◌, refl, ap, ◌∙◌, String, Bool, true, false, some, List, [], ◌∷◌}
use mathlib.Core.Path.{subst}
use fly_desk.Prelude.Lists.{All}
use fly_desk.Errors.{Outcome, returned, raised}
use fly_desk.Errors.Actions.{Action, continue, continue-eq-returned, ◌>>=◌}
use fly_desk.Domain.Text.{CharTable}
use fly_desk.Domain.Models.{Offer}
use fly_desk.Domain.Criteria.{SearchCriteria}
use fly_desk.Search.Document.{dump_offer, dump_offers}
use fly_desk.Search.FanOut.{Loop}
use fly_desk.Search.Cache.{Platform, Reading, read}
use fly_desk.Demo.Seed.{
  Shop, cache_key, offer_key, answering, put, put_each, put_bundle, load_offers, counted, seed,
}
use fly_desk.Demo.Seed.Store.{offer_key-ne, offer_key-apart, HaveOwnIds, IsStore}

continue-keeps :
    {S A B : Type 0} (P : S → Type 0) (f : A → Action S B) (x : Outcome A × S)
    → P x.1
    → ((a : A) (s : S) → P s → P (f a s).1)
    → P (continue f x).1
continue-keeps P f (returned a, s) h k = k a s h
continue-keeps P f (raised e, s) h k = h

abbrev offers_in : Outcome (List Offer) → List Offer
offers_in (returned a) = a
offers_in (raised x) = []

module _ (t : CharTable) (l : Loop) (r : Platform l) (d : Shop l r) (store : IsStore d) where
  -- The key holds the text.
  abbrev pub Has : String → r.Text → l.W → Type 0
  Has key text w = (r.get key w).0 ≡ read (some text)

  answering-state : {S : Type 0} (x : Bool × S) → (answering x).1 ≡ x.1
  answering-state (true, s) = refl
  answering-state (false, s) = refl

  put-Has : (key : String) (text : r.Text) (w : l.W) → Has key text (put t l r d key text w).1
  put-Has key text w =
      ap (λ v. (r.get key v).0) (answering-state (r.set key text d.offer_ttl w))
      ∙ ap (λ (x : Reading r.Text × l.W). x.0) (store.written key text d.offer_ttl w)

  put_other-Has :
      (key j : String) (text other : r.Text) (w : l.W)
      → j ≢ key
      → Has key text w
      → Has key text (put t l r d j other w).1
  put_other-Has key j text other w ne h =
      ap (λ v. (r.get key v).0) (answering-state (r.set j other d.offer_ttl w))
      ∙ store.others key j other d.offer_ttl w ne
      ∙ h

  -- Writing offers leaves the keys of others as they are.
  pub put_each-keeps :
      (key : String) (text : r.Text) (offers : List Offer) (w : l.W)
      → All (λ (o : Offer). offer_key o.id ≢ key) offers
      → Has key text w
      → Has key text (put_each t l r d offers w).1
  unfolding put_each
  put_each-keeps key text [] w ne h = h
  put_each-keeps key text (o ∷ rest) w ne h =
      continue-keeps (Has key text) (λ _. put_each t l r d rest)
        (put t l r d (offer_key o.id) (d.dump_one (dump_offer o)) w)
        (put_other-Has key (offer_key o.id) text (d.dump_one (dump_offer o)) w ne.0 h)
        (λ _ v hv. put_each-keeps key text rest v ne.1 hv)

  others_apart :
      (o : Offer) (rest : List Offer)
      → All (λ (p : Offer). p.id ≢ o.id) rest
      → All (λ (p : Offer). offer_key p.id ≢ offer_key o.id) rest
  others_apart o [] h = tt
  others_apart o (p ∷ rest) h = (offer_key-apart p.id o.id h.0, others_apart o rest h.1)

  abbrev HasOffer : l.W → Offer → Type 0
  HasOffer w o = Has (offer_key o.id) (d.dump_one (dump_offer o)) w

  -- Each offer is then found under its own key.
  put_each-All :
      (offers : List Offer) (w w' : l.W) (u : Unit {0})
      → HaveOwnIds (λ (o : Offer). o.id) offers
      → put_each t l r d offers w ≡ (returned u, w')
      → All (HasOffer w') offers
  unfolding put_each
  put_each-All [] w w' u own e = tt
  put_each-All (o ∷ rest) w w' u own e =
      let key = offer_key o.id in
      let text = d.dump_one (dump_offer o) in
      let (_, w1, first, e1) =
        continue-eq-returned (λ _. put_each t l r d rest) (put t l r d key text w) u w' e in
      let here =
        subst (Has key text) (ap (λ (x : Outcome Unit × l.W). x.1) first) (put-Has key text w) in
      let after = put_each-keeps key text rest w1 (others_apart o rest own.0) here in
      (
        subst (Has key text) (ap (λ (x : Outcome Unit × l.W). x.1) e1) after,
        put_each-All rest w1 w' u own.1 e1,
      )

  put_bundle-Has :
      (key : String) (offers : List Offer) (w : l.W)
      → Has key (r.dumps (dump_offers offers)) (put_bundle t l r d key offers w).1
  unfolding put_bundle
  put_bundle-Has key offers w =
      let text = r.dumps (dump_offers offers) in
      let note : Action l.W (Unit {0}) = λ v. answering (d.sadd "demo:bundles" key v) in
      let expire : Action l.W (Unit {0}) = λ v. answering (d.expire "demo:bundles" d.offer_ttl v) in
      continue-keeps (Has key text) (λ _. note >>= λ _. expire) (put t l r d key text w)
        (put-Has key text w)
        (λ _ v hv.
          continue-keeps (Has key text) (λ _. expire) (note v)
            (ap (λ u. (r.get key u).0) (answering-state (d.sadd "demo:bundles" key v))
              ∙ store.noted key "demo:bundles" key v
              ∙ hv)
            (λ _ u hu.
              ap (λ x. (r.get key x).0) (answering-state (d.expire "demo:bundles" d.offer_ttl u))
              ∙ store.kept key "demo:bundles" d.offer_ttl u
              ∙ hu))

  -- The steps of a call of `seed` that returns.
  pub record Seeded (c : SearchCriteria) (w w' : l.W) (offers : List Offer) : Type 0 where
    pub loaded : l.W
    pub bundled : l.W
    pub each : l.W
    pub from_load : load_offers t l r d c w ≡ (returned offers, loaded)
    pub after_bundle : (put_bundle t l r d (cache_key t l r d c) offers loaded).1 ≡ bundled
    pub after_each : put_each t l r d offers bundled ≡ (returned tt, each)
    pub ended : d.count_search each ≡ w'

  pub seed-Seeded :
      (c : SearchCriteria) (w w' : l.W) (offers : List Offer)
      → seed t l r d c w ≡ (returned offers, w')
      → Seeded c w w' offers
  unfolding seed cache_key
  seed-Seeded c w w' offers e =
      let key = cache_key t l r d c in
      let (found, w1, from_load, e1) =
        continue-eq-returned write (load_offers t l r d c w) offers w' e in
      let (_, w2, bundled, e2) =
        continue-eq-returned (λ _. finish found) (put_bundle t l r d key found w1) offers w' e1 in
      let (u, w3, each, e3) =
        continue-eq-returned (λ _. counted t l r d found) (put_each t l r d found w2) offers w'
          e2 in
      let same : found ≡ offers = ap (λ (x : Outcome (List Offer) × l.W). offers_in x.0) e3 in
      subst (Seeded c w w') same (record {
        loaded = w1;
        bundled = w2;
        each = w3;
        from_load = from_load;
        after_bundle = ap (λ (x : Outcome Unit × l.W). x.1) bundled;
        after_each = each;
        ended = ap (λ (x : Outcome (List Offer) × l.W). x.1) e3;
      })
    where
      finish : List Offer → Action l.W (List Offer)
      finish found = put_each t l r d found >>= λ _. counted t l r d found

      write : List Offer → Action l.W (List Offer)
      write found = put_bundle t l r d (cache_key t l r d c) found >>= λ _. finish found

  keys_apart :
      (b : String) (offers : List Offer)
      → All (λ (o : Offer). offer_key o.id ≢ "offers:" ++ b) offers
  keys_apart b [] = tt
  keys_apart b (o ∷ rest) = (offer_key-ne o.id b, keys_apart b rest)

  -- After `seed` the bundle is found under the key of the search.
  pub seed-Has :
      (c : SearchCriteria) (w w' : l.W) (offers : List Offer)
      → seed t l r d c w ≡ (returned offers, w')
      → Has (cache_key t l r d c) (r.dumps (dump_offers offers)) w'
  unfolding cache_key
  seed-Has c w w' offers e =
      let s = seed-Seeded c w w' offers e in
      let key = cache_key t l r d c in
      let text = r.dumps (dump_offers offers) in
      let bundled = subst (Has key text) s.after_bundle (put_bundle-Has key offers s.loaded) in
      let each = subst (Has key text) (ap (λ (x : Outcome Unit × l.W). x.1) s.after_each) (
        put_each-keeps key text offers s.bundled (keys_apart (r.sha1 (r.model_dump_json c)) offers)
          bundled) in
      subst (Has key text) s.ended (store.count_apart key s.each ∙ each)

  counted-All :
      (offers : List Offer) (w : l.W)
      → All (HasOffer w) offers
      → All (HasOffer (d.count_search w)) offers
  counted-All [] w h = tt
  counted-All (o ∷ rest) w h = (store.count_apart (offer_key o.id) w ∙ h.0, counted-All rest w h.1)

  -- After `seed` each offer is found under its own key.
  pub seed-All :
      (c : SearchCriteria) (w w' : l.W) (offers : List Offer)
      → HaveOwnIds (λ (o : Offer). o.id) offers
      → seed t l r d c w ≡ (returned offers, w')
      → All (λ o. Has (offer_key o.id) (d.dump_one (dump_offer o)) w') offers
  seed-All c w w' offers own e =
      let s = seed-Seeded c w w' offers e in
      subst (λ v. All (HasOffer v) offers) s.ended
        (counted-All offers s.each (put_each-All offers s.bundled s.each tt own s.after_each))
