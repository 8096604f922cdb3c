-- ===== src/Demo/Seed/Served.antt =====
-- The search of flydesk/search/cache.py finds what demo/seed.py has written.
use fly_desk.Prelude.{ℕ, ◌+◌, ◌≡◌, ap, ◌∙◌, String, true, List, []}
use fly_desk.Errors.{returned}
use fly_desk.Errors.Actions.{continue}
use fly_desk.Domain.Text.{CharTable, IsUnicode}
use fly_desk.Domain.Models.{Offer}
use fly_desk.Domain.Criteria.{SearchCriteria}
use fly_desk.Resilience.{Breakers}
use fly_desk.Search.Document.{dump_offers, reload_offers}
use fly_desk.Search.FanOut.{Loop}
use fly_desk.Search.Cache.{
  Platform, State, cache_key, hit_of, look_up, serve, from_cache, with_world, cached_search,
}
use fly_desk.Search.Cache.Laws.{IsJson, written-hit, from_cache-dumps}
use fly_desk.Demo.Seed.Store.{IsStore}
use fly_desk.Demo.Seed.Kept.{seed-Has}
use fly_desk.Demo.Seed.Normal.{FindsNormal, seed-IsNormalOffer}
use fly_desk.Demo.Seed as Seed
use fly_desk.Demo.Seed.{Shop, offer_key, answering, put, put_each, put_bundle, load_offers, seed}

module _ (t : CharTable) (u : IsUnicode t) (l : Loop) (r : Platform l) (d : Shop l r)
    (store : IsStore d) (finds : FindsNormal t d) where
  -- After `seed` a search for the same criteria is served from the cache, with the offers that `seed`
  -- has returned, in their order, with prices rounded to hundredths.
  pub seed_served :
      IsJson r
      → (c : SearchCriteria) (w w' : l.W) (offers : List Offer) (breakers : Breakers)
        (cached live : ℕ) (degraded : List String)
      → seed t l r d c w ≡ (returned offers, w')
      → let s : State l = record {
        process = (breakers, w');
        searches_cached = cached;
        searches_live = live;
        provider_degraded = degraded;
      } in
        cached_search t l r c s
        ≡ (returned (reload_offers offers, [], true), record s { searches_cached = cached + 1 })
  unfolding cached_search look_up cache_key Seed.cache_key
  seed_served json c w w' offers breakers cached live degraded e =
      let key = cache_key t l r c in
      let text = r.dumps (dump_offers offers) in
      let s : State l = record {
        process = (breakers, w');
        searches_cached = cached;
        searches_live = live;
        provider_degraded = degraded;
      } in
      let after = (r.get key w').1 in
      ap (λ h. continue (serve t l r c key) (returned (hit_of t l r h), with_world t l r s after))
        (seed-Has t l r d store c w w' offers e)
      ∙ ap (λ h. continue (serve t l r c key) (returned h, with_world t l r s after))
          (written-hit t l r (dump_offers offers) json)
      ∙ ap (λ v. from_cache t l r text (with_world t l r s v)) (store.only_read key w')
      ∙ from_cache-dumps t l r json offers s
          (seed-IsNormalOffer t u l r d finds store c w w' offers e)
