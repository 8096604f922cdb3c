-- ===== src/Search/Cache/Laws.antt =====
-- What the cache of flydesk/search/cache.py does to a search.
use mathlib.Core.Path.{subst}
use fly_desk.Prelude.{
  ℕ, ◌+◌, ◌≡◌, ◌≢◌, refl, sym, ap, ◌∙◌, String, true, false, Option, none, some, List, [], ◌∷◌,
}
use fly_desk.Prelude.Lists.{All}
use fly_desk.Prelude.Options.{traverse}
use fly_desk.Errors.{Outcome, returned, raised, value_error, validation}
use fly_desk.Errors.Actions.{continue, or_raise, continue-eq-returned}
use fly_desk.Domain.Text.{CharTable}
use fly_desk.Domain.Models.{Offer}
use fly_desk.Domain.Criteria.{SearchCriteria}
use fly_desk.Search.Document.{
  OfferDoc, dump_offers, load_offer, reload_offers, IsNormalOffer, load_offers-dump_offers,
}
use fly_desk.Search.FanOut.{Loop, search_all}
use fly_desk.Search.Cache.{
  Reading, read, Platform, State, Found, cache_key, hit_of, look_up, count_cached, from_cache,
  search_live, count_live, store, finish, serve, with_world, cached_search,
}

-- The JSON library reads what it has written, which is never the empty text.
pub record IsJson {l : Loop} (r : Platform l) : Type 0 where
  pub loads-dumps : (docs : List OfferDoc) → r.loads (r.dumps docs) ≡ some docs
  pub some_text : (docs : List OfferDoc) → r.is_empty (r.dumps docs) ≡ false

-- A Redis that answers, and still has what was written last.
abbrev pub KeepsWrites : {l : Loop} → Platform l → Type 0
KeepsWrites {l} r =
    (k : String) (v : r.Text) (ttl : ℕ) (w : l.W)
    → r.get k (r.set k v ttl w).1 ≡ (read (some v), (r.set k v ttl w).1)

-- The result of a live search, marked as such.
abbrev pub as_live : Outcome (List Offer × List String) → Outcome Found
as_live (returned (offers, degraded)) = returned (offers, degraded, false)
as_live (raised e) = raised e

found_in : Outcome Found → List Offer × List String
found_in (returned (offers, degraded, _)) = (offers, degraded)
found_in (raised e) = ([], [])

module _ (t : CharTable) (l : Loop) (r : Platform l) where
  finish-outcome :
      (key : String) (x : Outcome (List Offer × List String) × State l)
      → (continue (finish t l r key) x).0 ≡ as_live x.0
  unfolding finish
  finish-outcome key (returned (offers, degraded), s) = refl
  finish-outcome key (raised e, s) = refl

  -- When Redis has nothing under the key or does not answer, the search is a live one of all
  -- providers with the same result, whatever becomes of the write.
  pub cached_search_live :
      (c : SearchCriteria) (s : State l)
      → let (reading, w) = r.get (cache_key t l r c) s.process.1 in
        hit_of t l r reading ≡ none
        → (cached_search t l r c s).0 ≡ as_live (search_all l c r.providers (s.process.0, w)).0
  unfolding cached_search look_up search_live
  cached_search_live c s miss =
      let (reading, w) = r.get (cache_key t l r c) s.process.1 in
      ap (λ h. (serve t l r c (cache_key t l r c) h (with_world t l r s w)).0) miss
      ∙ finish-outcome (cache_key t l r c) (search_live t l r c (with_world t l r s w))

  -- What a search that was not served from the cache has come from.
  record Live (c : SearchCriteria) (before : State l) (offers : List Offer) (degraded : List String)
      (s' : State l) : Type 0 where
    after : State l
    searched : search_live t l r c before ≡ (returned (offers, degraded), after)
    stored : s' ≡ store t l r (cache_key t l r c) offers degraded (count_live t l r degraded after)

  from_cache-not_live :
      (text : r.Text) (s s' : State l) (offers : List Offer) (degraded : List String)
      → from_cache t l r text s ≢ (returned (offers, degraded, false), s')
  unfolding from_cache count_cached
  from_cache-not_live text s s' offers degraded e =
      let (docs, s1, _, e1) =
        continue-eq-returned _ (or_raise (value_error "JSONDecodeError") (r.loads text) s) _ s' e in
      let (found, s2, _, e2) =
        continue-eq-returned _ (or_raise (validation "Offer") (traverse (load_offer t) docs) s1) _
          s' e1 in
      let same : ◌≡◌ {A = Outcome Found} (returned (found, [], true))
          (returned (offers, degraded, false)) =
        ap (λ (x : Outcome Found × State l). x.0) e2 in
      cc

  serve-Live :
      (c : SearchCriteria) (hit : Option r.Text) (s s' : State l) (offers : List Offer)
      (degraded : List String)
      → serve t l r c (cache_key t l r c) hit s ≡ (returned (offers, degraded, false), s')
      → Live c s offers degraded s'
  unfolding finish
  serve-Live c (some text) s s' offers degraded e =
      absurd (from_cache-not_live text s s' offers degraded e)
  serve-Live c none s s' offers degraded e =
      unfold found_in in
      let ((found, failed), s1, searched, ended) =
        continue-eq-returned (finish t l r (cache_key t l r c)) (search_live t l r c s) _ s' e in
      let value : ◌≡◌ {A = List Offer × List String} (found, failed) (offers, degraded) =
        ap (λ (x : Outcome Found × State l). found_in x.0) ended in
      record {
        after = s1;
        searched = searched ∙ ap (λ p. (returned p, s1)) value;
        stored =
            sym (ap (λ (x : Outcome Found × State l). x.1) ended)
            ∙ ap
                (λ (p : List Offer × List String).
                  store t l r (cache_key t l r c) p.0 p.1 (count_live t l r p.1 s1))
                value;
      }

  cached_search-Live :
      (c : SearchCriteria) (s s' : State l) (offers : List Offer) (degraded : List String)
      → cached_search t l r c s ≡ (returned (offers, degraded, false), s')
      → let (_, w) = r.get (cache_key t l r c) s.process.1 in
        Live c (with_world t l r s w) offers degraded s'
  unfolding cached_search look_up
  cached_search-Live c s s' offers degraded e =
      let (hit, s1, looked, served) =
        continue-eq-returned (serve t l r c (cache_key t l r c))
          (look_up t l r (cache_key t l r c) s) (offers, degraded, false) s' e in
      subst (λ v. Live c v offers degraded s')
        (ap (λ (x : Outcome (Option r.Text) × State l). x.1) (sym looked))
        (serve-Live c hit s1 s' offers degraded served)

  -- A result with holes is not kept. All that the search does to the breakers and the world, Redis
  -- among it, is to read the key once and then to ask the providers: nothing is written.
  pub degraded_not_cached :
      (c : SearchCriteria) (s s' : State l) (offers : List Offer) (name : String)
      (names : List String)
      → cached_search t l r c s ≡ (returned (offers, name ∷ names, false), s')
      → let (_, w) = r.get (cache_key t l r c) s.process.1 in
        search_all l c r.providers (s.process.0, w) ≡ (returned (offers, name ∷ names), s'.process)
  unfolding search_live store count_live
  degraded_not_cached c s s' offers name names e =
      let live = cached_search-Live c s s' offers (name ∷ names) e in
      ap (λ (x : Outcome (List Offer × List String) × State l). (x.0, x.1.process)) live.searched
      ∙ ap (λ (v : State l). (returned (offers, name ∷ names), v.process)) (sym live.stored)

  pub written-hit :
      (docs : List OfferDoc)
      → IsJson r
      → hit_of t l r (read (some (r.dumps docs))) ≡ some (r.dumps docs)
  unfolding hit_of
  written-hit docs json = rw (json.some_text docs)

  look_up-stored :
      IsJson r
      → KeepsWrites r
      → (key : String) (offers : List Offer) (s : State l)
      → look_up t l r key (store t l r key offers [] s)
        ≡ (returned (some (r.dumps (dump_offers offers))), store t l r key offers [] s)
  unfolding look_up store
  look_up-stored json keeps key offers s =
      let text = r.dumps (dump_offers offers) in
      let w = (r.set key text r.offer_cache_ttl s.process.1).1 in
      ap (λ (x : Reading r.Text × l.W). (returned (hit_of t l r x.0), with_world t l r s x.1))
        (keeps key text r.offer_cache_ttl s.process.1)
      ∙ ap (λ h. (returned h, with_world t l r s w)) (written-hit (dump_offers offers) json)

  pub from_cache-dumps :
      IsJson r
      → (offers : List Offer) (s : State l) → All (IsNormalOffer t) offers
      → from_cache t l r (r.dumps (dump_offers offers)) s ≡ (
        returned (reload_offers offers, [], true),
        record s { searches_cached = s.searches_cached + 1 },
      )
  unfolding from_cache count_cached
  from_cache-dumps json offers s normal =
      simp (json.loads-dumps (dump_offers offers), load_offers-dump_offers t offers normal)

  served_again :
      IsJson r
      → KeepsWrites r
      → (c : SearchCriteria) (key : String) (offers : List Offer) (s : State l)
      → All (IsNormalOffer t) offers
      → cache_key t l r c ≡ key
      → let s' = store t l r key offers [] s in
        cached_search t l r c s' ≡ (
          returned (reload_offers offers, [], true),
          record s' { searches_cached = s'.searches_cached + 1 },
        )
  unfolding cached_search
  served_again json keeps c key offers s normal same =
      let s' = store t l r key offers [] s in
      ap (λ k. continue (serve t l r c k) (look_up t l r k s')) same
      ∙ ap (continue (serve t l r c key)) (look_up-stored json keeps key offers s)
      ∙ from_cache-dumps json offers s' normal

  -- A search that was live and complete is served from the cache when it is repeated: the same offers
  -- in the same order, their prices rounded to hundredths, with no provider asked, and nothing else
  -- changed but the counter.
  pub cached_search_replay :
      IsJson r
      → KeepsWrites r
      → (c c' : SearchCriteria) (s s' : State l) (offers : List Offer)
      → All (IsNormalOffer t) offers
      → cache_key t l r c' ≡ cache_key t l r c
      → cached_search t l r c s ≡ (returned (offers, [], false), s')
      → cached_search t l r c' s' ≡ (
        returned (reload_offers offers, [], true),
        record s' { searches_cached = s'.searches_cached + 1 },
      )
  cached_search_replay json keeps c c' s s' offers normal same e =
      let live = cached_search-Live c s s' offers [] e in
      subst
        (λ (v : State l). cached_search t l r c' v ≡ (
          returned (reload_offers offers, [], true),
          record v { searches_cached = v.searches_cached + 1 },
        ))
        (sym live.stored)
        (served_again json keeps c' (cache_key t l r c) offers (count_live t l r [] live.after)
          normal same)
