-- ===== src/Search/Cache.antt =====
-- flydesk/search/cache.py: `cached_search`. Redis, the hash, the JSON library and the event loop are
-- parameters; Redis works on the world of the event loop.
pub mod Laws
use Prim.Native.String.{◌++◌}
use fly_desk.Prelude.{
  ℕ, ◌+◌, String, Bool, true, false, Option, none, some, List, [], ◌∷◌, str_eq, if◌then◌else◌,
}
use fly_desk.Prelude.{◌++◌ as ◌+++◌}
use fly_desk.Prelude.Options.{traverse}
use fly_desk.Errors.{validation, value_error, Outcome, returned, raised}
use fly_desk.Errors.Actions.{Action, pure, or_raise, ◌>>=◌}
use fly_desk.Domain.Text.{CharTable}
use fly_desk.Domain.Models.{Offer}
use fly_desk.Domain.Criteria.{SearchCriteria}
use fly_desk.Search.Document.{OfferDoc, dump_offers, load_offer}
use fly_desk.Search.FanOut.{Loop, AsyncFlightProvider, Process, search_all}

-- The answer of `GET`, with the type of the texts that `json.dumps` makes.
pub data Reading (Text : Type 0) : Type 0 where
  read : Option Text → Reading Text
  read_error : Reading Text

-- `dumps` and `loads` are of the JSON library, for lists of documents of offers.
pub record Platform (l : Loop) : Type 1 where
  pub Text : Type 0
  -- `not hit`
  pub is_empty : Text → Bool
  pub get : String → l.W → Reading Text × l.W
  -- whether Redis has answered
  pub set : String → Text → ℕ → l.W → Bool × l.W
  pub model_dump_json : SearchCriteria → String
  pub sha1 : String → String
  pub dumps : List OfferDoc → Text
  pub loads : Text → Option (List OfferDoc)
  -- `get_settings().offer_cache_ttl`
  pub offer_cache_ttl : ℕ
  -- `get_async_providers()`
  pub providers : List (AsyncFlightProvider l)

-- The process with its counters `flydesk_searches_total` and `flydesk_provider_degraded_total`, the
-- latter as the list of the names counted.
pub record State (l : Loop) : Type 0 where
  pub process : Process l
  pub searches_cached : ℕ
  pub searches_live : ℕ
  pub provider_degraded : List String

abbrev pub Found : Type 0
Found = List Offer × List String × Bool

module _ (t : CharTable) (l : Loop) (r : Platform l) where
  -- `_cache_key`
  unfoldable pub cache_key : SearchCriteria → String
  cache_key criteria = "offers:" ++ r.sha1 (r.model_dump_json criteria)

  -- The value that is read; one that cannot be read, or is empty, counts as none.
  unfoldable pub hit_of : Reading r.Text → Option r.Text
  hit_of read_error = none
  hit_of (read none) = none
  hit_of (read (some text)) = if r.is_empty text then none else some text

  abbrev pub with_world : State l → l.W → State l
  with_world s w = record s { process = (s.process.0, w) }

  unfoldable pub look_up : String → Action (State l) (Option r.Text)
  unfolding hit_of
  look_up key s =
      let (reading, w) = r.get key s.process.1 in (returned (hit_of reading), with_world s w)

  unfoldable pub count_cached : List Offer → Action (State l) Found
  count_cached offers s =
      (returned (offers, [], true), record s { searches_cached = s.searches_cached + 1 })

  -- The branch `if hit`.
  unfoldable pub from_cache : r.Text → Action (State l) Found
  from_cache text = do
    docs ← or_raise (value_error "JSONDecodeError") (r.loads text)
    offers ← or_raise (validation "Offer") (traverse (load_offer t) docs)
    count_cached offers

  unfoldable pub search_live : SearchCriteria → Action (State l) (List Offer × List String)
  search_live criteria s =
      let (res, process) = search_all l criteria r.providers s.process in
      (res, record s { process = process })

  -- The counters after a live search.
  unfoldable pub count_live : List String → State l → State l
  count_live degraded s = record s {
    searches_live = s.searches_live + 1;
    provider_degraded = s.provider_degraded +++ degraded;
  }

  -- The write, whose failure is only logged. A degraded result is not written.
  unfoldable pub store : String → List Offer → List String → State l → State l
  store key offers [] s =
      let (_, w) = r.set key (r.dumps (dump_offers offers)) r.offer_cache_ttl s.process.1 in
      with_world s w
  store key offers (name ∷ names) s = s

  unfoldable pub finish : String → List Offer × List String → Action (State l) Found
  unfolding count_live store
  finish key (offers, degraded) s =
      (returned (offers, degraded, false), store key offers degraded (count_live degraded s))

  abbrev pub serve : SearchCriteria → String → Option r.Text → Action (State l) Found
  serve criteria key none = do found ← search_live criteria; finish key found
  serve criteria key (some text) = from_cache text

  unfoldable pub cached_search : SearchCriteria → Action (State l) Found
  unfolding look_up
  cached_search criteria = do
    hit ← look_up (cache_key criteria)
    serve criteria (cache_key criteria) hit
