-- ===== src/Api/Searches.antt =====
-- flydesk/search/views.py. What `SearchRequestSerializer` makes of a body is a parameter.
pub mod Available
use fly_desk.Prelude.{ℕ, String, Bool, Option, List}
use fly_desk.Prelude.Lists.{length}
use fly_desk.Errors.{Exception, ErrorResponse, validation, Outcome, returned, raised}
use fly_desk.Errors.Actions.{Action, raise, or_raise, ◌>>=◌}
use fly_desk.Domain.Text.{CharTable}
use fly_desk.Domain.Criteria.{Request, build_criteria}
use fly_desk.Search.Document.{OfferDoc, dump_offers}
use fly_desk.Search.FanOut.{Loop}
use fly_desk.Search.Cache.{Platform, State, Found, cached_search}
use fly_desk.Api.{HttpReply, dispatch}

pub record SearchBody : Type 0 where
  pub count : ℕ
  pub cached : Bool
  pub degraded_providers : List String
  pub offers : List OfferDoc

unfoldable pub body_of : Found → SearchBody
unfolding dump_offers
body_of (offers, degraded, cached) = record {
  count = length offers;
  cached = cached;
  degraded_providers = degraded;
  offers = dump_offers offers;
}

module _ (t : CharTable) (l : Loop) (r : Platform l)
    (default : Exception → Option ErrorResponse) where
  abbrev pub searched_for : Request → Action (State l) Found
  searched_for form = do
    criteria ← or_raise (validation "SearchCriteria") (build_criteria t form)
    cached_search t l r criteria

  abbrev pub searched : Outcome Request → Action (State l) Found
  searched (raised e) = raise e
  searched (returned form) = searched_for form

  -- `SearchView.post` on a validated body
  unfoldable pub post : Outcome Request → State l → HttpReply SearchBody × State l
  unfolding body_of
  post validated s = dispatch default 200 body_of (searched validated s)
