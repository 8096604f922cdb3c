-- ===== src/Providers/Duffel/Client/Failures.antt =====
-- How the calls of flydesk/providers/duffel/client.py and async_client.py fail.
use fly_desk.Prelude.{
  ◌≡◌, refl, true, String, ◌⊎◌, inl, inr, Option, none, some, List, ◌==◌, leb, Bool-cases,
}
use fly_desk.Prelude.Options.{traverse}
use fly_desk.Errors.{
  Exception, domain, validation, value_error, offer_not_found, is_provider_error, init,
}
use fly_desk.Errors.Actions.{OnlyRaises, or_raise, or_raise-OnlyRaises, continue-OnlyRaises}
use fly_desk.Domain.Text.{CharTable}
use fly_desk.Domain.Models.{BookingPassenger}
use fly_desk.Domain.Criteria.{SearchCriteria}
use fly_desk.Providers.Duffel.{DuffelOffer}
use fly_desk.Providers.Duffel.Mapper.{map_offer, map_order}
use fly_desk.Providers.Duffel.Payloads.{
  Call, search_call, offer_call, order_call, search_payload, order_payload,
}
use fly_desk.Providers.Duffel.Client.{
  Http, World, Reply, timed_out, transport_error, answered, json_of, outcome_of, async_outcome_of,
  send, request, async_request, read_offers, search, async_search, fetch_offer, get_offer,
  read_order, post_order, create_order,
}

-- A failure of the provider that is no missing offer, or an answer that cannot be read.
abbrev pub IsOutage : Exception → Type 0
IsOutage (domain e) = is_provider_error e.cls ≡ true
IsOutage (validation _) = Unit
IsOutage (value_error _) = Unit
IsOutage _ = ⊥

-- The same, or a missing offer.
abbrev pub IsExpected : Exception → Type 0
IsExpected (domain e) = (is_provider_error e.cls ≡ true) ⊎ (e.cls ≡ offer_not_found)
IsExpected (validation _) = Unit
IsExpected (value_error _) = Unit
IsExpected _ = ⊥

module _ (h : Http) where
  json_of-Outage :
      (content : Option h.Json) (w : World h) → OnlyRaises IsOutage (json_of h content, w)
  json_of-Outage none w = tt
  json_of-Outage (some json) w = tt

  json_of-Expected :
      (content : Option h.Json) (w : World h) → OnlyRaises IsExpected (json_of h content, w)
  json_of-Expected none w = tt
  json_of-Expected (some json) w = tt

  outcome_of-Expected :
      (c : Call) (r : Reply h.Json) (w : World h) → OnlyRaises IsExpected (outcome_of h c r, w)
  unfolding outcome_of init is_provider_error
  outcome_of-Expected c timed_out w = inl refl
  outcome_of-Expected c (transport_error exc) w = inl refl
  outcome_of-Expected c (answered status content) w = elim (Bool-cases (status == 404)) [
    | inl missing ↦ rw missing (inr refl)
    | inr other_status ↦ elim (Bool-cases (leb 400 status)) [
      | inl bad ↦ rw (other_status, bad) (inl refl)
      | inr good ↦ rw (other_status, good) (json_of-Expected content w)
    ]
  ]

  async_outcome_of-Outage :
      (r : Reply h.Json) (w : World h) → OnlyRaises IsOutage (async_outcome_of h r, w)
  unfolding async_outcome_of init is_provider_error
  async_outcome_of-Outage timed_out w = refl
  async_outcome_of-Outage (transport_error exc) w = refl
  async_outcome_of-Outage (answered status content) w = elim (Bool-cases (leb 400 status)) [
    | inl bad ↦ rw bad refl
    | inr good ↦ rw good (json_of-Outage content w)
  ]

  request-Expected : (c : Call) (w : World h) → OnlyRaises IsExpected (request h c w)
  unfolding request
  request-Expected c w = outcome_of-Expected c (send h c w).0 (send h c w).1

module _ (t : CharTable) (h : Http) where
  read_offers-Raises :
      (P : Exception → Type 0) (json : h.Json) (w : World h)
      → P (validation "DuffelOfferRequestResponse")
      → P (validation "Offer")
      → OnlyRaises P (read_offers t h json w)
  unfolding read_offers
  read_offers-Raises P json w p q =
      continue-OnlyRaises P _
        (or_raise (validation "DuffelOfferRequestResponse") (h.offers_of json) w)
        (or_raise-OnlyRaises P _ (h.offers_of json) w p)
        (λ raw v.
          continue-OnlyRaises P _
            (or_raise (validation "Offer") (traverse (map_offer t h.iso_duration) raw) v)
            (or_raise-OnlyRaises P _ (traverse (map_offer t h.iso_duration) raw) v q) (λ l u. tt))

  fetch_offer-Expected : (id : String) (w : World h) → OnlyRaises IsExpected (fetch_offer t h id w)
  unfolding fetch_offer
  fetch_offer-Expected id w =
      continue-OnlyRaises IsExpected _ (request h (offer_call id) w)
        (request-Expected h (offer_call id) w)
        (λ raw v. or_raise-OnlyRaises IsExpected _ (h.offer_of raw) v tt)

  read_order-Expected :
      (ps : List BookingPassenger) (json : h.Json) (w : World h)
      → OnlyRaises IsExpected (read_order t h ps json w)
  unfolding read_order
  read_order-Expected ps json w =
      continue-OnlyRaises IsExpected _
        (or_raise (validation "DuffelOrderResponse") (h.order_of json) w)
        (or_raise-OnlyRaises IsExpected _ (h.order_of json) w tt)
        (λ made v.
          or_raise-OnlyRaises IsExpected _
            (map_order t h.iso_duration (h.now v.env) (h.now v.env) made ps) v tt)

  post_order-Expected :
      (ps : List BookingPassenger) (offer : DuffelOffer) (w : World h)
      → OnlyRaises IsExpected (post_order t h ps offer w)
  unfolding post_order
  post_order-Expected ps offer w =
      continue-OnlyRaises IsExpected _ (request h (order_call (order_payload offer ps)) w)
        (request-Expected h (order_call (order_payload offer ps)) w) (read_order-Expected ps)

  -- Whatever the network and Duffel do: a search, a look at an offer and a booking fail only with a
  -- missing offer, a provider error or timeout, or an answer that cannot be read. The search of the
  -- fan-out never reports a missing offer.
  pub client_failures :
      (criteria : SearchCriteria) (id : String) (ps : List BookingPassenger) (w : World h)
      → OnlyRaises IsExpected (search t h criteria w)
        × OnlyRaises IsOutage (async_search t h criteria w)
        × OnlyRaises IsExpected (get_offer t h id w)
        × OnlyRaises IsExpected (create_order t h id ps w)
  unfolding search async_search get_offer create_order async_request
  client_failures criteria id ps w =
      let c = search_call (search_payload criteria) in
      (
        continue-OnlyRaises IsExpected (read_offers t h) (request h c w) (request-Expected h c w)
            (λ json v. read_offers-Raises IsExpected json v tt tt),
        continue-OnlyRaises IsOutage (read_offers t h)
            (async_outcome_of h (send h c w).0, (send h c w).1)
            (async_outcome_of-Outage h (send h c w).0 (send h c w).1)
            (λ json v. read_offers-Raises IsOutage json v tt tt),
        continue-OnlyRaises IsExpected _ (fetch_offer t h id w) (fetch_offer-Expected id w)
            (λ raw v. or_raise-OnlyRaises IsExpected _ (map_offer t h.iso_duration raw) v tt),
        continue-OnlyRaises IsExpected (post_order t h ps) (fetch_offer t h id w)
            (fetch_offer-Expected id w) (post_order-Expected ps),
      )
