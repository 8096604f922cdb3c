-- ===== src/Bookings/Service/Effects.antt =====
-- What a call of `create_booking` leaves behind, however it ends.
use fly_desk.Prelude.{
  ◌+◌, ◌≡◌, refl, sym, ap, ◌∙◌, Bool, true, false, String, ◌⊎◌, inl, inr, Option, none, some, [],
  ◌∷◌, Option-cases,
}
use mathlib.Core.Path.{subst}
use Prim.Native.String.{◌++◌}
use fly_desk.Prelude.Options.{traverse}
use fly_desk.Errors.{Outcome, returned, raised}
use fly_desk.Domain.Text.{CharTable}
use fly_desk.Domain.Models.{OutboxEvent, Order}
use fly_desk.Mongo.{Collection}
use fly_desk.Bookings.Repository
use fly_desk.Bookings.Repository.{id_of, index_field}
use fly_desk.Bookings.Service.Ports.{Platform}
use fly_desk.Bookings.Service.{
  World, Request, booking_confirmed_event, truthy, stage, continue, find_key, reserve, checked,
  stage_event, place_order, resolve, persist, saved, book, create_with, create_booking,
  winner_or_raise, existing_or_in_progress, book_or_recheck, replay_or_reserve, granted_reply,
  reservation_ttl,
}

module _ (t : CharTable) (col : Collection id_of index_field) (p : Platform) where
  -- No order and no count has changed.
  abbrev pub Untouched : World t col p → World t col p → Type 0
  Untouched w w' = (w'.orders ≡ w.orders) × (w'.bookings ≡ w.bookings)

  -- The order was saved, in one write with exactly one event, which is a fresh announcement of
  -- this order that has not been published.
  pub record Booked (w w' : World t col p) (o : Order) : Type 0 where
    pub stored : Repository.save t col w.orders o ≡ some w'.orders
    pub counted : w'.bookings ≡ w.bookings + 1
    pub event : OutboxEvent
    pub staged : o.outbox ≡ event ∷ []
    pub kind : event.kind ≡ "BookingConfirmed"
    pub announces : event.payload.order_id ≡ some o.id
    pub unpublished : event.published_at ≡ none

  abbrev pub Effect : World t col p → Outcome Order × World t col p → Type 0
  Effect w (res, w') = Untouched w w' ⊎ ((o : Order) × (res ≡ returned o) × Booked w w' o)

  -- What `place_order` hands on: an order with its one event, in an untouched world.
  abbrev pub Staged : World t col p → Outcome Order × World t col p → Type 0
  Staged w (returned o, w') =
      Untouched w w'
      × (event : OutboxEvent) × (o.outbox ≡ event ∷ [])
      × (event.kind ≡ "BookingConfirmed")
      × (event.payload.order_id ≡ some o.id)
      × (event.published_at ≡ none)
  Staged w (raised e, w') = Untouched w w'

  stage_event-Staged :
      (key : Option String) (o : Order) (w v : World t col p)
      → Untouched w v
      → Staged w (stage_event t col p key o v)
  unfolding stage_event stage booking_confirmed_event
  stage_event-Staged none o w v h = (
    h,
    booking_confirmed_event (p.uuid v.env).0 (p.now (p.uuid v.env).1) o,
    refl,
    refl,
    refl,
    refl,
  )
  stage_event-Staged (some key) o w v h = (
    h,
    booking_confirmed_event (p.uuid v.env).0 (p.now (p.uuid v.env).1) o,
    refl,
    refl,
    refl,
    refl,
  )

  provided-Staged :
      (key : Option String) (w v : World t col p) (res : Outcome Order)
      → Untouched w v
      → Staged w (continue (stage_event t col p key) res v)
  provided-Staged key w v (returned o) h = stage_event-Staged key o w v h
  provided-Staged key w v (raised e) h = h

  pub place_order-Staged :
      (r : Request p) (key : Option String) (w v : World t col p)
      → Untouched w v
      → Staged w (place_order t col p r key v)
  unfolding place_order
  place_order-Staged r key w v h = elim (Option-cases (traverse p.passenger r.passengers_data)) [
    | inl bad ↦ rw (bad, checked) h
    | inr (passengers, good) ↦
        rw (good, checked)
          (provided-Staged key w _ (p.create_order r.provider_name r.offer_id passengers v.env).0 h)
  ]

  pub resolve-same : (key : Option String) (w : World t col p) → (resolve t col p key w).1 ≡ w
  unfolding resolve
  resolve-same none w = refl
  resolve-same (some key) w = go (Repository.find_by_idempotency_key t col w.orders key)
    where
      go : (found : Outcome (Option Order)) → (continue (winner_or_raise t col p) found w).1 ≡ w
      go (returned none) = refl
      go (returned (some winner)) = refl
      go (raised e) = refl

  persist-Effect :
      (key : Option String) (o : Order) (w v : World t col p)
      → Staged w (returned o, v)
      → Effect w (persist t col p key o v)
  unfolding persist
  persist-Effect key o w v (h, event, staged, kind, announces, unpublished) =
      elim (Option-cases (Repository.save t col v.orders o)) [
        | inl clash ↦ rw (clash, saved) (inl (subst (Untouched w) (sym (resolve-same key v)) h))
        | inr (orders, stored) ↦
            rw (stored, saved)
              (inr (
                o,
                refl,
                record {
                  stored = ap (λ s. Repository.save t col s o) (sym h.0) ∙ stored;
                  counted = ap (λ n. n + 1) h.1;
                  event = event;
                  staged = staged;
                  kind = kind;
                  announces = announces;
                  unpublished = unpublished;
                },
              ))
      ]

  book-Effect :
      (r : Request p) (key : Option String) (w v : World t col p)
      → Untouched w v
      → Effect w (book t col p r key v)
  unfolding book
  book-Effect r key w v h =
      go (place_order t col p r key v).0 (place_order t col p r key v).1
        (place_order-Staged r key w v h)
    where
      go :
          (res : Outcome Order) (u : World t col p)
          → Staged w (res, u)
          → Effect w (continue (persist t col p key) res u)
      go (returned o) u st = persist-Effect key o w u st
      go (raised e) u st = inl st

  found_again-Effect :
      (found : Outcome (Option Order)) (w v : World t col p)
      → Untouched w v
      → Effect w (continue (existing_or_in_progress t col p) found v)
  found_again-Effect (returned none) w v h = inl h
  found_again-Effect (returned (some o)) w v h = inl h
  found_again-Effect (raised e) w v h = inl h

  recheck-Effect :
      (r : Request p) (key : String) (w v : World t col p) (free : Bool)
      → Untouched w v
      → Effect w (book_or_recheck t col p r key free v)
  recheck-Effect r key w v true h = book-Effect r (some key) w v h
  recheck-Effect r key w v false h =
      unfold find_key in
      found_again-Effect (Repository.find_by_idempotency_key t col v.orders key) w v h

  found-Effect :
      (r : Request p) (key : String) (w : World t col p) (found : Outcome (Option Order))
      → Effect w (continue (replay_or_reserve t col p r key) found w)
  unfolding reserve
  found-Effect r key w (returned none) =
      recheck-Effect r key w _
        (granted_reply t col p (p.set_nx ("idem:" ++ key) reservation_ttl w.env).0) (refl, refl)
  found-Effect r key w (returned (some o)) = inl (refl, refl)
  found-Effect r key w (raised e) = inl (refl, refl)

  create_with-Effect :
      (r : Request p) (key : Option String) (w : World t col p)
      → Effect w (create_with t col p r key w)
  unfolding find_key
  create_with-Effect r none w = book-Effect r none w w (refl, refl)
  create_with-Effect r (some key) w =
      found-Effect r key w (Repository.find_by_idempotency_key t col w.orders key)

  -- However `create_booking` ends, it has saved nothing, or exactly the order that it returns,
  -- together with its one unpublished event, and has counted it.
  pub create_booking-Effect :
      (r : Request p) (w : World t col p) → Effect w (create_booking t col p r w)
  unfolding create_booking
  create_booking-Effect r w = create_with-Effect r (truthy r.idempotency_key) w
