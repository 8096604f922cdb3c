-- ===== src/Bookings/Service/Blocked.antt =====
-- A booking that fails at the provider keeps its reservation in flydesk/bookings/services.py.
use Prim.Native.String.{◌++◌}
use mathlib.Core.Path.{subst}
use fly_desk.Prelude.{
  ◌≡◌, refl, sym, ap, ◌∙◌, true, false, String, inl, inr, Option, none, some, Option-cases,
}
use fly_desk.Prelude.Options.{traverse}
use fly_desk.Errors.{Exception, Outcome, returned, raised, domain, init, booking_in_progress}
use fly_desk.Domain.Text.{CharTable}
use fly_desk.Domain.Models.{Order}
use fly_desk.Mongo.{Collection}
use fly_desk.Bookings.Repository
use fly_desk.Bookings.Repository.{id_of, index_field}
use fly_desk.Bookings.Service.Ports.{
  Platform, IsReliable, RedisReply, acquired, refused, redis_error,
}
use fly_desk.Bookings.Service.Effects.{place_order-Staged, Staged}
use fly_desk.Bookings.Service.{
  World, Request, truthy, continue, find_key, reserve, checked, stage_event, place_order, persist,
  book, create_with, create_booking, existing_or_in_progress, book_or_recheck, replay_or_reserve,
  granted_reply, reservation_ttl,
}

module _ (t : CharTable) (col : Collection id_of index_field) (p : Platform)
    (redis : IsReliable p) where
  provided-held :
      (key : Option String) (j : String) (w : World t col p) (res : Outcome Order)
      → redis.held j (continue (stage_event t col p key) res w).1.env ≡ redis.held j w.env
  unfolding stage_event
  provided-held key j w (returned o) = redis.uuid_apart w.env j
  provided-held key j w (raised e) = refl

  -- Placing an order leaves every reservation as it is.
  pub place_order-held :
      (r : Request p) (key : Option String) (j : String) (w : World t col p)
      → redis.held j (place_order t col p r key w).1.env ≡ redis.held j w.env
  unfolding place_order
  place_order-held r key j w = elim (Option-cases (traverse p.passenger r.passengers_data)) [
    | inl bad ↦ rw (bad, checked) refl
    | inr (passengers, good) ↦
        rw (good, checked)
          (provided-held key j _ (p.create_order r.provider_name r.offer_id passengers w.env).0
            ∙ redis.provider_apart r.provider_name r.offer_id passengers w.env j)
  ]

  -- The world in which the reservation of `k` has been made.
  abbrev pub reserved : String → World t col p → World t col p
  reserved k w = record w { env = (p.set_nx ("idem:" ++ k) reservation_ttl w.env).1 }

  held-refuses :
      (k : String) (e : p.Env)
      → redis.held k e ≡ true
      → granted_reply t col p (p.set_nx k reservation_ttl e).0 ≡ false
  held-refuses k e held = go (p.set_nx k reservation_ttl e).0 refl
    where
      go :
          (r : RedisReply)
          → (p.set_nx k reservation_ttl e).0 ≡ r
          → granted_reply t col p (p.set_nx k reservation_ttl e).0 ≡ false
      go acquired q = cc ((redis.granted k reservation_ttl e q).0, held)
      go refused q = ap (granted_reply t col p) q
      go redis_error q = absurd (redis.never_down k reservation_ttl e q)

  absent-blocked :
      (q : Request p) (k : String) (w : World t col p)
      → Repository.find_by_idempotency_key t col w.orders k ≡ returned none
      → redis.held ("idem:" ++ k) w.env ≡ true
      → create_with t col p q (some k) w
        ≡ (raised (domain (init booking_in_progress none)), reserved k w)
  unfolding find_key reserve
  absent-blocked q k w absent held =
      ap (λ f. continue (replay_or_reserve t col p q k) f w) absent
      ∙ ap (λ free. book_or_recheck t col p q k free (reserved k w))
          (held-refuses ("idem:" ++ k) w.env held)
      ∙ ap (λ f. continue (existing_or_in_progress t col p) f (reserved k w)) absent

  failed_run :
      (r : Request p) (k : String) (w w' : World t col p) (e : Exception)
      → Repository.find_by_idempotency_key t col w.orders k ≡ returned none
      → (p.set_nx ("idem:" ++ k) reservation_ttl w.env).0 ≡ acquired
      → place_order t col p r (some k) (reserved k w) ≡ (raised e, w')
      → create_with t col p r (some k) w ≡ (raised e, w')
  unfolding find_key reserve book
  failed_run r k w w' e absent free failed =
      ap (λ f. continue (replay_or_reserve t col p r k) f w) absent
      ∙ ap (λ x. book_or_recheck t col p r k (granted_reply t col p x) (reserved k w)) free
      ∙ ap (λ (x : Outcome Order × World t col p). continue (persist t col p (some k)) x.0 x.1)
          failed

  -- A booking whose key is not in use fails before its order is placed, for a passenger or at the
  -- provider. Until the reservation expires, every further booking with that key is told that one is
  -- in progress, though none is.
  pub failed_booking_blocks :
      (r q : Request p) (k : String) (w w' : World t col p) (e : Exception)
      → truthy r.idempotency_key ≡ some k
      → truthy q.idempotency_key ≡ some k
      → Repository.find_by_idempotency_key t col w.orders k ≡ returned none
      → (p.set_nx ("idem:" ++ k) reservation_ttl w.env).0 ≡ acquired
      → place_order t col p r (some k) (reserved k w) ≡ (raised e, w')
      → (create_booking t col p r w ≡ (raised e, w'))
        × (create_booking t col p q w'
            ≡ (raised (domain (init booking_in_progress none)), reserved k w'))
  unfolding create_booking
  failed_booking_blocks r q k w w' e er eq absent free failed = (
    ap (λ m. create_with t col p r m w) er ∙ failed_run r k w w' e absent free failed,
    ap (λ m. create_with t col p q m w') eq
        ∙ absent-blocked q k w'
            (ap (λ s. Repository.find_by_idempotency_key t col s k) same ∙ absent)
            (ap (λ (x : Outcome Order × World t col p). redis.held ("idem:" ++ k) x.1.env)
                (sym failed)
              ∙ place_order-held r (some k) ("idem:" ++ k) (reserved k w)
              ∙ (redis.granted ("idem:" ++ k) reservation_ttl w.env free).1),
  )
    where
      same : w'.orders ≡ w.orders
      same =
          (subst (Staged t col p (reserved k w)) failed
            (place_order-Staged t col p r (some k) (reserved k w) (reserved k w) (refl, refl))).0
