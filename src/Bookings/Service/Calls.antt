-- ===== src/Bookings/Service/Calls.antt =====
-- How often flydesk/bookings/services.py goes to the provider, by whatever measure of the world.
use Prim.Native.String.{◌++◌}
use fly_desk.Prelude.{
  ℕ, ◌+◌, ◌≤◌, ◌≡◌, refl, ap, Bool, true, false, String, inl, inr, Option, none, some, List, arith,
  Option-cases,
}
use fly_desk.Prelude.Options.{traverse}
use fly_desk.Errors.{Outcome, returned, raised}
use fly_desk.Domain.Text.{CharTable}
use fly_desk.Domain.Models.{BookingPassenger, Order}
use fly_desk.Mongo.{Collection}
use fly_desk.Bookings.Repository
use fly_desk.Bookings.Repository.{id_of, index_field}
use fly_desk.Bookings.Service.Ports.{Platform}
use fly_desk.Bookings.Service.Effects.{resolve-same}
use fly_desk.Bookings.Service.{
  World, Request, truthy, continue, find_key, reserve, checked, call_provider, stage_event,
  place_order, persist, saved, book, create_with, create_booking, existing_or_in_progress,
  book_or_recheck, replay_or_reserve, granted_reply, reservation_ttl,
}

-- A measure of the world that only the provider raises, by at most one a call.
pub record CountsOrders (p : Platform) (count : p.Env → ℕ) : Type 0 where
  pub redis_apart : (k : String) (ttl : ℕ) (e : p.Env) → count (p.set_nx k ttl e).1 ≡ count e
  pub uuid_apart : (e : p.Env) → count (p.uuid e).1 ≡ count e
  pub one_order :
      (name : Option String) (id : String) (ps : List BookingPassenger) (e : p.Env)
      → count (p.create_order name id ps e).1 ≤ count e + 1

module _ (t : CharTable) (col : Collection id_of index_field) (p : Platform) (count : p.Env → ℕ)
    (counts : CountsOrders p count) where
  staged-count :
      (key : Option String) (w : World t col p) (res : Outcome Order)
      → count (continue (stage_event t col p key) res w).1.env ≡ count w.env
  unfolding stage_event
  staged-count key w (returned o) = counts.uuid_apart w.env
  staged-count key w (raised e) = refl

  pub place_order-count :
      (r : Request p) (key : Option String) (w : World t col p)
      → count (place_order t col p r key w).1.env ≤ count w.env + 1
  unfolding place_order call_provider
  place_order-count r key w = elim (Option-cases (traverse p.passenger r.passengers_data)) [
    | inl bad ↦ rw (bad, checked) (omega arith)
    | inr (passengers, good) ↦
        rw (good, checked)
          (let (res, env) = p.create_order r.provider_name r.offer_id passengers w.env in
            omega (
              arith,
              staged-count key (record w { env = env }) res,
              counts.one_order r.provider_name r.offer_id passengers w.env,
            ))
  ]

  persist-count :
      (key : Option String) (o : Order) (w : World t col p)
      → count (persist t col p key o w).1.env ≡ count w.env
  unfolding persist
  persist-count key o w = go (Repository.save t col w.orders o)
    where
      go : (s : Option col.State) → count (saved t col p key o s w).1.env ≡ count w.env
      go none = ap (λ (v : World t col p). count v.env) (resolve-same t col p key w)
      go (some orders) = refl

  book-count :
      (r : Request p) (key : Option String) (w : World t col p)
      → count (book t col p r key w).1.env ≤ count w.env + 1
  unfolding book
  book-count r key w = go (place_order t col p r key w) (place_order-count r key w)
    where
      go :
          (x : Outcome Order × World t col p)
          → count x.1.env ≤ count w.env + 1
          → count (continue (persist t col p key) x.0 x.1).1.env ≤ count w.env + 1
      go (returned o, v) h = omega (arith, persist-count key o v)
      go (raised e, v) h = h

  recheck-count :
      (r : Request p) (key : String) (free : Bool) (w : World t col p)
      → count (book_or_recheck t col p r key free w).1.env ≤ count w.env + 1
  unfolding find_key
  recheck-count r key true w = book-count r (some key) w
  recheck-count r key false w = go (Repository.find_by_idempotency_key t col w.orders key)
    where
      go :
          (found : Outcome (Option Order))
          → count (continue (existing_or_in_progress t col p) found w).1.env ≤ count w.env + 1
      go (returned none) = omega arith
      go (returned (some o)) = omega arith
      go (raised e) = omega arith

  found-count :
      (r : Request p) (key : String) (found : Outcome (Option Order)) (w : World t col p)
      → count (continue (replay_or_reserve t col p r key) found w).1.env ≤ count w.env + 1
  unfolding reserve
  found-count r key (returned (some o)) w = omega arith
  found-count r key (raised e) w = omega arith
  found-count r key (returned none) w =
      let (reply, env) = p.set_nx ("idem:" ++ key) reservation_ttl w.env in
      omega (
        arith,
        recheck-count r key (granted_reply t col p reply) (record w { env = env }),
        counts.redis_apart ("idem:" ++ key) reservation_ttl w.env,
      )

  create_with-count :
      (r : Request p) (key : Option String) (w : World t col p)
      → count (create_with t col p r key w).1.env ≤ count w.env + 1
  unfolding find_key
  create_with-count r none w = book-count r none w
  create_with-count r (some key) w =
      found-count r key (Repository.find_by_idempotency_key t col w.orders key) w

  pub create_booking-count :
      (r : Request p) (w : World t col p)
      → count (create_booking t col p r w).1.env ≤ count w.env + 1
  unfolding create_booking
  create_booking-count r w = create_with-count r (truthy r.idempotency_key) w
